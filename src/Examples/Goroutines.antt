-- ===== src/Examples/Goroutines.antt =====
-- The goroutines of a Redis consumer at concrete runs: messages are numbers.
use taskbus.Prelude.{ℕ, ◌+◌, ◌≤◌, pos, List, [], ◌∷◌, true, false, ◌≡◌, refl, ◌⊎◌, arith, length}
use taskbus.Pool.{
  concurrency, selecting, finished, Pool, new_pool, go_to, take_token, start_worker, give_token,
  leave, Label, silent, fetched, ended, turns, goes_on, gets, quits, takes, starts, ends, leaves,
  closes, here, next,
}
use taskbus.Pool.Bounds.{running-le-concurrency}
use taskbus.Pool.Drain.{total_ended, total_fetched, done-drained}
use taskbus.Pool.Winding.{steps_left, CanStep}
use taskbus.Redis.Source.{
  Control, new_control, cancels, reads, answers, redis_source, rank, RedisSteps, cancelled_ends,
}

abbrev start : Pool Control ℕ
start = new_pool new_control

-- The loop has read 7 and started its worker.
abbrev working : Pool Control ℕ
working = record {
  control = new_control;
  loop = selecting;
  tokens = 1;
  group = 1;
  running = 7 ∷ [];
  leaving = 0;
}

abbrev work_trace : List (Label ℕ)
work_trace = silent ∷ silent ∷ fetched (7 ∷ []) ∷ silent ∷ []

working_steps : RedisSteps (pos 1) start work_trace working
unfolding go_to take_token start_worker concurrency
working_steps =
    next
      (next
        (next (next here (goes_on refl (reads refl refl)))
          (gets (7 ∷ []) refl (answers (7 ∷ []) refl (omega arith))))
        (takes 7 [] refl (omega arith)))
      (starts 7 [] refl)

running-le-concurrency_example :
    (length working.running ≤ concurrency (pos 1)) × (concurrency (pos 1) ≡ 1)
running-le-concurrency_example =
    running-le-concurrency (redis_source (concurrency (pos 1))) (pos 1) working_steps

-- The context is cancelled while the worker runs.
abbrev cancelled : Pool Control ℕ
cancelled = record working { control = record { cancelled = true; reading = false } }

cancelled_steps : RedisSteps (pos 1) start (silent ∷ work_trace) cancelled
unfolding go_to
cancelled_steps = next working_steps (turns refl (cancels refl))

abbrev over : Pool Control ℕ
over = record {
  control = record { cancelled = true; reading = false };
  loop = finished;
  tokens = 0;
  group = 0;
  running = [];
  leaving = 0;
}

abbrev end_trace : List (Label ℕ)
end_trace = silent ∷ silent ∷ silent ∷ ended 7 ∷ []

-- The worker ends, and the loop leaves.
end_steps : RedisSteps (pos 1) cancelled end_trace over
unfolding go_to give_token leave
end_steps =
    next
      (next (next (next here (ends [] 7 [] refl refl)) (leaves refl (omega arith)))
        (quits refl (refl, refl)))
      (closes refl refl)

all_steps : RedisSteps (pos 1) start (silent ∷ silent ∷ silent ∷ ended 7 ∷ silent ∷ work_trace) over
unfolding go_to give_token leave
all_steps =
    next
      (next (next (next cancelled_steps (ends [] 7 [] refl refl)) (leaves refl (omega arith)))
        (quits refl (refl, refl)))
      (closes refl refl)

done-drained_example :
    (over.running ≡ [])
    × (over.leaving ≡ 0)
    × ((f : ℕ → ℕ)
        → total_ended f (silent ∷ silent ∷ silent ∷ ended 7 ∷ silent ∷ work_trace)
          ≡ total_fetched f (silent ∷ silent ∷ silent ∷ ended 7 ∷ silent ∷ work_trace))
done-drained_example =
    done-drained (redis_source (concurrency (pos 1))) (concurrency (pos 1)) all_steps refl

cancelled_ends_example :
    (length end_trace + steps_left (rank (concurrency (pos 1))) over
      ≤ steps_left (rank (concurrency (pos 1))) cancelled)
    × ((over.loop ≡ finished)
        ⊎ CanStep (redis_source (concurrency (pos 1))) (concurrency (pos 1)) over)
cancelled_ends_example = cancelled_ends (pos 1) cancelled_steps refl end_steps
