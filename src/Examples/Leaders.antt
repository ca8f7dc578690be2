-- ===== src/Examples/Leaders.antt =====
-- The leader of the cron at concrete runs: its loop against a stop, and its elections.
use taskbus.Prelude.{
  ℕ, suc, ◌-◌, ◌≤◌, ℤ, pos, codes, [], ◌∷◌, none, true, false, ◌≡◌, refl, ◌⊎◌, length,
}
use taskbus.Mq.{ok, noop_mq}
use taskbus.Config.{Client, mq_provider_rabbitmq}
use taskbus.Cron.Leader.{
  acquiring, leading, ended, Service, new_service, Actor, loop, stop, Step, polls, loses, signals,
  cancels, wakes, returns, Steps, here, next,
}
use taskbus.Cron.Leader.Stopping.{Anyone, stop_ends}
use taskbus.Cron.Election.{Electoral}
use taskbus.Examples.Settings.{bare}

-- A Stop that closes the channel before the first round.
abbrev told : Service
told = record new_service { stop_closed = true; stopper = taskbus.Cron.Leader.signalled }

told_steps : Steps Anyone new_service (stop ∷ []) told
told_steps = next here tt (signals refl)

ended_steps : Steps Anyone told (loop ∷ []) (record told { phase = ended })
ended_steps = next here tt (returns refl refl)

stop_ends_example :
    (length {A = Actor} (loop ∷ []) ≤ 11)
    × (((ended ≡ ended) × (told.scheduler ≡ false))
        ⊎ ((u : Service) × Step loop (record told { phase = ended }) u))
stop_ends_example = stop_ends told_steps (record { closed = refl; covered = tt }) ended_steps

abbrev trying : Service
trying = record new_service { phase = acquiring }

-- A world that counts what is open; every call succeeds.
abbrev calls : Electoral ℕ
calls = record {
  dial = λ uri w. (ok 1, suc w);
  channel = λ conn w. (ok 2, w);
  declare_lock = λ ch q w. (none, w);
  close_channel = λ ch w. (none, w);
  close_connection = λ conn w. (none, w - 1);
  new_client = λ addr user password db w. (3, suc w);
  set_nx = λ rc ctx key id ttl w. (true, w);
  close_client = λ rc w. (none, w - 1);
  with_cancel = λ ctx w. (ctx, w);
  hostname = λ w. (none, w);
  getpid = λ w. (4, w);
  unix_nano = λ w. (pos 5, w);
  watch_connection = λ ctx conn w. (none, w);
  keep_lease = λ ctx rc key id ttl w. (none, w);
}

abbrev client : Client ℤ ℕ
client = record {
  cfg = record (bare {W = ℕ}) { mq = record (bare {W = ℕ}).mq { provider = mq_provider_rabbitmq } };
  mq = noop_mq;
  namespace = codes "shop";
}
