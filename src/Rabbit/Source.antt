-- ===== src/Rabbit/Source.antt =====
-- rabbitmq_adapter.go: the `select` of the loop in Consume as a source of deliveries for the
-- goroutines of Pool. As the AMQP client documents it, NotifyClose sends the error of a channel that
-- fails, and only closes the Go channel where the AMQP channel is closed by its own side.
pub mod Ending
use taskbus.Prelude.{
  ℕ, suc, ◌+◌, ◌*◌, ◌≤◌, ◌<◌, ℤ, List, [], ◌∷◌, ◌++◌, Bool, true, false, ◌≡◌, ◌≢◌, refl, arith,
  length, length-append, ◌⊎◌, inl, inr, if◌then◌else◌, ◌∙◌,
}
use taskbus.Pool.{
  concurrency, Source, Loop, selecting, dispatching, starting, waiting, finished, crashed,
  dispatch_rest, Pool, new_pool, go_to, take_token, start_worker, give_token, leave, Label, silent,
  Step, turns, goes_on, gets, quits, breaks, takes, starts, ends, leaves, closes, Steps, here, next,
  is_alive,
}
use taskbus.Pool.Winding.{Winds, IsOver, steps_left, winds_down, CanStep}

-- What `closeChan` holds: nothing, an error, or nothing for ever, since it is closed.
pub data Notice : Type 0 where
  open_channel : Notice
  failure : Notice
  closed_channel : Notice

-- The context; `closeChan`; the deliveries in `msgs`, and whether it is closed behind them; whether
-- the stop has closed the AMQP channel.
pub record Control (X : Type 0) : Type 0 where
  pub done : Bool
  pub notice : Notice
  pub buffer : List X
  pub ended : Bool
  pub stopped : Bool

abbrev pub still_open : Notice → ℕ
still_open open_channel = 1
still_open _ = 0

module _ {X : Type 0} where
  abbrev pub new_control : Control X
  new_control = record {
    done = false;
    notice = open_channel;
    buffer = [];
    ended = false;
    stopped = false;
  }

  pub data Outer : Control X → Control X → Type 0 where
    context_ends : {c : Control X} → c.done ≡ false → Outer c (record c { done = true })
    arrives :
        {c : Control X} (x : X)
        → c.ended ≡ false
        → Outer c (record c { buffer = c.buffer ++ x ∷ [] })
    -- the stop: ch.Close()
    stops : {c : Control X} → c.stopped ≡ false → Outer c (record c { stopped = true })
    fails : {c : Control X} → c.notice ≡ open_channel → Outer c (record c { notice = failure })
    closes_notice :
        {c : Control X}
        → c.notice ≡ open_channel
        → c.stopped ≡ true
        → Outer c (record c { notice = closed_channel })
    ends_deliveries :
        {c : Control X}
        → c.ended ≡ false
        → (c.stopped ≡ true) ⊎ (c.notice ≢ open_channel)
        → Outer c (record c { ended = true })

  -- case d, ok := <-msgs, with a delivery
  pub data Gives : Control X → List X → Control X → Type 0 where
    delivers :
        {c : Control X} (x : X) (xs : List X)
        → c.buffer ≡ x ∷ xs
        → Gives c (x ∷ []) (record c { buffer = xs })

  -- The three cases that wait for the workers and return.
  pub data Quits : Control X → Type 0 where
    by_context : {c : Control X} → c.done ≡ true → Quits c
    by_failure : {c : Control X} → c.notice ≡ failure → Quits c
    by_end : {c : Control X} → c.buffer ≡ [] → c.ended ≡ true → Quits c

  -- A receive from the closed `closeChan` gives a nil *amqp.Error, and err.Error() dereferences it.
  abbrev pub Breaks : Control X → Type 0
  Breaks c = c.notice ≡ closed_channel

  abbrev pub rabbit_source : Source X
  rabbit_source = record {
    Control = Control X;
    Outer = Outer;
    Inner = λ c d. ⊥;
    Gives = Gives;
    Quits = Quits;
    Breaks = Breaks;
  }

  abbrev pub HasEnded : Control X → Type 0
  HasEnded c = c.ended ≡ true

  abbrev pub rank : Control X → ℕ
  rank c =
      5 * length c.buffer
      + (if c.done then 0 else 1)
      + still_open c.notice
      + (if c.stopped then 0 else 1)

  ended-Outer : {c d : Control X} → HasEnded c → Outer c d → HasEnded d × (rank d < rank c)
  ended-Outer h (context_ends e) = (h, rw e (omega arith))
  ended-Outer h (arrives x e) = cc
  ended-Outer h (stops e) = (h, rw e (omega arith))
  ended-Outer h (fails e) = (h, rw e (omega arith))
  ended-Outer h (closes_notice e s) = (h, rw e (omega arith))
  ended-Outer h (ends_deliveries e s) = cc

  ended-Gives :
      {c : Control X} {xs : List X} {d : Control X}
      → HasEnded c
      → Gives c xs d
      → HasEnded d × (rank d + 4 * length xs < rank c)
  ended-Gives h (delivers x xs e) = (h, rw e (omega arith))

  ended_ready :
      (c : Control X) (buffer : List X)
      → c.buffer ≡ buffer
      → HasEnded c
      → Quits c ⊎ (((d : Control X) × ⊥) ⊎ ((xs : List X) × (d : Control X) × Gives c xs d))
  ended_ready c [] e h = inl (by_end e h)
  ended_ready c (x ∷ xs) e h = inr (inr (x ∷ [], _, delivers x xs e))

  pub ended-Winds : Winds rabbit_source HasEnded rank
  ended-Winds = record {
    outer = ended-Outer;
    inner = λ h i. absurd i;
    gives = ended-Gives;
    ready = λ {c} h. ended_ready c c.buffer refl h;
  }

module _ {X : Type 0} (n : ℤ) where
  -- The goroutines of a consumer, with the limit that the configuration gives.
  abbrev pub RabbitSteps : Pool (Control X) X → List (Label X) → Pool (Control X) X → Type 0
  RabbitSteps = Steps rabbit_source (concurrency n)
