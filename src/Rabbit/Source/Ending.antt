-- ===== src/Rabbit/Source/Ending.antt =====
-- rabbitmq_adapter.go: how the goroutines of Consume end.
use taskbus.Prelude.{ℤ, [], ◌∷◌, true, false, ◌≡◌, refl}
use taskbus.Pool.{selecting, crashed, Pool, go_to, silent, turns, breaks, here, next}
use taskbus.Rabbit.Source.{open_channel, closed_channel, Control, stops, closes_notice, RabbitSteps}

module _ {X : Type 0} (n : ℤ) where
  -- A panic has a stop before it.
  record StopsFirst (s : Pool (Control X) X) : Type 0 where
    closed_notice : s.control.notice ≡ closed_channel → s.control.stopped ≡ true
    crashed_loop : s.loop ≡ crashed → s.control.stopped ≡ true

  -- Wherever the loop stands at its `select` with no failure noted, a stop can make it panic: three
  -- steps lead there, the close of the AMQP channel, the close of `closeChan`, and the receive.
  pub stop-crashes :
      (s : Pool (Control X) X)
      → s.loop ≡ selecting
      → s.control.notice ≡ open_channel
      → s.control.stopped ≡ false
      → (t : Pool (Control X) X) × RabbitSteps n s (silent ∷ silent ∷ silent ∷ []) t
        × (t.loop ≡ crashed)
  unfolding go_to
  stop-crashes s e quiet still = (
    _,
    next
        (next (next here (turns (rw e refl) (stops still)))
          (turns (rw e refl) (closes_notice quiet refl)))
        (breaks e refl),
    refl,
  )
