-- ===== src/Examples/Deliveries.antt =====
-- The goroutines of a RabbitMQ consumer at concrete runs: deliveries are numbers.
use taskbus.Prelude.{ℕ, pos, [], ◌∷◌, true, ◌≡◌, refl}
use taskbus.Pool.{finished, crashed, Pool, new_pool, silent}
use taskbus.Rabbit.Source.{Control, new_control, RabbitSteps}
use taskbus.Rabbit.Source.Ending.{stop-crashes}

abbrev start : Pool (Control ℕ) ℕ
start = new_pool new_control

-- The stop has closed the channel, and with it the deliveries.
abbrev stopped : Pool (Control ℕ) ℕ
stopped = record start { control = record new_control { ended = true; stopped = true } }

abbrev over : Pool (Control ℕ) ℕ
over = record stopped { loop = finished }

stop-crashes_example :
    (t : Pool (Control ℕ) ℕ) × RabbitSteps (pos 1) start (silent ∷ silent ∷ silent ∷ []) t
    × (t.loop ≡ crashed)
stop-crashes_example = stop-crashes (pos 1) start refl refl refl
