-- ===== src/Redis/Source/Waiting.antt =====
-- redis_adapter.go: what `done` of a consumer, and so the WaitGroup of Close, waits for.
use taskbus.Pool.{Loop, waiting, finished, Pool}
use taskbus.Redis.Source.{Control, IsCancelled}

module _ {X : Type 0} where
  -- The loop has left its `for`.
  abbrev Left : Loop X → Type 0
  Left waiting = Unit
  Left finished = Unit
  Left _ = ⊥

  abbrev LeftCancelled : Pool Control X → Type 0
  LeftCancelled s = Left s.loop → IsCancelled s.control
