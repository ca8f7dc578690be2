-- ===== src/Streams/Building.antt =====
-- stream_manager.go: what newStreamManager makes and leaves, counted by adapters.
use taskbus.Prelude.{
  ℕ, suc, ◌+◌, ◌≤◌, Str, GoMap, Option, none, some, Bool, true, false, length, lookup, ◌≡◌,
  if◌then◌else◌,
}
use taskbus.Mq.{Err, Result, ok, err, Mq, init_stream}
use taskbus.Config.{RabbitMqConfig, RedisConfig, StreamInstanceConfig}
use taskbus.Streams.{Constructors, Manager}

module _ {W : Type 0} where
  abbrev pub Made : (W → ℕ) → W → Result (Mq W) × W → Type 0
  Made live w (ok q, w') = live w' ≡ suc (live w)
  Made live w (err e, w') = live w' ≡ live w

  -- `live` counts the adapters that were made: each has a connection or a goroutine of its own.
  pub record CountsMade (make : Constructors W) (live : W → ℕ) : Type 0 where
    pub new_rabbitmq :
        (c : RabbitMqConfig) (mode : Str) (w : W) → Made live w (make.new_rabbitmq c mode w)
    pub new_redis : (c : RedisConfig) (w : W) → Made live w (make.new_redis c w)

-- The names that are there: `some tt` where `name` is.
abbrev pub present {ℓ} : {V : Type ℓ} → Option V → Bool
present none = false
present (some v) = true

module _ {W : Type 0} (make : Constructors W) (live : W → ℕ) (law : CountsMade make live) where
  -- All adapters are there and every name is found, or the error names an instance, and the `n`
  -- adapters made before it, which nobody can reach any more, are not closed.
  abbrev pub Built : GoMap StreamInstanceConfig → Manager W → ℕ → Result (Manager W) × W → Type 0
  Built configs streams base (ok streams', w) =
      (live w ≡ base + length configs)
      × ((name : Str)
          → present (lookup name streams')
            ≡ (if present (lookup name configs) then true else present (lookup name streams)))
  Built configs streams base (err e, w) =
      (n : ℕ) × (name : Str) × (cause : Err) × (n ≤ length configs)
      × (live w ≡ base + n)
      × (e ≡ init_stream name cause)
