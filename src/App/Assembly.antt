-- ===== src/App/Assembly.antt =====
-- client.go: what New puts together.
use taskbus.Prelude.{
  GoMap, [], ◌∷◌, is_empty, not, ◌||◌, str_eq, Bool, true, false, ◌≡◌, refl, arith, Bool-cases, inl,
  inr,
}
use taskbus.Mq.{Err, Result, ok, err, Mq}
use taskbus.Retry.{Float64}
use taskbus.Idempotency.{
  IdempotencyConfig, new_idempotency_middleware, new_job_idempotency_middleware,
}
use taskbus.Config.{
  mq_defaults, mq_provider_rabbitmq, mq_provider_redis, StreamInstanceConfig, Config,
  apply_default_config,
}
use taskbus.Config.Defaults.{IsComplete, apply_default_config-IsComplete}
use taskbus.Config.Namespace.{IsNamespace, resolve_namespace, resolve_namespace_lem}
use taskbus.Streams.{add_streams, Manager, new_stream_manager}
use taskbus.Streams.Building.{present}
use taskbus.App.{
  App, Factory, new_mq, is_idempotent, bus_idempotency, job_idempotency, resolved, with_streams,
  with_mq, new,
}

module _ {W : Type 0} (fl : Float64) (factory : Factory fl.F W) where
  open fl use {nonpos_float, two}

  bus-present :
      (c : IdempotencyConfig W)
      → present (bus_idempotency fl factory c) ≡ is_idempotent fl factory c
  unfolding bus_idempotency new_idempotency_middleware
  bus-present c = elim (Bool-cases (is_idempotent fl factory c)) [
    | inl e ↦ rw e refl
    | inr e ↦ rw e refl
  ]

  job-present :
      (c : IdempotencyConfig W)
      → present (job_idempotency fl factory c) ≡ is_idempotent fl factory c
  unfolding job_idempotency new_job_idempotency_middleware new_idempotency_middleware
  job-present c = elim (Bool-cases (is_idempotent fl factory c)) [
    | inl e ↦ rw e refl
    | inr e ↦ rw e refl
  ]

  -- Something outside the process is asked for: a queue, or a stream.
  abbrev pub reaches_out : Config fl.F W → Bool
  reaches_out cfg =
      (str_eq cfg.mq.provider mq_provider_rabbitmq || str_eq cfg.mq.provider mq_provider_redis)
      || not (is_empty cfg.streams)

  -- A client that has what `cfg` asks for, or an error of something outside.
  abbrev pub Assembled : Config fl.F W → Result (App fl.F W) → Type 0
  Assembled cfg (err e) = reaches_out cfg ≡ true
  Assembled cfg (ok app) =
      IsNamespace app.client.namespace
      × (app.client.cfg.namespace ≡ app.client.namespace)
      × IsComplete fl app.client.cfg
      × (present app.job_default ≡ is_idempotent fl factory cfg.idempotency)
      × (present app.bus_default ≡ is_idempotent fl factory cfg.idempotency)

  failed_streams :
      (configs : GoMap StreamInstanceConfig) (e : Err) (w : W)
      → (new_stream_manager factory.without_retry configs w).0 ≡ err e
      → is_empty configs ≡ false
  unfolding new_stream_manager add_streams
  failed_streams [] e w h = cc
  failed_streams (s ∷ configs) e w h = refl

  streams-Assembled :
      (cfg : Config fl.F W) (mq : Mq W) (r : Result (Manager W))
      → nonpos_float two ≡ false
      → ((e : Err) → r ≡ err e → is_empty cfg.streams ≡ false)
      → Assembled cfg (with_streams fl factory (resolved fl factory cfg) mq r)
  unfolding with_streams resolved apply_default_config
  streams-Assembled cfg mq (err e) h only = ground (arith, only e refl)
  streams-Assembled cfg mq (ok streams) h only = (
    (resolve_namespace_lem cfg.namespace).0,
    refl,
    apply_default_config-IsComplete fl (record cfg { namespace = resolve_namespace cfg.namespace })
        h,
    job-present cfg.idempotency,
    bus-present cfg.idempotency,
  )

  mq-Assembled :
      (cfg : Config fl.F W) (r : Result (Mq W)) (w : W)
      → nonpos_float two ≡ false
      → ((e : Err) → r ≡ err e → reaches_out cfg ≡ true)
      → Assembled cfg (with_mq fl factory (resolved fl factory cfg) r w).0
  unfolding with_mq resolved apply_default_config
  mq-Assembled cfg (err e) w h only = only e refl
  mq-Assembled cfg (ok mq) w h only =
      streams-Assembled cfg mq (new_stream_manager factory.without_retry cfg.streams w).0 h
        (λ e failed. failed_streams cfg.streams e w failed)

  failed_mq :
      (cfg : Config fl.F W) (e : Err) (w : W)
      → (new_mq fl factory (resolved fl factory cfg).mq w).0 ≡ err e
      → reaches_out cfg ≡ true
  unfolding new_mq resolved apply_default_config mq_defaults
  failed_mq cfg e w h = elim (Bool-cases (str_eq cfg.mq.provider mq_provider_rabbitmq)) [
    | inl a ↦ ground arith
    | inr a ↦ elim (Bool-cases (str_eq cfg.mq.provider mq_provider_redis)) [
      | inl b ↦ ground arith
      | inr b ↦ let good = rw (a, b) at h in cc
    ]
  ]

  -- Whatever the configuration is, New returns an error, which it does only where a queue or a
  -- stream outside the process is configured, or a client whose namespace is valid and is the one
  -- in its configuration, whose values are usable and whose cron is distributed, and whose jobs
  -- and events have the default idempotency exactly if a store or an address of Redis is
  -- configured: New never reaches the panic on a missing store. Two is greater than zero.
  pub new-Assembled :
      (cfg : Config fl.F W) (w : W)
      → nonpos_float two ≡ false
      → Assembled cfg (new fl factory cfg w).0
  unfolding new
  new-Assembled cfg w h =
      let r = new_mq fl factory (resolved fl factory cfg).mq w in
      mq-Assembled cfg r.0 r.1 h (λ e failed. failed_mq cfg e w failed)
