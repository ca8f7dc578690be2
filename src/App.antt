-- ===== src/App.antt =====
-- client.go: New puts the parts together, and Close. The constructors of adapters and of a store in
-- Redis are parameters. Options only set the logger.
pub mod Assembly
use taskbus.Prelude.{
  ℕ, ℤ, pos, Str, codes, GoMap, List, [], ◌∷◌, Option, none, some, Bool, true, false, not, ◌||◌,
  Exec, pure, ◌>>=◌, ◌>>◌, is_empty, str_eq, if◌then◌else◌,
}
use taskbus.Mq.{Err, GoError, Result, ok, err, Context, Middleware, JobMiddleware, Mq, noop_mq}
use taskbus.Retry.{Float64, RetryConfig}
use taskbus.Idempotency.{
  Kv, IdempotencyConfig, default_job_key, new_idempotency_middleware,
  new_job_idempotency_middleware,
}
use taskbus.Config.{
  Config, MqConfig, Client, apply_default_config, mq_provider_rabbitmq, mq_provider_redis,
}
use taskbus.Config.Namespace.{resolve_namespace}
use taskbus.Streams.{Constructors, Manager, stream_mode, close_all, new_stream_manager}

-- What New returns: the client with its default middlewares and its streams. Jobs, Cron and
-- EventBus are the client seen through their methods.
pub record App (F W : Type 0) : Type 0 where
  pub client : Client F W
  pub job_default : Option (JobMiddleware W)
  pub bus_default : Option (Middleware W)
  pub streams : Manager W

-- A zero value of RetryConfig goes to the adapters of streams.
pub record Factory (F W : Type 0) : Type 0 where
  pub with_retry : RetryConfig F → Constructors W
  pub without_retry : Constructors W
  pub redis_kv : Str → Str → Str → ℤ → Kv W

module _ {W : Type 0} (fl : Float64) (factory : Factory fl.F W) where
  -- The `switch` over the provider.
  unfoldable pub new_mq : MqConfig fl.F → Exec W (Result (Mq W))
  new_mq c =
      if str_eq c.provider mq_provider_rabbitmq
      then (factory.with_retry c.retry).new_rabbitmq c.rabbitmq (stream_mode c.rabbitmq)
      else if str_eq c.provider mq_provider_redis
      then (factory.with_retry c.retry).new_redis c.redis
      else pure (ok noop_mq)

  unfoldable pub is_idempotent : IdempotencyConfig W → Bool
  is_idempotent c = elim c.kv [ none ↦ not (is_empty c.redis_addr) | some kv ↦ true ]

  -- The store, built from the parameters for Redis where none is given.
  unfoldable pub kv_of : IdempotencyConfig W → Kv W
  kv_of c = elim c.kv [
    | none ↦ factory.redis_kv c.redis_addr c.redis_username c.redis_password c.redis_db
    | some kv ↦ kv
  ]

  unfoldable pub bus_idempotency : IdempotencyConfig W → Option (Middleware W)
  unfolding is_idempotent kv_of
  bus_idempotency c =
      if is_idempotent c
      then new_idempotency_middleware (record c { kv = some (kv_of c) })
      else none

  unfoldable pub job_idempotency : IdempotencyConfig W → Option (JobMiddleware W)
  unfolding is_idempotent kv_of
  job_idempotency c =
      if is_idempotent c
      then new_job_idempotency_middleware (record {
        kv = some (kv_of c);
        redis_addr = [];
        redis_username = [];
        redis_password = [];
        redis_db = pos 0;
        prefix = c.prefix;
        ttl = c.ttl;
        key_func = some default_job_key;
      })
      else none

  -- The configuration in use.
  unfoldable pub resolved : Config fl.F W → Config fl.F W
  resolved cfg =
      apply_default_config fl (record cfg { namespace = resolve_namespace cfg.namespace })

  unfoldable pub with_streams : Config fl.F W → Mq W → Result (Manager W) → Result (App fl.F W)
  unfolding bus_idempotency job_idempotency
  with_streams cfg mq (err e) = err e
  with_streams cfg mq (ok streams) = ok (record {
    client = record { cfg = cfg; mq = mq; namespace = cfg.namespace };
    job_default = job_idempotency cfg.idempotency;
    bus_default = bus_idempotency cfg.idempotency;
    streams = streams;
  })

  unfoldable pub with_mq : Config fl.F W → Result (Mq W) → Exec W (Result (App fl.F W))
  unfolding with_streams
  with_mq cfg (err e) = pure (err e)
  with_mq cfg (ok mq) = do
    r ← new_stream_manager factory.without_retry cfg.streams
    pure (with_streams cfg mq r)

  -- New
  unfoldable pub new : Config fl.F W → Exec W (Result (App fl.F W))
  unfolding resolved new_mq with_mq
  new cfg = do let c = resolved cfg; r ← new_mq c.mq; with_mq c r

-- Close; the errors are dropped.
unfoldable pub close : {F W : Type 0} → App F W → Context → Exec W GoError
close app ctx = do app.client.mq.close ctx; close_all ctx app.streams; pure none
