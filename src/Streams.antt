-- ===== src/Streams.antt =====
-- stream_manager.go: the stream instances by name, each a queue of its own. The constructors of the
-- adapters are a parameter, the record `Constructors`.
pub mod Building
use taskbus.Prelude.{
  Str, GoMap, List, [], ◌∷◌, Option, none, some, Bool, Exec, pure, ◌>>=◌, ◌>>◌, is_empty, str_eq,
  lookup, insert, if◌then◌else◌,
}
use taskbus.Mq.{
  Err, stream_not_found, unsupported_stream_provider, init_stream, GoError, Result, ok, err,
  Context, Mq,
}
use taskbus.Config.{
  RabbitMqConfig, RedisConfig, StreamInstanceConfig, delay_mode_standard, mq_provider_rabbitmq,
  mq_provider_redis,
}

-- newRabbitMQAdapterWithMode and newRedisAdapter, with the retry values that are passed.
pub record Constructors (W : Type 0) : Type 0 where
  pub new_rabbitmq : RabbitMqConfig → Str → Exec W (Result (Mq W))
  pub new_redis : RedisConfig → Exec W (Result (Mq W))

abbrev pub Manager : Type 0 → Type 0
Manager W = GoMap (Mq W)

-- GetStream
unfoldable pub get_stream : {W : Type 0} → Str → Manager W → Result (Mq W)
get_stream name streams = elim (lookup name streams) [
  | none ↦ err (stream_not_found name)
  | some q ↦ ok q
]

-- Close; the errors are dropped.
unfoldable pub close_all : {W : Type 0} → Context → Manager W → Exec W GoError
close_all ctx [] = pure none
close_all ctx ((name, q) ∷ streams) = do q.close ctx; close_all ctx streams

abbrev pub stream_mode : RabbitMqConfig → Str
stream_mode c = if is_empty c.delay_mode then delay_mode_standard else c.delay_mode

module _ {W : Type 0} (make : Constructors W) where
  -- The `switch` over the provider.
  unfoldable pub new_stream : StreamInstanceConfig → Exec W (Result (Mq W))
  new_stream sc =
      if str_eq sc.provider mq_provider_rabbitmq
      then make.new_rabbitmq sc.rabbitmq (stream_mode sc.rabbitmq)
      else if str_eq sc.provider mq_provider_redis
      then make.new_redis sc.redis
      else pure (err (unsupported_stream_provider sc.provider))

  -- The adapter goes under the name, and the loop goes on; an error returns.
  unfoldable pub put_stream :
      Str
      → (Manager W → Exec W (Result (Manager W)))
      → Manager W
      → Result (Mq W)
      → Exec W (Result (Manager W))
  put_stream name next streams (ok q) = next (insert name q streams)
  put_stream name next streams (err e) = pure (err (init_stream name e))

  unfoldable pub add_streams : GoMap StreamInstanceConfig → Manager W → Exec W (Result (Manager W))
  unfolding new_stream put_stream
  add_streams [] streams = pure (ok streams)
  add_streams ((name, sc) ∷ configs) streams = do
    r ← new_stream sc
    put_stream name (add_streams configs) streams r

  -- newStreamManager
  unfoldable pub new_stream_manager : GoMap StreamInstanceConfig → Exec W (Result (Manager W))
  unfolding add_streams
  new_stream_manager configs = add_streams configs []
