-- ===== src/Redis/Adapter.antt =====
-- redis_adapter.go: the constructor, Consume up to its goroutine, the stop that it returns, Close.
-- The goroutine's steps are those of Pool with the source of Redis/Source.
pub mod Names
use taskbus.Prelude.{
  ℕ, suc, ◌+◌, ◌%◌, ◌^◌, ℤ, pos, Str, codes, List, [], ◌∷◌, ◌++◌, Option, none, some, Bool, true,
  false, Exec, pure, ◌>>=◌, ◌>>◌, is_empty, itoa, if◌then◌else◌,
}
use taskbus.Mq.{
  GoError, Result, ok, err, redis_addr_empty, Context, Handler, Middleware, Stop, wrap,
}
use taskbus.Config.{RedisConfig}
use taskbus.Retry.{Float64, RetryConfig, guarded_retry}
use taskbus.Redis.{redis_stream_for_topic}
use taskbus.Pool.{concurrency}

-- What the goroutine of one consumer works with.
pub record Consumer : Type 0 where
  pub context : Context
  pub stream : Str
  pub pattern : Str
  pub group : Str
  pub name : Str
  pub limit : ℕ

-- The calls of the operating system and of the Redis client; `spawn` is the `go` of Consume, and
-- names the goroutine. `wait_done` and `wait_all` are the `select` in the stop and in Close: nil
-- when the goroutines are done, or the error of the context.
pub record Session (W : Type 0) : Type 0 where
  pub hostname : Exec W Str
  pub getpid : Exec W ℕ
  pub new_client : Str → Str → Str → ℤ → Exec W ℕ
  pub spawn_scheduler : Exec W GoError
  pub x_group_create_mk_stream : Context → Str → Str → Str → Exec W GoError
  pub with_cancel : Context → Exec W Context
  pub cancel : Context → Exec W GoError
  pub spawn : Consumer → Handler W → Exec W ℕ
  pub stop_scheduler : Exec W GoError
  pub wait_done : Context → ℕ → Exec W GoError
  pub wait_all : Context → Exec W GoError
  pub close_client : Exec W GoError

-- The adapter: what the constructor fixes, the counter of consumer names and closeOnce; and, for
-- the record, the consumers that it started, the last one first.
pub record Adapter (F W : Type 0) : Type 0 where
  pub cfg : RedisConfig
  pub retry : RetryConfig F
  pub consumer_base : Str
  pub consumer_seq : ℕ
  pub stopped : Bool
  pub consumers : List Consumer
  pub env : W

-- fmt.Sprintf("%s-%d", s, n)
unfoldable pub numbered : Str → ℕ → Str
numbered s n = s ++ b'-' ∷ itoa (pos n)

module _ {W : Type 0} (fl : Float64) (session : Session W) where
  open fl use {F}

  -- An action of the environment.
  abbrev lift : {A : Type 0} → Exec W A → Exec (Adapter F W) A
  lift m a = let (r, w) = m a.env in (r, record a { env = w })

  -- The adapter behind the checks; it starts the delay scheduler.
  unfoldable pub open_adapter : RedisConfig → RetryConfig F → Exec W (Adapter F W)
  unfolding numbered
  open_adapter cfg retry w =
      let (hn, w1) = session.hostname w in
      let (pid, w2) = session.getpid w1 in
      let (client, w3) = session.new_client cfg.addr cfg.username cfg.password cfg.db w2 in
      let (e, w4) = session.spawn_scheduler w3 in
      let a : Adapter F W = record {
        cfg = cfg;
        retry = guarded_retry fl retry;
        consumer_base = numbered (if is_empty hn then codes "c" else hn) pid;
        consumer_seq = 0;
        stopped = false;
        consumers = [];
        env = w4;
      } in
      (a, w4)

  -- newRedisAdapter
  unfoldable pub new_redis_adapter : RedisConfig → RetryConfig F → Exec W (Result (Adapter F W))
  unfolding open_adapter
  new_redis_adapter cfg retry =
      if is_empty cfg.addr
      then pure (err redis_addr_empty)
      else (do a ← open_adapter cfg retry; pure (ok a))

  -- nextConsumerName; the counter is a uint64.
  unfoldable pub next_consumer_name : Exec (Adapter F W) Str
  unfolding numbered
  next_consumer_name a =
      let n = (a.consumer_seq + 1) % 2 ^ 64 in
      (numbered a.consumer_base n, record a { consumer_seq = n })

  -- The stop of a consumer; it cancels the context of the goroutine.
  unfoldable pub stop_consumer : Context → ℕ → Stop (Adapter F W)
  stop_consumer cctx id sctx = do lift (session.cancel cctx); lift (session.wait_done sctx id)

  -- The values of a consumer.
  unfoldable pub consumer_of : Adapter F W → Context → Str → Str → Str → Consumer
  consumer_of a cctx topic group name = record {
    context = cctx;
    stream = redis_stream_for_topic topic;
    pattern = topic;
    group = group;
    name = name;
    limit = concurrency a.cfg.consumer_concurrency;
  }

  -- r.wg.Add(1) and the `go`.
  unfoldable pub launch :
      Context → Consumer → Handler W → Exec (Adapter F W) (Result (Stop (Adapter F W)))
  unfolding stop_consumer
  launch cctx consumer final a =
      let (id, w) = session.spawn consumer final a.env in
      (ok (stop_consumer cctx id), record a { consumers = consumer ∷ a.consumers; env = w })

  abbrev pub group_or_default : Str → Str
  group_or_default group = if is_empty group then codes "default" else group

  -- Consume
  unfoldable pub consume :
      Context
      → Str
      → Str
      → Handler W
      → List (Middleware W)
      → Exec (Adapter F W) (Result (Stop (Adapter F W)))
  unfolding consumer_of next_consumer_name launch
  consume ctx topic group handler mws = do
    lift (
        session.x_group_create_mk_stream ctx (redis_stream_for_topic topic) (group_or_default group)
          (codes "0"))
    cctx ← lift (session.with_cancel ctx)
    name ← next_consumer_name
    λ a. launch cctx (consumer_of a cctx topic (group_or_default group) name) (wrap mws handler) a

  -- closeOnce: the delay scheduler is told to stop once.
  unfoldable pub close_once : Bool → Exec (Adapter F W) GoError
  close_once true a = (none, a)
  close_once false a = lift session.stop_scheduler (record a { stopped = true })

  -- Close
  unfoldable pub close : Context → Exec (Adapter F W) GoError
  unfolding close_once
  close ctx = do
    (λ a. close_once a.stopped a)
    e ← lift (session.wait_all ctx)
    closed ← lift session.close_client
    pure (elim e [ none ↦ closed | some e' ↦ some e' ])
