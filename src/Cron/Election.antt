-- ===== src/Cron/Election.antt =====
-- cron_dist.go: tryAcquireLeader by provider, and the values of the lock. The clients of RabbitMQ
-- and Redis are a parameter, the record `Electoral`.
pub mod Open
pub mod Rivals
pub mod Tokens
use taskbus.Prelude.{
  ℕ, ℤ, pos, Str, codes, List, [], ◌∷◌, ◌++◌, Option, none, some, Bool, true, false, Exec, pure,
  ◌>>=◌, ◌>>◌, is_empty, nonpos, itoa, str_eq, if◌then◌else◌,
}
use taskbus.Mq.{Err, GoError, Result, ok, err, Context}
use taskbus.Config.{
  Client, CronConfig, RedisConfig, mq_provider_rabbitmq, mq_provider_redis, or_default, or_positive,
}

-- The calls; connections, channels and clients are numbers. `declare_lock` is QueueDeclare with
-- autoDelete, exclusive and noWait, `set_nx` answers whether the key was set, an error included.
-- The last two are the goroutines behind a lead, which end with its context.
pub record Electoral (W : Type 0) : Type 0 where
  pub dial : Str → Exec W (Result ℕ)
  pub channel : ℕ → Exec W (Result ℕ)
  pub declare_lock : ℕ → Str → Exec W GoError
  pub close_channel : ℕ → Exec W GoError
  pub close_connection : ℕ → Exec W GoError
  pub new_client : Str → Str → Str → ℤ → Exec W ℕ
  pub set_nx : ℕ → Context → Str → Str → ℤ → Exec W Bool
  pub close_client : ℕ → Exec W GoError
  pub with_cancel : Context → Exec W Context
  pub hostname : Exec W (Option Str)
  pub getpid : Exec W ℕ
  pub unix_nano : Exec W ℤ
  pub watch_connection : Context → ℕ → Exec W GoError
  pub keep_lease : Context → ℕ → Str → Str → ℤ → Exec W GoError

-- The field `leaderCancel`, as the context that it cancels, and everything else.
pub record Candidate (W : Type 0) : Type 0 where
  pub leader_cancel : Option Context
  pub env : W

-- A lead: its context, and the cleanup, which Redis does not need.
pub record Lead (W : Type 0) : Type 0 where
  pub context : Context
  pub cleanup : Option (Exec (Candidate W) GoError)

-- hostname
unfoldable pub host_or_unknown : Option Str → Str
host_or_unknown none = codes "unknown"
host_or_unknown (some h) = h

-- fmt.Sprintf("%s-%d-%d", hostname(), os.Getpid(), time.Now().UnixNano())
unfoldable pub leader_id : Option Str → ℕ → ℤ → Str
unfolding host_or_unknown
leader_id host pid nano = host_or_unknown host ++ b'-' ∷ (itoa (pos pid) ++ b'-' ∷ itoa nano)

-- The key of the lock, and its time to live: ten seconds where the configuration has none.
unfoldable pub leader_key : CronConfig → Str → Str
leader_key c namespace =
    or_default c.leader_lock_key (codes "taskbus:" ++ (namespace ++ codes ":cron:leader"))

unfoldable pub leader_ttl : CronConfig → ℤ
leader_ttl c = or_positive c.leader_ttl (pos 10000000000)

-- The queue that serves as the lock.
unfoldable pub lock_queue : Str → Str
lock_queue namespace = codes "taskbus.cron.leader." ++ namespace

module _ {W : Type 0} (calls : Electoral W) where
  -- An action of the clients.
  abbrev pub lift : {A : Type 0} → Exec W A → Exec (Candidate W) A
  lift m s = let (r, w) = m s.env in (r, record s { env = w })

  -- The context of a lead, whose cancel is kept in `leaderCancel`.
  unfoldable pub lead_context : Context → Exec (Candidate W) Context
  lead_context parent s =
      let (ctx, w) = calls.with_cancel parent s.env in
      (ctx, record { leader_cancel = some ctx; env = w })

  -- The cleanup of a lead over RabbitMQ, and of an attempt whose queue is refused.
  unfoldable pub close_both : ℕ → ℕ → Exec (Candidate W) GoError
  close_both conn ch = do lift (calls.close_channel ch); lift (calls.close_connection conn)

  unfoldable pub after_declare : Context → ℕ → ℕ → GoError → Exec (Candidate W) (Option (Lead W))
  unfolding close_both lead_context
  after_declare parent conn ch (some e) = do close_both conn ch; pure none
  after_declare parent conn ch none = do
    ctx ← lead_context parent
    lift (calls.watch_connection ctx conn)
    pure (some (record { context = ctx; cleanup = some (close_both conn ch) }))

  unfoldable pub on_channel : Context → Str → ℕ → Result ℕ → Exec (Candidate W) (Option (Lead W))
  unfolding after_declare
  on_channel parent queue conn (err e) = do lift (calls.close_connection conn); pure none
  on_channel parent queue conn (ok ch) = do
    e ← lift (calls.declare_lock ch queue)
    after_declare parent conn ch e

  unfoldable pub on_connection : Context → Str → Result ℕ → Exec (Candidate W) (Option (Lead W))
  unfolding on_channel
  on_connection parent queue (err e) = pure none
  on_connection parent queue (ok conn) = do
    r ← lift (calls.channel conn)
    on_channel parent queue conn r

  unfoldable pub try_leader_with_rabbit : Str → Str → Context → Exec (Candidate W) (Option (Lead W))
  unfolding on_connection
  try_leader_with_rabbit uri namespace parent = do
    r ← lift (calls.dial uri)
    on_connection parent (lock_queue namespace) r

  -- newRedisClient
  unfoldable pub new_redis_client : RedisConfig → Exec (Candidate W) (Option ℕ)
  new_redis_client c =
      if is_empty c.addr
      then pure none
      else (do rc ← lift (calls.new_client c.addr c.username c.password c.db); pure (some rc))

  unfoldable pub new_leader_id : Exec (Candidate W) Str
  unfolding leader_id
  new_leader_id = do
    host ← lift calls.hostname
    pid ← lift calls.getpid
    nano ← lift calls.unix_nano
    pure (leader_id host pid nano)

  unfoldable pub after_set_nx :
      Context → ℕ → Str → Str → ℤ → Bool → Exec (Candidate W) (Option (Lead W))
  unfolding lead_context
  after_set_nx parent rc key id ttl false = do lift (calls.close_client rc); pure none
  after_set_nx parent rc key id ttl true = do
    ctx ← lead_context parent
    lift (calls.keep_lease ctx rc key id ttl)
    pure (some (record { context = ctx; cleanup = none }))

  unfoldable pub on_client :
      CronConfig → Str → Context → Option ℕ → Exec (Candidate W) (Option (Lead W))
  unfolding after_set_nx
  on_client c namespace parent none = pure none
  on_client c namespace parent (some rc) = do
    id ← new_leader_id
    acquired ← lift (calls.set_nx rc parent (leader_key c namespace) id (leader_ttl c))
    after_set_nx parent rc (leader_key c namespace) id (leader_ttl c) acquired

  unfoldable pub try_leader_with_redis :
      RedisConfig → CronConfig → Str → Context → Exec (Candidate W) (Option (Lead W))
  unfolding new_redis_client on_client
  try_leader_with_redis redis c namespace parent = do
    rc ← new_redis_client redis
    on_client c namespace parent rc

  -- tryAcquireLeader
  unfoldable pub try_acquire_leader :
      {F V : Type 0} → Client F V → Context → Exec (Candidate W) (Option (Lead W))
  try_acquire_leader c parent =
      if str_eq c.cfg.mq.provider mq_provider_rabbitmq
      then try_leader_with_rabbit c.cfg.mq.rabbitmq.uri c.namespace parent
      else if str_eq c.cfg.mq.provider mq_provider_redis
      then try_leader_with_redis c.cfg.mq.redis c.cfg.cron c.namespace parent
      else pure none
