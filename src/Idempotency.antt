-- ===== src/Idempotency.antt =====
-- middleware_idempotency.go and kv_redis.go: skip a message whose key has been seen.
-- The key-value store is an interface: a function on the world, with redis's SETNX as its model.
pub mod Once
use taskbus.Prelude.{
  ℕ, ℤ, pos, Str, codes, List, [], ◌∷◌, ◌++◌, Option, none, some, Bool, true, false, not, ◌&&◌,
  Exec, ◌>>=◌, GoMap, nonpos, is_empty, if◌then◌else◌,
}
use taskbus.Sha1.{sha1_sum, hex}
use taskbus.Mq.{
  Err, GoError, Message, Context, Handler, Middleware, JobHandler, JobMiddleware,
  job_key_from_context,
}

-- The interface KV. RedisKV forwards to the client's SetNX.
pub record Kv (W : Type 0) : Type 0 where
  pub set_nx : Context → Str → Str → ℤ → Exec W (Bool × GoError)

pub record IdempotencyConfig (W : Type 0) : Type 0 where
  pub kv : Option (Kv W)
  pub redis_addr : Str
  pub redis_username : Str
  pub redis_password : Str
  pub redis_db : ℤ
  pub prefix : Str
  pub ttl : ℤ
  pub key_func : Option (Context → Message → Exec W (Str × GoError))

-- 24 * time.Hour
abbrev pub day : ℤ
day = pos 86400000000000

-- The message of NewJobIdempotencyMiddleware: its key comes from the context.
abbrev pub job_message : Context → Str → Str → Message
job_message ctx job_name payload = record {
  topic = codes "job." ++ job_name;
  key = job_key_from_context ctx;
  body = payload;
  headers = [];
}

module _ {W : Type 0} where
  -- The key from KeyFunc, where there is one and it has no error.
  key_from : Option (Context → Message → Exec W (Str × GoError)) → Context → Message → Exec W Str
  key_from none ctx m w = ([], w)
  key_from (some f) ctx m w =
      let ((s, e), w') = f ctx m w in (elim e [ none ↦ s | some _ ↦ [] ], w')

  pub raw_key : IdempotencyConfig W → Context → Message → Exec W Str
  unfolding key_from
  raw_key cfg ctx m w = if is_empty m.key then key_from cfg.key_func ctx m w else (m.key, w)

  unfoldable pub store_key : IdempotencyConfig W → Str → Str
  store_key cfg key =
      (if is_empty cfg.prefix then codes "tq:idem" else cfg.prefix) ++ (b':' ∷ hex (sha1_sum key))

  pub kept_for : IdempotencyConfig W → ℤ
  kept_for cfg = if nonpos cfg.ttl then day else cfg.ttl

  -- What the answer of SetNX leads to.
  after_set : Bool × GoError → Exec W GoError → Exec W GoError
  after_set (stored, some e) next w = (some e, w)
  after_set (true, none) next w = next w
  after_set (false, none) next w = (none, w)

  pub guarded : IdempotencyConfig W → Kv W → Context → Str → Exec W GoError → Exec W GoError
  unfolding after_set store_key kept_for
  guarded cfg kv ctx [] next = next
  guarded cfg kv ctx key next = do
    answer ← kv.set_nx ctx (store_key cfg key) (codes "1") (kept_for cfg)
    after_set answer next

  pub idempotent : IdempotencyConfig W → Kv W → Middleware W
  unfolding raw_key guarded
  idempotent cfg kv next ctx m = do key ← raw_key cfg ctx m; guarded cfg kv ctx key (next ctx m)

  -- `none` is the panic on a missing KV.
  unfoldable pub new_idempotency_middleware : IdempotencyConfig W → Option (Middleware W)
  unfolding idempotent
  new_idempotency_middleware cfg = elim cfg.kv [ none ↦ none | some kv ↦ some (idempotent cfg kv) ]

  pub job_middleware : Middleware W → JobMiddleware W
  job_middleware mw next ctx job_name payload =
      mw (λ _ _. next ctx job_name payload) ctx (job_message ctx job_name payload)

  unfoldable pub new_job_idempotency_middleware : IdempotencyConfig W → Option (JobMiddleware W)
  unfolding job_middleware new_idempotency_middleware
  new_job_idempotency_middleware cfg = elim (new_idempotency_middleware cfg) [
    | none ↦ none
    | some mw ↦ some (job_middleware mw)
  ]

  -- The KeyFunc that New gives to jobs: the message's key, else the payload.
  pub default_job_key : Context → Message → Exec W (Str × GoError)
  default_job_key ctx m w = if is_empty m.key then ((m.body, none), w) else ((m.key, none), w)
