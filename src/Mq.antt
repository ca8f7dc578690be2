-- ===== src/Mq.antt =====
-- mq.go, job_context.go and middleware.go: messages, handlers, the queue interface with its no-op
-- implementation, contexts that carry a job's key, and middleware chains.
-- A handler is an action on a world `W`, which holds whatever it can change.
pub mod Chain
pub mod Consumers
use taskbus.Prelude.{
  ℕ, zero, suc, ℤ, Str, GoMap, List, [], ◌∷◌, ◌++◌, Option, none, some, Exec, length, is_empty,
  if◌then◌else◌,
}

-- The errors that the code makes, and those that come from outside it.
pub data Err : Type 0 where
  job_name_empty : Err
  job_not_registered : Str → Err
  nil_fn : Err
  cron_task_not_found : Str → Err
  executor_consume_failed : Err → Err
  stream_not_found : Str → Err
  unsupported_stream_provider : Str → Err
  init_stream : Str → Err → Err
  redis_addr_empty : Err
  rabbitmq_config_invalid : Err
  delayed_exchange_required : Err
  connection_failed : Err → Err
  channel_creation_failed : Err → Err
  publish_failed : Str → Err → Err
  unroutable : Str → Str → Err
  channel_closed : Err → Err
  context_done : Err
  external : Str → Err

-- `error`: nil is `none`.
abbrev pub GoError : Type 0
GoError = Option Err

-- A value with an error: the value counts where the error is nil.
pub data Result (A : Type 0) : Type 0 where
  ok : A → Result A
  err : Err → Result A

pub record Message : Type 0 where
  pub topic : Str
  pub key : Str
  pub body : Str
  pub headers : GoMap Str

-- context.Context: the nil interface, a root, a value under `jobContextKey`, any other child.
pub data Context : Type 0 where
  nil_context : Context
  background : Context
  with_key : Str → Context → Context
  with_other : ℕ → Context → Context

unfoldable pub with_job_key : Context → Str → Context
with_job_key nil_context key = nil_context
with_job_key ctx [] = ctx
with_job_key ctx key = with_key key ctx

unfoldable pub job_key_from_context : Context → Str
job_key_from_context nil_context = []
job_key_from_context background = []
job_key_from_context (with_key key ctx) = key
job_key_from_context (with_other n ctx) = job_key_from_context ctx

abbrev pub Handler : Type 0 → Type 0
Handler W = Context → Message → Exec W GoError

abbrev pub Middleware : Type 0 → Type 0
Middleware W = Handler W → Handler W

abbrev pub JobHandler : Type 0 → Type 0
JobHandler W = Context → Str → Str → Exec W GoError

abbrev pub JobMiddleware : Type 0 → Type 0
JobMiddleware W = JobHandler W → JobHandler W

abbrev pub CronFunc : Type 0 → Type 0
CronFunc W = Context → Exec W GoError

abbrev pub CronMiddleware : Type 0 → Type 0
CronMiddleware W = CronFunc W → CronFunc W

-- A `stop` function.
abbrev pub Stop : Type 0 → Type 0
Stop W = Context → Exec W GoError

-- The interface MQ, with its parts Producer and Consumer.
pub record Mq (W : Type 0) : Type 0 where
  pub publish : Context → Message → Exec W GoError
  pub publish_delay : Context → Message → ℤ → Exec W GoError
  pub consume : Context → Str → Str → Handler W → List (Middleware W) → Exec W (Result (Stop W))
  pub close : Context → Exec W GoError

-- The type noopMQ: every call succeeds and changes nothing.
abbrev pub noop_mq : {W : Type 0} → Mq W
noop_mq = record {
  publish = λ ctx m w. (none, w);
  publish_delay = λ ctx m d w. (none, w);
  consume = λ ctx topic group h mws w. (ok (λ ctx w. (none, w)), w);
  close = λ ctx w. (none, w);
}

-- mws[i](h), for an index in range
apply_at {ℓ} : {H : Type ℓ} → List (H → H) → ℕ → H → H
apply_at [] i h = h
apply_at (m ∷ ms) zero h = m h
apply_at (m ∷ ms) (suc i) h = apply_at ms i h

-- `for i := …; i >= 0; i-- { h = mws[i](h) }`, with `n` rounds left
wrap_from {ℓ} : {H : Type ℓ} → ℕ → List (H → H) → H → H
wrap_from zero mws h = h
wrap_from (suc n) mws h = wrap_from n mws (apply_at mws n h)

unfoldable pub wrap {ℓ} : {H : Type ℓ} → List (H → H) → H → H
unfolding wrap_from apply_at
wrap mws h = wrap_from (length mws) mws h
