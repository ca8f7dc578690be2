-- ===== src/Jobs.antt =====
-- jobs_impl.go and job.go: registering, enqueueing, and handling jobs.
-- The registry is shared with the running handlers, so it is a part of the world.
pub mod Groups
pub mod Order
pub mod Workers
pub mod Routing
use taskbus.Prelude.{
  ℕ, zero, suc, ℤ, pos, Str, codes, GoMap, List, [], ◌∷◌, ◌++◌, Option, none, some, Bool, true,
  false, ◌&&◌, Exec, pure, ◌>>=◌, ltb, leb_ℤ, nonpos, length, drop, is_empty, str_eq, has_prefix,
  lookup, insert, if◌then◌else◌, ◌==◌, not,
}
use taskbus.Mq.{
  Err, job_name_empty, job_not_registered, GoError, Message, Context, with_job_key, Handler,
  JobHandler, JobMiddleware, Mq, wrap,
}
use taskbus.Topic.{build_topic, build_topic_prefix, trim_topic_prefix}
use taskbus.Retry.{retry_key}
use taskbus.Config.{Client}

-- The registered jobs, by name, and the rest of the world.
pub record JobWorld (Job E : Type 0) : Type 0 where
  pub reg : GoMap Job
  pub env : E

-- The interface Job, as its methods at each value of `Job`.
pub record JobMethods (Job E : Type 0) : Type 0 where
  pub name : Job → Str
  pub execute : Job → Context → Str → Exec (JobWorld Job E) GoError

pub record EnqueueOpts : Type 0 where
  pub delay : ℤ
  pub key : Str

-- WithDelay and WithKey
pub data EnqueueOption : Type 0 where
  with_delay : ℤ → EnqueueOption
  with_key : Str → EnqueueOption

abbrev pub apply_option : EnqueueOption → EnqueueOpts → EnqueueOpts
apply_option (with_delay d) o = record o { delay = d }
apply_option (with_key k) o = record o { key = k }

pub apply_options : List EnqueueOption → EnqueueOpts → EnqueueOpts
apply_options [] o = o
apply_options (f ∷ opts) o = apply_options opts (apply_option f o)

abbrev pub job_component : Str
job_component = codes "job"

-- The topic of a job.
unfoldable pub topic : Str → Str → Str
topic namespace name = build_topic namespace job_component name

-- extractJobName; the old prefix `job.` is taken off where the new one is missing.
unfoldable pub extract_job_name : Str → Str → Str
extract_job_name namespace full =
    let name = trim_topic_prefix full (build_topic_prefix namespace job_component) in
    if str_eq name full && (ltb 4 (length name) && has_prefix name (codes "job."))
    then drop 4 name
    else name

module _ {Job E F : Type 0} (methods : JobMethods Job E) (c : Client F (JobWorld Job E)) where
  -- Register; a nil job is `none`.
  unfoldable pub register : Option Job → Exec (JobWorld Job E) (Unit {0})
  register none w = (tt, w)
  register (some job) w = (tt, record w { reg = insert (methods.name job) job w.reg })

  unfoldable pub enqueue_message : Str → Str → EnqueueOpts → Message
  enqueue_message job_name payload o = record {
    topic = topic c.namespace job_name;
    key = o.key;
    body = payload;
    headers = (retry_key, codes "0") ∷ [];
  }

  unfoldable pub enqueue : Context → Str → Str → List EnqueueOption → Exec (JobWorld Job E) GoError
  unfolding enqueue_message apply_options
  enqueue ctx [] payload opts = pure (some job_name_empty)
  enqueue ctx job_name payload opts =
      let o = apply_options opts (record { delay = pos 0; key = [] }) in
      let m = enqueue_message job_name payload o in
      if not (nonpos o.delay) then c.mq.publish_delay ctx m o.delay else c.mq.publish ctx m

  -- What a lookup in the registry leads to.
  unfoldable pub run_job : Option Job → Context → Str → Str → Exec (JobWorld Job E) GoError
  run_job none ctx name payload = pure (some (job_not_registered name))
  run_job (some job) ctx name payload = methods.execute job ctx payload

  -- The handler inside the chain: it reads the registry when it runs.
  unfoldable pub final_job_handler : JobHandler (JobWorld Job E)
  unfolding run_job
  final_job_handler ctx name payload w = run_job (lookup name w.reg) ctx name payload w

  -- handle
  unfoldable pub handle : Handler (JobWorld Job E)
  unfolding run_job
  handle ctx m w =
      let name = extract_job_name c.namespace m.topic in
      run_job (lookup name w.reg) ctx name m.body w

  unfoldable pub build_handler : List (JobMiddleware (JobWorld Job E)) → Handler (JobWorld Job E)
  build_handler mws ctx m =
      wrap mws final_job_handler (with_job_key ctx m.key) (extract_job_name c.namespace m.topic)
        m.body
