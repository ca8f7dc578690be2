-- ===== src/Jobs/Routing.antt =====
-- jobs_impl.go: the way of a job from Enqueue to Execute.
use taskbus.Prelude.{
  pos, Str, codes, List, [], ◌∷◌, some, ◌&&◌, ◌≡◌, ◌≢◌, ◌∙◌, refl, ap, length, is_empty, atoi, ltb,
  str_eq, str_eq_ne, lookup, lookup-insert_self, has_prefix, drop, nonpos, if◌then◌else◌, if_not,
}
use taskbus.Mq.{
  Message, Context, with_job_key, job_key_from_context, nil_context, background, with_key,
  with_other, JobMiddleware, wrap,
}
use taskbus.Topic.{build_topic, build_topic_prefix, trim_topic_prefix}
use taskbus.Topic.Names.{trim-build_topic, name-ne-build_topic}
use taskbus.Retry.{attempt}
use taskbus.Config.{Client}
use taskbus.Jobs.{
  JobWorld, JobMethods, EnqueueOpts, EnqueueOption, apply_options, topic, job_component,
  extract_job_name, register, run_job, enqueue_message, enqueue, final_job_handler, build_handler,
}

-- The test for the old prefix, on what is left of the topic.
old_name : Str → Str → Str
old_name name full =
    if str_eq name full && (ltb 4 (length name) && has_prefix name (codes "job."))
    then drop 4 name
    else name

extract_lem :
    (n full : Str)
    → extract_job_name n full
      ≡ old_name (trim_topic_prefix full (build_topic_prefix n job_component)) full
unfolding extract_job_name old_name
extract_lem n full = refl

old_name_other : (name full : Str) → name ≢ full → old_name name full ≡ name
unfolding old_name
old_name_other name full n = rw (str_eq_ne name full n) refl

pub topic_lem : (n name : Str) → topic n name ≡ build_topic n job_component name
unfolding topic
topic_lem n name = refl

-- The name comes back out of the topic, whatever it is: the test for the old prefix never fires.
pub extract-topic : (n name : Str) → extract_job_name n (topic n name) ≡ name
extract-topic n name =
    rw (topic_lem n name, extract_lem, trim-build_topic)
      (old_name_other name (build_topic n job_component name)
        (name-ne-build_topic n job_component name))

-- The key of a message reaches the handler by its context; an empty key leaves the context's own.
pub key-with_job_key :
    (ctx : Context) (key : Str)
    → ctx ≢ nil_context
    → job_key_from_context (with_job_key ctx key)
      ≡ (if is_empty key then job_key_from_context ctx else key)
unfolding with_job_key job_key_from_context
key-with_job_key nil_context key n = absurd (n refl)
key-with_job_key background [] n = refl
key-with_job_key background (c ∷ key) n = refl
key-with_job_key (with_key k ctx) [] n = refl
key-with_job_key (with_key k ctx) (c ∷ key) n = refl
key-with_job_key (with_other i ctx) [] n = refl
key-with_job_key (with_other i ctx) (c ∷ key) n = refl

module _ {Job E F : Type 0} (methods : JobMethods Job E) (c : Client F (JobWorld Job E)) where
  abbrev pub registered : Job → JobWorld Job E → JobWorld Job E
  registered job w = (register methods c (some job) w).1

  -- The options that are in force.
  abbrev pub options : List EnqueueOption → EnqueueOpts
  options opts = apply_options opts (record { delay = pos 0; key = [] })

  pub build_handler_topic :
      (mws : List (JobMiddleware (JobWorld Job E))) (ctx : Context) (m : Message) (name : Str)
      → m.topic ≡ topic c.namespace name
      → build_handler methods c mws ctx m
        ≡ wrap mws (final_job_handler methods c) (with_job_key ctx m.key) name m.body
  unfolding build_handler
  build_handler_topic mws ctx m name e =
      ap (λ n. wrap mws (final_job_handler methods c) (with_job_key ctx m.key) n m.body)
        (ap (extract_job_name c.namespace) e ∙ extract-topic c.namespace name)

  final_registered :
      (job : Job) (w : JobWorld Job E) (ctx : Context) (payload : Str)
      → final_job_handler methods c ctx (methods.name job) payload (registered job w)
        ≡ methods.execute job ctx payload (registered job w)
  unfolding final_job_handler register
  final_registered job w ctx payload =
      ap (λ o. run_job methods c o ctx (methods.name job) payload (registered job w))
        (lookup-insert_self (methods.name job) job w.reg)

  enqueue_lem :
      (ctx : Context) (name payload : Str) (opts : List EnqueueOption)
      → name ≢ []
      → enqueue methods c ctx name payload opts ≡ (
          if nonpos (options opts).delay
          then c.mq.publish ctx (enqueue_message methods c name payload (options opts))
          else c.mq.publish_delay ctx
              (enqueue_message methods c name payload (options opts))
              (options opts).delay)
  unfolding enqueue
  enqueue_lem ctx [] payload opts n = absurd (n refl)
  enqueue_lem ctx (b ∷ name) payload opts n = if_not (nonpos (options opts).delay) _ _

  enqueued_handler :
      (mws : List (JobMiddleware (JobWorld Job E))) (ctx : Context) (name payload : Str)
      (o : EnqueueOpts)
      → build_handler methods c mws ctx (enqueue_message methods c name payload o)
        ≡ wrap mws (final_job_handler methods c) (with_job_key ctx o.key) name payload
  unfolding enqueue_message
  enqueued_handler mws ctx name payload o =
      build_handler_topic mws ctx (enqueue_message methods c name payload o) name refl

  pub first_attempt :
      (name payload : Str) (o : EnqueueOpts)
      → attempt (enqueue_message methods c name payload o).headers ≡ pos 0
  unfolding enqueue_message attempt lookup str_eq atoi
  first_attempt name payload o = refl

  -- A job's message is published with its options, at once or after a positive delay; a worker
  -- that handles it runs the middlewares in order round the job that is registered under the
  -- name, with the payload and with the key in the context. The message counts no attempt yet.
  pub enqueued_runs :
      (job : Job) (w : JobWorld Job E) (ctx ctx' : Context) (payload : Str)
      (opts : List EnqueueOption) (mws : List (JobMiddleware (JobWorld Job E)))
      → methods.name job ≢ []
      → let m = enqueue_message methods c (methods.name job) payload (options opts) in
        (enqueue methods c ctx (methods.name job) payload opts ≡ (
          if nonpos (options opts).delay
          then c.mq.publish ctx m
          else c.mq.publish_delay ctx m (options opts).delay))
        × (build_handler methods c mws ctx' m
            ≡ wrap mws
                (final_job_handler methods c)
                (with_job_key ctx' (options opts).key)
                (methods.name job)
                payload)
        × (final_job_handler methods c
              (with_job_key ctx' (options opts).key)
              (methods.name job)
              payload
              (registered job w)
            ≡ methods.execute job (with_job_key ctx' (options opts).key) payload (registered job w))
        × (attempt m.headers ≡ pos 0)
  enqueued_runs job w ctx ctx' payload opts mws n = (
    enqueue_lem ctx (methods.name job) payload opts n,
    enqueued_handler mws ctx' (methods.name job) payload (options opts),
    final_registered job w (with_job_key ctx' (options opts).key) payload,
    first_attempt (methods.name job) payload (options opts),
  )
