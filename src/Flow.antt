-- ===== src/Flow.antt =====
-- jobs_impl.go over redis_adapter.go: a job from Enqueue to its worker, through a stream.
pub mod Events
pub mod Triggers
use taskbus.Prelude.{pos, Str, List, true, false, Exec, ◌>>=◌, ◌≡◌, ◌∙◌, refl, ap, All, str_eq}
use taskbus.Mq.{GoError, Message, Context, JobMiddleware, wrap, with_job_key}
use taskbus.Topic.{build_topic, build_wildcard_topic}
use taskbus.Topic.Isolation.{IsWord}
use taskbus.Base64.{IsByte}
use taskbus.Retry.{Float64, RetryConfig, attempt}
use taskbus.Config.{Client}
use taskbus.Config.Namespace.{IsNamespace}
use taskbus.Redis.{
  Redis, Json, is_component_token, redis_stream_for_topic, stream_fields, decode_x_message,
}
use taskbus.Redis.Codec.{IsCopy, entry}
use taskbus.Redis.Component.{component_stream, same_stream, decoded-IsCopy, processed}
use taskbus.Redis.Return.{attempt-IsCopy}
use taskbus.Redis.Worker.{publish, publish_stream, process_message, after_handler}
use taskbus.Jobs.{
  JobWorld, JobMethods, EnqueueOpts, job_component, enqueue_message, final_job_handler,
  build_handler,
}
use taskbus.Jobs.Routing.{build_handler_topic, first_attempt, topic_lem}

job-IsWord : IsWord job_component
job-IsWord = record {
  no_dot = (λ e. cc, (λ e. cc, (λ e. cc, tt)));
  not_hash = λ e. cc;
  not_star = λ e. cc;
}

job-is_component : is_component_token job_component ≡ true
unfolding is_component_token str_eq
job-is_component = refl

module _ {Job E F : Type 0} (methods : JobMethods Job E) (c : Client F (JobWorld Job E))
    (rd : Redis (JobWorld Job E)) (json : Json) (fl : Float64) (retry : RetryConfig fl.F) where
  abbrev pub job_stream : Str
  job_stream = component_stream c.namespace job_component

  built :
      (mws : List (JobMiddleware (JobWorld Job E))) (ctx : Context) (name payload : Str)
      (o : EnqueueOpts) (d : Message)
      → IsCopy (enqueue_message methods c name payload o) d
      → build_handler methods c mws ctx d
        ≡ wrap mws (final_job_handler methods c) (with_job_key ctx o.key) name payload
  unfolding enqueue_message
  built mws ctx name payload o d copy =
      build_handler_topic methods c mws ctx d name copy.topic ∙ rw (copy.key, copy.body) refl

  -- A job that is enqueued in a valid namespace, none of `job`, `event` and `cron`, is added to the
  -- stream that the workers of StartWorkers read. A worker that gets its entry runs the middlewares
  -- round the registered job, with the name, the payload and the key that were enqueued; what
  -- the job returns decides about the entry, as a first attempt. The payload is bytes.
  pub job_delivered :
      (mws : List (JobMiddleware (JobWorld Job E))) (ctx ctx' : Context)
      (group name payload id : Str) (o : EnqueueOpts)
      → IsNamespace c.namespace
      → is_component_token c.namespace ≡ false
      → All IsByte payload
      → let m = enqueue_message methods c name payload o in
        let d = decode_x_message job_stream (entry m id) in
        (publish rd json ctx m ≡ rd.x_add ctx job_stream (stream_fields m))
        × (process_message rd json fl retry ctx' job_stream group
              (build_wildcard_topic c.namespace job_component)
              (build_handler methods c mws)
              (entry m id)
            ≡ (do
              e ← wrap mws (final_job_handler methods c) (with_job_key ctx' o.key) name payload
              after_handler rd json fl retry ctx' job_stream group id d e))
        × IsCopy m d
        × (attempt d.headers ≡ pos 0)
  unfolding publish publish_stream enqueue_message
  job_delivered mws ctx ctx' group name payload id o valid other bytes = (
    ap (λ s. rd.x_add ctx s (stream_fields m))
        (ap redis_stream_for_topic topic_m
          ∙ same_stream c.namespace job_component valid job-IsWord other job-is_component name),
    processed c.namespace job_component valid job-IsWord other job-is_component rd json fl retry
          ctx' group (build_handler methods c mws) name id m topic_m bytes
        ∙ ap
            (λ (h : Exec (JobWorld Job E) GoError). do
              e ← h
              after_handler rd json fl retry ctx' job_stream group id d e)
            (built mws ctx' name payload o d copy),
    copy,
    attempt-IsCopy m d copy ∙ first_attempt methods c name payload o,
  )
    where
      m : Message
      m = enqueue_message methods c name payload o

      d : Message
      d = decode_x_message job_stream (entry m id)

      topic_m : m.topic ≡ build_topic c.namespace job_component name
      topic_m = topic_lem c.namespace name

      copy : IsCopy m d
      copy =
          decoded-IsCopy c.namespace job_component valid job-IsWord other job-is_component name id m
            topic_m bytes
