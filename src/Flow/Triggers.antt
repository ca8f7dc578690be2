-- ===== src/Flow/Triggers.antt =====
-- cron_dist.go over redis_adapter.go: a trigger from the leader's scheduler to the executor of any
-- instance, through a stream.
use taskbus.Prelude.{Str, true, false, Exec, ◌>>=◌, ◌≡◌, ◌∙◌, refl, ap, All, lookup, str_eq, arith}
use taskbus.Mq.{GoError, Message, Context}
use taskbus.Topic.{build_topic, build_topic_prefix, build_wildcard_topic, trim_topic_prefix}
use taskbus.Topic.Names.{trim-build_topic}
use taskbus.Topic.Isolation.{IsWord}
use taskbus.Base64.{IsByte}
use taskbus.Retry.{Float64, RetryConfig}
use taskbus.Config.{Client}
use taskbus.Config.Namespace.{IsNamespace}
use taskbus.Redis.{
  Redis, Json, is_component_token, redis_stream_for_topic, stream_fields, decode_x_message,
}
use taskbus.Redis.Codec.{IsCopy, entry}
use taskbus.Redis.Component.{component_stream, same_stream, decoded-IsCopy, processed}
use taskbus.Redis.Worker.{publish, publish_stream, process_message, after_handler}
use taskbus.Cron.{
  CronLib, CronState, TaskMethods, cron_component, trigger_message, run_task, exec_handle,
}

cron-IsWord : IsWord cron_component
cron-IsWord = record { no_dot = ground arith; not_hash = ground arith; not_star = ground arith }

cron-is_component : is_component_token cron_component ≡ true
unfolding is_component_token str_eq
cron-is_component = refl

module _ {T S E F : Type 0} (lib : CronLib S) (methods : TaskMethods T S E)
    (c : Client F (CronState T S E)) (rd : Redis (CronState T S E)) (json : Json) (fl : Float64)
    (retry : RetryConfig fl.F) where
  abbrev pub cron_stream : Str
  cron_stream = component_stream c.namespace cron_component

  -- The executor's step for the trigger of a key.
  abbrev pub run_registered : Str → Context → Exec (CronState T S E) GoError
  run_registered key ctx w = run_task lib methods c (lookup key w.reg) key ctx w

  topic_trigger :
      (key : Str)
      → (trigger_message lib methods c key).topic ≡ build_topic c.namespace cron_component key
  unfolding trigger_message
  topic_trigger key = refl

  bytes_trigger : (key : Str) → All IsByte (trigger_message lib methods c key).body
  unfolding trigger_message
  bytes_trigger key = ground arith

  executed :
      (key : Str) (ctx : Context) (d : Message)
      → d.topic ≡ build_topic c.namespace cron_component key
      → exec_handle lib methods c ctx d ≡ run_registered key ctx
  unfolding exec_handle
  executed key ctx d e =
      ap (λ name w. run_task lib methods c (lookup name w.reg) name ctx w)
        (ap (λ t. trim_topic_prefix t (build_topic_prefix c.namespace cron_component)) e
          ∙ trim-build_topic c.namespace cron_component key)

  -- A trigger that the leader publishes is added to the stream that the executors of all instances
  -- of the namespace read. An executor that gets its entry runs what is registered there under the
  -- key, or ends with an error where nothing is, and that decides about the entry. The namespace is
  -- valid and none of `job`, `event` and `cron`.
  pub trigger_delivered :
      (key : Str) (ctx ctx' : Context) (group id : Str)
      → IsNamespace c.namespace
      → is_component_token c.namespace ≡ false
      → let m = trigger_message lib methods c key in
        let d = decode_x_message cron_stream (entry m id) in
        (publish rd json ctx m ≡ rd.x_add ctx cron_stream (stream_fields m))
        × (process_message rd json fl retry ctx' cron_stream group
              (build_wildcard_topic c.namespace cron_component)
              (exec_handle lib methods c)
              (entry m id)
            ≡ (do
              e ← run_registered key ctx'
              after_handler rd json fl retry ctx' cron_stream group id d e))
        × IsCopy m d
  unfolding publish publish_stream
  trigger_delivered key ctx ctx' group id valid other = (
    ap (λ s. rd.x_add ctx s (stream_fields m))
        (ap redis_stream_for_topic (topic_trigger key)
          ∙ same_stream c.namespace cron_component valid cron-IsWord other cron-is_component key),
    processed c.namespace cron_component valid cron-IsWord other cron-is_component rd json fl retry
          ctx' group (exec_handle lib methods c) key id m (topic_trigger key) (bytes_trigger key)
        ∙ ap
            (λ (h : Exec (CronState T S E) GoError). do
              e ← h
              after_handler rd json fl retry ctx' cron_stream group id d e)
            (executed key ctx' d (copy.topic ∙ topic_trigger key)),
    copy,
  )
    where
      m : Message
      m = trigger_message lib methods c key

      d : Message
      d = decode_x_message cron_stream (entry m id)

      copy : IsCopy m d
      copy =
          decoded-IsCopy c.namespace cron_component valid cron-IsWord other cron-is_component key id
            m (topic_trigger key) (bytes_trigger key)
