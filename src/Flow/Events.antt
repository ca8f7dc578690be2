-- ===== src/Flow/Events.antt =====
-- eventbus_impl.go over redis_adapter.go: an event from Publish to a subscriber, through a stream.
use taskbus.Prelude.{
  Str, List, ◌∷◌, ◌++◌, none, true, false, not, Exec, pure, ◌>>=◌, ◌≡◌, ◌∙◌, refl, ap, subst, All,
  is_empty, lookup, str_eq, if◌then◌else◌, Bool-cases, inl, inr, arith,
}
use taskbus.Mq.{GoError, Message, Context, Handler, wrap}
use taskbus.Topic.{root, dot, match_topic, build_topic, build_topic_prefix}
use taskbus.Topic.Isolation.{IsWord}
use taskbus.Base64.{IsByte}
use taskbus.Retry.{Float64, RetryConfig}
use taskbus.Config.{Client, event_bus_mode_global}
use taskbus.Config.Namespace.{IsNamespace, IsNamespace-IsWord}
use taskbus.Redis.{
  Redis, Json, is_component_token, redis_stream_for_topic, stream_fields, decode_x_message,
}
use taskbus.Redis.Codec.{IsCopy, entry, decode-stream_fields}
use taskbus.Redis.Streams.{stream_first, stream-build_topic}
use taskbus.Redis.Worker.{publish, publish_stream, process_message, after_handler}
use taskbus.Events.{
  Event, Filter, EventHandler, EventMiddleware, type_key, or_empty, event_topic_prefix,
  build_event_topic, extract_event_topic, event_message, message_to_event, accepts,
  build_event_handler, event_component, global_event_prefix,
}
use taskbus.Events.RoundTrip.{
  effective_type, seen, lookup-event_headers, or_empty-seen, extract-event_topic,
}

-- The streams of the two modes.
abbrev global_stream : Str
global_stream = root ++ event_component

event-IsWord : IsWord event_component
event-IsWord = record { no_dot = ground arith; not_hash = ground arith; not_star = ground arith }

event-is_component : is_component_token event_component ≡ true
unfolding is_component_token str_eq
event-is_component = refl

global-stream : (t : Str) → redis_stream_for_topic (global_event_prefix ++ t) ≡ global_stream
global-stream t = stream_first event_component t event-IsWord.no_dot event-is_component

module _ {F W : Type 0} (c : Client F W) where
  -- The stream of the client's events.
  abbrev pub event_stream : Str
  event_stream =
      if str_eq c.cfg.event_bus.mode event_bus_mode_global
      then global_stream
      else root ++ (c.namespace ++ (dot ∷ event_component))

  isolated-topic :
      (t : Str)
      → build_topic_prefix c.namespace event_component ++ t
        ≡ build_topic c.namespace event_component t
  unfolding build_topic
  isolated-topic t = refl

  event-stream :
      (t : Str)
      → IsNamespace c.namespace
      → is_component_token c.namespace ≡ false
      → redis_stream_for_topic (build_event_topic c t) ≡ event_stream
  unfolding build_event_topic event_topic_prefix
  event-stream t valid other =
      elim (Bool-cases (str_eq c.cfg.event_bus.mode event_bus_mode_global)) [
        | inl e ↦ rw e (global-stream t)
        | inr e ↦ rw e (
            ap redis_stream_for_topic (isolated-topic t)
            ∙ (stream-build_topic c.namespace event_component t
                (IsNamespace-IsWord c.namespace valid).no_dot event-IsWord.no_dot other
                event-is_component).0)
      ]

  -- An event as a subscriber gets it: `e'` is `e`, and `k` is any key of its metadata.
  pub record Arrives (e e' : Event) : Type 0 where
    pub topic : e'.topic ≡ e.topic
    pub subject : e'.subject ≡ e.subject
    pub payload : e'.payload ≡ e.payload
    pub type : e'.type ≡ effective_type e
    pub metadata : (k : Str) → lookup k e'.metadata ≡ (if is_empty k then none else seen e k)

  seen_header : (e : Event) (k : Str) → lookup k (event_message c e).headers ≡ seen e k
  unfolding event_message
  seen_header e k = lookup-event_headers e k

  copied-Arrives :
      (e : Event) (d : Message) → IsCopy (event_message c e) d → Arrives e (message_to_event c d)
  unfolding message_to_event event_message
  copied-Arrives e d copy = record {
    topic = ap (extract_event_topic c) copy.topic ∙ extract-event_topic c e.topic;
    subject = copy.key;
    payload = copy.body;
    type = ap or_empty (copy.headers type_key ∙ seen_header e type_key) ∙ or_empty-seen e;
    metadata = λ k. copy.headers k ∙ ap (λ o. if is_empty k then none else o) (seen_header e k);
  }

  -- What a subscriber does with an event that it gets.
  abbrev pub subscribed :
      Filter → EventHandler W → List (EventMiddleware W) → Context → Event → Exec W GoError
  subscribed filter handler mws ctx e =
      if not (accepts c filter e) then pure none else wrap mws handler ctx e

  module _ (rd : Redis W) (json : Json) (fl : Float64) (retry : RetryConfig fl.F)
      (valid : IsNamespace c.namespace) (other : is_component_token c.namespace ≡ false) where
    event-decoded :
        (e : Event) (id : Str)
        → All IsByte e.payload
        → IsCopy (event_message c e) (decode_x_message event_stream (entry (event_message c e) id))
    unfolding event_message
    event-decoded e id bytes =
        subst (λ s. IsCopy (event_message c e) (decode_x_message s (entry (event_message c e) id)))
          (event-stream e.topic valid other) (decode-stream_fields (event_message c e) id bytes)

    event_handled :
        (pattern : Str) (e : Event) (ctx : Context) (group id : Str) (handler : Handler W)
        → match_topic (build_event_topic c pattern) (build_event_topic c e.topic) ≡ true
        → All IsByte e.payload
        → let d = decode_x_message event_stream (entry (event_message c e) id) in
          process_message rd json fl retry ctx event_stream group
            (build_event_topic c pattern)
            handler
            (entry (event_message c e) id)
          ≡ (do r ← handler ctx d; after_handler rd json fl retry ctx event_stream group id d r)
    unfolding process_message
    event_handled pattern e ctx group id handler hit bytes =
        let copy = event-decoded e id bytes in
        let topic_d : (decode_x_message event_stream (entry (event_message c e) id)).topic
            ≡ build_event_topic c e.topic =
          copy.topic ∙ (unfold event_message in refl) in
        rw (topic_d, hit) refl

    publish-stream :
        (e : Event) (ctx : Context)
        → publish rd json ctx (event_message c e)
          ≡ rd.x_add ctx event_stream (stream_fields (event_message c e))
    unfolding publish publish_stream event_message
    publish-stream e ctx =
        ap (λ s. rd.x_add ctx s (stream_fields (event_message c e)))
          (event-stream e.topic valid other)

    -- In either mode of the bus, a published event is added to the stream that every subscriber
    -- of the client's events reads. A subscriber whose pattern matches the topic gets the event with
    -- its topic, subject, payload, type and metadata, and runs its chain where its filter accepts
    -- it; what that returns decides about the entry. The namespace is valid and none of `job`,
    -- `event` and `cron`, the payload bytes, and metadata under the empty name is lost.
    pub event_delivered :
        (pattern : Str) (e : Event) (ctx ctx' : Context) (group id : Str) (filter : Filter)
        (handler : EventHandler W) (mws : List (EventMiddleware W))
        → match_topic (build_event_topic c pattern) (build_event_topic c e.topic) ≡ true
        → All IsByte e.payload
        → let m = event_message c e in
          let d = decode_x_message event_stream (entry m id) in
          (publish rd json ctx m ≡ rd.x_add ctx event_stream (stream_fields m))
          × (redis_stream_for_topic (build_event_topic c pattern) ≡ event_stream)
          × (process_message rd json fl retry ctx' event_stream group
                (build_event_topic c pattern)
                (build_event_handler c filter handler mws)
                (entry m id)
              ≡ (do
                r ← subscribed filter handler mws ctx' (message_to_event c d)
                after_handler rd json fl retry ctx' event_stream group id d r))
          × Arrives e (message_to_event c d)
    unfolding build_event_handler
    event_delivered pattern e ctx ctx' group id filter handler mws hit bytes = (
      publish-stream e ctx,
      event-stream pattern valid other,
      event_handled pattern e ctx' group id (build_event_handler c filter handler mws) hit bytes,
      copied-Arrives e (decode_x_message event_stream (entry (event_message c e) id))
          (event-decoded e id bytes),
    )
