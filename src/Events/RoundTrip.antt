-- ===== src/Events/RoundTrip.antt =====
-- eventbus_impl.go: Publish against messageToEvent, and the filter by type.
use taskbus.Prelude.{
  Str, List, if_not, [], Option, none, some, is_empty, lookup, lookup-insert, str_eq, str_eq_refl,
  ◌≡◌, refl, ap, ◌∙◌, arith, if◌then◌else◌, pure,
}
use taskbus.Mq.{Context, wrap}
use taskbus.Topic.Names.{trim_topic_prefix-append}
use taskbus.Retry.{copy_headers}
use taskbus.Retry.Chain.{lookup-copy_headers}
use taskbus.Config.{Client}
use taskbus.Events.{
  accepts, Event, EventHandler, EventMiddleware, type_key, event_headers, or_empty, filter_by_type,
  event_topic_prefix, build_event_topic, extract_event_topic, event_message, message_to_event,
  build_event_handler,
}

-- The type that a subscriber sees: an event without one takes it from its metadata.
abbrev pub effective_type : Event → Str
effective_type e = if is_empty e.type then or_empty (lookup type_key e.metadata) else e.type

-- What the subscriber sees as metadata under `k`.
abbrev pub seen : Event → Str → Option Str
seen e k =
    if is_empty e.type
    then lookup k e.metadata
    else if str_eq type_key k
    then some e.type
    else lookup k e.metadata

pub lookup-event_headers : (e : Event) (k : Str) → lookup k (event_headers e) ≡ seen e k
unfolding event_headers
lookup-event_headers e k = ground (
  arith,
  lookup-insert type_key k e.type (copy_headers e.metadata),
  lookup-copy_headers k e.metadata,
)

pub or_empty-seen : (e : Event) → or_empty (seen e type_key) ≡ effective_type e
or_empty-seen e = ground (arith, str_eq_refl type_key)

module _ {F W : Type 0} (c : Client F W) where
  pub extract-event_topic : (t : Str) → extract_event_topic c (build_event_topic c t) ≡ t
  unfolding extract_event_topic build_event_topic
  extract-event_topic t = trim_topic_prefix-append (event_topic_prefix c) t

  -- In either mode of the bus, a subscriber gets the topic, the subject and the payload of a
  -- published event as they were, its type, or the metadata `type` where it has none, and its
  -- metadata, with the type under `type`.
  pub message_to_event-event_message :
      (e : Event) (k : Str)
      → let e' = message_to_event c (event_message c e) in
        (e'.topic ≡ e.topic)
        × (e'.subject ≡ e.subject)
        × (e'.payload ≡ e.payload)
        × (e'.type ≡ effective_type e)
        × (lookup k e'.metadata ≡ seen e k)
  unfolding message_to_event event_message
  message_to_event-event_message e k = (
    extract-event_topic e.topic,
    refl,
    refl,
    ap or_empty (lookup-event_headers e type_key) ∙ or_empty-seen e,
    lookup-event_headers e k,
  )

  -- A subscriber that filters by a type leaves every published event of another type alone, before
  -- any middleware, and runs the chain on those of this type.
  pub filtered :
      (t : Str) (e : Event) (handler : EventHandler W) (mws : List (EventMiddleware W))
      (ctx : Context)
      → build_event_handler c (filter_by_type t) handler mws ctx (event_message c e) ≡ (
          if str_eq (effective_type e) t
          then wrap mws handler ctx (message_to_event c (event_message c e))
          else pure none)
  unfolding build_event_handler filter_by_type accepts
  filtered t e handler mws ctx =
      let m = event_message c e in
      if_not (str_eq (message_to_event c m).type t) (pure none)
        (wrap mws handler ctx (message_to_event c m))
      ∙ ap (λ s. if str_eq s t then wrap mws handler ctx (message_to_event c m) else pure none)
          (message_to_event-event_message e []).3
