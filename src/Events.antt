-- ===== src/Events.antt =====
-- eventbus_impl.go, event.go and wrap_defaults.go: publishing events and subscribing to them, and
-- the default middleware put before a caller's own.
pub mod RoundTrip
pub mod Subscriptions
pub mod Subjects
use taskbus.Prelude.{
  ℕ, ℤ, pos, Str, codes, GoMap, List, [], ◌∷◌, ◌++◌, Option, none, some, Bool, true, false, not,
  Exec, pure, ◌>>=◌, nonpos, is_empty, str_eq, lookup, insert, if◌then◌else◌,
}
use taskbus.Mq.{
  Err, GoError, Result, ok, err, Message, Context, background, Handler, Middleware, JobMiddleware,
  Stop, Mq, wrap,
}
use taskbus.Mq.Consumers.{consume_n, stop_all}
use taskbus.Topic.{build_topic_prefix, trim_topic_prefix}
use taskbus.Retry.{copy_headers}
use taskbus.Config.{Client, event_bus_mode_global}
use taskbus.Jobs.Workers.{rounds, stop_function}

pub record Event : Type 0 where
  pub topic : Str
  pub type : Str
  pub subject : Str
  pub metadata : GoMap Str
  pub payload : Str

-- A nil filter is `none`.
abbrev pub Filter : Type 0
Filter = Option (Event → Bool)

abbrev pub EventHandler : Type 0 → Type 0
EventHandler W = Context → Event → Exec W GoError

abbrev pub EventMiddleware : Type 0 → Type 0
EventMiddleware W = EventHandler W → EventHandler W

abbrev pub event_component : Str
event_component = codes "event"

abbrev pub type_key : Str
type_key = codes "type"

abbrev pub global_event_prefix : Str
global_event_prefix = codes "taskbus.event."

-- FilterByType
unfoldable pub filter_by_type : Str → Filter
filter_by_type t = some (λ e. str_eq e.type t)

unfoldable pub event_headers : Event → GoMap Str
event_headers e =
    if not (is_empty e.type)
    then insert type_key e.type (copy_headers e.metadata)
    else copy_headers e.metadata

-- The value of a missing key is the empty string.
abbrev pub or_empty : Option Str → Str
or_empty none = []
or_empty (some s) = s

module _ {F W : Type 0} (c : Client F W) where
  unfoldable pub event_topic_prefix : Str
  event_topic_prefix =
      if str_eq c.cfg.event_bus.mode event_bus_mode_global
      then global_event_prefix
      else build_topic_prefix c.namespace event_component

  unfoldable pub build_event_topic : Str → Str
  build_event_topic topic = event_topic_prefix ++ topic

  unfoldable pub extract_event_topic : Str → Str
  extract_event_topic full = trim_topic_prefix full event_topic_prefix

  -- What Publish hands to the queue.
  unfoldable pub event_message : Event → Message
  event_message e = record {
    topic = build_event_topic e.topic;
    key = e.subject;
    body = e.payload;
    headers = event_headers e;
  }

  unfoldable pub publish_event : Context → Event → Exec W GoError
  publish_event ctx e = c.mq.publish ctx (event_message e)

  unfoldable pub message_to_event : Message → Event
  message_to_event m = record {
    topic = extract_event_topic m.topic;
    type = or_empty (lookup type_key m.headers);
    subject = m.key;
    metadata = m.headers;
    payload = m.body;
  }

  unfoldable pub accepts : Filter → Event → Bool
  accepts none e = true
  accepts (some f) e = f e

  unfoldable pub build_event_handler :
      Filter → EventHandler W → List (EventMiddleware W) → Handler W
  unfolding accepts
  build_event_handler filter handler mws ctx m =
      let e = message_to_event m in
      if not (accepts filter e) then pure none else wrap mws handler ctx e

  unfoldable pub subscribe :
      Str → Str → Filter → EventHandler W → List (EventMiddleware W) → Exec W (Result (Stop W))
  unfolding stop_function
  subscribe topic group filter handler mws =
      let n = c.cfg.event_bus.subscriber_concurrency in
      let concurrency = if nonpos n then pos 1 else n in
      do
        r ←
            consume_n c.mq background (build_event_topic topic) group
              (build_event_handler filter handler mws) (rounds concurrency) []
        pure (stop_function r)

  -- The middleware that withDefaultBusMiddleware makes of a message middleware: `next` gets the
  -- event that came in, whatever message the middleware passes on.
  unfoldable pub converted : Middleware W → EventMiddleware W
  converted mw next ctx e =
      mw (λ ctx' msg. next ctx' e) ctx
        (record { topic = e.topic; key = e.subject; body = e.payload; headers = e.metadata })

  -- Subscribe of busWithMiddleware
  unfoldable pub subscribe_with_default :
      Middleware W
      → Str
      → Str
      → Filter
      → EventHandler W
      → List (EventMiddleware W)
      → Exec W (Result (Stop W))
  subscribe_with_default mw topic group filter handler mws =
      subscribe topic group filter handler (converted mw ∷ mws)
