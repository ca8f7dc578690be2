-- ===== src/Examples/Events.antt =====
-- An event on its way over a Redis stream, at a concrete input.
use taskbus.Prelude.{ℕ, suc, ℤ, codes, [], ◌∷◌, none, true, ◌>>=◌, ◌≡◌, refl, arith}
use taskbus.Mq.{background, noop_mq}
use taskbus.Topic.{match_topic, build_topic_prefix}
use taskbus.Config.{Client}
use taskbus.Redis.{Redis, redis_stream_for_topic, stream_fields, decode_x_message}
use taskbus.Redis.Codec.{entry}
use taskbus.Redis.Worker.{publish, process_message, after_handler}
use taskbus.Events.{
  Event, EventHandler, build_event_topic, event_topic_prefix, event_message, message_to_event,
  build_event_handler,
}
use taskbus.Flow.Events.{event_stream, subscribed, Arrives, event_delivered}
use taskbus.Examples.Settings.{bare, whole}
use taskbus.Examples.Flows.{
  shop, server, json, retry, users, group, id, shop-IsNamespace, shop-not_token,
}

abbrev client : Client ℤ ℕ
client = record { cfg = bare; mq = noop_mq; namespace = shop }

abbrev redis : Redis ℕ
redis = server

abbrev created : Event
created = record {
  topic = codes "user.created";
  type = codes "UserCreated";
  subject = codes "7";
  metadata = (codes "source", codes "web") ∷ [];
  payload = codes "{}";
}

abbrev count_events : EventHandler ℕ
count_events ctx e w = (none, suc w)

users_match :
    match_topic (build_event_topic client users) (build_event_topic client created.topic) ≡ true
unfolding match_topic build_event_topic event_topic_prefix build_topic_prefix
users_match = refl

event_delivered_example :
    let m = event_message client created in
    let d = decode_x_message (event_stream client) (entry m id) in
    (publish redis json background m
      ≡ server.x_add background (event_stream client) (stream_fields m))
    × (redis_stream_for_topic (build_event_topic client users) ≡ event_stream client)
    × (process_message server json whole retry background
          (event_stream client)
          group
          (build_event_topic client users)
          (build_event_handler client none count_events [])
          (entry m id)
        ≡ (do
          r ← subscribed client none count_events [] background (message_to_event client d)
          after_handler server json whole retry background (event_stream client) group id d r))
    × Arrives client created (message_to_event client d)
event_delivered_example =
    event_delivered client server json whole retry shop-IsNamespace shop-not_token users created
      background background group id none count_events [] users_match (ground arith)
