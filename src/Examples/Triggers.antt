-- ===== src/Examples/Triggers.antt =====
-- A trigger of the cron on its way over a Redis stream, at a concrete input.
use taskbus.Prelude.{Str, ◌>>=◌, ◌≡◌}
use taskbus.Mq.{background}
use taskbus.Topic.{build_wildcard_topic}
use taskbus.Redis.{Redis, stream_fields, decode_x_message}
use taskbus.Redis.Codec.{IsCopy, entry}
use taskbus.Redis.Worker.{publish, process_message, after_handler}
use taskbus.Cron.{cron_component, trigger_message, exec_handle}
use taskbus.Flow.Triggers.{cron_stream, run_registered, trigger_delivered}
use taskbus.Examples.Settings.{whole}
use taskbus.Examples.Flows.{shop, server, json, retry, group, id, shop-IsNamespace, shop-not_token}
use taskbus.Examples.Schedules.{lib, State, methods, client, name}

abbrev redis : Redis State
redis = server

abbrev stream : Str
stream = cron_stream lib methods client redis json whole retry

trigger_delivered_example :
    let m = trigger_message lib methods client name in
    let d = decode_x_message stream (entry m id) in
    (publish redis json background m ≡ redis.x_add background stream (stream_fields m))
    × (process_message redis json whole retry background stream group
          (build_wildcard_topic shop cron_component)
          (exec_handle lib methods client)
          (entry m id)
        ≡ (do
          e ← run_registered lib methods client redis json whole retry name background
          after_handler redis json whole retry background stream group id d e))
    × IsCopy m d
trigger_delivered_example =
    trigger_delivered lib methods client redis json whole retry name background background group id
      shop-IsNamespace shop-not_token
