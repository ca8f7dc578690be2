-- ===== src/Examples/Broker.antt =====
-- The RabbitMQ adapter at concrete inputs: a broker that counts channels and acknowledgements.
use taskbus.Prelude.{
  ℕ, suc, ◌+◌, ◌-◌, ℤ, pos, codes, [], ◌∷◌, ◌++◌, none, some, false, All, ◌≡◌, ◌≢◌, refl, arith,
}
use taskbus.Mq.{external, ok, Message, background, Handler}
use taskbus.Config.{delay_mode_standard}
use taskbus.Retry.{RetryConfig}
use taskbus.Rabbit.{Amqp, Adapter, text, sanitize_queue_name, queue_name, quiet}
use taskbus.Rabbit.Calls.{publish, publish_delay, consume}
use taskbus.Rabbit.Channels.{CountsChannels, channels_closed}
use taskbus.Rabbit.Consumer.{Consuming, consume-Consuming}
use taskbus.Rabbit.Queues.{IsAllowed, queue_names_collide}
use taskbus.Rabbit.Worker.{Delivery, process_delivery, CountsSettled, settled_once}
use taskbus.Examples.Settings.{no_rabbitmq, whole}

abbrev retry : RetryConfig ℤ
retry = record { base = pos 1000; factor = pos 2; max_retries = pos 3 }

record Broker : Type 0 where
  channels : ℕ
  settles : ℕ

abbrev amqp : Amqp Broker
amqp = record {
  is_closed = λ conn w. (false, w);
  dial = λ uri w. (ok 1, w);
  channel = λ conn w. (ok 7, record w { channels = w.channels + 1 });
  close_channel = λ ch w. (none, record w { channels = w.channels - 1 });
  close_connection = λ conn w. (none, w);
  qos = λ ch n w. (none, w);
  exchange_declare = λ ch name kind w. (none, w);
  publish = λ ctx ch exchange key p w. (some (external (codes "full")), w);
  notice = λ ch w. (quiet, w);
  queue_declare = λ ch q w. (none, w);
  queue_bind = λ ch q key exchange w. (none, w);
  consume = λ ch q w. (none, w);
  ack = λ tag w. (none, record w { settles = suc w.settles });
  nack = λ tag w. (none, record w { settles = suc w.settles });
  is_err_closed = λ e. false;
  wait_done = λ ctx ch w. (none, w);
}

amqp-CountsChannels : CountsChannels amqp (λ w. w.channels) 1
amqp-CountsChannels = record {
  channel = λ conn w. refl;
  close_channel = λ ch w. refl;
  is_closed = λ conn w. refl;
  dial = λ uri w. refl;
  qos = λ ch n w. refl;
  publish = λ ctx ch exchange key p w. refl;
  notice = λ ch w. refl;
  queue_declare = λ ch q w. refl;
  queue_bind = λ ch q key exchange w. refl;
  consume = λ ch q w. refl;
  wait_done = λ ctx ch w. refl;
}

amqp-CountsSettled :
    CountsSettled amqp no_rabbitmq delay_mode_standard whole retry background (λ w. w.settles) 3
amqp-CountsSettled = record {
  ack = λ w. refl;
  nack = λ w. refl;
  calls = record {
    channel = λ conn w. omega arith;
    close_channel = λ ch w. omega arith;
    is_closed = λ conn w. refl;
    dial = λ uri w. refl;
    qos = λ ch n w. refl;
    publish = λ ctx ch exchange key p w. refl;
    notice = λ ch w. refl;
    queue_declare = λ ch q w. refl;
    queue_bind = λ ch q key exchange w. refl;
    consume = λ ch q w. refl;
    wait_done = λ ctx ch w. refl;
  };
}

abbrev start : Adapter Broker
start = record { conn = none; env = record { channels = 2; settles = 0 } }

abbrev order : Message
order = record {
  topic = codes "orders.paid";
  key = codes "42";
  body = codes "hi";
  headers = (codes "a", codes "b") ∷ [];
}

channels_closed_example :
    ((publish amqp no_rabbitmq delay_mode_standard background order start).1.env.channels ≡ 2)
    × ((publish_delay amqp no_rabbitmq delay_mode_standard background order
          (pos 5)
          start).1.env.channels
        ≡ 2)
channels_closed_example =
    channels_closed amqp no_rabbitmq (λ w. w.channels) delay_mode_standard background order (pos 5)
      start amqp-CountsChannels

consume-Consuming_example :
    Consuming amqp no_rabbitmq
      (λ w. w.channels)
      amqp-CountsChannels
      delay_mode_standard
      2
      (consume amqp no_rabbitmq delay_mode_standard (codes "orders.#") (codes "g") start)
consume-Consuming_example =
    consume-Consuming amqp no_rabbitmq (λ w. w.channels) amqp-CountsChannels delay_mode_standard
      (codes "orders.#") (codes "g") start

queue_names_collide_example :
    (sanitize_queue_name (codes "user.") ≢ [])
    × All IsAllowed (sanitize_queue_name (codes "user."))
    × (queue_name (codes "user." ++ codes "#") (codes "g") ≡ queue_name (codes "user.") (codes "g"))
    × (queue_name (codes "user." ++ codes "*") (codes "g") ≡ queue_name (codes "user.") (codes "g"))
queue_names_collide_example = queue_names_collide (codes "user.") (codes "g")

abbrev delivery : Delivery
delivery = record {
  tag = 3;
  routing_key = codes "orders.paid";
  message_id = codes "42";
  body = codes "hi";
  headers = (codes "x-retry-count", text (codes "1")) ∷ [];
}

abbrev failing : Handler (Adapter Broker)
failing ctx m w = (some (external (codes "down")), w)

-- The handler fails and so does publishing the next attempt: the delivery goes back, once.
settled_once_example :
    (process_delivery amqp no_rabbitmq delay_mode_standard whole retry background failing delivery
      start).1.env.settles
    ≡ 1
settled_once_example =
    settled_once amqp no_rabbitmq delay_mode_standard whole retry background (λ w. w.settles)
      failing delivery start amqp-CountsSettled
