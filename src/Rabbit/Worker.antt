-- ===== src/Rabbit/Worker.antt =====
-- rabbitmq_adapter.go: what the goroutine of Consume does with one delivery.
use taskbus.Prelude.{ℕ, suc, ℤ, Str, Option, none, some, Exec, ◌>>=◌, succ_int, ◌≡◌, ◌∙◌, ap}
use taskbus.Mq.{GoError, Message, Context, Handler}
use taskbus.Config.{RabbitMqConfig}
use taskbus.Retry.{Float64, RetryConfig, attempt, retry_message, retry_delay}
use taskbus.Rabbit.{Table, Amqp, Adapter, lift, table_to_string_map}
use taskbus.Rabbit.Calls.{publish_delay}
use taskbus.Rabbit.Channels.{CountsChannels, publish_delay-Keeps}

pub record Delivery : Type 0 where
  pub tag : ℕ
  pub routing_key : Str
  pub message_id : Str
  pub body : Str
  pub headers : Table

unfoldable pub delivery_message : Delivery → Message
delivery_message d = record {
  topic = d.routing_key;
  key = d.message_id;
  body = d.body;
  headers = table_to_string_map d.headers;
}

module _ {W : Type 0} (amqp : Amqp W) (cfg : RabbitMqConfig) (mode : Str) (fl : Float64)
    (retry : RetryConfig fl.F) (ctx : Context) where
  -- A message that was put off is acknowledged, one that could not be goes back to the queue.
  unfoldable pub ack_or_requeue : ℕ → GoError → Exec (Adapter W) GoError
  ack_or_requeue tag none = lift (amqp.ack tag)
  ack_or_requeue tag (some e) = lift (amqp.nack tag)

  -- Attempt `n` is published with its delay, where the limit leaves one.
  unfoldable pub republish_or_drop : ℕ → Option Message → ℤ → Exec (Adapter W) GoError
  unfolding ack_or_requeue
  republish_or_drop tag none n = lift (amqp.ack tag)
  republish_or_drop tag (some next) n = do
    e ← publish_delay amqp cfg mode ctx next (retry_delay fl retry n)
    ack_or_requeue tag e

  unfoldable pub settle : ℕ → Message → GoError → Exec (Adapter W) GoError
  unfolding republish_or_drop
  settle tag m none = lift (amqp.ack tag)
  settle tag m (some e) =
      republish_or_drop tag (retry_message retry.max_retries m) (succ_int (attempt m.headers))

  unfoldable pub process_delivery : Handler (Adapter W) → Delivery → Exec (Adapter W) GoError
  unfolding settle
  process_delivery handler d = do let m = delivery_message d; e ← handler ctx m; settle d.tag m e

  -- `settled` counts the acknowledgements, of either kind, of one delivery.
  pub record CountsSettled (settled : W → ℕ) (tag : ℕ) : Type 0 where
    pub ack : (w : W) → settled (amqp.ack tag w).1 ≡ suc (settled w)
    pub nack : (w : W) → settled (amqp.nack tag w).1 ≡ suc (settled w)
    pub calls : CountsChannels amqp settled 0

  module _ (settled : W → ℕ) (tag : ℕ) (law : CountsSettled settled tag) where
    abbrev Once : Exec (Adapter W) GoError → Type 0
    Once m = (a : Adapter W) → settled (m a).1.env ≡ suc (settled a.env)

    ack_or_requeue-Once : (e : GoError) → Once (ack_or_requeue tag e)
    ack_or_requeue-Once none a = unfold ack_or_requeue in law.ack a.env
    ack_or_requeue-Once (some e) a = unfold ack_or_requeue in law.nack a.env

    republish_or_drop-Once : (o : Option Message) (n : ℤ) → Once (republish_or_drop tag o n)
    republish_or_drop-Once none n a = unfold republish_or_drop in law.ack a.env
    republish_or_drop-Once (some next) n a =
        republish_lem next n a
        ∙ ap suc (
            publish_delay-Keeps amqp cfg settled 0 law.calls mode ctx next (retry_delay fl retry n)
              a)
      where
        republish_lem :
            (next : Message) (n : ℤ) (a : Adapter W)
            → settled (republish_or_drop tag (some next) n a).1.env
              ≡ suc
                  (settled (publish_delay amqp cfg mode ctx next (retry_delay fl retry n) a).1.env)
        republish_lem next n a =
            let r = publish_delay amqp cfg mode ctx next (retry_delay fl retry n) a in
            unfold republish_or_drop in ack_or_requeue-Once r.0 r.1

    settle-Once : (m : Message) (e : GoError) → Once (settle tag m e)
    settle-Once m none a = unfold settle in law.ack a.env
    settle-Once m (some e) a =
        unfold settle in
        republish_or_drop-Once (retry_message retry.max_retries m) (succ_int (attempt m.headers)) a

  -- A delivery is settled exactly once after its handler, by an acknowledgement or a return to the
  -- queue: where the handler succeeds, where the limit of retries is passed, and where publishing
  -- the next attempt succeeds or fails. No other command of the client settles it.
  pub settled_once :
      (settled : W → ℕ) (handler : Handler (Adapter W)) (d : Delivery) (a : Adapter W)
      → CountsSettled settled d.tag
      → settled (process_delivery handler d a).1.env
        ≡ suc (settled (handler ctx (delivery_message d) a).1.env)
  unfolding process_delivery
  settled_once settled handler d a law =
      let r = handler ctx (delivery_message d) a in
      settle-Once settled d.tag law (delivery_message d) r.0 r.1
