-- ===== src/Rabbit/Calls.antt =====
-- rabbitmq_adapter.go: the methods of the adapter. Every call but Consume closes its channel.
use taskbus.Prelude.{
  ℕ, ℤ, Str, codes, Option, none, some, Exec, pure, ◌>>=◌, ◌>>◌, is_empty, str_eq, insert, itoa,
  if◌then◌else◌,
}
use taskbus.Mq.{
  connection_failed, channel_creation_failed, publish_failed, unroutable, channel_closed,
  delayed_exchange_required, GoError, Result, ok, err, Message, Context, Stop,
}
use taskbus.Config.{RabbitMqConfig, delay_mode_standard, delay_mode_aliyun}
use taskbus.Rabbit.{
  text, number, Table, Publishing, Notice, returned, closed, quiet, Amqp, Adapter, lift,
  string_map_to_table, queue_name, milliseconds, check_config, ensure_connection, checked,
  checked_error, with_channel, set_prefetch,
}

abbrev pub publishing : Message → Table → Publishing
publishing m headers = record { message_id = m.key; headers = headers; body = m.body }

module _ {W : Type 0} (amqp : Amqp W) (cfg : RabbitMqConfig) (mode : Str) where
  -- The errors that follow a publish.
  unfoldable pub notice_error : Str → Notice → GoError
  notice_error topic (returned t) = some (unroutable topic t)
  notice_error topic (closed e) = some (channel_closed e)
  notice_error topic quiet = none

  unfoldable pub publish_on : Context → Message → ℕ → Exec (Adapter W) GoError
  unfolding notice_error
  publish_on ctx m ch = do
    set_prefetch amqp cfg ch
    e ←
        lift
          (amqp.publish ctx ch cfg.exchange m.topic (publishing m (string_map_to_table m.headers)))
    checked_error (λ e. some (publish_failed m.topic e))
        (do n ← lift (amqp.notice ch); pure (notice_error m.topic n)) e

  -- Publish
  unfoldable pub publish : Context → Message → Exec (Adapter W) GoError
  unfolding publish_on
  publish ctx m = with_channel amqp cfg connection_failed channel_creation_failed (publish_on ctx m)

  -- The table of a delayed message.
  unfoldable pub delay_headers : Message → ℤ → Table
  delay_headers m delay =
      let headers = string_map_to_table m.headers in
      let ms = milliseconds delay in
      if str_eq mode delay_mode_aliyun
      then insert (codes "delay") (text (itoa ms)) headers
      else insert (codes "x-delay") (number ms) headers

  unfoldable pub delay_exchange : Str
  delay_exchange = if str_eq mode delay_mode_aliyun then cfg.exchange else cfg.delayed_exchange

  unfoldable pub publish_delay_on : Context → Message → ℤ → ℕ → Exec (Adapter W) GoError
  unfolding delay_headers delay_exchange
  publish_delay_on ctx m delay ch = do
    set_prefetch amqp cfg ch
    lift (amqp.publish ctx ch delay_exchange m.topic (publishing m (delay_headers m delay)))

  -- PublishDelay; a message that comes back is only logged.
  unfoldable pub publish_delay : Context → Message → ℤ → Exec (Adapter W) GoError
  unfolding publish_delay_on
  publish_delay ctx m delay = with_channel amqp cfg (λ e. e) (λ e. e) (publish_delay_on ctx m delay)

  -- The two exchanges.
  unfoldable pub declare_on : ℕ → Exec (Adapter W) GoError
  declare_on ch = do
    e ← lift (amqp.exchange_declare ch cfg.exchange (codes "topic"))
    checked_error (λ e. some e)
        (if str_eq mode delay_mode_standard
          then if is_empty cfg.delayed_exchange
            then pure (some delayed_exchange_required)
            else lift (amqp.exchange_declare ch cfg.delayed_exchange (codes "x-delayed-message"))
          else pure none)
        e

  -- A step of Consume: on an error the channel is closed and the error returned.
  abbrev pub or_close :
      {B : Type 0} → ℕ → Exec (Adapter W) (Result B) → GoError → Exec (Adapter W) (Result B)
  or_close ch next none = next
  or_close ch next (some e) = do lift (amqp.close_channel ch); pure (err e)

  unfoldable pub stop_error : Context → ℕ → GoError → Exec (Adapter W) GoError
  stop_error ctx ch none = lift (amqp.wait_done ctx ch)
  stop_error ctx ch (some e) =
      if amqp.is_err_closed e then lift (amqp.wait_done ctx ch) else pure (some e)

  -- The function that Consume returns.
  unfoldable pub stop_consumer : ℕ → Stop (Adapter W)
  unfolding stop_error
  stop_consumer ch ctx = do e ← lift (amqp.close_channel ch); stop_error ctx ch e

  unfoldable pub bind_delayed : Str → Str → ℕ → Exec (Adapter W) GoError
  bind_delayed q topic ch =
      if str_eq mode delay_mode_standard
      then lift (amqp.queue_bind ch q topic cfg.delayed_exchange)
      else pure none

  -- The steps of Consume on its channel, the last one first.
  unfoldable pub take_deliveries : Str → ℕ → Exec (Adapter W) (Result (Stop (Adapter W)))
  unfolding stop_consumer
  take_deliveries q ch = do
    e ← lift (amqp.consume ch q)
    or_close ch (pure (ok (stop_consumer ch))) e

  unfoldable pub bind_second : Str → Str → ℕ → Exec (Adapter W) (Result (Stop (Adapter W)))
  unfolding bind_delayed take_deliveries
  bind_second q topic ch = do e ← bind_delayed q topic ch; or_close ch (take_deliveries q ch) e

  unfoldable pub bind_first : Str → Str → ℕ → Exec (Adapter W) (Result (Stop (Adapter W)))
  unfolding bind_second
  bind_first q topic ch = do
    e ← lift (amqp.queue_bind ch q topic cfg.exchange)
    or_close ch (bind_second q topic ch) e

  unfoldable pub consume_on : Str → Str → ℕ → Exec (Adapter W) (Result (Stop (Adapter W)))
  unfolding bind_first
  consume_on topic group ch = do
    set_prefetch amqp cfg ch
    e ← lift (amqp.queue_declare ch (queue_name topic group))
    or_close ch (bind_first (queue_name topic group) topic ch) e

  -- Consume, up to the goroutine that takes the deliveries.
  unfoldable pub consume : Str → Str → Exec (Adapter W) (Result (Stop (Adapter W)))
  unfolding consume_on
  consume topic group = do
    r ← ensure_connection amqp cfg
    checked err (λ conn. do ch ← lift (amqp.channel conn); checked err (consume_on topic group) ch)
        r

  -- declareTopology, on the connection; the channel is closed by `defer`.
  unfoldable pub declare_topology : ℕ → Exec (Adapter W) GoError
  unfolding declare_on
  declare_topology conn = do
    r ← lift (amqp.channel conn)
    checked (λ e. some e) (λ ch. do e ← declare_on ch; lift (amqp.close_channel ch); pure e) r

  -- newRabbitMQAdapterWithMode, on an adapter without a connection.
  unfoldable pub new_rabbitmq_adapter : Exec (Adapter W) GoError
  unfolding declare_topology
  new_rabbitmq_adapter =
      checked_error (λ e. some e)
        (do r ← ensure_connection amqp cfg; checked (λ e. some e) declare_topology r)
        (check_config cfg mode)

  unfoldable pub close_from : Option ℕ → Exec (Adapter W) GoError
  close_from none = pure none
  close_from (some conn) = lift (amqp.close_connection conn)

  -- Close
  unfoldable pub close : Exec (Adapter W) GoError
  unfolding close_from
  close a = close_from a.conn a
