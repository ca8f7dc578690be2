-- ===== src/Rabbit/Consumer.antt =====
-- rabbitmq_adapter.go: the channel of a consumer, in Consume and in the stop that it returns.
use taskbus.Prelude.{
  ℕ, ◌+◌, ◌-◌, Str, none, some, Exec, pure, ◌>>=◌, str_eq, ◌≡◌, ◌∙◌, refl, arith, Bool-cases, inl,
  inr,
}
use taskbus.Mq.{GoError, Result, ok, err, Context, Stop}
use taskbus.Config.{RabbitMqConfig, delay_mode_standard}
use taskbus.Rabbit.{Amqp, Adapter, lift, ensure_connection, checked, set_prefetch, queue_name}
use taskbus.Rabbit.Calls.{
  bind_delayed, take_deliveries, bind_second, bind_first, or_close, consume_on, consume,
  stop_consumer, stop_error,
}
use taskbus.Rabbit.Channels.{Opened, CountsChannels, ensure_connection-Keeps, set_prefetch-Keeps}

module _ {W : Type 0} (amqp : Amqp W) (cfg : RabbitMqConfig) (open_channels : W → ℕ)
    (law : CountsChannels amqp open_channels 1) (mode : Str) where
  -- `base` channels are open besides the consumer's.
  abbrev pub Consuming : ℕ → Result (Stop (Adapter W)) × Adapter W → Type 0
  Consuming base (ok s, a) =
      (open_channels a.env ≡ base + 1)
      × ((ctx : Context) (a' : Adapter W)
          → open_channels (s ctx a').1.env ≡ open_channels a'.env - 1)
  Consuming base (err e, a) = open_channels a.env ≡ base

  stop_error-keeps :
      (ctx : Context) (ch : ℕ) (e : GoError) (a : Adapter W)
      → open_channels (stop_error amqp cfg mode ctx ch e a).1.env ≡ open_channels a.env
  stop_error-keeps ctx ch none a = unfold stop_error in law.wait_done ctx ch a.env
  stop_error-keeps ctx ch (some e) a = elim (Bool-cases (amqp.is_err_closed e)) [
    | inl h ↦ unfold stop_error in rw h (law.wait_done ctx ch a.env)
    | inr h ↦ unfold stop_error in rw h refl
  ]

  stop-closes :
      (ch : ℕ) (ctx : Context) (a : Adapter W)
      → open_channels (stop_consumer amqp cfg mode ch ctx a).1.env ≡ open_channels a.env - 1
  unfolding stop_consumer
  stop-closes ch ctx a =
      let r = amqp.close_channel ch a.env in
      stop_error-keeps ctx ch r.0 (record a { env = r.1 }) ∙ law.close_channel ch a.env

  -- A step on an open channel.
  step-Consuming :
      (base ch : ℕ) (next : Exec (Adapter W) (Result (Stop (Adapter W)))) (e : GoError)
      (a : Adapter W)
      → ((a' : Adapter W) → open_channels a'.env ≡ base + 1 → Consuming base (next a'))
      → open_channels a.env ≡ base + 1
      → Consuming base (or_close amqp cfg mode ch next e a)
  step-Consuming base ch next none a go h = go a h
  step-Consuming base ch next (some e) a go h = omega (arith, law.close_channel ch a.env, h)

  bind_delayed-keeps :
      (q topic : Str) (ch : ℕ) (a : Adapter W)
      → open_channels (bind_delayed amqp cfg mode q topic ch a).1.env ≡ open_channels a.env
  unfolding bind_delayed
  bind_delayed-keeps q topic ch a = elim (Bool-cases (str_eq mode delay_mode_standard)) [
    | inl h ↦ rw h (law.queue_bind ch q topic cfg.delayed_exchange a.env)
    | inr h ↦ rw h refl
  ]

  take_deliveries-Consuming :
      (q : Str) (base ch : ℕ) (a : Adapter W)
      → open_channels a.env ≡ base + 1
      → Consuming base (take_deliveries amqp cfg mode q ch a)
  unfolding take_deliveries
  take_deliveries-Consuming q base ch a h =
      let r = amqp.consume ch q a.env in
      step-Consuming base ch (pure (ok (stop_consumer amqp cfg mode ch))) r.0
        (record a { env = r.1 }) (λ a' h'. (h', stop-closes ch)) (law.consume ch q a.env ∙ h)

  bind_second-Consuming :
      (q topic : Str) (base ch : ℕ) (a : Adapter W)
      → open_channels a.env ≡ base + 1
      → Consuming base (bind_second amqp cfg mode q topic ch a)
  unfolding bind_second
  bind_second-Consuming q topic base ch a h =
      let r = bind_delayed amqp cfg mode q topic ch a in
      step-Consuming base ch (take_deliveries amqp cfg mode q ch) r.0 r.1
        (take_deliveries-Consuming q base ch) (bind_delayed-keeps q topic ch a ∙ h)

  bind_first-Consuming :
      (q topic : Str) (base ch : ℕ) (a : Adapter W)
      → open_channels a.env ≡ base + 1
      → Consuming base (bind_first amqp cfg mode q topic ch a)
  unfolding bind_first
  bind_first-Consuming q topic base ch a h =
      let r = amqp.queue_bind ch q topic cfg.exchange a.env in
      step-Consuming base ch (bind_second amqp cfg mode q topic ch) r.0 (record a { env = r.1 })
        (bind_second-Consuming q topic base ch) (law.queue_bind ch q topic cfg.exchange a.env ∙ h)

  consume_on-Consuming :
      (topic group : Str) (base ch : ℕ) (a : Adapter W)
      → open_channels a.env ≡ base + 1
      → Consuming base (consume_on amqp cfg mode topic group ch a)
  unfolding consume_on
  consume_on-Consuming topic group base ch a h =
      let q = queue_name topic group in
      let a1 = (set_prefetch amqp cfg ch a).1 in
      let r = amqp.queue_declare ch q a1.env in
      step-Consuming base ch (bind_first amqp cfg mode q topic ch) r.0 (record a1 { env = r.1 })
        (bind_first-Consuming q topic base ch)
        (law.queue_declare ch q a1.env ∙ set_prefetch-Keeps amqp cfg open_channels 1 law ch a ∙ h)

  Opened-Consuming :
      (topic group : Str) (base : ℕ) (a : Adapter W) (r : Result ℕ × W)
      → open_channels a.env ≡ base
      → Opened open_channels 1 a.env r
      → Consuming base
          (checked err (consume_on amqp cfg mode topic group) r.0 (record a { env = r.1 }))
  Opened-Consuming topic group base a (ok ch, w) h opened =
      consume_on-Consuming topic group base ch (record a { env = w }) (omega (arith, opened, h))
  Opened-Consuming topic group base a (err e, w) h opened = opened ∙ h

  connected-Consuming :
      (topic group : Str) (base : ℕ) (r : Result ℕ) (a : Adapter W)
      → open_channels a.env ≡ base
      → Consuming base (
          checked err
            (λ conn. do
              ch ← lift (amqp.channel conn)
              checked err (consume_on amqp cfg mode topic group) ch)
            r
            a)
  connected-Consuming topic group base (ok conn) a h =
      Opened-Consuming topic group base a (amqp.channel conn a.env) h (law.channel conn a.env)
  connected-Consuming topic group base (err e) a h = h

  -- Consume holds one channel more when it returns, which the function it returns closes; where it
  -- returns an error, whichever step failed, no channel is left open.
  pub consume-Consuming :
      (topic group : Str) (a : Adapter W)
      → Consuming (open_channels a.env) (consume amqp cfg mode topic group a)
  unfolding consume
  consume-Consuming topic group a =
      let r = ensure_connection amqp cfg a in
      connected-Consuming topic group (open_channels a.env) r.0 r.1
        (ensure_connection-Keeps amqp cfg open_channels 1 law a)
