-- ===== src/Rabbit/Channels.antt =====
-- rabbitmq_adapter.go: the channels that Publish and PublishDelay open and close.
use taskbus.Prelude.{
  ℕ, ◌+◌, ◌-◌, ℤ, Str, Option, none, some, Bool, true, false, Exec, pure, ◌>>=◌, ◌>>◌, nonpos, ◌≡◌,
  ◌∙◌, refl, arith, Bool-cases, inl, inr,
}
use taskbus.Mq.{
  connection_failed, channel_creation_failed, publish_failed, Err, GoError, Result, ok, err,
  Message, Context,
}
use taskbus.Config.{RabbitMqConfig}
use taskbus.Rabbit.{
  Publishing, Amqp, Adapter, lift, connected, redial, keep_or_redial, ensure_from,
  ensure_connection, checked, checked_error, with_channel, set_prefetch, string_map_to_table,
}
use taskbus.Rabbit.Calls.{
  publish_on, publish, publish_delay_on, publish_delay, notice_error, publishing,
}

module _ {W : Type 0} where
  abbrev pub Opened : (W → ℕ) → ℕ → W → Result ℕ × W → Type 0
  Opened open_channels d w (ok ch, w') = open_channels w' ≡ open_channels w + d
  Opened open_channels d w (err e, w') = open_channels w' ≡ open_channels w

  -- What the client documents of a number in the world, of which an open channel holds `d`. With
  -- `d` as 1 it counts the channels that the client has opened and that nobody has closed; with
  -- `d` as 0 it counts something that these commands do not touch.
  pub record CountsChannels (amqp : Amqp W) (open_channels : W → ℕ) (d : ℕ) : Type 0 where
    pub channel : (conn : ℕ) (w : W) → Opened open_channels d w (amqp.channel conn w)
    pub close_channel :
        (ch : ℕ) (w : W) → open_channels (amqp.close_channel ch w).1 ≡ open_channels w - d
    pub is_closed : (conn : ℕ) (w : W) → open_channels (amqp.is_closed conn w).1 ≡ open_channels w
    pub dial : (uri : Str) (w : W) → open_channels (amqp.dial uri w).1 ≡ open_channels w
    pub qos : (ch : ℕ) (n : ℤ) (w : W) → open_channels (amqp.qos ch n w).1 ≡ open_channels w
    pub publish :
        (ctx : Context) (ch : ℕ) (exchange key : Str) (p : Publishing) (w : W)
        → open_channels (amqp.publish ctx ch exchange key p w).1 ≡ open_channels w
    pub notice : (ch : ℕ) (w : W) → open_channels (amqp.notice ch w).1 ≡ open_channels w
    pub queue_declare :
        (ch : ℕ) (q : Str) (w : W) → open_channels (amqp.queue_declare ch q w).1 ≡ open_channels w
    pub queue_bind :
        (ch : ℕ) (q key exchange : Str) (w : W)
        → open_channels (amqp.queue_bind ch q key exchange w).1 ≡ open_channels w
    pub consume :
        (ch : ℕ) (q : Str) (w : W) → open_channels (amqp.consume ch q w).1 ≡ open_channels w
    pub wait_done :
        (ctx : Context) (ch : ℕ) (w : W)
        → open_channels (amqp.wait_done ctx ch w).1 ≡ open_channels w

module _ {W : Type 0} (amqp : Amqp W) (cfg : RabbitMqConfig) (open_channels : W → ℕ) (d : ℕ)
    (law : CountsChannels amqp open_channels d) where
  -- The open channels after an action of the adapter.
  abbrev pub open_after : {A : Type 0} → Exec (Adapter W) A → Adapter W → ℕ
  open_after m a = open_channels (m a).1.env

  abbrev pub Keeps : {A : Type 0} → Exec (Adapter W) A → Type 0
  Keeps m = (a : Adapter W) → open_after m a ≡ open_channels a.env

  connected-Keeps : (r : Result ℕ) → Keeps (connected amqp cfg r)
  unfolding connected
  connected-Keeps (ok conn) a = refl
  connected-Keeps (err e) a = refl

  redial-Keeps : Keeps (redial amqp cfg)
  unfolding redial
  redial-Keeps a =
      let r = amqp.dial cfg.uri a.env in
      connected-Keeps r.0 (record a { env = r.1 }) ∙ law.dial cfg.uri a.env

  keep_or_redial-Keeps : (conn : ℕ) (b : Bool) → Keeps (keep_or_redial amqp cfg conn b)
  keep_or_redial-Keeps conn false a = unfold keep_or_redial in refl
  keep_or_redial-Keeps conn true a = unfold keep_or_redial in redial-Keeps a

  ensure_from-Keeps : (o : Option ℕ) → Keeps (ensure_from amqp cfg o)
  unfolding ensure_from
  ensure_from-Keeps none a = redial-Keeps a
  ensure_from-Keeps (some conn) a =
      let r = amqp.is_closed conn a.env in
      keep_or_redial-Keeps conn r.0 (record a { env = r.1 }) ∙ law.is_closed conn a.env

  pub ensure_connection-Keeps : Keeps (ensure_connection amqp cfg)
  unfolding ensure_connection
  ensure_connection-Keeps a = ensure_from-Keeps a.conn a

  -- A body that keeps the number, between opening and closing.
  channel-Keeps :
      (wrap : Err → Err) (body : ℕ → Exec (Adapter W) GoError)
      → ((ch : ℕ) → Keeps (body ch))
      → (a : Adapter W) (r : Result ℕ × W) → Opened open_channels d a.env r
      → open_after
          (checked
            (λ e. some (wrap e))
            (λ ch. do result ← body ch; lift (amqp.close_channel ch); pure result)
            r.0)
          (record a { env = r.1 })
        ≡ open_channels a.env
  channel-Keeps wrap body keeps a (ok ch, w) opened = omega (
    arith,
    law.close_channel ch (body ch (record a { env = w })).1.env,
    keeps ch (record a { env = w }),
    opened,
  )
  channel-Keeps wrap body keeps a (err e, w) opened = opened

  pub connection-Keeps :
      {B : Type 0} (wrap : Err → B) (next : ℕ → Exec (Adapter W) B)
      → ((conn : ℕ) → Keeps (next conn))
      → (r : Result ℕ) → Keeps (checked wrap next r)
  connection-Keeps wrap next keeps (ok conn) a = keeps conn a
  connection-Keeps wrap next keeps (err e) a = refl

  with_channel-Keeps :
      (no_conn no_channel : Err → Err) (body : ℕ → Exec (Adapter W) GoError)
      → ((ch : ℕ) → Keeps (body ch))
      → Keeps (with_channel amqp cfg no_conn no_channel body)
  unfolding with_channel
  with_channel-Keeps no_conn no_channel body keeps a =
      let r = ensure_connection amqp cfg a in
      connection-Keeps (λ e. some (no_conn e))
        (λ conn. do
          ch ← lift (amqp.channel conn)
          checked (λ e. some (no_channel e))
              (λ ch. do result ← body ch; lift (amqp.close_channel ch); pure result) ch)
        (λ conn a'.
          channel-Keeps no_channel body keeps a' (amqp.channel conn a'.env)
            (law.channel conn a'.env))
        r.0 r.1
      ∙ ensure_connection-Keeps a

  pub set_prefetch-Keeps : (ch : ℕ) → Keeps (set_prefetch amqp cfg ch)
  unfolding set_prefetch
  set_prefetch-Keeps ch a = elim (Bool-cases (nonpos cfg.prefetch)) [
    | inl e ↦ rw e refl
    | inr e ↦ rw e (law.qos ch cfg.prefetch a.env)
  ]

  module _ (mode : Str) where
    publish_on-Keeps :
        (ctx : Context) (m : Message) (ch : ℕ) → Keeps (publish_on amqp cfg mode ctx m ch)
    unfolding publish_on
    publish_on-Keeps ctx m ch a =
        let a1 = (set_prefetch amqp cfg ch a).1 in
        let p = publishing m (string_map_to_table m.headers) in
        let r = amqp.publish ctx ch cfg.exchange m.topic p a1.env in
        notice_Keeps r.0 (record a1 { env = r.1 })
        ∙ law.publish ctx ch cfg.exchange m.topic p a1.env
        ∙ set_prefetch-Keeps ch a
      where
        notice_Keeps :
            (e : GoError) (a : Adapter W)
            → open_after
                (checked_error
                  (λ e. some (publish_failed m.topic e))
                  (do n ← lift (amqp.notice ch); pure (notice_error amqp cfg mode m.topic n))
                  e)
                a
              ≡ open_channels a.env
        notice_Keeps none a = law.notice ch a.env
        notice_Keeps (some e) a = refl

    publish_delay_on-Keeps :
        (ctx : Context) (m : Message) (delay : ℤ) (ch : ℕ)
        → Keeps (publish_delay_on amqp cfg mode ctx m delay ch)
    unfolding publish_delay_on
    publish_delay_on-Keeps ctx m delay ch a =
        law.publish ctx ch _ m.topic _ (set_prefetch amqp cfg ch a).1.env ∙ set_prefetch-Keeps ch a

    pub publish_delay-Keeps :
        (ctx : Context) (m : Message) (delay : ℤ) → Keeps (publish_delay amqp cfg mode ctx m delay)
    unfolding publish_delay
    publish_delay-Keeps ctx m delay =
        with_channel-Keeps (λ e. e) (λ e. e) (publish_delay_on amqp cfg mode ctx m delay)
          (publish_delay_on-Keeps ctx m delay)

-- Publish and PublishDelay leave as many channels open as there were, on every branch: where the
-- connection, the channel or the publishing fails, where the message comes back, and where it is
-- taken. The client opens a channel or returns an error, and closes the one it is given.
pub channels_closed :
    {W : Type 0} (amqp : Amqp W) (cfg : RabbitMqConfig) (open_channels : W → ℕ) (mode : Str)
    (ctx : Context) (m : Message) (delay : ℤ) (a : Adapter W)
    → CountsChannels amqp open_channels 1
    → (open_channels (publish amqp cfg mode ctx m a).1.env ≡ open_channels a.env)
      × (open_channels (publish_delay amqp cfg mode ctx m delay a).1.env ≡ open_channels a.env)
unfolding publish
channels_closed amqp cfg open_channels mode ctx m delay a law = (
  with_channel-Keeps amqp cfg open_channels 1 law connection_failed channel_creation_failed
      (publish_on amqp cfg mode ctx m) (publish_on-Keeps amqp cfg open_channels 1 law mode ctx m) a,
  publish_delay-Keeps amqp cfg open_channels 1 law mode ctx m delay a,
)
