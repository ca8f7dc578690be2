-- ===== src/Rabbit.antt =====
-- rabbitmq_adapter.go: the queue over RabbitMQ. The AMQP client and its broker are a parameter, the
-- record `Amqp`. The adapter's connection is part of the state; its mutex, the clock of a
-- publishing and the content type, which no code reads, are left out.
pub mod Tables
pub mod Queues
pub mod Calls
pub mod Channels
pub mod Consumer
pub mod Worker
pub mod Source
use taskbus.Prelude.{
  ℕ, zero, suc, ◌+◌, ℤ, pos, negsuc, Str, codes, GoMap, List, [], ◌∷◌, ◌++◌, Option, none, some,
  Bool, true, false, not, ◌||◌, ◌&&◌, ◌==◌, Exec, pure, ◌>>=◌, ◌>>◌, nonpos, leb_ℤ, is_empty,
  str_eq, insert, itoa, floor_div, if◌then◌else◌, ◌/◌,
}
use taskbus.Mq.{
  Err, external, connection_failed, channel_creation_failed, publish_failed, unroutable,
  channel_closed, rabbitmq_config_invalid, delayed_exchange_required, GoError, Result, ok, err,
  Message, Context,
}
use taskbus.Config.{RabbitMqConfig, delay_mode_standard, delay_mode_aliyun}

-- A value of amqp.Table: a string, an integer, or something else.
pub data Field : Type 0 where
  text : Str → Field
  number : ℤ → Field
  other : Field

abbrev pub Table : Type 0
Table = GoMap Field

pub record Publishing : Type 0 where
  pub message_id : Str
  pub headers : Table
  pub body : Str

-- What the `select` behind a publish finds: a returned message, a closed channel, or nothing.
pub data Notice : Type 0 where
  returned : Str → Notice
  closed : Err → Notice
  quiet : Notice

-- Connections and channels are numbers. A queue is declared durable, under the name that is asked;
-- `wait_done` is the `select` at the end of a stop: the consumer's goroutine ends, or the context.
pub record Amqp (W : Type 0) : Type 0 where
  pub is_closed : ℕ → Exec W Bool
  pub dial : Str → Exec W (Result ℕ)
  pub channel : ℕ → Exec W (Result ℕ)
  pub close_channel : ℕ → Exec W GoError
  pub close_connection : ℕ → Exec W GoError
  pub qos : ℕ → ℤ → Exec W GoError
  pub exchange_declare : ℕ → Str → Str → Exec W GoError
  pub publish : Context → ℕ → Str → Str → Publishing → Exec W GoError
  pub notice : ℕ → Exec W Notice
  pub queue_declare : ℕ → Str → Exec W GoError
  pub queue_bind : ℕ → Str → Str → Str → Exec W GoError
  pub consume : ℕ → Str → Exec W GoError
  pub ack : ℕ → Exec W GoError
  pub nack : ℕ → Exec W GoError
  pub is_err_closed : Err → Bool
  pub wait_done : Context → ℕ → Exec W GoError

-- The adapter's field `conn`, and everything else.
pub record Adapter (W : Type 0) : Type 0 where
  pub conn : Option ℕ
  pub env : W

-- An action of the client, which leaves the adapter alone.
abbrev pub lift : {W A : Type 0} → Exec W A → Exec (Adapter W) A
lift m a = let (r, w) = m a.env in (r, record a { env = w })

-- stringMapToTable
unfoldable pub string_map_to_table : GoMap Str → Table
string_map_to_table [] = []
string_map_to_table ((k, v) ∷ m) = insert k (text v) (string_map_to_table m)

-- One entry of tableToStringMap; `%v` prints an integer in decimal.
unfoldable pub put_field : Str → Field → GoMap Str → GoMap Str
put_field k (text v) m = insert k v m
put_field k (number n) m = insert k (itoa n) m
put_field k other m = m

unfoldable pub table_to_string_map : Table → GoMap Str
unfolding put_field
table_to_string_map [] = []
table_to_string_map ((k, v) ∷ t) = put_field k v (table_to_string_map t)

abbrev pub forbidden : ℕ → Bool
forbidden c = (c == b' ' || c == b'*') || (c == b'#' || c == b'/')

unfoldable pub allowed_part : Str → Str
allowed_part [] = []
allowed_part (c ∷ s) = let rest = allowed_part s in if forbidden c then rest else c ∷ rest

-- sanitizeQueueName, on valid UTF-8: the forbidden characters are of one byte.
unfoldable pub sanitize_queue_name : Str → Str
unfolding allowed_part
sanitize_queue_name s = let out = allowed_part s in if is_empty out then codes "q" else out

-- The name of the queue in Consume.
unfoldable pub queue_name : Str → Str → Str
queue_name topic group = sanitize_queue_name topic ++ b'-' ∷ sanitize_queue_name group

abbrev pub unit_of_delay : ℕ
unit_of_delay = 1000000

-- `delay / time.Millisecond`, which Go rounds to zero.
abbrev pub milliseconds : ℤ → ℤ
milliseconds (pos n) = pos (n / unit_of_delay)
milliseconds (negsuc n) = negate ((n + 1) / unit_of_delay)
  where
    negate : ℕ → ℤ
    negate zero = pos 0
    negate (suc k) = negsuc k

-- The default values at the head of newRabbitMQAdapterWithMode and the checks before it connects.
unfoldable pub check_config : RabbitMqConfig → Str → GoError
check_config cfg mode =
    if is_empty cfg.uri || is_empty cfg.exchange
    then some rabbitmq_config_invalid
    else if str_eq mode delay_mode_standard && is_empty cfg.delayed_exchange
    then some delayed_exchange_required
    else none

module _ {W : Type 0} where
  -- `if err != nil { return wrap(err) }`, else go on.
  abbrev pub checked :
      {A B : Type 0} → (Err → B) → (A → Exec (Adapter W) B) → Result A → Exec (Adapter W) B
  checked wrap next (ok r) = next r
  checked wrap next (err e) = pure (wrap e)

  abbrev pub checked_error :
      {B : Type 0} → (Err → B) → Exec (Adapter W) B → GoError → Exec (Adapter W) B
  checked_error wrap next none = next
  checked_error wrap next (some e) = pure (wrap e)

module _ {W : Type 0} (amqp : Amqp W) (cfg : RabbitMqConfig) where
  -- The result of Dial becomes the connection.
  unfoldable pub connected : Result ℕ → Exec (Adapter W) (Result ℕ)
  connected (ok conn) a = (ok conn, record a { conn = some conn })
  connected (err e) a = (err e, a)

  unfoldable pub redial : Exec (Adapter W) (Result ℕ)
  unfolding connected
  redial = do r ← lift (amqp.dial cfg.uri); connected r

  unfoldable pub keep_or_redial : ℕ → Bool → Exec (Adapter W) (Result ℕ)
  unfolding redial
  keep_or_redial conn false = pure (ok conn)
  keep_or_redial conn true = redial

  -- ensureConnection, with the connection that is then in `r.conn`.
  unfoldable pub ensure_from : Option ℕ → Exec (Adapter W) (Result ℕ)
  unfolding redial keep_or_redial
  ensure_from none = redial
  ensure_from (some conn) = do gone ← lift (amqp.is_closed conn); keep_or_redial conn gone

  unfoldable pub ensure_connection : Exec (Adapter W) (Result ℕ)
  unfolding ensure_from
  ensure_connection a = ensure_from a.conn a

  -- The body of a call that opens a channel and closes it at the end, by `defer`.
  unfoldable pub with_channel :
      (Err → Err) → (Err → Err) → (ℕ → Exec (Adapter W) GoError) → Exec (Adapter W) GoError
  with_channel no_conn no_channel body = do
    r ← ensure_connection
    checked (λ e. some (no_conn e))
        (λ conn. do
          ch ← lift (amqp.channel conn)
          checked (λ e. some (no_channel e))
              (λ ch. do result ← body ch; lift (amqp.close_channel ch); pure result) ch)
        r

  -- `if r.cfg.Prefetch > 0 { _ = ch.Qos(...) }`
  unfoldable pub set_prefetch : ℕ → Exec (Adapter W) GoError
  set_prefetch ch = if nonpos cfg.prefetch then pure none else lift (amqp.qos ch cfg.prefetch)
