-- ===== src/Examples/Streams.antt =====
-- The Redis adapter at concrete inputs: a server in memory whose streams can be down.
use taskbus.Prelude.{
  ℕ, suc, ◌*◌, ◌^◌, ℤ, pos, negsuc, nonpos, Str, GoMap, codes, List, [], ◌∷◌, ◌++◌, Option, none,
  some, Bool, true, false, Exec, ◌>>=◌, ◌>>◌, lookup, insert, delete, lookup-insert_self, str_eq,
  str_eq_refl, ◌≡◌, refl, arith, ap, if◌then◌else◌,
}
use taskbus.Mq.{Err, GoError, external, ok, Message, background, Handler}
use taskbus.Topic.{split, match_topic}
use taskbus.Base64.{encode_base64}
use taskbus.Retry.{Float64, RetryConfig, attempt, retry_message}
use taskbus.Redis.{text, Redis, Json, DelayItem, XMessage, decode_x_message, redis_stream_for_topic}
use taskbus.Redis.Codec.{IsCopy, entry, decode-stream_fields}
use taskbus.Redis.Fields.{as_values}
use taskbus.Redis.Worker.{
  delay_item, unix_milli, publish_stream, publish_delay, deliver_due, process_message,
  retry_or_drop, after_republish,
}
use taskbus.Redis.Delivery.{KeepsApart, Settled, acked-Settled}
use taskbus.Redis.Delay.{SortedSet, publish_delay_twice, deliver_due_loses}

record Server : Type 0 where
  added : List XMessage
  acks : List Str
  zset : GoMap ℤ
  clock : ℤ

x_add : Bool → GoMap Str → Server → GoError × Server
x_add true fields w =
    (none, record w { added = record { id = codes "1-1"; values = as_values fields } ∷ w.added })
x_add false fields w = (some (external (codes "OOM")), w)

-- `up` says whether the streams take entries.
unfoldable server : Bool → Redis Server
unfolding x_add
server up = record {
  x_add = λ ctx stream fields. x_add up fields;
  x_ack = λ ctx stream group id w. (none, record w { acks = id ∷ w.acks });
  z_add = λ ctx key score s w. (none, record w { zset = insert s score w.zset });
  z_range_by_score = λ ctx key top n w. (ok [], w);
  z_rem = λ ctx key s w. (none, record w { zset = delete s w.zset });
  now = λ w. (w.clock, w);
}

-- The fields of an item, one after another.
parse : List Str → Option DelayItem
parse (topic ∷ key ∷ body ∷ []) =
    some (record { topic = topic; key = key; body_b64 = body; headers = [] })
parse _ = none

unfoldable json : Json
unfolding parse split
json = record {
  marshal = λ d. d.topic ++ 10 ∷ (d.key ++ 10 ∷ d.body_b64);
  unmarshal = λ s. parse (split 10 s);
}

contains : Str → List Str → Bool
contains s [] = false
contains s (x ∷ xs) = if str_eq x s then true else contains s xs

is_some {ℓ} : {A : Type ℓ} → Option A → Bool
is_some none = false
is_some (some a) = true

abbrev acked : Str → Server → Bool
acked id w = contains id w.acks

abbrev member : Str → Server → Bool
member s w = is_some (lookup s w.zset)

server-KeepsApart : KeepsApart (server true) acked member
unfolding server contains is_some
server-KeepsApart = record {
  z_add_member = λ ctx score s w e. ap is_some (lookup-insert_self s score w.zset);
  z_add_acked = λ ctx score s id w. refl;
  now_acked = λ id w. refl;
  x_ack_member = λ ctx stream group id s w. refl;
}

failed_add :
    (up : Bool) (fields : GoMap Str) (e : Err) (w : Server)
    → (x_add up fields w).0 ≡ some e
    → (x_add up fields w).1.added ≡ w.added
unfolding x_add
failed_add true fields e w h = cc
failed_add false fields e w h = refl

server-SortedSet : (up : Bool) → SortedSet (server up) (λ w. w.zset) (λ w. w.added)
unfolding server
server-SortedSet up = record {
  z_add_scores = λ ctx score s w e. refl;
  z_rem_scores = λ ctx s w e. refl;
  z_rem_streams = λ ctx s w. refl;
  x_add_failed = λ ctx stream fields e w h. failed_add up fields e w h;
  now_scores = λ w. refl;
}

mul : ℤ → ℤ → ℤ
mul (pos a) (pos b) = pos (a * b)
mul a b = pos 0

pow : ℤ → ℤ → ℤ
pow (pos a) (pos b) = pos (a ^ b)
pow a b = pos 0

-- Whole numbers in the place of float64.
abbrev whole : Float64
whole = record {
  F = ℤ;
  two = pos 2;
  nonpos_float = nonpos;
  of_int = λ n. n;
  mul = mul;
  pow = pow;
  to_int = λ n. n;
}

abbrev order : Message
order = record {
  topic = codes "orders.paid";
  key = codes "42";
  body = codes "hi";
  headers = (codes "a", codes "b") ∷ [];
}

decode-stream_fields_example :
    IsCopy order (decode_x_message (redis_stream_for_topic order.topic) (entry order (codes "1-1")))
decode-stream_fields_example = decode-stream_fields order (codes "1-1") (ground arith)

abbrev plain : Message
plain = record order { headers = [] }

abbrev empty_server : Server
empty_server = record { added = []; acks = []; zset = []; clock = pos 5000000 }

abbrev member_of : Message → Str
member_of m = json.marshal (delay_item m)

abbrev delayed : Server
delayed = (publish_delay (server true) json background plain (pos 7) empty_server).1

publish_delay_twice_example :
    (publish_delay (server true) json background plain (pos 9000000) delayed).1.zset
    ≡ insert (member_of plain) (unix_milli (pos 14000000)) empty_server.zset
unfolding server publish_delay taskbus.Prelude.◌+ℤ◌
publish_delay_twice_example =
    publish_delay_twice (server true) json (λ w. w.zset) (λ w. w.added) (server-SortedSet true)
      background background plain (pos 7) (pos 9000000) empty_server refl refl

deliver_due_loses_example :
    let w = (deliver_due (server false) json (member_of plain) empty_server).1 in
    (lookup (member_of plain) w.zset ≡ none) × (w.added ≡ [])
unfolding server json split parse x_add delay_item encode_base64 deliver_due publish_stream
deliver_due_loses_example =
    deliver_due_loses (server false) json (λ w. w.zset) (λ w. w.added) (server-SortedSet false)
      (member_of plain) (delay_item plain) (external (codes "OOM")) empty_server refl refl refl

abbrev failing : Handler Server
failing ctx m w = (some (external (codes "down")), w)

abbrev retry : RetryConfig ℤ
retry = record { base = pos 1000; factor = pos 2; max_retries = pos 3 }

abbrev xm : XMessage
xm = record {
  id = codes "1-1";
  values = (codes "topic", text (codes "orders.paid")) ∷ (codes "key", text (codes "42")) ∷ [];
}

abbrev done : Server
done =
    (process_message (server true) json whole retry background (codes "orders.paid") (codes "g")
      (codes "orders.paid") failing xm empty_server).1

acked-Settled_example :
    Settled
      (λ s. member s done)
      json
      (codes "orders.paid")
      (pos 3)
      (decode_x_message (codes "orders.paid") xm)
      (some (external (codes "down")))
unfolding server contains process_message match_topic decode_x_message taskbus.Prelude.str_eq
    taskbus.Prelude.lookup taskbus.Prelude.insert retry_or_drop after_republish retry_message
    attempt taskbus.Prelude.atoi taskbus.Prelude.succ_int
acked-Settled_example =
    acked-Settled (server true) json whole retry background (codes "orders.paid") (codes "g")
      (codes "orders.paid") failing acked member server-KeepsApart xm empty_server refl refl refl
