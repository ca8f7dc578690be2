-- ===== src/Redis.antt =====
-- redis_adapter.go: the queue over Redis streams, with a sorted set for delayed messages.
-- The Redis client and its server are a parameter, the record `Redis`; so is encoding/json.
pub mod Streams
pub mod Fields
pub mod Codec
pub mod Worker
pub mod Delivery
pub mod Delay
pub mod Loop
pub mod Handed
pub mod Rounds
pub mod Source
pub mod Component
pub mod Return
pub mod Scheduler
pub mod Adapter
use taskbus.Prelude.{
  ℕ, ℤ, Str, codes, GoMap, List, [], ◌∷◌, ◌++◌, Option, none, some, Bool, true, false, ◌&&◌, ◌||◌,
  Exec, ltb, length, drop, str_eq, has_prefix, insert, is_empty, if◌then◌else◌, ◌==◌,
}
use taskbus.Mq.{GoError, Result, Message, Context}
use taskbus.Topic.{dot, root, split}
use taskbus.Base64.{encode_base64, decode_base64}

-- A value of a stream entry: the interface holds a string, or something else.
pub data Value : Type 0 where
  text : Str → Value
  other : Value

pub record XMessage : Type 0 where
  pub id : Str
  pub values : GoMap Value

-- The commands that the adapter sends, and the clock: nanoseconds since 1970.
pub record Redis (W : Type 0) : Type 0 where
  pub x_add : Context → Str → GoMap Str → Exec W GoError
  pub x_ack : Context → Str → Str → Str → Exec W GoError
  pub z_add : Context → Str → ℤ → Str → Exec W GoError
  pub z_range_by_score : Context → Str → ℤ → ℕ → Exec W (Result (List Str))
  pub z_rem : Context → Str → Str → Exec W GoError
  pub now : Exec W ℤ

pub record DelayItem : Type 0 where
  pub topic : Str
  pub key : Str
  pub body_b64 : Str
  pub headers : GoMap Str

-- json.Marshal and json.Unmarshal at delayItem; `none` is an error of the latter.
pub record Json : Type 0 where
  pub marshal : DelayItem → Str
  pub unmarshal : Str → Option DelayItem

unfoldable pub is_component_token : Str → Bool
is_component_token s =
    str_eq s (codes "job") || (str_eq s (codes "event") || str_eq s (codes "cron"))

-- The stream named by the words behind the root; `topic` where no component is among the first two.
pub stream_of_words : Str → List Str → Str
stream_of_words topic (p ∷ q ∷ ps) =
    if is_component_token p
    then root ++ p
    else if is_component_token q
    then root ++ (p ++ (dot ∷ q))
    else topic
stream_of_words topic _ = topic

unfoldable pub redis_stream_for_topic : Str → Str
unfolding stream_of_words is_component_token
redis_stream_for_topic topic =
    if has_prefix topic root
    then stream_of_words topic (split dot (drop (length root) topic))
    else topic

abbrev pub header_mark : Str
header_mark = codes "h:"

-- fields["h:"+k] = v, for each header
pub add_headers : GoMap Str → GoMap Str → GoMap Str
add_headers [] fields = fields
add_headers ((k, v) ∷ h) fields = insert (header_mark ++ k) v (add_headers h fields)

-- The fields of publishStream.
unfoldable pub stream_fields : Message → GoMap Str
unfolding add_headers
stream_fields m =
    add_headers m.headers
      ((codes "key", m.key) ∷ (codes "body", encode_base64 m.body) ∷ (codes "topic", m.topic) ∷ [])

string_or_empty : Value → Str
string_or_empty (text s) = s
string_or_empty other = []

set_body : Value → Message → Message
set_body (text s) m = record m { body = decode_base64 s }
set_body other m = m

set_header : Str → Value → Message → Message
set_header k (text s) m = record m { headers = insert k s m.headers }
set_header k other m = m

-- One round of the loop over xm.Values. The order of the rounds is Go's choice.
pub set_field : Str → Value → Message → Message
unfolding string_or_empty set_body set_header
set_field k v m =
    if str_eq k (codes "key")
    then record m { key = string_or_empty v }
    else if str_eq k (codes "body")
    then set_body v m
    else if str_eq k (codes "topic")
    then record m { topic = string_or_empty v }
    else if ltb 2 (length k) && has_prefix k header_mark
    then set_header (drop 2 k) v m
    else m

pub set_fields : GoMap Value → Message
set_fields [] = record { topic = []; key = []; body = []; headers = [] }
set_fields ((k, v) ∷ values) = set_field k v (set_fields values)

unfoldable pub decode_x_message : Str → XMessage → Message
unfolding set_fields set_field
decode_x_message stream xm =
    let m = set_fields xm.values in if is_empty m.topic then record m { topic = stream } else m
