-- ===== src/Redis/Codec.antt =====
-- redis_adapter.go: publishStream against decodeXMessage.
use taskbus.Prelude.{
  Str, codes, GoMap, [], ◌∷◌, ◌++◌, none, some, true, false, ◌≡◌, ◌∙◌, refl, sym, ap, ap₂, arith,
  All, str_eq, str_eq_ne, has_prefix, has_prefix-append, lookup, lookup-insert, lookup_cons,
  if◌then◌else◌, Bool-cases, inl, inr, is_empty,
}
use taskbus.Mq.{Message}
use taskbus.Base64.{IsByte, encode_base64, decode-encode_base64}
use taskbus.Redis.{
  XMessage, header_mark, add_headers, stream_fields, set_fields, decode_x_message,
  redis_stream_for_topic,
}
use taskbus.Redis.Fields.{
  as_values, or_empty, decoded, key-set_fields, body-set_fields, topic-set_fields,
  headers-set_fields, nameless-set_fields,
}

mark_eq : (k j : Str) → str_eq (header_mark ++ k) (header_mark ++ j) ≡ str_eq k j
unfolding str_eq
mark_eq k j = refl

mark_other : (j k : Str) → has_prefix k header_mark ≡ false → str_eq (header_mark ++ j) k ≡ false
mark_other j k n = str_eq_ne (header_mark ++ j) k λ e.
    let mark : has_prefix k header_mark ≡ true = rw (← e) (has_prefix-append header_mark j) in cc

-- The fields that a message is written to.
lookup-add_headers :
    (j : Str) (h fields : GoMap Str)
    → lookup (header_mark ++ j) fields ≡ none
    → lookup (header_mark ++ j) (add_headers h fields) ≡ lookup j h
unfolding add_headers
lookup-add_headers j [] fields n = n ∙ (unfold lookup in refl)
lookup-add_headers j ((k, v) ∷ h) fields n =
    lookup-insert (header_mark ++ k) (header_mark ++ j) v (add_headers h fields)
    ∙ ap₂ (λ b r. if b then some v else r) (mark_eq k j) (lookup-add_headers j h fields n)
    ∙ sym (lookup_cons j k v h)

lookup-add_headers_other :
    (k : Str) (h fields : GoMap Str)
    → has_prefix k header_mark ≡ false
    → lookup k (add_headers h fields) ≡ lookup k fields
unfolding add_headers
lookup-add_headers_other k [] fields n = refl
lookup-add_headers_other k ((j, v) ∷ h) fields n =
    lookup-insert (header_mark ++ j) k v (add_headers h fields)
    ∙ rw (mark_other j k n) (lookup-add_headers_other k h fields n)

-- The three fixed fields.
base_fields : Message → GoMap Str
base_fields m =
    (codes "key", m.key) ∷ (codes "body", encode_base64 m.body) ∷ (codes "topic", m.topic) ∷ []

stream_fields_lem : (m : Message) → stream_fields m ≡ add_headers m.headers (base_fields m)
unfolding stream_fields base_fields
stream_fields_lem m = refl

module _ (m : Message) where
  fixed_field :
      (k : Str)
      → has_prefix k header_mark ≡ false
      → lookup k (stream_fields m) ≡ lookup k (base_fields m)
  fixed_field k n = rw (stream_fields_lem m) (lookup-add_headers_other k m.headers _ n)

  no_header_field : (j : Str) → lookup (header_mark ++ j) (base_fields m) ≡ none
  unfolding base_fields lookup str_eq
  no_header_field j = refl

  header_field : (j : Str) → lookup (header_mark ++ j) (stream_fields m) ≡ lookup j m.headers
  header_field j =
      rw (stream_fields_lem m) (lookup-add_headers j m.headers (base_fields m) (no_header_field j))

  key_field : lookup (codes "key") (stream_fields m) ≡ some m.key
  unfolding base_fields lookup str_eq has_prefix
  key_field = fixed_field (codes "key") refl

  body_field : lookup (codes "body") (stream_fields m) ≡ some (encode_base64 m.body)
  unfolding base_fields lookup str_eq has_prefix
  body_field = fixed_field (codes "body") refl

  topic_field : lookup (codes "topic") (stream_fields m) ≡ some m.topic
  unfolding base_fields lookup str_eq has_prefix
  topic_field = fixed_field (codes "topic") refl

  -- The entry that the server keeps for the message, under any id.
  abbrev pub entry : Str → XMessage
  entry id = record { id = id; values = as_values (stream_fields m) }

-- `d` is `m`, up to a header with an empty name.
pub record IsCopy (m d : Message) : Type 0 where
  pub topic : d.topic ≡ m.topic
  pub key : d.key ≡ m.key
  pub body : d.body ≡ m.body
  pub headers : (j : Str) → lookup j d.headers ≡ (if is_empty j then none else lookup j m.headers)

with_topic : Str → Message → Message
with_topic stream m = if is_empty m.topic then record m { topic = stream } else m

decode_lem :
    (stream : Str) (xm : XMessage)
    → decode_x_message stream xm ≡ with_topic stream (set_fields xm.values)
unfolding decode_x_message with_topic
decode_lem stream xm = refl

no_bytes : (s : Str) → is_empty s ≡ true → s ≡ []
no_bytes [] h = refl
no_bytes (c ∷ s) h = cc

IsCopy-with_topic :
    (m d : Message) (stream : Str)
    → IsCopy m d
    → (m.topic ≡ [] → stream ≡ [])
    → IsCopy m (with_topic stream d)
unfolding with_topic
IsCopy-with_topic m d stream c e = elim (Bool-cases (is_empty d.topic)) [
  | inl none_set ↦
      let blank : m.topic ≡ [] = sym c.topic ∙ no_bytes d.topic none_set in
      rw none_set
        (record { topic = e blank ∙ sym blank; key = c.key; body = c.body; headers = c.headers })
  | inr some_set ↦ rw some_set c
]

decoded_header :
    (m : Message) (j : Str)
    → lookup j (set_fields (as_values (stream_fields m))).headers
      ≡ (if is_empty j then none else lookup j m.headers)
decoded_header m [] = nameless-set_fields (stream_fields m)
decoded_header m (c ∷ j) =
    headers-set_fields (c ∷ j) (stream_fields m) (ground arith) ∙ header_field m (c ∷ j)

set_fields-IsCopy :
    (m : Message) → All IsByte m.body → IsCopy m (set_fields (as_values (stream_fields m)))
set_fields-IsCopy m bytes = record {
  topic = topic-set_fields (stream_fields m) ∙ ap or_empty (topic_field m);
  key = key-set_fields (stream_fields m) ∙ ap or_empty (key_field m);
  body =
      body-set_fields (stream_fields m)
      ∙ ap decoded (body_field m)
      ∙ decode-encode_base64 m.body bytes;
  headers = decoded_header m;
}

no_topic_stream : (topic : Str) → topic ≡ [] → redis_stream_for_topic topic ≡ []
unfolding redis_stream_for_topic has_prefix
no_topic_stream topic e = rw e refl

-- A message published to a stream is decoded from the entry as it was: the same topic, key and
-- body, and the same headers, but for one with an empty name, which is lost. The body is bytes.
pub decode-stream_fields :
    (m : Message) (id : Str)
    → All IsByte m.body
    → IsCopy m (decode_x_message (redis_stream_for_topic m.topic) (entry m id))
decode-stream_fields m id bytes = rw (decode_lem (redis_stream_for_topic m.topic) (entry m id)) (
    IsCopy-with_topic m _ (redis_stream_for_topic m.topic) (set_fields-IsCopy m bytes)
      (no_topic_stream m.topic))
