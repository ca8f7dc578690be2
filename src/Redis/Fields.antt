-- ===== src/Redis/Fields.antt =====
-- redis_adapter.go: decodeXMessage, by the lookups of the fields of an entry.
use taskbus.Prelude.{
  Str, codes, GoMap, [], ◌∷◌, ◌++◌, Option, none, some, Bool, true, false, ◌&&◌, ◌≡◌, ◌≢◌, ◌∙◌,
  refl, ap, arith, length, drop, ltb, str_eq, str_eq_iff, str_eq_ne, has_prefix, lookup,
  lookup-insert, if◌then◌else◌,
}
use taskbus.Mq.{Message}
use taskbus.Base64.{decode_base64}
use taskbus.Redis.{Value, text, header_mark, set_field, set_fields}

-- The server returns the fields as strings.
pub as_values : GoMap Str → GoMap Value
as_values [] = []
as_values ((k, s) ∷ m) = (k, text s) ∷ as_values m

abbrev pub or_empty : Option Str → Str
or_empty none = []
or_empty (some s) = s

abbrev pub decoded : Option Str → Str
decoded none = []
decoded (some s) = decode_base64 s

-- What the fields of a text entry decode to, by the lookups of its keys.
pub key-set_fields :
    (m : GoMap Str) → (set_fields (as_values m)).key ≡ or_empty (lookup (codes "key") m)
unfolding set_fields set_field as_values lookup
key-set_fields [] = refl
key-set_fields ((k, s) ∷ m) = ground (arith, key-set_fields m)

pub body-set_fields :
    (m : GoMap Str) → (set_fields (as_values m)).body ≡ decoded (lookup (codes "body") m)
unfolding set_fields set_field as_values lookup
body-set_fields [] = refl
body-set_fields ((k, s) ∷ m) =
    ground (arith, body-set_fields m, str_eq_iff k (codes "key"), str_eq_iff k (codes "body"))

pub topic-set_fields :
    (m : GoMap Str) → (set_fields (as_values m)).topic ≡ or_empty (lookup (codes "topic") m)
unfolding set_fields set_field as_values lookup
topic-set_fields [] = refl
topic-set_fields ((k, s) ∷ m) = ground (
  arith,
  topic-set_fields m,
  str_eq_iff k (codes "key"),
  str_eq_iff k (codes "body"),
  str_eq_iff k (codes "topic"),
)

-- The test of the header branch.
abbrev names_header : Str → Bool
names_header k = ltb 2 (length k) && has_prefix k header_mark

names_header_mark : (j : Str) → j ≢ [] → names_header (header_mark ++ j) ≡ true
unfolding has_prefix
names_header_mark [] n = absurd (n refl)
names_header_mark (c ∷ j) n = ground arith

drop_mark : (k j : Str) → names_header k ≡ true → str_eq k (header_mark ++ j) ≡ str_eq (drop 2 k) j
unfolding has_prefix str_eq
drop_mark [] j h = ground arith
drop_mark (a ∷ []) j h = ground arith
drop_mark (a ∷ b ∷ k) j h = ground arith

other_name : (k j : Str) → j ≢ [] → names_header k ≡ false → str_eq k (header_mark ++ j) ≡ false
other_name k j n h =
    str_eq_ne k (header_mark ++ j)
      λ e. let mark : names_header k ≡ true = rw e (names_header_mark j n) in cc

-- One field, for the header `j`.
header-set_field :
    (j k s : Str) (m : Message)
    → j ≢ []
    → lookup j (set_field k (text s) m).headers
      ≡ (if str_eq k (header_mark ++ j) then some s else lookup j m.headers)
unfolding set_field
header-set_field j k s m n = ground (
  arith,
  drop_mark k j,
  other_name k j n,
  lookup-insert (drop 2 k) j s m.headers,
  str_eq_iff k (codes "key"),
  str_eq_iff k (codes "body"),
  str_eq_iff k (codes "topic"),
  str_eq_iff k (header_mark ++ j),
)

pub headers-set_fields :
    (j : Str) (m : GoMap Str)
    → j ≢ []
    → lookup j (set_fields (as_values m)).headers ≡ lookup (header_mark ++ j) m
unfolding set_fields as_values lookup
headers-set_fields j [] n = refl
headers-set_fields j ((k, s) ∷ m) n =
    header-set_field j k s (set_fields (as_values m)) n
    ∙ ap (λ r. if str_eq k (header_mark ++ j) then some s else r) (headers-set_fields j m n)

some_name : (k : Str) → names_header k ≡ true → str_eq (drop 2 k) [] ≡ false
unfolding str_eq
some_name [] h = ground arith
some_name (a ∷ []) h = ground arith
some_name (a ∷ b ∷ []) h = ground arith
some_name (a ∷ b ∷ c ∷ k) h = refl

nameless-set_field :
    (k s : Str) (m : Message) → lookup [] (set_field k (text s) m).headers ≡ lookup [] m.headers
unfolding set_field
nameless-set_field k s m = ground (arith, some_name k, lookup-insert (drop 2 k) [] s m.headers)

-- A field whose name is the mark alone is no header.
pub nameless-set_fields : (m : GoMap Str) → lookup [] (set_fields (as_values m)).headers ≡ none
unfolding set_fields as_values
nameless-set_fields [] = unfold lookup in refl
nameless-set_fields ((k, s) ∷ m) =
    nameless-set_field k s (set_fields (as_values m)) ∙ nameless-set_fields m
