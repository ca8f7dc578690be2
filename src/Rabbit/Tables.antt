-- ===== src/Rabbit/Tables.antt =====
-- rabbitmq_adapter.go: stringMapToTable and tableToStringMap, with the header of a delay.
use taskbus.Prelude.{
  ℤ, Str, codes, GoMap, [], ◌∷◌, Option, some, true, false, lookup, insert, lookup-insert,
  lookup_cons, itoa, str_eq, str_eq_iff, ◌≡◌, ◌∙◌, refl, sym, ap, arith, if◌then◌else◌, Bool-cases,
  inl, inr,
}
use taskbus.Mq.{Message}
use taskbus.Config.{RabbitMqConfig, delay_mode_aliyun}
use taskbus.Rabbit.{
  Amqp, Field, text, number, other, Table, string_map_to_table, put_field, table_to_string_map,
  milliseconds,
}
use taskbus.Rabbit.Calls.{delay_headers}

-- One field more, on what the others read as.
abbrev field_over : Str → Str → Field → Option Str → Option Str
field_over k j (text s) r = if str_eq j k then some s else r
field_over k j (number n) r = if str_eq j k then some (itoa n) else r
field_over k j other r = r

lookup-put_field :
    (k j : Str) (v : Field) (m : GoMap Str)
    → lookup k (put_field j v m) ≡ field_over k j v (lookup k m)
unfolding put_field
lookup-put_field k j (text s) m = lookup-insert j k s m
lookup-put_field k j (number n) m = lookup-insert j k (itoa n) m
lookup-put_field k j other m = refl

table_cons :
    (k j : Str) (v : Field) (t : Table)
    → lookup k (table_to_string_map ((j, v) ∷ t))
      ≡ field_over k j v (lookup k (table_to_string_map t))
unfolding table_to_string_map
table_cons k j v t = lookup-put_field k j v (table_to_string_map t)

field_over_ne :
    (k j : Str) (v : Field) (r : Option Str) → str_eq j k ≡ false → field_over k j v r ≡ r
field_over_ne k j (text s) r e = rw e refl
field_over_ne k j (number n) r e = rw e refl
field_over_ne k j other r e = refl

insert_cons :
    (j i : Str) (v u : Field) (t : Table)
    → insert j v ((i, u) ∷ t) ≡ (if str_eq i j then (j, v) ∷ t else (i, u) ∷ insert j v t)
unfolding insert
insert_cons j i v u t = refl

other_name : (i j k : Str) → str_eq i j ≡ true → str_eq j k ≡ false → str_eq i k ≡ false
other_name i j k e n = ground (arith, str_eq_iff i j, str_eq_iff j k, str_eq_iff i k)

other_name' : (i j k : Str) → str_eq i j ≡ false → str_eq j k ≡ true → str_eq i k ≡ false
other_name' i j k e n = ground (arith, str_eq_iff i j, str_eq_iff j k, str_eq_iff i k)

-- A field that is replaced, and one that stands before it.
module _ (k j s : Str) (i : Str) (u : Field) (t : Table) where
  replaced :
      str_eq i j ≡ true
      → (if str_eq j k then some s else lookup k (table_to_string_map t))
        ≡ (if str_eq j k then some s else lookup k (table_to_string_map ((i, u) ∷ t)))
  replaced e = elim (Bool-cases (str_eq j k)) [
    | inl h ↦ rw h refl
    | inr h ↦ rw h (
        sym (
          table_cons k i u t
          ∙ field_over_ne k i u (lookup k (table_to_string_map t)) (other_name i j k e h)))
  ]

  before :
      str_eq i j ≡ false
      → field_over k i u (if str_eq j k then some s else lookup k (table_to_string_map t))
        ≡ (if str_eq j k then some s else lookup k (table_to_string_map ((i, u) ∷ t)))
  before e = elim (Bool-cases (str_eq j k)) [
    | inl h ↦ rw h (field_over_ne k i u (some s) (other_name' i j k e h))
    | inr h ↦ rw h (sym (table_cons k i u t))
  ]

-- A field that reads as `s` is written over.
module _ (k j s : Str) (v : Field)
    (reads : (r : Option Str) → field_over k j v r ≡ (if str_eq j k then some s else r)) where
  table-insert :
      (t : Table)
      → lookup k (table_to_string_map (insert j v t))
        ≡ (if str_eq j k then some s else lookup k (table_to_string_map t))
  table-insert [] = unfold insert in table_cons k j v [] ∙ reads (lookup k (table_to_string_map []))
  table-insert ((i, u) ∷ t) = elim (Bool-cases (str_eq i j)) [
    | inl e ↦
        rw (insert_cons j i v u t, e)
          (table_cons k j v t ∙ reads (lookup k (table_to_string_map t)) ∙ replaced k j s i u t e)
    | inr e ↦
        rw (insert_cons j i v u t, e)
          (table_cons k i u (insert j v t)
            ∙ ap (field_over k i u) (table-insert t)
            ∙ before k j s i u t e)
  ]

text-insert :
    (k j s : Str) (t : Table)
    → lookup k (table_to_string_map (insert j (text s) t))
      ≡ (if str_eq j k then some s else lookup k (table_to_string_map t))
text-insert k j s t = table-insert k j s (text s) (λ r. refl) t

number-insert :
    (k j : Str) (n : ℤ) (t : Table)
    → lookup k (table_to_string_map (insert j (number n) t))
      ≡ (if str_eq j k then some (itoa n) else lookup k (table_to_string_map t))
number-insert k j n t = table-insert k j (itoa n) (number n) (λ r. refl) t

to_table_cons :
    (j v : Str) (m : GoMap Str)
    → string_map_to_table ((j, v) ∷ m) ≡ insert j (text v) (string_map_to_table m)
unfolding string_map_to_table
to_table_cons j v m = refl

lookup-table :
    (k : Str) (m : GoMap Str) → lookup k (table_to_string_map (string_map_to_table m)) ≡ lookup k m
lookup-table k [] = unfold string_map_to_table table_to_string_map in refl
lookup-table k ((j, v) ∷ m) =
    ap (λ t. lookup k (table_to_string_map t)) (to_table_cons j v m)
    ∙ text-insert k j v (string_map_to_table m)
    ∙ ap (λ o. if str_eq j k then some v else o) (lookup-table k m)
    ∙ sym (lookup_cons k j v m)

-- The header that carries the delay, under the name that the mode gives it.
abbrev pub delay_name : Str → Str
delay_name mode = if str_eq mode delay_mode_aliyun then codes "delay" else codes "x-delay"

-- The headers of a delayed message, when it is delivered: the delay in milliseconds under the
-- name that the mode gives it, and every other header as it was.
pub delay_headers-delivered :
    {W : Type 0} (amqp : Amqp W) (cfg : RabbitMqConfig) (mode : Str) (m : Message) (delay : ℤ)
    (k : Str)
    → lookup k (table_to_string_map (delay_headers amqp cfg mode m delay)) ≡ (
        if str_eq (delay_name mode) k then some (itoa (milliseconds delay)) else lookup k m.headers)
delay_headers-delivered amqp cfg mode m delay k =
    elim (Bool-cases (str_eq mode delay_mode_aliyun)) [
      | inl h ↦
          unfold delay_headers in
          rw h (
            text-insert k (codes "delay") (itoa (milliseconds delay))
              (string_map_to_table m.headers)
            ∙ ap (λ o. if str_eq (codes "delay") k then some (itoa (milliseconds delay)) else o)
                (lookup-table k m.headers))
      | inr h ↦
          unfold delay_headers in
          rw h (
            number-insert k (codes "x-delay") (milliseconds delay) (string_map_to_table m.headers)
            ∙ ap (λ o. if str_eq (codes "x-delay") k then some (itoa (milliseconds delay)) else o)
                (lookup-table k m.headers))
    ]
