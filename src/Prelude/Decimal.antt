-- ===== src/Prelude/Decimal.antt =====
-- strconv.Itoa and strconv.Atoi on 64-bit ints; `none` is any error of Atoi.
use Prim.Native.Nat.{ℕ, zero, suc, ◌+◌, ◌-◌, ◌*◌, ◌/◌, ◌%◌, ◌≤◌, ◌<◌}
use mathlib.Core.Path.{◌≡◌, ◌∙◌, refl, ap}
use mathlib.Core.Logic.{inl, inr}
use mathlib.Core.Bool.{◌&&◌}
use mathlib.Core.Option.{Option, none, some}
use mathlib.Core.List.{[], ◌∷◌}
use native.Mathlib.Omega.{arith}
use taskbus.Prelude.Tests.{ltb, leb, ◌==◌, if◌then◌else◌, Bool-cases}
use taskbus.Prelude.Strs.{Str, codes, Lacks}
use taskbus.Prelude.Int.{ℤ, pos, negsuc, max_int, InRange}

-- The digits of `n`, before `out`. The fuel is more than their number.
digits : ℕ → ℕ → Str → Str
digits zero n out = out
digits (suc f) n out =
    let more = digits f (n / 10) ((b'0' + n % 10) ∷ out) in
    if ltb n 10 then (b'0' + n) ∷ out else more

format : ℕ → Str
format n = digits (suc n) n []

unfoldable pub itoa : ℤ → Str
unfolding format digits
itoa (pos n) = format n
itoa (negsuc n) = b'-' ∷ format (suc n)

-- The value of a run of digits after `acc`.
scan : ℕ → Str → Option ℕ
scan acc [] = some acc
scan acc (c ∷ s) = if leb b'0' c && leb c b'9' then scan (acc * 10 + (c - b'0')) s else none

-- At least one digit.
scan_digits : Str → Option ℕ
scan_digits [] = none
scan_digits (c ∷ s) = scan 0 (c ∷ s)

-- A value out of range is an error.
in_int : ℕ → Option ℕ → Option ℤ
in_int limit none = none
in_int limit (some n) = if ltb limit n then none else some (pos n)

negated : ℕ → ℤ
negated zero = pos 0
negated (suc n) = negsuc n

in_negative : Option ℕ → Option ℤ
in_negative none = none
in_negative (some n) = if ltb (max_int + 1) n then none else some (negated n)

unfoldable pub atoi : Str → Option ℤ
unfolding scan scan_digits in_int in_negative negated
atoi [] = none
atoi (c ∷ s) =
    if c == b'-'
    then in_negative (scan_digits s)
    else if c == b'+'
    then in_int max_int (scan_digits s)
    else in_int max_int (scan_digits (c ∷ s))

-- Reading what `digits` wrote before `out` gives the number.
scan-digits : (f n : ℕ) (out : Str) → n < f → scan 0 (digits f n out) ≡ scan n out
unfolding scan digits
scan-digits zero n out h = elim h [ ]
scan-digits (suc f) n out h = elim (Bool-cases (ltb n 10)) [
  | inl small ↦ rw small (ground arith)
  | inr large ↦
      rw large (scan-digits f (n / 10) ((b'0' + n % 10) ∷ out) (ground arith) ∙ scan_last n out)
]
  where
    scan_last : (n : ℕ) (out : Str) → scan (n / 10) ((b'0' + n % 10) ∷ out) ≡ scan n out
    scan_last n out =
        let value : n / 10 * 10 + (b'0' + n % 10 - b'0') ≡ n = omega arith in
        ground (arith, ap (λ k. scan k out) value)

abbrev StartsDigit : Str → Type 0
StartsDigit [] = ⊥
StartsDigit (c ∷ s) = (b'0' ≤ c) × (c ≤ b'9')

digits-StartsDigit : (f n : ℕ) (out : Str) → StartsDigit (digits (suc f) n out)
unfolding digits
digits-StartsDigit zero n out = ground arith
digits-StartsDigit (suc f) n out = elim (Bool-cases (ltb n 10)) [
  | inl small ↦ rw small (ground arith)
  | inr large ↦ rw large (digits-StartsDigit f (n / 10) ((b'0' + n % 10) ∷ out))
]

scan_digits_lem : (s : Str) → StartsDigit s → scan_digits s ≡ scan 0 s
unfolding scan_digits
scan_digits_lem [] h = absurd h
scan_digits_lem (c ∷ s) h = refl

format-StartsDigit : (n : ℕ) → StartsDigit (format n)
unfolding format
format-StartsDigit n = digits-StartsDigit n n []

scan-format : (n : ℕ) → scan_digits (format n) ≡ some n
scan-format n =
    scan_digits_lem (format n) (format-StartsDigit n)
    ∙ (unfold format scan in scan-digits (suc n) n [] (omega arith))

atoi_digits : (s : Str) → StartsDigit s → atoi s ≡ in_int max_int (scan_digits s)
unfolding atoi
atoi_digits [] h = absurd h
atoi_digits (c ∷ s) h = ground arith

atoi_minus : (s : Str) → atoi (b'-' ∷ s) ≡ in_negative (scan_digits s)
unfolding atoi
atoi_minus s = refl

itoa_pos : (n : ℕ) → itoa (pos n) ≡ format n
unfolding itoa
itoa_pos n = refl

itoa_negsuc : (n : ℕ) → itoa (negsuc n) ≡ b'-' ∷ format (suc n)
unfolding itoa
itoa_negsuc n = refl

-- strconv.Atoi undoes strconv.Itoa on every int.
pub atoi-itoa : (z : ℤ) → InRange z → atoi (itoa z) ≡ some z
unfolding in_int in_negative negated
atoi-itoa (pos n) h =
    rw (itoa_pos, atoi_digits (format n) (format-StartsDigit n), scan-format) (ground arith)
atoi-itoa (negsuc n) h = rw (itoa_negsuc, atoi_minus, scan-format) (ground arith)

digits-Lacks : (f n : ℕ) (out : Str) → Lacks b'-' out → Lacks b'-' (digits f n out)
unfolding digits
digits-Lacks zero n out h = h
digits-Lacks (suc f) n out h = elim (Bool-cases (ltb n 10)) [
  | inl e ↦ rw e (λ k. omega (arith, k), h)
  | inr e ↦ rw e (digits-Lacks f (n / 10) _ (λ k. omega (arith, k), h))
]

-- A number that is not negative is printed without a minus sign.
pub itoa-Lacks : (n : ℕ) → Lacks b'-' (itoa (pos n))
unfolding itoa format
itoa-Lacks n = digits-Lacks (suc n) n [] tt

samples :
    (itoa (negsuc 41) ≡ codes "-42")
    × (itoa (pos 1024) ≡ codes "1024")
    × (atoi (codes "+007") ≡ some (pos 7))
    × (atoi (codes "12a") ≡ none)
    × (atoi (codes "9223372036854775808") ≡ none)
    × (atoi (codes "-9223372036854775808") ≡ some (negsuc max_int))
unfolding itoa atoi
samples = (refl, refl, refl, refl, refl, refl)
