-- ===== src/Base64.antt =====
-- encoding/base64 of Go's standard library, as redis_adapter.go uses it: StdEncoding, whose
-- decoder skips line breaks and keeps what it decoded before an error (the code drops the error).
use taskbus.Prelude.{
  ℕ, ◌+◌, ◌-◌, ◌*◌, ◌/◌, ◌%◌, ◌<◌, Str, codes, [], ◌∷◌, Option, none, some, ltb, leb, ◌==◌, ◌&&◌,
  ◌||◌, if◌then◌else◌, ◌≡◌, refl, arith, All, false, Bool,
}

enc_char : ℕ → ℕ
enc_char n =
    if ltb n 26
    then b'A' + n
    else if ltb n 52
    then b'a' + (n - 26)
    else if ltb n 62
    then b'0' + (n - 52)
    else if n == 62
    then b'+'
    else b'/'

dec_char : ℕ → Option ℕ
dec_char c =
    if leb b'A' c && leb c b'Z'
    then some (c - b'A')
    else if leb b'a' c && leb c b'z'
    then some (c - b'a' + 26)
    else if leb b'0' c && leb c b'9'
    then some (c - b'0' + 52)
    else if c == b'+'
    then some 62
    else if c == b'/'
    then some 63
    else none

-- EncodeToString
unfoldable pub encode_base64 : Str → Str
unfolding enc_char
encode_base64 [] = []
encode_base64 (x ∷ []) = enc_char (x / 4) ∷ enc_char (x % 4 * 16) ∷ b'=' ∷ b'=' ∷ []
encode_base64 (x ∷ y ∷ []) =
    enc_char (x / 4) ∷ enc_char (x % 4 * 16 + y / 16) ∷ enc_char (y % 16 * 4) ∷ b'=' ∷ []
encode_base64 (x ∷ y ∷ z ∷ s) =
    enc_char (x / 4)
    ∷ enc_char (x % 4 * 16 + y / 16)
    ∷ enc_char (y % 16 * 4 + z / 64)
    ∷ enc_char (z % 64)
    ∷ encode_base64 s

is_break : ℕ → Bool
is_break c = c == 10 || c == 13

strip : Str → Str
strip [] = []
strip (c ∷ s) = let rest = strip s in if is_break c then rest else c ∷ rest

-- One quantum of four characters, with the bytes of the later quanta.
quantum : Option ℕ → Option ℕ → Option ℕ → Option ℕ → ℕ → ℕ → Str → Str
quantum (some a) (some b) (some c) (some d) _ _ more =
    (a * 4 + b / 16) ∷ (b % 16 * 16 + c / 4) ∷ (c % 4 * 64 + d) ∷ more
quantum (some a) (some b) (some c) none _ q4 more =
    if q4 == b'=' then (a * 4 + b / 16) ∷ (b % 16 * 16 + c / 4) ∷ [] else []
quantum (some a) (some b) none _ q3 q4 more =
    if q3 == b'=' && q4 == b'=' then (a * 4 + b / 16) ∷ [] else []
quantum _ _ _ _ _ _ more = []

quanta : Str → Str
quanta (p ∷ q ∷ r ∷ s ∷ rest) =
    quantum (dec_char p) (dec_char q) (dec_char r) (dec_char s) r s (quanta rest)
quanta _ = []

-- DecodeString
unfoldable pub decode_base64 : Str → Str
unfolding strip is_break quanta quantum dec_char
decode_base64 s = quanta (strip s)

dec-enc_char : (n : ℕ) → n < 64 → dec_char (enc_char n) ≡ some n
unfolding dec_char enc_char
dec-enc_char n h = ground arith

enc_char_keeps : (n : ℕ) → is_break (enc_char n) ≡ false
unfolding is_break enc_char
enc_char_keeps n = ground arith

strip_char : (n : ℕ) (s : Str) → strip (enc_char n ∷ s) ≡ enc_char n ∷ strip s
unfolding strip
strip_char n s = rw (enc_char_keeps n)

strip_pad : (s : Str) → strip (b'=' ∷ s) ≡ b'=' ∷ strip s
unfolding strip is_break
strip_pad s = refl

abbrev pub IsByte : ℕ → Type 0
IsByte b = b < 256

strip-encode : (s : Str) → strip (encode_base64 s) ≡ encode_base64 s
unfolding encode_base64
strip-encode [] = unfold strip in refl
strip-encode (x ∷ []) = simp (strip_char, strip_pad) (unfold strip in refl)
strip-encode (x ∷ y ∷ []) = simp (strip_char, strip_pad) (unfold strip in refl)
strip-encode (x ∷ y ∷ z ∷ s) = simp (strip_char, strip-encode s)

dec_pad : dec_char b'=' ≡ none
unfolding dec_char
dec_pad = refl

quanta-encode : (s : Str) → All IsByte s → quanta (encode_base64 s) ≡ s
unfolding encode_base64 quanta quantum
quanta-encode [] h = refl
quanta-encode (x ∷ []) h =
    rw (dec-enc_char (x / 4) (omega arith), dec-enc_char (x % 4 * 16) (omega arith), dec_pad)
      (ground arith)
quanta-encode (x ∷ y ∷ []) h =
    rw
      (
        dec-enc_char (x / 4) (omega arith),
        dec-enc_char (x % 4 * 16 + y / 16) (omega arith),
        dec-enc_char (y % 16 * 4) (omega arith),
        dec_pad,
      )
      (ground arith)
quanta-encode (x ∷ y ∷ z ∷ s) h =
    rw
      (
        dec-enc_char (x / 4) (omega arith),
        dec-enc_char (x % 4 * 16 + y / 16) (omega arith),
        dec-enc_char (y % 16 * 4 + z / 64) (omega arith),
        dec-enc_char (z % 64) (omega arith),
      )
      (ground (arith, quanta-encode s h.1.1.1))

-- Decoding the encoding of bytes gives the bytes.
pub decode-encode_base64 : (s : Str) → All IsByte s → decode_base64 (encode_base64 s) ≡ s
unfolding decode_base64
decode-encode_base64 s h = rw (strip-encode s) (quanta-encode s h)

samples :
    (encode_base64 (codes "Many") ≡ codes "TWFueQ==")
    × (decode_base64 (codes "TWFu\neQ==") ≡ codes "Many")
    × (decode_base64 (codes "TWFu!!!!") ≡ codes "Man")
unfolding encode_base64 decode_base64
samples = (refl, refl, refl)
