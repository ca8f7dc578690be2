-- ===== src/Sha1.antt =====
-- crypto/sha1 and encoding/hex of Go's standard library, as middleware_idempotency.go uses them:
-- the digest of a text (FIPS 180-4), and its lower-case hexadecimal form.
use Prim.Native.Nat.{bit_and, bit_or, bit_xor}
use taskbus.Prelude.{
  ℕ, zero, suc, ◌+◌, ◌-◌, ◌*◌, ◌/◌, ◌%◌, ◌^◌, Str, codes, List, [], ◌∷◌, ◌++◌, length, replicate,
  ltb, if◌then◌else◌, ◌≡◌, refl,
}

-- Arithmetic on uint32
abbrev word : ℕ → ℕ
word x = x % 2 ^ 32

abbrev rotate_left : ℕ → ℕ → ℕ
rotate_left k x = word (x * 2 ^ k) + x / 2 ^ (32 - k)

abbrev complement : ℕ → ℕ
complement x = 2 ^ 32 - 1 - x

record Digest : Type 0 where
  a : ℕ
  b : ℕ
  c : ℕ
  d : ℕ
  e : ℕ

initial : Digest
initial = record { a = 0x67452301; b = 0xefcdab89; c = 0x98badcfe; d = 0x10325476; e = 0xc3d2e1f0 }

mix : ℕ → Digest → ℕ
mix t s =
    if ltb t 20
    then bit_or (bit_and s.b s.c) (bit_and (complement s.b) s.d)
    else if ltb t 40
    then bit_xor (bit_xor s.b s.c) s.d
    else if ltb t 60
    then bit_or (bit_or (bit_and s.b s.c) (bit_and s.b s.d)) (bit_and s.c s.d)
    else bit_xor (bit_xor s.b s.c) s.d

constant : ℕ → ℕ
constant t =
    if ltb t 20
    then 0x5a827999
    else if ltb t 40
    then 0x6ed9eba1
    else if ltb t 60
    then 0x8f1bbcdc
    else 0xca62c1d6

round : ℕ → ℕ → Digest → Digest
unfolding mix constant
round t w s = record {
  a = word (rotate_left 5 s.a + mix t s + s.e + constant t + w);
  b = s.a;
  c = rotate_left 30 s.b;
  d = s.c;
  e = s.d;
}

-- The window of sixteen words, moved on by one.
slide : List ℕ → List ℕ
slide (w0 ∷ w1 ∷ w2 ∷ w3 ∷ w4 ∷ w5 ∷ w6 ∷ w7 ∷ w8 ∷ w9 ∷ wa ∷ wb ∷ wc ∷ wd ∷ we ∷ wf ∷ []) =
    let next = rotate_left 1 (bit_xor (bit_xor wd w8) (bit_xor w2 w0)) in
    w1 ∷ w2 ∷ w3 ∷ w4 ∷ w5 ∷ w6 ∷ w7 ∷ w8 ∷ w9 ∷ wa ∷ wb ∷ wc ∷ wd ∷ we ∷ wf ∷ next ∷ []
slide ws = ws

first_word : List ℕ → ℕ
first_word [] = 0
first_word (w ∷ _) = w

-- The rounds from `t` on, `n` of them.
rounds : ℕ → ℕ → List ℕ → Digest → Digest
unfolding round slide first_word
rounds zero t ws s = s
rounds (suc n) t ws s = rounds n (t + 1) (slide ws) (round t (first_word ws) s)

add_state : Digest → Digest → Digest
add_state s t = record {
  a = word (s.a + t.a);
  b = word (s.b + t.b);
  c = word (s.c + t.c);
  d = word (s.d + t.d);
  e = word (s.e + t.e);
}

-- The big-endian words of a text whose length is a multiple of four.
words : Str → List ℕ
words (p ∷ q ∷ r ∷ s ∷ rest) = (((p * 256 + q) * 256 + r) * 256 + s) ∷ words rest
words _ = []

-- The blocks of sixteen words, one after another.
blocks : List ℕ → Digest → Digest
unfolding rounds add_state
blocks (w0 ∷ w1 ∷ w2 ∷ w3 ∷ w4 ∷ w5 ∷ w6 ∷ w7 ∷ w8 ∷ w9 ∷ wa ∷ wb ∷ wc ∷ wd ∷ we ∷ wf ∷ rest) s =
    let ws = w0 ∷ w1 ∷ w2 ∷ w3 ∷ w4 ∷ w5 ∷ w6 ∷ w7 ∷ w8 ∷ w9 ∷ wa ∷ wb ∷ wc ∷ wd ∷ we ∷ wf ∷ [] in
    blocks rest (add_state s (rounds 80 0 ws s))
blocks _ s = s

abbrev be32 : ℕ → Str
be32 x = (x / 2 ^ 24) % 256 ∷ (x / 2 ^ 16) % 256 ∷ (x / 2 ^ 8) % 256 ∷ x % 256 ∷ []

padding : ℕ → Str
padding n = 0x80 ∷ (replicate ((119 - n % 64) % 64) 0 ++ (be32 (n * 8 / 2 ^ 32) ++ be32 (n * 8)))

-- sha1.Sum
unfoldable pub sha1_sum : Str → Str
unfolding blocks words padding initial
sha1_sum s =
    let r = blocks (words (s ++ padding (length s))) initial in
    be32 r.a ++ (be32 r.b ++ (be32 r.c ++ (be32 r.d ++ be32 r.e)))

hex_digit : ℕ → ℕ
hex_digit n = if ltb n 10 then b'0' + n else b'a' + (n - 10)

-- hex.EncodeToString
unfoldable pub hex : Str → Str
unfolding hex_digit
hex [] = []
hex (b ∷ s) = hex_digit (b / 16) ∷ hex_digit (b % 16) ∷ hex s

sha1_abc : hex (sha1_sum (codes "abc")) ≡ codes "a9993e364706816aba3e25717850c26c9cd0d89d"
unfolding hex sha1_sum
sha1_abc = refl
