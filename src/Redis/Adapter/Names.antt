-- ===== src/Redis/Adapter/Names.antt =====
-- redis_adapter.go: the names under which the consumers of one adapter read.
use taskbus.Prelude.{
  ℕ, zero, suc, ◌+◌, ◌≤◌, ◌<◌, ◌%◌, ◌^◌, ℤ, pos, Str, List, [], ◌∷◌, Option, some, ◌≡◌, ◌≢◌, ◌∙◌,
  sym, ap, ap₂, subst, arith, All, append_cancel_left, itoa, atoi, atoi-itoa, max_int, length,
}
use taskbus.Mq.{Context, Handler, Middleware}
use taskbus.Retry.{Float64}
use taskbus.Redis.Adapter.{
  Session, Adapter, Consumer, numbered, next_consumer_name, launch, consume, consumer_of,
}

cons-eq : (b : ℕ) (s t : Str) → b ∷ s ≡ b ∷ t → s ≡ t
cons-eq b s t e = cc

some-eq : (a b : ℕ) → ◌≡◌ {A = Option ℤ} (some (pos a)) (some (pos b)) → a ≡ b
some-eq a b e = cc

numbered-eq : (s : Str) (i j : ℕ) → i ≤ max_int → j ≤ max_int → numbered s i ≡ numbered s j → i ≡ j
unfolding numbered
numbered-eq s i j p q e =
    let digits = cons-eq b'-' (itoa (pos i)) (itoa (pos j)) (append_cancel_left s _ _ e) in
    some-eq i j (sym (atoi-itoa (pos i) p) ∙ ap atoi digits ∙ atoi-itoa (pos j) q)

-- The names of the first `n` consumers, the last one first.
names_down : Str → ℕ → List Str
names_down s zero = []
names_down s (suc n) = numbered s (suc n) ∷ names_down s n

abbrev pub AllDistinct : List Str → Type 0
AllDistinct [] = Unit
AllDistinct (s ∷ names) = All (λ t. t ≢ s) names × AllDistinct names

names_down-other :
    (s : Str) (m n : ℕ) → n < m → m ≤ max_int → All (λ t. t ≢ numbered s m) (names_down s n)
unfolding names_down
names_down-other s m zero lt le = tt
names_down-other s m (suc n) lt le = (
  λ e. absurd (omega (arith, numbered-eq s (suc n) m (omega arith) le e)),
  names_down-other s m n (omega arith) le,
)

names_down-AllDistinct : (s : Str) (n : ℕ) → n ≤ max_int → AllDistinct (names_down s n)
unfolding names_down
names_down-AllDistinct s zero le = tt
names_down-AllDistinct s (suc n) le =
    (names_down-other s (suc n) n (omega arith) le, names_down-AllDistinct s n (omega arith))

abbrev pub names : List Consumer → List Str
names [] = []
names (c ∷ consumers) = c.name ∷ names consumers

-- One call of Consume.
pub record Request (W : Type 0) : Type 0 where
  pub context : Context
  pub topic : Str
  pub group : Str
  pub handler : Handler W
  pub mws : List (Middleware W)

module _ {W : Type 0} (fl : Float64) (session : Session W) where
  -- The calls of Consume, the first of the list last.
  abbrev pub consume_all : List (Request W) → Adapter fl.F W → Adapter fl.F W
  consume_all [] a = a
  consume_all (r ∷ requests) a =
      (consume fl session r.context r.topic r.group r.handler r.mws (consume_all requests a)).1

  record InOrder (a : Adapter fl.F W) (n : ℕ) : Type 0 where
    seq : a.consumer_seq ≡ n
    named : names a.consumers ≡ names_down a.consumer_base n

  consume-InOrder :
      (r : Request W) (a : Adapter fl.F W) (n : ℕ)
      → suc n ≤ max_int
      → InOrder a n
      → InOrder (consume fl session r.context r.topic r.group r.handler r.mws a).1 (suc n)
  unfolding consume launch next_consumer_name names_down consumer_of
  consume-InOrder r a n le h =
      let next : (a.consumer_seq + 1) % 2 ^ 64 ≡ suc n = omega (arith, le, h.seq) in
      record { seq = next; named = ap₂ (λ k l. numbered a.consumer_base k ∷ l) next h.named }

  consume_all-InOrder :
      (requests : List (Request W)) (a : Adapter fl.F W)
      → a.consumer_seq ≡ 0
      → a.consumers ≡ []
      → length requests ≤ max_int
      → InOrder (consume_all requests a) (length requests)
  unfolding names_down
  consume_all-InOrder [] a e none_yet le = record { seq = e; named = ap names none_yet }
  consume_all-InOrder (r ∷ requests) a e none_yet le =
      consume-InOrder r (consume_all requests a) (length requests) le
        (consume_all-InOrder requests a e none_yet (omega (arith, le)))

  -- No two consumers of one adapter read under one name, whatever they consume, up to 2^63 - 1 of
  -- them; the counter of a new adapter is 0.
  pub consumers-AllDistinct :
      (requests : List (Request W)) (a : Adapter fl.F W)
      → a.consumer_seq ≡ 0
      → a.consumers ≡ []
      → length requests ≤ max_int
      → AllDistinct (names (consume_all requests a).consumers)
  consumers-AllDistinct requests a e none_yet le =
      let order = consume_all-InOrder requests a e none_yet le in
      subst AllDistinct (sym order.named)
        (names_down-AllDistinct (consume_all requests a).consumer_base (length requests) le)
