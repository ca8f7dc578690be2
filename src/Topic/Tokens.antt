-- ===== src/Topic/Tokens.antt =====
-- util.go: matchTopicTokens, and the topic rules of RabbitMQ as a relation with no search.
use taskbus.Prelude.{
  Str, List, [], ◌∷◌, ◌≡◌, ◌≢◌, ◌↔◌, refl, Bool, true, arith, is_empty, str_eq, str_eq_iff,
  Bool-cases, inl, inr, ◌⊎◌, if◌then◌else◌, str_dec, str_eq_ne,
}
use taskbus.Topic.{star, hash, any_suffix, one_word, same_word, match_topic_tokens}

-- `#` stands for any number of words, `*` for one word, and any other word for itself.
pub data Matches : List Str → List Str → Type 0 where
  done : Matches [] []
  skip : {p : Str} {ps ts : List Str} → p ≡ hash → Matches ps ts → Matches (p ∷ ps) ts
  take : {p t : Str} {ps ts : List Str} → p ≡ hash → Matches (p ∷ ps) ts → Matches (p ∷ ps) (t ∷ ts)
  word :
      {p t : Str} {ps ts : List Str}
      → p ≢ hash
      → (p ≡ star) ⊎ (p ≡ t)
      → Matches ps ts
      → Matches (p ∷ ps) (t ∷ ts)

-- Any word, a wildcard too, matches itself.
pub Matches-same : {ps ts : List Str} (t : Str) → Matches ps ts → Matches (t ∷ ps) (t ∷ ts)
Matches-same t d = elim (str_dec t hash) [ yes h ↦ take h (skip h d) | no n ↦ word n (inr refl) d ]

pub Matches-self : (ts : List Str) → Matches ts ts
Matches-self [] = done
Matches-self (t ∷ ts) = Matches-same t (Matches-self ts)

pub Matches-word :
    {p t : Str} {ps ts : List Str}
    → p ≢ hash
    → p ≢ star
    → Matches (p ∷ ps) (t ∷ ts)
    → (p ≡ t) × Matches ps ts
Matches-word n m (skip h d) = absurd (n h)
Matches-word n m (take h d) = absurd (n h)
Matches-word n m (word _ (inl h) d) = absurd (m h)
Matches-word n m (word _ (inr h) d) = (h, d)

pub Matches-all : {p : Str} → p ≡ hash → (ts : List Str) → Matches (p ∷ []) ts
Matches-all h [] = skip h done
Matches-all h (t ∷ ts) = take h (Matches-all h ts)

any_suffix_sound :
    {p : Str} {ps : List Str} (accept : List Str → Bool)
    → p ≡ hash
    → ((ts : List Str) → accept ts ≡ true → Matches ps ts)
    → (ts : List Str) → any_suffix accept ts ≡ true
    → Matches (p ∷ ps) ts
unfolding any_suffix
any_suffix_sound accept h sound [] e = skip h (sound [] e)
any_suffix_sound accept h sound (t ∷ ts) e = elim (Bool-cases (accept (t ∷ ts))) [
  | inl now ↦ skip h (sound (t ∷ ts) now)
  | inr later ↦ take h (any_suffix_sound accept h sound ts (rw later at e))
]

any_suffix_complete :
    {p : Str} {ps ts : List Str} (accept : List Str → Bool)
    → ((us : List Str) → Matches ps us → accept us ≡ true)
    → p ≡ hash
    → Matches (p ∷ ps) ts
    → any_suffix accept ts ≡ true
unfolding any_suffix
any_suffix_complete {ts = []} accept complete h (skip _ d) = complete [] d
any_suffix_complete {ts = t ∷ ts} accept complete h (skip _ d) = rw (complete (t ∷ ts) d)
any_suffix_complete {ts = t ∷ ts} accept complete h (take _ d) =
    ground (arith, any_suffix_complete accept complete h d)
any_suffix_complete accept complete h (word n _ d) = absurd (n h)

-- The three branches of the `switch`.
module _ (p : Str) (ps ts : List Str) where
  tokens_hash :
      p ≡ hash
      → match_topic_tokens (p ∷ ps) ts
        ≡ (if is_empty ps then true else any_suffix (match_topic_tokens ps) ts)
  unfolding match_topic_tokens
  tokens_hash h = rw ((str_eq_iff p hash).1 h)

  tokens_star : p ≡ star → match_topic_tokens (p ∷ ps) ts ≡ one_word (match_topic_tokens ps) ts
  unfolding match_topic_tokens
  tokens_star h = rw h (unfold str_eq in refl)

  tokens_word :
      p ≢ hash → p ≢ star → match_topic_tokens (p ∷ ps) ts ≡ same_word (match_topic_tokens ps) p ts
  unfolding match_topic_tokens
  tokens_word h s = rw (str_eq_ne p hash h, str_eq_ne p star s)

-- From an answer of the branches to a derivation.
module _ {p : Str} {accept : List Str → Bool} where
  hash_case :
      (ps ts : List Str)
      → p ≡ hash
      → ((us : List Str) → accept us ≡ true → Matches ps us)
      → (if is_empty ps then true else any_suffix accept ts) ≡ true
      → Matches (p ∷ ps) ts
  hash_case [] ts h sound e = Matches-all h ts
  hash_case (q ∷ qs) ts h sound e = any_suffix_sound accept h sound ts e

  star_case :
      {ps : List Str} (ts : List Str)
      → p ≢ hash
      → p ≡ star
      → ((us : List Str) → accept us ≡ true → Matches ps us)
      → one_word accept ts ≡ true
      → Matches (p ∷ ps) ts
  star_case [] n h sound e = cc
  star_case (t ∷ ts) n h sound e = word n (inl h) (sound ts e)

  word_case :
      {ps : List Str} (ts : List Str)
      → p ≢ hash
      → ((us : List Str) → accept us ≡ true → Matches ps us)
      → same_word accept p ts ≡ true
      → Matches (p ∷ ps) ts
  word_case [] n sound e = cc
  word_case (t ∷ ts) n sound e =
      word n (inr (ground (arith, str_eq_iff p t))) (sound ts (ground arith))

  star_back :
      {ps ts : List Str}
      → p ≢ hash
      → ((us : List Str) → Matches ps us → accept us ≡ true)
      → Matches (p ∷ ps) ts
      → one_word accept ts ≡ true
  star_back n complete (skip h d) = absurd (n h)
  star_back n complete (take h d) = absurd (n h)
  star_back {ts = t ∷ ts} n complete (word _ _ d) = complete ts d

  word_back :
      {ps ts : List Str}
      → p ≢ hash
      → p ≢ star
      → ((us : List Str) → Matches ps us → accept us ≡ true)
      → Matches (p ∷ ps) ts
      → same_word accept p ts ≡ true
  word_back n m complete (skip h d) = absurd (n h)
  word_back n m complete (take h d) = absurd (n h)
  word_back n m complete (word _ (inl h) d) = absurd (m h)
  word_back {ts = t ∷ ts} n m complete (word _ (inr h) d) =
      ground (arith, (str_eq_iff p t).1 h, complete ts d)

data Kind (p : Str) : Type 0 where
  is_hash : p ≡ hash → Kind p
  is_star : p ≢ hash → p ≡ star → Kind p
  is_word : p ≢ hash → p ≢ star → Kind p

kind : (p : Str) → Kind p
kind p = elim (str_dec p hash) [
  | yes h ↦ is_hash h
  | no n ↦ elim (str_dec p star) [ yes h ↦ is_star n h | no m ↦ is_word n m ]
]

pub match_topic_tokens_sound : (ps ts : List Str) → match_topic_tokens ps ts ≡ true → Matches ps ts
match_topic_tokens_sound [] [] e = done
match_topic_tokens_sound [] (t ∷ ts) e = unfold match_topic_tokens in cc
match_topic_tokens_sound (p ∷ ps) ts e = elim (kind p) [
  | is_hash h ↦ hash_case ps ts h (match_topic_tokens_sound ps) (rw (tokens_hash p ps ts h) at e)
  | is_star n h ↦ star_case ts n h (match_topic_tokens_sound ps) (rw (tokens_star p ps ts h) at e)
  | is_word n m ↦ word_case ts n (match_topic_tokens_sound ps) (rw (tokens_word p ps ts n m) at e)
]

match_topic_tokens_complete : (ps ts : List Str) → Matches ps ts → match_topic_tokens ps ts ≡ true
match_topic_tokens_complete [] ts done = unfold match_topic_tokens in refl
match_topic_tokens_complete (p ∷ ps) ts d = elim (kind p) [
  | is_hash h ↦ rw (tokens_hash p ps ts h) (
      ground
        (arith, any_suffix_complete (match_topic_tokens ps) (match_topic_tokens_complete ps) h d))
  | is_star n h ↦ rw (tokens_star p ps ts h) (star_back n (match_topic_tokens_complete ps) d)
  | is_word n m ↦ rw (tokens_word p ps ts n m) (word_back n m (match_topic_tokens_complete ps) d)
]

-- The matcher accepts exactly the lists of words that the rules allow.
pub match_topic_tokens_iff : (ps ts : List Str) → (match_topic_tokens ps ts ≡ true) ↔ Matches ps ts
match_topic_tokens_iff ps ts = (match_topic_tokens_sound ps ts, match_topic_tokens_complete ps ts)
