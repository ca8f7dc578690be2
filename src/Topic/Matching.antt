-- ===== src/Topic/Matching.antt =====
-- util.go: matchTopic, with its shortcuts, against the rules of Topic/Tokens.
use taskbus.Prelude.{
  ℕ, Str, List, [], ◌∷◌, ◌≡◌, ◌≢◌, ◌↔◌, refl, ap₂, true, false, ◌||◌, ◌&&◌, ◌==◌, arith, is_empty,
  str_eq, str_eq_iff, str_eq_ne, str_dec, Bool-cases, inl, inr, All,
}
use taskbus.Topic.{dot, star, hash, split, cons_head, has_wildcard, match_topic_tokens, match_topic}
use taskbus.Topic.Split.{split-injective}
use taskbus.Topic.Tokens.{
  Matches, done, skip, take, word, Matches-self, match_topic_tokens_sound, match_topic_tokens_iff,
}

abbrev IsPlain : Str → Type 0
IsPlain p = has_wildcard p ≡ false

All-cons_head :
    (c : ℕ) (ps : List Str)
    → has_wildcard (c ∷ []) ≡ false
    → All IsPlain ps
    → All IsPlain (cons_head c ps)
unfolding has_wildcard
All-cons_head c [] h a = (h, tt)
All-cons_head c (p ∷ ps) h a = (ground arith, a.1)

wildcard_parts :
    (c : ℕ) (s : Str)
    → has_wildcard (c ∷ s) ≡ false
    → (has_wildcard (c ∷ []) ≡ false) × (has_wildcard s ≡ false)
unfolding has_wildcard
wildcard_parts c s h = ground arith

IsPlain-nil : IsPlain []
unfolding has_wildcard
IsPlain-nil = refl

-- The words of a text without wildcards have none.
split-IsPlain : (s : Str) → has_wildcard s ≡ false → All IsPlain (split dot s)
unfolding split
split-IsPlain [] h = (IsPlain-nil, tt)
split-IsPlain (c ∷ s) h =
    let (first, rest) = wildcard_parts c s h in
    elim (Bool-cases (c == dot)) [
      | inl e ↦ rw e (IsPlain-nil, split-IsPlain s rest)
      | inr e ↦ rw e (All-cons_head c (split dot s) first (split-IsPlain s rest))
    ]

not_hash : (p : Str) → IsPlain p → p ≢ hash
unfolding has_wildcard
not_hash p h e = cc

not_star : (p : Str) → IsPlain p → p ≢ star
unfolding has_wildcard
not_star p h e = cc

-- Without wildcards, the rules allow the words themselves only.
Matches-plain : {ps ts : List Str} → All IsPlain ps → Matches ps ts → ps ≡ ts
Matches-plain a done = refl
Matches-plain {ps = p ∷ ps} a (skip h d) = absurd (not_hash p a.0 h)
Matches-plain {ps = p ∷ ps} a (take h d) = absurd (not_hash p a.0 h)
Matches-plain {ps = p ∷ ps} a (word n (inl h) d) = absurd (not_star p a.0 h)
Matches-plain a (word n (inr h) d) = ap₂ ◌∷◌ h (Matches-plain a.1 d)

nonempty {ℓ} : {A : Type ℓ} (xs : List A) → xs ≢ [] → is_empty xs ≡ false
nonempty [] h = absurd (h refl)
nonempty (x ∷ xs) h = refl

module _ (pattern topic : Str) (p : pattern ≢ []) (t : topic ≢ []) where
  -- The shortcuts, taken apart.
  match_topic_slow : match_topic pattern topic ≡ (
      str_eq pattern topic
      || (has_wildcard pattern && match_topic_tokens (split dot pattern) (split dot topic)))
  unfolding match_topic
  match_topic_slow = ground (arith, nonempty pattern p, nonempty topic t)

  match_topic_sound :
      match_topic pattern topic ≡ true → Matches (split dot pattern) (split dot topic)
  match_topic_sound e = elim (str_dec pattern topic) [
    | yes same ↦ rw same (Matches-self (split dot topic))
    | no other ↦
        match_topic_tokens_sound (split dot pattern) (split dot topic)
          (ground (arith, match_topic_slow, str_eq_ne pattern topic other))
  ]

  match_topic_complete :
      Matches (split dot pattern) (split dot topic) → match_topic pattern topic ≡ true
  match_topic_complete d = elim (Bool-cases (has_wildcard pattern)) [
    | inl wild ↦ ground (
      arith,
      match_topic_slow,
      (match_topic_tokens_iff (split dot pattern) (split dot topic)).1 d,
    )
    | inr plain ↦
        let same =
          split-injective dot pattern topic (Matches-plain (split-IsPlain pattern plain) d) in
        ground (arith, match_topic_slow, (str_eq_iff pattern topic).1 same)
  ]

  -- On nonempty texts the matcher answers by the topic rules on the words between the dots.
  pub match_topic_iff :
      (match_topic pattern topic ≡ true) ↔ Matches (split dot pattern) (split dot topic)
  match_topic_iff = (match_topic_sound, match_topic_complete)

-- An empty pattern matches the empty topic alone, and an empty topic is matched by the empty
-- pattern alone.
pub match_topic_empty :
    (s : Str) → ((match_topic [] s ≡ true) ↔ (s ≡ [])) × ((match_topic s [] ≡ true) ↔ (s ≡ []))
unfolding match_topic
match_topic_empty [] = ground arith
match_topic_empty (c ∷ s) = ground arith
