-- ===== src/Topic/Split.antt =====
-- util.go: strings.Split at a separator of one byte.
use taskbus.Prelude.{ℕ, Str, List, [], ◌∷◌, ◌++◌, ◌≡◌, ◌≢◌, refl, sym, ap, ◌∙◌, arith, Lacks}
use taskbus.Topic.{split, cons_head}

-- strings.Join at a separator of one byte
pub join : ℕ → List Str → Str
join sep [] = []
join sep (p ∷ []) = p
join sep (p ∷ q ∷ ps) = p ++ sep ∷ join sep (q ∷ ps)

module _ (sep : ℕ) where
  pub split-ne-nil : (s : Str) → split sep s ≢ []
  unfolding split
  split-ne-nil [] = ground arith
  split-ne-nil (c ∷ s) = ground (arith, split-ne-nil s)

  join-cons_head : (c : ℕ) (ps : List Str) → ps ≢ [] → join sep (cons_head c ps) ≡ c ∷ join sep ps
  unfolding join
  join-cons_head c [] h = absurd (h refl)
  join-cons_head c (p ∷ []) h = refl
  join-cons_head c (p ∷ q ∷ ps) h = refl

  join_nil_head : (ps : List Str) → ps ≢ [] → join sep ([] ∷ ps) ≡ sep ∷ join sep ps
  unfolding join
  join_nil_head [] h = absurd (h refl)
  join_nil_head (p ∷ ps) h = refl

  -- The parts joined again are the text.
  pub join-split : (s : Str) → join sep (split sep s) ≡ s
  unfolding split
  join-split [] = unfold join in refl
  join-split (c ∷ s) =
      let some_part = split-ne-nil s in
      ground (
        arith,
        join-split s,
        join-cons_head c (split sep s) some_part,
        join_nil_head (split sep s) some_part,
      )

  pub split-injective : (s t : Str) → split sep s ≡ split sep t → s ≡ t
  split-injective s t h = sym (join-split s) ∙ ap (join sep) h ∙ join-split t

  -- Up to the first separator the text is one part.
  pub split-part : (p s : Str) → Lacks sep p → split sep (p ++ sep ∷ s) ≡ p ∷ split sep s
  unfolding split
  split-part [] s h = ground arith
  split-part (c ∷ p) s h = ground (arith, split-part p s)

  pub split-Lacks : (s : Str) → Lacks sep s → split sep s ≡ s ∷ []
  unfolding split
  split-Lacks [] h = refl
  split-Lacks (c ∷ s) h = ground (arith, split-Lacks s)

  cons_head-append :
      (c : ℕ) (ps qs : List Str) → ps ≢ [] → cons_head c (ps ++ qs) ≡ cons_head c ps ++ qs
  cons_head-append c [] qs h = absurd (h refl)
  cons_head-append c (p ∷ ps) qs h = refl

  -- A separator in the middle splits a text in two.
  pub split-append : (s t : Str) → split sep (s ++ sep ∷ t) ≡ split sep s ++ split sep t
  unfolding split
  split-append [] t = ground arith
  split-append (c ∷ s) t =
      ground
        (arith, split-append s t, cons_head-append c (split sep s) (split sep t) (split-ne-nil s))
