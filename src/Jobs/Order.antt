-- ===== src/Jobs/Order.antt =====
-- jobs_impl.go: normalizeGroups, as Go may read its map in any order.
use mathlib.Core.Logic.{∥∥₁_elim}
use mathlib.Core.List.{Perm, Permᴰ}
use taskbus.Prelude.{
  ℤ, Str, GoMap, ◌∷◌, Option, none, some, Bool, true, false, lookup, str_eq, ◌≡◌, ◌∙◌, refl, sym,
  ap, ap₂, arith, if◌then◌else◌,
}
use taskbus.Config.{Client}
use taskbus.Jobs.Groups.{
  larger, at_least_one, final_name, largest, asked, largest_cons, normalize_groups,
  lookup-normalize_groups,
}

larger_swap : (r : Option ℤ) (a b : ℤ) → larger (some (larger r a)) b ≡ larger (some (larger r b)) a
larger_swap none a b = ground arith
larger_swap (some r) a b = ground arith

abbrev add_if : Bool → ℤ → Option ℤ → Option ℤ
add_if b size r = if b then some (larger r size) else r

add_if_swap :
    (b b' : Bool) (s s' : ℤ) (r : Option ℤ)
    → add_if b s (add_if b' s' r) ≡ add_if b' s' (add_if b s r)
add_if_swap true true s s' r = ap some (larger_swap r s' s)
add_if_swap true false s s' r = refl
add_if_swap false b' s s' r = refl

module _ {F W : Type 0} (c : Client F W) (g : Str) where
  abbrev added : Str × ℤ → Option ℤ → Option ℤ
  added p = add_if (str_eq (final_name c p.0) g) (at_least_one p.1)

  added_twice :
      (p q : Str × ℤ) (groups : GoMap ℤ)
      → largest c g (p ∷ q ∷ groups) ≡ added p (added q (largest c g groups))
  added_twice p q groups =
      largest_cons c g p (q ∷ groups) ∙ ap (added p) (largest_cons c g q groups)

  largest-perm : {l l' : GoMap ℤ} → Permᴰ l l' → largest c g l ≡ largest c g l'
  largest-perm Permᴰ.nil = refl
  largest-perm (Permᴰ.cons {a = a} {b = b} {l₁ = l} {l₂ = m} e d) =
      largest_cons c g a l ∙ ap₂ added e (largest-perm d) ∙ sym (largest_cons c g b m)
  largest-perm (Permᴰ.swap {a = a} {b = b} {a' = a'} {b' = b'} {l = l} e f) =
      added_twice a b l
      ∙ add_if_swap (str_eq (final_name c a.0) g) (str_eq (final_name c b.0) g) (at_least_one a.1)
          (at_least_one b.1) (largest c g l)
      ∙ ap₂ (λ p q. added p (added q (largest c g l))) f e
      ∙ sym (added_twice a' b' l)
  largest-perm (Permᴰ.trans d f) = largest-perm d ∙ largest-perm f

  asked-perm : {l l' : GoMap ℤ} → Permᴰ l l' → largest c g (asked c l) ≡ largest c g (asked c l')
  asked-perm Permᴰ.nil = refl
  asked-perm (Permᴰ.cons e d) = largest-perm (Permᴰ.cons e d)
  asked-perm (Permᴰ.swap e f) = largest-perm (Permᴰ.swap e f)
  asked-perm (Permᴰ.trans d f) = asked-perm d ∙ asked-perm f

  Option-ℤ-set : IsSet (Option ℤ)
  Option-ℤ-set = hlevel

  -- Two orders of one map of groups give every group the same size.
  pub normalize_groups-perm :
      (l l' : GoMap ℤ)
      → Perm l l'
      → lookup g (normalize_groups c l) ≡ lookup g (normalize_groups c l')
  normalize_groups-perm l l' p =
      lookup-normalize_groups c g l
      ∙ ∥∥₁_elim p (Option-ℤ-set _ _) asked-perm
      ∙ sym (lookup-normalize_groups c g l')
