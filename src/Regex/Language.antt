-- ===== src/Regex/Language.antt =====
-- The language of a regular expression, for the matcher of Regex.
use taskbus.Prelude.{
  ℕ, Str, [], ◌∷◌, ◌++◌, ◌≡◌, ◌↔◌, inl, inr, refl, sym, ap, ◌∙◌, Bool, true, false, Bool-cases,
  &&_iff, ||_iff, if◌then◌else◌,
}
use taskbus.Regex.{Regex, nothing, blank, class, seq, alt, many, nullable, derivative, match_regex}

pub data Language : Regex → Str → Type 0 where
  empty : {s : Str} → s ≡ [] → Language blank s
  byte : {p : ℕ → Bool} {s : Str} (c : ℕ) → p c ≡ true → s ≡ c ∷ [] → Language (class p) s
  both :
      {r q : Regex} {s : Str} (u v : Str)
      → s ≡ u ++ v
      → Language r u
      → Language q v
      → Language (seq r q) s
  left : {r q : Regex} {s : Str} → Language r s → Language (alt r q) s
  right : {r q : Regex} {s : Str} → Language q s → Language (alt r q) s
  end : {r : Regex} {s : Str} → s ≡ [] → Language (many r) s
  more :
      {r : Regex} {s : Str} (c : ℕ) (u v : Str)
      → s ≡ c ∷ (u ++ v)
      → Language r (c ∷ u)
      → Language (many r) v
      → Language (many r) s

nothing_inv : {P : Type 0} {s : Str} → Language nothing s → P
nothing_inv d = elim d [ ]

blank_inv : {s : Str} → Language blank s → s ≡ []
blank_inv (empty e) = e

nullable_sound : (r : Regex) → nullable r ≡ true → Language r []
unfolding nullable
nullable_sound nothing h = cc
nullable_sound blank h = empty refl
nullable_sound (class p) h = cc
nullable_sound (seq r q) h =
    both [] [] refl (nullable_sound r ((&&_iff _ _).0 h).0) (nullable_sound q ((&&_iff _ _).0 h).1)
nullable_sound (alt r q) h = elim ((||_iff (nullable r) (nullable q)).0 h) [
  | inl e ↦ left (nullable_sound r e)
  | inr e ↦ right (nullable_sound q e)
]
nullable_sound (many r) h = end refl

append_nil_left : (u v : Str) → [] ≡ u ++ v → u ≡ []
append_nil_left [] v e = refl
append_nil_left (c ∷ u) v e = cc

append_nil_right : (u v : Str) → [] ≡ u ++ v → v ≡ []
append_nil_right [] v e = sym e
append_nil_right (c ∷ u) v e = cc

nullable_complete : (r : Regex) (s : Str) → s ≡ [] → Language r s → nullable r ≡ true
unfolding nullable
nullable_complete nothing s n d = elim d [ ]
nullable_complete blank s n (empty e) = refl
nullable_complete (class p) s n (byte c h e) = cc
nullable_complete (seq r q) s n (both u v e d f) = (&&_iff (nullable r) (nullable q)).1 (
  nullable_complete r u (append_nil_left u v (sym n ∙ e)) d,
  nullable_complete q v (append_nil_right u v (sym n ∙ e)) f,
)
nullable_complete (alt r q) s n (left d) =
    (||_iff (nullable r) (nullable q)).1 (inl (nullable_complete r s n d))
nullable_complete (alt r q) s n (right d) =
    (||_iff (nullable r) (nullable q)).1 (inr (nullable_complete q s n d))
nullable_complete (many r) s n d = refl

-- The two derivatives that test: of a class, and of what may follow a sequence's head.
class_sound :
    (p : ℕ → Bool) (c : ℕ) (s : Str)
    → Language (if p c then blank else nothing) s
    → Language (class p) (c ∷ s)
class_sound p c s d = elim (Bool-cases (p c)) [
  | inl e ↦ byte c e (ap (λ t. c ∷ t) (blank_inv (rw e at d)))
  | inr e ↦ nothing_inv (rw e at d)
]

rest_sound :
    (b : Bool) (q : Regex) (s : Str)
    → Language (if b then q else nothing) s
    → (b ≡ true) × Language q s
rest_sound true q s d = (refl, d)
rest_sound false q s d = nothing_inv d

derivative_sound : (c : ℕ) (r : Regex) {s : Str} → Language (derivative c r) s → Language r (c ∷ s)
unfolding derivative
derivative_sound c nothing d = nothing_inv d
derivative_sound c blank d = nothing_inv d
derivative_sound c (class p) {s} d = class_sound p c s d
derivative_sound c (seq r q) (left (both u v e d f)) =
    both (c ∷ u) v (ap (λ t. c ∷ t) e) (derivative_sound c r d) f
derivative_sound c (seq r q) {s} (right d) =
    let (b, f) = rest_sound (nullable r) (derivative c q) s d in
    both [] (c ∷ s) refl (nullable_sound r b) (derivative_sound c q f)
derivative_sound c (alt r q) (left d) = left (derivative_sound c r d)
derivative_sound c (alt r q) (right d) = right (derivative_sound c q d)
derivative_sound c (many r) (both u v e d f) =
    more c u v (ap (λ t. c ∷ t) e) (derivative_sound c r d) f

heads_eq : {a b : ℕ} {s t : Str} → a ∷ s ≡ b ∷ t → a ≡ b
heads_eq e = cc

tails_eq : {a b : ℕ} {s t : Str} → a ∷ s ≡ b ∷ t → s ≡ t
tails_eq e = cc

class_complete :
    (p : ℕ → Bool) (c : ℕ) (s : Str)
    → p c ≡ true
    → s ≡ []
    → Language (if p c then blank else nothing) s
class_complete p c s h e = rw h (empty e)

rest_complete :
    (b : Bool) (q : Regex) (s : Str)
    → b ≡ true
    → Language q s
    → Language (if b then q else nothing) s
rest_complete b q s h d = rw h d

derivative_complete :
    (c : ℕ) (r : Regex) (s t : Str) → t ≡ c ∷ s → Language r t → Language (derivative c r) s
unfolding derivative
derivative_complete c nothing s t w d = elim d [ ]
derivative_complete c blank s t w (empty e) = cc
derivative_complete c (class p) s t w (byte b h e) =
    class_complete p c s (ap p (heads_eq (sym w ∙ e)) ∙ h) (tails_eq (sym w ∙ e))
derivative_complete c (seq r q) s t w (both [] v e d f) = right (
    rest_complete (nullable r) (derivative c q) s (nullable_complete r [] refl d)
      (derivative_complete c q s v (sym e ∙ w) f))
derivative_complete c (seq r q) s t w (both (b ∷ u) v e d f) = left (
    both u v (tails_eq (sym w ∙ e))
      (derivative_complete c r u (b ∷ u) (ap (λ x. x ∷ u) (heads_eq (sym e ∙ w))) d) f)
derivative_complete c (alt r q) s t w (left d) = left (derivative_complete c r s t w d)
derivative_complete c (alt r q) s t w (right d) = right (derivative_complete c q s t w d)
derivative_complete c (many r) s t w (end e) = cc
derivative_complete c (many r) s t w (more b u v e d f) =
    both u v (tails_eq (sym w ∙ e))
      (derivative_complete c r u (b ∷ u) (ap (λ x. x ∷ u) (heads_eq (sym e ∙ w))) d) f

match_regex_sound : (r : Regex) (s : Str) → match_regex r s ≡ true → Language r s
unfolding match_regex
match_regex_sound r [] h = nullable_sound r h
match_regex_sound r (c ∷ s) h = derivative_sound c r (match_regex_sound (derivative c r) s h)

match_regex_complete : (r : Regex) (s : Str) → Language r s → match_regex r s ≡ true
unfolding match_regex
match_regex_complete r [] d = nullable_complete r [] refl d
match_regex_complete r (c ∷ s) d =
    match_regex_complete (derivative c r) s (derivative_complete c r s (c ∷ s) refl d)

-- The matcher accepts exactly the texts of the language.
pub match_regex_iff : (r : Regex) (s : Str) → (match_regex r s ≡ true) ↔ Language r s
match_regex_iff r s = (match_regex_sound r s, match_regex_complete r s)
