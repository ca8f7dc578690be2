-- ===== src/Jobs/Groups.antt =====
-- jobs_impl.go: the names and sizes of consumer groups. A map is a list in the order of its
-- iteration, which Go leaves open: the result does not depend on it.
use taskbus.Prelude.{
  ℤ, pos, Str, codes, GoMap, [], ◌∷◌, ◌++◌, Option, none, some, Bool, true, false, not, nonpos,
  leb_ℤ, is_empty, lookup, insert, lookup-insert, str_eq, str_eq_iff, ◌≡◌, ◌∙◌, refl, sym, ap,
  arith, if◌then◌else◌,
}
use taskbus.Topic.{dot}
use taskbus.Config.{Client}

-- The size of a group that may be there already.
abbrev pub larger : Option ℤ → ℤ → ℤ
larger none size = size
larger (some existing) size = if leb_ℤ size existing then existing else size

-- resolved[final] = size, unless the entry there is at least as large.
put_larger : Str → ℤ → GoMap ℤ → GoMap ℤ
put_larger final size resolved = elim (lookup final resolved) [
  | none ↦ insert final size resolved
  | some existing ↦ if not (leb_ℤ size existing) then insert final size resolved else resolved
]

lookup-put_larger :
    (g final : Str) (size : ℤ) (resolved : GoMap ℤ)
    → lookup g (put_larger final size resolved)
      ≡ (if str_eq final g then some (larger (lookup g resolved) size) else lookup g resolved)
unfolding put_larger
lookup-put_larger g final size resolved =
    ground (arith, lookup-insert final g size resolved, str_eq_iff final g)

abbrev join : Option ℤ → Option ℤ → Option ℤ
join none r = r
join (some a) none = some a
join (some a) (some b) = some (larger (some a) b)

larger_comm : (a b : ℤ) → larger (some a) b ≡ larger (some b) a
larger_comm a b = ground arith

larger_assoc :
    (a b d : ℤ) → larger (some (larger (some a) d)) b ≡ larger (some a) (larger (some b) d)
larger_assoc a b d = ground arith

join-larger :
    (l r : Option ℤ) (size : ℤ) → join (some (larger l size)) r ≡ join l (some (larger r size))
join-larger none none size = refl
join-larger none (some b) size = ap some (larger_comm size b)
join-larger (some a) none size = refl
join-larger (some a) (some b) size = ap some (larger_assoc a b size)

join-if :
    (b : Bool) (l r : Option ℤ) (size : ℤ)
    → join (if b then some (larger l size) else l) r
      ≡ join l (if b then some (larger r size) else r)
join-if true l r size = join-larger l r size
join-if false l r size = refl

join-none : (l : Option ℤ) → join l none ≡ l
join-none none = refl
join-none (some a) = refl

abbrev pub at_least_one : ℤ → ℤ
at_least_one size = if nonpos size then pos 1 else size

module _ {F W : Type 0} (c : Client F W) where
  -- resolveGroup
  unfoldable pub resolve_group : Str → Str
  resolve_group name =
      let named = if is_empty name then c.cfg.job.default_group else name in
      let final = if is_empty named then codes "default" else named in
      let prefix =
        if is_empty c.cfg.job.group_prefix then c.namespace else c.cfg.job.group_prefix in
      if is_empty prefix then final else if is_empty final then prefix else prefix ++ (dot ∷ final)

  abbrev pub final_name : Str → Str
  final_name name =
      let final = resolve_group name in if is_empty final then codes "default" else final

  -- One round of the loop.
  pub add_group : Str → ℤ → GoMap ℤ → GoMap ℤ
  unfolding put_larger
  add_group name size resolved = put_larger (final_name name) (at_least_one size) resolved

  pub add_groups : GoMap ℤ → GoMap ℤ → GoMap ℤ
  unfolding add_group
  add_groups [] resolved = resolved
  add_groups ((name, size) ∷ groups) resolved = add_groups groups (add_group name size resolved)

  unfoldable pub normalize_groups : GoMap ℤ → GoMap ℤ
  unfolding add_groups
  normalize_groups [] = add_groups (([], pos 1) ∷ []) []
  normalize_groups (g ∷ groups) = add_groups (g ∷ groups) []

  -- The largest of the sizes that come to one name, each at least one.
  pub largest : Str → GoMap ℤ → Option ℤ
  largest final [] = none
  largest final ((name, size) ∷ groups) =
      if str_eq (final_name name) final
      then some (larger (largest final groups) (at_least_one size))
      else largest final groups

  pub largest_cons :
      (g : Str) (p : Str × ℤ) (groups : GoMap ℤ)
      → largest g (p ∷ groups) ≡ (
          if str_eq (final_name p.0) g
          then some (larger (largest g groups) (at_least_one p.1))
          else largest g groups)
  unfolding largest
  largest_cons g (name, size) groups = refl

  lookup-add_group :
      (g name : Str) (size : ℤ) (resolved : GoMap ℤ)
      → lookup g (add_group name size resolved) ≡ (
          if str_eq (final_name name) g
          then some (larger (lookup g resolved) (at_least_one size))
          else lookup g resolved)
  unfolding add_group
  lookup-add_group g name size resolved =
      lookup-put_larger g (final_name name) (at_least_one size) resolved

  add_groups_nil : (resolved : GoMap ℤ) → add_groups [] resolved ≡ resolved
  unfolding add_groups
  add_groups_nil resolved = refl

  add_groups_cons :
      (name : Str) (size : ℤ) (groups resolved : GoMap ℤ)
      → add_groups ((name, size) ∷ groups) resolved
        ≡ add_groups groups (add_group name size resolved)
  unfolding add_groups
  add_groups_cons name size groups resolved = refl

  lookup-add_groups :
      (g : Str) (groups resolved : GoMap ℤ)
      → lookup g (add_groups groups resolved) ≡ join (lookup g resolved) (largest g groups)
  unfolding largest
  lookup-add_groups g [] resolved =
      ap (lookup g) (add_groups_nil resolved) ∙ sym (join-none (lookup g resolved))
  lookup-add_groups g ((name, size) ∷ groups) resolved =
      ap (lookup g) (add_groups_cons name size groups resolved)
      ∙ lookup-add_groups g groups (add_group name size resolved)
      ∙ ap (λ l. join l (largest g groups)) (lookup-add_group g name size resolved)
      ∙ join-if (str_eq (final_name name) g) (lookup g resolved) (largest g groups)
          (at_least_one size)

  -- What the caller's map stands for: an empty one asks for the default group, with one worker.
  abbrev pub asked : GoMap ℤ → GoMap ℤ
  asked [] = ([], pos 1) ∷ []
  asked (g ∷ groups) = g ∷ groups

  -- Each resolved group has the largest size of the names that come to it, counted as at least
  -- one, and no other group is there, in whatever order the map is read.
  pub lookup-normalize_groups :
      (g : Str) (groups : GoMap ℤ) → lookup g (normalize_groups groups) ≡ largest g (asked groups)
  unfolding normalize_groups lookup
  lookup-normalize_groups g [] = lookup-add_groups g (asked []) []
  lookup-normalize_groups g (p ∷ groups) = lookup-add_groups g (p ∷ groups) []
