-- ===== src/Config/Namespace.antt =====
-- isValidNamespace of client.go, the namespace that New settles on, and what it gives topics.
use taskbus.Prelude.{
  ℕ, Str, codes, [], ◌∷◌, ◌++◌, ◌≡◌, ◌↔◌, ◌⊎◌, refl, ap, ap₂, All-append, ◌∙◌, Bool, true, false,
  not, ◌&&◌, ◌||◌, leb, ◌==◌, arith, All, Lacks, is_empty, Bool-cases, not_true→false, inl, inr,
  if◌then◌else◌,
}
use taskbus.Regex.{Regex, blank, class, seq, alt, many, match_regex}
use taskbus.Regex.Language.{Language, empty, byte, both, left, right, end, more, match_regex_iff}
use taskbus.Topic.{dot, hash, star, build_topic, build_wildcard_topic, match_topic}
use taskbus.Topic.Isolation.{IsWord, match-wildcard_iff}

-- [a-z0-9]
abbrev pub alnum : ℕ → Bool
alnum c = (leb b'a' c && leb c b'z') || (leb b'0' c && leb c b'9')

-- [a-z0-9-]
abbrev pub alnum_dash : ℕ → Bool
alnum_dash c = alnum c || c == b'-'

-- ^[a-z0-9]([a-z0-9-]*[a-z0-9])?$
namespace_regex : Regex
namespace_regex = seq (class alnum) (alt (seq (many (class alnum_dash)) (class alnum)) blank)

unfoldable pub is_valid_namespace : Str → Bool
unfolding namespace_regex match_regex
is_valid_namespace ns = match_regex namespace_regex ns

-- The two tests at the head of New.
unfoldable pub resolve_namespace : Str → Str
unfolding is_valid_namespace
resolve_namespace ns =
    let ns' = if is_empty ns then codes "default" else ns in
    if not (is_valid_namespace ns') then codes "default" else ns'

abbrev pub Starts : Str → Type 0
Starts [] = ⊥
Starts (c ∷ s) = alnum c ≡ true

abbrev pub Ends : Str → Type 0
Ends [] = ⊥
Ends (c ∷ []) = alnum c ≡ true
Ends (c ∷ d ∷ s) = Ends (d ∷ s)

-- Lower-case letters, digits and dashes, with no dash at either end, and at least one byte.
pub record IsNamespace (s : Str) : Type 0 where
  pub bytes : All (λ c. alnum_dash c ≡ true) s
  pub starts : Starts s
  pub ends : Ends s

abbrev Tail : Regex
Tail = seq (many (class alnum_dash)) (class alnum)

many_bytes : (s : Str) → Language (many (class alnum_dash)) s → All (λ c. alnum_dash c ≡ true) s
many_bytes s (end e) = rw e tt
many_bytes s (more c u v e (byte b h w) f) = rw (e ∙ ap (λ x. x ++ v) w) (h, many_bytes v f)

alnum-dash : (c : ℕ) → alnum c ≡ true → alnum_dash c ≡ true
alnum-dash c h = ground arith

Ends-append : (c d : ℕ) (m : Str) → alnum d ≡ true → Ends (c ∷ (m ++ d ∷ []))
Ends-append c d [] h = h
Ends-append c d (x ∷ m) h = Ends-append x d m h

IsNamespace-append :
    (c d : ℕ) (m : Str)
    → alnum c ≡ true
    → All (λ c. alnum_dash c ≡ true) m
    → alnum d ≡ true
    → IsNamespace (c ∷ (m ++ d ∷ []))
IsNamespace-append c d m h a l = record {
  bytes = (alnum-dash c h, All-append (λ c. alnum_dash c ≡ true) m (d ∷ []) a (alnum-dash d l, tt));
  starts = h;
  ends = Ends-append c d m l;
}

IsNamespace-one : (c : ℕ) → alnum c ≡ true → IsNamespace (c ∷ [])
IsNamespace-one c h = record { bytes = (alnum-dash c h, tt); starts = h; ends = h }

IsNamespace-sound : (s : Str) → Language namespace_regex s → IsNamespace s
unfolding namespace_regex
IsNamespace-sound s (both u v e (byte c h w) (left (both m l e' dm (byte d k w')))) =
    rw (e ∙ ap₂ ◌++◌ w (e' ∙ ap (λ x. m ++ x) w')) (IsNamespace-append c d m h (many_bytes m dm) k)
IsNamespace-sound s (both u v e (byte c h w) (right (empty e'))) =
    rw (e ∙ ap₂ ◌++◌ w e') (IsNamespace-one c h)

Ends-tail :
    (d : ℕ) (t : Str)
    → All (λ c. alnum_dash c ≡ true) (d ∷ t)
    → Ends (d ∷ t)
    → Language Tail (d ∷ t)
Ends-tail d [] a h = both [] (d ∷ []) refl (end refl) (byte d h refl)
Ends-tail d (x ∷ t) a h = longer d (Ends-tail x t a.1 h) a.0
  where
    longer : {s : Str} (d : ℕ) → Language Tail s → alnum_dash d ≡ true → Language Tail (d ∷ s)
    longer d (both u v e dm dl) k =
        both (d ∷ u) v (ap (λ x. d ∷ x) e) (more d [] u refl (byte d k refl) dm) dl

IsNamespace-complete : (s : Str) → IsNamespace s → Language namespace_regex s
unfolding namespace_regex
IsNamespace-complete [] h = absurd h.starts
IsNamespace-complete (c ∷ []) h = both (c ∷ []) [] refl (byte c h.starts refl) (right (empty refl))
IsNamespace-complete (c ∷ d ∷ t) h =
    both (c ∷ []) (d ∷ t) refl (byte c h.starts refl) (left (Ends-tail d t h.bytes.1 h.ends))

is_valid_namespace_lem : (s : Str) → is_valid_namespace s ≡ match_regex namespace_regex s
unfolding is_valid_namespace
is_valid_namespace_lem s = refl

-- A text is a valid namespace exactly if it has at least one byte, is made of lower-case letters,
-- digits and dashes, and begins and ends with no dash.
pub is_valid_namespace_iff : (s : Str) → (is_valid_namespace s ≡ true) ↔ IsNamespace s
is_valid_namespace_iff s = rw (is_valid_namespace_lem s) (
  λ e. IsNamespace-sound s ((match_regex_iff namespace_regex s).0 e),
  λ h. (match_regex_iff namespace_regex s).1 (IsNamespace-complete s h),
)

valid_or_default :
    (ns : Str)
    → is_valid_namespace (if not (is_valid_namespace ns) then codes "default" else ns) ≡ true
valid_or_default ns = elim (Bool-cases (is_valid_namespace ns)) [
  | inl e ↦ rw e e
  | inr e ↦ rw e (unfold is_valid_namespace in refl)
]

resolve_lem :
    (s : Str)
    → resolve_namespace s ≡ (
        if not (is_valid_namespace (if is_empty s then codes "default" else s))
        then codes "default"
        else if is_empty s
        then codes "default"
        else s)
unfolding resolve_namespace
resolve_lem s = refl

keeps : (s : Str) → IsNamespace s → resolve_namespace s ≡ s
keeps [] h = absurd h.starts
keeps (c ∷ s) h = rw (resolve_lem (c ∷ s), (is_valid_namespace_iff (c ∷ s)).1 h) refl

replaces : (s : Str) → ¬ IsNamespace s → resolve_namespace s ≡ codes "default"
replaces [] n = rw (resolve_lem []) (ground arith)
replaces (c ∷ s) n =
    rw
      (
        resolve_lem (c ∷ s),
        not_true→false (is_valid_namespace (c ∷ s)) (λ e. n ((is_valid_namespace_iff (c ∷ s)).0 e)),
      )
      refl

not-IsNamespace : (s : Str) → is_valid_namespace s ≡ false → ¬ IsNamespace s
not-IsNamespace s e h = let valid = (is_valid_namespace_iff s).1 h in cc

-- Whatever the configuration says, the namespace in use is valid; a valid one is kept, and any
-- other becomes `default`.
pub resolve_namespace_lem :
    (s : Str)
    → IsNamespace (resolve_namespace s)
      × ((IsNamespace s × (resolve_namespace s ≡ s))
          ⊎ ((¬ IsNamespace s) × (resolve_namespace s ≡ codes "default")))
resolve_namespace_lem s = (
  (is_valid_namespace_iff (resolve_namespace s)).0
      (rw (resolve_lem s) (valid_or_default (if is_empty s then codes "default" else s))),
  elim (Bool-cases (is_valid_namespace s)) [
    | inl e ↦ let h = (is_valid_namespace_iff s).0 e in inl (h, keeps s h)
    | inr e ↦ let n = not-IsNamespace s e in inr (n, replaces s n)
  ],
)

no_dots : (s : Str) → All (λ c. alnum_dash c ≡ true) s → Lacks dot s
no_dots [] h = tt
no_dots (c ∷ s) h = (λ e. ground arith, no_dots s h.1)

pub IsNamespace-IsWord : (s : Str) → IsNamespace s → IsWord s
IsNamespace-IsWord s h = record {
  no_dot = no_dots s h.bytes;
  not_hash = λ e. let first : Starts hash = rw e at h.starts in cc;
  not_star = λ e. let first : Starts star = rw e at h.starts in cc;
}

-- Two services with valid namespaces share no topic of their components: a subscription of one
-- component receives a topic exactly if namespace and component are its own. The components are
-- single words, as `job`, `event` and `cron` are.
pub namespaces_isolated :
    (n c n' c' name : Str)
    → IsNamespace n
    → IsNamespace n'
    → IsWord c
    → Lacks dot c'
    → (match_topic (build_wildcard_topic n c) (build_topic n' c' name) ≡ true)
      ↔ ((n ≡ n') × (c ≡ c'))
namespaces_isolated n c n' c' name h h' w l =
    match-wildcard_iff n c n' c' name (IsNamespace-IsWord n h) w (no_dots n' h'.bytes) l
