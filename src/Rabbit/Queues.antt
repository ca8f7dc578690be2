-- ===== src/Rabbit/Queues.antt =====
-- rabbitmq_adapter.go: sanitizeQueueName, and the names of queues in Consume.
use taskbus.Prelude.{
  ℕ, Str, codes, [], ◌∷◌, ◌++◌, append-nil, false, ◌≡◌, ◌≢◌, ◌∙◌, refl, ap, arith, All, is_empty,
  if◌then◌else◌, Bool-cases, inl, inr,
}
use taskbus.Rabbit.{forbidden, allowed_part, sanitize_queue_name, queue_name}

abbrev pub IsAllowed : ℕ → Type 0
IsAllowed c = forbidden c ≡ false

allowed_cons :
    (c : ℕ) (s : Str)
    → allowed_part (c ∷ s) ≡ (if forbidden c then allowed_part s else c ∷ allowed_part s)
unfolding allowed_part
allowed_cons c s = refl

allowed_part-IsAllowed : (s : Str) → All IsAllowed (allowed_part s)
allowed_part-IsAllowed [] = unfold allowed_part in tt
allowed_part-IsAllowed (c ∷ s) = elim (Bool-cases (forbidden c)) [
  | inl e ↦ rw (allowed_cons c s, e) (allowed_part-IsAllowed s)
  | inr e ↦ rw (allowed_cons c s, e) (e, allowed_part-IsAllowed s)
]

allowed_part-append : (s t : Str) → allowed_part (s ++ t) ≡ allowed_part s ++ allowed_part t
allowed_part-append [] t = unfold allowed_part in refl
allowed_part-append (c ∷ s) t = elim (Bool-cases (forbidden c)) [
  | inl e ↦ rw (allowed_cons c (s ++ t), allowed_cons c s, e) (allowed_part-append s t)
  | inr e ↦
      rw (allowed_cons c (s ++ t), allowed_cons c s, e) (ap (λ r. c ∷ r) (allowed_part-append s t))
]

sanitized : (s : Str) → (sanitize_queue_name s ≢ []) × All IsAllowed (sanitize_queue_name s)
unfolding sanitize_queue_name
sanitized s = named (allowed_part s) (allowed_part-IsAllowed s)
  where
    named :
        (out : Str)
        → All IsAllowed out
        → ((if is_empty out then codes "q" else out) ≢ [])
          × All IsAllowed (if is_empty out then codes "q" else out)
    named [] a = ground arith
    named (c ∷ out) a = ((λ e. cc), a)

sanitize-append :
    (s t : Str) → allowed_part t ≡ [] → sanitize_queue_name (s ++ t) ≡ sanitize_queue_name s
unfolding sanitize_queue_name
sanitize-append s t e =
    ap (λ out. if is_empty out then codes "q" else out)
      (allowed_part-append s t ∙ ap (λ r. allowed_part s ++ r) e ∙ append-nil (allowed_part s))

-- Queue names are not empty and have no forbidden byte, but topics that differ in their wildcards
-- share a name: the patterns `s#`, `s*` and `s` of one group have one queue, which is then bound
-- with the keys of all of them.
pub queue_names_collide :
    (s group : Str)
    → (sanitize_queue_name s ≢ [])
      × All IsAllowed (sanitize_queue_name s)
      × (queue_name (s ++ codes "#") group ≡ queue_name s group)
      × (queue_name (s ++ codes "*") group ≡ queue_name s group)
unfolding queue_name allowed_part
queue_names_collide s group = (
  (sanitized s).0,
  (sanitized s).1,
  ap (λ n. n ++ b'-' ∷ sanitize_queue_name group) (sanitize-append s (codes "#") refl),
  ap (λ n. n ++ b'-' ∷ sanitize_queue_name group) (sanitize-append s (codes "*") refl),
)
