-- ===== src/Cron/Election/Tokens.antt =====
-- cron_dist.go: the token of an attempt to lead. Cron/Lock names attempts by numbers, since two
-- attempts have one token only where host, process and nanosecond are the same.
use taskbus.Prelude.{
  ℕ, ◌≤◌, ℤ, pos, Str, [], ◌∷◌, ◌++◌, Option, some, ◌≡◌, ◌∙◌, refl, sym, ap, ap₂, subst,
  append_assoc, Lacks, itoa, atoi, atoi-itoa, itoa-Lacks, max_int,
}
use taskbus.Cron.Election.{leader_id, host_or_unknown}

-- A byte in a text that lacks it.
in_middle : (b : ℕ) (s t : Str) → ¬ Lacks b (s ++ b ∷ t)
in_middle b [] t h = h.0 refl
in_middle b (c ∷ s) t h = in_middle b s t h.1

-- Two texts that are joined by a byte are read off the end, where the second lacks it.
last_part :
    (b : ℕ) (s s' t t' : Str)
    → Lacks b t
    → Lacks b t'
    → s ++ b ∷ t ≡ s' ++ b ∷ t'
    → (s ≡ s') × (t ≡ t')
last_part b [] [] t t' h h' e = (refl, cc)
last_part b [] (c ∷ s') t t' h h' e =
    absurd (in_middle b s' t' (subst (Lacks b) (let tail : t ≡ s' ++ b ∷ t' = cc in tail) h))
last_part b (c ∷ s) [] t t' h h' e =
    absurd (in_middle b s t (subst (Lacks b) (let tail : t' ≡ s ++ b ∷ t = cc in tail) h'))
last_part b (c ∷ s) (c' ∷ s') t t' h h' e =
    let (es, et) = last_part b s s' t t' h h' (cc) in (ap₂ (λ x y. x ∷ y) (cc) es, et)

itoa-eq : (m n : ℕ) → m ≤ max_int → n ≤ max_int → itoa (pos m) ≡ itoa (pos n) → m ≡ n
itoa-eq m n p q e =
    let same : ◌≡◌ {A = Option ℤ} (some (pos m)) (some (pos n)) =
      sym (atoi-itoa (pos m) p) ∙ ap atoi e ∙ atoi-itoa (pos n) q in
    cc

leader_id_lem :
    (host : Option Str) (pid nano : ℕ)
    → leader_id host pid (pos nano)
      ≡ (host_or_unknown host ++ b'-' ∷ itoa (pos pid)) ++ b'-' ∷ itoa (pos nano)
unfolding leader_id
leader_id_lem host pid nano =
    sym (append_assoc (host_or_unknown host) (b'-' ∷ itoa (pos pid)) (b'-' ∷ itoa (pos nano)))

-- Attempts have one token only where the name of the host, the process and the nanosecond are the
-- same, whatever dashes and digits the name has. Both numbers are those of Go's int and int64.
pub leader_id-injective :
    (host host' : Option Str) (pid pid' nano nano' : ℕ)
    → pid ≤ max_int
    → pid' ≤ max_int
    → nano ≤ max_int
    → nano' ≤ max_int
    → leader_id host pid (pos nano) ≡ leader_id host' pid' (pos nano')
    → (host_or_unknown host ≡ host_or_unknown host') × (pid ≡ pid') × (nano ≡ nano')
leader_id-injective host host' pid pid' nano nano' p p' q q' e =
    let whole = sym (leader_id_lem host pid nano) ∙ e ∙ leader_id_lem host' pid' nano' in
    let (front, last) = last_part b'-' _ _ _ _ (itoa-Lacks nano) (itoa-Lacks nano') whole in
    let (name, process) = last_part b'-' _ _ _ _ (itoa-Lacks pid) (itoa-Lacks pid') front in
    (name, itoa-eq pid pid' p p' process, itoa-eq nano nano' q q' last)
