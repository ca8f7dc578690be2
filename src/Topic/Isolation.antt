-- ===== src/Topic/Isolation.antt =====
-- util.go: matchTopic on the wildcards and the topics of namespaces and components.
use taskbus.Prelude.{
  Str, codes, List, [], ◌∷◌, ◌++◌, ◌≡◌, ◌≢◌, ◌↔◌, refl, ap, true, arith, Lacks, append_assoc,
  ◌≡⟨◌⟩◌, ◌∎,
}
use taskbus.Topic.{dot, star, hash, split, build_topic, build_wildcard_topic, match_topic}
use taskbus.Topic.Split.{split-part, split-append}
use taskbus.Topic.Tokens.{Matches, Matches-same, Matches-word, Matches-all}
use taskbus.Topic.Matching.{match_topic_iff}

-- A single word that is no wildcard, as every valid namespace is.
pub record IsWord (w : Str) : Type 0 where
  pub no_dot : Lacks dot w
  pub not_hash : w ≢ hash
  pub not_star : w ≢ star

abbrev first : Str
first = codes "taskbus"

-- The text before the last dot of a prefix.
abbrev stem : Str → Str → Str
stem namespace component = first ++ dot ∷ (namespace ++ dot ∷ component)

topic-stem : (n c name : Str) → build_topic n c name ≡ stem n c ++ dot ∷ name
unfolding build_topic
topic-stem n c name = simp append_assoc

pub wildcard-topic : (n c : Str) → build_wildcard_topic n c ≡ build_topic n c hash
unfolding build_wildcard_topic build_topic
wildcard-topic n c = refl

topic-ne-nil : (n c name : Str) → build_topic n c name ≢ []
topic-ne-nil n c name = rw (topic-stem n c name) (ground arith)

-- The words of a topic.
pub split-build_topic :
    (n c name : Str)
    → Lacks dot n
    → Lacks dot c
    → split dot (build_topic n c name) ≡ first ∷ n ∷ c ∷ split dot name
split-build_topic n c name ln lc = rw (topic-stem n c name) (
    simp append_assoc (
      split dot (first ++ dot ∷ (n ++ dot ∷ (c ++ dot ∷ name)))
      ≡⟨ split-part dot first _ (ground arith) ⟩ first ∷ split dot (n ++ dot ∷ (c ++ dot ∷ name))
      ≡⟨ ap (λ x. first ∷ x) (split-part dot n _ ln) ⟩ first ∷ n ∷ split dot (c ++ dot ∷ name)
      ≡⟨ ap (λ x. first ∷ n ∷ x) (split-part dot c name lc) ⟩ first ∷ n ∷ c ∷ split dot name ∎))

Matches-append_hash : (ps ts : List Str) → Matches (ps ++ hash ∷ []) (ps ++ ts)
Matches-append_hash [] ts = Matches-all refl ts
Matches-append_hash (p ∷ ps) ts = Matches-same p (Matches-append_hash ps ts)

split-stem :
    (n c name : Str) → split dot (build_topic n c name) ≡ split dot (stem n c) ++ split dot name
split-stem n c name = rw (topic-stem n c name) (split-append dot (stem n c) name)

split-hash : split dot hash ≡ hash ∷ []
unfolding split
split-hash = refl

receives_iff :
    (n c n' c' name : Str)
    → (match_topic (build_wildcard_topic n c) (build_topic n' c' name) ≡ true)
      ↔ Matches (split dot (build_topic n c hash)) (split dot (build_topic n' c' name))
receives_iff n c n' c' name = rw (wildcard-topic n c) (
    match_topic_iff (build_topic n c hash) (build_topic n' c' name) (topic-ne-nil n c hash)
      (topic-ne-nil n' c' name))

-- The subscription of a component receives every topic that the component builds.
pub match-wildcard :
    (n c name : Str) → match_topic (build_wildcard_topic n c) (build_topic n c name) ≡ true
match-wildcard n c name = (receives_iff n c n c name).1 (
    rw (split-stem n c hash, split-stem n c name, split-hash)
      (Matches-append_hash (split dot (stem n c)) (split dot name)))

wildcard_same :
    {n c n' c' : Str} {ps ts : List Str}
    → IsWord n
    → IsWord c
    → Matches (first ∷ n ∷ c ∷ ps) (first ∷ n' ∷ c' ∷ ts)
    → (n ≡ n') × (c ≡ c')
wildcard_same wn wc d =
    let (_, d1) = Matches-word {p = first} (λ e. ground arith) (λ e. ground arith) d in
    let (en, d2) = Matches-word wn.not_hash wn.not_star d1 in
    let (ec, _) = Matches-word wc.not_hash wc.not_star d2 in (en, ec)

-- A subscription receives the topics of its own namespace and component, and of no other.
pub match-wildcard_iff :
    (n c n' c' name : Str)
    → IsWord n
    → IsWord c
    → Lacks dot n'
    → Lacks dot c'
    → (match_topic (build_wildcard_topic n c) (build_topic n' c' name) ≡ true)
      ↔ ((n ≡ n') × (c ≡ c'))
match-wildcard_iff n c n' c' name wn wc ln lc = (
  λ e. wildcard_same wn wc (
      rw (split-build_topic n c hash wn.no_dot wc.no_dot, split-build_topic n' c' name ln lc) at
        ((receives_iff n c n' c' name).0 e)),
  λ (same, also). rw (same, also) (match-wildcard n' c' name),
)
