-- ===== src/Examples/Topics.antt =====
-- Topics, namespaces and middleware chains at concrete inputs.
use taskbus.Prelude.{ℕ, suc, Str, codes, ◌+◌, ◌≡◌, ◌↔◌, refl, true, arith}
use taskbus.Topic.{dot, split, build_topic, build_wildcard_topic, match_topic}
use taskbus.Topic.Tokens.{Matches}
use taskbus.Topic.Matching.{match_topic_iff}
use taskbus.Topic.Isolation.{IsWord}
use taskbus.Config.Namespace.{IsNamespace, namespaces_isolated}

abbrev pattern : Str
pattern = codes "orders.*.#"

abbrev full : Str
full = codes "orders.eu.created"

match_topic_iff_example :
    (match_topic pattern full ≡ true) ↔ Matches (split dot pattern) (split dot full)
match_topic_iff_example = match_topic_iff pattern full (ground arith) (ground arith)

match_topic_samples :
    (match_topic pattern full ≡ true)
    × (match_topic (codes "taskbus.#.job") (codes "taskbus.job") ≡ true)
unfolding match_topic
match_topic_samples = (refl, refl)

abbrev shop : Str
shop = codes "shop"

abbrev job : Str
job = codes "job"

shop-IsWord : IsWord shop
shop-IsWord = record { no_dot = ground arith; not_hash = ground arith; not_star = ground arith }

job-IsWord : IsWord job
job-IsWord = record { no_dot = ground arith; not_hash = ground arith; not_star = ground arith }

shop-IsNamespace : IsNamespace shop
shop-IsNamespace = record { bytes = (refl, (refl, (refl, (refl, tt)))); starts = refl; ends = refl }

namespaces_isolated_example :
    (match_topic (build_wildcard_topic shop job) (build_topic shop job (codes "x")) ≡ true)
    ↔ ((shop ≡ shop) × (job ≡ job))
namespaces_isolated_example =
    namespaces_isolated shop job shop job (codes "x") shop-IsNamespace shop-IsNamespace job-IsWord
      (ground arith)

abbrev add_one : ℕ → ℕ
add_one n = suc n

abbrev double : ℕ → ℕ
double n = n + n
