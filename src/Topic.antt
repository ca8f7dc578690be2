-- ===== src/Topic.antt =====
-- util.go: the names of topics, and the matcher that follows RabbitMQ's topic rules.
-- `strings.Split` and `strings.ContainsAny` are written here, for the separators that are used.
pub mod Names
pub mod Split
pub mod Tokens
pub mod Matching
pub mod Isolation
use taskbus.Prelude.{
  ℕ, Str, codes, List, [], ◌∷◌, ◌++◌, Bool, true, false, not, ◌&&◌, ◌||◌, ◌==◌, length, drop,
  is_empty, str_eq, has_prefix, if◌then◌else◌,
}

abbrev pub dot : ℕ
dot = b'.'

abbrev pub star : Str
star = codes "*"

abbrev pub hash : Str
hash = codes "#"

pub trim_topic_prefix : Str → Str → Str
trim_topic_prefix topic prefix =
    if has_prefix topic prefix then drop (length prefix) topic else topic

abbrev pub root : Str
root = codes "taskbus."

unfoldable pub build_topic_prefix : Str → Str → Str
build_topic_prefix namespace component = root ++ (namespace ++ (dot ∷ (component ++ (dot ∷ []))))

unfoldable pub build_topic : Str → Str → Str → Str
unfolding build_topic_prefix
build_topic namespace component name = build_topic_prefix namespace component ++ name

unfoldable pub build_wildcard_topic : Str → Str → Str
unfolding build_topic_prefix
build_wildcard_topic namespace component = build_topic_prefix namespace component ++ hash

-- What `cur` gains when the byte `c` is put before the first part.
abbrev pub cons_head : ℕ → List Str → List Str
cons_head c [] = (c ∷ []) ∷ []
cons_head c (p ∷ ps) = (c ∷ p) ∷ ps

-- strings.Split(s, sep) at a separator of one byte
unfoldable pub split : ℕ → Str → List Str
split sep [] = [] ∷ []
split sep (c ∷ s) = let rest = split sep s in if c == sep then [] ∷ rest else cons_head c rest

-- strings.ContainsAny(pattern, "*#")
unfoldable pub has_wildcard : Str → Bool
has_wildcard [] = false
has_wildcard (c ∷ s) = (c == b'*' || c == b'#') || has_wildcard s

-- The loop over `topic[i:]`, from `i = 0` on.
pub any_suffix : (List Str → Bool) → List Str → Bool
any_suffix accept [] = accept []
any_suffix accept (t ∷ ts) = if accept (t ∷ ts) then true else any_suffix accept ts

-- The branch `*`: any one word.
abbrev one_word : (List Str → Bool) → List Str → Bool
one_word accept [] = false
one_word accept (t ∷ ts) = accept ts

-- The default branch: the word itself.
abbrev same_word : (List Str → Bool) → Str → List Str → Bool
same_word accept p [] = false
same_word accept p (t ∷ ts) = if not (str_eq p t) then false else accept ts

pub match_topic_tokens : List Str → List Str → Bool
unfolding any_suffix
match_topic_tokens [] topic = is_empty topic
match_topic_tokens (p ∷ ps) topic =
    let rest = match_topic_tokens ps in
    if str_eq p hash
    then (if is_empty ps then true else any_suffix rest topic)
    else if str_eq p star
    then one_word rest topic
    else same_word rest p topic

unfoldable pub match_topic : Str → Str → Bool
unfolding match_topic_tokens str_eq split has_wildcard
match_topic pattern topic =
    if str_eq pattern topic
    then true
    else if is_empty pattern || is_empty topic
    then str_eq pattern topic
    else if not (has_wildcard pattern)
    then false
    else match_topic_tokens (split dot pattern) (split dot topic)
