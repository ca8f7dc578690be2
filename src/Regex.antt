-- ===== src/Regex.antt =====
-- Regular expressions, as client.go uses Go's package regexp: a pattern that is anchored at both
-- ends is matched against a whole text, here by derivatives.
pub mod Language
use taskbus.Prelude.{ℕ, Str, List, [], ◌∷◌, Bool, true, false, ◌&&◌, ◌||◌, if◌then◌else◌}

pub data Regex : Type 0 where
  nothing : Regex
  blank : Regex
  class : (ℕ → Bool) → Regex
  seq : Regex → Regex → Regex
  alt : Regex → Regex → Regex
  many : Regex → Regex

pub nullable : Regex → Bool
nullable nothing = false
nullable blank = true
nullable (class p) = false
nullable (seq r q) = nullable r && nullable q
nullable (alt r q) = nullable r || nullable q
nullable (many r) = true

-- What may follow the byte `c`.
pub derivative : ℕ → Regex → Regex
derivative c nothing = nothing
derivative c blank = nothing
derivative c (class p) = if p c then blank else nothing
derivative c (seq r q) =
    alt (seq (derivative c r) q) (if nullable r then derivative c q else nothing)
derivative c (alt r q) = alt (derivative c r) (derivative c q)
derivative c (many r) = seq (derivative c r) (many r)

unfoldable pub match_regex : Regex → Str → Bool
unfolding nullable derivative
match_regex r [] = nullable r
match_regex r (c ∷ s) = match_regex (derivative c r) s
