-- ===== src/Prelude/Effects.antt =====
-- Code with effects: an action reads the world and returns a value with the world that it leaves.
-- What was done before an error stays done.

abbrev pub Exec : Type 0 → Type 0 → Type 0
Exec W A = W → A × W

module _ {W A : Type 0} where
  abbrev pub pure : A → Exec W A
  pure a w = (a, w)

module _ {W A B : Type 0} where
  infixl 5 ◌>>=◌ ◌>>◌
  abbrev pub ◌>>=◌ : Exec W A → (A → Exec W B) → Exec W B
  ◌>>=◌ m f w = let (a, w') = m w in f a w'

  abbrev pub ◌>>◌ : Exec W A → Exec W B → Exec W B
  m >> n = m >>= λ _. n
