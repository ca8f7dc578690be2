-- ===== src/Mq/Chain.antt =====
-- jobs_impl.go and the other users of the loop: chains of middlewares as compositions.
use taskbus.Prelude.{ℕ, zero, suc, List, [], ◌∷◌, ◌++◌, ◌≡◌, refl, length}
use taskbus.Mq.{apply_at, wrap_from, wrap}

module _ {ℓ} {H : Type ℓ} where
  wrap_from-cons :
      (n : ℕ) (m : H → H) (ms : List (H → H)) (h : H)
      → wrap_from (suc n) (m ∷ ms) h ≡ m (wrap_from n ms h)
  unfolding wrap_from apply_at
  wrap_from-cons zero m ms h = refl
  wrap_from-cons (suc n) m ms h = wrap_from-cons n m ms (apply_at ms n h)

  pub wrap-nil : (h : H) → wrap [] h ≡ h
  unfolding wrap
  wrap-nil h = refl

  -- The first middleware sees the message first: it gets the rest of the chain as `next`.
  pub wrap-cons : (m : H → H) (ms : List (H → H)) (h : H) → wrap (m ∷ ms) h ≡ m (wrap ms h)
  wrap-cons m ms h = unfold wrap in wrap_from-cons (length ms) m ms h

  -- A chain of two lists of middlewares is the chain of the first round the chain of the second.
  pub wrap-append : (ms ns : List (H → H)) (h : H) → wrap (ms ++ ns) h ≡ wrap ms (wrap ns h)
  wrap-append [] ns h = rw wrap-nil
  wrap-append (m ∷ ms) ns h = simp (wrap-cons, wrap-append ms ns)
