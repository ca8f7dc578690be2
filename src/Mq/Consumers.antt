-- ===== src/Mq/Consumers.antt =====
-- jobs_impl.go and eventbus_impl.go: the loop that starts several consumers on one topic, and stops
-- them when one fails.
use taskbus.Prelude.{
  ℕ, zero, suc, ◌+◌, ◌-◌, Str, List, [], ◌∷◌, ◌++◌, none, Exec, pure, ◌>>=◌, ◌>>◌, ◌≡◌, arith,
  subst, All, All-append, length, length-append,
}
use taskbus.Mq.{GoError, Result, ok, err, Context, Handler, Stop, Mq}

module _ {W : Type 0} where
  -- The loop over `stops`; the errors are dropped.
  unfoldable pub stop_all : List (Stop W) → Context → Exec W GoError
  stop_all [] ctx = pure none
  stop_all (s ∷ stops) ctx = do s ctx; stop_all stops ctx

  -- What a call of Consume leads to, in the loop that goes on with `next`.
  pub continue_with :
      Context
      → List (Stop W)
      → (List (Stop W) → Exec W (Result (List (Stop W))))
      → Result (Stop W)
      → Exec W (Result (List (Stop W)))
  continue_with ctx stops next (ok s) = next (stops ++ s ∷ [])
  continue_with ctx stops next (err e) = do stop_all stops ctx; pure (err e)

  -- `n` calls of Consume are left.
  unfoldable pub consume_n :
      Mq W → Context → Str → Str → Handler W → ℕ → List (Stop W) → Exec W (Result (List (Stop W)))
  unfolding continue_with stop_all
  consume_n mq ctx topic group h zero stops = pure (ok stops)
  consume_n mq ctx topic group h (suc n) stops = do
    r ← mq.consume ctx topic group h []
    continue_with ctx stops (consume_n mq ctx topic group h n) r

  -- `live` counts the running consumers.
  abbrev pub IsStop : (W → ℕ) → Stop W → Type 0
  IsStop live s = (ctx : Context) (w : W) → live (s ctx w).1 ≡ live w - 1

  -- What a queue promises of Consume: one more consumer, which its `stop` ends, or an error and
  -- no more than before.
  abbrev pub Consumed : (W → ℕ) → W → Result (Stop W) × W → Type 0
  Consumed live w (ok s, w') = (live w' ≡ live w + 1) × IsStop live s
  Consumed live w (err e, w') = live w' ≡ live w

  pub record Counts (mq : Mq W) (live : W → ℕ) : Type 0 where
    pub consume :
        (ctx : Context) (topic group : Str) (h : Handler W) (w : W)
        → Consumed live w (mq.consume ctx topic group h [] w)

  -- The result of starting `n` consumers in a world where `base` run besides `stops`.
  abbrev pub Started : (W → ℕ) → ℕ → ℕ → Result (List (Stop W)) × W → Type 0
  Started live base n (ok stops, w) =
      (length stops ≡ n) × (live w ≡ base + n) × All (IsStop live) stops
  Started live base n (err e, w) = live w ≡ base

  module _ (live : W → ℕ) where
    pub live-stop_all :
        (stops : List (Stop W)) (ctx : Context) (w : W)
        → All (IsStop live) stops
        → live (stop_all stops ctx w).1 ≡ live w - length stops
    unfolding stop_all
    live-stop_all [] ctx w h = omega arith
    live-stop_all (s ∷ stops) ctx w h =
        omega (arith, h.0 ctx w, live-stop_all stops ctx (s ctx w).1 h.1)

    module _ (mq : Mq W) (counts : Counts mq live) (ctx : Context) (topic group : Str)
        (h : Handler W) where
      abbrev consumers : ℕ → List (Stop W) → Exec W (Result (List (Stop W)))
      consumers = consume_n mq ctx topic group h

      continued :
          (n base : ℕ) (stops : List (Stop W)) (w : W) (r : Result (Stop W) × W)
          → ((stops' : List (Stop W)) (w' : W)
              → All (IsStop live) stops'
              → live w' ≡ base + length stops'
              → Started live base (length stops' + n) (consumers n stops' w'))
          → All (IsStop live) stops
          → live w ≡ base + length stops
          → Consumed live w r
          → Started live base (length stops + suc n) (continue_with ctx stops (consumers n) r.0 r.1)
      unfolding continue_with
      continued n base stops w (ok s, w') ih hs hw c =
          subst (λ k. Started live base k (consumers n (stops ++ s ∷ []) w'))
            (omega (arith, length-append stops (s ∷ [])))
            (ih (stops ++ s ∷ []) w' (All-append (IsStop live) stops (s ∷ []) hs (c.1, tt))
              (omega (arith, length-append stops (s ∷ []), c.0)))
      continued n base stops w (err e, w') ih hs hw c =
          omega (arith, live-stop_all stops ctx w' hs, c)

      next_call :
          (n base : ℕ) (stops : List (Stop W)) (w : W)
          → Started live base (length stops + suc n) (
              continue_with ctx stops
                (consumers n)
                (mq.consume ctx topic group h [] w).0
                (mq.consume ctx topic group h [] w).1)
          → Started live base (length stops + suc n) (consumers (suc n) stops w)
      unfolding consume_n
      next_call n base stops w d = d

      pub consume_n-Started :
          (n base : ℕ) (stops : List (Stop W)) (w : W)
          → All (IsStop live) stops
          → live w ≡ base + length stops
          → Started live base (length stops + n) (consumers n stops w)
      consume_n-Started zero base stops w hs hw = unfold consume_n in (omega arith, omega arith, hs)
      consume_n-Started (suc n) base stops w hs hw = next_call n base stops w (
          continued n base stops w (mq.consume ctx topic group h [] w) (consume_n-Started n base) hs
            hw (counts.consume ctx topic group h w))
