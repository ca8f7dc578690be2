-- ===== src/Jobs/Workers.antt =====
-- jobs_impl.go: StartWorkers. It starts the consumers of each group in turn, on the topic that
-- takes every job, and stops what it started when one of them fails.
use taskbus.Prelude.{
  ℕ, ◌+◌, ◌-◌, ℤ, pos, negsuc, Str, GoMap, List, [], ◌∷◌, Exec, pure, ◌>>=◌, ◌≡◌, refl, sym, arith,
  subst, All, length,
}
use taskbus.Topic.{build_wildcard_topic}
use taskbus.Mq.{Result, ok, err, Context, Handler, Stop, Mq, JobMiddleware}
use taskbus.Mq.Consumers.{
  consume_n, stop_all, IsStop, Counts, Started, live-stop_all, consume_n-Started,
}
use taskbus.Config.{Client}
use taskbus.Jobs.{JobWorld, JobMethods, job_component, build_handler}
use taskbus.Jobs.Groups.{normalize_groups}

-- The rounds of a loop up to an int.
abbrev pub rounds : ℤ → ℕ
rounds (pos n) = n
rounds (negsuc n) = 0

pub total : GoMap ℤ → ℕ
total [] = 0
total ((group, size) ∷ groups) = rounds size + total groups

module _ {W : Type 0} where
  -- The stops so far go on to the next group; an error returns.
  next_group :
      (List (Stop W) → Exec W (Result (List (Stop W))))
      → Result (List (Stop W))
      → Exec W (Result (List (Stop W)))
  next_group next (ok stops) = next stops
  next_group next (err e) = pure (err e)

  consume_groups :
      Mq W → Context → Str → Handler W → GoMap ℤ → List (Stop W) → Exec W (Result (List (Stop W)))
  unfolding next_group
  consume_groups mq ctx topic h [] stops = pure (ok stops)
  consume_groups mq ctx topic h ((group, size) ∷ groups) stops = do
    r ← consume_n mq ctx topic group h (rounds size) stops
    next_group (consume_groups mq ctx topic h groups) r

  -- The function that stops them all.
  unfoldable pub stop_function : Result (List (Stop W)) → Result (Stop W)
  stop_function (ok stops) = ok (stop_all stops)
  stop_function (err e) = err e

  abbrev pub Running : (W → ℕ) → ℕ → ℕ → Result (Stop W) × W → Type 0
  Running live base n (ok s, w) =
      (live w ≡ base + n) × ((ctx : Context) (w' : W) → live (s ctx w').1 ≡ live w' - n)
  Running live base n (err e, w) = live w ≡ base

  module _ (live : W → ℕ) (mq : Mq W) (counts : Counts mq live) (ctx : Context) (topic : Str)
      (h : Handler W) where
    after_group :
        (groups : GoMap ℤ) (n base k : ℕ) (r : Result (List (Stop W)) × W)
        → ((stops' : List (Stop W)) (w' : W)
            → All (IsStop live) stops'
            → live w' ≡ base + length stops'
            → Started live base
                (length stops' + n)
                (consume_groups mq ctx topic h groups stops' w'))
        → Started live base k r
        → Started live base (k + n) (next_group (consume_groups mq ctx topic h groups) r.0 r.1)
    unfolding next_group
    after_group groups n base k (ok stops, w) ih (l, hw, hs) =
        subst (λ i. Started live base (i + n) (consume_groups mq ctx topic h groups stops w)) l
          (ih stops w hs (omega (arith, hw, l)))
    after_group groups n base k (err e, w) ih s = s

    groups_lem :
        (group : Str) (size : ℤ) (groups : GoMap ℤ) (stops : List (Stop W)) (w : W)
        → consume_groups mq ctx topic h ((group, size) ∷ groups) stops w ≡ (
            let r = consume_n mq ctx topic group h (rounds size) stops w in
            next_group (consume_groups mq ctx topic h groups) r.0 r.1)
    unfolding consume_groups
    groups_lem group size groups stops w = refl

    total_cons :
        (group : Str) (size : ℤ) (groups : GoMap ℤ)
        → total ((group, size) ∷ groups) ≡ rounds size + total groups
    unfolding total
    total_cons group size groups = refl

    consume_groups-Started :
        (base : ℕ) (groups : GoMap ℤ) (stops : List (Stop W)) (w : W)
        → All (IsStop live) stops
        → live w ≡ base + length stops
        → Started live base
            (length stops + total groups)
            (consume_groups mq ctx topic h groups stops w)
    consume_groups-Started base [] stops w hs hw =
        unfold consume_groups total in (omega arith, omega arith, hs)
    consume_groups-Started base ((group, size) ∷ groups) stops w hs hw =
        let r = consume_n mq ctx topic group h (rounds size) stops w in
        subst
          (λ k.
            Started live base k (consume_groups mq ctx topic h ((group, size) ∷ groups) stops w))
          (omega (arith, total_cons group size groups))
          (subst (Started live base (length stops + rounds size + total groups))
            (sym (groups_lem group size groups stops w))
            (after_group groups (total groups) base (length stops + rounds size) r
              (consume_groups-Started base groups)
              (consume_n-Started live mq counts ctx topic group h (rounds size) base stops w hs
                hw)))

  pub stop_function-Running :
      (live : W → ℕ) (base n : ℕ) (r : Result (List (Stop W)) × W)
      → Started live base n r
      → Running live base n (stop_function r.0, r.1)
  unfolding stop_function
  stop_function-Running live base n (ok stops, w) (l, hw, hs) =
      (hw, λ ctx w'. omega (arith, live-stop_all live stops ctx w' hs, l))
  stop_function-Running live base n (err e, w) s = s

module _ {Job E F : Type 0} (methods : JobMethods Job E) (c : Client F (JobWorld Job E)) where
  unfoldable pub start_workers :
      Context
      → GoMap ℤ
      → List (JobMiddleware (JobWorld Job E))
      → Exec (JobWorld Job E) (Result (Stop (JobWorld Job E)))
  unfolding consume_groups stop_function
  start_workers ctx groups mws = do
    r ←
        consume_groups c.mq ctx (build_wildcard_topic c.namespace job_component)
          (build_handler methods c mws) (normalize_groups c groups) []
    pure (stop_function r)

  -- A queue whose every call of Consume adds one consumer that its stop ends, or returns an error:
  -- StartWorkers starts as many consumers as the resolved groups ask for, and the function it
  -- returns ends them, or it returns the error with no more running than before.
  pub start_workers-Running :
      (live : JobWorld Job E → ℕ) (ctx : Context) (groups : GoMap ℤ)
      (mws : List (JobMiddleware (JobWorld Job E))) (w : JobWorld Job E)
      → Counts c.mq live
      → Running live (live w) (total (normalize_groups c groups)) (start_workers ctx groups mws w)
  unfolding start_workers
  start_workers-Running live ctx groups mws w counts =
      let base = live w in
      let topic = build_wildcard_topic c.namespace job_component in
      let h = build_handler methods c mws in
      let resolved = normalize_groups c groups in
      stop_function-Running live base (total resolved)
        (consume_groups c.mq ctx topic h resolved [] w)
        (subst (λ k. Started live base k (consume_groups c.mq ctx topic h resolved [] w))
          (omega arith)
          (consume_groups-Started live c.mq counts ctx topic h base resolved [] w tt (omega arith)))
