-- ===== src/Pool/Bounds.antt =====
-- redis_adapter.go and rabbitmq_adapter.go: the semaphore and the WaitGroup of a consumer.
use taskbus.Prelude.{
  ℕ, suc, ◌+◌, ◌≤◌, ◌<◌, List, [], ◌∷◌, ◌++◌, true, ◌≡◌, refl, ap, arith, ◌∙◌, length,
  length-append, ℤ, nonpos, pos_part, if◌then◌else◌,
}
use taskbus.Pool.{
  Source, Loop, selecting, starting, waiting, finished, crashed, dispatch_rest, Pool, new_pool,
  go_to, take_token, start_worker, give_token, leave, Label, Step, turns, goes_on, gets, quits,
  breaks, takes, starts, ends, leaves, closes, Steps, here, next, is_alive, concurrency,
}

module _ {X : Type 0} where
  -- The token that the loop took for a worker that it did not start yet.
  abbrev pub reserved : Loop X → ℕ
  reserved (starting x xs) = 1
  reserved _ = 0

  abbrev pub IsFinished : Loop X → Type 0
  IsFinished finished = Unit
  IsFinished _ = ⊥

  pub reserved-rest : (xs : List X) → reserved (dispatch_rest xs) ≡ 0
  reserved-rest [] = refl
  reserved-rest (x ∷ xs) = refl

  rest-not-IsFinished : (xs : List X) → ¬ IsFinished (dispatch_rest xs)
  rest-not-IsFinished [] h = h
  rest-not-IsFinished (x ∷ xs) h = h

  pub length-split :
      (xs : List X) (x : X) (ys : List X) → length (xs ++ x ∷ ys) ≡ suc (length (xs ++ ys))
  length-split xs x ys = omega (arith, length-append xs (x ∷ ys), length-append xs ys)

  -- What holds of a consumer at any time.
  pub record IsSound {C : Type 0} (limit : ℕ) (s : Pool C X) : Type 0 where
    pub tokens : s.tokens ≡ length s.running + reserved s.loop
    pub group : s.group ≡ length s.running + s.leaving
    pub within : s.tokens ≤ limit
    pub closed : IsFinished s.loop → s.group ≡ 0

module _ {X : Type 0} (src : Source X) (limit : ℕ) where
  open src use {Control}

  new_pool-IsSound : (c : Control) → IsSound limit (new_pool {X = X} c)
  new_pool-IsSound c = record {
    tokens = refl;
    group = refl;
    within = omega arith;
    closed = λ h. refl;
  }

  -- The loop moves between places that hold no token.
  go_to-IsSound :
      {s : Pool Control X} (c : Control) (l : Loop X)
      → reserved s.loop ≡ 0
      → reserved l ≡ 0
      → (IsFinished l → s.group ≡ 0)
      → IsSound limit s
      → IsSound limit (go_to c l s)
  unfolding go_to
  go_to-IsSound c l e r f h = record {
    tokens = omega (arith, h.tokens, e, r);
    group = h.group;
    within = h.within;
    closed = f;
  }

  selecting-free : {l : Loop X} → l ≡ selecting → reserved l ≡ 0
  selecting-free e = rw e refl

  Step-IsSound :
      {l : Label X} {s t : Pool Control X}
      → Step src limit l s t
      → IsSound limit s
      → IsSound limit t
  unfolding go_to take_token start_worker give_token leave
  Step-IsSound (turns alive e) h = record {
    tokens = h.tokens;
    group = h.group;
    within = h.within;
    closed = h.closed;
  }
  Step-IsSound (goes_on {c = c} e i) h =
      go_to-IsSound c selecting (selecting-free e) refl (λ f. absurd f) h
  Step-IsSound (gets {c = c} xs e g) h =
      go_to-IsSound c (dispatch_rest xs) (selecting-free e) (reserved-rest xs)
        (λ f. absurd (rest-not-IsFinished xs f)) h
  Step-IsSound {s = s} (quits e q) h =
      go_to-IsSound s.control waiting (selecting-free e) refl (λ f. absurd f) h
  Step-IsSound {s = s} (breaks e b) h =
      go_to-IsSound s.control crashed (selecting-free e) refl (λ f. absurd f) h
  Step-IsSound {s = s} (takes x xs e lt) h = record {
    tokens = omega (arith, h.tokens, free);
    group = h.group;
    within = omega arith;
    closed = λ f. absurd f;
  }
    where
      free : reserved s.loop ≡ 0
      free = rw e refl
  Step-IsSound {s = s} (starts x xs e) h = record {
    tokens = omega (arith, h.tokens, held, reserved-rest xs);
    group = omega (arith, h.group);
    within = h.within;
    closed = λ f. absurd (rest-not-IsFinished xs f);
  }
    where
      held : reserved s.loop ≡ 1
      held = rw e refl
  Step-IsSound {s = s} (ends xs x ys alive e) h = record {
    tokens = omega (arith, h.tokens, one);
    group = omega (arith, h.group, one);
    within = omega (arith, h.within);
    closed = h.closed;
  }
    where
      one : length s.running ≡ suc (length (xs ++ ys))
      one = ap length e ∙ length-split xs x ys
  Step-IsSound (leaves alive lt) h = record {
    tokens = h.tokens;
    group = omega (arith, h.group);
    within = h.within;
    closed = λ f. omega (arith, h.closed f);
  }
  Step-IsSound {s = s} (closes e g) h = go_to-IsSound s.control finished free refl (λ f. g) h
    where
      free : reserved s.loop ≡ 0
      free = rw e refl

  pub Steps-IsSound :
      {s : Pool Control X} {trace : List (Label X)} {t : Pool Control X}
      → Steps src limit s trace t
      → IsSound limit s
      → IsSound limit t
  Steps-IsSound here h = h
  Steps-IsSound (next steps step) h = Step-IsSound step (Steps-IsSound steps h)

  pub reached-IsSound :
      {trace : List (Label X)} {c : Control} {t : Pool Control X}
      → Steps src limit (new_pool c) trace t
      → IsSound limit t
  reached-IsSound {c = c} steps = Steps-IsSound steps (new_pool-IsSound c)

  -- A loop whose source does not make it panic does not.
  abbrev IsUp : Loop X → Type 0
  IsUp l = is_alive l ≡ true

  rest-IsUp : (xs : List X) → IsUp (dispatch_rest xs)
  rest-IsUp [] = refl
  rest-IsUp (x ∷ xs) = refl

  Step-IsUp :
      {l : Label X} {s t : Pool Control X}
      → Step src limit l s t
      → ((c : Control) → ¬ src.Breaks c)
      → IsUp t.loop
  unfolding go_to take_token start_worker give_token leave
  Step-IsUp (turns alive e) no_break = alive
  Step-IsUp (goes_on e i) no_break = refl
  Step-IsUp (gets xs e g) no_break = rest-IsUp xs
  Step-IsUp (quits e q) no_break = refl
  Step-IsUp {s = s} (breaks e b) no_break = absurd (no_break s.control b)
  Step-IsUp (takes x xs e lt) no_break = refl
  Step-IsUp (starts x xs e) no_break = rest-IsUp xs
  Step-IsUp (ends xs x ys alive e) no_break = alive
  Step-IsUp (leaves alive lt) no_break = alive
  Step-IsUp (closes e g) no_break = refl

  pub Steps-IsUp :
      {s : Pool Control X} {trace : List (Label X)} {t : Pool Control X}
      → Steps src limit s trace t
      → ((c : Control) → ¬ src.Breaks c)
      → is_alive s.loop ≡ true
      → is_alive t.loop ≡ true
  Steps-IsUp here no_break up = up
  Steps-IsUp (next steps step) no_break up = Step-IsUp step no_break

pub concurrency-pos : (n : ℤ) → 0 < concurrency n
unfolding concurrency
concurrency-pos n = ground arith

-- At most as many handlers of a consumer run at once as its configuration says, or one where that
-- is not positive, whatever the interleaving of the loop, its workers and the source.
pub running-le-concurrency :
    {X : Type 0} (src : Source X) (n : ℤ) {trace : List (Label X)} {c : src.Control}
    {t : Pool src.Control X}
    → Steps src (concurrency n) (new_pool c) trace t
    → (length t.running ≤ concurrency n) × (concurrency n ≡ (if nonpos n then 1 else pos_part n))
unfolding concurrency
running-le-concurrency src n steps =
    let sound = reached-IsSound src (concurrency n) steps in
    (omega (arith, sound.tokens, sound.within), ground arith)
