-- ===== src/Pool/Drain.antt =====
-- redis_adapter.go and rabbitmq_adapter.go: the messages of a consumer, from the loop to the end of
-- their workers.
use taskbus.Prelude.{ℕ, ◌+◌, List, [], ◌∷◌, ◌++◌, ◌≡◌, refl, arith, length}
use taskbus.Pool.Bounds.{IsSound, reached-IsSound}
use taskbus.Pool.{
  Source, Loop, dispatching, starting, finished, dispatch_rest, Pool, new_pool, go_to, take_token,
  start_worker, give_token, leave, Label, silent, fetched, ended, Step, turns, goes_on, gets, quits,
  breaks, takes, starts, ends, leaves, closes, Steps, here, next,
}

module _ {X : Type 0} where
  -- A weight of each message, which is any: 1 for one message and 0 for the others counts that one.
  abbrev pub total : (X → ℕ) → List X → ℕ
  total f [] = 0
  total f (x ∷ xs) = f x + total f xs

  abbrev pub total_fetched : (X → ℕ) → List (Label X) → ℕ
  total_fetched f [] = 0
  total_fetched f (fetched xs ∷ trace) = total f xs + total_fetched f trace
  total_fetched f (_ ∷ trace) = total_fetched f trace

  abbrev pub total_ended : (X → ℕ) → List (Label X) → ℕ
  total_ended f [] = 0
  total_ended f (ended x ∷ trace) = f x + total_ended f trace
  total_ended f (_ ∷ trace) = total_ended f trace

  -- The messages that the loop has and did not start a worker for.
  abbrev pub total_held : (X → ℕ) → Loop X → ℕ
  total_held f (dispatching x xs) = f x + total f xs
  total_held f (starting x xs) = f x + total f xs
  total_held f _ = 0

  total_held-rest : (f : X → ℕ) (xs : List X) → total_held f (dispatch_rest xs) ≡ total f xs
  total_held-rest f [] = refl
  total_held-rest f (x ∷ xs) = refl

  total-split :
      (f : X → ℕ) (xs : List X) (x : X) (ys : List X)
      → total f (xs ++ x ∷ ys) ≡ f x + total f (xs ++ ys)
  total-split f [] x ys = refl
  total-split f (y ∷ xs) x ys = omega (arith, total-split f xs x ys)

module _ {X : Type 0} (src : Source X) (limit : ℕ) (f : X → ℕ) where
  open src use {Control}

  abbrev pub total_in : Pool Control X → ℕ
  total_in s = total f s.running + total_held f s.loop

  Step-total :
      {l : Label X} {s t : Pool Control X}
      → Step src limit l s t
      → total_in t + total_ended f (l ∷ []) ≡ total_in s + total_fetched f (l ∷ [])
  unfolding go_to take_token start_worker give_token leave
  Step-total (turns alive e) = refl
  Step-total (goes_on e i) = rw e refl
  Step-total (gets xs e g) = rw e (omega (arith, total_held-rest f xs))
  Step-total (quits e q) = rw e refl
  Step-total (breaks e b) = rw e refl
  Step-total (takes x xs e lt) = rw e refl
  Step-total (starts x xs e) = rw e (omega (arith, total_held-rest f xs))
  Step-total (ends xs x ys alive e) = rw e (omega (arith, total-split f xs x ys))
  Step-total (leaves alive lt) = refl
  Step-total (closes e g) = rw e refl

  trace-fetched :
      (l : Label X) (trace : List (Label X))
      → total_fetched f (l ∷ trace) ≡ total_fetched f (l ∷ []) + total_fetched f trace
  trace-fetched silent trace = omega arith
  trace-fetched (fetched xs) trace = omega arith
  trace-fetched (ended x) trace = omega arith

  trace-ended :
      (l : Label X) (trace : List (Label X))
      → total_ended f (l ∷ trace) ≡ total_ended f (l ∷ []) + total_ended f trace
  trace-ended silent trace = omega arith
  trace-ended (fetched xs) trace = omega arith
  trace-ended (ended x) trace = omega arith

  Steps-total :
      {s : Pool Control X} {trace : List (Label X)} {t : Pool Control X}
      → Steps src limit s trace t
      → total_in t + total_ended f trace ≡ total_in s + total_fetched f trace
  Steps-total here = refl
  Steps-total (next {trace = trace} {l = l} steps step) =
      omega (arith, trace-fetched l trace, trace-ended l trace, Step-total step, Steps-total steps)

  -- What the loop got is in it, in work, or done.
  pub reached-total :
      {trace : List (Label X)} {c : Control} {t : Pool Control X}
      → Steps src limit (new_pool c) trace t
      → total_ended f trace + total_in t ≡ total_fetched f trace
  reached-total steps = omega (arith, Steps-total steps)

empty_of_length {ℓ} : {A : Type ℓ} (xs : List A) → length xs ≡ 0 → xs ≡ []
empty_of_length [] e = refl
empty_of_length (x ∷ xs) e = absurd (omega (arith, e))

-- When the loop has closed `done`, which is what a stop waits for, no worker is left, and the
-- workers that ended had the messages that the loop got: each as often, for any way to count them.
pub done-drained :
    {X : Type 0} (src : Source X) (limit : ℕ) {trace : List (Label X)} {c : src.Control}
    {t : Pool src.Control X}
    → Steps src limit (new_pool c) trace t
    → t.loop ≡ finished
    → (t.running ≡ [])
      × (t.leaving ≡ 0)
      × ((f : X → ℕ) → total_ended f trace ≡ total_fetched f trace)
done-drained {X = X} src limit {trace} {c} {t} steps e =
    (none_runs, omega (arith, empty, sound.group), all)
  where
    sound : IsSound limit t
    sound = reached-IsSound src limit steps

    empty : t.group ≡ 0
    empty = sound.closed (rw e tt)

    none_runs : t.running ≡ []
    none_runs = empty_of_length t.running (omega (arith, empty, sound.group))

    all : (f : X → ℕ) → total_ended f trace ≡ total_fetched f trace
    all f =
        let sum = reached-total src limit f steps in
        let free : total_held f t.loop ≡ 0 = rw e refl in
        let idle : total f t.running ≡ 0 = rw none_runs refl in omega (arith, sum, free, idle)
