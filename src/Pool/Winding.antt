-- ===== src/Pool/Winding.antt =====
-- redis_adapter.go and rabbitmq_adapter.go: how a consumer comes to its end.
use taskbus.Prelude.{
  ℕ, ◌+◌, ◌*◌, ◌≤◌, ◌<◌, List, [], ◌∷◌, true, ◌≡◌, refl, arith, length, ◌⊎◌, inl, inr,
}
use taskbus.Pool.{
  Source, Loop, selecting, dispatching, starting, waiting, finished, crashed, dispatch_rest, Pool,
  new_pool, go_to, take_token, start_worker, give_token, leave, Label, silent, fetched, ended, Step,
  turns, goes_on, gets, quits, breaks, takes, starts, ends, leaves, closes, Steps, here, next,
  is_alive,
}
use taskbus.Pool.Bounds.{IsSound, length-split, reserved, Steps-IsSound, reached-IsSound}
use native.Mathlib.Decide.{dec_lt}

-- A source that comes to an end: in the states `Ending` a number falls with each of its moves, by
-- enough for the messages that it gives, and the loop can always go on.
pub record Winds {X : Type 0} (src : Source X) (Ending : src.Control → Type 0)
    (rank : src.Control → ℕ) : Type 0 where
  pub outer : {c d : src.Control} → Ending c → src.Outer c d → Ending d × (rank d < rank c)
  pub inner : {c d : src.Control} → Ending c → src.Inner c d → Ending d × (rank d < rank c)
  pub gives :
      {c d : src.Control} {xs : List X}
      → Ending c
      → src.Gives c xs d
      → Ending d × (rank d + 4 * length xs < rank c)
  pub ready :
      {c : src.Control}
      → Ending c
      → src.Quits c
        ⊎ (((d : src.Control) × src.Inner c d)
            ⊎ ((xs : List X) × (d : src.Control) × src.Gives c xs d))

module _ {X : Type 0} where
  -- The steps that the loop has before it, with those of the workers that it starts.
  abbrev pub loop_steps : Loop X → ℕ
  loop_steps selecting = 2
  loop_steps (dispatching x xs) = 4 * length xs + 6
  loop_steps (starting x xs) = 4 * length xs + 5
  loop_steps waiting = 1
  loop_steps _ = 0

  abbrev pub IsOver : Loop X → Type 0
  IsOver finished = Unit
  IsOver crashed = Unit
  IsOver _ = ⊥

  -- The most steps that a consumer can still make, by the rank of its source's state.
  abbrev pub steps_left : {C : Type 0} → (C → ℕ) → Pool C X → ℕ
  steps_left rank s = rank s.control + loop_steps s.loop + 2 * length s.running + s.leaving

  loop_steps-rest : (xs : List X) → loop_steps (dispatch_rest xs) ≡ 4 * length xs + 2
  loop_steps-rest [] = refl
  loop_steps-rest (x ∷ xs) = omega arith

abbrev pub CanStep : {X : Type 0} (src : Source X) → ℕ → Pool src.Control X → Type 0
CanStep {X} src limit s = (l : Label X) × (t : Pool src.Control X) × Step src limit l s t

module _ {X : Type 0} (src : Source X) (limit : ℕ) (Ending : src.Control → Type 0)
    (rank : src.Control → ℕ) (law : Winds src Ending rank) where
  open src use {Control}

  Step-winds :
      {l : Label X} {s t : Pool Control X}
      → Step src limit l s t
      → Ending s.control
      → Ending t.control × (steps_left rank t < steps_left rank s)
  unfolding go_to take_token start_worker give_token leave
  Step-winds (turns alive e) h = let (k, lt) = law.outer h e in (k, omega (arith, lt))
  Step-winds (goes_on e i) h = let (k, lt) = law.inner h i in (k, rw e (omega (arith, lt)))
  Step-winds (gets xs e g) h =
      let (k, lt) = law.gives h g in (k, rw e (omega (arith, lt, loop_steps-rest xs)))
  Step-winds (quits e q) h = (h, rw e (omega arith))
  Step-winds (breaks e b) h = (h, rw e (omega arith))
  Step-winds (takes x xs e lt) h = (h, rw e (omega arith))
  Step-winds (starts x xs e) h = (h, rw e (omega (arith, loop_steps-rest xs)))
  Step-winds (ends xs x ys alive e) h = (h, rw e (omega (arith, length-split xs x ys)))
  Step-winds (leaves alive lt) h = (h, omega (arith, lt))
  Step-winds (closes e g) h = (h, rw e (omega arith))

  Steps-winds :
      {s : Pool Control X} {trace : List (Label X)} {t : Pool Control X}
      → Steps src limit s trace t
      → Ending s.control
      → Ending t.control × (length trace + steps_left rank t ≤ steps_left rank s)
  Steps-winds here h = (h, omega arith)
  Steps-winds (next steps step) h =
      let (k, le) = Steps-winds steps h in
      let (m, lt) = Step-winds step k in (m, omega (arith, le, lt))

  worker_ends :
      (s : Pool Control X) (xs : List X)
      → is_alive s.loop ≡ true
      → s.running ≡ xs
      → 0 < length xs
      → CanStep src limit s
  worker_ends s [] alive e lt = absurd (omega arith)
  worker_ends s (x ∷ xs) alive e lt = (ended x, _, ends [] x xs alive e)

  at_dispatch :
      (s : Pool Control X) (x : X) (xs : List X)
      → s.loop ≡ dispatching x xs
      → IsSound limit s
      → 0 < limit
      → CanStep src limit s
  at_dispatch s x xs e sound pos = elim (dec_lt s.tokens limit) [
    | yes lt ↦ (silent, _, takes x xs e lt)
    | no ge ↦
        let free : reserved s.loop ≡ 0 = rw e refl in
        worker_ends s s.running (rw e refl) refl (omega (arith, sound.tokens, free))
  ]

  at_wait : (s : Pool Control X) → s.loop ≡ waiting → IsSound limit s → CanStep src limit s
  at_wait s e sound = elim (dec_lt 0 s.leaving) [
    | yes lt ↦ (silent, _, leaves (rw e refl) lt)
    | no none_leaves ↦ elim (dec_lt 0 s.group) [
      | yes lt ↦ worker_ends s s.running (rw e refl) refl (omega (arith, sound.group))
      | no empty ↦ (silent, _, closes e (omega arith))
    ]
  ]

  at_select : (s : Pool Control X) → s.loop ≡ selecting → Ending s.control → CanStep src limit s
  at_select s e h = elim (law.ready h) [
    | inl q ↦ (silent, _, quits e q)
    | inr (inl (d, i)) ↦ (silent, _, goes_on e i)
    | inr (inr (xs, d, g)) ↦ (fetched xs, _, gets xs e g)
  ]

  can_step :
      (s : Pool Control X) (l : Loop X)
      → s.loop ≡ l
      → IsSound limit s
      → 0 < limit
      → Ending s.control
      → IsOver l ⊎ CanStep src limit s
  can_step s selecting e sound pos h = inr (at_select s e h)
  can_step s (dispatching x xs) e sound pos h = inr (at_dispatch s x xs e sound pos)
  can_step s (starting x xs) e sound pos h = inr (silent, _, starts x xs e)
  can_step s waiting e sound pos h = inr (at_wait s e sound)
  can_step s finished e sound pos h = inl tt
  can_step s crashed e sound pos h = inl tt

  -- A consumer whose source is ending makes a bounded number of steps more, whichever they are, and
  -- can go on until it is over.
  pub winds_down :
      {c : Control} {past : List (Label X)} {s : Pool Control X}
      → 0 < limit
      → Steps src limit (new_pool c) past s
      → Ending s.control
      → {trace : List (Label X)} {t : Pool Control X} → Steps src limit s trace t
      → (length trace + steps_left rank t ≤ steps_left rank s)
        × (IsOver t.loop ⊎ CanStep src limit t)
  winds_down pos before h {t = t} steps =
      let (k, le) = Steps-winds steps h in
      let sound = Steps-IsSound src limit steps (reached-IsSound src limit before) in
      (le, can_step t t.loop refl sound pos k)
