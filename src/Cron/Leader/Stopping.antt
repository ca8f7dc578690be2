-- ===== src/Cron/Leader/Stopping.antt =====
-- cron_dist.go: what Stop does to the loop, by where it meets it.
use taskbus.Prelude.{
  ℕ, ◌+◌, ◌≤◌, ◌<◌, Bool, true, false, List, ◌≡◌, ◌≢◌, refl, ◌⊎◌, inl, inr, arith, subst, length,
  if◌then◌else◌, Bool-cases,
}
use taskbus.Cron.Leader.{
  Phase, polling, acquiring, holding, armed, leading, pausing, ended, Stopper, idle, signalled,
  cancelled, returned, Service, new_service, told_to_end, win, arm, take_lead, step_down,
  cancel_leader, Actor, loop, Step, polls, returns, loses, wins, arms, leads, steps_down, wakes,
  returns_paused, signals, cancels, stops_executor, loses_lock, parent_ends, Steps, here, next,
}

abbrev pub Anyone : Actor → Type 0
Anyone a = Unit

-- The scheduler runs only while the loop leads.
abbrev pub LeadsFor : Service → Type 0
LeadsFor s = s.scheduler ≡ true → s.phase ≡ leading

Step-LeadsFor : {a : Actor} {s t : Service} → Step a s t → LeadsFor s → LeadsFor t
unfolding win arm take_lead step_down cancel_leader
Step-LeadsFor (polls e f) h k = ground (arith, h k)
Step-LeadsFor (returns e f) h k = ground (arith, h k)
Step-LeadsFor (loses e) h k = ground (arith, h k)
Step-LeadsFor (wins e) h k = ground (arith, h k)
Step-LeadsFor (arms e) h k = ground (arith, h k)
Step-LeadsFor (leads e) h k = refl
Step-LeadsFor (steps_down e f) h k = ground arith
Step-LeadsFor (wakes e) h k = ground (arith, h k)
Step-LeadsFor (returns_paused e f) h k = ground (arith, h k)
Step-LeadsFor (signals e) h k = h k
Step-LeadsFor (cancels e) h k = h k
Step-LeadsFor (stops_executor e) h k = h k
Step-LeadsFor (loses_lock e) h k = h k
Step-LeadsFor (parent_ends e) h k = h k

Steps-LeadsFor :
    {P : Actor → Type 0} {s : Service} {trace : List Actor} {t : Service}
    → Steps P s trace t
    → LeadsFor s
    → LeadsFor t
Steps-LeadsFor here h = h
Steps-LeadsFor (next steps p step) h = Step-LeadsFor step (Steps-LeadsFor steps h)

-- Stop has been called, and the loop is not where it can lead on: it is not about to try for the
-- lock, and a context that it has is done.
abbrev pub Covered : Phase → Bool → Type 0
Covered acquiring live = ⊥
Covered holding live = live ≡ false
Covered armed live = live ≡ false
Covered leading live = live ≡ false
Covered _ live = Unit

pub record IsStopping (s : Service) : Type 0 where
  pub closed : s.stop_closed ≡ true
  pub covered : Covered s.phase s.context_live

abbrev pub phase_steps : Phase → ℕ
phase_steps holding = 5
phase_steps armed = 4
phase_steps leading = 3
phase_steps pausing = 2
phase_steps polling = 1
phase_steps _ = 0

abbrev pub stopper_steps : Stopper → ℕ
stopper_steps idle = 3
stopper_steps signalled = 2
stopper_steps cancelled = 1
stopper_steps returned = 0

-- The most steps that are left.
abbrev pub steps_left : Service → ℕ
steps_left s =
    phase_steps s.phase
    + stopper_steps s.stopper
    + (if s.context_live then 1 else 0)
    + (if s.parent_done then 0 else 2)

-- The cover at the phase that a step starts from.
Covered-at : {s : Service} {p : Phase} → IsStopping s → s.phase ≡ p → Covered p s.context_live
Covered-at {s = s} h e = subst (λ p. Covered p s.context_live) e h.covered

Covered-dead : (p : Phase) (live : Bool) → Covered p live → Covered p false
Covered-dead polling live h = tt
Covered-dead acquiring live h = h
Covered-dead holding live h = refl
Covered-dead armed live h = refl
Covered-dead leading live h = refl
Covered-dead pausing live h = tt
Covered-dead ended live h = tt

told : {s : Service} → IsStopping s → told_to_end s ≡ true
told h = rw h.closed refl

Step-IsStopping : {a : Actor} {s t : Service} → Step a s t → IsStopping s → IsStopping t
unfolding win arm take_lead step_down cancel_leader
Step-IsStopping (polls e f) h = absurd (let yes_told = told h in cc)
Step-IsStopping (returns e f) h = record { closed = h.closed; covered = tt }
Step-IsStopping (loses e) h = record { closed = h.closed; covered = tt }
Step-IsStopping (wins e) h = absurd (Covered-at h e)
Step-IsStopping (arms e) h = record { closed = h.closed; covered = Covered-at h e }
Step-IsStopping (leads e) h = record { closed = h.closed; covered = Covered-at h e }
Step-IsStopping (steps_down e f) h = record { closed = h.closed; covered = tt }
Step-IsStopping (wakes e) h = record { closed = h.closed; covered = tt }
Step-IsStopping (returns_paused e f) h = record { closed = h.closed; covered = tt }
Step-IsStopping (signals e) h = record { closed = refl; covered = h.covered }
Step-IsStopping {s = s} (cancels e) h = record {
  closed = h.closed;
  covered = elim (Bool-cases s.cancel_is_current) [
    | inl k ↦ rw k (Covered-dead s.phase s.context_live h.covered)
    | inr k ↦ rw k h.covered
  ];
}
Step-IsStopping (stops_executor e) h = record { closed = h.closed; covered = h.covered }
Step-IsStopping {s = s} (loses_lock e) h = record {
  closed = h.closed;
  covered = Covered-dead s.phase s.context_live h.covered;
}
Step-IsStopping {s = s} (parent_ends e) h = record {
  closed = h.closed;
  covered = Covered-dead s.phase s.context_live h.covered;
}

Step-falls : {a : Actor} {s t : Service} → Step a s t → IsStopping s → steps_left t < steps_left s
unfolding win arm take_lead step_down cancel_leader
Step-falls (polls e f) h = absurd (let yes_told = told h in cc)
Step-falls (returns e f) h = rw e (omega arith)
Step-falls (loses e) h = absurd (Covered-at h e)
Step-falls (wins e) h = absurd (Covered-at h e)
Step-falls (arms e) h = rw e (omega arith)
Step-falls (leads e) h = rw e (omega arith)
Step-falls (steps_down e f) h = rw e (omega arith)
Step-falls (wakes e) h = rw e (omega arith)
Step-falls (returns_paused e f) h = rw e (omega arith)
Step-falls (signals e) h = rw e (omega arith)
Step-falls (cancels e) h = rw e (ground arith)
Step-falls (stops_executor e) h = rw e (omega arith)
Step-falls (loses_lock e) h = rw e (omega arith)
Step-falls (parent_ends e) h = rw e (ground arith)

Steps-falls :
    {P : Actor → Type 0} {s : Service} {trace : List Actor} {t : Service}
    → Steps P s trace t
    → IsStopping s
    → IsStopping t × (length trace + steps_left t ≤ steps_left s)
Steps-falls here h = (h, omega arith)
Steps-falls (next steps p step) h =
    let (k, le) = Steps-falls steps h in
    (Step-IsStopping step k, omega (arith, le, Step-falls step k))

-- The loop has returned, or it has a step.
loop_goes :
    (s : Service) (p : Phase)
    → s.phase ≡ p
    → IsStopping s
    → (s.phase ≡ ended) ⊎ ((t : Service) × Step loop s t)
loop_goes s polling e h = inr (_, returns e (told h))
loop_goes s acquiring e h = absurd (Covered-at h e)
loop_goes s holding e h = inr (_, arms e)
loop_goes s armed e h = inr (_, leads e)
loop_goes s leading e h = inr (_, steps_down e (Covered-at h e))
loop_goes s pausing e h = inr (_, wakes e)
loop_goes s ended e h = inl e

ended-ne-leading : ended ≢ leading
ended-ne-leading e = cc

no_scheduler : (s : Service) → LeadsFor s → s.phase ≡ ended → s.scheduler ≡ false
no_scheduler s h e = elim (Bool-cases s.scheduler) [
  | inl k ↦ absurd (let lead = h k in cc)
  | inr k ↦ k
]

phase_steps-le : (p : Phase) → phase_steps p ≤ 5
phase_steps-le polling = omega arith
phase_steps-le acquiring = omega arith
phase_steps-le holding = omega arith
phase_steps-le armed = omega arith
phase_steps-le leading = omega arith
phase_steps-le pausing = omega arith
phase_steps-le ended = omega arith

stopper_steps-le : (p : Stopper) → stopper_steps p ≤ 3
stopper_steps-le idle = omega arith
stopper_steps-le signalled = omega arith
stopper_steps-le cancelled = omega arith
stopper_steps-le returned = omega arith

steps_left-le : (s : Service) → steps_left s ≤ 11
steps_left-le s = ground (arith, phase_steps-le s.phase, stopper_steps-le s.stopper)

new-LeadsFor : LeadsFor new_service
new-LeadsFor e = cc

-- When the stop channel is closed and the loop is neither trying for the lock nor has a context that
-- lives, it ends: at most eleven steps are left, whoever makes them, the loop always has one until
-- it has returned, and then the scheduler is off.
pub stop_ends :
    {past : List Actor} {s : Service}
    → Steps Anyone new_service past s
    → IsStopping s
    → {trace : List Actor} {t : Service} → Steps Anyone s trace t
    → (length trace ≤ 11)
      × (((t.phase ≡ ended) × (t.scheduler ≡ false)) ⊎ ((u : Service) × Step loop t u))
stop_ends {s = s} before h {t = t} steps =
    let (k, le) = Steps-falls steps h in
    let leads_for = Steps-LeadsFor steps (Steps-LeadsFor before new-LeadsFor) in
    (
      omega (arith, le, steps_left-le s),
      elim (loop_goes t t.phase refl k) [
        | inl e ↦ inl (e, no_scheduler t leads_for e)
        | inr go ↦ inr go
      ],
    )
