-- ===== src/Cron/Lock/Lease.antt =====
-- cron_dist.go: the steps of the leader lock, in any order.
use taskbus.Prelude.{
  ℕ, Option, none, some, Bool, true, false, ◌==◌, ==_iff, ◌≡◌, ◌≢◌, refl, sym, ap, arith, ◌∙◌,
  if◌then◌else◌, Bool-cases, inl, inr,
}
use taskbus.Cron.Lock.{
  Phase, candidate, rejected, leader, renewing, stopped, LockState, set_phase, holds, set_nx,
  release_script, try_acquire, try_acquire_unheard, check_lease, extend_lease, release, give_up,
  Actor, instance_of, clock, Step, acquires, acquires_unheard, checks, check_fails, extends,
  releases, release_fails, expires, Steps, done, next,
}

-- An attempt other than `j` acts; not it, and not the clock.
abbrev pub Other : ℕ → Actor → Type 0
Other j (instance_of i) = i ≢ j
Other j clock = ⊥

abbrev pub Anyone : Actor → Type 0
Anyone a = Unit

set_nx-holds : (i j : ℕ) (k : Option ℕ) → holds j k ≡ true → holds j (set_nx i k).1 ≡ true
unfolding set_nx
set_nx-holds i j none h = cc
set_nx-holds i j (some k) h = h

script-holds :
    (i j : ℕ) (k : Option ℕ) → i ≢ j → holds j k ≡ true → holds j (release_script i k) ≡ true
unfolding release_script
script-holds i j none n h = cc
script-holds i j (some k) n h = ground (arith, ==_iff k j, ==_iff k i)

Other-keeps :
    {a : Actor} {s t : LockState} (j : ℕ)
    → Step a s t
    → Other j a
    → holds j s.key ≡ true
    → holds j t.key ≡ true
unfolding try_acquire try_acquire_unheard check_lease extend_lease release give_up
Other-keeps {s = s} j (acquires i e) n h = set_nx-holds i j s.key h
Other-keeps {s = s} j (acquires_unheard i e) n h = set_nx-holds i j s.key h
Other-keeps j (checks i e) n h = h
Other-keeps j (check_fails i e) n h = h
Other-keeps j (extends i e) n h = h
Other-keeps {s = s} j (releases i e) n h = script-holds i j s.key n h
Other-keeps j (release_fails i e) n h = h
Other-keeps j expires n h = absurd n

-- While the time to live runs, nothing that other instances do takes the lock away from the one
-- that holds it: not their attempts, checks and renewals, and not the release of a leader whose
-- own lock ran out before.
pub kept_from_others :
    (j : ℕ) {s t : LockState} → Steps (Other j) s t → holds j s.key ≡ true → holds j t.key ≡ true
kept_from_others j done h = h
kept_from_others j (next n step steps) h = kept_from_others j steps (Other-keeps j step n h)

-- An attempt that was made and does not hold the lock.
abbrev pub Without : ℕ → LockState → Type 0
Without i s = (s.phase i ≢ candidate) × (holds i s.key ≡ false)

phase-set :
    (i j : ℕ) (p : Phase) (f : ℕ → Phase)
    → p ≢ candidate
    → f j ≢ candidate
    → set_phase i p f j ≢ candidate
phase-set i j p f n m = elim (Bool-cases (i == j)) [ inl e ↦ rw e n | inr e ↦ rw e m ]

answer-ne :
    (b : Bool) (p q : Phase) → p ≢ candidate → q ≢ candidate → (if b then p else q) ≢ candidate
answer-ne true p q n m = n
answer-ne false p q n m = m

set_nx-lost : (i j : ℕ) (k : Option ℕ) → i ≢ j → holds j k ≡ false → holds j (set_nx i k).1 ≡ false
unfolding set_nx
set_nx-lost i j none n h = ground (arith, ==_iff i j)
set_nx-lost i j (some k) n h = h

script-lost : (i j : ℕ) (k : Option ℕ) → holds j k ≡ false → holds j (release_script i k) ≡ false
unfolding release_script
script-lost i j none h = refl
script-lost i j (some k) h = ground arith

-- An attempt that may be made is another one.
other_attempt : (i j : ℕ) (s : LockState) → s.phase i ≡ candidate → s.phase j ≢ candidate → i ≢ j
other_attempt i j s e n same = n (ap s.phase (sym same) ∙ e)

leader-ne : leader ≢ candidate
leader-ne e = cc

rejected-ne : rejected ≢ candidate
rejected-ne e = cc

renewing-ne : renewing ≢ candidate
renewing-ne e = cc

stopped-ne : stopped ≢ candidate
stopped-ne e = cc

Step-Without : {a : Actor} {s t : LockState} (j : ℕ) → Step a s t → Without j s → Without j t
unfolding try_acquire try_acquire_unheard check_lease extend_lease release give_up
Step-Without {s = s} j (acquires i e) (n, h) = (
  phase-set i j _ s.phase (answer-ne (set_nx i s.key).0 leader rejected leader-ne rejected-ne) n,
  set_nx-lost i j s.key (other_attempt i j s e n) h,
)
Step-Without {s = s} j (acquires_unheard i e) (n, h) = (
  phase-set i j rejected s.phase rejected-ne n,
  set_nx-lost i j s.key (other_attempt i j s e n) h,
)
Step-Without {s = s} j (checks i e) (n, h) = (
  phase-set i j _ s.phase (answer-ne (holds i s.key) renewing stopped renewing-ne stopped-ne) n,
  h,
)
Step-Without {s = s} j (check_fails i e) (n, h) = (phase-set i j stopped s.phase stopped-ne n, h)
Step-Without {s = s} j (extends i e) (n, h) = (phase-set i j leader s.phase leader-ne n, h)
Step-Without {s = s} j (releases i e) (n, h) =
    (phase-set i j stopped s.phase stopped-ne n, script-lost i j s.key h)
Step-Without {s = s} j (release_fails i e) (n, h) = (phase-set i j stopped s.phase stopped-ne n, h)
Step-Without j expires (n, h) = (n, refl)

Steps-Without : {s t : LockState} (j : ℕ) → Steps Anyone s t → Without j s → Without j t
Steps-Without j done l = l
Steps-Without j (next p step steps) l = Steps-Without j steps (Step-Without j step l)

check-stops : (i : ℕ) (s : LockState) → holds i s.key ≡ false → (check_lease i s).phase i ≡ stopped
unfolding check_lease
check-stops i s h = rw h (ground (arith, ==_iff i i))

-- A leader whose lock ran out never holds it again, whatever all instances and the clock do from
-- then on, and it stops at its next check of the lease.
pub lost_for_good :
    {s t : LockState} (i : ℕ)
    → Without i s
    → Steps Anyone s t
    → (holds i t.key ≡ false) × ((check_lease i t).phase i ≡ stopped)
lost_for_good {t = t} i l steps =
    let lost = Steps-Without i steps l in (lost.1, check-stops i t lost.1)
