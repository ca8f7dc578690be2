-- ===== src/Cron/Lock.antt =====
-- cron_dist.go: the leader lock in Redis, as a step relation over all instances. An attempt to
-- lead is a number, since its token is unique; a renewal is two commands, and other instances may
-- act between them; the time to live may end between any two steps.
pub mod Lease
use taskbus.Prelude.{ℕ, Option, none, some, Bool, true, false, ◌==◌, ◌≡◌, if◌then◌else◌}

pub data Phase : Type 0 where
  candidate : Phase
  rejected : Phase
  leader : Phase
  renewing : Phase
  stopped : Phase

-- The token under the lock's key, and how far each attempt is.
pub record LockState : Type 0 where
  pub key : Option ℕ
  pub phase : ℕ → Phase

abbrev pub set_phase : ℕ → Phase → (ℕ → Phase) → ℕ → Phase
set_phase i p phase j = if i == j then p else phase j

abbrev pub holds : ℕ → Option ℕ → Bool
holds i none = false
holds i (some j) = j == i

-- SETNX with a time to live: the answer, and the key afterwards.
unfoldable pub set_nx : ℕ → Option ℕ → Bool × Option ℕ
set_nx i none = (true, some i)
set_nx i (some j) = (false, some j)

-- redisLockReleaseScript: the key is deleted where it has the token.
unfoldable pub release_script : ℕ → Option ℕ → Option ℕ
release_script i none = none
release_script i (some j) = if j == i then none else some j

-- tryLeaderWithRedis
unfoldable pub try_acquire : ℕ → LockState → LockState
unfolding set_nx
try_acquire i s = record {
  key = (set_nx i s.key).1;
  phase = set_phase i (if (set_nx i s.key).0 then leader else rejected) s.phase;
}

-- The answer to SETNX is lost: the code reads a failure, whatever the server did.
unfoldable pub try_acquire_unheard : ℕ → LockState → LockState
unfolding set_nx
try_acquire_unheard i s = record { key = (set_nx i s.key).1; phase = set_phase i rejected s.phase }

-- A tick of the renewal: GET, which must return the token, else the leader is cancelled.
unfoldable pub check_lease : ℕ → LockState → LockState
check_lease i s = record s {
  phase = set_phase i (if holds i s.key then renewing else stopped) s.phase;
}

-- EXPIRE, whose error is dropped; it changes the time to live alone, of whichever token.
unfoldable pub extend_lease : ℕ → LockState → LockState
extend_lease i s = record s { phase = set_phase i leader s.phase }

-- releaseRedisLock, when the leader's context is done.
unfoldable pub release : ℕ → LockState → LockState
unfolding release_script
release i s = record { key = release_script i s.key; phase = set_phase i stopped s.phase }

-- A command that fails: the attempt ends, and the key is left.
unfoldable pub give_up : ℕ → Phase → LockState → LockState
give_up i p s = record s { phase = set_phase i p s.phase }

-- Who acts: an attempt, or the server when the time to live ends.
pub data Actor : Type 0 where
  instance_of : ℕ → Actor
  clock : Actor

pub data Step : Actor → LockState → LockState → Type 0 where
  acquires :
      {s : LockState} (i : ℕ) → s.phase i ≡ candidate → Step (instance_of i) s (try_acquire i s)
  acquires_unheard :
      {s : LockState} (i : ℕ)
      → s.phase i ≡ candidate
      → Step (instance_of i) s (try_acquire_unheard i s)
  checks : {s : LockState} (i : ℕ) → s.phase i ≡ leader → Step (instance_of i) s (check_lease i s)
  check_fails :
      {s : LockState} (i : ℕ) → s.phase i ≡ leader → Step (instance_of i) s (give_up i stopped s)
  extends :
      {s : LockState} (i : ℕ) → s.phase i ≡ renewing → Step (instance_of i) s (extend_lease i s)
  releases : {s : LockState} (i : ℕ) → s.phase i ≡ leader → Step (instance_of i) s (release i s)
  release_fails :
      {s : LockState} (i : ℕ) → s.phase i ≡ leader → Step (instance_of i) s (give_up i stopped s)
  expires : {s : LockState} → Step clock s (record s { key = none })

-- Any number of steps, by the actors that `P` allows.
pub data Steps (P : Actor → Type 0) : LockState → LockState → Type 0 where
  done : {s : LockState} → Steps P s s
  next : {a : Actor} {s t u : LockState} → P a → Step a s t → Steps P t u → Steps P s u
