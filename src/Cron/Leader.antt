-- ===== src/Cron/Leader.antt =====
-- cron_dist.go: leaderLoop of one instance against its Stop, as a step relation. Winning the lock,
-- keeping `leaderCancel` and starting the scheduler are steps of their own, since Stop can come
-- between them; so can the loss of the lock and the end of the context that Start got.
pub mod Stopping
pub mod Race
use taskbus.Prelude.{ℕ, ◌+◌, Bool, true, false, not, ◌&&◌, ◌||◌, List, [], ◌∷◌, ◌≡◌, if◌then◌else◌}

-- Where the loop is: at its first `select`; inside tryAcquireLeader; with the lock and a context
-- that Stop cannot cancel yet; behind the assignment of `leaderCancel`; waiting for the end of the
-- context, while the scheduler runs; at the second `select`; returned.
pub data Phase : Type 0 where
  polling : Phase
  acquiring : Phase
  holding : Phase
  armed : Phase
  leading : Phase
  pausing : Phase
  ended : Phase

-- Stop: not called; behind close(stopCh); behind leaderCancel(); returned.
pub data Stopper : Type 0 where
  idle : Stopper
  signalled : Stopper
  cancelled : Stopper
  returned : Stopper

pub record Service : Type 0 where
  pub stop_closed : Bool
  pub parent_done : Bool
  pub context_live : Bool
  pub cancel_is_current : Bool
  pub scheduler : Bool
  pub phase : Phase
  pub stopper : Stopper

abbrev pub new_service : Service
new_service = record {
  stop_closed = false;
  parent_done = false;
  context_live = false;
  cancel_is_current = false;
  scheduler = false;
  phase = polling;
  stopper = idle;
}

-- Either of the channels that end the loop.
abbrev pub told_to_end : Service → Bool
told_to_end s = s.stop_closed || s.parent_done

-- context.WithCancel(parentCtx); `leaderCancel` is still that of an earlier lead.
unfoldable pub win : Service → Service
win s = record s { phase = holding; context_live = not s.parent_done; cancel_is_current = false }

unfoldable pub arm : Service → Service
arm s = record s { phase = armed; cancel_is_current = true }

-- startScheduler
unfoldable pub take_lead : Service → Service
take_lead s = record s { phase = leading; scheduler = true }

-- stopScheduler and the cleanup
unfoldable pub step_down : Service → Service
step_down s = record s { phase = pausing; scheduler = false }

-- if cd.leaderCancel != nil { cd.leaderCancel() }
unfoldable pub cancel_leader : Service → Service
cancel_leader s = record s {
  stopper = cancelled;
  context_live = if s.cancel_is_current then false else s.context_live;
}

-- Who acts: the loop, Stop, or the outside.
pub data Actor : Type 0 where
  loop : Actor
  stop : Actor
  outside : Actor

pub data Step : Actor → Service → Service → Type 0 where
  polls :
      {s : Service}
      → s.phase ≡ polling
      → told_to_end s ≡ false
      → Step loop s (record s { phase = acquiring })
  returns :
      {s : Service}
      → s.phase ≡ polling
      → told_to_end s ≡ true
      → Step loop s (record s { phase = ended })
  loses : {s : Service} → s.phase ≡ acquiring → Step loop s (record s { phase = pausing })
  wins : {s : Service} → s.phase ≡ acquiring → Step loop s (win s)
  arms : {s : Service} → s.phase ≡ holding → Step loop s (arm s)
  leads : {s : Service} → s.phase ≡ armed → Step loop s (take_lead s)
  steps_down :
      {s : Service} → s.phase ≡ leading → s.context_live ≡ false → Step loop s (step_down s)
  wakes : {s : Service} → s.phase ≡ pausing → Step loop s (record s { phase = polling })
  returns_paused :
      {s : Service}
      → s.phase ≡ pausing
      → told_to_end s ≡ true
      → Step loop s (record s { phase = ended })
  signals :
      {s : Service}
      → s.stopper ≡ idle
      → Step stop s (record s { stopper = signalled; stop_closed = true })
  cancels : {s : Service} → s.stopper ≡ signalled → Step stop s (cancel_leader s)
  stops_executor :
      {s : Service} → s.stopper ≡ cancelled → Step stop s (record s { stopper = returned })
  loses_lock :
      {s : Service} → s.context_live ≡ true → Step outside s (record s { context_live = false })
  parent_ends :
      {s : Service}
      → s.parent_done ≡ false
      → Step outside s (record s { parent_done = true; context_live = false })

pub data Steps (P : Actor → Type 0) (s : Service) : List Actor → Service → Type 0 where
  here : Steps P s [] s
  next :
      {trace : List Actor} {a : Actor} {t u : Service}
      → Steps P s trace t
      → P a
      → Step a t u
      → Steps P s (a ∷ trace) u
