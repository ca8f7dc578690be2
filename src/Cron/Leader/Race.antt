-- ===== src/Cron/Leader/Race.antt =====
-- cron_dist.go: a Stop that comes while the loop tries for the lock.
use taskbus.Prelude.{true, not, ◌≡◌}
use taskbus.Cron.Leader.{leading, returned, Service, Actor, outside, leads}

-- The instance alone: the lock is kept, and the context of Start lives.
abbrev pub Inside : Actor → Type 0
Inside outside = ⊥
Inside _ = Unit

-- Stop has returned, and the loop leads with a context that nobody cancels.
record Missed (s : Service) : Type 0 where
  leads : s.phase ≡ leading
  live : s.context_live ≡ true
  runs : s.scheduler ≡ true
  done : s.stopper ≡ returned

-- The state that the race leads to.
after_race : Service → Service
after_race s = record s {
  stop_closed = true;
  context_live = not s.parent_done;
  cancel_is_current = true;
  scheduler = true;
  phase = leading;
  stopper = returned;
}
