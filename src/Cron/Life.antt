-- ===== src/Cron/Life.antt =====
-- cron_dist.go, cron_impl_local.go: newCron, and Start and Stop of both schedulers. The steps that
-- leaderLoop makes from there are in Cron/Leader.
use taskbus.Prelude.{
  ℕ, suc, Str, [], Option, none, some, Bool, true, false, Exec, ◌⊎◌, inl, inr, if◌then◌else◌,
}
use taskbus.Mq.{GoError, Result, ok, err, Context, Stop}
use taskbus.Config.{Client, CronConfig}
use taskbus.Cron.{CronLib, CronState, TaskMethods, start_executor}
use taskbus.Cron.Local.{LocalState}

-- The other fields of cronDist: stopCh with stopOnce, `execStop`, `leaderCancel`; and how many
-- leaderLoops were started.
pub record CronLife (T S E : Type 0) : Type 0 where
  pub state : CronState T S E
  pub stop_closed : Bool
  pub exec_stop : Option (Stop (CronState T S E))
  pub leader_cancel : Option Context
  pub loops : ℕ

module _ {S : Type 0} where
  -- newCronLocal, with a scheduler for the zone.
  unfoldable pub new_cron_local : (Str → S) → CronConfig → LocalState S
  new_cron_local new c = record { cron = new c.timezone; ids = [] }

  -- Start and Stop of cronSvc.
  unfoldable pub start_local : (S → S) → Exec (LocalState S) GoError
  start_local start s = (none, record s { cron = start s.cron })

  unfoldable pub stop_local : (S → S) → Exec (LocalState S) GoError
  stop_local stop s = (none, record s { cron = stop s.cron })

module _ {T S E : Type 0} where
  -- The cronDist of newCron.
  unfoldable pub new_cron_dist : E → CronLife T S E
  new_cron_dist env = record {
    state = record { reg = []; cron = none; leader_ctx = none; env = env };
    stop_closed = false;
    exec_stop = none;
    leader_cancel = none;
    loops = 0;
  }

  -- newCron
  unfoldable pub new_cron : (Str → S) → CronConfig → E → CronLife T S E ⊎ LocalState S
  unfolding new_cron_dist new_cron_local
  new_cron new c env = if c.distributed then inl (new_cron_dist env) else inr (new_cron_local new c)

module _ {T S E F : Type 0} (lib : CronLib S) (methods : TaskMethods T S E)
    (c : Client F (CronState T S E)) where
  -- The executor's stop is kept, and the loop is started; an error of the executor returns.
  unfoldable pub after_executor :
      Result (Stop (CronState T S E)) × CronState T S E → CronLife T S E → GoError × CronLife T S E
  after_executor (ok stop, w) l =
      (none, record l { state = w; exec_stop = some stop; loops = suc l.loops })
  after_executor (err e, w) l = (some e, record l { state = w })

  -- Start
  unfoldable pub start : Context → Exec (CronLife T S E) GoError
  unfolding after_executor
  start ctx l = after_executor (start_executor lib methods c ctx l.state) l

-- Stop, with the cancelling of a context; the errors of the executor's stop are dropped.
module _ {T S E : Type 0} (cancel : Context → CronState T S E → CronState T S E) where
  unfoldable pub cancel_leader : Option Context → CronState T S E → CronState T S E
  cancel_leader none w = w
  cancel_leader (some ctx) w = cancel ctx w

  unfoldable pub stop_executor :
      Option (Stop (CronState T S E)) → Context → CronState T S E → CronState T S E
  stop_executor none ctx w = w
  stop_executor (some stop) ctx w = (stop ctx w).1

  unfoldable pub stop : Context → Exec (CronLife T S E) GoError
  unfolding cancel_leader stop_executor
  stop ctx l = (
    none,
    record l {
      stop_closed = true;
      state = stop_executor l.exec_stop ctx (cancel_leader l.leader_cancel l.state);
    },
  )
