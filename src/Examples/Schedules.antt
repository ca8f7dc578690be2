-- ===== src/Examples/Schedules.antt =====
-- Cron tasks, and the default idempotency of events, at concrete inputs.
use taskbus.Prelude.{
  true, false, arith, ℕ, suc, ◌+◌, ℤ, Str, codes, List, [], ◌∷◌, none, some, ◌≡◌, refl,
}
use taskbus.Mq.{cron_task_not_found, background, noop_mq, wrap}
use taskbus.Config.{Client}
use taskbus.Cron.{
  CronLib, CronState, TaskMethods, add, remove, add_to_scheduler, after_add_func, exec_handle,
  trigger_message,
}
use taskbus.Cron.Triggers.{triggered}
use taskbus.Cron.Entries.{Entries, count, scheduled, added, readd_doubles}
use taskbus.Cron.Lock.{
  candidate, leader, stopped, LockState, set_phase, holds, try_acquire, check_lease, release,
  acquires, releases, done, next,
}
use taskbus.Cron.Lock.Lease.{kept_from_others, lost_for_good}
use taskbus.Examples.Settings.{bare}

-- A scheduler is the list of its entries.
abbrev pub lib : CronLib (List Str)
lib = record {
  new = λ timezone. [];
  add_func = λ spec name ctx s. (none, name ∷ s);
  start = λ s. s;
}

lib-Entries : Entries lib (λ s. s)
lib-Entries = record {
  new = λ timezone. refl;
  add_func = λ spec name ctx s. refl;
  start = λ s. refl;
}

abbrev pub State : Type 0
State = CronState Unit (List Str) ℕ

-- Each run is counted.
abbrev pub methods : TaskMethods Unit (List Str) ℕ
methods = record { fn = λ t ctx w. (none, record w { env = suc w.env }); mws = λ t. [] }

abbrev pub client : Client ℤ State
client = record { cfg = bare; mq = noop_mq; namespace = codes "shop" }

abbrev leading : State
leading = record { reg = []; cron = some []; leader_ctx = none; env = 0 }

abbrev spec : Str
spec = codes "0 * * * * *"

abbrev pub name : Str
name = codes "cleanup"

abbrev registered : State
registered = added lib methods client (λ s. s) lib-Entries spec name tt leading

triggered_example :
    (exec_handle lib methods client background (trigger_message lib methods client name) registered
      ≡ wrap [] (methods.fn tt) background registered)
    × (exec_handle lib methods client background
          (trigger_message lib methods client name)
          (remove lib methods client name registered)
        ≡ (some (cron_task_not_found name), remove lib methods client name registered))
triggered_example = triggered lib methods client spec name tt background leading

readd_doubles_example :
    (count name (
        scheduled lib methods client
          (λ s. s)
          lib-Entries
          (added lib methods client (λ s. s) lib-Entries spec name tt registered))
      ≡ 2 + count name [])
    × (count name (
          scheduled lib methods client
            (λ s. s)
            lib-Entries
            (remove lib methods client name
              (added lib methods client (λ s. s) lib-Entries spec name tt registered)))
        ≡ 0)
unfolding add add_to_scheduler after_add_func
readd_doubles_example =
    readd_doubles lib methods client (λ s. s) lib-Entries spec name tt tt leading tt refl refl

-- Two attempts: 1 leads, and 2 is yet to come.
abbrev led : LockState
led = record { key = some 1; phase = set_phase 1 leader (λ i. candidate) }

-- The lock of 1 ran out and 2 took it.
abbrev taken_over : LockState
taken_over = record { key = some 2; phase = set_phase 2 leader led.phase }

kept_from_others_example : holds 1 (try_acquire 2 led).key ≡ true
kept_from_others_example = kept_from_others 1 (next (ground arith) (acquires 2 refl) done) refl

lost_for_good_example :
    (holds 1 (release 2 taken_over).key ≡ false)
    × ((check_lease 1 (release 2 taken_over)).phase 1 ≡ stopped)
lost_for_good_example = lost_for_good 1 (ground arith, refl) (next tt (releases 2 refl) done)
