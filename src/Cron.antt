-- ===== src/Cron.antt =====
-- cron_dist.go: the registry of tasks, the scheduler of the leader, and the executor. The package
-- robfig/cron is a parameter, the record `CronLib`; a lock is taken where the code takes it, so
-- one operation is one step.
pub mod Triggers
pub mod Entries
pub mod Lock
pub mod Local
pub mod Leader
pub mod Election
pub mod Life
use taskbus.Prelude.{
  ℕ, Str, codes, GoMap, List, [], ◌∷◌, ◌++◌, Option, none, some, Bool, true, false, Exec, pure,
  ◌>>=◌, ◌>>◌, is_empty, lookup, insert, delete, if◌then◌else◌,
}
use taskbus.Mq.{
  Err, nil_fn, cron_task_not_found, executor_consume_failed, GoError, Result, ok, err, Message,
  Context, background, Handler, CronFunc, CronMiddleware, Stop, Mq, wrap,
}
use taskbus.Topic.{build_topic, build_topic_prefix, build_wildcard_topic, trim_topic_prefix}
use taskbus.Config.{Client}

-- A *cron.Cron that has not been stopped, and its methods. A scheduled function is known by the task that it publishes and
-- the context it publishes in.
pub record CronLib (S : Type 0) : Type 0 where
  pub new : Str → S
  pub add_func : Str → Str → Context → S → GoError × S
  pub start : S → S

-- A task is a spec with a function and its middlewares. These act on the state that holds the
-- registry, so the state names them by a `T`, and `TaskMethods` says what each one is.
pub record CronTask (T : Type 0) : Type 0 where
  pub spec : Str
  pub code : T

-- The fields `reg`, `cron` and `leaderCtx` of cronDist, and the rest of the world.
pub record CronState (T S E : Type 0) : Type 0 where
  pub reg : GoMap (CronTask T)
  pub cron : Option S
  pub leader_ctx : Option Context
  pub env : E

pub record TaskMethods (T S E : Type 0) : Type 0 where
  pub fn : T → CronFunc (CronState T S E)
  pub mws : T → List (CronMiddleware (CronState T S E))

abbrev pub cron_component : Str
cron_component = codes "cron"

-- The key of a task: its name, or its spec where it has none.
abbrev pub task_key : Str → Str → Str
task_key spec name = if is_empty name then spec else name

module _ {T S E F : Type 0} (lib : CronLib S) (methods : TaskMethods T S E)
    (c : Client F (CronState T S E)) where
  -- The answer of AddFunc, in Add.
  unfoldable pub after_add_func : Str → GoError × S → Exec (CronState T S E) (Result Str)
  after_add_func key (none, s) w = (ok key, record w { cron = some s })
  after_add_func key (some e, s) w = (err e, record w { cron = some s })

  unfoldable pub add_to_scheduler : Str → Str → Option S → Exec (CronState T S E) (Result Str)
  unfolding after_add_func
  add_to_scheduler spec key none = pure (ok key)
  add_to_scheduler spec key (some s) = after_add_func key (lib.add_func spec key background s)

  -- Add; a nil function is `none`.
  unfoldable pub add : Str → Str → Option T → Exec (CronState T S E) (Result Str)
  unfolding add_to_scheduler
  add spec name none w = (err nil_fn, w)
  add spec name (some code) w =
      let key = task_key spec name in
      add_to_scheduler spec key w.cron
        (record w { reg = insert key (record { spec = spec; code = code }) w.reg })

  -- The loop over `reg` in startScheduler; errors are dropped.
  unfoldable pub add_all : Context → GoMap (CronTask T) → S → S
  add_all ctx [] s = s
  add_all ctx ((name, t) ∷ reg) s = add_all ctx reg (lib.add_func t.spec name ctx s).1

  unfoldable pub start_scheduler : Context → CronState T S E → CronState T S E
  unfolding add_all
  start_scheduler ctx w = record w {
    cron = some (lib.start (add_all ctx w.reg (lib.new c.cfg.cron.timezone)));
  }

  -- stopScheduler; nothing reads a stopped scheduler again.
  unfoldable pub stop_scheduler : CronState T S E → CronState T S E
  stop_scheduler w = record w { cron = none }

  -- rebuildSchedulerLocked
  unfoldable pub rebuild_from : Option S → CronState T S E → CronState T S E
  unfolding start_scheduler stop_scheduler
  rebuild_from none w = w
  rebuild_from (some s) w =
      start_scheduler (elim w.leader_ctx [ none ↦ background | some ctx ↦ ctx ]) (stop_scheduler w)

  -- Remove
  unfoldable pub remove : Str → CronState T S E → CronState T S E
  unfolding rebuild_from
  remove id w = rebuild_from w.cron (record w { reg = delete id w.reg })

  -- What a trigger publishes.
  unfoldable pub trigger_message : Str → Message
  trigger_message name = record {
    topic = build_topic c.namespace cron_component name;
    key = name;
    body = codes "{}";
    headers = [];
  }

  unfoldable pub publish_func : Str → CronFunc (CronState T S E)
  unfolding trigger_message
  publish_func name ctx = c.mq.publish ctx (trigger_message name)

  unfoldable pub run_task : Option (CronTask T) → Str → CronFunc (CronState T S E)
  run_task none name ctx = pure (some (cron_task_not_found name))
  run_task (some t) name ctx = wrap (methods.mws t.code) (methods.fn t.code) ctx

  unfoldable pub exec_handle : Handler (CronState T S E)
  unfolding run_task
  exec_handle ctx m w =
      let name = trim_topic_prefix m.topic (build_topic_prefix c.namespace cron_component) in
      run_task (lookup name w.reg) name ctx w

  unfoldable pub executor_group : Str
  executor_group =
      if is_empty c.cfg.cron.executor_group
      then c.namespace ++ codes ".cron-exec"
      else c.cfg.cron.executor_group

  executor_result : Result (Stop (CronState T S E)) → Result (Stop (CronState T S E))
  executor_result (ok s) = ok s
  executor_result (err e) = err (executor_consume_failed e)

  unfoldable pub start_executor : Context → Exec (CronState T S E) (Result (Stop (CronState T S E)))
  unfolding exec_handle executor_group executor_result
  start_executor ctx = do
    r ←
        c.mq.consume ctx (build_wildcard_topic c.namespace cron_component) executor_group
          exec_handle []
    pure (executor_result r)
