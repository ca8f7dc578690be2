-- ===== src/Cron/Triggers.antt =====
-- cron_dist.go: publishFunc against execHandle.
use taskbus.Prelude.{
  Str, Option, none, some, lookup, insert, delete, lookup-insert_self, lookup-delete, str_eq_refl,
  ◌≡◌, ◌∙◌, refl, ap, if◌then◌else◌,
}
use taskbus.Mq.{cron_task_not_found, GoError, Context, wrap}
use taskbus.Topic.Names.{trim-build_topic}
use taskbus.Config.{Client}
use taskbus.Cron.{
  CronLib, CronTask, CronState, TaskMethods, task_key, after_add_func, add_to_scheduler, add,
  start_scheduler, stop_scheduler, rebuild_from, remove, trigger_message, run_task, exec_handle,
}

module _ {T S E F : Type 0} (lib : CronLib S) (methods : TaskMethods T S E)
    (c : Client F (CronState T S E)) where
  exec-trigger :
      (ctx : Context) (key : Str) (w : CronState T S E)
      → exec_handle lib methods c ctx (trigger_message lib methods c key) w
        ≡ run_task lib methods c (lookup key w.reg) key ctx w
  unfolding exec_handle trigger_message
  exec-trigger ctx key w =
      ap (λ name. run_task lib methods c (lookup name w.reg) name ctx w)
        (trim-build_topic c.namespace _ key)

  reg-after_add_func :
      (key : Str) (r : GoError × S) (w : CronState T S E)
      → (after_add_func lib methods c key r w).1.reg ≡ w.reg
  unfolding after_add_func
  reg-after_add_func key (none, s) w = refl
  reg-after_add_func key (some e, s) w = refl

  reg-add_to_scheduler :
      (spec key : Str) (o : Option S) (w : CronState T S E)
      → (add_to_scheduler lib methods c spec key o w).1.reg ≡ w.reg
  unfolding add_to_scheduler
  reg-add_to_scheduler spec key none w = refl
  reg-add_to_scheduler spec key (some s) w = reg-after_add_func key _ w

  reg-add :
      (spec name : Str) (code : T) (w : CronState T S E)
      → lookup (task_key spec name) (add lib methods c spec name (some code) w).1.reg
        ≡ some (record { spec = spec; code = code })
  unfolding add
  reg-add spec name code w =
      ap (lookup (task_key spec name)) (
        reg-add_to_scheduler spec (task_key spec name) w.cron (record w {
          reg = insert (task_key spec name) (record { spec = spec; code = code }) w.reg;
        }))
      ∙ lookup-insert_self (task_key spec name) _ w.reg

  reg-rebuild_from :
      (o : Option S) (w : CronState T S E) → (rebuild_from lib methods c o w).reg ≡ w.reg
  unfolding rebuild_from start_scheduler stop_scheduler
  reg-rebuild_from none w = refl
  reg-rebuild_from (some s) w = refl

  reg-remove : (id : Str) (w : CronState T S E) → lookup id (remove lib methods c id w).reg ≡ none
  unfolding remove
  reg-remove id w =
      ap (lookup id) (reg-rebuild_from w.cron (record w { reg = delete id w.reg }))
      ∙ lookup-delete id id w.reg
      ∙ ap (λ b. if b then none else lookup id w.reg) (str_eq_refl id)

  -- A trigger of a task's key runs the task that was added last under it, inside its middlewares,
  -- on any instance, leader or not, even where Add has returned an error of the scheduler; once
  -- the task is removed, a trigger that is still under way ends with an error and changes nothing.
  pub triggered :
      (spec name : Str) (code : T) (ctx : Context) (w : CronState T S E)
      → let key = task_key spec name in
        let w1 = (add lib methods c spec name (some code) w).1 in
        let w2 = remove lib methods c key w1 in
        (exec_handle lib methods c ctx (trigger_message lib methods c key) w1
          ≡ wrap (methods.mws code) (methods.fn code) ctx w1)
        × (exec_handle lib methods c ctx (trigger_message lib methods c key) w2
            ≡ (some (cron_task_not_found key), w2))
  triggered spec name code ctx w =
      let key = task_key spec name in
      let w1 = (add lib methods c spec name (some code) w).1 in
      let w2 = remove lib methods c key w1 in
      (
        exec-trigger ctx key w1 ∙ runs key ctx w1 (reg-add spec name code w),
        exec-trigger ctx key w2 ∙ missing key ctx w2 (reg-remove key w1),
      )
    where
      runs :
          {t : CronTask T} (key : Str) (ctx : Context) (w : CronState T S E)
          → lookup key w.reg ≡ some t
          → run_task lib methods c (lookup key w.reg) key ctx w
            ≡ wrap (methods.mws t.code) (methods.fn t.code) ctx w
      runs key ctx w e = ap (λ o. run_task lib methods c o key ctx w) e ∙ (unfold run_task in refl)

      missing :
          (key : Str) (ctx : Context) (w : CronState T S E)
          → lookup key w.reg ≡ none
          → run_task lib methods c (lookup key w.reg) key ctx w
            ≡ (some (cron_task_not_found key), w)
      missing key ctx w e =
          ap (λ o. run_task lib methods c o key ctx w) e ∙ (unfold run_task in refl)
