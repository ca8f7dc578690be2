-- ===== src/Cron/Entries.antt =====
-- cron_dist.go: the entries of the leader's scheduler, against what is registered.
use taskbus.Prelude.{
  ℕ, suc, ◌+◌, Str, GoMap, List, [], ◌∷◌, Option, none, some, false, lookup, insert, delete,
  lookup-delete, lookup_cons, str_eq, str_eq_refl, ◌≡◌, ◌∙◌, refl, ap, arith, if◌then◌else◌,
}
use taskbus.Mq.{GoError, ok, Context, background}
use taskbus.Config.{Client}
use taskbus.Cron.{
  CronLib, CronTask, CronState, TaskMethods, task_key, after_add_func, add_to_scheduler, add,
  add_all, start_scheduler, stop_scheduler, rebuild_from, remove,
}

abbrev pub Added : {S : Type 0} → (S → List Str) → Str → S → GoError × S → Type 0
Added names name s (none, s') = names s' ≡ name ∷ names s
Added names name s (some e, s') = names s' ≡ names s

-- What the package documents, where `names` lists the tasks of a scheduler's entries: AddFunc adds
-- one entry, or returns an error and adds none; every entry has a trigger of its own.
pub record Entries {S : Type 0} (lib : CronLib S) (names : S → List Str) : Type 0 where
  pub new : (timezone : Str) → names (lib.new timezone) ≡ []
  pub add_func :
      (spec name : Str) (ctx : Context) (s : S) → Added names name s (lib.add_func spec name ctx s)
  pub start : (s : S) → names (lib.start s) ≡ names s

-- How often a name is listed.
pub count : Str → List Str → ℕ
count k [] = 0
count k (n ∷ ns) = (if str_eq n k then 1 else 0) + count k ns

count_cons :
    (k n : Str) (ns : List Str) → count k (n ∷ ns) ≡ (if str_eq n k then 1 else 0) + count k ns
unfolding count
count_cons k n ns = refl

count_self : (k : Str) (ns : List Str) → count k (k ∷ ns) ≡ suc (count k ns)
count_self k ns = count_cons k k ns ∙ rw (str_eq_refl k) (omega arith)

count_other : (k n : Str) (ns : List Str) → str_eq n k ≡ false → count k (n ∷ ns) ≡ count k ns
count_other k n ns e = count_cons k n ns ∙ rw e (omega arith)

module _ {T S E F : Type 0} (lib : CronLib S) (methods : TaskMethods T S E)
    (c : Client F (CronState T S E)) (names : S → List Str) (law : Entries lib names) where
  -- The names of the entries that fire: none without a scheduler.
  abbrev pub firing : Option S → List Str
  firing none = []
  firing (some s) = names s

  abbrev pub scheduled : CronState T S E → List Str
  scheduled w = firing w.cron

  count-Added :
      (k name : Str) (s : S) (r : GoError × S)
      → Added names name s r
      → (count k (names s) ≡ 0)
      → str_eq name k ≡ false
      → count k (names r.1) ≡ 0
  count-Added k name s (none, s') a z e = ap (count k) a ∙ count_other k name (names s) e ∙ z
  count-Added k name s (some x, s') a z e = ap (count k) a ∙ z

  count-add_all :
      (k : Str) (ctx : Context) (reg : GoMap (CronTask T)) (s : S)
      → lookup k reg ≡ none
      → count k (names s) ≡ 0
      → count k (names (add_all lib methods c ctx reg s)) ≡ 0
  count-add_all k ctx [] s h z = unfold add_all in z
  count-add_all k ctx ((name, t) ∷ reg) s h z =
      let (ne, rest) = absent name t reg h in
      step name t reg s (
        count-add_all k ctx reg (lib.add_func t.spec name ctx s).1 rest (
          count-Added k name s (lib.add_func t.spec name ctx s) (law.add_func t.spec name ctx s) z
            ne))
    where
      absent :
          (name : Str) (t : CronTask T) (reg : GoMap (CronTask T))
          → lookup k ((name, t) ∷ reg) ≡ none
          → (str_eq name k ≡ false) × (lookup k reg ≡ none)
      absent name t reg h = ground (arith, lookup_cons k name t reg)

      step :
          (name : Str) (t : CronTask T) (reg : GoMap (CronTask T)) (s : S)
          → count k (names (add_all lib methods c ctx reg (lib.add_func t.spec name ctx s).1)) ≡ 0
          → count k (names (add_all lib methods c ctx ((name, t) ∷ reg) s)) ≡ 0
      step name t reg s h = unfold add_all in h

  fresh-rebuild :
      (k : Str) (ctx : Context) (w : CronState T S E)
      → lookup k w.reg ≡ none
      → count k (scheduled (start_scheduler lib methods c ctx w)) ≡ 0
  unfolding start_scheduler
  fresh-rebuild k ctx w h =
      let s = lib.new c.cfg.cron.timezone in
      ap (count k) (law.start (add_all lib methods c ctx w.reg s))
      ∙ count-add_all k ctx w.reg s h
          (ap (count k) (law.new c.cfg.cron.timezone) ∙ (unfold count in refl))

  scheduled-rebuild :
      (k : Str) (o : Option S) (w : CronState T S E)
      → lookup k w.reg ≡ none
      → w.cron ≡ o
      → count k (scheduled (rebuild_from lib methods c o w)) ≡ 0
  scheduled-rebuild k none w h e =
      unfold rebuild_from in ap (λ o. count k (firing o)) e ∙ (unfold count in refl)
  scheduled-rebuild k (some s) w h e =
      unfold rebuild_from in
      fresh-rebuild k (elim w.leader_ctx [ none ↦ background | some ctx ↦ ctx ])
        (stop_scheduler lib methods c w) (unfold stop_scheduler in h)

  removed_count :
      (id : Str) (w : CronState T S E) → count id (scheduled (remove lib methods c id w)) ≡ 0
  unfolding remove
  removed_count id w =
      scheduled-rebuild id w.cron (record w { reg = delete id w.reg })
        (lookup-delete id id w.reg ∙ ap (λ b. if b then none else lookup id w.reg) (str_eq_refl id))
        refl

  abbrev pub IsLeader : Option S → Type 0
  IsLeader none = ⊥
  IsLeader (some s) = Unit

  -- A scheduler that takes a task, and what Add makes of it.
  taken :
      (key : Str) (s : S) (r : GoError × S) (w : CronState T S E)
      → Added names key s r
      → (after_add_func lib methods c key r w).0 ≡ ok key
      → (count key (scheduled (after_add_func lib methods c key r w).1) ≡ suc (count key (names s)))
        × IsLeader (after_add_func lib methods c key r w).1.cron
  unfolding after_add_func
  taken key s (none, s') w a e = (ap (count key) a ∙ count_self key (names s), tt)
  taken key s (some x, s') w a e = cc

  taken_by :
      (spec key : Str) (o : Option S) (w : CronState T S E)
      → IsLeader o
      → (add_to_scheduler lib methods c spec key o w).0 ≡ ok key
      → (count key (scheduled (add_to_scheduler lib methods c spec key o w).1)
          ≡ suc (count key (firing o)))
        × IsLeader (add_to_scheduler lib methods c spec key o w).1.cron
  unfolding add_to_scheduler
  taken_by spec key none w l e = absurd l
  taken_by spec key (some s) w l e =
      taken key s (lib.add_func spec key background s) w (law.add_func spec key background s) e

  added_count :
      (spec name : Str) (code : T) (w : CronState T S E)
      → IsLeader w.cron
      → (add lib methods c spec name (some code) w).0 ≡ ok (task_key spec name)
      → (count (task_key spec name) (scheduled (add lib methods c spec name (some code) w).1)
          ≡ suc (count (task_key spec name) (scheduled w)))
        × IsLeader (add lib methods c spec name (some code) w).1.cron
  unfolding add
  added_count spec name code w l e =
      taken_by spec (task_key spec name) w.cron
        (record w { reg = insert (task_key spec name) (record { spec = spec; code = code }) w.reg })
        l e

  -- The state after Add.
  abbrev pub added : Str → Str → T → CronState T S E → CronState T S E
  added spec name code w = (add lib methods c spec name (some code) w).1

  -- On the leader: a task that is added again under the same key, both times with a spec that the
  -- scheduler takes, has two entries more than before, so each tick publishes two triggers for it;
  -- and removing the key leaves no entry that fires for it.
  pub readd_doubles :
      (spec name : Str) (code code' : T) (w : CronState T S E)
      → IsLeader w.cron
      → (add lib methods c spec name (some code) w).0 ≡ ok (task_key spec name)
      → (add lib methods c spec name (some code') (added spec name code w)).0
        ≡ ok (task_key spec name)
      → (count (task_key spec name) (scheduled (added spec name code' (added spec name code w)))
          ≡ 2 + count (task_key spec name) (scheduled w))
        × (count (task_key spec name) (
              scheduled (
                remove lib methods c
                  (task_key spec name)
                  (added spec name code' (added spec name code w))))
            ≡ 0)
  readd_doubles spec name code code' w leader first second =
      let w1 = added spec name code w in
      let (once, still) = added_count spec name code w leader first in
      let (twice, _) = added_count spec name code' w1 still second in
      (omega (arith, once, twice), removed_count (task_key spec name) (added spec name code' w1))
