-- ===== src/Cron/Local.antt =====
-- cron_impl_local.go: the scheduler of one process. The package robfig/cron is a parameter, with
-- the ids that it gives to entries; a task is named by a `T`, inside its middlewares.
use taskbus.Prelude.{
  ℕ, Str, GoMap, [], Option, none, some, Bool, true, false, Exec, ◌==◌, ==_iff, lookup, insert,
  delete, lookup-insert_self, ◌≡◌, ◌≢◌, ◌∙◌, ap, arith, if◌then◌else◌,
}
use taskbus.Mq.{Result, ok, err}
use taskbus.Cron.{task_key}

pub record LocalLib (T S : Type 0) : Type 0 where
  pub add_func : Str → T → S → Result ℕ × S
  pub remove : ℕ → S → S

-- The fields `cron` and `ids` of cronSvc.
pub record LocalState (S : Type 0) : Type 0 where
  pub cron : S
  pub ids : GoMap ℕ

module _ {T S : Type 0} (lib : LocalLib T S) where
  -- The answer of AddFunc: the id goes under the key.
  unfoldable pub put_id : Str → Result ℕ × S → LocalState S → Result Str × LocalState S
  put_id key (ok id, s) w = (ok key, record { cron = s; ids = insert key id w.ids })
  put_id key (err e, s) w = (err e, record w { cron = s })

  -- Add; a nil function is `none`, and is no error here.
  unfoldable pub add_local : Str → Str → Option T → Exec (LocalState S) (Result Str)
  unfolding put_id
  add_local spec name none w = (ok [], w)
  add_local spec name (some t) w = put_id (task_key spec name) (lib.add_func spec t w.cron) w

  unfoldable pub remove_entry : Str → Option ℕ → LocalState S → LocalState S
  remove_entry key none w = w
  remove_entry key (some id) w = record { cron = lib.remove id w.cron; ids = delete key w.ids }

  -- Remove
  unfoldable pub remove_local : Str → LocalState S → LocalState S
  unfolding remove_entry
  remove_local key w = remove_entry key (lookup key w.ids) w

  -- The entries after AddFunc: those before, and one with a new id, or an error.
  abbrev pub AddedEntry : (ℕ → S → Bool) → S → Result ℕ × S → Type 0
  AddedEntry runs s (ok id, s') =
      (runs id s ≡ false) × ((j : ℕ) → runs j s' ≡ (if id == j then true else runs j s))
  AddedEntry runs s (err e, s') = (j : ℕ) → runs j s' ≡ runs j s

  -- What the package documents, where `runs` says that an entry is there.
  pub record LocalEntries (runs : ℕ → S → Bool) : Type 0 where
    pub add_func : (spec : Str) (t : T) (s : S) → AddedEntry runs s (lib.add_func spec t s)
    pub remove :
        (id j : ℕ) (s : S) → runs j (lib.remove id s) ≡ (if id == j then false else runs j s)

  module _ (runs : ℕ → S → Bool) (law : LocalEntries runs) where
    abbrev pub added_local : Str → Str → T → LocalState S → LocalState S
    added_local spec name t w = (add_local spec name (some t) w).1

    -- The entry of a key, after Add.
    abbrev NewEntry : Str → LocalState S → LocalState S → Type 0
    NewEntry key w w' =
        (id : ℕ) × (lookup key w'.ids ≡ some id)
        × (runs id w.cron ≡ false)
        × ((j : ℕ) → runs j w'.cron ≡ (if id == j then true else runs j w.cron))

    put-NewEntry :
        (key : Str) (r : Result ℕ × S) (w : LocalState S)
        → AddedEntry runs w.cron r
        → (put_id key r w).0 ≡ ok key
        → NewEntry key w (put_id key r w).1
    unfolding put_id
    put-NewEntry key (ok id, s) w (fresh, added) e =
        (id, lookup-insert_self key id w.ids, fresh, added)
    put-NewEntry key (err x, s) w added e = cc

    add-NewEntry :
        (spec name : Str) (t : T) (w : LocalState S)
        → (add_local spec name (some t) w).0 ≡ ok (task_key spec name)
        → NewEntry (task_key spec name) w (added_local spec name t w)
    unfolding add_local
    add-NewEntry spec name t w e =
        put-NewEntry (task_key spec name) (lib.add_func spec t w.cron) w
          (law.add_func spec t w.cron) e

    remove_lem :
        (key : Str) (id : ℕ) (w : LocalState S)
        → lookup key w.ids ≡ some id
        → (remove_local key w).cron ≡ lib.remove id w.cron
    unfolding remove_local remove_entry
    remove_lem key id w e = ap (λ o. (remove_entry key o w).cron) e

    -- A task that is added again under its key, both times with a spec that the scheduler takes,
    -- leaves its first entry behind: it had not run before, and it still runs after the key is
    -- removed. The second entry stops.
    pub readd_orphans :
        (spec name : Str) (t t' : T) (w : LocalState S)
        → (add_local spec name (some t) w).0 ≡ ok (task_key spec name)
        → (add_local spec name (some t') (added_local spec name t w)).0 ≡ ok (task_key spec name)
        → (first second : ℕ) × (runs first w.cron ≡ false)
          × (first ≢ second)
          × (runs first
                (remove_local
                  (task_key spec name)
                  (added_local spec name t' (added_local spec name t w))).cron
              ≡ true)
          × (runs second
                (remove_local
                  (task_key spec name)
                  (added_local spec name t' (added_local spec name t w))).cron
              ≡ false)
    readd_orphans spec name t t' w once twice =
        let w1 = added_local spec name t w in
        let w2 = added_local spec name t' w1 in
        let key = task_key spec name in
        let (first, _, fresh, grown) = add-NewEntry spec name t w once in
        let (second, held, fresh', grown') = add-NewEntry spec name t' w1 twice in
        let apart : first ≢ second =
          λ same. ground (arith, grown first, ==_iff first first, ap (λ j. runs j w1.cron) same) in
        (
          first,
          second,
          fresh,
          apart,
          ap (runs first) (remove_lem key second w2 held)
              ∙ law.remove second first w2.cron
              ∙ ground (arith, grown first, grown' first, ==_iff first first, ==_iff second first),
          ap (runs second) (remove_lem key second w2 held)
              ∙ law.remove second second w2.cron
              ∙ ground (arith, ==_iff second second),
        )
