-- ===== src/Redis/Scheduler.antt =====
-- redis_adapter.go: the goroutine of the delay scheduler, and the members that its rounds take.
use taskbus.Prelude.{
  ℤ, ℕ, Str, GoMap, List, [], ◌∷◌, Option, none, some, Exec, pure, ◌>>◌, ◌≡◌, ◌∙◌, refl, ap, delete,
}
use taskbus.Mq.{GoError, Result, ok, err, Context, background}
use taskbus.Redis.{Redis, Json, DelayItem}
use taskbus.Redis.Worker.{
  delay_key, unix_milli, publish_stream, publish_due, deliver_due, deliver_all, deliver_range,
  scheduler_round,
}

-- What the `select` finds: 200 milliseconds have passed, or `stopCh` is closed.
pub data Wake : Type 0 where
  tick : Wake
  stopped : Wake

module _ {W : Type 0} (rd : Redis W) (json : Json) where
  -- The goroutine of startDelayScheduler.
  unfoldable pub run_scheduler : List Wake → Exec W GoError
  unfolding scheduler_round
  run_scheduler [] = pure none
  run_scheduler (stopped ∷ wakes) = pure none
  run_scheduler (tick ∷ wakes) = do scheduler_round rd json; run_scheduler wakes

  -- A server that can be reached: a removal takes its member out, and the other commands of a round
  -- leave the members alone.
  pub record Takes (scores : W → GoMap ℤ) : Type 0 where
    pub z_rem :
        (ctx : Context) (s : Str) (w : W)
        → scores (rd.z_rem ctx delay_key s w).1 ≡ delete s (scores w)
    pub x_add :
        (ctx : Context) (stream : Str) (fields : GoMap Str) (w : W)
        → scores (rd.x_add ctx stream fields w).1 ≡ scores w
    pub z_range_by_score :
        (ctx : Context) (top : ℤ) (n : ℕ) (w : W)
        → scores (rd.z_range_by_score ctx delay_key top n w).1 ≡ scores w
    pub now : (w : W) → scores (rd.now w).1 ≡ scores w

  abbrev pub delete_all : List Str → GoMap ℤ → GoMap ℤ
  delete_all [] m = m
  delete_all (s ∷ items) m = delete_all items (delete s m)

  -- The members of an answer.
  abbrev pub answered : Result (List Str) → List Str
  answered (ok items) = items
  answered (err e) = []

  module _ (scores : W → GoMap ℤ) (law : Takes scores) where
    publish_due-scores :
        (o : Option DelayItem) (w : W) → scores (publish_due rd json o w).1 ≡ scores w
    unfolding publish_due publish_stream
    publish_due-scores none w = refl
    publish_due-scores (some d) w = law.x_add background _ _ w

    deliver_due-scores :
        (s : Str) (w : W) → scores (deliver_due rd json s w).1 ≡ delete s (scores w)
    unfolding deliver_due
    deliver_due-scores s w =
        law.z_rem background s (publish_due rd json (json.unmarshal s) w).1
        ∙ ap (delete s) (publish_due-scores (json.unmarshal s) w)

    deliver_all-scores :
        (items : List Str) (w : W)
        → scores (deliver_all rd json items w).1 ≡ delete_all items (scores w)
    unfolding deliver_all
    deliver_all-scores [] w = refl
    deliver_all-scores (s ∷ items) w =
        deliver_all-scores items (deliver_due rd json s w).1
        ∙ ap (delete_all items) (deliver_due-scores s w)

    deliver_range-scores :
        (r : Result (List Str)) (w : W)
        → scores (deliver_range rd json r w).1 ≡ delete_all (answered r) (scores w)
    unfolding deliver_range
    deliver_range-scores (ok items) w = deliver_all-scores items w
    deliver_range-scores (err e) w = refl

    -- A round takes out exactly the members that the server's answer names as due, also those that
    -- cannot be read or added to a stream, and no other; an error takes out none.
    pub scheduler_round-scores :
        (w : W)
        → let t = rd.now w in
          let r = rd.z_range_by_score background delay_key (unix_milli t.0) 100 t.1 in
          scores (scheduler_round rd json w).1 ≡ delete_all (answered r.0) (scores w)
    unfolding scheduler_round
    scheduler_round-scores w =
        let t = rd.now w in
        let r = rd.z_range_by_score background delay_key (unix_milli t.0) 100 t.1 in
        deliver_range-scores r.0 r.1
        ∙ ap (delete_all (answered r.0))
            (law.z_range_by_score background (unix_milli t.0) 100 t.1 ∙ law.now w)
