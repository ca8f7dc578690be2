-- ===== src/Events/Subjects.antt =====
-- wrap_defaults.go: what the default idempotency does to events, whose key is their subject.
use taskbus.Prelude.{Str, [], ◌∷◌, List, none, true, false, Bool, ◌≡◌, ◌≢◌, ◌∙◌, sym, ap}
use taskbus.Mq.{Context, wrap}
use taskbus.Idempotency.{Kv, IdempotencyConfig, store_key, guarded, idempotent}
use taskbus.Idempotency.Once.{SetsOnce, marked, idempotent_keyed, guarded_fresh, guarded_seen}
use taskbus.Config.{Client}
use taskbus.Events.{Event, EventHandler, EventMiddleware, converted}
use taskbus.Events.Subscriptions.{default_outermost}

module _ {F W : Type 0} (c : Client F W) (cfg : IdempotencyConfig W) (kv : Kv W)
    (holds : Str → W → Bool) (law : SetsOnce kv holds) where
  -- The chain of a subscription, under the default idempotency.
  abbrev pub default_chain : List (EventMiddleware W) → EventHandler W → EventHandler W
  default_chain mws handler = wrap (converted c (idempotent cfg kv) ∷ mws) handler

  keyed_by_subject :
      (mws : List (EventMiddleware W)) (handler : EventHandler W) (ctx : Context) (e : Event)
      (w : W)
      → e.subject ≢ []
      → default_chain mws handler ctx e w ≡ guarded cfg kv ctx e.subject (wrap mws handler ctx e) w
  keyed_by_subject mws handler ctx e w n =
      ap (λ f. f w) (default_outermost c (idempotent cfg kv) mws handler ctx e)
      ∙ idempotent_keyed cfg kv (λ ctx' msg. wrap mws handler ctx' e) ctx
          (record { topic = e.topic; key = e.subject; body = e.payload; headers = e.metadata }) w n

  -- When an event has been handled, every event with the same subject is skipped: another event
  -- about it, and the same one in another subscription. The subject is not empty, not marked
  -- before, and still marked when the first chain returns.
  pub subject_collision :
      (mws mws' : List (EventMiddleware W)) (handler handler' : EventHandler W) (ctx ctx' : Context)
      (e e' : Event) (w : W)
      → e.subject ≢ []
      → e'.subject ≡ e.subject
      → holds (store_key cfg e.subject) w ≡ false
      → holds (store_key cfg e.subject) (wrap mws handler ctx e (marked cfg kv ctx e.subject w)).1
        ≡ true
      → let w1 = (wrap mws handler ctx e (marked cfg kv ctx e.subject w)).1 in
        (default_chain mws handler ctx e w ≡ wrap mws handler ctx e (marked cfg kv ctx e.subject w))
        × (default_chain mws' handler' ctx' e' w1 ≡ (none, w1))
  subject_collision mws mws' handler handler' ctx ctx' e e' w n same h kept =
      let w1 = (wrap mws handler ctx e (marked cfg kv ctx e.subject w)).1 in
      (
        keyed_by_subject mws handler ctx e w n
            ∙ guarded_fresh cfg kv holds law ctx e.subject (wrap mws handler ctx e) w n h,
        keyed_by_subject mws' handler' ctx' e' w1 (λ empty. n (sym same ∙ empty))
            ∙ ap (λ k. guarded cfg kv ctx' k (wrap mws' handler' ctx' e') w1) same
            ∙ guarded_seen cfg kv holds law ctx' e.subject (wrap mws' handler' ctx' e') w1 n kept,
      )
