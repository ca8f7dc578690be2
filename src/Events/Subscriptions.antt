-- ===== src/Events/Subscriptions.antt =====
-- eventbus_impl.go and wrap_defaults.go: the consumers of Subscribe, and the chain with a default
-- middleware.
use taskbus.Prelude.{ℕ, pos, nonpos, Str, List, [], ◌∷◌, ◌≡◌, ap, arith, subst, if◌then◌else◌}
use taskbus.Mq.{Context, background, Middleware, wrap}
use taskbus.Mq.Chain.{wrap-cons}
use taskbus.Mq.Consumers.{consume_n, Counts, Started, consume_n-Started}
use taskbus.Config.{Client}
use taskbus.Jobs.Workers.{rounds, Running, stop_function-Running}
use taskbus.Events.{
  Event, Filter, EventHandler, EventMiddleware, build_event_topic, build_event_handler, subscribe,
  converted,
}

module _ {F W : Type 0} (c : Client F W) where
  -- The consumers of one subscription.
  abbrev pub concurrency : ℕ
  concurrency =
      let n = c.cfg.event_bus.subscriber_concurrency in rounds (if nonpos n then pos 1 else n)

  -- A queue whose every call of Consume adds one consumer that its stop ends, or returns an error:
  -- Subscribe starts as many consumers as the configuration says, one where it says none, and the
  -- function it returns ends them, or it returns the error with no more running than before.
  pub subscribe-Running :
      (live : W → ℕ) (topic group : Str) (filter : Filter) (handler : EventHandler W)
      (mws : List (EventMiddleware W)) (w : W)
      → Counts c.mq live
      → Running live (live w) concurrency (subscribe c topic group filter handler mws w)
  unfolding subscribe
  subscribe-Running live topic group filter handler mws w counts =
      let t = build_event_topic c topic in
      let h = build_event_handler c filter handler mws in
      let r = consume_n c.mq background t group h concurrency [] w in
      stop_function-Running live (live w) concurrency r (
        subst (λ k. Started live (live w) k r) (omega arith)
          (consume_n-Started live c.mq counts background t group h concurrency (live w) [] w tt
            (omega arith)))

  -- The chain of a subscription with a default middleware.
  pub default_outermost :
      (mw : Middleware W) (mws : List (EventMiddleware W)) (handler : EventHandler W)
      (ctx : Context) (e : Event)
      → wrap (converted c mw ∷ mws) handler ctx e
        ≡ mw
            (λ ctx' msg. wrap mws handler ctx' e)
            ctx
            (record { topic = e.topic; key = e.subject; body = e.payload; headers = e.metadata })
  unfolding converted
  default_outermost mw mws handler ctx e =
      ap (λ h. h ctx e) (wrap-cons (converted c mw) mws handler)
