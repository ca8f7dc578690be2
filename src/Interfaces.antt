-- ===== src/Interfaces.antt =====
-- job.go, event.go, cron.go and wrap_defaults.go: the interfaces that a client gives out, their
-- no-op implementations, and the wrappers that put a default middleware in front.
use taskbus.Prelude.{ℤ, Str, GoMap, List, [], ◌∷◌, Option, none, Exec, pure, ◌≡◌, refl, ap, true}
use taskbus.Mq.{
  GoError, Result, ok, Message, Context, with_job_key, JobHandler, Middleware, JobMiddleware,
  CronFunc, CronMiddleware, Stop, wrap,
}
use taskbus.Mq.Chain.{wrap-cons}
use taskbus.Config.{Client}
use taskbus.Jobs.{
  JobWorld, JobMethods, EnqueueOption, register, enqueue, build_handler, final_job_handler,
  extract_job_name,
}
use taskbus.Jobs.Workers.{start_workers}
use taskbus.Events.{
  Event, Filter, EventHandler, EventMiddleware, publish_event, subscribe, converted,
  build_event_handler, message_to_event, accepts,
}

-- The interface Jobs; a nil job is `none`.
pub record JobsApi (Job W : Type 0) : Type 0 where
  pub register : Option Job → Exec W (Unit {0})
  pub enqueue : Context → Str → Str → List EnqueueOption → Exec W GoError
  pub start_workers : Context → GoMap ℤ → List (JobMiddleware W) → Exec W (Result (Stop W))

-- The interface EventBus.
pub record EventBusApi (W : Type 0) : Type 0 where
  pub publish : Context → Event → Exec W GoError
  pub subscribe :
      Str → Str → Filter → EventHandler W → List (EventMiddleware W) → Exec W (Result (Stop W))

-- The interface Cron; a nil function is `none`.
pub record CronApi (W : Type 0) : Type 0 where
  pub add : Str → Str → Option (CronFunc W) → List (CronMiddleware W) → Exec W (Result Str)
  pub remove : Str → Exec W GoError
  pub start : Context → Exec W GoError
  pub stop : Context → Exec W GoError

module _ {W : Type 0} where
  -- The function that a no-op returns as a stop.
  abbrev pub stop_nothing : Stop W
  stop_nothing ctx = pure none

  abbrev pub noop_jobs : {Job : Type 0} → JobsApi Job W
  noop_jobs = record {
    register = λ job w. (tt, w);
    enqueue = λ ctx name payload opts. pure none;
    start_workers = λ ctx groups mws. pure (ok stop_nothing);
  }

  abbrev pub noop_bus : EventBusApi W
  noop_bus = record {
    publish = λ ctx e. pure none;
    subscribe = λ topic group filter handler mws. pure (ok stop_nothing);
  }

  abbrev pub noop_cron : CronApi W
  noop_cron = record {
    add = λ spec name fn mws. pure (ok []);
    remove = λ id. pure none;
    start = λ ctx. pure none;
    stop = λ ctx. pure none;
  }

  -- withDefaultJobMiddleware: StartWorkers alone is replaced.
  unfoldable pub with_default_job_middleware :
      {Job : Type 0} → JobsApi Job W → JobMiddleware W → JobsApi Job W
  with_default_job_middleware jobs mw = record jobs {
    start_workers = λ ctx groups mws. jobs.start_workers ctx groups (mw ∷ mws);
  }

  -- withDefaultBusMiddleware: Subscribe alone is replaced.
  unfoldable pub with_default_bus_middleware :
      {F : Type 0} → Client F W → EventBusApi W → Middleware W → EventBusApi W
  with_default_bus_middleware c bus mw = record bus {
    subscribe = λ topic group filter handler mws.
        bus.subscribe topic group filter handler (converted c mw ∷ mws);
  }

module _ {Job E F : Type 0} (methods : JobMethods Job E) (c : Client F (JobWorld Job E)) where
  -- The implementations of jobs_impl.go and eventbus_impl.go behind the interfaces.
  abbrev pub client_jobs : JobsApi Job (JobWorld Job E)
  client_jobs = record {
    register = register methods c;
    enqueue = enqueue methods c;
    start_workers = start_workers methods c;
  }

  abbrev pub client_bus : EventBusApi (JobWorld Job E)
  client_bus = record { publish = publish_event c; subscribe = subscribe c }

  built_first :
      (mw : JobMiddleware (JobWorld Job E)) (mws : List (JobMiddleware (JobWorld Job E)))
      (ctx : Context) (m : Message)
      → build_handler methods c (mw ∷ mws) ctx m
        ≡ mw
            (wrap mws (final_job_handler methods c))
            (with_job_key ctx m.key)
            (extract_job_name c.namespace m.topic)
            m.body
  unfolding build_handler
  built_first mw mws ctx m =
      ap
        (λ (h : JobHandler (JobWorld Job E)).
          h (with_job_key ctx m.key) (extract_job_name c.namespace m.topic) m.body)
        (wrap-cons mw mws (final_job_handler methods c))

  event_first :
      (mw : Middleware (JobWorld Job E)) (mws : List (EventMiddleware (JobWorld Job E)))
      (filter : Filter) (handler : EventHandler (JobWorld Job E)) (ctx : Context) (m : Message)
      → accepts c filter (message_to_event c m) ≡ true
      → build_event_handler c filter handler (converted c mw ∷ mws) ctx m
        ≡ mw
            (λ ctx' msg. wrap mws handler ctx' (message_to_event c m))
            ctx
            (let e = message_to_event c m in
              record { topic = e.topic; key = e.subject; body = e.payload; headers = e.metadata })
  unfolding build_event_handler converted
  event_first mw mws filter handler ctx m e = rw e (
      ap (λ (h : EventHandler (JobWorld Job E)). h ctx (message_to_event c m))
        (wrap-cons (converted c mw) mws handler))

  -- The defaults that New installs are the outermost: workers started through the wrapped jobs run
  -- the default round the caller's middlewares and the registered job, and subscribers through the
  -- wrapped bus run it round theirs, on events that their filter accepts. All else is passed on.
  pub defaults_first :
      (mw : JobMiddleware (JobWorld Job E)) (mws : List (JobMiddleware (JobWorld Job E)))
      (bus_mw : Middleware (JobWorld Job E)) (event_mws : List (EventMiddleware (JobWorld Job E)))
      (ctx : Context) (groups : GoMap ℤ) (topic group : Str) (filter : Filter)
      (handler : EventHandler (JobWorld Job E)) (m : Message)
      → accepts c filter (message_to_event c m) ≡ true
      → let jobs = with_default_job_middleware client_jobs mw in
        let bus = with_default_bus_middleware c client_bus bus_mw in
        let e = message_to_event c m in
        (jobs.start_workers ctx groups mws ≡ start_workers methods c ctx groups (mw ∷ mws))
        × (build_handler methods c (mw ∷ mws) ctx m
            ≡ mw
                (wrap mws (final_job_handler methods c))
                (with_job_key ctx m.key)
                (extract_job_name c.namespace m.topic)
                m.body)
        × (bus.subscribe topic group filter handler event_mws
            ≡ subscribe c topic group filter handler (converted c bus_mw ∷ event_mws))
        × (build_event_handler c filter handler (converted c bus_mw ∷ event_mws) ctx m
            ≡ bus_mw
                (λ ctx' msg. wrap event_mws handler ctx' e)
                ctx
                (record {
                  topic = e.topic;
                  key = e.subject;
                  body = e.payload;
                  headers = e.metadata;
                }))
        × (jobs.enqueue ≡ enqueue methods c)
        × (bus.publish ≡ publish_event c)
  unfolding with_default_job_middleware with_default_bus_middleware
  defaults_first mw mws bus_mw event_mws ctx groups topic group filter handler m e = (
    refl,
    built_first mw mws ctx m,
    refl,
    event_first bus_mw event_mws filter handler ctx m e,
    refl,
    refl,
  )
