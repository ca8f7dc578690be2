-- ===== src/Examples/Messages.antt =====
-- Jobs and events at concrete inputs, over a queue that keeps what is published and counts its
-- consumers.
use taskbus.Prelude.{
  ℕ, ◌+◌, ◌-◌, ℤ, pos, Str, GoMap, codes, List, [], ◌∷◌, none, ◌≡◌, refl, arith, if◌then◌else◌,
  nonpos,
}
use taskbus.Mq.{ok, Message, background, with_job_key, Mq, wrap}
use taskbus.Mq.Consumers.{Counts}
use taskbus.Config.{Client}
use taskbus.Retry.{attempt}
use taskbus.Jobs.{
  JobWorld, JobMethods, enqueue_message, enqueue, final_job_handler, build_handler, with_delay,
  with_key, EnqueueOption,
}
use taskbus.Jobs.Routing.{registered, options, enqueued_runs}
use taskbus.Jobs.Groups.{normalize_groups}
use taskbus.Jobs.Workers.{Running, total, start_workers, start_workers-Running}
use taskbus.Events.{Event, EventHandler}
use taskbus.Examples.Settings.{bare}

-- A job is its name; running it changes nothing.
abbrev methods : JobMethods Str ℕ
methods = record { name = λ j. j; execute = λ j ctx payload w. (none, w) }

abbrev World : Type 0
World = JobWorld Str ℕ

abbrev live : World → ℕ
live w = w.env

abbrev queue : Mq World
queue = record {
  publish = λ ctx m w. (none, w);
  publish_delay = λ ctx m d w. (none, w);
  consume = λ ctx topic group h mws w.
      (ok (λ ctx' w'. (none, record w' { env = w'.env - 1 })), record w { env = w.env + 1 });
  close = λ ctx w. (none, w);
}

queue-Counts : Counts queue live
queue-Counts = record { consume = λ ctx topic group h w. (refl, λ ctx' w'. refl) }

abbrev client : Client ℤ World
client = record { cfg = bare; mq = queue; namespace = codes "shop" }

abbrev mail : Str
mail = codes "mail.send"

abbrev idle : World
idle = record { reg = []; env = 0 }

abbrev sent : Message
sent =
    enqueue_message methods client mail (codes "{}")
      (options methods client (with_delay (pos 5) ∷ with_key (codes "42") ∷ []))

abbrev opts : List EnqueueOption
opts = with_delay (pos 5) ∷ with_key (codes "42") ∷ []

enqueued_runs_example :
    let o = options methods client opts in
    let m = enqueue_message methods client mail (codes "{}") o in
    (enqueue methods client background mail (codes "{}") opts ≡ (
      if nonpos o.delay
      then client.mq.publish background m
      else client.mq.publish_delay background m o.delay))
    × (build_handler methods client [] background m
        ≡ wrap []
            (final_job_handler methods client)
            (with_job_key background o.key)
            mail
            (codes "{}"))
    × (final_job_handler methods client
          (with_job_key background o.key)
          mail
          (codes "{}")
          (registered methods client mail idle)
        ≡ methods.execute mail
            (with_job_key background o.key)
            (codes "{}")
            (registered methods client mail idle))
    × (attempt m.headers ≡ pos 0)
enqueued_runs_example =
    enqueued_runs methods client mail idle background background (codes "{}") opts [] (ground arith)

abbrev groups : GoMap ℤ
groups = (codes "mail", pos 2) ∷ (codes "bill", pos 1) ∷ []

start_workers-Running_example :
    Running live 0
      (total (normalize_groups client groups))
      (start_workers methods client background groups [] idle)
start_workers-Running_example =
    start_workers-Running methods client live background groups [] idle queue-Counts

abbrev paid : Event
paid = record {
  topic = codes "order.paid";
  type = codes "OrderPaid";
  subject = codes "42";
  metadata = (codes "source", codes "web") ∷ [];
  payload = codes "{}";
}

abbrev on_event : EventHandler World
on_event ctx e w = (none, w)
