-- ===== src/Examples/Flows.antt =====
-- Messages on their way over a Redis stream, at concrete inputs.
use taskbus.Prelude.{
  ℕ, suc, ℤ, some, lookup, ◌>>◌, pos, Str, codes, [], none, true, false, ◌>>=◌, ◌≡◌, refl, arith,
  str_eq,
}
use taskbus.Mq.{Err, external, ok, Message, background, Handler, noop_mq, wrap, with_job_key}
use taskbus.Topic.{match_topic, build_topic, build_wildcard_topic}
use taskbus.Topic.Isolation.{IsWord}
use taskbus.Retry.{RetryConfig, attempt, retry_delay}
use taskbus.Config.{Client}
use taskbus.Config.Namespace.{IsNamespace}
use taskbus.Redis.{
  Redis, Json, is_component_token, redis_stream_for_topic, stream_fields, decode_x_message,
}
use taskbus.Redis.Codec.{IsCopy, entry}
use taskbus.Redis.Component.{component_stream, handled, group_loses}
use taskbus.Redis.Worker.{
  publish, process_message, after_handler, publish_delay, after_republish, deliver_due, delay_key,
  delay_item,
}
use taskbus.Redis.Return.{retry_returns}
use taskbus.Retry.Chain.{bumped, IsRetry}
use taskbus.Jobs.{
  JobWorld, JobMethods, EnqueueOpts, job_component, enqueue_message, final_job_handler,
  build_handler,
}
use taskbus.Flow.{job_stream, job_delivered}
use taskbus.Examples.Settings.{bare, whole}

abbrev pub shop : Str
shop = codes "shop"

abbrev event : Str
event = codes "event"

pub shop-IsNamespace : IsNamespace shop
shop-IsNamespace = record { bytes = (refl, (refl, (refl, (refl, tt)))); starts = refl; ends = refl }

event-IsWord : IsWord event
event-IsWord = record { no_dot = ground arith; not_hash = ground arith; not_star = ground arith }

-- A server that drops everything.
abbrev pub server : {W : Type 0} → Redis W
server = record {
  x_add = λ ctx stream fields w. (none, w);
  x_ack = λ ctx stream group id w. (none, w);
  z_add = λ ctx key score s w. (none, w);
  z_range_by_score = λ ctx key top n w. (ok [], w);
  z_rem = λ ctx key s w. (none, w);
  now = λ w. (pos 0, w);
}

abbrev pub json : Json
json = record { marshal = λ d. d.topic; unmarshal = λ s. none }

abbrev pub retry : RetryConfig ℤ
retry = record { base = pos 1; factor = pos 2; max_retries = pos 3 }

abbrev created : Message
created = record {
  topic = build_topic shop event (codes "user.created");
  key = codes "7";
  body = codes "{}";
  headers = [];
}

abbrev count_runs : Handler ℕ
count_runs ctx m w = (none, suc w)

abbrev pub users : Str
users = codes "user.#"

abbrev orders : Str
orders = codes "order.#"

users_match : match_topic (build_topic shop event users) created.topic ≡ true
unfolding match_topic build_topic
users_match = refl

orders_miss : match_topic (build_topic shop event orders) created.topic ≡ false
unfolding match_topic build_topic
orders_miss = refl

pub shop-not_token : is_component_token shop ≡ false
unfolding is_component_token str_eq
shop-not_token = refl

event-token : is_component_token event ≡ true
unfolding is_component_token str_eq
event-token = refl

abbrev pub group : Str
group = codes "my-service"

abbrev pub id : Str
id = codes "1-1"

group_loses_example :
    (redis_stream_for_topic (build_topic shop event users) ≡ component_stream shop event)
    × (redis_stream_for_topic (build_topic shop event orders) ≡ component_stream shop event)
    × (process_message server json whole retry background
          (component_stream shop event)
          group
          (build_topic shop event orders)
          count_runs
          (entry created id)
        ≡ server.x_ack background (component_stream shop event) group id)
    × (process_message server json whole retry background
          (component_stream shop event)
          group
          (build_topic shop event users)
          count_runs
          (entry created id)
        ≡ handled shop event shop-IsNamespace event-IsWord shop-not_token event-token server json
            whole retry background group count_runs id created)
group_loses_example =
    group_loses shop event shop-IsNamespace event-IsWord shop-not_token event-token server json
      whole retry background group count_runs users orders (codes "user.created") id created refl
      (ground arith) users_match orders_miss

-- The message as a worker reads it, and as it is put off.
abbrev read_back : Message
read_back = decode_x_message (component_stream shop event) (entry created id)

abbrev put_off : Message
put_off = bumped 0 read_back

-- The item of that message is the only one that is read.
abbrev one_item : Json
one_item = record { marshal = λ d. d.topic; unmarshal = λ s. some (delay_item put_off) }

no_attempt : attempt created.headers ≡ pos 0
unfolding attempt lookup
no_attempt = refl

abbrev failed : Err
failed = external (codes "timeout")

retry_returns_example :
    (after_handler server one_item whole retry background
        (component_stream shop event)
        group
        id
        read_back
        (some failed)
      ≡ (do
        r ← publish_delay server one_item background put_off (retry_delay whole retry (pos 1))
        after_republish {W = ℕ} server one_item whole retry background
            (component_stream shop event)
            group
            id
            r))
    × IsRetry 1 read_back put_off
    × ((w : ℕ)
        → deliver_due server one_item (one_item.marshal (delay_item put_off)) w
          ≡ (do
            server.x_add background (component_stream shop event) (stream_fields put_off)
            server.z_rem background delay_key (one_item.marshal (delay_item put_off)))
              w)
    × (process_message server one_item whole retry background
          (component_stream shop event)
          group
          (build_wildcard_topic shop event)
          count_runs
          (entry put_off (codes "2-1"))
        ≡ handled shop event shop-IsNamespace event-IsWord shop-not_token event-token server
            one_item whole retry background group count_runs
            (codes "2-1")
            put_off)
    × (attempt
          (decode_x_message (component_stream shop event) (entry put_off (codes "2-1"))).headers
        ≡ pos 1)
retry_returns_example =
    retry_returns shop event shop-IsNamespace event-IsWord shop-not_token event-token server
      one_item whole retry background group count_runs (codes "user.created") id (codes "2-1")
      created failed 0 3 refl (ground arith) no_attempt refl (omega arith) (omega arith) refl

abbrev World : Type 0
World = JobWorld Str ℕ

abbrev methods : JobMethods Str ℕ
methods = record { name = λ j. j; execute = λ j ctx payload w. (none, w) }

abbrev job_server : Redis World
job_server = server

abbrev client : Client ℤ World
client = record { cfg = bare; mq = noop_mq; namespace = shop }

abbrev opts : EnqueueOpts
opts = record { delay = pos 0; key = codes "42" }

abbrev mail : Message
mail = enqueue_message methods client (codes "mail.send") (codes "{}") opts

abbrev stream : Str
stream = job_stream methods client job_server json whole retry

job_delivered_example :
    (publish job_server json background mail
      ≡ job_server.x_add background stream (stream_fields mail))
    × (process_message job_server json whole retry background stream group
          (build_wildcard_topic shop job_component)
          (build_handler methods client [])
          (entry mail id)
        ≡ (do
          e ←
              wrap []
                (final_job_handler methods client)
                (with_job_key background (codes "42"))
                (codes "mail.send")
                (codes "{}")
          after_handler job_server json whole retry background stream group id
              (decode_x_message stream (entry mail id))
              e))
    × IsCopy mail (decode_x_message stream (entry mail id))
    × (attempt (decode_x_message stream (entry mail id)).headers ≡ pos 0)
job_delivered_example =
    job_delivered methods client job_server json whole retry [] background background group
      (codes "mail.send") (codes "{}") id opts shop-IsNamespace shop-not_token (ground arith)
