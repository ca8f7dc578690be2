-- ===== src/Examples/Repeats.antt =====
-- Repeated deliveries at concrete inputs: a store in memory, and a handler that counts its runs.
use taskbus.Prelude.{
  ℕ, suc, ◌+◌, ◌<◌, ℤ, pos, Str, codes, List, [], ◌∷◌, Option, none, some, Bool, true, false, ◌||◌,
  Exec, str_eq, str_eq_refl, replicate, length, max_int, ◌≡◌, ◌≢◌, refl, arith, if◌then◌else◌,
}
use taskbus.Mq.{GoError, external, Message, Context, background, Handler, JobHandler, noop_mq, wrap}
use taskbus.Config.{Client}
use taskbus.Events.{Event, EventHandler}
use taskbus.Events.Subjects.{default_chain, subject_collision}
use taskbus.Examples.Settings.{bare}
use taskbus.Retry.{retry_key, attempt}
use taskbus.Retry.Chain.{retries, Numbered, retries_exact}
use taskbus.Idempotency.{
  Kv, IdempotencyConfig, store_key, idempotent, job_middleware, default_job_key,
}
use taskbus.Idempotency.Once.{handle_all, SetsOnce, marked, once, payload_collision}

-- The marks, and the runs of the handler.
record Marks : Type 0 where
  marks : List Str
  runs : ℕ

is_marked : Str → List Str → Bool
is_marked k [] = false
is_marked k (j ∷ marks) = if str_eq j k then true else is_marked k marks

unfoldable set_nx : Str → Bool → Marks → (Bool × GoError) × Marks
set_nx k true w = ((false, none), w)
set_nx k false w = ((true, none), record w { marks = k ∷ w.marks })

abbrev memory_kv : Kv Marks
memory_kv = record { set_nx = λ ctx k v ttl w. set_nx k (is_marked k w.marks) w }

abbrev holds : Str → Marks → Bool
holds k w = is_marked k w.marks

memory_kv-SetsOnce : SetsOnce memory_kv holds
unfolding set_nx
memory_kv-SetsOnce = record {
  fresh = λ ctx k v ttl w h. rw h refl;
  seen = λ ctx k v ttl w h. rw h refl;
}

abbrev settings : IdempotencyConfig Marks
settings = record {
  kv = some memory_kv;
  redis_addr = [];
  redis_username = [];
  redis_password = [];
  redis_db = pos 0;
  prefix = [];
  ttl = pos 0;
  key_func = some default_job_key;
}

-- It fails, and has run once more.
abbrev failing : Handler Marks
failing ctx m w = (some (external (codes "down")), record w { runs = suc w.runs })

abbrev order : Message
order = record { topic = codes "orders.paid"; key = codes "42"; body = []; headers = [] }

abbrev fresh_world : Marks
fresh_world = record { marks = []; runs = 0 }

-- The failing delivery is not run again: one run, and the second delivery reports success.
once_example :
    handle_all
      (idempotent settings memory_kv failing)
      ((background, order) ∷ (background, order) ∷ [])
      fresh_world
    ≡ (
      some (external (codes "down")) ∷ replicate 1 none,
      (failing background order (marked settings memory_kv background order.key fresh_world)).1,
    )
unfolding set_nx is_marked
once_example =
    once settings memory_kv holds memory_kv-SetsOnce failing background order
      ((background, order) ∷ []) fresh_world (ground arith) (refl, tt) refl
      (rw (str_eq_refl (store_key settings (codes "42"))) refl)

abbrev counting : JobHandler Marks
counting ctx name payload w = (none, record w { runs = suc w.runs })

abbrev mail : Str
mail = codes "mail"

abbrev bill : Str
bill = codes "bill"

abbrev payload : Str
payload = codes "{}"

abbrev after_mail : Marks
after_mail =
    (counting background mail payload (marked settings memory_kv background payload fresh_world)).1

-- `bill` is skipped, since `mail` had the same payload.
payload_collision_example :
    (job_middleware (idempotent settings memory_kv) counting background mail payload fresh_world
      ≡ (none, after_mail))
    × (job_middleware (idempotent settings memory_kv) counting background bill payload after_mail
        ≡ (none, after_mail))
unfolding set_nx is_marked taskbus.Mq.job_key_from_context
payload_collision_example =
    payload_collision settings memory_kv refl holds memory_kv-SetsOnce counting background
      background mail bill payload fresh_world (ground arith) refl refl refl
      (rw (str_eq_refl (store_key settings payload)) refl)

abbrev tried_once : Message
tried_once = record order { headers = (retry_key, codes "1") ∷ [] }

retries_exact_example :
    (ms : List Message) × (retries 3 (pos 3) tried_once ≡ some ms)
    × (length ms ≡ 2)
    × Numbered 1 tried_once ms
unfolding attempt taskbus.Prelude.lookup taskbus.Prelude.str_eq taskbus.Prelude.atoi
retries_exact_example = retries_exact 2 1 3 tried_once refl refl (ground arith)

abbrev client : Client ℤ Marks
client = record { cfg = bare; mq = noop_mq; namespace = codes "shop" }

abbrev on_event : EventHandler Marks
on_event ctx e w = (none, record w { runs = suc w.runs })

abbrev created : Event
created = record {
  topic = codes "user.created";
  type = codes "UserCreated";
  subject = codes "user-1";
  metadata = [];
  payload = [];
}

abbrev deleted : Event
deleted = record created { topic = codes "user.deleted"; type = codes "UserDeleted" }

abbrev after_created : Marks
after_created =
    (wrap [] on_event background created
      (marked settings memory_kv background created.subject fresh_world)).1

-- The second event about the user is skipped.
subject_collision_example :
    (default_chain client settings memory_kv holds memory_kv-SetsOnce [] on_event background created
        fresh_world
      ≡ wrap [] on_event background created
          (marked settings memory_kv background created.subject fresh_world))
    × (default_chain client settings memory_kv holds memory_kv-SetsOnce [] on_event background
          deleted after_created
        ≡ (none, after_created))
unfolding set_nx is_marked wrap
subject_collision_example =
    subject_collision client settings memory_kv holds memory_kv-SetsOnce [] [] on_event on_event
      background background created deleted fresh_world (ground arith) refl refl
      (rw (str_eq_refl (store_key settings (codes "user-1"))) refl)
