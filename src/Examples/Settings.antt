-- ===== src/Examples/Settings.antt =====
-- Configuration and consumer groups at concrete inputs.
use taskbus.Prelude.{ℤ, pos, nonpos, GoMap, codes, [], ◌∷◌, none, false, lookup, ◌≡◌, refl}
use mathlib.Core.List.{Permᴰ}
use taskbus.Mq.{noop_mq}
use taskbus.Retry.{Float64}
use taskbus.Config.{Config, Client, RabbitMqConfig, RedisConfig}
use taskbus.Jobs.Groups.{normalize_groups, largest, asked, lookup-normalize_groups}
use taskbus.Jobs.Order.{normalize_groups-perm}

-- Whole numbers in the place of float64; the defaults use none of the operations.
abbrev pub whole : Float64
whole = record {
  F = ℤ;
  two = pos 2;
  nonpos_float = nonpos;
  of_int = λ n. n;
  mul = λ a b. a;
  pow = λ a b. a;
  to_int = λ n. n;
}

abbrev pub no_rabbitmq : RabbitMqConfig
no_rabbitmq = record {
  uri = [];
  exchange = [];
  delayed_exchange = [];
  prefetch = pos 0;
  consumer_concurrency = pos 0;
  delay_mode = [];
}

abbrev pub no_redis : RedisConfig
no_redis = record {
  addr = [];
  username = [];
  password = [];
  db = pos 0;
  consumer_concurrency = pos 0;
}

-- Only the provider is set.
abbrev pub bare : {W : Type 0} → Config ℤ W
bare = record {
  namespace = codes "shop";
  mq = record {
    provider = codes "rabbitmq";
    rabbitmq = no_rabbitmq;
    redis = no_redis;
    retry = record { base = pos 0; factor = pos 0; max_retries = pos 0 };
  };
  job = record {
    retry = record { base = pos 0; factor = pos 0; max_retries = pos 0 };
    dead_letter_topic = [];
    group_prefix = [];
    default_group = [];
  };
  cron = record {
    timezone = [];
    distributed = false;
    leader_lock_key = [];
    leader_ttl = pos 0;
    executor_group = [];
  };
  event_bus = record { mode = []; subscriber_concurrency = pos 0 };
  streams = [];
  logger_level = [];
  idempotency = record {
    kv = none;
    redis_addr = [];
    redis_username = [];
    redis_password = [];
    redis_db = pos 0;
    prefix = [];
    ttl = pos 0;
    key_func = none;
  };
}

abbrev client : Client ℤ Unit
client = record { cfg = bare; mq = noop_mq; namespace = codes "shop" }

-- Two groups; the second asks for no worker.
abbrev groups : GoMap ℤ
groups = (codes "mail", pos 2) ∷ (codes "bill", pos 0) ∷ []

abbrev backwards : GoMap ℤ
backwards = (codes "bill", pos 0) ∷ (codes "mail", pos 2) ∷ []

lookup-normalize_groups_example :
    lookup (codes "shop.mail") (normalize_groups client groups)
    ≡ largest client (codes "shop.mail") (asked client groups)
lookup-normalize_groups_example = lookup-normalize_groups client (codes "shop.mail") groups

normalize_groups-perm_example :
    lookup (codes "shop.bill") (normalize_groups client groups)
    ≡ lookup (codes "shop.bill") (normalize_groups client backwards)
normalize_groups-perm_example =
    normalize_groups-perm client (codes "shop.bill") groups backwards ∣ Permᴰ.swap refl refl ∣₁
