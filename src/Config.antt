-- ===== src/Config.antt =====
-- config.go, and the defaults and the validation of client.go. Types over string are texts.
pub mod Namespace
pub mod Defaults
use taskbus.Prelude.{
  ℤ, pos, Str, codes, GoMap, ◌++◌, Bool, true, false, not, nonpos, is_empty, str_eq, if◌then◌else◌,
}
use taskbus.Mq.{Mq}
use taskbus.Retry.{Float64, RetryConfig, second}
use taskbus.Idempotency.{IdempotencyConfig}

abbrev pub delay_mode_standard : Str
delay_mode_standard = codes "standard"

abbrev pub delay_mode_aliyun : Str
delay_mode_aliyun = codes "aliyun"

abbrev pub mq_provider_rabbitmq : Str
mq_provider_rabbitmq = codes "rabbitmq"

abbrev pub mq_provider_redis : Str
mq_provider_redis = codes "redis"

abbrev pub event_bus_mode_isolated : Str
event_bus_mode_isolated = codes "isolated"

abbrev pub event_bus_mode_global : Str
event_bus_mode_global = codes "global"

pub record RabbitMqConfig : Type 0 where
  pub uri : Str
  pub exchange : Str
  pub delayed_exchange : Str
  pub prefetch : ℤ
  pub consumer_concurrency : ℤ
  pub delay_mode : Str

pub record RedisConfig : Type 0 where
  pub addr : Str
  pub username : Str
  pub password : Str
  pub db : ℤ
  pub consumer_concurrency : ℤ

pub record MqConfig (F : Type 0) : Type 0 where
  pub provider : Str
  pub rabbitmq : RabbitMqConfig
  pub redis : RedisConfig
  pub retry : RetryConfig F

pub record JobConfig (F : Type 0) : Type 0 where
  pub retry : RetryConfig F
  pub dead_letter_topic : Str
  pub group_prefix : Str
  pub default_group : Str

pub record CronConfig : Type 0 where
  pub timezone : Str
  pub distributed : Bool
  pub leader_lock_key : Str
  pub leader_ttl : ℤ
  pub executor_group : Str

pub record EventBusConfig : Type 0 where
  pub mode : Str
  pub subscriber_concurrency : ℤ

pub record StreamInstanceConfig : Type 0 where
  pub provider : Str
  pub rabbitmq : RabbitMqConfig
  pub redis : RedisConfig

pub record Config (F W : Type 0) : Type 0 where
  pub namespace : Str
  pub mq : MqConfig F
  pub job : JobConfig F
  pub cron : CronConfig
  pub event_bus : EventBusConfig
  pub streams : GoMap StreamInstanceConfig
  pub logger_level : Str
  pub idempotency : IdempotencyConfig W

-- `if x == "" { x = d }` and `if n <= 0 { n = d }`
abbrev pub or_default : Str → Str → Str
or_default x d = if is_empty x then d else x

abbrev pub or_positive : ℤ → ℤ → ℤ
or_positive n d = if nonpos n then d else n

module _ (fl : Float64) where
  open fl use {F, two, nonpos_float}

  abbrev or_positive_float : F → F → F
  or_positive_float x d = if nonpos_float x then d else x

  -- The lines for `retry`, with the values that stand in for missing ones.
  pub retry_defaults : RetryConfig F → RetryConfig F → RetryConfig F
  retry_defaults d retry = record {
    base = or_positive retry.base d.base;
    factor = or_positive_float retry.factor d.factor;
    max_retries = or_positive retry.max_retries d.max_retries;
  }

  pub job_defaults : JobConfig F → JobConfig F
  unfolding retry_defaults
  job_defaults c = record c {
    default_group = or_default c.default_group (codes "default");
    retry = retry_defaults (record { base = second; factor = two; max_retries = pos 3 }) c.retry;
  }

  pub rabbitmq_defaults : RabbitMqConfig → RabbitMqConfig
  rabbitmq_defaults c = record c {
    delay_mode = or_default c.delay_mode delay_mode_standard;
    exchange = or_default c.exchange (codes "taskbus.events");
    delayed_exchange = or_default c.delayed_exchange (codes "taskbus.events.delayed");
    prefetch = or_positive c.prefetch (pos 64);
    consumer_concurrency = or_positive c.consumer_concurrency (pos 4);
  }

  pub redis_defaults : RedisConfig → RedisConfig
  redis_defaults c = record c { consumer_concurrency = or_positive c.consumer_concurrency (pos 4) }

  -- The MQ part: its retry values fall back to the job's, already defaulted.
  unfoldable pub mq_defaults : RetryConfig F → MqConfig F → MqConfig F
  unfolding retry_defaults rabbitmq_defaults redis_defaults
  mq_defaults job_retry c = record c {
    retry = retry_defaults job_retry c.retry;
    rabbitmq =
        if str_eq c.provider mq_provider_rabbitmq then rabbitmq_defaults c.rabbitmq else c.rabbitmq;
    redis = if str_eq c.provider mq_provider_redis then redis_defaults c.redis else c.redis;
  }

  pub cron_defaults : Str → CronConfig → CronConfig
  cron_defaults namespace c = record c {
    distributed = if not c.distributed then true else c.distributed;
    leader_lock_key = or_default c.leader_lock_key (codes "taskbus:cron:" ++ namespace);
    leader_ttl = or_positive c.leader_ttl (pos 30000000000);
  }

  pub event_bus_defaults : EventBusConfig → EventBusConfig
  event_bus_defaults c = record {
    mode = or_default c.mode event_bus_mode_isolated;
    subscriber_concurrency = or_positive c.subscriber_concurrency (pos 1);
  }

  module _ {W : Type 0} where
    unfoldable pub apply_default_config : Config F W → Config F W
    unfolding job_defaults mq_defaults cron_defaults event_bus_defaults
    apply_default_config cfg =
        let job = job_defaults cfg.job in
        record cfg {
          job = job;
          mq = mq_defaults job.retry cfg.mq;
          cron = cron_defaults cfg.namespace cfg.cron;
          event_bus = event_bus_defaults cfg.event_bus;
        }

-- The fields of the struct client that Jobs, Cron and EventBus read.
pub record Client (F W : Type 0) : Type 0 where
  pub cfg : Config F W
  pub mq : Mq W
  pub namespace : Str
