-- ===== src/Config/Defaults.antt =====
-- client.go: the configuration after applyDefaultConfig.
use taskbus.Prelude.{
  ℤ, pos, Str, codes, true, false, ◌≡◌, refl, arith, nonpos, is_empty, str_eq, Bool-cases, inl, inr,
}
use taskbus.Retry.{Float64, RetryConfig, second}
use taskbus.Config.{
  Config, RabbitMqConfig, RedisConfig, rabbitmq_defaults, redis_defaults, delay_mode_standard,
  or_default, or_positive, retry_defaults, mq_provider_rabbitmq, mq_provider_redis,
  apply_default_config,
}

abbrev pub IsRabbitMq : RabbitMqConfig → Type 0
IsRabbitMq c =
    (is_empty c.exchange ≡ false)
    × (is_empty c.delayed_exchange ≡ false)
    × (is_empty c.delay_mode ≡ false)
    × (nonpos c.prefetch ≡ false)
    × (nonpos c.consumer_concurrency ≡ false)

module _ (fl : Float64) where
  open fl use {F, two, nonpos_float}

  pub record IsRetry (r : RetryConfig F) : Type 0 where
    pub base : nonpos r.base ≡ false
    pub factor : nonpos_float r.factor ≡ false
    pub max_retries : nonpos r.max_retries ≡ false

  -- Every value that the program reads is usable.
  pub record IsComplete {W : Type 0} (cfg : Config F W) : Type 0 where
    pub job_retry : IsRetry cfg.job.retry
    pub mq_retry : IsRetry cfg.mq.retry
    pub default_group : is_empty cfg.job.default_group ≡ false
    pub leader_lock_key : is_empty cfg.cron.leader_lock_key ≡ false
    pub leader_ttl : nonpos cfg.cron.leader_ttl ≡ false
    pub distributed : cfg.cron.distributed ≡ true
    pub mode : is_empty cfg.event_bus.mode ≡ false
    pub subscriber_concurrency : nonpos cfg.event_bus.subscriber_concurrency ≡ false
    pub rabbitmq : str_eq cfg.mq.provider mq_provider_rabbitmq ≡ true → IsRabbitMq cfg.mq.rabbitmq
    pub redis :
        str_eq cfg.mq.provider mq_provider_redis ≡ true
        → nonpos cfg.mq.redis.consumer_concurrency ≡ false

  or_default_full : (x d : Str) → is_empty d ≡ false → is_empty (or_default x d) ≡ false
  or_default_full x d h = ground arith

  or_positive_full : (n d : ℤ) → nonpos d ≡ false → nonpos (or_positive n d) ≡ false
  or_positive_full n d h = elim (Bool-cases (nonpos n)) [ inl e ↦ rw e h | inr e ↦ rw e e ]

  retry_defaults-IsRetry : (d r : RetryConfig F) → IsRetry d → IsRetry (retry_defaults fl d r)
  unfolding retry_defaults
  retry_defaults-IsRetry d r h = record {
    base = or_positive_full r.base d.base h.base;
    factor = elim (Bool-cases (nonpos_float r.factor)) [ inl e ↦ rw e h.factor | inr e ↦ rw e e ];
    max_retries = or_positive_full r.max_retries d.max_retries h.max_retries;
  }

  first-IsRetry :
      (r : RetryConfig F)
      → nonpos_float two ≡ false
      → IsRetry (retry_defaults fl (record { base = second; factor = two; max_retries = pos 3 }) r)
  first-IsRetry r h =
      retry_defaults-IsRetry _ r (record { base = refl; factor = h; max_retries = refl })

  rabbitmq_full : (c : RabbitMqConfig) → IsRabbitMq (rabbitmq_defaults fl c)
  unfolding rabbitmq_defaults
  rabbitmq_full c = (
    or_default_full c.exchange (codes "taskbus.events") refl,
    or_default_full c.delayed_exchange (codes "taskbus.events.delayed") refl,
    or_default_full c.delay_mode delay_mode_standard refl,
    or_positive_full c.prefetch (pos 64) refl,
    or_positive_full c.consumer_concurrency (pos 4) refl,
  )

  redis_full : (c : RedisConfig) → nonpos (redis_defaults fl c).consumer_concurrency ≡ false
  unfolding redis_defaults
  redis_full c = or_positive_full c.consumer_concurrency (pos 4) refl

  module _ {W : Type 0} where
    -- With two greater than zero, every configuration is complete after the defaults.
    pub apply_default_config-IsComplete :
        (cfg : Config F W) → nonpos_float two ≡ false → IsComplete (apply_default_config fl cfg)
    unfolding apply_default_config
    apply_default_config-IsComplete cfg h = record {
      job_retry = first-IsRetry cfg.job.retry h;
      mq_retry = retry_defaults-IsRetry _ cfg.mq.retry (first-IsRetry cfg.job.retry h);
      default_group = ground arith;
      leader_lock_key = ground arith;
      leader_ttl = or_positive_full cfg.cron.leader_ttl (pos 30000000000) refl;
      distributed = ground arith;
      mode = ground arith;
      subscriber_concurrency = or_positive_full cfg.event_bus.subscriber_concurrency (pos 1) refl;
      rabbitmq = λ p. rw p (rabbitmq_full cfg.mq.rabbitmq);
      redis = λ p. rw p (redis_full cfg.mq.redis);
    }

    -- A complete configuration is left as it is.
    pub apply_default_config_complete :
        (cfg : Config F W) → IsComplete cfg → apply_default_config fl cfg ≡ cfg
    unfolding apply_default_config
    apply_default_config_complete cfg h = ground arith
