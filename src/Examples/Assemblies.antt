-- ===== src/Examples/Assemblies.antt =====
-- Streams and the client at concrete inputs: Redis takes connections, RabbitMQ does not.
use taskbus.Prelude.{ℕ, suc, ℤ, Str, codes, GoMap, [], ◌∷◌, none, true, refl}
use taskbus.Mq.{external, ok, err, noop_mq}
use taskbus.Config.{Config, StreamInstanceConfig}
use taskbus.Streams.{Constructors}
use taskbus.App.{Factory, new}
use taskbus.App.Assembly.{Assembled, new-Assembled}
use taskbus.Examples.Settings.{bare, whole, no_rabbitmq, no_redis}

abbrev make : Constructors ℕ
make = record {
  new_rabbitmq = λ c mode w. (err (external (codes "refused")), w);
  new_redis = λ c w. (ok noop_mq, suc w);
}

abbrev instance_at : Str → StreamInstanceConfig
instance_at provider = record { provider = provider; rabbitmq = no_rabbitmq; redis = no_redis }

abbrev configs : GoMap StreamInstanceConfig
configs =
    (codes "audit", instance_at (codes "redis"))
    ∷ (codes "mail", instance_at (codes "rabbitmq"))
    ∷ []

abbrev factory : Factory ℤ ℕ
factory = record {
  with_retry = λ retry. make;
  without_retry = make;
  redis_kv = λ addr username password db. record { set_nx = λ ctx k v ttl w. ((true, none), w) };
}

abbrev asked : Config ℤ ℕ
asked = record bare {
  namespace = codes "Shop";
  mq = record (bare {W = ℕ}).mq { provider = codes "redis" };
  idempotency = record (bare {W = ℕ}).idempotency { redis_addr = codes "localhost:6379" };
}

new-Assembled_example : Assembled whole factory asked (new whole factory asked 0).0
new-Assembled_example = new-Assembled whole factory asked 0 refl
