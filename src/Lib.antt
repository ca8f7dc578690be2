-- ===== src/Lib.antt =====
-- taskbus is a Go library for message queues: background jobs, an event bus and cron tasks, over
-- RabbitMQ or Redis streams. A client is built from a configuration; jobs, events and cron tasks
-- are messages under topics `taskbus.<namespace>.<component>.<name>`, which an adapter publishes
-- and whose consumers run handlers inside chains of middlewares. A handler that fails is tried
-- again by publishing its message with a delay and a higher count.
--
-- Which file models which part:
-- - Prelude and its children: Boolean tests, lists, Go strings as lists of bytes, maps as
--   association lists, actions on a world, int as an integer with the wrap-around of 64 bits at
--   the places that count up, strconv.Itoa and Atoi.
-- - Topic (util.go): the names of topics and `matchTopic`. Topic/Tokens states the rules as a
--   relation, Topic/Matching relates the matcher to it, Topic/Isolation says what a wildcard
--   subscription receives.
-- - Mq (mq.go, middleware.go, job_context.go): messages, contexts, the interface MQ as a record of
--   actions, and the loop that wraps a chain. Mq/Consumers is the loop that starts consumers, as
--   StartWorkers of jobs_impl.go and Subscribe of eventbus_impl.go run it.
-- - Retry (mq.go, and the step after a failed handler in redis_adapter.go and rabbitmq_adapter.go).
-- - Sha1, Base64, Regex: crypto/sha1, encoding/base64 and regexp, as far as the code uses them.
-- - Idempotency (middleware_idempotency.go, kv_redis.go).
-- - Config (config.go, the defaults and the namespace in client.go).
-- - Jobs (job.go, jobs_impl.go): Jobs/Groups and Jobs/Order are the consumer groups, Jobs/Workers
--   is StartWorkers.
-- - Events (event.go, eventbus_impl.go, wrap_defaults.go).
-- - Interfaces (job.go, event.go, cron.go, wrap_defaults.go): the interfaces as records of actions,
--   their no-op values, and the default middlewares.
-- - Pool (redis_adapter.go and rabbitmq_adapter.go, Consume): the loop of a consumer and its workers
--   as interleaved steps over a source of messages, with the semaphore and the WaitGroup. A message
--   there is an entry that a round of Redis/Loop dispatches, or a delivery; the work on one is
--   `process_message` of Redis/Worker or `process_delivery` of Rabbit/Worker.
-- - Cron (cron_dist.go): registry, scheduler, triggers, executor. Cron/Life has Start and Stop,
--   Cron/Leader is leaderLoop against Stop as interleaved steps, Cron/Election the attempt to lead
--   with either provider and Cron/Election/Tokens its tokens, Cron/Lock the leader lock in Redis
--   as steps of all instances, Cron/Local is cron_impl_local.go.
-- - Streams (stream_manager.go) and App (New and Close of client.go).
-- - Redis (redis_adapter.go): Redis/Worker has the operations, Redis/Loop the reading loop,
--   Redis/Adapter the constructor, Consume, its stop and Close, Redis/Source the select of the
--   loop, Redis/Rounds what one round hands to the workers; the rest relates them.
-- - Rabbit (rabbitmq_adapter.go): Rabbit/Calls has the methods, Rabbit/Worker the deliveries,
--   Rabbit/Source the select of the loop.
-- - Flow: a job from Enqueue over a Redis stream to its worker; Flow/Events and Flow/Triggers the
--   same of an event and of a trigger of the cron.
-- - Examples: the theorems at concrete inputs.
--
-- A Go function with effects is an action on a world `W`: it takes the world and returns a value
-- with the world that it leaves, so what was done before an error stays done. An error is an
-- optional `Err`, a value with an error is a `Result`. A nil map reads as the empty one.
--
-- Parameters, since their code is not here: the Redis client and server (`Redis`), the AMQP client
-- and broker (`Amqp`), robfig/cron (`CronLib`), the key-value store (`Kv`), encoding/json (`Json`)
-- and float64 (`Float64`); `Session` and `Electoral` hold the calls of the Redis adapter's
-- constructor and Consume, and those of an election, with the goroutines that they start. What is
-- relied on of them stands in the records of laws next to the theorems: `SetsOnce`, `KeepsApart`,
-- `SortedSet`, `CountsChannels`, `CountsSettled`, `Entries`, `LocalEntries`, `CountsMade`,
-- `Counts`, `Books`, `CountsHeld`, `AnswersAtOnce`, `Takes`, `Limited`.
--
-- Bounds: `retries` of Retry/Chain runs on fuel, and one more than the number of attempts that are
-- left is enough. `rounds` of Redis/Loop counts the rounds of a loop that ends with its context.
-- All other loops are structural.
--
-- Not modelled: log output; the data that goroutines share beyond the counters of Pool, since each
-- worker's step on one entry or delivery is a function of its own; mutexes (an operation is one
-- step, except in Cron/Leader); the example programs, which call the library.
pub mod Prelude
pub mod Topic
pub mod Mq
pub mod Pool
pub mod Sha1
pub mod Base64
pub mod Retry
pub mod Idempotency
pub mod Regex
pub mod Config
pub mod Jobs
pub mod Events
pub mod Interfaces
pub mod Cron
pub mod Redis
pub mod Rabbit
pub mod Streams
pub mod App
pub mod Flow
pub mod Examples
