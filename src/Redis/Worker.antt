-- ===== src/Redis/Worker.antt =====
-- redis_adapter.go: publishing, one round of the delay scheduler, and what a worker does with one
-- entry. The goroutines that run these at the same time are not modelled here.
use taskbus.Prelude.{
  ℤ, Str, codes, List, [], ◌∷◌, Option, none, some, Exec, pure, ◌>>=◌, ◌>>◌, ◌+ℤ◌, floor_div,
  succ_int, if◌then◌else◌,
}
use taskbus.Mq.{GoError, Result, ok, err, Message, Context, background, Handler}
use taskbus.Topic.{match_topic}
use taskbus.Base64.{encode_base64, decode_base64}
use taskbus.Retry.{Float64, RetryConfig, attempt, retry_message, retry_delay}
use taskbus.Redis.{
  Redis, Json, DelayItem, XMessage, redis_stream_for_topic, stream_fields, decode_x_message,
}

abbrev pub delay_key : Str
delay_key = codes "tq:delay"

-- Milliseconds, from nanoseconds.
abbrev pub unix_milli : ℤ → ℤ
unix_milli t = floor_div t 1000000

unfoldable pub delay_item : Message → DelayItem
delay_item m = record {
  topic = m.topic;
  key = m.key;
  body_b64 = encode_base64 m.body;
  headers = m.headers;
}

unfoldable pub item_message : DelayItem → Message
item_message d = record {
  topic = d.topic;
  key = d.key;
  body = decode_base64 d.body_b64;
  headers = d.headers;
}

module _ {W : Type 0} (rd : Redis W) (json : Json) where
  unfoldable pub publish_stream : Context → Message → Exec W GoError
  publish_stream ctx m = rd.x_add ctx (redis_stream_for_topic m.topic) (stream_fields m)

  -- Publish
  unfoldable pub publish : Context → Message → Exec W GoError
  unfolding publish_stream
  publish ctx m = publish_stream ctx m

  -- PublishDelay
  unfoldable pub publish_delay : Context → Message → ℤ → Exec W GoError
  publish_delay ctx m delay = do
    t ← rd.now
    rd.z_add ctx delay_key (unix_milli (t +ℤ delay)) (json.marshal (delay_item m))

  -- The item of a due member is published, where it can be read; its error is dropped.
  unfoldable pub publish_due : Option DelayItem → Exec W GoError
  publish_due none = pure none
  publish_due (some d) = publish_stream background (item_message d)

  unfoldable pub deliver_due : Str → Exec W GoError
  unfolding publish_due publish_stream
  deliver_due s = do publish_due (json.unmarshal s); rd.z_rem background delay_key s

  unfoldable pub deliver_all : List Str → Exec W GoError
  unfolding deliver_due
  deliver_all [] = pure none
  deliver_all (s ∷ items) = do deliver_due s; deliver_all items

  unfoldable pub deliver_range : Result (List Str) → Exec W GoError
  unfolding deliver_all
  deliver_range (ok items) = deliver_all items
  deliver_range (err e) = pure none

  -- One round of startDelayScheduler: at most 100 members that are due. Its result means nothing.
  unfoldable pub scheduler_round : Exec W GoError
  unfolding deliver_range
  scheduler_round = do
    t ← rd.now
    range ← rd.z_range_by_score background delay_key (unix_milli t) 100
    deliver_range range

  -- Where an entry came from, and the context of the consumer.
  module _ (fl : Float64) (retry : RetryConfig fl.F) (ctx : Context) (stream group : Str) where
    abbrev pub ack : Str → Exec W GoError
    ack id = rd.x_ack ctx stream group id

    -- The message is put off: an acknowledgement follows a success, and the limit being passed.
    unfoldable pub after_republish : Str → GoError → Exec W GoError
    after_republish id none = ack id
    after_republish id (some e) = pure none

    -- An error of the handler: attempt `n` is republished with a delay, where there is one.
    unfoldable pub retry_or_drop : Str → Option Message → ℤ → Exec W GoError
    unfolding after_republish publish_delay
    retry_or_drop id none n = ack id
    retry_or_drop id (some next) n = do
      e ← publish_delay ctx next (retry_delay fl retry n)
      after_republish id e

    unfoldable pub after_handler : Str → Message → GoError → Exec W GoError
    unfolding retry_or_drop
    after_handler id m none = ack id
    after_handler id m (some e) =
        retry_or_drop id (retry_message retry.max_retries m) (succ_int (attempt m.headers))

    -- The body of `dispatch`. Its result means nothing: the code drops it.
    unfoldable pub process_message : Str → Handler W → XMessage → Exec W GoError
    unfolding after_handler
    process_message pattern handler xm =
        let m = decode_x_message stream xm in
        if match_topic pattern m.topic
        then (do e ← handler ctx m; after_handler xm.id m e)
        else ack xm.id
