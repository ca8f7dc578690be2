-- ===== src/Redis/Return.antt =====
-- redis_adapter.go: a message whose handler fails, by the sorted set and back to its stream.
use taskbus.Prelude.{
  ℕ, suc, ◌≤◌, ◌<◌, pos, Str, some, true, false, ◌>>=◌, ◌>>◌, ◌≡◌, ◌∙◌, refl, sym, ap, subst, All,
  max_int, arith,
}
use taskbus.Mq.{Err, Message, Context, background, Handler}
use taskbus.Topic.{build_topic, build_wildcard_topic}
use taskbus.Topic.Isolation.{IsWord}
use taskbus.Base64.{IsByte}
use taskbus.Retry.{Float64, RetryConfig, attempt, retry_key, retry_delay}
use taskbus.Retry.Chain.{
  bumped, IsRetry, IsRetry-bumped, attempt-bumped, retry_message_more, retry_message_last,
  succ_int_pos,
}
use taskbus.Config.Namespace.{IsNamespace}
use taskbus.Redis.{
  Redis, Json, is_component_token, redis_stream_for_topic, stream_fields, decode_x_message,
}
use taskbus.Redis.Codec.{IsCopy, entry}
use taskbus.Redis.Component.{component_stream, same_stream, decoded-IsCopy, processed, handled}
use taskbus.Redis.Delay.{deliver_due-delay_item}
use taskbus.Redis.Worker.{
  delay_key, delay_item, publish_stream, publish_delay, deliver_due, process_message, after_handler,
  retry_or_drop, after_republish,
}

-- The count of attempts is kept on the way.
pub attempt-IsCopy : (m d : Message) → IsCopy m d → attempt d.headers ≡ attempt m.headers
unfolding attempt
attempt-IsCopy m d copy = rw (copy.headers retry_key, attempt) refl

module _ (n c : Str) (name_n : IsNamespace n) (word_c : IsWord c)
    (other : is_component_token n ≡ false) (component : is_component_token c ≡ true) {W : Type 0}
    (rd : Redis W) (json : Json) (fl : Float64) (retry : RetryConfig fl.F) (ctx : Context)
    (group : Str) (handler : Handler W) where
  abbrev stream : Str
  stream = component_stream n c

  -- A worker's last step for an entry whose handler failed at attempt `a` of more.
  failed_more :
      (id : Str) (a limit : ℕ) (d : Message) (e : Err)
      → retry.max_retries ≡ pos limit
      → attempt d.headers ≡ pos a
      → a < limit
      → limit ≤ max_int
      → after_handler rd json fl retry ctx stream group id d (some e) ≡ (do
        r ← publish_delay rd json ctx (bumped a d) (retry_delay fl retry (pos (suc a)))
        after_republish rd json fl retry ctx stream group id r)
  unfolding after_handler retry_or_drop
  failed_more id a limit d e max at lt top =
      rw (max, retry_message_more a limit d at lt top, at, succ_int_pos a (omega arith)) refl

  -- At the limit the entry is acknowledged, and nothing else.
  pub failed_last :
      (id : Str) (limit : ℕ) (d : Message) (e : Err)
      → retry.max_retries ≡ pos limit
      → attempt d.headers ≡ pos limit
      → limit < max_int
      → after_handler rd json fl retry ctx stream group id d (some e) ≡ rd.x_ack ctx stream group id
  unfolding after_handler retry_or_drop
  failed_last id limit d e max at top = rw (max, retry_message_last limit d at top) refl

  delivered :
      (name : Str) (m : Message) (w : W)
      → m.topic ≡ build_topic n c name
      → All IsByte m.body
      → json.unmarshal (json.marshal (delay_item m)) ≡ some (delay_item m)
      → deliver_due rd json (json.marshal (delay_item m)) w
        ≡ (do
          rd.x_add background stream (stream_fields m)
          rd.z_rem background delay_key (json.marshal (delay_item m)))
            w
  unfolding publish_stream
  delivered name m w e bytes reads =
      deliver_due-delay_item rd json m w bytes reads
      ∙ ap
          (λ s.
            rd.z_rem background delay_key (json.marshal (delay_item m))
              (rd.x_add background s (stream_fields m) w).1)
          (ap redis_stream_for_topic e ∙ same_stream n c name_n word_c other component name)

  -- Where the handler fails on an entry of a component's message with attempts left, its worker puts
  -- one message into the sorted set: topic, key and body as they were, the count one higher. The
  -- scheduler adds it to the same stream when it is due, if encoding/json reads back what it wrote,
  -- and a worker that gets this entry runs the handler on a copy that counts the attempt. The
  -- namespace is valid, the body bytes.
  pub retry_returns :
      (name id id' : Str) (m : Message) (e : Err) (a limit : ℕ)
      → m.topic ≡ build_topic n c name
      → All IsByte m.body
      → attempt m.headers ≡ pos a
      → retry.max_retries ≡ pos limit
      → a < limit
      → limit < max_int
      → let d = decode_x_message stream (entry m id) in
        let next = bumped a d in
        json.unmarshal (json.marshal (delay_item next)) ≡ some (delay_item next)
        → (after_handler rd json fl retry ctx stream group id d (some e) ≡ (do
          r ← publish_delay rd json ctx next (retry_delay fl retry (pos (suc a)))
          after_republish rd json fl retry ctx stream group id r))
          × IsRetry (suc a) d next
          × ((w : W)
              → deliver_due rd json (json.marshal (delay_item next)) w
                ≡ (do
                  rd.x_add background stream (stream_fields next)
                  rd.z_rem background delay_key (json.marshal (delay_item next)))
                    w)
          × (process_message rd json fl retry ctx stream group
                (build_wildcard_topic n c)
                handler
                (entry next id')
              ≡ handled n c name_n word_c other component rd json fl retry ctx group handler id'
                  next)
          × (attempt (decode_x_message stream (entry next id')).headers ≡ pos (suc a))
  retry_returns name id id' m e a limit topic bytes at max lt top reads = (
    failed_more id a limit d e max at_d lt (omega arith),
    IsRetry-bumped a d,
    (λ w. delivered name next w topic_next bytes_next reads),
    processed n c name_n word_c other component rd json fl retry ctx group handler name id' next
        topic_next bytes_next,
    attempt-IsCopy next (decode_x_message stream (entry next id'))
          (decoded-IsCopy n c name_n word_c other component name id' next topic_next bytes_next)
        ∙ attempt-bumped a d (omega arith),
  )
    where
      d : Message
      d = decode_x_message stream (entry m id)

      copy : IsCopy m d
      copy = decoded-IsCopy n c name_n word_c other component name id m topic bytes

      at_d : attempt d.headers ≡ pos a
      at_d = attempt-IsCopy m d copy ∙ at

      next : Message
      next = bumped a d

      again : IsRetry (suc a) d next
      again = IsRetry-bumped a d

      topic_next : next.topic ≡ build_topic n c name
      topic_next = again.topic ∙ copy.topic ∙ topic

      bytes_next : All IsByte next.body
      bytes_next = subst (All IsByte) (sym (again.body ∙ copy.body)) bytes
