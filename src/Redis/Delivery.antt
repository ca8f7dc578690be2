-- ===== src/Redis/Delivery.antt =====
-- redis_adapter.go: when `dispatch` acknowledges an entry.
use taskbus.Prelude.{
  ℤ, Str, Option, none, some, Bool, true, false, ◌>>=◌, ◌≡◌, ◌∙◌, refl, ap, inl, inr, Bool-cases,
  if◌then◌else◌, succ_int,
}
use taskbus.Mq.{Err, GoError, Message, Context, Handler}
use taskbus.Topic.{match_topic}
use taskbus.Retry.{Float64, RetryConfig, attempt, retry_message, retry_delay}
use taskbus.Redis.{Redis, Json, XMessage, decode_x_message}
use taskbus.Redis.Worker.{
  delay_key, delay_item, publish_delay, process_message, after_handler, retry_or_drop,
  after_republish,
}

-- What Redis documents of the two commands: `acked id` says that the entry is acknowledged, and
-- `member s` that the sorted set holds `s`.
pub record KeepsApart {W : Type 0} (rd : Redis W) (acked member : Str → W → Bool) : Type 0 where
  pub z_add_member :
      (ctx : Context) (score : ℤ) (s : Str) (w : W)
      → (rd.z_add ctx delay_key score s w).0 ≡ none
      → member s (rd.z_add ctx delay_key score s w).1 ≡ true
  pub z_add_acked :
      (ctx : Context) (score : ℤ) (s id : Str) (w : W)
      → acked id (rd.z_add ctx delay_key score s w).1 ≡ acked id w
  pub now_acked : (id : Str) (w : W) → acked id (rd.now w).1 ≡ acked id w
  pub x_ack_member :
      (ctx : Context) (stream group id s : Str) (w : W)
      → member s (rd.x_ack ctx stream group id w).1 ≡ member s w

-- Why the entry of a message may be acknowledged.
pub data Settled (member : Str → Bool) (json : Json) (pattern : Str) (limit : ℤ) (m : Message)
    (e : GoError) : Type 0 where
  unmatched : match_topic pattern m.topic ≡ false → Settled member json pattern limit m e
  handled : e ≡ none → Settled member json pattern limit m e
  exhausted : retry_message limit m ≡ none → Settled member json pattern limit m e
  put_off :
      (next : Message)
      → retry_message limit m ≡ some next
      → member (json.marshal (delay_item next)) ≡ true
      → Settled member json pattern limit m e

module _ {W : Type 0} (rd : Redis W) (json : Json) (fl : Float64) (retry : RetryConfig fl.F)
    (ctx : Context) (stream group pattern : Str) (handler : Handler W)
    (acked member : Str → W → Bool) (law : KeepsApart rd acked member) where
  abbrev processed : XMessage → W → W
  processed xm w = (process_message rd json fl retry ctx stream group pattern handler xm w).1

  -- The message of the entry, and what the handler returns for it.
  abbrev message : XMessage → Message
  message xm = decode_x_message stream xm

  abbrev outcome : XMessage → W → GoError × W
  outcome xm w = handler ctx (message xm) w

  abbrev retried : Str → Message → ℤ → W → W
  retried id next n w = (retry_or_drop rd json fl retry ctx stream group id (some next) n w).1

  delayed_acked :
      (id : Str) (next : Message) (delay : ℤ) (w : W)
      → acked id (publish_delay rd json ctx next delay w).1 ≡ acked id w
  unfolding publish_delay
  delayed_acked id next delay w =
      law.z_add_acked ctx _ (json.marshal (delay_item next)) id (rd.now w).1 ∙ law.now_acked id w

  delayed_member :
      (next : Message) (delay : ℤ) (w : W)
      → (publish_delay rd json ctx next delay w).0 ≡ none
      → member (json.marshal (delay_item next)) (publish_delay rd json ctx next delay w).1 ≡ true
  unfolding publish_delay
  delayed_member next delay w e =
      law.z_add_member ctx _ (json.marshal (delay_item next)) (rd.now w).1 e

  -- The world after the acknowledgement, or without it.
  abbrev settle : Str → GoError → W → W
  settle id e w = (after_republish rd json fl retry ctx stream group id e w).1

  settle-member :
      (id s : Str) (e : GoError) (w : W)
      → (e ≡ none → member s w ≡ true)
      → acked id w ≡ false
      → acked id (settle id e w) ≡ true
      → member s (settle id e w) ≡ true
  unfolding after_republish
  settle-member id s none w held fresh done = law.x_ack_member ctx stream group id s w ∙ held refl
  settle-member id s (some e) w held fresh done = cc

  retried_lem :
      (id : Str) (next : Message) (n : ℤ) (w : W)
      → retried id next n w
        ≡ settle id
            (publish_delay rd json ctx next (retry_delay fl retry n) w).0
            (publish_delay rd json ctx next (retry_delay fl retry n) w).1
  unfolding retry_or_drop
  retried_lem id next n w = refl

  retried-member :
      (id : Str) (next : Message) (n : ℤ) (w : W)
      → acked id w ≡ false
      → acked id (retried id next n w) ≡ true
      → member (json.marshal (delay_item next)) (retried id next n w) ≡ true
  retried-member id next n w fresh done =
      let p : GoError × W = publish_delay rd json ctx next (retry_delay fl retry n) w in
      rw (retried_lem id next n w) (
        settle-member id (json.marshal (delay_item next)) p.0 p.1
          (delayed_member next (retry_delay fl retry n) w)
          (delayed_acked id next (retry_delay fl retry n) w ∙ fresh)
          (rw (retried_lem id next n w) at done))

  abbrev failed : Str → Message → Option Message → W → W
  failed id m next w =
      (retry_or_drop rd json fl retry ctx stream group id next (succ_int (attempt m.headers)) w).1

  failed-Settled :
      (id : Str) (m : Message) (e : GoError) (next : Option Message) (w : W)
      → retry_message retry.max_retries m ≡ next
      → acked id w ≡ false
      → acked id (failed id m next w) ≡ true
      → Settled (λ s. member s (failed id m next w)) json pattern retry.max_retries m e
  failed-Settled id m e none w last fresh done = exhausted last
  failed-Settled id m e (some next) w again fresh done =
      put_off next again (retried-member id next (succ_int (attempt m.headers)) w fresh done)

  abbrev finished : Str → Message → GoError → W → W
  finished id m e w = (after_handler rd json fl retry ctx stream group id m e w).1

  failed_lem :
      (id : Str) (m : Message) (e : Err) (w : W)
      → finished id m (some e) w ≡ failed id m (retry_message retry.max_retries m) w
  unfolding after_handler
  failed_lem id m e w = refl

  finished-Settled :
      (id : Str) (m : Message) (e : GoError) (w : W)
      → acked id w ≡ false
      → acked id (finished id m e w) ≡ true
      → Settled (λ s. member s (finished id m e w)) json pattern retry.max_retries m e
  finished-Settled id m none w fresh done = handled refl
  finished-Settled id m (some e) w fresh done = rw (failed_lem id m e w) (
      failed-Settled id m (some e) (retry_message retry.max_retries m) w refl fresh
        (rw (failed_lem id m e w) at done))

  processed_lem :
      (xm : XMessage) (w : W)
      → match_topic pattern (message xm).topic ≡ true
      → processed xm w ≡ finished xm.id (message xm) (outcome xm w).0 (outcome xm w).1
  unfolding process_message
  processed_lem xm w matches =
      ap
        (λ b.
          ((if b
              then (do
                e ← handler ctx (message xm)
                after_handler rd json fl retry ctx stream group xm.id (message xm) e)
              else rd.x_ack ctx stream group xm.id)
            w).1)
        matches

  -- An entry that becomes acknowledged was not for this pattern, or the handler succeeded, or the
  -- limit of retries is passed, or the sorted set holds its next attempt. The handler does not
  -- acknowledge the entry itself.
  pub acked-Settled :
      (xm : XMessage) (w : W)
      → acked xm.id w ≡ false
      → acked xm.id (outcome xm w).1 ≡ false
      → acked xm.id (processed xm w) ≡ true
      → Settled
          (λ s. member s (processed xm w))
          json
          pattern
          retry.max_retries
          (message xm)
          (outcome xm w).0
  acked-Settled xm w fresh kept done = elim (Bool-cases (match_topic pattern (message xm).topic)) [
    | inr no_match ↦ unmatched no_match
    | inl matches ↦ rw (processed_lem xm w matches) (
        finished-Settled xm.id (message xm) (outcome xm w).0 (outcome xm w).1 kept
          (rw (processed_lem xm w matches) at done))
  ]
