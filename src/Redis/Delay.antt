-- ===== src/Redis/Delay.antt =====
-- redis_adapter.go: PublishDelay and the delay scheduler, over the sorted set of delayed messages.
use taskbus.Prelude.{
  ℤ, Str, GoMap, List, none, some, ◌>>◌, ◌≡◌, ◌∙◌, ap, ◌+ℤ◌, All, lookup, insert, delete,
  lookup-delete, insert_twice, str_eq_refl, if◌then◌else◌,
}
use taskbus.Mq.{Err, Message, Context, background}
use taskbus.Base64.{IsByte, decode-encode_base64}
use taskbus.Redis.{Redis, Json, DelayItem, XMessage}
use taskbus.Redis.Worker.{
  delay_key, delay_item, item_message, unix_milli, publish_stream, publish_delay, publish_due,
  deliver_due,
}

item_message-delay_item : (m : Message) → All IsByte m.body → item_message (delay_item m) ≡ m
unfolding item_message delay_item
item_message-delay_item m bytes =
    ap (λ b. record m { body = b }) (decode-encode_base64 m.body bytes)

-- What Redis documents of the commands on the sorted set and the streams: a member has one score,
-- which the last ZADD sets, and a failed XADD adds nothing.
pub record SortedSet {W : Type 0} (rd : Redis W) (scores : W → GoMap ℤ)
    (streams : W → List XMessage) : Type 0 where
  pub z_add_scores :
      (ctx : Context) (score : ℤ) (s : Str) (w : W)
      → (rd.z_add ctx delay_key score s w).0 ≡ none
      → scores (rd.z_add ctx delay_key score s w).1 ≡ insert s score (scores w)
  pub z_rem_scores :
      (ctx : Context) (s : Str) (w : W)
      → (rd.z_rem ctx delay_key s w).0 ≡ none
      → scores (rd.z_rem ctx delay_key s w).1 ≡ delete s (scores w)
  pub z_rem_streams :
      (ctx : Context) (s : Str) (w : W) → streams (rd.z_rem ctx delay_key s w).1 ≡ streams w
  pub x_add_failed :
      (ctx : Context) (stream : Str) (fields : GoMap Str) (e : Err) (w : W)
      → (rd.x_add ctx stream fields w).0 ≡ some e
      → streams (rd.x_add ctx stream fields w).1 ≡ streams w
  pub now_scores : (w : W) → scores (rd.now w).1 ≡ scores w

module _ {W : Type 0} (rd : Redis W) (json : Json) where
  -- The round for a member that can be read.
  deliver_due_lem :
      (s : Str) (d : DelayItem) (w : W)
      → json.unmarshal s ≡ some d
      → deliver_due rd json s w
        ≡ rd.z_rem background delay_key s (publish_stream rd json background (item_message d) w).1
  unfolding deliver_due
  deliver_due_lem s d w reads =
      ap (λ o. (do publish_due rd json o; rd.z_rem background delay_key s) w) reads

  -- A delayed message that is due is published as it was, and its member is removed. The body is
  -- bytes, and encoding/json reads back the item that it wrote.
  pub deliver_due-delay_item :
      (m : Message) (w : W)
      → All IsByte m.body
      → json.unmarshal (json.marshal (delay_item m)) ≡ some (delay_item m)
      → deliver_due rd json (json.marshal (delay_item m)) w
        ≡ (do
          publish_stream rd json background m
          rd.z_rem background delay_key (json.marshal (delay_item m)))
            w
  deliver_due-delay_item m w bytes reads =
      deliver_due_lem (json.marshal (delay_item m)) (delay_item m) w reads
      ∙ ap
          (λ x.
            rd.z_rem background delay_key (json.marshal (delay_item m))
              (publish_stream rd json background x w).1)
          (item_message-delay_item m bytes)

  module _ (scores : W → GoMap ℤ) (streams : W → List XMessage)
      (law : SortedSet rd scores streams) where
    abbrev after : Context → Message → ℤ → W → W
    after ctx m delay w = (publish_delay rd json ctx m delay w).1

    -- The score that a delay gives, at the clock of `w`.
    abbrev score_at : ℤ → W → ℤ
    score_at delay w = unix_milli ((rd.now w).0 +ℤ delay)

    scores-publish_delay :
        (ctx : Context) (m : Message) (delay : ℤ) (w : W)
        → (publish_delay rd json ctx m delay w).0 ≡ none
        → scores (after ctx m delay w)
          ≡ insert (json.marshal (delay_item m)) (score_at delay w) (scores w)
    unfolding publish_delay
    scores-publish_delay ctx m delay w e =
        law.z_add_scores ctx _ (json.marshal (delay_item m)) (rd.now w).1 e
        ∙ ap (insert (json.marshal (delay_item m)) (score_at delay w)) (law.now_scores w)

    -- Delaying an equal message again leaves one member, at the later score: one of the two
    -- messages is never delivered. Both calls return nil.
    pub publish_delay_twice :
        (ctx ctx' : Context) (m : Message) (delay delay' : ℤ) (w : W)
        → (publish_delay rd json ctx m delay w).0 ≡ none
        → (publish_delay rd json ctx' m delay' (after ctx m delay w)).0 ≡ none
        → scores (after ctx' m delay' (after ctx m delay w))
          ≡ insert (json.marshal (delay_item m)) (score_at delay' (after ctx m delay w)) (scores w)
    publish_delay_twice ctx ctx' m delay delay' w first second =
        scores-publish_delay ctx' m delay' (after ctx m delay w) second
        ∙ ap (insert (json.marshal (delay_item m)) (score_at delay' (after ctx m delay w)))
            (scores-publish_delay ctx m delay w first)
        ∙ insert_twice (json.marshal (delay_item m)) (score_at delay w)
            (score_at delay' (after ctx m delay w)) (scores w)

    not_held : (s : Str) (m : GoMap ℤ) → lookup s (delete s m) ≡ none
    not_held s m = lookup-delete s s m ∙ ap (λ b. if b then none else lookup s m) (str_eq_refl s)

    stream_kept :
        (m : Message) (e : Err) (w : W)
        → (publish_stream rd json background m w).0 ≡ some e
        → streams (publish_stream rd json background m w).1 ≡ streams w
    unfolding publish_stream
    stream_kept m e w failed = law.x_add_failed background _ _ e w failed

    -- A due member whose item cannot be added to its stream is removed all the same: neither the
    -- sorted set nor a stream holds the message afterwards. The removal returns nil.
    pub deliver_due_loses :
        (s : Str) (d : DelayItem) (e : Err) (w : W)
        → json.unmarshal s ≡ some d
        → (publish_stream rd json background (item_message d) w).0 ≡ some e
        → (deliver_due rd json s w).0 ≡ none
        → (lookup s (scores (deliver_due rd json s w).1) ≡ none)
          × (streams (deliver_due rd json s w).1 ≡ streams w)
    deliver_due_loses s d e w reads failed removed =
        let w1 : W = (publish_stream rd json background (item_message d) w).1 in
        let done : (rd.z_rem background delay_key s w1).0 ≡ none =
          rw (deliver_due_lem s d w reads) at removed in
        rw (deliver_due_lem s d w reads) (
          ap (lookup s) (law.z_rem_scores background s w1 done) ∙ not_held s (scores w1),
          law.z_rem_streams background s w1 ∙ stream_kept (item_message d) e w failed,
        )
