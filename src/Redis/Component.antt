-- ===== src/Redis/Component.antt =====
-- redis_adapter.go: consumers that read the stream of one component, by their patterns.
use taskbus.Prelude.{Str, true, false, Exec, ◌>>=◌, ◌≡◌, ◌∙◌, refl, sym, ap, subst, All}
use taskbus.Mq.{GoError, Message, Context, Handler}
use taskbus.Topic.{match_topic, build_topic, build_wildcard_topic}
use taskbus.Topic.Isolation.{match-wildcard, IsWord}
use taskbus.Base64.{IsByte}
use taskbus.Retry.{Float64, RetryConfig}
use taskbus.Config.Namespace.{IsNamespace, IsNamespace-IsWord}
use taskbus.Redis.{Redis, Json, is_component_token, redis_stream_for_topic, decode_x_message}
use taskbus.Redis.Codec.{IsCopy, entry, decode-stream_fields}
use taskbus.Redis.Streams.{stream-build_topic}
use taskbus.Redis.Worker.{process_message, after_handler}

-- The stream of a component's messages, and of the wildcard that receives them.
abbrev pub component_stream : Str → Str → Str
component_stream n c = redis_stream_for_topic (build_wildcard_topic n c)

module _ (n c : Str) (name_n : IsNamespace n) (word_c : IsWord c)
    (other : is_component_token n ≡ false) (component : is_component_token c ≡ true) where
  pub same_stream :
      (name : Str) → redis_stream_for_topic (build_topic n c name) ≡ component_stream n c
  same_stream name =
      let both =
        stream-build_topic n c name (IsNamespace-IsWord n name_n).no_dot word_c.no_dot other
          component in
      both.0 ∙ sym both.1

  -- A message of the component, decoded from the component's stream.
  pub decoded-IsCopy :
      (name id : Str) (m : Message)
      → m.topic ≡ build_topic n c name
      → All IsByte m.body
      → IsCopy m (decode_x_message (component_stream n c) (entry m id))
  decoded-IsCopy name id m e bytes =
      subst (λ s. IsCopy m (decode_x_message s (entry m id)))
        (ap redis_stream_for_topic e ∙ same_stream name) (decode-stream_fields m id bytes)

  module _ {W : Type 0} (rd : Redis W) (json : Json) (fl : Float64) (retry : RetryConfig fl.F)
      (ctx : Context) (group : Str) (handler : Handler W) where
    -- What the consumer of a pattern that matches does with the entry.
    abbrev pub handled : Str → Message → Exec W GoError
    handled id m =
        let d = decode_x_message (component_stream n c) (entry m id) in
        do e ← handler ctx d; after_handler rd json fl retry ctx (component_stream n c) group id d e

    matched :
        (pattern name id : Str) (m : Message)
        → m.topic ≡ build_topic n c name
        → All IsByte m.body
        → match_topic pattern m.topic ≡ true
        → process_message rd json fl retry ctx
            (component_stream n c)
            group
            pattern
            handler
            (entry m id)
          ≡ handled id m
    unfolding process_message
    matched pattern name id m e bytes hit =
        let copy = decoded-IsCopy name id m e bytes in rw (copy.topic, hit) refl

    -- A consumer of the wildcard runs its handler on the message of such an entry.
    pub processed :
        (name id : Str) (m : Message)
        → m.topic ≡ build_topic n c name
        → All IsByte m.body
        → process_message rd json fl retry ctx
            (component_stream n c)
            group
            (build_wildcard_topic n c)
            handler
            (entry m id)
          ≡ handled id m
    processed name id m e bytes =
        matched (build_wildcard_topic n c) name id m e bytes
          (ap (match_topic (build_wildcard_topic n c)) e ∙ match-wildcard n c name)

    -- One whose pattern does not match acknowledges the entry, and that is all.
    unmatched :
        (pattern name id : Str) (m : Message)
        → m.topic ≡ build_topic n c name
        → All IsByte m.body
        → match_topic pattern m.topic ≡ false
        → process_message rd json fl retry ctx
            (component_stream n c)
            group
            pattern
            handler
            (entry m id)
          ≡ rd.x_ack ctx (component_stream n c) group id
    unfolding process_message
    unmatched pattern name id m e bytes miss =
        let copy = decoded-IsCopy name id m e bytes in rw (copy.topic, miss) refl

    -- Subscriptions of one component read one stream, whatever their patterns under its prefix. With
    -- one group the server gives an entry to one of them only: where that one's pattern does not
    -- match, it acknowledges the entry and runs no handler, and another subscription of the group,
    -- whose pattern matches, does not get it.
    pub group_loses :
        (p q name id : Str) (m : Message)
        → m.topic ≡ build_topic n c name
        → All IsByte m.body
        → match_topic (build_topic n c p) m.topic ≡ true
        → match_topic (build_topic n c q) m.topic ≡ false
        → (redis_stream_for_topic (build_topic n c p) ≡ component_stream n c)
          × (redis_stream_for_topic (build_topic n c q) ≡ component_stream n c)
          × (process_message rd json fl retry ctx
                (component_stream n c)
                group
                (build_topic n c q)
                handler
                (entry m id)
              ≡ rd.x_ack ctx (component_stream n c) group id)
          × (process_message rd json fl retry ctx
                (component_stream n c)
                group
                (build_topic n c p)
                handler
                (entry m id)
              ≡ handled id m)
    group_loses p q name id m e bytes hit miss = (
      same_stream p,
      same_stream q,
      unmatched (build_topic n c q) name id m e bytes miss,
      matched (build_topic n c p) name id m e bytes hit,
    )
