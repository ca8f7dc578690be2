-- ===== src/Idempotency/Once.antt =====
-- middleware_idempotency.go: repeated deliveries under both middlewares, over a store whose SETNX
-- sets a key once.
use taskbus.Prelude.{
  ℤ, Str, List, [], ◌∷◌, none, some, Bool, true, false, Exec, ◌≡◌, ◌≢◌, refl, ap, sym, ◌∙◌, arith,
  All, length, replicate, is_empty, codes,
}
use taskbus.Mq.{GoError, Message, Context, Handler, JobHandler, job_key_from_context}
use taskbus.Idempotency.{
  Kv, IdempotencyConfig, store_key, kept_for, raw_key, guarded, idempotent, job_middleware,
  default_job_key,
}

-- Handling one message after another, each error in its place.
pub handle_all : {W : Type 0} → Handler W → List (Context × Message) → Exec W (List GoError)
handle_all h [] w = ([], w)
handle_all h ((ctx, m) ∷ rest) w =
    let (e, w1) = h ctx m w in let (es, w2) = handle_all h rest w1 in (e ∷ es, w2)

handle_all_lem :
    {W : Type 0} (h : Handler W) (ctx : Context) (m : Message) (ms : List (Context × Message))
    (w : W)
    → handle_all h ((ctx, m) ∷ ms) w
      ≡ ((h ctx m w).0 ∷ (handle_all h ms (h ctx m w).1).0, (handle_all h ms (h ctx m w).1).1)
unfolding handle_all
handle_all_lem h ctx m ms w = refl

handle_all_step :
    {W : Type 0} (h : Handler W) (ctx : Context) (m : Message) (ms : List (Context × Message))
    (w w1 w2 : W) (e : GoError) (es : List GoError)
    → h ctx m w ≡ (e, w1)
    → handle_all h ms w1 ≡ (es, w2)
    → handle_all h ((ctx, m) ∷ ms) w ≡ (e ∷ es, w2)
handle_all_step h ctx m ms w w1 w2 e es p q = handle_all_lem h ctx m ms w ∙ rw (p, q) refl

-- Redis's SETNX within the time to live: a fresh key is stored, and a stored one stays as it is.
pub record SetsOnce {W : Type 0} (kv : Kv W) (holds : Str → W → Bool) : Type 0 where
  pub fresh :
      (ctx : Context) (k v : Str) (ttl : ℤ) (w : W)
      → holds k w ≡ false
      → (kv.set_nx ctx k v ttl w).0 ≡ (true, none)
  pub seen :
      (ctx : Context) (k v : Str) (ttl : ℤ) (w : W)
      → holds k w ≡ true
      → kv.set_nx ctx k v ttl w ≡ ((false, none), w)

module _ {W : Type 0} (cfg : IdempotencyConfig W) (kv : Kv W) where
  -- The world after the mark of `key` is set.
  abbrev pub marked : Context → Str → W → W
  marked ctx key w = (kv.set_nx ctx (store_key cfg key) (codes "1") (kept_for cfg) w).1

  module _ (holds : Str → W → Bool) (law : SetsOnce kv holds) where
    pub guarded_fresh :
        (ctx : Context) (key : Str) (next : Exec W GoError) (w : W)
        → key ≢ []
        → holds (store_key cfg key) w ≡ false
        → guarded cfg kv ctx key next w ≡ next (marked ctx key w)
    unfolding guarded
    guarded_fresh ctx [] next w n h = absurd (n refl)
    guarded_fresh ctx (c ∷ key) next w n h =
        ground (arith, law.fresh ctx (store_key cfg (c ∷ key)) (codes "1") (kept_for cfg) w h)

    pub guarded_seen :
        (ctx : Context) (key : Str) (next : Exec W GoError) (w : W)
        → key ≢ []
        → holds (store_key cfg key) w ≡ true
        → guarded cfg kv ctx key next w ≡ (none, w)
    unfolding guarded
    guarded_seen ctx [] next w n h = absurd (n refl)
    guarded_seen ctx (c ∷ key) next w n h =
        ground (arith, law.seen ctx (store_key cfg (c ∷ key)) (codes "1") (kept_for cfg) w h)

  pub idempotent_keyed :
      (next : Handler W) (ctx : Context) (m : Message) (w : W)
      → m.key ≢ []
      → idempotent cfg kv next ctx m w ≡ guarded cfg kv ctx m.key (next ctx m) w
  unfolding idempotent raw_key
  idempotent_keyed next ctx m w n = rw (nonempty m.key n)
    where
      nonempty : (s : Str) → s ≢ [] → is_empty s ≡ false
      nonempty [] n = absurd (n refl)
      nonempty (c ∷ s) n = refl

  module _ (holds : Str → W → Bool) (law : SetsOnce kv holds) (next : Handler W) where
    skipped :
        (ctx : Context) (m : Message) (key : Str) (w : W)
        → key ≢ []
        → m.key ≡ key
        → holds (store_key cfg key) w ≡ true
        → idempotent cfg kv next ctx m w ≡ (none, w)
    skipped ctx m key w n e h =
        idempotent_keyed next ctx m w (λ empty. n (sym e ∙ empty))
        ∙ ap (λ k. guarded cfg kv ctx k (next ctx m) w) e
        ∙ guarded_seen holds law ctx key (next ctx m) w n h

    later_skipped :
        (key : Str) (ms : List (Context × Message)) (w : W)
        → key ≢ []
        → All (λ (d : Context × Message). d.1.key ≡ key) ms
        → holds (store_key cfg key) w ≡ true
        → handle_all (idempotent cfg kv next) ms w ≡ (replicate (length ms) none, w)
    later_skipped key [] w n same h = unfold handle_all in refl
    later_skipped key ((ctx, m) ∷ ms) w n same h =
        handle_all_step (idempotent cfg kv next) ctx m ms w w w none (replicate (length ms) none)
          (skipped ctx m key w n same.0 h) (later_skipped key ms w n same.1 h)

    -- Of several deliveries of one key, the first runs the handler, in the world where the key is
    -- marked; each later one returns nil and changes nothing, whatever the first one returned.
    -- The key is not empty, not marked before, and still marked when the handler returns.
    pub once :
        (ctx : Context) (m : Message) (later : List (Context × Message)) (w : W)
        → m.key ≢ []
        → All (λ (d : Context × Message). d.1.key ≡ m.key) later
        → holds (store_key cfg m.key) w ≡ false
        → holds (store_key cfg m.key) (next ctx m (marked ctx m.key w)).1 ≡ true
        → handle_all (idempotent cfg kv next) ((ctx, m) ∷ later) w ≡ (
          (next ctx m (marked ctx m.key w)).0 ∷ replicate (length later) none,
          (next ctx m (marked ctx m.key w)).1,
        )
    once ctx m later w n same h kept =
        handle_all_step (idempotent cfg kv next) ctx m later w _ _ _ _
          (idempotent_keyed next ctx m w n ∙ guarded_fresh holds law ctx m.key (next ctx m) w n h)
          (later_skipped m.key later (next ctx m (marked ctx m.key w)).1 n same kept)

-- Jobs as New sets them up: with no key on the message, the payload is the key.
module _ {W : Type 0} (cfg : IdempotencyConfig W) (kv : Kv W)
    (by_payload : cfg.key_func ≡ some default_job_key) (holds : Str → W → Bool)
    (law : SetsOnce kv holds) (next : JobHandler W) where
  keyless :
      (ctx : Context) (name payload : Str) (w : W)
      → job_key_from_context ctx ≡ []
      → job_middleware (idempotent cfg kv) next ctx name payload w
        ≡ guarded cfg kv ctx payload (next ctx name payload) w
  unfolding job_middleware idempotent raw_key default_job_key
  keyless ctx name payload w k = rw (k, by_payload) refl

  -- A job with no key is skipped when any other job has been handled with the same payload,
  -- whatever the two jobs are called.
  pub payload_collision :
      (ctx ctx' : Context) (name name' payload : Str) (w : W)
      → payload ≢ []
      → job_key_from_context ctx ≡ []
      → job_key_from_context ctx' ≡ []
      → holds (store_key cfg payload) w ≡ false
      → holds (store_key cfg payload) (next ctx name payload (marked cfg kv ctx payload w)).1 ≡ true
      → (job_middleware (idempotent cfg kv) next ctx name payload w
          ≡ next ctx name payload (marked cfg kv ctx payload w))
        × (job_middleware
              (idempotent cfg kv)
              next
              ctx'
              name'
              payload
              (next ctx name payload (marked cfg kv ctx payload w)).1
            ≡ (none, (next ctx name payload (marked cfg kv ctx payload w)).1))
  payload_collision ctx ctx' name name' payload w n k k' h kept = (
    keyless ctx name payload w k
        ∙ guarded_fresh cfg kv holds law ctx payload (next ctx name payload) w n h,
    keyless ctx' name' payload _ k'
        ∙ guarded_seen cfg kv holds law ctx' payload (next ctx' name' payload) _ n kept,
  )
