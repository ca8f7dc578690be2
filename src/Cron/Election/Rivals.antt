-- ===== src/Cron/Election/Rivals.antt =====
-- cron_dist.go: several instances that try for the lead over RabbitMQ, one after another.
use taskbus.Prelude.{ℕ, suc, Str, List, [], ◌∷◌, Option, none, some, Bool, true, Exec, ◌≡◌}
use taskbus.Mq.{ok, Context}
use taskbus.Cron.Election.{Electoral, Candidate, Lead, try_leader_with_rabbit}

-- What the client documents of QueueDeclare with noWait: it takes the queue for declared once the
-- request is sent; that another connection holds the queue is a later exception on the channel.
-- `up` says that the broker can be reached, and that connections and channels are granted.
pub record AnswersAtOnce {W : Type 0} (calls : Electoral W) (up : W → Bool) : Type 0 where
  pub dial :
      (uri : Str) (w : W)
      → up w ≡ true
      → (conn : ℕ) × (w' : W) × (calls.dial uri w ≡ (ok conn, w')) × (up w' ≡ true)
  pub channel :
      (conn : ℕ) (w : W)
      → up w ≡ true
      → (ch : ℕ) × (w' : W) × (calls.channel conn w ≡ (ok ch, w')) × (up w' ≡ true)
  pub declare_lock :
      (ch : ℕ) (q : Str) (w : W)
      → up w ≡ true
      → (w' : W) × (calls.declare_lock ch q w ≡ (none, w')) × (up w' ≡ true)
  pub with_cancel : (ctx : Context) (w : W) → up (calls.with_cancel ctx w).1 ≡ up w
  pub watch_connection :
      (ctx : Context) (conn : ℕ) (w : W) → up (calls.watch_connection ctx conn w).1 ≡ up w

module _ {W : Type 0} (calls : Electoral W) (uri namespace : Str) where
  -- An instance with this parent context makes its first attempt.
  abbrev pub attempt_in : Context → Exec W (Option (Lead W))
  attempt_in parent w =
      let (o, s) =
        try_leader_with_rabbit calls uri namespace parent
          (record { leader_cancel = none; env = w }) in
      (o, s.env)

  abbrev pub count_lead : Option (Lead W) → ℕ → ℕ
  count_lead none n = n
  count_lead (some lead) n = suc n

  -- How many of the instances become leader.
  pub leaders : List Context → W → ℕ
  leaders [] w = 0
  leaders (parent ∷ parents) w =
      let (o, w') = attempt_in parent w in count_lead o (leaders parents w')

  module _ (up : W → Bool) (law : AnswersAtOnce calls up) where
    Leads : Option (Lead W) × Candidate W → Type 0
    Leads (o, s) = (lead : Lead W) × (o ≡ some lead) × (up s.env ≡ true)
