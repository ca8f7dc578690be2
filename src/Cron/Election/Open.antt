-- ===== src/Cron/Election/Open.antt =====
-- cron_dist.go: the connections and clients that an attempt to lead opens.
use taskbus.Prelude.{ℕ, suc, ◌-◌, ℤ, Str, Option, none, some, Exec, ◌≡◌}
use taskbus.Mq.{GoError, Result, ok, err, Context}
use taskbus.Cron.Election.{Electoral, Candidate, Lead}

abbrev pub Dialled : {W : Type 0} → (W → ℕ) → W → Result ℕ × W → Type 0
Dialled held w (ok conn, w') = held w' ≡ suc (held w)
Dialled held w (err e, w') = held w' ≡ held w

-- `held` counts the connections and clients that are open. The goroutine that keeps the lease
-- closes its client when it ends, which is not counted here.
pub record CountsHeld {W : Type 0} (calls : Electoral W) (held : W → ℕ) : Type 0 where
  pub dial : (uri : Str) (w : W) → Dialled held w (calls.dial uri w)
  pub channel : (conn : ℕ) (w : W) → held (calls.channel conn w).1 ≡ held w
  pub declare_lock : (ch : ℕ) (q : Str) (w : W) → held (calls.declare_lock ch q w).1 ≡ held w
  pub close_channel : (ch : ℕ) (w : W) → held (calls.close_channel ch w).1 ≡ held w
  pub close_connection : (conn : ℕ) (w : W) → held (calls.close_connection conn w).1 ≡ held w - 1
  pub new_client :
      (addr user password : Str) (db : ℤ) (w : W)
      → held (calls.new_client addr user password db w).1 ≡ suc (held w)
  pub set_nx :
      (rc : ℕ) (ctx : Context) (key id : Str) (ttl : ℤ) (w : W)
      → held (calls.set_nx rc ctx key id ttl w).1 ≡ held w
  pub close_client : (rc : ℕ) (w : W) → held (calls.close_client rc w).1 ≡ held w - 1
  pub with_cancel : (ctx : Context) (w : W) → held (calls.with_cancel ctx w).1 ≡ held w
  pub hostname : (w : W) → held (calls.hostname w).1 ≡ held w
  pub getpid : (w : W) → held (calls.getpid w).1 ≡ held w
  pub unix_nano : (w : W) → held (calls.unix_nano w).1 ≡ held w
  pub watch_connection :
      (ctx : Context) (conn : ℕ) (w : W) → held (calls.watch_connection ctx conn w).1 ≡ held w
  pub keep_lease :
      (ctx : Context) (rc : ℕ) (key id : Str) (ttl : ℤ) (w : W)
      → held (calls.keep_lease ctx rc key id ttl w).1 ≡ held w

module _ {W : Type 0} (calls : Electoral W) (held : W → ℕ) (law : CountsHeld calls held) where
  abbrev pub Cleans : Option (Exec (Candidate W) GoError) → Type 0
  Cleans none = Unit
  Cleans (some clean) = (s : Candidate W) → held (clean s).1.env ≡ held s.env - 1

  -- A lead holds one connection or client, which its cleanup closes, and no lead holds none.
  abbrev pub Holds : ℕ → Option (Lead W) × Candidate W → Type 0
  Holds base (none, s) = held s.env ≡ base
  Holds base (some lead, s) = (held s.env ≡ suc base) × Cleans lead.cleanup
