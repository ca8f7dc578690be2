-- ===== src/Redis/Loop.antt =====
-- redis_adapter.go: the reading loop of Consume. One round claims entries that others left, or
-- reads new ones, and dispatches them; a round is one step, with the dispatches in their order.
use taskbus.Prelude.{
  ℕ, zero, suc, ℤ, Str, codes, List, [], ◌∷◌, ◌++◌, Option, none, some, Bool, true, false, ◌&&◌,
  Exec, pure, ◌>>=◌, ◌>>◌, ◌≡◌, if◌then◌else◌,
}
use taskbus.Mq.{Err, GoError, Result, ok, err}
use taskbus.Redis.{XMessage}

-- XAUTOCLAIM and XREADGROUP for one consumer, and the clock; `is_due` compares two of its times
-- with the interval between claims.
pub record Reader (W : Type 0) : Type 0 where
  pub x_auto_claim : Str → Exec W (Result (List XMessage × Str))
  pub x_read_group : Exec W (Result (List (List XMessage)))
  pub now : Exec W ℤ
  pub is_due : ℤ → ℤ → Bool
  pub is_unknown_command : Err → Bool

-- The variables of the loop: `lastClaim`, with none for its zero, `claimStart` and `autoClaim`.
pub record Claims : Type 0 where
  pub last : Option ℤ
  pub start : Str
  pub enabled : Bool

abbrev pub first_claims : Claims
first_claims = record { last = none; start = codes "0-0"; enabled = true }

module _ {W : Type 0} (reader : Reader W) (dispatch : XMessage → Exec W GoError) where
  unfoldable pub dispatch_all : List XMessage → Exec W GoError
  dispatch_all [] = pure none
  dispatch_all (x ∷ xs) = do dispatch x; dispatch_all xs

  -- The loop over the streams of the answer.
  unfoldable pub dispatch_streams : List (List XMessage) → Exec W GoError
  unfolding dispatch_all
  dispatch_streams [] = pure none
  dispatch_streams (xs ∷ streams) = do dispatch_all xs; dispatch_streams streams

  -- An error of the read only makes the loop wait.
  unfoldable pub after_read : Result (List (List XMessage)) → Exec W GoError
  unfolding dispatch_streams
  after_read (ok streams) = dispatch_streams streams
  after_read (err e) = pure none

  unfoldable pub read_new : Claims → Exec W Claims
  unfolding after_read
  read_new c = do r ← reader.x_read_group; after_read r; pure c

  -- Claimed entries are dispatched, and the round ends; without any, new ones are read.
  unfoldable pub after_claim : Claims → Result (List XMessage × Str) → Exec W Claims
  unfolding read_new dispatch_all
  after_claim c (err e) =
      read_new (if reader.is_unknown_command e then record c { enabled = false } else c)
  after_claim c (ok ([], start)) = read_new (record c { start = start })
  after_claim c (ok (x ∷ xs, start)) = do dispatch_all (x ∷ xs); pure (record c { start = start })

  abbrev pub claim_due : Option ℤ → ℤ → Bool
  claim_due none t = true
  claim_due (some last) t = reader.is_due last t

  unfoldable pub claim : Claims → Exec W Claims
  unfolding after_claim
  claim c = do
    t ← reader.now
    r ← reader.x_auto_claim c.start
    after_claim (record c { last = some t }) r

  -- The rest of a round, by whether it claims.
  unfoldable pub claim_or_read : Bool → Claims → Exec W Claims
  unfolding claim read_new
  claim_or_read true c = claim c
  claim_or_read false c = read_new c

  unfoldable pub round : Claims → Exec W Claims
  unfolding claim_or_read
  round c = do t ← reader.now; claim_or_read (c.enabled && claim_due c.last t) c

  -- `n` rounds, until the context ends.
  unfoldable pub rounds : ℕ → Claims → Exec W Claims
  unfolding round
  rounds zero c = pure c
  rounds (suc n) c = do c' ← round c; rounds n c'

  abbrev pub ids : List XMessage → List Str
  ids [] = []
  ids (x ∷ xs) = x.id ∷ ids xs

  abbrev pub all_ids : List (List XMessage) → List Str
  all_ids [] = []
  all_ids (xs ∷ streams) = ids xs ++ all_ids streams

  abbrev pub Claimed : (W → List Str) → W → Result (List XMessage × Str) × W → Type 0
  Claimed given w (ok (xs, start), w') = given w' ≡ given w ++ ids xs
  Claimed given w (err e, w') = given w' ≡ given w

  abbrev pub Read : (W → List Str) → W → Result (List (List XMessage)) × W → Type 0
  Read given w (ok streams, w') = given w' ≡ given w ++ all_ids streams
  Read given w (err e, w') = given w' ≡ given w

  -- `given` lists what answers of the server have handed to this consumer, and `log` what was
  -- dispatched.
  pub record Books (given log : W → List Str) : Type 0 where
    pub claim_given : (start : Str) (w : W) → Claimed given w (reader.x_auto_claim start w)
    pub claim_log : (start : Str) (w : W) → log (reader.x_auto_claim start w).1 ≡ log w
    pub read_given : (w : W) → Read given w (reader.x_read_group w)
    pub read_log : (w : W) → log (reader.x_read_group w).1 ≡ log w
    pub now_given : (w : W) → given (reader.now w).1 ≡ given w
    pub now_log : (w : W) → log (reader.now w).1 ≡ log w
    pub dispatch_given : (x : XMessage) (w : W) → given (dispatch x w).1 ≡ given w
    pub dispatch_log : (x : XMessage) (w : W) → log (dispatch x w).1 ≡ log w ++ x.id ∷ []
