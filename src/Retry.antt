-- ===== src/Retry.antt =====
-- The retry policy: ExponentialBackoff of mq.go, and the step that both adapters take when a
-- handler returns an error. float64 is abstract: the code needs its operations, not its digits.
pub mod Chain
use taskbus.Prelude.{
  ℕ, zero, suc, ℤ, pos, Str, codes, GoMap, List, [], ◌∷◌, Option, none, some, Bool, leb_ℤ, lookup,
  insert, succ_int, pred_int, itoa, atoi, is_empty, nonpos, if◌then◌else◌,
}
use taskbus.Mq.{Message}

-- float64 with the operations that the code applies to it. `to_int` is the conversion to int64.
pub record Float64 : Type 1 where
  pub F : Type 0
  pub two : F
  pub nonpos_float : F → Bool
  pub of_int : ℤ → F
  pub mul : F → F → F
  pub pow : F → F → F
  pub to_int : F → ℤ

pub record RetryConfig (F : Type 0) : Type 0 where
  pub base : ℤ
  pub factor : F
  pub max_retries : ℤ

-- time.Second
abbrev pub second : ℤ
second = pos 1000000000

abbrev pub retry_key : Str
retry_key = codes "x-retry-count"

unfoldable pub copy_headers : GoMap Str → GoMap Str
copy_headers [] = []
copy_headers ((k, v) ∷ h) = insert k v (copy_headers h)

or_zero : Option ℤ → ℤ
or_zero none = pos 0
or_zero (some n) = n

-- The count in the header; 0 where it is missing or is no number.
unfoldable pub attempt : GoMap Str → ℤ
unfolding or_zero
attempt headers = elim (lookup retry_key headers) [ none ↦ pos 0 | some s ↦ or_zero (atoi s) ]

-- The message published again, where the count allows it: its body, key and topic as they were.
unfoldable pub retry_message : ℤ → Message → Option Message
retry_message max_retries m =
    let next_attempt = succ_int (attempt m.headers) in
    if leb_ℤ next_attempt max_retries
    then some (record m { headers = insert retry_key (itoa next_attempt) (copy_headers m.headers) })
    else none

module _ (fl : Float64) where
  open fl use {F, two, nonpos_float, of_int, mul, pow, to_int}

  -- The values that the constructors of both adapters put for a base and a factor that are not
  -- positive.
  unfoldable pub guarded_retry : RetryConfig F → RetryConfig F
  guarded_retry retry = record retry {
    base = if nonpos retry.base then second else retry.base;
    factor = if nonpos_float retry.factor then two else retry.factor;
  }

  -- NextBackoff
  unfoldable pub next_backoff : RetryConfig F → ℤ → ℤ × Bool
  next_backoff e attempt =
      if leb_ℤ e.max_retries attempt
      then (pos 0, Bool.false)
      else (to_int (mul (of_int e.base) (pow e.factor (of_int attempt))), Bool.true)

  -- The delay before attempt `next_attempt`.
  unfoldable pub retry_delay : RetryConfig F → ℤ → ℤ
  retry_delay retry next_attempt =
      to_int (mul (of_int retry.base) (pow retry.factor (of_int (pred_int next_attempt))))
