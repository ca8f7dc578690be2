-- ===== src/Redis/Rounds.antt =====
-- redis_adapter.go: how much one round of the reading loop dispatches. Redis/Source takes a round
-- for one answer of at most COUNT entries, which is shown here of the round itself.
use taskbus.Prelude.{
  ℕ, ◌≤◌, Str, List, [], ◌∷◌, ◌++◌, append-nil, some, Bool, true, false, Exec, ◌≡◌, ◌∙◌, sym, ap,
  arith, length, if◌then◌else◌, ◌&&◌,
}
use taskbus.Mq.{GoError, Result, ok, err}
use taskbus.Redis.{XMessage}
use taskbus.Redis.Loop.{
  Reader, Claims, after_read, read_new, after_claim, claim_due, claim, claim_or_read, round, ids,
  all_ids, Books,
}
use taskbus.Redis.Handed.{dispatch_all-log, dispatch_streams-log}

module _ {W : Type 0} (reader : Reader W) (dispatch : XMessage → Exec W GoError)
    (given log : W → List Str) (law : Books reader dispatch given log) (count : ℕ) where
  abbrev pub ClaimsWithin : Result (List XMessage × Str) → Type 0
  ClaimsWithin (ok (xs, start)) = length (ids reader dispatch xs) ≤ count
  ClaimsWithin (err e) = Unit

  abbrev pub ReadsWithin : Result (List (List XMessage)) → Type 0
  ReadsWithin (ok streams) = length (all_ids reader dispatch streams) ≤ count
  ReadsWithin (err e) = Unit

  -- COUNT: no answer has more entries. A consumer reads one stream.
  pub record Limited : Type 0 where
    pub claims : (start : Str) (w : W) → ClaimsWithin (reader.x_auto_claim start w).0
    pub reads : (w : W) → ReadsWithin (reader.x_read_group w).0

  -- From a log, at most `count` entries were dispatched.
  abbrev pub Dispatched : List Str → W → Type 0
  Dispatched before w = (batch : List Str) × (log w ≡ before ++ batch) × (length batch ≤ count)

  module _ (limited : Limited) where
    none-Dispatched : (before : List Str) (w : W) → log w ≡ before → Dispatched before w
    none-Dispatched before w e = ([], e ∙ sym (append-nil before), omega arith)

    after_read-Dispatched :
        (before : List Str) (r : Result (List (List XMessage))) (w : W)
        → log w ≡ before
        → ReadsWithin r
        → Dispatched before (after_read reader dispatch r w).1
    unfolding after_read
    after_read-Dispatched before (ok streams) w e le = (
      all_ids reader dispatch streams,
      dispatch_streams-log reader dispatch given log law streams w
          ∙ ap (λ l. l ++ all_ids reader dispatch streams) e,
      le,
    )
    after_read-Dispatched before (err x) w e le = none-Dispatched before w e

    read_new-Dispatched :
        (before : List Str) (c : Claims) (w : W)
        → log w ≡ before
        → Dispatched before (read_new reader dispatch c w).1
    unfolding read_new
    read_new-Dispatched before c w e =
        let r = reader.x_read_group w in
        after_read-Dispatched before r.0 r.1 (law.read_log w ∙ e) (limited.reads w)

    after_claim-Dispatched :
        (before : List Str) (c : Claims) (r : Result (List XMessage × Str)) (w : W)
        → log w ≡ before
        → ClaimsWithin r
        → Dispatched before (after_claim reader dispatch c r w).1
    unfolding after_claim
    after_claim-Dispatched before c (err x) w e le =
        read_new-Dispatched before
          (if reader.is_unknown_command x then record c { enabled = false } else c) w e
    after_claim-Dispatched before c (ok ([], start)) w e le =
        read_new-Dispatched before (record c { start = start }) w e
    after_claim-Dispatched before c (ok (x ∷ xs, start)) w e le = (
      ids reader dispatch (x ∷ xs),
      dispatch_all-log reader dispatch given log law (x ∷ xs) w
          ∙ ap (λ l. l ++ ids reader dispatch (x ∷ xs)) e,
      le,
    )

    claim-Dispatched :
        (before : List Str) (c : Claims) (w : W)
        → log w ≡ before
        → Dispatched before (claim reader dispatch c w).1
    unfolding claim
    claim-Dispatched before c w e =
        let w1 = (reader.now w).1 in
        let r = reader.x_auto_claim c.start w1 in
        after_claim-Dispatched before (record c { last = some (reader.now w).0 }) r.0 r.1
          (law.claim_log c.start w1 ∙ law.now_log w ∙ e) (limited.claims c.start w1)

    claim_or_read-Dispatched :
        (before : List Str) (due : Bool) (c : Claims) (w : W)
        → log w ≡ before
        → Dispatched before (claim_or_read reader dispatch due c w).1
    unfolding claim_or_read
    claim_or_read-Dispatched before true c w e = claim-Dispatched before c w e
    claim_or_read-Dispatched before false c w e = read_new-Dispatched before c w e

    -- A round dispatches one batch, claimed or new and never both, of at most COUNT entries.
    pub round-Dispatched : (c : Claims) (w : W) → Dispatched (log w) (round reader dispatch c w).1
    unfolding round
    round-Dispatched c w =
        claim_or_read-Dispatched (log w)
          (c.enabled && claim_due reader dispatch c.last (reader.now w).0) c (reader.now w).1
          (law.now_log w)
