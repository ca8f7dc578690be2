-- ===== src/Redis/Handed.antt =====
-- redis_adapter.go: the entries that the reading loop of Consume dispatches.
use taskbus.Prelude.{
  ℕ, zero, suc, Str, List, [], ◌∷◌, ◌++◌, append-nil, append_assoc, some, Bool, true, false, ◌&&◌,
  Exec, ◌≡◌, ◌∙◌, refl, sym, ap, if◌then◌else◌,
}
use taskbus.Mq.{GoError, Result, ok, err}
use taskbus.Redis.{XMessage}
use taskbus.Redis.Loop.{
  Reader, Claims, dispatch_all, dispatch_streams, after_read, read_new, after_claim, claim_due,
  claim, claim_or_read, round, rounds, ids, all_ids, Claimed, Read, Books,
}

module _ {W : Type 0} (reader : Reader W) (dispatch : XMessage → Exec W GoError)
    (given log : W → List Str) (law : Books reader dispatch given log) where
  pub dispatch_all-log :
      (xs : List XMessage) (w : W)
      → log (dispatch_all reader dispatch xs w).1 ≡ log w ++ ids reader dispatch xs
  unfolding dispatch_all
  dispatch_all-log [] w = sym (append-nil (log w))
  dispatch_all-log (x ∷ xs) w =
      dispatch_all-log xs (dispatch x w).1
      ∙ ap (λ l. l ++ ids reader dispatch xs) (law.dispatch_log x w)
      ∙ append_assoc (log w) (x.id ∷ []) (ids reader dispatch xs)

  dispatch_all-given :
      (xs : List XMessage) (w : W) → given (dispatch_all reader dispatch xs w).1 ≡ given w
  unfolding dispatch_all
  dispatch_all-given [] w = refl
  dispatch_all-given (x ∷ xs) w = dispatch_all-given xs (dispatch x w).1 ∙ law.dispatch_given x w

  pub dispatch_streams-log :
      (streams : List (List XMessage)) (w : W)
      → log (dispatch_streams reader dispatch streams w).1
        ≡ log w ++ all_ids reader dispatch streams
  unfolding dispatch_streams
  dispatch_streams-log [] w = sym (append-nil (log w))
  dispatch_streams-log (xs ∷ streams) w =
      dispatch_streams-log streams (dispatch_all reader dispatch xs w).1
      ∙ ap (λ l. l ++ all_ids reader dispatch streams) (dispatch_all-log xs w)
      ∙ append_assoc (log w) (ids reader dispatch xs) (all_ids reader dispatch streams)

  dispatch_streams-given :
      (streams : List (List XMessage)) (w : W)
      → given (dispatch_streams reader dispatch streams w).1 ≡ given w
  unfolding dispatch_streams
  dispatch_streams-given [] w = refl
  dispatch_streams-given (xs ∷ streams) w =
      dispatch_streams-given streams (dispatch_all reader dispatch xs w).1 ∙ dispatch_all-given xs w

  -- All that was handed over is dispatched, in its order.
  abbrev pub Balanced : W → Type 0
  Balanced w = log w ≡ given w

  after_read-Balanced :
      (w0 : W) (r : Result (List (List XMessage)) × W)
      → Balanced w0
      → log r.1 ≡ log w0
      → Read reader dispatch given w0 r
      → Balanced (after_read reader dispatch r.0 r.1).1
  unfolding after_read
  after_read-Balanced w0 (ok streams, w) b l g =
      dispatch_streams-log streams w
      ∙ ap (λ s. s ++ all_ids reader dispatch streams) (l ∙ b)
      ∙ sym g
      ∙ sym (dispatch_streams-given streams w)
  after_read-Balanced w0 (err e, w) b l g = l ∙ b ∙ sym g

  read_new-Balanced : (c : Claims) (w : W) → Balanced w → Balanced (read_new reader dispatch c w).1
  unfolding read_new
  read_new-Balanced c w b =
      after_read-Balanced w (reader.x_read_group w) b (law.read_log w) (law.read_given w)

  after_claim-Balanced :
      (c : Claims) (w0 : W) (r : Result (List XMessage × Str) × W)
      → Balanced w0
      → log r.1 ≡ log w0
      → Claimed reader dispatch given w0 r
      → Balanced (after_claim reader dispatch c r.0 r.1).1
  unfolding after_claim
  after_claim-Balanced c w0 (err e, w) b l g =
      read_new-Balanced (if reader.is_unknown_command e then record c { enabled = false } else c) w
        (l ∙ b ∙ sym g)
  after_claim-Balanced c w0 (ok ([], start), w) b l g =
      read_new-Balanced (record c { start = start }) w (l ∙ b ∙ sym (append-nil (given w0)) ∙ sym g)
  after_claim-Balanced c w0 (ok (x ∷ xs, start), w) b l g =
      dispatch_all-log (x ∷ xs) w
      ∙ ap (λ s. s ++ ids reader dispatch (x ∷ xs)) (l ∙ b)
      ∙ sym g
      ∙ sym (dispatch_all-given (x ∷ xs) w)

  clock-Balanced : (w : W) → Balanced w → Balanced (reader.now w).1
  clock-Balanced w b = law.now_log w ∙ b ∙ sym (law.now_given w)

  claim-Balanced : (c : Claims) (w : W) → Balanced w → Balanced (claim reader dispatch c w).1
  unfolding claim
  claim-Balanced c w b =
      let w1 = (reader.now w).1 in
      after_claim-Balanced (record c { last = some (reader.now w).0 }) w1
        (reader.x_auto_claim c.start w1) (clock-Balanced w b) (law.claim_log c.start w1)
        (law.claim_given c.start w1)

  claim_or_read-Balanced :
      (due : Bool) (c : Claims) (w : W)
      → Balanced w
      → Balanced (claim_or_read reader dispatch due c w).1
  unfolding claim_or_read
  claim_or_read-Balanced true c w b = claim-Balanced c w b
  claim_or_read-Balanced false c w b = read_new-Balanced c w b

  round-Balanced : (c : Claims) (w : W) → Balanced w → Balanced (round reader dispatch c w).1
  unfolding round
  round-Balanced c w b =
      claim_or_read-Balanced (c.enabled && claim_due reader dispatch c.last (reader.now w).0) c
        (reader.now w).1 (clock-Balanced w b)

  -- However many rounds the loop makes, with whatever errors of the two reads, it dispatches every
  -- entry that an answer hands to the consumer, claimed or new, once and in their order.
  pub rounds-Balanced :
      (n : ℕ) (c : Claims) (w : W) → Balanced w → Balanced (rounds reader dispatch n c w).1
  unfolding rounds
  rounds-Balanced zero c w b = b
  rounds-Balanced (suc n) c w b =
      let r = round reader dispatch c w in rounds-Balanced n r.0 r.1 (round-Balanced c w b)
