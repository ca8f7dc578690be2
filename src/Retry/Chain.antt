-- ===== src/Retry/Chain.antt =====
-- redis_adapter.go and rabbitmq_adapter.go: the redeliveries of a message whose handler always fails.
use taskbus.Prelude.{
  ℕ, zero, suc, ◌+◌, ◌≤◌, ◌<◌, ℤ, pos, Str, GoMap, List, [], ◌∷◌, Option, none, some, ◌≡◌, ◌∙◌,
  refl, ap, arith, max_int, lookup, insert, lookup-insert, lookup-insert_self, succ_int, itoa, atoi,
  atoi-itoa, length, str_eq, if◌then◌else◌,
}
use taskbus.Mq.{Message}
use taskbus.Retry.{or_zero, retry_key, copy_headers, attempt, retry_message}

-- The messages that `m` is published again as, one after another; `none` if the fuel runs out.
pub retries : ℕ → ℤ → Message → Option (List Message)
retries zero max_retries m = none
retries (suc fuel) max_retries m = elim (retry_message max_retries m) [
  | none ↦ some []
  | some next ↦ elim (retries fuel max_retries next) [ none ↦ none | some ms ↦ some (next ∷ ms) ]
]

pub lookup-copy_headers : (k : Str) (h : GoMap Str) → lookup k (copy_headers h) ≡ lookup k h
unfolding copy_headers lookup
lookup-copy_headers k [] = refl
lookup-copy_headers k ((j, v) ∷ h) =
    lookup-insert j k v (copy_headers h)
    ∙ ap (λ r. if str_eq j k then some v else r) (lookup-copy_headers k h)

-- `x` is `m` with the retry count `n`.
pub record IsRetry (n : ℕ) (m x : Message) : Type 0 where
  pub topic : x.topic ≡ m.topic
  pub key : x.key ≡ m.key
  pub body : x.body ≡ m.body
  pub headers :
      (k : Str)
      → lookup k x.headers
        ≡ (if str_eq retry_key k then some (itoa (pos n)) else lookup k m.headers)

-- Each message is a retry of the one before, the first of `m`, counted from `a + 1` on.
abbrev pub Numbered : ℕ → Message → List Message → Type 0
Numbered a m [] = Unit
Numbered a m (x ∷ xs) = IsRetry (suc a) m x × Numbered (suc a) x xs

pub bumped : ℕ → Message → Message
bumped a m = record m { headers = insert retry_key (itoa (pos (suc a))) (copy_headers m.headers) }

pub succ_int_pos : (a : ℕ) → a < max_int → succ_int (pos a) ≡ pos (suc a)
unfolding succ_int
succ_int_pos a h = ground arith

pub retry_message_more :
    (a n : ℕ) (m : Message)
    → attempt m.headers ≡ pos a
    → a < n
    → n ≤ max_int
    → retry_message (pos n) m ≡ some (bumped a m)
unfolding retry_message bumped
retry_message_more a n m e h top = rw (e, succ_int_pos a (omega arith)) (ground arith)

pub retry_message_last :
    (n : ℕ) (m : Message) → attempt m.headers ≡ pos n → n < max_int → retry_message (pos n) m ≡ none
unfolding retry_message
retry_message_last n m e top = rw (e, succ_int_pos n top) (ground arith)

count-bumped :
    (a : ℕ) (m : Message) → lookup retry_key (bumped a m).headers ≡ some (itoa (pos (suc a)))
unfolding bumped
count-bumped a m = lookup-insert_self retry_key (itoa (pos (suc a))) (copy_headers m.headers)

attempt_of : (h : GoMap Str) (s : Str) → lookup retry_key h ≡ some s → attempt h ≡ or_zero (atoi s)
unfolding attempt
attempt_of h s e = rw (e, attempt)

pub attempt-bumped :
    (a : ℕ) (m : Message) → suc a ≤ max_int → attempt (bumped a m).headers ≡ pos (suc a)
unfolding or_zero
attempt-bumped a m h =
    attempt_of (bumped a m).headers (itoa (pos (suc a))) (count-bumped a m)
    ∙ ap or_zero (atoi-itoa (pos (suc a)) h)

pub IsRetry-bumped : (a : ℕ) (m : Message) → IsRetry (suc a) m (bumped a m)
unfolding bumped
IsRetry-bumped a m = record {
  topic = refl;
  key = refl;
  body = refl;
  headers = λ k.
      lookup-insert retry_key k (itoa (pos (suc a))) (copy_headers m.headers)
      ∙ ap (λ o. if str_eq retry_key k then some (itoa (pos (suc a))) else o)
          (lookup-copy_headers k m.headers);
}

-- The first message is published again.
retries_more :
    (f : ℕ) (n : ℤ) (m x : Message) (ms : List Message)
    → retry_message n m ≡ some x
    → retries f n x ≡ some ms
    → retries (suc f) n m ≡ some (x ∷ ms)
unfolding retries
retries_more f n m x ms e run = ground arith

retries_last :
    (f : ℕ) (n : ℤ) (m : Message) → retry_message n m ≡ none → retries (suc f) n m ≡ some []
unfolding retries
retries_last f n m e = rw (e, retries)

-- A message whose count reads `a` is published again `k` times, and no more, when `a + k` is the
-- limit: the copies are counted `a + 1` to `a + k`, and each keeps topic, key, body and other
-- headers of the one before. Fuel of `k + 1` is enough. The limit is below the largest int.
pub retries_exact :
    (k a n : ℕ) (m : Message)
    → attempt m.headers ≡ pos a
    → a + k ≡ n
    → n < max_int
    → (ms : List Message) × (retries (suc k) (pos n) m ≡ some ms)
      × (length ms ≡ k)
      × Numbered a m ms
retries_exact zero a n m e total top =
    let same : a ≡ n = omega arith in
    ([], retries_last 0 (pos n) m (retry_message_last n m (e ∙ ap pos same) top), refl, tt)
retries_exact (suc k) a n m e total top =
    let (ms, run, count, numbered) =
      retries_exact k (suc a) n (bumped a m) (attempt-bumped a m (omega arith)) (omega arith) top in
    (
      bumped a m ∷ ms,
      retries_more (suc k) (pos n) m (bumped a m) ms
          (retry_message_more a n m e (omega arith) (omega arith)) run,
      ap suc count,
      (IsRetry-bumped a m, numbered),
    )
