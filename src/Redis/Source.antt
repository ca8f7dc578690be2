-- ===== src/Redis/Source.antt =====
-- redis_adapter.go: the `select` of the loop in Consume, and its reads, as a source of entries for
-- the goroutines of Pool. An answer has at most as many entries as the read asks for.
pub mod Waiting
use taskbus.Prelude.{
  ℕ, suc, ◌+◌, ◌*◌, ◌≤◌, ◌<◌, ℤ, List, [], Bool, true, false, ◌≡◌, refl, arith, length, ◌⊎◌, inl,
  inr, if◌then◌else◌, Bool-cases,
}
use taskbus.Pool.{
  concurrency, Source, Loop, selecting, dispatching, starting, waiting, finished, crashed, Pool,
  new_pool, Label, Steps, is_alive,
}
use taskbus.Pool.Bounds.{Steps-IsUp, concurrency-pos}
use taskbus.Pool.Winding.{Winds, IsOver, steps_left, winds_down, CanStep}

-- The context `cctx`, and whether the loop is past its `select`.
pub record Control : Type 0 where
  pub cancelled : Bool
  pub reading : Bool

abbrev pub new_control : Control
new_control = record { cancelled = false; reading = false }

-- cancel(), by the stop or with the parent's context
pub data Outer : Control → Control → Type 0 where
  cancels : {c : Control} → c.cancelled ≡ false → Outer c (record c { cancelled = true })

-- The `default` of the `select`
pub data Inner : Control → Control → Type 0 where
  reads :
      {c : Control}
      → c.reading ≡ false
      → c.cancelled ≡ false
      → Inner c (record c { reading = true })

module _ {X : Type 0} (count : ℕ) where
  -- A round's entries, with none for an error or an empty answer.
  pub data Gives : Control → List X → Control → Type 0 where
    answers :
        {c : Control} (xs : List X)
        → c.reading ≡ true
        → length xs ≤ count
        → Gives c xs (record c { reading = false })

-- case <-cctx.Done()
abbrev pub Quits : Control → Type 0
Quits c = (c.reading ≡ false) × (c.cancelled ≡ true)

-- `count` is the COUNT of the reads, which is the limit of the workers.
abbrev pub redis_source : {X : Type 0} → ℕ → Source X
redis_source {X} count = record {
  Control = Control;
  Outer = Outer;
  Inner = Inner;
  Gives = Gives count;
  Quits = Quits;
  Breaks = λ c. ⊥;
}

abbrev pub IsCancelled : Control → Type 0
IsCancelled c = c.cancelled ≡ true

-- A read that is under way may still give a batch.
abbrev pub rank : ℕ → Control → ℕ
rank count c = if c.reading then suc (4 * count) else 0

module _ (count : ℕ) where
  IsCancelled-Outer :
      {c d : Control} → IsCancelled c → Outer c d → IsCancelled d × (rank count d < rank count c)
  IsCancelled-Outer h (cancels e) = cc

  IsCancelled-Inner :
      {c d : Control} → IsCancelled c → Inner c d → IsCancelled d × (rank count d < rank count c)
  IsCancelled-Inner h (reads r e) = cc

module _ {X : Type 0} (count : ℕ) where
  IsCancelled-Gives :
      {c : Control} {xs : List X} {d : Control}
      → IsCancelled c
      → Gives count c xs d
      → IsCancelled d × (rank count d + 4 * length xs < rank count c)
  IsCancelled-Gives h (answers xs r le) = (h, rw r (omega (arith, le)))

  IsCancelled-Winds : Winds (redis_source {X = X} count) IsCancelled (rank count)
  IsCancelled-Winds = record {
    outer = IsCancelled-Outer count;
    inner = IsCancelled-Inner count;
    gives = IsCancelled-Gives;
    ready = λ {c} h. elim (Bool-cases c.reading) [
      | inl e ↦ inr (inr ([], _, answers [] e (omega arith)))
      | inr e ↦ inl (e, h)
    ];
  }

-- A loop that is over and did not panic has closed `done`.
over-finished : {X : Type 0} (l : Loop X) → IsOver l → is_alive l ≡ true → l ≡ finished
over-finished finished h up = refl
over-finished crashed h up = absurd (cc)
over-finished selecting h up = elim h [ ]
over-finished (dispatching x xs) h up = elim h [ ]
over-finished (starting x xs) h up = elim h [ ]
over-finished waiting h up = elim h [ ]

module _ {X : Type 0} (n : ℤ) where
  -- The goroutines of a consumer, with the limit that the configuration gives.
  abbrev pub RedisSteps : Pool Control X → List (Label X) → Pool Control X → Type 0
  RedisSteps = Steps (redis_source (concurrency n)) (concurrency n)

  -- Once a consumer is cancelled, in any state that it can have come to, it makes no more than a
  -- bounded number of further steps, whatever their order, and it can go on until `done` is closed;
  -- so a stop that waits for it ends, where the handlers and the read end.
  pub cancelled_ends :
      {past : List (Label X)} {s : Pool Control X}
      → RedisSteps (new_pool new_control) past s
      → IsCancelled s.control
      → {trace : List (Label X)} {t : Pool Control X} → RedisSteps s trace t
      → (length trace + steps_left (rank (concurrency n)) t ≤ steps_left (rank (concurrency n)) s)
        × ((t.loop ≡ finished) ⊎ CanStep (redis_source (concurrency n)) (concurrency n) t)
  cancelled_ends before h {t = t} steps =
      let src : Source X = redis_source (concurrency n) in
      let up = Steps-IsUp src (concurrency n) steps (λ c b. b) in
      let alive = up (Steps-IsUp src (concurrency n) before (λ c b. b) refl) in
      let (le, on) =
        winds_down src (concurrency n) IsCancelled (rank (concurrency n))
          (IsCancelled-Winds (concurrency n)) (concurrency-pos n) before h steps in
      (le, elim on [ inl over ↦ inl (over-finished t.loop over alive) | inr can ↦ inr can ])
