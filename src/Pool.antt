-- ===== src/Pool.antt =====
-- redis_adapter.go and rabbitmq_adapter.go: the goroutines of one consumer, in any interleaving. A
-- loop takes messages from a source and starts a worker for each, under a semaphore and a
-- WaitGroup; Redis/Source and Rabbit/Source are the sources of the two adapters.
pub mod Bounds
pub mod Drain
pub mod Winding
use taskbus.Prelude.{
  ℕ, zero, suc, ◌+◌, ◌-◌, ◌<◌, ℤ, pos, pos_part, List, [], ◌∷◌, ◌++◌, Bool, true, false, ◌≡◌,
}
use taskbus.Config.{or_positive}

-- `concurrency := …; if concurrency <= 0 { concurrency = 1 }`
unfoldable pub concurrency : ℤ → ℕ
concurrency n = pos_part (or_positive n (pos 1))

-- What a loop reads from. The environment moves by `Outer`; the loop at its `select` goes on by
-- `Inner`, gets messages by `Gives`, leaves by `Quits`, and panics by `Breaks`.
pub record Source (X : Type 0) : Type 1 where
  pub Control : Type 0
  pub Outer : Control → Control → Type 0
  pub Inner : Control → Control → Type 0
  pub Gives : Control → List X → Control → Type 0
  pub Quits : Control → Type 0
  pub Breaks : Control → Type 0

-- Where the loop is: at its `select`; before `sem <- struct{}{}` with a message and those behind
-- it; before the `go`; in the Wait; behind `close(done)`; and where it panicked.
pub data Loop (X : Type 0) : Type 0 where
  selecting : Loop X
  dispatching : X → List X → Loop X
  starting : X → List X → Loop X
  waiting : Loop X
  finished : Loop X
  crashed : Loop X

module _ {X : Type 0} where
  -- A panic in a goroutine ends the process.
  abbrev pub is_alive : Loop X → Bool
  is_alive crashed = false
  is_alive _ = true

  -- The loop over a batch.
  abbrev pub dispatch_rest : List X → Loop X
  dispatch_rest [] = selecting
  dispatch_rest (x ∷ xs) = dispatching x xs

-- The tokens in `sem`, the counter of the WaitGroup, the messages of the workers that have a
-- token, and how many gave it back and have not called Done.
pub record Pool (C X : Type 0) : Type 0 where
  pub control : C
  pub loop : Loop X
  pub tokens : ℕ
  pub group : ℕ
  pub running : List X
  pub leaving : ℕ

module _ {C X : Type 0} where
  abbrev pub new_pool : C → Pool C X
  new_pool c = record {
    control = c;
    loop = selecting;
    tokens = 0;
    group = 0;
    running = [];
    leaving = 0;
  }

  -- The loop goes to a place, and the source to a state.
  unfoldable pub go_to : C → Loop X → Pool C X → Pool C X
  go_to c l s = record s { control = c; loop = l }

  -- sem <- struct{}{}
  unfoldable pub take_token : X → List X → Pool C X → Pool C X
  take_token x xs s = record s { loop = starting x xs; tokens = s.tokens + 1 }

  -- wg.Add(1) and the `go`
  unfoldable pub start_worker : X → List X → Pool C X → Pool C X
  start_worker x xs s = record s {
    loop = dispatch_rest xs;
    group = s.group + 1;
    running = x ∷ s.running;
  }

  -- <-sem, when a worker is done; `rest` are the other messages in work.
  unfoldable pub give_token : List X → Pool C X → Pool C X
  give_token rest s = record s { running = rest; tokens = s.tokens - 1; leaving = s.leaving + 1 }

  -- wg.Done()
  unfoldable pub leave : Pool C X → Pool C X
  leave s = record s { group = s.group - 1; leaving = s.leaving - 1 }

-- What a step shows: messages that the loop got, or one whose worker is done.
pub data Label (X : Type 0) : Type 0 where
  silent : Label X
  fetched : List X → Label X
  ended : X → Label X

module _ {X : Type 0} (src : Source X) (limit : ℕ) where
  open src use {Control, Outer, Inner, Gives, Quits, Breaks}

  pub data Step : Label X → Pool Control X → Pool Control X → Type 0 where
    turns :
        {s : Pool Control X} {c : Control}
        → is_alive s.loop ≡ true
        → Outer s.control c
        → Step silent s (go_to c s.loop s)
    goes_on :
        {s : Pool Control X} {c : Control}
        → s.loop ≡ selecting
        → Inner s.control c
        → Step silent s (go_to c selecting s)
    gets :
        {s : Pool Control X} {c : Control} (xs : List X)
        → s.loop ≡ selecting
        → Gives s.control xs c
        → Step (fetched xs) s (go_to c (dispatch_rest xs) s)
    quits :
        {s : Pool Control X}
        → s.loop ≡ selecting
        → Quits s.control
        → Step silent s (go_to s.control waiting s)
    breaks :
        {s : Pool Control X}
        → s.loop ≡ selecting
        → Breaks s.control
        → Step silent s (go_to s.control crashed s)
    takes :
        {s : Pool Control X} (x : X) (xs : List X)
        → s.loop ≡ dispatching x xs
        → s.tokens < limit
        → Step silent s (take_token x xs s)
    starts :
        {s : Pool Control X} (x : X) (xs : List X)
        → s.loop ≡ starting x xs
        → Step silent s (start_worker x xs s)
    ends :
        {s : Pool Control X} (xs : List X) (x : X) (ys : List X)
        → is_alive s.loop ≡ true
        → s.running ≡ xs ++ x ∷ ys
        → Step (ended x) s (give_token (xs ++ ys) s)
    leaves : {s : Pool Control X} → is_alive s.loop ≡ true → 0 < s.leaving → Step silent s (leave s)
    closes :
        {s : Pool Control X}
        → s.loop ≡ waiting
        → s.group ≡ 0
        → Step silent s (go_to s.control finished s)

  -- Any number of steps, with what they showed, the last one first.
  pub data Steps (s : Pool Control X) : List (Label X) → Pool Control X → Type 0 where
    here : Steps s [] s
    next :
        {trace : List (Label X)} {l : Label X} {t u : Pool Control X}
        → Steps s trace t
        → Step l t u
        → Steps s (l ∷ trace) u
