-- ===== src/Examples/Reading.antt =====
-- The reading loop at a concrete input: one new entry in each read, and a claim that fails.
use taskbus.Prelude.{pos, Str, codes, List, [], ◌∷◌, ◌++◌, none, true, refl}
use taskbus.Mq.{GoError, external, ok, err}
use taskbus.Redis.{XMessage}
use taskbus.Redis.Loop.{Reader, first_claims, rounds, Books}
use taskbus.Redis.Handed.{Balanced, rounds-Balanced}

record Ledger : Type 0 where
  handed : List Str
  handled : List Str

abbrev entry : XMessage
entry = record { id = codes "1-1"; values = [] }

abbrev reader : Reader Ledger
reader = record {
  x_auto_claim = λ start w. (err (external (codes "unknown command")), w);
  x_read_group = λ w. (ok ((entry ∷ []) ∷ []), record w { handed = w.handed ++ codes "1-1" ∷ [] });
  now = λ w. (pos 0, w);
  is_due = λ last t. true;
  is_unknown_command = λ e. true;
}

abbrev dispatch : XMessage → Ledger → GoError × Ledger
dispatch x w = (none, record w { handled = w.handled ++ x.id ∷ [] })

reader-Books : Books reader dispatch (λ w. w.handed) (λ w. w.handled)
reader-Books = record {
  claim_given = λ start w. refl;
  claim_log = λ start w. refl;
  read_given = λ w. refl;
  read_log = λ w. refl;
  now_given = λ w. refl;
  now_log = λ w. refl;
  dispatch_given = λ x w. refl;
  dispatch_log = λ x w. refl;
}

abbrev blank : Ledger
blank = record { handed = []; handled = [] }

rounds-Balanced_example :
    Balanced reader dispatch
      (λ w. w.handed)
      (λ w. w.handled)
      reader-Books
      (rounds reader dispatch 2 first_claims blank).1
rounds-Balanced_example =
    rounds-Balanced reader dispatch (λ w. w.handed) (λ w. w.handled) reader-Books 2 first_claims
      blank refl
