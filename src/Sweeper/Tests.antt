-- ===== src/Sweeper/Tests.antt =====
-- `sweep` over three instruments, two of them due.
use multi_instrument_orderbo.Prelude.{ℕ, List, ◌∷◌, []}
use multi_instrument_orderbo.Contract.{ExpiryDate}
use multi_instrument_orderbo.Sweeper.{Sweeper, new_sweeper, register_instrument}
use multi_instrument_orderbo.Sweeper.Swept.{Run, fresh, registers, SweepDone, sweep-SweepDone}

abbrev march : ℕ → ExpiryDate
march d = record { year = 2025; month = 3; day = d }

abbrev first_two : Sweeper
first_two = register_instrument 5 (march 21) (register_instrument 6 (march 14) new_sweeper)

first_two-Run : Run first_two
first_two-Run = registers 5 (march 21) _ (registers 6 (march 14) new_sweeper fresh)

-- The callback collects what it is told.
sweep-SweepDone_example :
    SweepDone {S = List ℕ}
      (λ i is. i ∷ is)
      (march 21)
      (register_instrument 7 (march 28) first_two)
      []
sweep-SweepDone_example =
    sweep-SweepDone {S = List ℕ} (λ i is. i ∷ is) (march 21)
      (register_instrument 7 (march 28) first_two) []
      (registers 7 (march 28) first_two first_two-Run)
