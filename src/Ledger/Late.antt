-- ===== src/Ledger/Late.antt =====
-- The tests that follow the answers to `asyncGetLedgerConfig`.
use bcos_dispatcher.Base.{ℕ, suc, ◌<◌, ◌≡◌, Bool, List, [], ◌∷◌, length, arith, ◌==◌, if◌then◌else◌}
use bcos_dispatcher.Ledger.{Step, answered, tested, LedgerAnswer}

module _ {N : Type 0} where
  -- The answers that the steps collect.
  abbrev pub answers_of : List (Step N) → List (Bool × LedgerAnswer N)
  answers_of [] = []
  answers_of (answered error a ∷ steps) = (error, a) ∷ answers_of steps
  answers_of (tested ∷ steps) = answers_of steps

  -- The tests after the last answer.
  abbrev pub late_tests : List (Step N) → ℕ
  late_tests [] = 0
  late_tests (answered error a ∷ steps) = late_tests steps
  late_tests (tested ∷ steps) =
      if length (answers_of steps) == 0 then suc (late_tests steps) else late_tests steps

  -- A test is still to come.
  abbrev pub Tests : List (Step N) → Type 0
  Tests [] = ⊥
  Tests (answered error a ∷ steps) = Tests steps
  Tests (tested ∷ steps) = Unit {0}

  -- The thread that collects an answer tests afterwards.
  abbrev pub Followed : List (Step N) → Type 0
  Followed [] = Unit {0}
  Followed (answered error a ∷ steps) = Tests steps × Followed steps
  Followed (tested ∷ steps) = Followed steps

  Tests-late :
      (steps : List (Step N)) → length (answers_of steps) ≡ 0 → Tests steps → 0 < late_tests steps
  Tests-late [] z t = absurd t
  Tests-late (answered error a ∷ steps) z t = absurd (omega (arith, z))
  Tests-late (tested ∷ steps) z t = ground arith

  pub Followed-late :
      (steps : List (Step N))
      → Followed steps
      → 0 < length (answers_of steps)
      → 0 < late_tests steps
  Followed-late [] f h = absurd (omega arith)
  Followed-late (answered error a ∷ steps) f h =
      ground (arith, Tests-late steps, Followed-late steps)
  Followed-late (tested ∷ steps) f h = ground (arith, Followed-late steps)
