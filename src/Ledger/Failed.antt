-- ===== src/Ledger/Failed.antt =====
-- What `asyncGetLedgerConfig` calls back after an error.
use bcos_dispatcher.Base.{
  ℕ, suc, ◌+◌, ◌≡◌, ◌≢◌, refl, ap, Bool, true, false, ◌||◌, inl, inr, Option, none, List, [], ◌∷◌,
  length, arith, ltb, ◌∙◌, replicate, List-cases, All, Option-cases,
}
use bcos_dispatcher.Base.Text.{Text}
use bcos_dispatcher.Common.{unknown_error}
use bcos_dispatcher.Ledger.{
  Step, answered, tested, LedgerConfig, LedgerAnswer, Summary, with_error, store, report,
  count_stored, collect, run, async_get_ledger_config,
}
use bcos_dispatcher.Ledger.Late.{answers_of, late_tests}
use bcos_dispatcher.Ledger.Collected.{any_error}

module _ {N : Type 0} (parse : Text → Option ℕ) where
  -- An answer without an error can be stored.
  abbrev pub Readable : Bool × LedgerAnswer N → Type 0
  Readable (true, a) = Unit {0}
  Readable (false, a) = (d : LedgerConfig N) → store parse a d ≢ none

  run-failed :
      (steps : List (Step N)) (s : Summary N)
      → All Readable (answers_of steps)
      → s.success + s.failed + length (answers_of steps) ≡ 6
      → ltb 0 s.failed || any_error (answers_of steps) ≡ true
      → run parse steps s ≡ replicate (late_tests steps) (with_error unknown_error)
  unfolding run collect count_stored report
  run-failed [] s h n f = refl
  run-failed (answered true a ∷ steps) s h n f =
      run-failed steps (record s { failed = suc s.failed }) h.1 (omega (arith, n)) (ground arith)
  run-failed (answered false a ∷ steps) s h n f =
      elim (Option-cases (store parse a s.ledger_config)) [
        | inl e ↦ absurd (h.0 s.ledger_config e)
        | inr (d, e) ↦
            ap (λ stored. run parse steps (count_stored stored s)) e
            ∙ run-failed steps (record s { success = suc s.success; ledger_config = d }) h.1
                (omega (arith, n)) f
      ]
  run-failed (tested ∷ steps) s h n f = elim (List-cases (answers_of steps)) [
    | inl z ↦
        let failed : ltb 0 s.failed || any_error {N = N} [] ≡ true = (rw z at f) in
        ground (arith, ap length z, run-failed steps s h n f)
    | inr (x, xs, z) ↦ ground (arith, ap length z, run-failed steps s h n f)
  ]

  -- If one of six answers is an error, and the others can be read, the callback is called for each test
  -- after the last answer, with an error.
  pub async_get_ledger_config-failed :
      (fresh : LedgerConfig N) (steps : List (Step N))
      → length (answers_of steps) ≡ 6
      → All Readable (answers_of steps)
      → any_error (answers_of steps) ≡ true
      → async_get_ledger_config parse fresh steps
        ≡ replicate (late_tests steps) (with_error unknown_error)
  unfolding async_get_ledger_config
  async_get_ledger_config-failed fresh steps l h e =
      run-failed steps (record { success = 0; failed = 0; ledger_config = fresh }) h
        (omega (arith, l)) (ground arith)
