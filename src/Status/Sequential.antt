-- ===== src/Status/Sequential.antt =====
-- The answers of the executors one after the other.
use bcos_dispatcher.Base.{
  ℕ, ◌+◌, ◌<◌, ◌≡◌, refl, Bool, true, false, ◌||◌, List, [], ◌∷◌, ◌++◌, length, arith, ltb,
}
use bcos_dispatcher.Status.{
  CommitStatus, check_and_commit, count, Step, run, executor_answers, any_error, verdict_of,
}

-- An error was counted, or comes with the answers.
abbrev pub spoilt : CommitStatus → List Bool → Bool
spoilt status answers = ltb 0 status.failed || any_error answers

-- With as many answers as are outstanding, one call back is made, at the last of them.
pub run-executor_answers :
    (answers : List Bool) (status : CommitStatus)
    → status.success + status.failed + length answers ≡ status.total
    → 0 < length answers
    → run (executor_answers answers) status ≡ verdict_of (spoilt status answers) ∷ []
unfolding run executor_answers count check_and_commit
run-executor_answers [] status h k = absurd (omega arith)
run-executor_answers (true ∷ []) status h k = ground arith
run-executor_answers (false ∷ []) status h k = ground arith
run-executor_answers (true ∷ b ∷ bs) status h k =
    ground (arith, run-executor_answers (b ∷ bs) (count true status))
run-executor_answers (false ∷ b ∷ bs) status h k =
    ground (arith, run-executor_answers (b ∷ bs) (count false status))

-- While answers are outstanding after them, nothing is called back.
pub run_early :
    (answers : List Bool) (rest : List Step) (status : CommitStatus)
    → status.success + status.failed + length answers < status.total
    → (s f : ℕ) × (run (executor_answers answers ++ rest) status
        ≡ run rest (record status { success = s; failed = f }))
      × (s + f ≡ status.success + status.failed + length answers)
      × (ltb 0 f ≡ spoilt status answers)
unfolding run executor_answers count check_and_commit
run_early [] rest status h = (status.success, status.failed, refl, omega arith, ground arith)
run_early (true ∷ bs) rest status h =
    let (s, f, e, n, b) = run_early bs rest (count true status) (omega arith) in
    (s, f, ground arith, omega arith, ground arith)
run_early (false ∷ bs) rest status h =
    let (s, f, e, n, b) = run_early bs rest (count false status) (omega arith) in
    (s, f, ground arith, omega arith, ground arith)
