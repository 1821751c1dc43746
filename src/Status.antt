-- ===== src/Status.antt =====
-- `CommitStatus` of bcos-scheduler/BlockExecutive.h, by which BlockExecutive.cpp waits for the answers
-- of the storage and of all executors. An answer is counted and then checked; what follows the count
-- of the storage's own answer differs from batch to batch.
pub mod Sequential
pub mod Interleaved
pub mod Late
use bcos_dispatcher.Base.{ℕ, suc, ◌+◌, Bool, true, false, List, [], ◌∷◌, ltb, if◌then◌else◌}

pub record CommitStatus : Type 0 where
  pub total : ℕ
  pub success : ℕ
  pub failed : ℕ

-- What `checkAndCommit` does: it returns at once, or goes on after all answers.
pub data Verdict : Type 0 where
  waits all_succeeded with_errors : Verdict

-- The test at the head of each `checkAndCommit`.
unfoldable pub check_and_commit : CommitStatus → Verdict
check_and_commit status =
    if ltb (status.success + status.failed) status.total
    then waits
    else if ltb 0 status.failed
    then with_errors
    else all_succeeded

-- `++failed` or `++success`; the flag says that the answer is an error.
unfoldable pub count : Bool → CommitStatus → CommitStatus
count true status = record status { failed = suc status.failed }
count false status = record status { success = suc status.success }

unfoldable pub start : ℕ → CommitStatus
start total = record { total = total; success = 0; failed = 0 }

-- The steps of the threads that answer: a count, and a check that follows it.
pub data Step : Type 0 where
  counted : Bool → Step
  checked : Step

-- A check that does not return at once calls back: what an order of steps calls back.
unfoldable pub note_check : Verdict → List Verdict → List Verdict
note_check waits rest = rest
note_check all_succeeded rest = all_succeeded ∷ rest
note_check with_errors rest = with_errors ∷ rest

unfoldable pub run : List Step → CommitStatus → List Verdict
unfolding note_check
run [] status = []
run (counted error ∷ steps) status = run steps (count error status)
run (checked ∷ steps) status = note_check (check_and_commit status) (run steps status)

-- The answers of executors, one after the other: each is counted and checked by its callback.
unfoldable pub executor_answers : List Bool → List Step
executor_answers [] = []
executor_answers (error ∷ answers) = counted error ∷ checked ∷ executor_answers answers

abbrev pub any_error : List Bool → Bool
any_error [] = false
any_error (true ∷ answers) = true
any_error (false ∷ answers) = any_error answers

abbrev pub verdict_of : Bool → Verdict
verdict_of true = with_errors
verdict_of false = all_succeeded
