-- ===== src/Commit.antt =====
-- The phases of bcos-scheduler/BlockExecutive.cpp that ask all executors, and `asyncCommit`, the two
-- phase commit over them and the storage. What the storage, the ledger and the executors answer is
-- the input, as flags that say whether an answer is an error; the result is what the callback is
-- given, once for each time that it is called.
pub mod Phases
pub mod Outcome
mod Tests
use bcos_dispatcher.Base.{
  ℕ, suc, ◌+◌, Bool, true, false, Option, none, some, List, [], ◌∷◌, ◌++◌, length, if◌then◌else◌,
}
use bcos_dispatcher.Common.{
  SchedulerError, unknown_error, prewrite_block_error, commit_error, rollback_error,
}
use bcos_dispatcher.Status.{
  Verdict, waits, all_succeeded, with_errors, Step, counted, start, run, executor_answers,
}

-- The error that a callback is given, if any.
abbrev pub Reply : Type 0
Reply = Option SchedulerError

-- The tail of `checkAndCommit` in the four batches: an error with its code, or `nullptr`.
replies : SchedulerError → List Verdict → List Reply
replies code [] = []
replies code (waits ∷ vs) = replies code vs
replies code (all_succeeded ∷ vs) = none ∷ replies code vs
replies code (with_errors ∷ vs) = some code ∷ replies code vs

-- The executors answer one after the other.
unfoldable pub batch_next_block : List Bool → List Reply
unfolding replies
batch_next_block executors =
    replies unknown_error (run (executor_answers executors) (start (length executors)))

-- The storage answers first, and its callback starts the commits of so many executors in parallel: the
-- steps of their callbacks come in the order given.
pub batch_block_commit : Bool → ℕ → List Step → List Reply
unfolding replies
batch_block_commit storage executors steps =
    replies commit_error (run (counted storage ∷ steps) (start (suc executors)))

-- The storage is asked without waiting for it: its answer comes after those of some executors and
-- before those of the others, and no check follows it.
pub batch_block_rollback : List Bool → Bool → List Bool → List Reply
unfolding replies
batch_block_rollback before storage after = replies rollback_error (
    run (executor_answers before ++ (counted storage ∷ executor_answers after))
      (start (suc (length before + length after))))

-- All answers that one commit meets, and how many executors answer each phase. To the prepare and the
-- rollback the executors answer one after the other.
pub record Answers : Type 0 where
  pub prewrite : Bool
  pub prepare_storage : Bool
  pub prepare : List Bool
  pub commit_storage : Bool
  pub executors : ℕ
  pub commit : List Step
  pub rollback_before : List Bool
  pub rollback_storage : Bool
  pub rollback_after : List Bool

-- The callback that `asyncCommit` hands to `batchBlockRollback`: an error is passed on, and after a
-- rollback without error nothing is called.
after_rollback : List Reply → List Reply
after_rollback [] = []
after_rollback (some error ∷ rest) = some error ∷ after_rollback rest
after_rollback (none ∷ rest) = after_rollback rest

-- The one that it hands to `batchBlockCommit`.
after_commit : List Reply → List Reply
after_commit [] = []
after_commit (some _ ∷ rest) = some unknown_error ∷ after_commit rest
after_commit (none ∷ rest) = none ∷ after_commit rest

-- `checkAndCommit` of the prepare phase.
after_prepare : Answers → List Verdict → List Reply
unfolding batch_block_rollback batch_block_commit after_rollback after_commit
after_prepare a [] = []
after_prepare a (waits ∷ vs) = after_prepare a vs
after_prepare a (with_errors ∷ vs) =
    after_rollback (batch_block_rollback a.rollback_before a.rollback_storage a.rollback_after)
    ++ after_prepare a vs
after_prepare a (all_succeeded ∷ vs) =
    after_commit (batch_block_commit a.commit_storage a.executors a.commit) ++ after_prepare a vs

pub prepare_verdicts : Answers → List Verdict
prepare_verdicts a =
    run (counted a.prepare_storage ∷ executor_answers a.prepare) (start (suc (length a.prepare)))

pub async_commit : Answers → List Reply
unfolding after_prepare prepare_verdicts
async_commit a =
    if a.prewrite then some prewrite_block_error ∷ [] else after_prepare a (prepare_verdicts a)
