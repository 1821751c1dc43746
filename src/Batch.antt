-- ===== src/Batch.antt =====
-- `BatchStatus` of bcos-scheduler/BlockExecutive.h: how `startBatch` and the callbacks of the executors
-- in BlockExecutive.cpp find out that a batch is over, and call back once.
pub mod Once
mod Tests
use bcos_dispatcher.Base.{
  ℕ, suc, Bool, true, false, ◌&&◌, not, Option, none, some, List, [], ◌∷◌, ◌++◌, ltb, ◌==◌,
  if◌then◌else◌,
}
use bcos_dispatcher.Common.{SchedulerError, batch_error}

pub record BatchStatus : Type 0 where
  pub total : ℕ
  pub received : ℕ
  pub error : ℕ
  pub callback_executed : Bool
  pub all_sended : Bool

unfoldable pub new_batch : BatchStatus
new_batch = record {
  total = 0;
  received = 0;
  error = 0;
  callback_executed = false;
  all_sended = false;
}

-- The test of `checkBatch`, with the exchange that lets one thread pass.
abbrev pub is_over : BatchStatus → Bool
is_over status = status.all_sended && status.received == status.total

-- What `checkBatch` calls back, and the status after it. Without an error the states of the block are
-- traversed before the call back; the flag says that an exception leaves that traversal.
unfoldable pub check_batch : Bool → BatchStatus → List (Option SchedulerError) × BatchStatus
check_batch throws status =
    if is_over status && not status.callback_executed
    then (
      (if ltb 0 status.error then some batch_error ∷ [] else if throws then [] else none ∷ []),
      record status { callback_executed = true },
    )
    else ([], status)

-- The steps of `startBatch`, which sends messages, and of the threads that bring the answers. At a state
-- with an error `startBatch` sets `allSended` before it counts that error, and sends no more.
pub data Step : Type 0 where
  sent failed received all_sent stopped state_failed : Step
  checked : Bool → Step

unfoldable pub run : List Step → BatchStatus → List (Option SchedulerError)
unfolding check_batch
run [] status = []
run (sent ∷ steps) status = run steps (record status { total = suc status.total })
run (failed ∷ steps) status = run steps (record status { error = suc status.error })
run (received ∷ steps) status = run steps (record status { received = suc status.received })
run (all_sent ∷ steps) status = run steps (record status { all_sended = true })
run (stopped ∷ steps) status = run steps (record status { all_sended = true })
run (state_failed ∷ steps) status = run steps (record status { error = suc status.error })
run (checked throws ∷ steps) status =
    let (called, status') = check_batch throws status in called ++ run steps status'
