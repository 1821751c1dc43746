-- ===== src/Requests.antt =====
-- Requests to bcos-scheduler/SchedulerImpl.cpp that leave its blocks alone: `call`, `registerExecutor` and
-- `getCode`.
pub mod Calls
pub mod Registers
mod Tests
use bcos_dispatcher.Base.{ℕ, suc, Bool, true, false, Option, none, some, List, [], ◌∷◌}
use bcos_dispatcher.Base.Text.{Text}
use bcos_dispatcher.Common.{SchedulerError, unknown_error}
use bcos_dispatcher.Executors.{ExecutorManager, Outcome, returned, add_executor, dispatch_executor}
use bcos_dispatcher.Block.{Receipt}
use bcos_dispatcher.Block.Create.{Transaction, Setting}
use bcos_dispatcher.Execution.{ExecutedHeader, Execution, Answers, Finished, async_execute}

-- `receipt(0)` of the temporary block.
abbrev pub first_receipt : List Receipt → Option Receipt
first_receipt [] = none
first_receipt (r ∷ _) = some r

module _ {H : Type 0} where
  unfoldable pub new_execution : Execution H
  new_execution = record { receipts = []; result = none; replies = [] }

  -- The callback of `asyncExecute`, for each time that it is called.
  unfoldable pub call_replies :
      List Receipt
      → List (Option SchedulerError × Option (ExecutedHeader H))
      → List (Option SchedulerError × Option Receipt)
  call_replies receipts [] = []
  call_replies receipts ((some _, _) ∷ rest) =
      (some unknown_error, none) ∷ call_replies receipts rest
  call_replies receipts ((none, _) ∷ rest) =
      (none, first_receipt receipts) ∷ call_replies receipts rest

  -- The temporary block is a static call; `m_calledContextID` is its first context, and goes up.
  unfoldable pub call :
      Setting
      → Transaction
      → Finished H
      → Answers H
      → ℕ
      → List (Option SchedulerError × Option Receipt) × ℕ
  unfolding new_execution call_replies async_execute
  call e tx f a called_context_id =
      let s : Execution H =
        async_execute (record e { static_call = true; start_context_id = called_context_id }) []
          (tx ∷ []) f a new_execution in
      (call_replies s.receipts s.replies, suc called_context_id)

-- The exceptions of `addExecutor` are caught.
unfoldable pub is_caught : Outcome (Unit {0}) → Bool
is_caught (returned _) = false
is_caught _ = true

module _ {E : Type 0} where
  -- Whether the callback is given an error.
  unfoldable pub register_executor : Text → Option E → ExecutorManager E → Bool × ExecutorManager E
  unfolding is_caught add_executor
  register_executor name executor m =
      let (outcome, m') = add_executor name executor m in (is_caught outcome, m')

  -- The executor that is asked for the code, or the exception that `dispatchExecutor` throws.
  unfoldable pub get_code : Text → ExecutorManager E → Outcome (Option E) × ExecutorManager E
  unfolding dispatch_executor
  get_code contract m = dispatch_executor contract m
