-- ===== src/Block/Check.antt =====
-- The callback that brings an executor's answer, and `checkBatch`, which looks for dead locks after a
-- batch that sent nothing, and otherwise takes up the key locks and moves the states to their contracts.
use bcos_dispatcher.Base.{
  ℕ, suc, Bool, true, false, ◌&&◌, not, Option, none, some, List, [], ◌∷◌, ltb, ◌==◌, if◌then◌else◌,
}
use bcos_dispatcher.Common.{SchedulerError, batch_error}
use bcos_dispatcher.KeyLocks
use bcos_dispatcher.KeyLocks.{
  GraphKeyLocks, granted, refused, bad_access, batch_acquire_key_lock, release_key_locks,
}
use bcos_dispatcher.KeyLocks.Search.{DepthFirstVisit}
use bcos_dispatcher.KeyLocks.Deadlock.{detect_dead_lock}
use bcos_dispatcher.Batch.{is_over}
use bcos_dispatcher.Executive.{
  MessageType, txhash, message, send_back, revert, finished, key_lock, revert_key_lock,
  ExecutionMessage, ExecutiveState, TraverseHint, pass, skip_contract, update, end, Node,
  traverse_executive,
}
use bcos_dispatcher.Block.{Block}

abbrev pub is_nil : List Node → Bool
is_nil [] = true
is_nil (_ ∷ _) = false

-- What an executor answers.
pub data Response : Type 0 where
  failed null : Response
  answered : ExecutionMessage → Response

abbrev pub is_error : Response → Bool
is_error (answered m) = false
is_error failed = true
is_error null = true

unfoldable pub answer : Response → ExecutiveState → ExecutiveState
answer failed x = record x { error = true; message = none }
answer null x = x
answer (answered m) x = record x { message = some m }

-- The state that the callback holds a reference to.
unfoldable pub answer_at : ℕ → Response → List Node → List Node
unfolding answer
answer_at c r [] = []
answer_at c r (n ∷ ns) =
    if n.mapped.context_id == c
    then record n { mapped = answer r n.mapped } ∷ ns
    else n ∷ answer_at c r ns

-- The looks for a dead lock: the first context in one is told to revert.
unfoldable pub revert_first :
    Option ExecutionMessage → ExecutiveState → Option TraverseHint × ExecutiveState
revert_first none x = (none, x)
revert_first (some m) x =
    (some end, record x { message = some (record m { kind = revert_key_lock }) })

unfoldable pub order_by :
    KeyLocks.Answer × GraphKeyLocks
    → TraverseHint
    → ExecutiveState
    → Option TraverseHint × ExecutiveState × GraphKeyLocks
order_by (granted, locks) hint x = (some hint, x, locks)
order_by (refused, locks) hint x = (none, x, locks)
order_by (bad_access, locks) hint x = (none, x, locks)

unfoldable pub order_kind :
    MessageType
    → ExecutionMessage
    → ExecutiveState
    → GraphKeyLocks
    → Option TraverseHint × ExecutiveState × GraphKeyLocks
unfolding order_by
order_kind message m x l =
    order_by (batch_acquire_key_lock m.from m.key_locks m.context_id m.seq l) update x
order_kind key_lock m x l =
    order_by (batch_acquire_key_lock m.from m.key_locks m.context_id m.seq l) pass x
order_kind finished m x l = (some update, x, release_key_locks m.context_id m.seq l)
order_kind revert m x l = (some update, x, release_key_locks m.context_id m.seq l)
order_kind revert_key_lock m x l = (some pass, x, l)
order_kind txhash m x l = (some pass, x, l)
order_kind send_back m x l = (some pass, x, l)

unfoldable pub order_message :
    Option ExecutionMessage
    → ExecutiveState
    → GraphKeyLocks
    → Option TraverseHint × ExecutiveState × GraphKeyLocks
unfolding order_kind
order_message none x l = (none, x, l)
order_message (some m) x l = order_kind m.kind m x l

-- The callback that takes up key locks and asks for updates.
unfoldable pub order :
    ExecutiveState → GraphKeyLocks → Option TraverseHint × ExecutiveState × GraphKeyLocks
unfolding order_message
order x l =
    if x.skip
    then (some skip_contract, record x { skip = false }, l)
    else order_message x.message x l

-- The callback that looks for a dead lock; it changes no key lock.
unfoldable pub find_dead_lock :
    DepthFirstVisit
    → ExecutiveState
    → GraphKeyLocks
    → Option TraverseHint × ExecutiveState × GraphKeyLocks
unfolding revert_first
find_dead_lock visit x l =
    if x.skip
    then (some skip_contract, record x { skip = false }, l)
    else if detect_dead_lock visit x.context_id l
    then (let (hint, x') = revert_first x.message x in (hint, x', l))
    else (some pass, x, l)

module _ {E : Type 0} where
  -- The callback of `executeTransaction` or `call`, up to its call of `checkBatch`.
  unfoldable pub respond : ℕ → Response → Block E → Block E
  unfolding answer_at
  respond c r block =
      let status = block.batch.status in
      record {
        states = answer_at c r block.states;
        batch = record block.batch {
          status = record status {
            error = if is_error r then suc status.error else status.error;
            received = suc status.received;
          };
        };
      }

  -- A traversal of `checkBatch` over the states and key locks of a block, and the call back after it. An
  -- exception leaves `checkBatch` before the call.
  unfoldable pub traverse_and_call :
      (ExecutiveState → GraphKeyLocks → Option TraverseHint × ExecutiveState × GraphKeyLocks)
      → Block E
      → List (Option SchedulerError) × Block E × Bool
  traverse_and_call callback block =
      let (states, locks, thrown) =
        traverse_executive callback block.states block.batch.key_locks in
      (
        (if thrown then [] else none ∷ []),
        record { states = states; batch = record block.batch { key_locks = locks } },
        thrown,
      )

  -- Behind the exchange of `callbackExecuted`.
  unfoldable pub end_batch :
      DepthFirstVisit → Block E → List (Option SchedulerError) × Block E × Bool
  unfolding traverse_and_call order find_dead_lock
  end_batch visit block =
      if ltb 0 block.batch.status.error
      then (some batch_error ∷ [], block, false)
      else if block.batch.status.total == 0 && not (is_nil block.states)
      then traverse_and_call (find_dead_lock visit) block
      else traverse_and_call order block

  -- `checkBatch`: what it calls back, the block, and whether an exception leaves it.
  unfoldable pub check_batch :
      DepthFirstVisit → Block E → List (Option SchedulerError) × Block E × Bool
  unfolding end_batch
  check_batch visit block =
      let status = block.batch.status in
      if is_over status && not status.callback_executed
      then end_batch visit (record block {
        batch = record block.batch { status = record status { callback_executed = true } };
      })
      else ([], block, false)
