-- ===== src/Scheduler.antt =====
-- bcos-scheduler/SchedulerImpl.h and SchedulerImpl.cpp: the blocks that are executed and not yet
-- committed, and the two mutexes that let one block execute and one commit at a time. What the
-- callbacks of `asyncExecute`, `asyncCommit` and `asyncGetLedgerConfig` bring is the input of a step of
-- its own, so other requests can come in between.
pub mod Numbers
pub mod Steps
pub mod Failures
mod Tests
use bcos_dispatcher.Base.{
  ℕ, suc, ◌+◌, ◌<◌, Bool, true, false, ◌&&◌, not, Option, none, some, List, [], ◌∷◌, ◌++◌, leb,
  ◌==◌, if◌then◌else◌,
}
use bcos_dispatcher.Base.Text.{Text}
use bcos_dispatcher.Common.{
  SchedulerError, unknown_error, invalid_status, invalid_block_number, invalid_blocks,
}

pub record BlockHeader : Type 0 where
  pub number : ℕ
  pub state_root : Text

-- `result` is null until the block has been executed.
pub record BlockExecutive : Type 0 where
  pub number : ℕ
  pub result : Option BlockHeader

-- `m_blocks` from its front, and whether the mutexes are held.
pub record SchedulerImpl : Type 0 where
  pub blocks : List BlockExecutive
  pub last_executed : ℕ
  pub execute_locked : Bool
  pub commit_locked : Bool

-- What a request does: its callback is given an error and a value, either of which may be null, or the
-- work starts and the callback waits for it. After a commit it is given the ledger's configuration, and
-- an error if the notifier answered one, as the flag says. `undefined` is a read past the end of `m_blocks`.
pub data Answer : Type 0 where
  replied : Option SchedulerError → Option BlockHeader → Answer
  configured : Bool → Answer
  started undefined : Answer

-- `m_blocks.back()`, with the block in front of the list.
unfoldable pub back : BlockExecutive → List BlockExecutive → BlockExecutive
back b [] = b
back b (c ∷ bs) = back c bs

-- The loop from `m_blocks.begin()` to the block with the number.
unfoldable pub find_block : ℕ → List BlockExecutive → Answer
find_block number [] = undefined
find_block number (b ∷ bs) =
    if b.number == number then replied none b.result else find_block number bs

unfoldable pub start_block : ℕ → SchedulerImpl → SchedulerImpl
start_block number s = record s {
  blocks = s.blocks ++ record { number = number; result = none } ∷ [];
  execute_locked = true;
}

-- Behind both locks, by what `m_blocks` holds.
unfoldable pub execute_checked : ℕ → List BlockExecutive → SchedulerImpl → Answer × SchedulerImpl
unfolding find_block start_block back
execute_checked number [] s =
    if not (s.last_executed == 0) && leb number s.last_executed
    then (replied (some invalid_block_number) none, s)
    else (started, start_block number s)
execute_checked number (b ∷ bs) s =
    if leb b.number number && leb number (back b bs).number
    then (find_block number (b ∷ bs), s)
    else if number == (back b bs).number + 1
    then (started, start_block number s)
    else (replied (some invalid_block_number) none, s)

unfoldable pub execute_block : ℕ → SchedulerImpl → Answer × SchedulerImpl
unfolding execute_checked
execute_block number s =
    if s.execute_locked
    then (replied (some invalid_status) none, s)
    else execute_checked number s.blocks s

-- `m_result` of the block that was started last.
unfoldable pub set_result : BlockHeader → List BlockExecutive → List BlockExecutive
set_result header [] = []
set_result header (b ∷ []) = record b { result = some header } ∷ []
set_result header (b ∷ c ∷ bs) = b ∷ set_result header (c ∷ bs)

-- The callback of `asyncExecute`: an error, or the header of the executed block.
unfoldable pub execute_done : Option BlockHeader → SchedulerImpl → Answer × SchedulerImpl
unfolding set_result
execute_done none s = (replied (some unknown_error) none, record s { execute_locked = false })
execute_done (some header) s = (
  replied none (some header),
  record s {
    blocks = set_result header s.blocks;
    last_executed = header.number;
    execute_locked = false;
  },
)

unfoldable pub commit_front : ℕ → BlockExecutive → SchedulerImpl → Answer × SchedulerImpl
commit_front number front s = elim front.result [
  | none ↦ (replied (some invalid_status) none, s)
  | some _ ↦
      if number == front.number
      then (started, record s { commit_locked = true })
      else (replied (some invalid_block_number) none, s)
]

unfoldable pub commit_checked : ℕ → List BlockExecutive → SchedulerImpl → Answer × SchedulerImpl
unfolding commit_front
commit_checked number [] s = (replied (some invalid_blocks) none, s)
commit_checked number (front ∷ _) s = commit_front number front s

unfoldable pub commit_block : ℕ → SchedulerImpl → Answer × SchedulerImpl
unfolding commit_checked
commit_block number s =
    if s.commit_locked
    then (replied (some invalid_status) none, s)
    else commit_checked number s.blocks s

-- `m_blocks.pop_front()`
unfoldable pub pop_front : List BlockExecutive → List BlockExecutive
pop_front [] = []
pop_front (_ ∷ bs) = bs

-- The callbacks of `asyncCommit` and, after it, of `asyncGetLedgerConfig` and of the notifier: whether
-- the commit failed, whether reading the configuration did, and whether the notifier answered an
-- error (without a notifier there is none).
unfoldable pub commit_done : Bool → Bool → Bool → SchedulerImpl → Answer × SchedulerImpl
unfolding pop_front
commit_done true _ _ s = (replied (some unknown_error) none, record s { commit_locked = false })
commit_done false true _ s = (replied (some unknown_error) none, record s { commit_locked = false })
commit_done false false notify_error s =
    (configured notify_error, record s { blocks = pop_front s.blocks; commit_locked = false })

unfoldable pub new_scheduler : SchedulerImpl
new_scheduler = record {
  blocks = [];
  last_executed = 0;
  execute_locked = false;
  commit_locked = false;
}
