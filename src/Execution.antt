-- ===== src/Execution.antt =====
-- `asyncExecute` and `DMTExecute` of bcos-scheduler/BlockExecutive.cpp, which run the phases of a block's
-- execution: the start of the block in the executors, the messages that may run in parallel, batch
-- after batch, and the hashes. The hashes and their exclusive or are parameters, as are the roots.
pub mod Phases
pub mod Outcome
mod Tests
use bcos_dispatcher.Base.{
  ℕ, Bool, true, false, Option, none, some, List, [], ◌∷◌, ◌++◌, if◌then◌else◌,
}
use bcos_dispatcher.Base.Text.{Text}
use bcos_dispatcher.Common.{
  SchedulerError, unknown_error, invalid_status, next_block_error, dmt_error, dag_error,
}
use bcos_dispatcher.Hashes.{batch_get_hashes}
use bcos_dispatcher.Commit.{batch_next_block}
use bcos_dispatcher.Executive.{Node}
use bcos_dispatcher.Dag.{DagAnswer, dag_execute}
use bcos_dispatcher.Block.{Receipt}
use bcos_dispatcher.Block.Create.{Transaction, Setting, create_states}

-- What is set on the header of an executed block.
pub record ExecutedHeader (H : Type 0) : Type 0 where
  pub state_root : H
  pub gas_used : ℕ
  pub txs_root : Text
  pub receipts_root : Text

-- The receipts of `m_block` and `m_result`, and what the callback has been given.
pub record Execution (H : Type 0) : Type 0 where
  pub receipts : List Receipt
  pub result : Option (ExecutedHeader H)
  pub replies : List (Option SchedulerError × Option (ExecutedHeader H))

-- What the ledger and the executors answer in the phases: to `nextBlock` whether an error, and to `getHash`
-- a hash. A batch ends with an error or without one, and leaves states or not.
pub record Answers (H : Type 0) : Type 0 where
  pub next_block : List Bool
  pub dag : List DagAnswer
  pub batches : List (Option SchedulerError × Bool)
  pub hashes : List (Option H)

-- What the batches have made, with the roots that the block calculates, and the join of hashes.
pub record Finished (H : Type 0) : Type 0 where
  pub results : List Receipt
  pub gas_used : ℕ
  pub transaction_root : Text
  pub receipt_root : List Receipt → Text
  pub xor : H → H → H
  pub no_hash : H

module _ {H : Type 0} where
  unfoldable pub reply :
      Option SchedulerError → Option (ExecutedHeader H) → Execution H → Execution H
  reply error header s = record s { replies = s.replies ++ (error, header) ∷ [] }

  -- `appendReceipt` for all of `m_executiveResults`.
  unfoldable pub append_receipts : Finished H → Execution H → Execution H
  append_receipts f s = record s { receipts = s.receipts ++ f.results }

  -- The roots are those of the block as it is now.
  unfoldable pub executed_header : Finished H → H → Execution H → ExecutedHeader H
  executed_header f hash s = record {
    state_root = hash;
    gas_used = f.gas_used;
    txs_root = f.transaction_root;
    receipts_root = f.receipt_root s.receipts;
  }

  -- The header is stored and handed on.
  unfoldable pub store_result : Finished H → H → Execution H → Execution H
  unfolding reply executed_header
  store_result f hash s =
      let header = executed_header f hash s in
      reply none (some header) (record s { result = some header })

  -- The callback of `batchGetHashes`, for each time that it is called.
  unfoldable pub take_hashes :
      Finished H → List (Option SchedulerError × H) → Execution H → Execution H
  unfolding reply append_receipts store_result
  take_hashes f [] s = s
  take_hashes f ((some _, hash) ∷ rest) s = take_hashes f rest (reply (some unknown_error) none s)
  take_hashes f ((none, hash) ∷ rest) s =
      take_hashes f rest (store_result f hash (append_receipts f s))

  -- No states are left.
  unfoldable pub end_batches : Bool → Finished H → List (Option H) → Execution H → Execution H
  unfolding reply append_receipts take_hashes batch_get_hashes
  end_batches static_call f hashes s =
      if static_call
      then reply none none (append_receipts f s)
      else take_hashes f (batch_get_hashes f.xor f.no_hash hashes) s

  -- `recursionCallback`, once for each end of a batch.
  unfoldable pub dmt_execute :
      Bool
      → Finished H
      → List (Option SchedulerError × Bool)
      → List (Option H)
      → Execution H
      → Execution H
  unfolding reply end_batches
  dmt_execute static_call f [] hashes s = s
  dmt_execute static_call f ((some _, left) ∷ batches) hashes s = reply (some dmt_error) none s
  dmt_execute static_call f ((none, true) ∷ batches) hashes s =
      dmt_execute static_call f batches hashes s
  dmt_execute static_call f ((none, false) ∷ batches) hashes s = end_batches static_call f hashes s

  -- The callback of `DAGExecute`.
  unfoldable pub after_dag :
      Finished H → Answers H → List (Option SchedulerError) → Execution H → Execution H
  unfolding reply dmt_execute
  after_dag f a [] s = s
  after_dag f a (some _ ∷ rest) s = after_dag f a rest (reply (some dag_error) none s)
  after_dag f a (none ∷ rest) s = after_dag f a rest (dmt_execute false f a.batches a.hashes s)

  -- The callback of `batchNextBlock`.
  unfoldable pub after_next_block :
      Finished H
      → Answers H
      → List Node
      → Bool
      → List (Option SchedulerError)
      → Execution H
      → Execution H
  unfolding reply after_dag dag_execute dmt_execute
  after_next_block f a ns with_dag [] s = s
  after_next_block f a ns with_dag (some _ ∷ rest) s =
      after_next_block f a ns with_dag rest (reply (some next_block_error) none s)
  after_next_block f a ns with_dag (none ∷ rest) s = after_next_block f a ns with_dag rest (
      if with_dag
      then after_dag f a (dag_execute ns a.dag) s
      else dmt_execute false f a.batches a.hashes s)

  -- Behind the loops that make the states; `none` is the exception of one of them.
  unfoldable pub execute_states :
      Bool → Finished H → Answers H → Option (List Node × Bool) → Execution H → Execution H
  unfolding after_next_block dmt_execute batch_next_block
  execute_states static_call f a none s = s
  execute_states static_call f a (some (ns, with_dag)) s =
      if static_call
      then dmt_execute true f a.batches a.hashes s
      else after_next_block f a ns with_dag (batch_next_block a.next_block) s

  abbrev pub is_executed : Option (ExecutedHeader H) → Bool
  is_executed none = false
  is_executed (some _) = true

  unfoldable pub async_execute :
      Setting
      → List Transaction
      → List Transaction
      → Finished H
      → Answers H
      → Execution H
      → Execution H
  unfolding reply execute_states create_states
  async_execute e metas txs f a s =
      if is_executed s.result
      then reply (some invalid_status) none s
      else execute_states e.static_call f a (create_states e metas txs) s
