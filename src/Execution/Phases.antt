-- ===== src/Execution/Phases.antt =====
-- What the phases of `asyncExecute` do to the execution, by the answers of each and those after it.
use bcos_dispatcher.Base.{
  ◌<◌, ◌^◌, ◌≡◌, refl, ap, ◌∙◌, Bool, true, false, ◌&&◌, Option, none, some, List, [], ◌∷◌, ◌++◌,
  length, arith, if◌then◌else◌,
}
use bcos_dispatcher.Common.{SchedulerError, unknown_error, next_block_error, dmt_error, dag_error}
use bcos_dispatcher.Status.{any_error}
use bcos_dispatcher.Hashes.Total.{any_missing, total_of, hash_reply, batch_get_hashes_lem}
use bcos_dispatcher.Commit.{batch_next_block}
use bcos_dispatcher.Commit.Phases.{reply_of, batch_next_block_lem}
use bcos_dispatcher.Executive.{Node}
use bcos_dispatcher.Dag.{requests, DagAnswer}
use bcos_dispatcher.Dag.Answers.{sum_returned, any_spoils, Positive, dag_execute_complete}
use bcos_dispatcher.Execution.{
  ExecutedHeader, Execution, Answers, Finished, reply, append_receipts, executed_header,
  store_result, take_hashes, end_batches, dmt_execute, after_dag, after_next_block,
}

-- A batch ends with an error, or without one and without states.
abbrev pub Ends : List (Option SchedulerError × Bool) → Type 0
Ends [] = ⊥
Ends ((some _, left) ∷ batches) = Unit
Ends ((none, true) ∷ batches) = Ends batches
Ends ((none, false) ∷ batches) = Unit

-- The batches end with an error.
abbrev pub any_failed : List (Option SchedulerError × Bool) → Bool
any_failed [] = false
any_failed ((some _, left) ∷ batches) = true
any_failed ((none, true) ∷ batches) = any_failed batches
any_failed ((none, false) ∷ batches) = false

-- Each request is answered by a message, and no answer comes without one.
abbrev pub Complete : List Node → List DagAnswer → Type 0
Complete ns answers =
    (0 < length (requests ns))
    × (length (requests ns) < 2 ^ 64)
    × (sum_returned answers ≡ length (requests ns))
    × Positive answers

pub batch_next_block_some :
    (answers : List Bool)
    → 0 < length answers
    → batch_next_block answers ≡ reply_of unknown_error (any_error answers) ∷ []
batch_next_block_some [] h = absurd (omega arith)
batch_next_block_some (answer ∷ answers) h = batch_next_block_lem answer answers

module _ {H : Type 0} where
  -- The error of the first phase that fails.
  abbrev pub first_failure : Bool → Answers H → Option SchedulerError
  first_failure with_dag a =
      if any_error a.next_block
      then some next_block_error
      else if with_dag && any_spoils a.dag
      then some dag_error
      else if any_failed a.batches
      then some dmt_error
      else if any_missing a.hashes
      then some unknown_error
      else none

  -- The header of the executed block, with all receipts and all hashes.
  abbrev pub header_of : Finished H → List (Option H) → Execution H → ExecutedHeader H
  header_of f hashes s = record {
    state_root = total_of f.xor f.no_hash hashes;
    gas_used = f.gas_used;
    txs_root = f.transaction_root;
    receipts_root = f.receipt_root (s.receipts ++ f.results);
  }

  -- An error is only called back; else the block gets its receipts, and its header is stored and called
  -- back.
  abbrev pub outcome :
      Option SchedulerError → Finished H → List (Option H) → Execution H → Execution H
  outcome (some error) f hashes s = record s { replies = s.replies ++ (some error, none) ∷ [] }
  outcome none f hashes s = record {
    receipts = s.receipts ++ f.results;
    result = some (header_of f hashes s);
    replies = s.replies ++ (none, some (header_of f hashes s)) ∷ [];
  }

  take_hashes-hash_reply :
      (f : Finished H) (hashes : List (Option H)) (s : Execution H) (missing : Bool)
      → take_hashes f (hash_reply f.no_hash (total_of f.xor f.no_hash hashes) missing ∷ []) s
        ≡ outcome (if missing then some unknown_error else none) f hashes s
  unfolding take_hashes reply append_receipts store_result executed_header
  take_hashes-hash_reply f hashes s true = refl
  take_hashes-hash_reply f hashes s false = refl

  end_batches_lem :
      (f : Finished H) (hashes : List (Option H)) (s : Execution H)
      → 0 < length hashes
      → end_batches false f hashes s
        ≡ outcome (if any_missing hashes then some unknown_error else none) f hashes s
  unfolding end_batches
  end_batches_lem f [] s h = absurd (omega arith)
  end_batches_lem f (answer ∷ answers) s h =
      ap (λ replies. take_hashes f replies s) (batch_get_hashes_lem f.xor f.no_hash answer answers)
      ∙ take_hashes-hash_reply f (answer ∷ answers) s (any_missing (answer ∷ answers))

  dmt_execute_lem :
      (f : Finished H) (batches : List (Option SchedulerError × Bool)) (hashes : List (Option H))
      (s : Execution H)
      → 0 < length hashes
      → Ends batches
      → dmt_execute false f batches hashes s
        ≡ outcome
            (if any_failed batches
              then some dmt_error
              else if any_missing hashes
              then some unknown_error
              else none)
            f
            hashes
            s
  unfolding dmt_execute reply
  dmt_execute_lem f [] hashes s h e = absurd e
  dmt_execute_lem f ((some _, left) ∷ batches) hashes s h e = refl
  dmt_execute_lem f ((none, true) ∷ batches) hashes s h e = dmt_execute_lem f batches hashes s h e
  dmt_execute_lem f ((none, false) ∷ batches) hashes s h e = end_batches_lem f hashes s h

  after_dag_lem :
      (f : Finished H) (a : Answers H) (s : Execution H) (spoilt : Bool)
      → 0 < length a.hashes
      → Ends a.batches
      → after_dag f a ((if spoilt then some dag_error else none) ∷ []) s
        ≡ outcome
            (if spoilt
              then some dag_error
              else if any_failed a.batches
              then some dmt_error
              else if any_missing a.hashes
              then some unknown_error
              else none)
            f
            a.hashes
            s
  unfolding after_dag reply
  after_dag_lem f a s true h e = refl
  after_dag_lem f a s false h e = dmt_execute_lem f a.batches a.hashes s h e

  pub after_next_block_lem :
      (f : Finished H) (a : Answers H) (ns : List Node) (with_dag : Bool) (s : Execution H)
      (failed : Bool)
      → (with_dag ≡ true → Complete ns a.dag)
      → 0 < length a.hashes
      → Ends a.batches
      → after_next_block f a ns with_dag (reply_of unknown_error failed ∷ []) s
        ≡ outcome
            (if failed
              then some next_block_error
              else if with_dag && any_spoils a.dag
              then some dag_error
              else if any_failed a.batches
              then some dmt_error
              else if any_missing a.hashes
              then some unknown_error
              else none)
            f
            a.hashes
            s
  unfolding after_next_block reply
  after_next_block_lem f a ns with_dag s true c h e = refl
  after_next_block_lem f a ns false s false c h e = dmt_execute_lem f a.batches a.hashes s h e
  after_next_block_lem f a ns true s false c h e =
      ap (λ replies. after_dag f a replies s)
        (dag_execute_complete ns a.dag (c refl).0 (c refl).1 (c refl).2 (c refl).3)
      ∙ after_dag_lem f a s (any_spoils a.dag) h e
