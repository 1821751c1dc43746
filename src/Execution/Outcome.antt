-- ===== src/Execution/Outcome.antt =====
-- What `asyncExecute` calls back, by the answers of all phases.
use bcos_dispatcher.Base.{
  ◌<◌, ◌^◌, ◌≡◌, refl, ap, ◌∙◌, Bool, true, false, Option, none, some, List, [], ◌∷◌, ◌++◌, length,
  if◌then◌else◌,
}
use bcos_dispatcher.Common.{SchedulerError, unknown_error, invalid_status, dmt_error}
use bcos_dispatcher.Status.{any_error}
use bcos_dispatcher.Commit.Phases.{reply_of}
use bcos_dispatcher.Executive.{Node}
use bcos_dispatcher.Dag.{requests}
use bcos_dispatcher.Dag.Answers.{sum_returned, dag_execute_short}
use bcos_dispatcher.Block.Create.{Transaction, Setting, create_states}
use bcos_dispatcher.Execution.{
  Execution, Answers, Finished, reply, append_receipts, end_batches, dmt_execute, after_dag,
  after_next_block, execute_states, is_executed, async_execute,
}
use bcos_dispatcher.Execution.Phases.{
  Ends, any_failed, Complete, first_failure, outcome, batch_next_block_some, after_next_block_lem,
}

module _ {H : Type 0} where
  abbrev pub static_outcome : Bool → Finished H → Execution H → Execution H
  static_outcome true f s = record s { replies = s.replies ++ (some dmt_error, none) ∷ [] }
  static_outcome false f s = record s {
    receipts = s.receipts ++ f.results;
    replies = s.replies ++ (none, none) ∷ [];
  }

  async_execute_fresh :
      (e : Setting) (metas txs : List Transaction) (f : Finished H) (a : Answers H)
      (s : Execution H)
      → s.result ≡ none
      → async_execute e metas txs f a s
        ≡ execute_states e.static_call f a (create_states e metas txs) s
  unfolding async_execute
  async_execute_fresh e metas txs f a s fresh =
      ap
        (λ r.
          if is_executed r
          then reply (some invalid_status) none s
          else execute_states e.static_call f a (create_states e metas txs) s)
        fresh

  async_execute_started :
      (e : Setting) (metas txs : List Transaction) (ns : List Node) (with_dag : Bool)
      (f : Finished H) (a : Answers H) (s : Execution H)
      → e.static_call ≡ false
      → s.result ≡ none
      → create_states e metas txs ≡ some (ns, with_dag)
      → 0 < length a.next_block
      → async_execute e metas txs f a s
        ≡ after_next_block f a ns with_dag (reply_of unknown_error (any_error a.next_block) ∷ []) s
  unfolding execute_states
  async_execute_started e metas txs ns with_dag f a s static fresh made n =
      async_execute_fresh e metas txs f a s fresh
      ∙ ap (λ static_call. execute_states static_call f a (create_states e metas txs) s) static
      ∙ ap (λ created. execute_states false f a created s) made
      ∙ ap (λ replies. after_next_block f a ns with_dag replies s)
          (batch_next_block_some a.next_block n)

  -- If a block that is no static call has not been executed, its states are made, each phase is answered
  -- (by at least one executor, the messages of `DAGExecute` each by one message, the last batch by an
  -- error or with no states left), and the answers of a phase come one after the other, then
  -- `asyncExecute` calls back once: with the error of the first phase that fails, or else with the
  -- header, which it stores, once the block has all receipts.
  pub async_execute_lem :
      (e : Setting) (metas txs : List Transaction) (ns : List Node) (with_dag : Bool)
      (f : Finished H) (a : Answers H) (s : Execution H)
      → e.static_call ≡ false
      → s.result ≡ none
      → create_states e metas txs ≡ some (ns, with_dag)
      → 0 < length a.next_block
      → (with_dag ≡ true → Complete ns a.dag)
      → Ends a.batches
      → 0 < length a.hashes
      → async_execute e metas txs f a s ≡ outcome (first_failure with_dag a) f a.hashes s
  async_execute_lem e metas txs ns with_dag f a s static fresh made n c ends h =
      async_execute_started e metas txs ns with_dag f a s static fresh made n
      ∙ after_next_block_lem f a ns with_dag s (any_error a.next_block) c h ends

  -- If a block that is no static call has not been executed, its states are made, with the flag for
  -- parallel execution, the executors start the block without an error, and their answers to
  -- `DAGExecute` together return fewer messages than they were sent, `asyncExecute` never calls back and
  -- stores nothing.
  pub async_execute_short :
      (e : Setting) (metas txs : List Transaction) (ns : List Node) (f : Finished H) (a : Answers H)
      (s : Execution H)
      → e.static_call ≡ false
      → s.result ≡ none
      → create_states e metas txs ≡ some (ns, true)
      → 0 < length a.next_block
      → any_error a.next_block ≡ false
      → length (requests ns) < 2 ^ 64
      → sum_returned a.dag < length (requests ns)
      → async_execute e metas txs f a s ≡ s
  unfolding after_next_block after_dag
  async_execute_short e metas txs ns f a s static fresh made n started bounded short =
      async_execute_started e metas txs ns true f a s static fresh made n
      ∙ ap (λ failed. after_next_block f a ns true (reply_of unknown_error failed ∷ []) s) started
      ∙ ap (λ replies. after_dag f a replies s) (dag_execute_short ns a.dag bounded short)

  static_dmt :
      (f : Finished H) (batches : List (Option SchedulerError × Bool)) (hashes : List (Option H))
      (s : Execution H)
      → Ends batches
      → dmt_execute true f batches hashes s ≡ static_outcome (any_failed batches) f s
  unfolding dmt_execute end_batches reply append_receipts
  static_dmt f [] hashes s h = absurd h
  static_dmt f ((some _, left) ∷ batches) hashes s h = refl
  static_dmt f ((none, true) ∷ batches) hashes s h = static_dmt f batches hashes s h
  static_dmt f ((none, false) ∷ batches) hashes s h = refl

  -- If a static call has not been executed, its states are made, and its last batch ends with an error
  -- or with no states left, `asyncExecute` calls back once, whatever the executors answer to other
  -- questions: with `DMTError` if a batch ends with an error, else with neither an error nor a header,
  -- once the block has all receipts; no header is stored.
  pub async_execute_static :
      (e : Setting) (metas txs : List Transaction) (ns : List Node) (with_dag : Bool)
      (f : Finished H) (a : Answers H) (s : Execution H)
      → e.static_call ≡ true
      → s.result ≡ none
      → create_states e metas txs ≡ some (ns, with_dag)
      → Ends a.batches
      → async_execute e metas txs f a s ≡ static_outcome (any_failed a.batches) f s
  unfolding execute_states
  async_execute_static e metas txs ns with_dag f a s static fresh made ends =
      async_execute_fresh e metas txs f a s fresh
      ∙ ap (λ static_call. execute_states static_call f a (create_states e metas txs) s) static
      ∙ ap (λ created. execute_states true f a created s) made
      ∙ static_dmt f a.batches a.hashes s ends
