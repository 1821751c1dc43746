-- ===== src/Requests/Calls.antt =====
-- What `call` answers.
use bcos_dispatcher.Base.{
  ℕ, suc, ◌≡◌, refl, ap, ◌∙◌, Bool, true, false, none, some, List, [], ◌∷◌, if◌then◌else◌,
}
use bcos_dispatcher.Common.{unknown_error}
use bcos_dispatcher.Executive.{Node}
use bcos_dispatcher.Block.Create.{Transaction, Setting, create_states}
use bcos_dispatcher.Execution.{Execution, Answers, Finished}
use bcos_dispatcher.Execution.Phases.{Ends, any_failed}
use bcos_dispatcher.Execution.Outcome.{static_outcome, async_execute_static}
use bcos_dispatcher.Requests.{first_receipt, new_execution, call_replies, call}

module _ {H : Type 0} where
  call_replies_static :
      (f : Finished H) (failed : Bool)
      → let s : Execution H = static_outcome failed f new_execution in
        call_replies s.receipts s.replies
        ≡ (if failed then (some unknown_error, none) else (none, first_receipt f.results)) ∷ []
  unfolding call_replies new_execution
  call_replies_static f true = refl
  call_replies_static f false = refl

  -- If the state of its transaction is made, and the last batch ends with an error or with no states left,
  -- `call` calls back once: with `UnknownError` if a batch ends with an error, else with the receipt that
  -- the batches made, whatever the executors answer to other questions; and the next call has the next
  -- context.
  pub call_lem :
      (e : Setting) (tx : Transaction) (f : Finished H) (a : Answers H) (called_context_id : ℕ)
      (ns : List Node) (d : Bool)
      → create_states
          (record e { static_call = true; start_context_id = called_context_id })
          []
          (tx ∷ [])
        ≡ some (ns, d)
      → Ends a.batches
      → call e tx f a called_context_id ≡ (
        (if any_failed a.batches
              then (some unknown_error, none)
              else (none, first_receipt f.results))
            ∷ [],
        suc called_context_id,
      )
  unfolding call new_execution
  call_lem e tx f a called_context_id ns d made ends =
      ap (λ (s : Execution H). (call_replies s.receipts s.replies, suc called_context_id))
        (async_execute_static
          (record e { static_call = true; start_context_id = called_context_id }) [] (tx ∷ []) ns d
          f a new_execution refl refl made ends)
      ∙ ap (λ replies. (replies, suc called_context_id))
          (call_replies_static f (any_failed a.batches))
