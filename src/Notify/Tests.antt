-- ===== src/Notify/Tests.antt =====
-- The sample block after its last batch, in which context 2 has its receipt too.
use mathlib.Core.List.{lookup}
use bcos_dispatcher.Base.{ℕ, ◌≡◌, refl, true, false, List, [], ◌∷◌, arith}
use bcos_dispatcher.KeyLocks.{get_key_locks_not_holding_by_context, release_key_locks}
use bcos_dispatcher.Executors.{dispatch_executor, pop_least, add_executor, no_executors}
use bcos_dispatcher.Address.{new_evm_address}
use bcos_dispatcher.Batch.{new_batch}
use bcos_dispatcher.Executive.{traverse_executive}
use bcos_dispatcher.Block.{Block, start_batch}
use bcos_dispatcher.Block.Check.{respond, check_batch}
use bcos_dispatcher.Block.Create.{create_states}
use bcos_dispatcher.Block.Accounts.{Reach, next, sends, answers, checks}
use bcos_dispatcher.Block.Sample.{
  libraries, setting, txs, batch, states, created_states, no_cycles, first, finishes, answered_both,
  second, second-Reach, manager,
}
use bcos_dispatcher.Notify.{SubmitResult, notified, executive_results, async_notify}
use bcos_dispatcher.Notify.Results.{Matches, async_notify_complete}

third : Block ℕ
third = (start_batch libraries 5 (check_batch no_cycles (respond 2 (finishes 2) second)).1).0

third_checked : (check_batch no_cycles (respond 2 (finishes 2) second)).2 ≡ false
unfolding second check_batch answered_both respond start_batch states create_states manager
    add_executor new_batch dispatch_executor get_key_locks_not_holding_by_context release_key_locks
    traverse_executive new_evm_address lookup no_executors pop_least
third_checked = refl

third_empty : third.states ≡ []
unfolding third second check_batch answered_both respond start_batch states create_states manager
    add_executor new_batch dispatch_executor get_key_locks_not_holding_by_context release_key_locks
    traverse_executive new_evm_address lookup no_executors pop_least
third_empty = refl

third-Reach : Reach libraries 5 no_cycles first third
unfolding third
third-Reach = next (next (next second-Reach (answers 2 (finishes 2))) (checks third_checked)) sends

async_notify_complete_example :
    (results : List SubmitResult) × (async_notify true 5
        (8 ∷ [])
        true
        (30 ∷ 31 ∷ 32 ∷ [])
        (executive_results third.batch.results 0 txs)
      ≡ notified 5 results)
    × Matches true (30 ∷ 31 ∷ 32 ∷ []) (8 ∷ []) third.batch.results 0 txs results
async_notify_complete_example =
    async_notify_complete libraries 5 no_cycles setting [] txs states false batch created_states
      (λ c. refl) third-Reach third_empty (8 ∷ []) true (30 ∷ 31 ∷ 32 ∷ []) (λ s. omega arith)
