-- ===== src/Block/Tests.antt =====
-- The theorems on the batches of a block, at the sample.
use mathlib.Core.List.{lookup}
use bcos_dispatcher.Base.{ℕ, ◌≡◌, ◌⊎◌, refl, true, false, ◌&&◌, ◌==◌, not, none, some, [], ◌∷◌}
use bcos_dispatcher.KeyLocks.{
  GraphKeyLocks, no_locks, Vertex-discrete, get_key_locks_not_holding_by_context,
  batch_acquire_key_lock, acquire_key_lock, release_key_locks,
}
use bcos_dispatcher.KeyLocks.Search.{DepthFirstVisit}
use bcos_dispatcher.KeyLocks.Deadlock.{detect_dead_lock}
use bcos_dispatcher.Executors.{add_executor, no_executors, dispatch_executor, pop_least}
use bcos_dispatcher.Address.{new_evm_address}
use bcos_dispatcher.Batch.{new_batch}
use bcos_dispatcher.Executive.{key_lock, Node, traverse_executive}
use bcos_dispatcher.Block.{Batch, Block, start_batch}
use bcos_dispatcher.Block.Check.{answered, respond, check_batch}
use bcos_dispatcher.Block.Create.{create_states, node_of}
use bcos_dispatcher.Block.Accounts.{Accounted, Reach-Accounted}
use bcos_dispatcher.Block.Exclusive.{Exclusive, start_batch-Exclusive}
use bcos_dispatcher.Block.Refines.{Contract, check_batch-Contract, check_batch-lost}
use bcos_dispatcher.Block.Progress.{Advanced, start_batch-Advanced}
use bcos_dispatcher.Block.Reverts.{Locked, reverted, check_batch-reverted}
use bcos_dispatcher.Block.Sample.{
  libraries, blank, setting, txs, batch, states, created_states, no_cycles, first, finishes,
  answered_both, second, second-Reach, manager,
}

Reach-Accounted_example : Accounted 3 second
Reach-Accounted_example =
    Reach-Accounted libraries 5 no_cycles setting [] txs states false batch created_states
      (λ c. refl) second-Reach

start_batch-Exclusive_example : Exclusive (start_batch libraries 5 first).0.batch.sent
start_batch-Exclusive_example = start_batch-Exclusive libraries 5 first

check_batch-Contract_example : Contract answered_both (check_batch no_cycles answered_both)
check_batch-Contract_example = check_batch-Contract no_cycles answered_both

-- Context 9 holds a lock that the answer of context 0 has taken too.
locked : Block ℕ
locked = record first {
  batch = record batch { key_locks = (acquire_key_lock (97 ∷ 97 ∷ []) (1 ∷ []) 9 0 no_locks).1 };
}

conflicting : Block ℕ
conflicting =
    respond 0 (answered (record blank { from = 97 ∷ 97 ∷ []; key_locks = (1 ∷ []) ∷ [] }))
      (respond 1 (finishes 1) (start_batch libraries 5 locked).0)

conflicting_thrown : (check_batch no_cycles conflicting).2 ≡ true
unfolding conflicting locked check_batch respond start_batch states create_states manager
    add_executor new_batch dispatch_executor get_key_locks_not_holding_by_context release_key_locks
    batch_acquire_key_lock acquire_key_lock Vertex-discrete traverse_executive new_evm_address
    lookup no_executors pop_least
conflicting_thrown = refl

check_batch-lost_example :
    ((check_batch no_cycles conflicting).0 ≡ [])
    × (check_batch no_cycles (check_batch no_cycles conflicting).1
        ≡ ([], (check_batch no_cycles conflicting).1, false))
check_batch-lost_example = check_batch-lost no_cycles no_cycles conflicting conflicting_thrown

-- The last state has got nowhere yet.
abbrev last_state : Node
last_state = node_of 2 (record blank { to = 97 ∷ 97 ∷ [] }) false

start_batch-Advanced_example :
    let r = start_batch libraries 5 (record { states = last_state ∷ []; batch = batch }) in
    (r.1 ≡ true) ⊎ Advanced 2 r.0.batch
unfolding node_of
start_batch-Advanced_example =
    start_batch-Advanced libraries 5 last_state [] (record blank { to = 97 ∷ 97 ∷ [] }) batch refl
      refl (λ h. cc)

-- Each of two contexts holds a lock for which the other waits.
abbrev both_wait : GraphKeyLocks
both_wait =
    (acquire_key_lock (97 ∷ []) (1 ∷ []) 1 0
      (acquire_key_lock (97 ∷ []) (2 ∷ []) 0 0
        (acquire_key_lock (97 ∷ []) (2 ∷ []) 1 0
          (acquire_key_lock (97 ∷ []) (1 ∷ []) 0 0 no_locks).1).1).1).1

abbrev waiting : ℕ → Node
waiting c = record {
  contract = 97 ∷ [];
  context = c;
  mapped = record {
    context_id = c;
    call_stack = 0 ∷ [];
    message = some (record blank { kind = key_lock; context_id = c });
    error = false;
    current_seq = 1;
    enable_dag = false;
    skip = false;
  };
}

abbrev idle : Batch ℕ
idle = record batch { key_locks = both_wait; status = record new_batch { all_sended = true } }

-- Either context is on the cycle.
abbrev sees_cycle : DepthFirstVisit
sees_cycle = λ back stop es v flag. back flag

idle_over :
    (idle.status.all_sended && idle.status.received == idle.status.total)
      && not idle.status.callback_executed
    ≡ true
unfolding new_batch
idle_over = refl

idle_sent : (idle.status.error ≡ 0) × (idle.status.total ≡ 0)
unfolding new_batch
idle_sent = (refl, refl)

idle-Locked : Locked sees_cycle both_wait true (waiting 0)
unfolding detect_dead_lock acquire_key_lock Vertex-discrete
idle-Locked = (refl, refl)

check_batch-reverted_example :
    check_batch sees_cycle (record { states = waiting 0 ∷ waiting 1 ∷ []; batch = idle }) ≡ (
      none ∷ [],
      record {
        states =
            reverted (waiting 0) (record blank { kind = key_lock; context_id = 0 })
            ∷ waiting 1
            ∷ [];
        batch = record idle { status = record idle.status { callback_executed = true } };
      },
      false,
    )
check_batch-reverted_example =
    check_batch-reverted sees_cycle idle [] (waiting 0)
      (record blank { kind = key_lock; context_id = 0 }) (waiting 1 ∷ []) idle_over idle_sent.0
      idle_sent.1 tt idle-Locked refl
