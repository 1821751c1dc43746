-- ===== src/Block/Sample.antt =====
-- The first two batches of a block of three transactions, two of them for one contract, on one executor.
use bcos_dispatcher.Base.{ℕ, ◌≡◌, refl, Bool, false, Option, none, some, List, [], ◌∷◌, length}
use bcos_dispatcher.Base.Text.{Text}
use bcos_dispatcher.KeyLocks.{no_locks, get_key_locks_not_holding_by_context, release_key_locks}
use bcos_dispatcher.KeyLocks.Search.{DepthFirstVisit}
use bcos_dispatcher.Executors.{
  ExecutorManager, add_executor, no_executors, dispatch_executor, pop_least,
}
use mathlib.Core.List.{lookup}
use bcos_dispatcher.Address.{new_evm_address}
use bcos_dispatcher.Batch.{new_batch}
use bcos_dispatcher.Executive.{message, finished, ExecutionMessage, Node, traverse_executive}
use bcos_dispatcher.Block.{Libraries, Batch, Block, start_batch}
use bcos_dispatcher.Block.Check.{Response, answered, respond, check_batch}
use bcos_dispatcher.Block.Create.{Transaction, Setting, create_states}
use bcos_dispatcher.Block.Accounts.{Reach, here, next, sends, answers, checks}
use bcos_dispatcher.Block.Exclusive.{tos}

abbrev pub libraries : Libraries
libraries = record {
  hash = λ t.
      1 ∷ 2 ∷ 3 ∷ 4 ∷ 5 ∷ 6 ∷ 7 ∷ 8 ∷ 9 ∷ 10 ∷ 11 ∷ 12 ∷ 13 ∷ 14 ∷ 15 ∷ 16 ∷ 17 ∷ 18 ∷ 19 ∷ 20 ∷ [];
  hash_hex = λ t. t;
  decimal = λ n. n ∷ [];
  to_big_endian = λ n. n ∷ [];
}

abbrev pub blank : ExecutionMessage
blank = record {
  kind = message;
  context_id = 0;
  seq = 0;
  from = [];
  to = [];
  create = false;
  create_salt = none;
  input = [];
  transaction_hash = 0;
  key_locks = [];
  key_lock_acquired = [];
  gas_available = 0;
  status = 0;
  new_evm_contract_address = [];
  static_call = false;
}

abbrev pub setting : Setting
setting = record {
  blank = blank;
  to_hex = λ t. t;
  auth_committee_address = [];
  is_auth_check = false;
  static_call = false;
  number = 5;
  start_context_id = 0;
}

abbrev pub to_contract : Text → Transaction
to_contract to = record {
  hash = 1;
  sender = 98 ∷ [];
  to = to;
  input = [];
  liquid_scale_codec = false;
  liquid_create = false;
  dag = false;
}

abbrev pub txs : List Transaction
txs = to_contract (97 ∷ 97 ∷ []) ∷ to_contract [] ∷ to_contract (97 ∷ 97 ∷ []) ∷ []

unfoldable pub manager : ExecutorManager ℕ
manager =
    (add_executor (101 ∷ []) (some 7)
      (no_executors (record { name = []; executor = none; contracts = [] }))).1

abbrev pub batch : Batch ℕ
batch = record {
  called_contract = [];
  status = new_batch;
  key_locks = no_locks;
  executors = manager;
  results = λ c. none;
  gas_used = 0;
  sent = [];
}

abbrev pub states_of : Option (List Node × Bool) → List Node
states_of none = []
states_of (some (ns, d)) = ns

unfoldable pub states : List Node
states = states_of (create_states setting [] txs)

pub created_states : create_states setting [] txs ≡ some (states, false)
unfolding states create_states
created_states = refl

abbrev pub no_cycles : DepthFirstVisit
no_cycles = λ back stop es v flag. flag

abbrev pub first : Block ℕ
first = record { states = states; batch = batch }

-- Contexts 1 and 0 are sent; context 2 waits, since context 0 has its contract.
first_sent : length (tos (start_batch libraries 5 first).0.batch.sent) ≡ 2
unfolding start_batch states create_states manager add_executor new_batch dispatch_executor
    get_key_locks_not_holding_by_context traverse_executive new_evm_address lookup no_executors
    pop_least
first_sent = refl

abbrev pub finishes : ℕ → Response
finishes c = answered (record blank { kind = finished; context_id = c; gas_available = 100 })

-- The executors answer that both contexts have finished; the batch is checked, and the next one
-- makes their receipts and sends context 2.
unfoldable pub answered_both : Block ℕ
answered_both = respond 0 (finishes 0) (respond 1 (finishes 1) (start_batch libraries 5 first).0)

unfoldable pub second : Block ℕ
second = (start_batch libraries 5 (check_batch no_cycles answered_both).1).0

answered_both_checked :
    ((check_batch no_cycles answered_both).0 ≡ none ∷ [])
    × ((check_batch no_cycles answered_both).2 ≡ false)
unfolding check_batch answered_both respond start_batch states create_states manager add_executor
    new_batch dispatch_executor get_key_locks_not_holding_by_context release_key_locks
    traverse_executive new_evm_address lookup no_executors pop_least
answered_both_checked = (refl, refl)

second_sent : tos second.batch.sent ≡ (97 ∷ 97 ∷ []) ∷ []
unfolding second check_batch answered_both respond start_batch states create_states manager
    add_executor new_batch dispatch_executor get_key_locks_not_holding_by_context release_key_locks
    traverse_executive new_evm_address lookup no_executors pop_least
second_sent = refl

pub second-Reach : Reach libraries 5 no_cycles first second
unfolding second answered_both
second-Reach =
    next
      (next (next (next (next here sends) (answers 1 (finishes 1))) (answers 0 (finishes 0)))
        (checks answered_both_checked.1))
      sends
