-- ===== src/Requests/Tests.antt =====
-- A static call, and an executor that is registered twice.
use bcos_dispatcher.Base.{ℕ, ◌≡◌, refl, Bool, true, false, not, Option, none, some, List, [], ◌∷◌}
use bcos_dispatcher.Executors.{ExecutorManager, add_executor, no_executors}
use bcos_dispatcher.Executors.Invariant.{no_executors-Inv, add-Inv}
use bcos_dispatcher.Executive.{message, Node}
use bcos_dispatcher.Block.{Receipt}
use bcos_dispatcher.Block.Create.{Transaction, Setting, create_states}
use bcos_dispatcher.Execution.{Answers, Finished}
use bcos_dispatcher.Requests.{call, register_executor}
use bcos_dispatcher.Requests.Calls.{call_lem}
use bcos_dispatcher.Requests.Registers.{Registered, register_executor-Registered}

abbrev setting : Setting
setting = record {
  blank = record {
    kind = message;
    context_id = 0;
    seq = 0;
    from = [];
    to = [];
    create = false;
    create_salt = none;
    input = [];
    transaction_hash = 0;
    key_locks = [];
    key_lock_acquired = [];
    gas_available = 0;
    status = 0;
    new_evm_contract_address = [];
    static_call = false;
  };
  to_hex = λ t. t;
  auth_committee_address = [];
  is_auth_check = false;
  static_call = true;
  number = 0;
  start_context_id = 4;
}

abbrev tx : Transaction
tx = record {
  hash = 1;
  sender = 98 ∷ [];
  to = 97 ∷ 97 ∷ [];
  input = 5 ∷ [];
  liquid_scale_codec = false;
  liquid_create = false;
  dag = false;
}

abbrev receipt : Receipt
receipt = record {
  gas_available = 7;
  contract_address = [];
  status = 0;
  output = 9 ∷ [];
  block_number = 0;
}

abbrev finished : Finished Bool
finished = record {
  results = receipt ∷ [];
  gas_used = 3;
  transaction_root = [];
  receipt_root = λ receipts. [];
  xor = λ a b. not b;
  no_hash = false;
}

-- The contract calls another one, so the second batch is the last.
abbrev answers : Answers Bool
answers = record {
  next_block = [];
  dag = [];
  batches = (none, true) ∷ (none, false) ∷ [];
  hashes = [];
}

abbrev states_of : Option (List Node × Bool) → List Node
states_of none = []
states_of (some (ns, d)) = ns

made :
    create_states setting [] (tx ∷ [])
    ≡ some (states_of (create_states setting [] (tx ∷ [])), false)
unfolding create_states
made = refl

call_lem_example : call setting tx finished answers 4 ≡ ((none, some receipt) ∷ [], 5)
call_lem_example =
    call_lem setting tx finished answers 4 (states_of (create_states setting [] (tx ∷ []))) false
      made tt

abbrev managed : ExecutorManager ℕ
managed =
    (add_executor (1 ∷ []) (some 7)
      (no_executors (record { name = []; executor = none; contracts = [] }))).1

register_executor-Registered_example :
    Registered (1 ∷ []) (some 8) managed (register_executor (1 ∷ []) (some 8) managed)
register_executor-Registered_example = register_executor-Registered (1 ∷ []) (some 8) managed (
    add-Inv (1 ∷ []) (some 7) (no_executors (record { name = []; executor = none; contracts = [] }))
      (no_executors-Inv (record { name = []; executor = none; contracts = [] })))
