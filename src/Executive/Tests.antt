-- ===== src/Executive/Tests.antt =====
-- A traversal of three transactions on two contracts.
use bcos_dispatcher.Base.{ℕ, ◌+◌, ◌≡◌, ◌≢◌, refl, false, Option, none, some, List, [], ◌∷◌, arith}
use bcos_dispatcher.Executive.{
  ExecutionMessage, message, ExecutiveState, TraverseHint, pass, delete, update, Node,
  traverse_executive,
}
use bcos_dispatcher.Executive.Counts.{Inv, Careful}

abbrev going : ExecutionMessage
going = record {
  kind = message;
  context_id = 0;
  seq = 0;
  from = [];
  to = 7 ∷ [];
  create = false;
  create_salt = none;
  input = [];
  transaction_hash = 0;
  key_locks = [];
  key_lock_acquired = [];
  gas_available = 0;
  status = 0;
  new_evm_contract_address = [];
  static_call = false;
}

abbrev tx : ℕ → List ℕ → Node
tx c contract = record {
  contract = contract;
  context = c;
  mapped = record {
    context_id = c;
    call_stack = 0 ∷ [];
    message = some going;
    error = false;
    current_seq = 1;
    enable_dag = false;
    skip = false;
  };
}

abbrev three : List Node
three = tx 0 (5 ∷ []) ∷ tx 2 (5 ∷ []) ∷ tx 1 (6 ∷ []) ∷ []

-- Each state whose message has not been sent gets the key of that message; the visits are counted.
abbrev hint_of : Option ExecutionMessage → Option TraverseHint
hint_of none = some pass
hint_of (some m) = some update

abbrev reorder : ExecutiveState → ℕ → Option TraverseHint × ExecutiveState × ℕ
reorder x visits = (hint_of x.message, x, visits + 1)

reordered :
    traverse_executive reorder three 0
    ≡ (tx 0 (7 ∷ []) ∷ tx 1 (7 ∷ []) ∷ tx 2 (7 ∷ []) ∷ [], 3, false)
unfolding traverse_executive
reordered = refl

hint_of-update : (o : Option ExecutionMessage) → hint_of o ≡ some update → o ≢ none
hint_of-update none h = cc
hint_of-update (some m) h = λ e. cc

hint_of-delete : (o : Option ExecutionMessage) → hint_of o ≢ some delete
hint_of-delete none e = cc
hint_of-delete (some m) e = cc

reorder-Careful : Careful reorder
reorder-Careful = record {
  same_context = λ x s. refl;
  has_message = λ x s h. hint_of-update x.message h;
}

three-Inv : Inv three
three-Inv = record { own_keys = (refl, (refl, (refl, tt))); distinct = λ c. ground arith }

not_thrown : (traverse_executive reorder three 0).2 ≡ false
unfolding traverse_executive
not_thrown = refl
