-- ===== src/Block/Create.antt =====
-- The head of `asyncExecute` in bcos-scheduler/BlockExecutive.cpp: a message and a state for each
-- transaction of a block, of which the block holds the metadata or the transactions themselves.
use bcos_dispatcher.Base.{
  ℕ, suc, ◌+◌, Bool, true, false, ◌&&◌, ◌||◌, not, Option, none, some, List, [], ◌∷◌, ◌==◌,
  if◌then◌else◌, decide,
}
use bcos_dispatcher.Base.Text.{Text, Text-discrete}
use bcos_dispatcher.Common.{transaction_gas}
use bcos_dispatcher.Address.{preprocess_address}
use bcos_dispatcher.Executive.{message, txhash, ExecutionMessage, Node, insert}
use bcos_dispatcher.Block.{is_empty}

-- What is read of a transaction or of its metadata. The flags are bits of `attribute`.
pub record Transaction : Type 0 where
  pub hash : ℕ
  pub sender : Text
  pub to : Text
  pub input : Text
  pub liquid_scale_codec : Bool
  pub liquid_create : Bool
  pub dag : Bool

-- What the block, the scheduler and other libraries give: a message as the factory makes it, the text of
-- a sender's bytes, and the address of the committee.
pub record Setting : Type 0 where
  pub blank : ExecutionMessage
  pub to_hex : Text → Text
  pub auth_committee_address : Text
  pub is_auth_check : Bool
  pub static_call : Bool
  pub number : ℕ
  pub start_context_id : ℕ

-- `setCreate` and `setTo`; `none` is the read past the end in `preprocessAddress`.
abbrev pub Target : Type 0
Target = Option (Bool × Text)

unfoldable pub preprocessed : Bool → Option Text → Target
preprocessed create none = none
preprocessed create (some to) = some (create, to)

unfoldable pub meta_target : Transaction → Target
unfolding preprocessed preprocess_address
meta_target tx =
    if tx.liquid_scale_codec
    then some (tx.liquid_create, tx.to)
    else if is_empty tx.to
    then some (true, [])
    else preprocessed false (preprocess_address tx.to)

-- The first contract of the committee is created, though it has an address.
unfoldable pub creates_committee : Setting → Transaction → Bool
unfolding Text-discrete
creates_committee e tx =
    (e.is_auth_check && not e.static_call)
    && (e.number == 0 && decide (Text-discrete tx.to e.auth_committee_address))

unfoldable pub target : Setting → Transaction → Target
unfolding preprocessed preprocess_address creates_committee
target e tx =
    if tx.liquid_scale_codec
    then some (tx.liquid_create, tx.to)
    else if is_empty tx.to
    then some (true, [])
    else preprocessed (creates_committee e tx) (preprocess_address tx.to)

unfoldable pub meta_message : Setting → ℕ → Transaction → Bool × Text → ExecutionMessage
meta_message e i tx (create, to) = record e.blank {
  context_id = i + e.start_context_id;
  kind = txhash;
  transaction_hash = tx.hash;
  create = create;
  to = to;
  gas_available = transaction_gas;
  static_call = false;
}

unfoldable pub message_of : Setting → ℕ → Transaction → Bool × Text → ExecutionMessage
message_of e i tx (create, to) = record e.blank {
  kind = message;
  context_id = i + e.start_context_id;
  from = e.to_hex tx.sender;
  create = create;
  to = to;
  gas_available = transaction_gas;
  input = tx.input;
  static_call = e.static_call;
}

-- `ExecutiveState(i, std::move(message), withDAG)` under its key.
unfoldable pub node_of : ℕ → ExecutionMessage → Bool → Node
node_of i m with_dag = record {
  contract = m.to;
  context = i;
  mapped = record {
    context_id = i;
    call_stack = [];
    message = some m;
    error = false;
    current_seq = 0;
    enable_dag = with_dag;
    skip = false;
  };
}

-- The body of either loop: once set, `withDAG` stays.
unfoldable pub add_state : Option ExecutionMessage → ℕ → Bool → List Node → Option (List Node)
unfolding node_of insert
add_state none i with_dag ns = none
add_state (some m) i with_dag ns = some (insert (node_of i m with_dag) ns)

unfoldable pub map_target : Target → (Bool × Text → ExecutionMessage) → Option ExecutionMessage
map_target none f = none
map_target (some t) f = some (f t)

unfoldable pub continue_with :
    Option (List Node) → (List Node → Option (List Node × Bool)) → Option (List Node × Bool)
continue_with none rest = none
continue_with (some ns) rest = rest ns

-- A loop over the transactions from the index on: the states, and `withDAG`.
unfoldable pub add_states :
    (ℕ → Transaction → Option ExecutionMessage)
    → List Transaction
    → ℕ
    → Bool
    → List Node
    → Option (List Node × Bool)
unfolding add_state continue_with
add_states make [] i with_dag ns = some (ns, with_dag)
add_states make (tx ∷ txs) i with_dag ns =
    continue_with (add_state (make i tx) i (with_dag || tx.dag) ns)
      (add_states make txs (suc i) (with_dag || tx.dag))

-- The block holds metadata or transactions; the first are preferred.
unfoldable pub create_states :
    Setting → List Transaction → List Transaction → Option (List Node × Bool)
unfolding add_states meta_message message_of meta_target target map_target
create_states e [] txs =
    add_states (λ i tx. map_target (target e tx) (message_of e i tx)) txs 0 false []
create_states e (meta ∷ metas) txs =
    add_states (λ i tx. map_target (meta_target tx) (meta_message e i tx)) (meta ∷ metas) 0 false []
