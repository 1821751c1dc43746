-- ===== src/Dag/Tests.antt =====
-- Three states, two of them for one contract, that may run in parallel.
use bcos_dispatcher.Base.{
  ℕ, ◌≡◌, inl, inr, refl, Bool, true, false, none, some, List, [], ◌∷◌, arith, length, map,
}
use bcos_dispatcher.Base.Text.{Text}
use bcos_dispatcher.Common.{dag_error}
use bcos_dispatcher.Executive.{finished, ExecutionMessage, Node}
use bcos_dispatcher.Executive.Order.{Sorted}
use bcos_dispatcher.Dag.{requests, Group, group, take_responses, DagAnswer, dag_execute}
use bcos_dispatcher.Dag.Groups.{all_messages, requested, parallel, Rising, group-requests}
use bcos_dispatcher.Dag.Answers.{dag_execute_complete, dag_execute_short}

abbrev state : Text → ℕ → Bool → Node
state contract context enable_dag = record {
  contract = contract;
  context = context;
  mapped = record {
    context_id = context;
    call_stack = [];
    message = none;
    error = false;
    current_seq = 0;
    enable_dag = enable_dag;
    skip = false;
  };
}

abbrev states : List Node
states = state (1 ∷ []) 0 true ∷ state (1 ∷ []) 2 true ∷ state (2 ∷ []) 1 true ∷ []

states-Sorted : Sorted states
states-Sorted = (
  (inr (refl, omega arith), (inl (inl (omega arith)), tt)),
  ((inl (inl (omega arith)), tt), (tt, tt)),
)

group-requests_example :
    (all_messages (group (requests states)) ≡ requested (parallel states))
    × Rising (group (requests states))
group-requests_example = group-requests states states-Sorted

-- Each executor answers all its messages, one of them with an error.
abbrev answers : List DagAnswer
answers =
    record { error = false; sent = 2; returned = 2 }
    ∷ record { error = true; sent = 1; returned = 1 }
    ∷ []

three : length (requests states) ≡ 3
unfolding requests
three = refl

complete : dag_execute states answers ≡ some dag_error ∷ []
complete =
    dag_execute_complete states answers (omega (arith, three)) (omega (arith, three))
      (omega (arith, three)) (omega arith, (omega arith, tt))

-- The second executor answers its error without messages.
unanswered :
    dag_execute states (
      record { error = false; sent = 2; returned = 2 }
      ∷ record { error = true; sent = 1; returned = 0 }
      ∷ [])
    ≡ []
unanswered = dag_execute_short states _ (omega (arith, three)) (omega (arith, three))

abbrev response : ExecutionMessage
response = record {
  kind = finished;
  context_id = 2;
  seq = 0;
  from = [];
  to = [];
  create = false;
  create_salt = none;
  input = [];
  transaction_hash = 0;
  key_locks = [];
  key_lock_acquired = [];
  gas_available = 0;
  status = 0;
  new_evm_contract_address = [];
  static_call = false;
}

abbrev both : Group
both = record { contract = 1 ∷ []; messages = (0, none) ∷ (2, none) ∷ [] }

-- Both responses are stored where both are there, and none where one is missing.
stored :
    map
      (λ (n : Node). n.mapped.message)
      (take_responses both false (record response { context_id = 0 } ∷ response ∷ []) states)
    ≡ some (record response { context_id = 0 }) ∷ some response ∷ none ∷ []
unfolding take_responses
stored = refl

mismatched : take_responses both false (response ∷ []) states ≡ states
unfolding take_responses
mismatched = refl
