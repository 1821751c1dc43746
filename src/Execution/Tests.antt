-- ===== src/Execution/Tests.antt =====
-- A block of two transactions that may run in parallel.
use bcos_dispatcher.Base.{
  ◌≡◌, refl, Bool, true, false, not, Option, none, some, List, [], ◌∷◌, arith, length,
}
use bcos_dispatcher.Executive.{Node}
use bcos_dispatcher.Dag.{DagAnswer, requests}
use bcos_dispatcher.Block.{Receipt}
use bcos_dispatcher.Block.Create.{Transaction, create_states}
use bcos_dispatcher.Block.Sample.{setting, to_contract}
use bcos_dispatcher.Execution.{Execution, Answers, Finished, async_execute}
use bcos_dispatcher.Execution.Phases.{outcome}
use bcos_dispatcher.Execution.Outcome.{async_execute_lem, async_execute_short}

abbrev txs : List Transaction
txs = record (to_contract (97 ∷ 97 ∷ [])) { dag = true } ∷ to_contract (98 ∷ 98 ∷ []) ∷ []

abbrev receipt : Receipt
receipt = record {
  gas_available = 7;
  contract_address = [];
  status = 0;
  output = 9 ∷ [];
  block_number = 5;
}

abbrev finished : Finished Bool
finished = record {
  results = receipt ∷ receipt ∷ [];
  gas_used = 3;
  transaction_root = 1 ∷ [];
  receipt_root = λ receipts. 2 ∷ [];
  xor = λ a b. if_not a b;
  no_hash = false;
}
  where
    if_not : Bool → Bool → Bool
    if_not true b = not b
    if_not false b = b

abbrev waiting : Execution Bool
waiting = record { receipts = []; result = none; replies = [] }

abbrev answers : List DagAnswer → Answers Bool
answers dag = record {
  next_block = false ∷ [];
  dag = dag;
  batches = (none, true) ∷ (none, false) ∷ [];
  hashes = some true ∷ [];
}

abbrev one_each : List DagAnswer
one_each =
    record { error = false; sent = 1; returned = 1 }
    ∷ record { error = false; sent = 1; returned = 1 }
    ∷ []

abbrev one_lost : List DagAnswer
one_lost =
    record { error = false; sent = 1; returned = 1 }
    ∷ record { error = true; sent = 1; returned = 0 }
    ∷ []

abbrev states_of : Option (List Node × Bool) → List Node
states_of none = []
states_of (some (ns, d)) = ns

abbrev states : List Node
states = states_of (create_states setting [] txs)

made : create_states setting [] txs ≡ some (states, true)
unfolding create_states
made = refl

two : length (requests states) ≡ 2
unfolding create_states requests
two = refl

async_execute_lem_example :
    async_execute setting [] txs finished (answers one_each) waiting
    ≡ outcome none finished (some true ∷ []) waiting
async_execute_lem_example =
    async_execute_lem setting [] txs states true finished (answers one_each) waiting refl refl made
      (omega arith)
      (λ e. (
        omega (arith, two),
        omega (arith, two),
        omega (arith, two),
        (omega arith, (omega arith, tt)),
      ))
      tt (omega arith)

async_execute_short_example :
    async_execute setting [] txs finished (answers one_lost) waiting ≡ waiting
async_execute_short_example =
    async_execute_short setting [] txs states finished (answers one_lost) waiting refl refl made
      (omega arith) refl (omega (arith, two)) (omega (arith, two))
