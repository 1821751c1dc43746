-- ===== src/Dag.antt =====
-- `DAGExecute` of bcos-scheduler/BlockExecutive.cpp: the messages that may run in parallel go to the
-- executors by contract, and the answers are counted down by their messages, in steps of their threads.
pub mod Groups
pub mod Answers
pub mod Kept
mod Tests
use bcos_dispatcher.Base.{
  ℕ, suc, ◌+◌, ◌-◌, ◌%◌, ◌^◌, ite, Bool, true, false, ◌||◌, not, Option, none, some, List, [], ◌∷◌,
  ◌++◌, ltb, ◌==◌, if◌then◌else◌, length,
}
use bcos_dispatcher.Base.Text.{Text, Text-discrete}
use bcos_dispatcher.Common.{SchedulerError, dag_error}
use bcos_dispatcher.Executive.{ExecutionMessage, ExecutiveState, Node}

-- The nodes of `requests`, which the multimap holds in the order of the states.
unfoldable pub requests : List Node → List Node
requests [] = []
requests (n ∷ ns) = if n.mapped.enable_dag then n ∷ requests ns else requests ns

-- What becomes of the state of a request.
unfoldable pub call_dag : ExecutiveState → ExecutiveState
call_dag x = record x {
  call_stack = x.current_seq ∷ x.call_stack;
  current_seq = suc x.current_seq;
  message = none;
}

unfoldable pub mark : List Node → List Node
unfolding call_dag
mark [] = []
mark (n ∷ ns) =
    (if n.mapped.enable_dag then record n { mapped = call_dag n.mapped } else n) ∷ mark ns

-- The messages for one contract, with their contexts.
pub record Group : Type 0 where
  pub contract : Text
  pub messages : List (ℕ × Option ExecutionMessage)

-- A request joins the group of its contract, which stands first.
unfoldable pub join : Node → List Group → List Group
join n [] = record { contract = n.contract; messages = (n.context, n.mapped.message) ∷ [] } ∷ []
join n (g ∷ gs) =
    ite (Text-discrete n.contract g.contract)
      (record g { messages = (n.context, n.mapped.message) ∷ g.messages } ∷ gs)
      (record { contract = n.contract; messages = (n.context, n.mapped.message) ∷ [] } ∷ g ∷ gs)

-- The ranges that `upper_bound` and `equal_range` step through.
unfoldable pub group : List Node → List Group
unfolding join Text-discrete
group [] = []
group (n ∷ ns) = join n (group ns)

-- A response becomes the message of the state that its iterator points to.
unfoldable pub store_at : ℕ → ExecutionMessage → List Node → List Node
store_at c m [] = []
store_at c m (n ∷ ns) =
    if n.context == c
    then record n { mapped = record n.mapped { message = some m } } ∷ ns
    else n ∷ store_at c m ns

unfoldable pub store_responses :
    List (ℕ × Option ExecutionMessage) → List ExecutionMessage → List Node → List Node
unfolding store_at
store_responses [] responses ns = ns
store_responses (_ ∷ _) [] ns = ns
store_responses ((c, _) ∷ sent) (m ∷ responses) ns =
    store_responses sent responses (store_at c m ns)

-- What an answer to a group does to the states: nothing if it is an error or of another length.
unfoldable pub take_responses : Group → Bool → List ExecutionMessage → List Node → List Node
unfolding store_responses
take_responses g error responses ns =
    if error || not (length g.messages == length responses)
    then ns
    else store_responses g.messages responses ns

-- An answer of an executor: an error or not, how many messages it was sent, and how many it returns.
pub record DagAnswer : Type 0 where
  pub error : Bool
  pub sent : ℕ
  pub returned : ℕ

-- The steps of the threads that bring the answers: `totalCount` is lowered, `failed` raised, and
-- `totalCount` tested.
pub data DagStep : Type 0 where
  lowered : ℕ → DagStep
  spoiled tested : DagStep

-- `totalCount` goes down on 64 bits.
unfoldable pub lower : ℕ → ℕ → ℕ
lower total returned = (total + 2 ^ 64 - returned % 2 ^ 64) % 2 ^ 64

-- The test, which calls back at zero.
unfoldable pub dag_report : ℕ → ℕ → List (Option SchedulerError)
dag_report total failed =
    if total == 0 then (if ltb 0 failed then some dag_error else none) ∷ [] else []

-- The steps in their order, from `totalCount` and `failed`.
unfoldable pub dag_run : List DagStep → ℕ → ℕ → List (Option SchedulerError)
unfolding lower dag_report
dag_run [] total failed = []
dag_run (lowered returned ∷ steps) total failed = dag_run steps (lower total returned) failed
dag_run (spoiled ∷ steps) total failed = dag_run steps total (suc failed)
dag_run (tested ∷ steps) total failed = dag_report total failed ++ dag_run steps total failed

-- The callback, with the steps of its thread in their order.
unfoldable pub dag_answer : DagAnswer → List DagStep
dag_answer a =
    lowered a.returned
    ∷ (if a.error || not (a.sent == a.returned) then spoiled ∷ tested ∷ [] else tested ∷ [])

-- The callbacks one after the other.
unfoldable pub dag_answers : List DagAnswer → List DagStep
unfolding dag_answer
dag_answers [] = []
dag_answers (a ∷ rest) = dag_answer a ++ dag_answers rest

-- Without requests the callback is called at once, and no executor is asked.
unfoldable pub dag_execute : List Node → List DagAnswer → List (Option SchedulerError)
unfolding dag_run dag_answers requests
dag_execute states answers =
    let total = length (requests states) in
    if total == 0 then none ∷ [] else dag_run (dag_answers answers) total 0
