-- ===== src/Ledger.antt =====
-- `asyncGetLedgerConfig` of bcos-scheduler/SchedulerImpl.cpp, which asks the ledger six questions and
-- collects the answers. The lists of nodes are of the ledger's own type, and `lexical_cast` to a number
-- is a parameter.
pub mod Late
pub mod Collected
pub mod Failed
mod Tests
use bcos_dispatcher.Base.{
  ℕ, zero, suc, ◌+◌, Bool, true, false, Option, none, some, List, [], ◌∷◌, ◌++◌, ltb, ◌==◌,
  if◌then◌else◌,
}
use bcos_dispatcher.Base.Text.{Text}
use bcos_dispatcher.Common.{SchedulerError, unknown_error}

pub record LedgerConfig (N : Type 0) : Type 0 where
  pub consensus_node_list : N
  pub observer_node_list : N
  pub block_tx_count_limit : ℕ
  pub leader_switch_period : ℕ
  pub block_number : ℕ
  pub hash : Text

-- The alternatives of the variant that the collector is given.
pub data LedgerAnswer (N : Type 0) : Type 0 where
  node_list : Bool → N → LedgerAnswer N
  config : ℕ → Text → LedgerAnswer N
  number : ℕ → LedgerAnswer N
  block_hash : Text → LedgerAnswer N

-- The counters of `summary` with the configuration so far.
pub record Summary (N : Type 0) : Type 0 where
  pub success : ℕ
  pub failed : ℕ
  pub ledger_config : LedgerConfig N

-- What the callback is given: an error, or the configuration.
pub data LedgerReply (N : Type 0) : Type 0 where
  with_error : SchedulerError → LedgerReply N
  with_config : LedgerConfig N → LedgerReply N

module _ {N : Type 0} where
  unfoldable pub set_limit : Option ℕ → LedgerConfig N → Option (LedgerConfig N)
  set_limit none c = none
  set_limit (some v) c = some (record c { block_tx_count_limit = v })

  unfoldable pub set_period : Option ℕ → LedgerConfig N → Option (LedgerConfig N)
  set_period none c = none
  set_period (some v) c = some (record c { leader_switch_period = v })

  -- The visitor of the variant; `none` is an exception, of `lexical_cast` or of an unknown type.
  unfoldable pub store :
      (Text → Option ℕ) → LedgerAnswer N → LedgerConfig N → Option (LedgerConfig N)
  unfolding set_limit set_period
  store parse (node_list true list) c = some (record c { consensus_node_list = list })
  store parse (node_list false list) c = some (record c { observer_node_list = list })
  store parse (config zero value) c = set_limit (parse value) c
  store parse (config (suc zero) value) c = set_period (parse value) c
  store parse (config (suc (suc type)) value) c = none
  store parse (number n) c = some (record c { block_number = n })
  store parse (block_hash h) c = some (record c { hash = h })

  -- The tail of the collector, behind the count: the test for the end.
  unfoldable pub report : Summary N → List (LedgerReply N)
  report s =
      if s.success + s.failed == 6
      then (if ltb 0 s.failed then with_error unknown_error else with_config s.ledger_config) ∷ []
      else []

  unfoldable pub count_stored : Option (LedgerConfig N) → Summary N → Summary N
  count_stored none s = s
  count_stored (some c) s = record s { success = suc s.success; ledger_config = c }

  -- The collector up to the test: the flag says that the answer is an error. An exception leaves it with
  -- nothing counted.
  unfoldable pub collect : (Text → Option ℕ) → Bool → LedgerAnswer N → Summary N → Summary N
  unfolding count_stored store
  collect parse true a s = record s { failed = suc s.failed }
  collect parse false a s = count_stored (store parse a s.ledger_config) s

-- The steps of the threads that bring the answers: an answer is collected, and a test follows it, unless
-- an exception has left the collector.
pub data Step (N : Type 0) : Type 0 where
  answered : Bool → LedgerAnswer N → Step N
  tested : Step N

module _ {N : Type 0} where
  unfoldable pub run : (Text → Option ℕ) → List (Step N) → Summary N → List (LedgerReply N)
  unfolding collect report
  run parse [] s = []
  run parse (answered error a ∷ steps) s = run parse steps (collect parse error a s)
  run parse (tested ∷ steps) s = report s ++ run parse steps s

  -- The steps in the order in which they come.
  unfoldable pub async_get_ledger_config :
      (Text → Option ℕ) → LedgerConfig N → List (Step N) → List (LedgerReply N)
  unfolding run
  async_get_ledger_config parse fresh steps =
      run parse steps (record { success = 0; failed = 0; ledger_config = fresh })
