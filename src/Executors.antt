-- ===== src/Executors.antt =====
-- bcos-scheduler/ExecutorManager.h and ExecutorManager.cpp: the executors by name, the contracts that
-- each has been given, and the queue that picks the executor with the fewest. `ExecutorInfo` objects
-- are shared by the two maps and the queue, so they stand on a heap and the containers hold addresses.
pub mod Maps
mod Tests
pub mod Remove
pub mod Race
pub mod Dispatch
pub mod Invariant
use bcos_dispatcher.Base.{
  ℕ, ◌+◌, ◌≡◌, ite, Bool, true, false, Option, none, some, List, [], ◌∷◌, map, filter, ℕ_discrete,
  length, leb, if◌then◌else◌, dec_not, dec_memᴰ,
}
use mathlib.Core.List.{lookup}
use bcos_dispatcher.Base.Text.{Text, Text-discrete}

-- `executor` is a pointer that may be null.
pub record ExecutorInfo (E : Type 0) : Type 0 where
  pub name : Text
  pub executor : Option E
  pub contracts : List Text

pub record ExecutorManager (E : Type 0) : Type 0 where
  pub heap : ℕ → ExecutorInfo E
  -- the next address that `make_shared` takes
  pub fresh : ℕ
  pub contract_to_info : List (Text × ℕ)
  pub name_to_info : List (Text × ℕ)
  pub queue : List ℕ

-- What a call ends with: its value, an exception, or the undefined behaviour of `top` on an empty
-- queue.
pub data Outcome {ℓ} (A : Type ℓ) : Type ℓ where
  returned : A → Outcome A
  executor_exists insert_fail contract_missing executor_missing : Outcome A
  undefined : Outcome A

-- `emplace` on a map leaves a value that is there.
unfoldable pub emplace : Text → ℕ → List (Text × ℕ) → List (Text × ℕ)
unfolding Text-discrete
emplace key p entries = elim (lookup Text-discrete key entries) [
  | none ↦ (key, p) ∷ entries
  | some _ ↦ entries
]

pub erase : Text → List (Text × ℕ) → List (Text × ℕ)
unfolding Text-discrete
erase key = filter λ e. dec_not (Text-discrete e.0 key)

-- The loop of `removeExecutor` over the contracts of the executor. A contract that has no entry
-- ends it by an exception, and the entries before it are gone.
pub erase_contracts : List Text → List (Text × ℕ) → Outcome (Unit {0}) × List (Text × ℕ)
unfolding Text-discrete erase
erase_contracts [] entries = (returned tt, entries)
erase_contracts (c ∷ cs) entries =
    let rest = erase_contracts cs (erase c entries) in
    elim (lookup Text-discrete c entries) [ none ↦ (contract_missing, entries) | some _ ↦ rest ]

module _ {E : Type 0} where
  abbrev pub load : (ℕ → ExecutorInfo E) → ℕ → ℕ
  load heap p = length (heap p).contracts

  -- `top` and `pop`: an address with the fewest contracts leaves the queue.
  unfoldable pub pop_least : (ℕ → ExecutorInfo E) → List ℕ → Option (ℕ × List ℕ)
  pop_least heap [] = none
  pop_least heap (p ∷ ps) = elim (pop_least heap ps) [
    | none ↦ some (p, ps)
    | some (q, rest) ↦ if leb (load heap p) (load heap q) then some (p, ps) else some (q, p ∷ rest)
  ]

  -- A write through a pointer.
  abbrev pub update : (ℕ → ExecutorInfo E) → ℕ → ExecutorInfo E → ℕ → ExecutorInfo E
  update heap p info q = ite (ℕ_discrete p q) info (heap q)

  pub size : ExecutorManager E → ℕ
  size m = length m.name_to_info

  -- What iteration from `begin` to `end` visits.
  pub executors : ExecutorManager E → List (Option E)
  executors m = map (λ (_, p). (m.heap p).executor) m.name_to_info

  unfoldable pub add_executor :
      Text → Option E → ExecutorManager E → Outcome (Unit {0}) × ExecutorManager E
  unfolding Text-discrete emplace
  add_executor name executor m =
      let info : ExecutorInfo E = record { name = name; executor = executor; contracts = [] } in
      let made = record m { heap = update m.heap m.fresh info; fresh = m.fresh + 1 } in
      elim (lookup Text-discrete name m.name_to_info) [
        | some _ ↦ (executor_exists, made)
        | none ↦ (
          returned tt,
          record made {
            name_to_info = emplace name m.fresh m.name_to_info;
            queue = m.fresh ∷ m.queue;
          },
        )
      ]

  -- The part of `dispatchExecutor` that runs under the lock, with the popped address.
  unfoldable pub assign :
      Text → ℕ → List ℕ → ExecutorManager E → Outcome (Option E) × ExecutorManager E
  unfolding Text-discrete emplace
  assign contract p rest m =
      let info = m.heap p in
      ite (dec_memᴰ Text-discrete contract info.contracts) (insert_fail, record m { queue = rest })
        (
          returned info.executor,
          record m {
            heap = update m.heap p (record info { contracts = contract ∷ info.contracts });
            queue = p ∷ rest;
            contract_to_info = emplace contract p m.contract_to_info;
          },
        )

  unfoldable pub dispatch_locked : Text → ExecutorManager E → Outcome (Option E) × ExecutorManager E
  unfolding assign
  dispatch_locked contract m = elim (pop_least m.heap m.queue) [
    | none ↦ (undefined, m)
    | some (p, rest) ↦ assign contract p rest m
  ]

  unfoldable pub dispatch_executor :
      Text → ExecutorManager E → Outcome (Option E) × ExecutorManager E
  unfolding dispatch_locked Text-discrete
  dispatch_executor contract m = elim m.name_to_info [
    | [] ↦ (returned none, m)
    | _ ∷ _ ↦ elim (lookup Text-discrete contract m.contract_to_info) [
      | some p ↦ (returned (m.heap p).executor, m)
      | none ↦ dispatch_locked contract m
    ]
  ]

  -- After the loop: the entry of the name goes, and the queue is built anew from the others.
  pub remove_found :
      Text
      → Outcome (Unit {0}) × List (Text × ℕ)
      → ExecutorManager E
      → Outcome (Unit {0}) × ExecutorManager E
  unfolding erase
  remove_found name (returned _, entries) m =
      let names = erase name m.name_to_info in
      (
        returned tt,
        record m { contract_to_info = entries; name_to_info = names; queue = map (λ e. e.1) names },
      )
  remove_found name (outcome, entries) m = (outcome, record m { contract_to_info = entries })

  pub remove_executor : Text → ExecutorManager E → Outcome (Unit {0}) × ExecutorManager E
  unfolding Text-discrete erase_contracts remove_found
  remove_executor name m = elim (lookup Text-discrete name m.name_to_info) [
    | none ↦ (executor_missing, m)
    | some p ↦ remove_found name (erase_contracts (m.heap p).contracts m.contract_to_info) m
  ]

  unfoldable pub no_executors : ExecutorInfo E → ExecutorManager E
  no_executors blank = record {
    heap = λ _. blank;
    fresh = 0;
    contract_to_info = [];
    name_to_info = [];
    queue = [];
  }
