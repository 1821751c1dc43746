-- ===== src/Executors/Tests.antt =====
-- Runs of the executor manager, after tests/testExecutorManager.cpp, and the theorems at a manager
-- with three executors.
use mathlib.Core.List.{lookup}
use bcos_dispatcher.Base.{
  ℕ, ◌≡◌, ◌≢◌, ◌↔◌, refl, Option, some, none, List, [], ◌∷◌, Memᴰ, ℕ_discrete, arith,
}
use bcos_dispatcher.Base.Text.{Text, Text-discrete}
use bcos_dispatcher.Executors.{
  ExecutorInfo, ExecutorManager, returned, executor_exists, load, add_executor, dispatch_executor,
  dispatch_locked, remove_executor, no_executors, pop_least, emplace,
}
use bcos_dispatcher.Executors.Invariant.{Inv, given, no_executors-Inv, add-Inv, dispatch-Inv}
use bcos_dispatcher.Executors.Dispatch.{
  dispatch_all, dispatch_all-Inv, dispatch_sticky, Balanced, dispatch_all-Balanced,
}
use bcos_dispatcher.Executors.Race.{Raced, dispatch_locked-Raced}
use bcos_dispatcher.Executors.Remove.{remove_executor_lem}

abbrev blank : ExecutorInfo ℕ
blank = record { name = []; executor = none; contracts = [] }

abbrev name1 : Text
name1 = b'1' ∷ []

abbrev name2 : Text
name2 = b'2' ∷ []

abbrev first_added : ExecutorManager ℕ
first_added = (add_executor name1 (some 11) (no_executors blank)).1

abbrev sample : ExecutorManager ℕ
sample = (add_executor name2 (some 22) first_added).1

sample-Inv : Inv sample
sample-Inv =
    add-Inv name2 (some 22) first_added
      (add-Inv name1 (some 11) (no_executors blank) (no_executors-Inv blank))

added_twice : (add_executor name1 (some 33) sample).0 ≡ executor_exists
unfolding add_executor no_executors lookup Text-discrete emplace
added_twice = refl

contracts : List Text
contracts = (b'a' ∷ []) ∷ (b'b' ∷ []) ∷ (b'c' ∷ []) ∷ (b'd' ∷ []) ∷ []

dispatched : ExecutorManager ℕ
dispatched = dispatch_all contracts sample

dispatched-Inv : Inv dispatched
unfolding dispatched
dispatched-Inv = dispatch_all-Inv contracts sample sample-Inv

two_each : (load dispatched.heap 0 ≡ 2) × (load dispatched.heap 1 ≡ 2)
unfolding dispatched contracts dispatch_all dispatch_executor pop_least add_executor no_executors
    lookup Text-discrete emplace ℕ_discrete
two_each = (refl, refl)

dispatch-Inv_example : Inv (dispatch_executor (b'a' ∷ []) sample).1
dispatch-Inv_example = dispatch-Inv (b'a' ∷ []) sample sample-Inv

dispatch_sticky_example :
    (e : Option ℕ) × ((dispatch_executor (b'a' ∷ []) sample).0 ≡ returned e)
    × ((dispatch_executor
          (b'a' ∷ [])
          (dispatch_all contracts (dispatch_executor (b'a' ∷ []) sample).1)).0
        ≡ returned e)
dispatch_sticky_example = dispatch_sticky sample (b'a' ∷ []) contracts sample-Inv

sample-Balanced : Balanced sample
unfolding add_executor no_executors lookup Text-discrete emplace ℕ_discrete
sample-Balanced p q i j = ground arith

dispatch_all-Balanced_example : Balanced dispatched
unfolding dispatched
dispatch_all-Balanced_example = dispatch_all-Balanced contracts sample sample-Inv sample-Balanced

name_there : lookup Text-discrete name1 dispatched.name_to_info ≡ some 0
unfolding dispatched contracts dispatch_all dispatch_executor pop_least add_executor no_executors
    lookup Text-discrete emplace ℕ_discrete
name_there = refl

remove_executor_lem_example :
    let (outcome, m') = remove_executor name1 dispatched in
    (outcome ≡ returned tt)
    × Inv m'
    × ((q : ℕ) → Memᴰ q m'.queue ↔ (Memᴰ q dispatched.queue × (q ≢ 0)))
    × ((c : Text) (q : ℕ)
        → (lookup Text-discrete c m'.contract_to_info ≡ some q)
          ↔ ((lookup Text-discrete c dispatched.contract_to_info ≡ some q) × (q ≢ 0)))
remove_executor_lem_example = remove_executor_lem dispatched name1 0 dispatched-Inv name_there

-- Two threads bring a new contract; the executors have none yet.
dispatch_locked-Raced_example :
    (dispatch_locked (b'a' ∷ []) sample ≡ (returned (some 22), given sample (b'a' ∷ []) 1 (0 ∷ [])))
    × Raced
        (b'a' ∷ [])
        1
        0
        (1 ∷ [])
        sample
        (dispatch_locked (b'a' ∷ []) (given sample (b'a' ∷ []) 1 (0 ∷ [])))
unfolding add_executor no_executors lookup Text-discrete emplace pop_least
dispatch_locked-Raced_example =
    dispatch_locked-Raced (b'a' ∷ []) sample 1 0 (0 ∷ []) (1 ∷ []) sample-Inv refl refl refl
