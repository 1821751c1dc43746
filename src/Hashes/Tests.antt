-- ===== src/Hashes/Tests.antt =====
-- Hashes of one bit, with exclusive or.
use bcos_dispatcher.Base.{◌≡◌, refl, Bool, true, false, not, none, some, List, [], ◌∷◌, Merge}
use bcos_dispatcher.Status.{start}
use bcos_dispatcher.Hashes.{Step, executor_hash, run}
use bcos_dispatcher.Hashes.Total.{run-unmixed}

abbrev xor_bit : Bool → Bool → Bool
xor_bit true b = not b
xor_bit false b = b

run-unmixed_example :
    (steps : List (Step Bool)) × Merge (executor_hash (some true)) (executor_hash (some true)) steps
    × (run xor_bit false steps (start 2) false ≡ (none, true) ∷ (none, false) ∷ [])
unfolding start
run-unmixed_example = run-unmixed xor_bit false (start 2) false true true refl refl
