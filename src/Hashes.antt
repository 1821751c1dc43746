-- ===== src/Hashes.antt =====
-- `batchGetHashes` of bcos-scheduler/BlockExecutive.cpp, which joins the hashes of all executors to the
-- state root of a block. The hashes and their exclusive or are parameters.
pub mod Total
mod Tests
use bcos_dispatcher.Base.{ℕ, Bool, true, false, Option, none, some, List, [], ◌∷◌, ◌++◌, length}
use bcos_dispatcher.Common.{SchedulerError, commit_error}
use bcos_dispatcher.Status.{
  CommitStatus, Verdict, waits, all_succeeded, with_errors, check_and_commit, count, start,
}

-- The steps of the threads that answer: the answer is counted, its hash joined, the count checked.
pub data Step (H : Type 0) : Type 0 where
  counted : Bool → Step H
  mixed : H → Step H
  checked : Step H

-- What the callback is given: an error or `nullptr`, and a hash.
abbrev pub Reply : Type 0 → Type 0
Reply H = Option SchedulerError × H

unfoldable pub note_hash : {H : Type 0} → H → H → Verdict → List (Reply H) → List (Reply H)
note_hash no_hash total waits rest = rest
note_hash no_hash total all_succeeded rest = (none, total) ∷ rest
note_hash no_hash total with_errors rest = (some commit_error, no_hash) ∷ rest

-- The steps in their order, from a status and what `totalHash` holds.
unfoldable pub run :
    {H : Type 0} → (H → H → H) → H → List (Step H) → CommitStatus → H → List (Reply H)
unfolding note_hash count check_and_commit
run xor no_hash [] status total = []
run xor no_hash (counted error ∷ steps) status total =
    run xor no_hash steps (count error status) total
run xor no_hash (mixed hash ∷ steps) status total = run xor no_hash steps status (xor total hash)
run xor no_hash (checked ∷ steps) status total =
    note_hash no_hash total (check_and_commit status) (run xor no_hash steps status total)

-- The callback of `getHash`, with the steps of its thread in their order; an answer without a hash is an
-- error.
unfoldable pub executor_hash : {H : Type 0} → Option H → List (Step H)
executor_hash none = counted true ∷ checked ∷ []
executor_hash (some hash) = counted false ∷ mixed hash ∷ checked ∷ []

-- The callbacks one after the other.
unfoldable pub executor_hashes : {H : Type 0} → List (Option H) → List (Step H)
unfolding executor_hash
executor_hashes [] = []
executor_hashes (answer ∷ answers) = executor_hash answer ++ executor_hashes answers

unfoldable pub batch_get_hashes : {H : Type 0} → (H → H → H) → H → List (Option H) → List (Reply H)
unfolding run executor_hashes start
batch_get_hashes xor no_hash answers =
    run xor no_hash (executor_hashes answers) (start (length answers)) no_hash
