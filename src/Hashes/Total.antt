-- ===== src/Hashes/Total.antt =====
-- Which hash `batchGetHashes` hands on.
use bcos_dispatcher.Base.{
  ◌+◌, ◌<◌, ◌≡◌, Bool, true, false, ◌||◌, Option, none, some, List, [], ◌∷◌, length, arith, ltb,
  Merge,
}
use bcos_dispatcher.Common.{commit_error}
use bcos_dispatcher.Status.{CommitStatus, check_and_commit, count, start}
use bcos_dispatcher.Hashes.{
  Reply, Step, executor_hash, counted, mixed, checked, note_hash, run, executor_hashes,
  batch_get_hashes,
}

abbrev pub any_missing : {H : Type 0} → List (Option H) → Bool
any_missing [] = false
any_missing (none ∷ answers) = true
any_missing (some hash ∷ answers) = any_missing answers

-- All hashes joined to one.
abbrev pub total_of : {H : Type 0} → (H → H → H) → H → List (Option H) → H
total_of xor total [] = total
total_of xor total (none ∷ answers) = total_of xor total answers
total_of xor total (some hash ∷ answers) = total_of xor (xor total hash) answers

abbrev pub hash_reply : {H : Type 0} → H → H → Bool → Reply H
hash_reply no_hash total true = (some commit_error, no_hash)
hash_reply no_hash total false = (none, total)

module _ {H : Type 0} (xor : H → H → H) (no_hash : H) where
  run-executor_hashes :
      (answers : List (Option H)) (status : CommitStatus) (total : H)
      → status.success + status.failed + length answers ≡ status.total
      → 0 < length answers
      → run xor no_hash (executor_hashes answers) status total
        ≡ hash_reply no_hash
            (total_of xor total answers)
            (ltb 0 status.failed || any_missing answers)
          ∷ []
  unfolding run executor_hashes executor_hash count check_and_commit note_hash
  run-executor_hashes [] status total h k = absurd (omega arith)
  run-executor_hashes (none ∷ []) status total h k = ground arith
  run-executor_hashes (some x ∷ []) status total h k = ground arith
  run-executor_hashes (none ∷ b ∷ bs) status total h k =
      ground (arith, run-executor_hashes (b ∷ bs) (count true status) total)
  run-executor_hashes (some x ∷ b ∷ bs) status total h k =
      ground (arith, run-executor_hashes (b ∷ bs) (count false status) (xor total x))

  -- With an executor there, and answers that come one after the other, `batchGetHashes` calls back once:
  -- with the hashes of all executors joined, or with an error if some executor answered one.
  pub batch_get_hashes_lem :
      (answer : Option H) (answers : List (Option H))
      → batch_get_hashes xor no_hash (answer ∷ answers)
        ≡ hash_reply no_hash
            (total_of xor no_hash (answer ∷ answers))
            (any_missing (answer ∷ answers))
          ∷ []
  unfolding batch_get_hashes start
  batch_get_hashes_lem answer answers =
      run-executor_hashes (answer ∷ answers) (start (length (answer ∷ answers))) no_hash
        (omega arith) (omega arith)

  -- If no answer so far was an error, and the threads of the two last answers run at once, their steps can
  -- take an order that keeps the order of each thread, and in which the check of one thread hands on,
  -- without an error, a hash that lacks the other's.
  pub run-unmixed :
      (status : CommitStatus) (total early late : H)
      → status.failed ≡ 0
      → status.success + 2 ≡ status.total
      → (steps : List (Step H)) × Merge
          (executor_hash (some early))
          (executor_hash (some late))
          steps
        × (run xor no_hash steps status total
            ≡ (none, xor total early) ∷ (none, xor (xor total early) late) ∷ [])
  unfolding run count check_and_commit note_hash executor_hash
  run-unmixed status total early late h k = (
    counted false ∷ counted false ∷ mixed early ∷ checked ∷ mixed late ∷ checked ∷ [],
    Merge.left (Merge.right (Merge.left (Merge.left (Merge.right (Merge.right Merge.nothing))))),
    ground arith,
  )
