-- ===== src/Batch/Tests.antt =====
-- Batches of two messages.
use bcos_dispatcher.Base.{refl, false, List, [], ◌∷◌, arith}
use bcos_dispatcher.Batch.{
  new_batch, check_batch, Step, sent, failed, received, all_sent, stopped, state_failed, checked,
  run,
}
use bcos_dispatcher.Batch.Once.{errors, state_errors, Allowed, Called, run-new_batch}

-- The second answer, an error, comes while `startBatch` stops at a state with an error: its thread checks
-- before that error is counted, and `startBatch` checks at the end.
abbrev crossed : List Step
crossed =
    sent
    ∷ received
    ∷ checked false
    ∷ sent
    ∷ failed
    ∷ stopped
    ∷ received
    ∷ checked false
    ∷ state_failed
    ∷ all_sent
    ∷ checked false
    ∷ []

crossed-Allowed : Allowed crossed new_batch
unfolding new_batch check_batch
crossed-Allowed = (
  refl,
  ((omega arith, tt), (refl, (omega arith, ((refl, tt), ((omega arith, tt), (tt, (refl, refl))))))),
)

run-new_batch_example : Called (errors crossed) (state_errors crossed) (run crossed new_batch)
run-new_batch_example = run-new_batch crossed (refl, (refl, (refl, tt))) crossed-Allowed
