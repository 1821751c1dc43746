-- ===== src/Batch/Once.antt =====
-- How often a batch calls back, in the orders that the threads' steps may take.
use bcos_dispatcher.Base.{
  ℕ, suc, ◌+◌, ◌<◌, ◌≤◌, ◌≡◌, refl, sym, subst, true, Bool, false, ◌&&◌, not, Option, none, some,
  List, [], ◌∷◌, ◌++◌, ltb, if◌then◌else◌, arith, length, Bool-cases, inl, inr,
}
use bcos_dispatcher.Common.{SchedulerError, batch_error}
use bcos_dispatcher.Batch.{
  BatchStatus, new_batch, is_over, check_batch, Step, sent, failed, received, all_sent, stopped,
  state_failed, checked, run,
}

-- The errors among the answers.
abbrev pub errors : List Step → ℕ
errors [] = 0
errors (failed ∷ steps) = suc (errors steps)
errors (_ ∷ steps) = errors steps

-- The states with an error that `startBatch` meets.
abbrev pub state_errors : List Step → ℕ
state_errors [] = 0
state_errors (state_failed ∷ steps) = suc (state_errors steps)
state_errors (_ ∷ steps) = state_errors steps

-- A check is still to come.
abbrev pub Checks : List Step → Type 0
Checks [] = ⊥
Checks (checked throws ∷ steps) = Unit {0}
Checks (_ ∷ steps) = Checks steps

-- No traversal throws.
abbrev pub Quiet : List Step → Type 0
Quiet [] = Unit {0}
Quiet (checked throws ∷ steps) = (throws ≡ false) × Quiet steps
Quiet (_ ∷ steps) = Quiet steps

-- The orders of steps that the code allows: no message is sent after `allSended` is set, nor does
-- `startBatch` stop then, an answer needs a message that waits for one, an answer and the setting of
-- `allSended` are followed by a check, and at the end every message has been answered.
abbrev pub Allowed : List Step → BatchStatus → Type 0
Allowed [] s = (s.all_sended ≡ true) × (s.received ≡ s.total)
Allowed (sent ∷ steps) s = (s.all_sended ≡ false) × Allowed steps (record s { total = suc s.total })
Allowed (failed ∷ steps) s =
    (s.received < s.total) × Allowed steps (record s { error = suc s.error })
Allowed (received ∷ steps) s =
    ((s.received < s.total) × Checks steps) × Allowed steps (record s { received = suc s.received })
Allowed (all_sent ∷ steps) s = Checks steps × Allowed steps (record s { all_sended = true })
Allowed (stopped ∷ steps) s =
    ((s.all_sended ≡ false) × Checks steps) × Allowed steps (record s { all_sended = true })
Allowed (state_failed ∷ steps) s = Allowed steps (record s { error = suc s.error })
Allowed (checked throws ∷ steps) s = Allowed steps (check_batch throws s).1

-- One call back, with an error if there are errors that it must see, and without one if there are none.
abbrev pub Called : ℕ → ℕ → List (Option SchedulerError) → Type 0
Called seen unseen replies =
    (r : Option SchedulerError) × (replies ≡ r ∷ [])
    × (0 < seen → r ≡ some batch_error)
    × (seen + unseen ≡ 0 → r ≡ none)

run-executed : (steps : List Step) (s : BatchStatus) → s.callback_executed ≡ true → run steps s ≡ []
unfolding run check_batch
run-executed [] s h = refl
run-executed (sent ∷ steps) s h = run-executed steps (record s { total = suc s.total }) h
run-executed (failed ∷ steps) s h = run-executed steps (record s { error = suc s.error }) h
run-executed (received ∷ steps) s h = run-executed steps (record s { received = suc s.received }) h
run-executed (all_sent ∷ steps) s h = run-executed steps (record s { all_sended = true }) h
run-executed (stopped ∷ steps) s h = run-executed steps (record s { all_sended = true }) h
run-executed (state_failed ∷ steps) s h = run-executed steps (record s { error = suc s.error }) h
run-executed (checked throws ∷ steps) s h = ground (arith, run-executed steps s h)

-- Whatever the steps, there is at most one call back.
pub run-once : (steps : List Step) (s : BatchStatus) → length (run steps s) ≤ 1
unfolding run check_batch
run-once [] s = omega arith
run-once (sent ∷ steps) s = run-once steps (record s { total = suc s.total })
run-once (failed ∷ steps) s = run-once steps (record s { error = suc s.error })
run-once (received ∷ steps) s = run-once steps (record s { received = suc s.received })
run-once (all_sent ∷ steps) s = run-once steps (record s { all_sended = true })
run-once (stopped ∷ steps) s = run-once steps (record s { all_sended = true })
run-once (state_failed ∷ steps) s = run-once steps (record s { error = suc s.error })
run-once (checked throws ∷ steps) s =
    ground
      (arith, run-executed steps (record s { callback_executed = true }) refl, run-once steps s)

-- In a batch that is over no answer is to come.
no_errors :
    (steps : List Step) (s : BatchStatus)
    → s.all_sended ≡ true
    → s.received ≡ s.total
    → Allowed steps s
    → errors steps ≡ 0
unfolding check_batch
no_errors [] s a e h = refl
no_errors (sent ∷ steps) s a e h = absurd (cc)
no_errors (failed ∷ steps) s a e h = absurd (omega (arith, h.0))
no_errors (received ∷ steps) s a e h = absurd (omega (arith, h.0.0))
no_errors (all_sent ∷ steps) s a e h = no_errors steps (record s { all_sended = true }) refl e h.1
no_errors (stopped ∷ steps) s a e h = no_errors steps (record s { all_sended = true }) refl e h.1
no_errors (state_failed ∷ steps) s a e h = no_errors steps (record s { error = suc s.error }) a e h
no_errors (checked throws ∷ steps) s a e h =
    elim (Bool-cases (is_over s && not s.callback_executed)) [
      | inl t ↦ no_errors steps (record s { callback_executed = true }) a e (ground arith)
      | inr f ↦ no_errors steps s a e (ground arith)
    ]

-- The status and the steps to come: what is over and not yet noticed is going to be checked.
abbrev Awaited : List Step → BatchStatus → Type 0
Awaited steps s = is_over s ≡ true → Checks steps

check_batch-waits :
    (throws : Bool) (s : BatchStatus) → is_over s ≡ false → check_batch throws s ≡ ([], s)
unfolding check_batch
check_batch-waits throws s f = ground arith

-- An error that has been counted is seen.
Called-sees :
    (seen seen' unseen unseen' : ℕ) (replies : List (Option SchedulerError))
    → Called seen unseen replies
    → (0 < seen' → 0 < seen)
    → (seen' + unseen' ≡ 0 → seen + unseen ≡ 0)
    → Called seen' unseen' replies
Called-sees seen seen' unseen unseen' replies (r, e, yes_error, no_error) h k =
    (r, e, λ p. yes_error (h p), λ z. no_error (k z))

run-Allowed :
    (steps : List Step) (s : BatchStatus)
    → s.callback_executed ≡ false
    → Awaited steps s
    → Quiet steps
    → Allowed steps s
    → Called (s.error + errors steps) (state_errors steps) (run steps s)
unfolding run check_batch
run-Allowed [] s u w q h = absurd (w (ground arith))
run-Allowed (sent ∷ steps) s u w q h =
    run-Allowed steps (record s { total = suc s.total }) u (λ o. absurd (ground arith)) q h.1
run-Allowed (failed ∷ steps) s u w q h =
    Called-sees _ _ _ _ _ (run-Allowed steps (record s { error = suc s.error }) u (λ o. w o) q h.1)
      (λ p. omega arith) (λ z. omega (arith, z))
run-Allowed (received ∷ steps) s u w q h =
    run-Allowed steps (record s { received = suc s.received }) u (λ o. h.0.1) q h.1
run-Allowed (all_sent ∷ steps) s u w q h =
    run-Allowed steps (record s { all_sended = true }) u (λ o. h.0) q h.1
run-Allowed (stopped ∷ steps) s u w q h =
    run-Allowed steps (record s { all_sended = true }) u (λ o. h.0.1) q h.1
run-Allowed (state_failed ∷ steps) s u w q h =
    Called-sees _ _ _ _ _ (run-Allowed steps (record s { error = suc s.error }) u (λ o. w o) q h)
      (λ p. omega arith) (λ z. omega (arith, z))
run-Allowed (checked throws ∷ steps) s u w q h = elim (Bool-cases (is_over s)) [
  | inl t ↦ (
    (if ltb 0 s.error then some batch_error else none),
    ground (arith, q.0, run-executed steps (record s { callback_executed = true }) refl),
    λ p. ground (arith, no_errors (checked throws ∷ steps) s (ground arith) (ground arith) h),
    λ z. ground arith,
  )
  | inr f ↦
      let idle = check_batch-waits throws s f in
      subst (λ r. Called (s.error + errors steps) (state_errors steps) (r.0 ++ run steps r.1))
        (sym idle)
        (run-Allowed steps s u (λ o. absurd (cc)) q.1 (subst (λ r. Allowed steps r.1) idle h))
]

-- In every order of steps that the code allows, if neither `startBatch` nor a traversal of `checkBatch`
-- throws and every message is answered, a batch calls back exactly once: with an error if some answer was
-- one, and without an error if no answer was one and `startBatch` met no state with an error.
pub run-new_batch :
    (steps : List Step)
    → Quiet steps
    → Allowed steps new_batch
    → Called (errors steps) (state_errors steps) (run steps new_batch)
unfolding new_batch
run-new_batch steps q h =
    Called-sees _ _ _ _ _ (run-Allowed steps new_batch refl (λ o. absurd (cc)) q h)
      (λ p. omega arith) (λ z. omega (arith, z))
