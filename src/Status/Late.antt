-- ===== src/Status/Late.antt =====
-- How often the threads that answer call back, for every order of their steps.
use bcos_dispatcher.Base.{
  ℕ, suc, ◌+◌, ◌<◌, ◌≡◌, refl, ap, ◌∙◌, true, false, List, [], ◌∷◌, arith, ltb, ◌==◌, replicate,
  if◌then◌else◌,
}
use bcos_dispatcher.Status.{
  CommitStatus, check_and_commit, count, Step, counted, checked, run, verdict_of,
}
use bcos_dispatcher.Status.Interleaved.{answers, errors}

-- The checks after the last count.
abbrev pub late_checks : List Step → ℕ
late_checks [] = 0
late_checks (counted error ∷ steps) = late_checks steps
late_checks (checked ∷ steps) =
    if answers steps == 0 then suc (late_checks steps) else late_checks steps

-- A check is still to come.
abbrev pub Checks : List Step → Type 0
Checks [] = ⊥
Checks (counted error ∷ steps) = Checks steps
Checks (checked ∷ steps) = Unit {0}

-- The thread that counts an answer checks afterwards.
abbrev pub Followed : List Step → Type 0
Followed [] = Unit {0}
Followed (counted error ∷ steps) = Checks steps × Followed steps
Followed (checked ∷ steps) = Followed steps

-- As many calls back as checks after the last count, each with the errors of all answers.
pub run-late_checks :
    (steps : List Step) (status : CommitStatus)
    → status.success + status.failed + answers steps ≡ status.total
    → run steps status
      ≡ replicate (late_checks steps) (verdict_of (ltb 0 (status.failed + errors steps)))
unfolding run count check_and_commit
run-late_checks [] status h = refl
run-late_checks (counted true ∷ steps) status h =
    run-late_checks steps (count true status) (omega arith)
    ∙ ap (λ n. replicate (late_checks steps) (verdict_of (ltb 0 n))) (omega arith)
run-late_checks (counted false ∷ steps) status h =
    run-late_checks steps (count false status) (omega arith)
run-late_checks (checked ∷ steps) status h =
    ground (arith, run-late_checks steps status h, no_errors steps)
  where
    no_errors : (steps : List Step) → answers steps ≡ 0 → errors steps ≡ 0
    no_errors [] z = refl
    no_errors (counted error ∷ steps) z = absurd (omega (arith, z))
    no_errors (checked ∷ steps) z = no_errors steps z

Checks-late : (steps : List Step) → answers steps ≡ 0 → Checks steps → 0 < late_checks steps
Checks-late [] z c = absurd c
Checks-late (counted error ∷ steps) z c = absurd (omega (arith, z))
Checks-late (checked ∷ steps) z c = ground arith

-- Where something is counted, a check comes after the last count.
pub Followed-late : (steps : List Step) → Followed steps → 0 < answers steps → 0 < late_checks steps
Followed-late [] f h = absurd (omega arith)
Followed-late (counted error ∷ steps) f h = ground (arith, Checks-late steps, Followed-late steps)
Followed-late (checked ∷ steps) f h = ground (arith, Followed-late steps)
