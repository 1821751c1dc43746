-- ===== src/Status/Interleaved.antt =====
-- Answers counted and checked by several threads at once, in any order of the steps.
use bcos_dispatcher.Base.{
  ℕ, suc, ◌+◌, ◌≤◌, ◌≡◌, refl, Bool, true, false, ◌||◌, List, [], ◌∷◌, arith, ltb, All, ◌≢◌,
}
use bcos_dispatcher.Status.{
  CommitStatus, Verdict, waits, all_succeeded, with_errors, check_and_commit, count, start, Step,
  counted, checked, note_check, run, verdict_of,
}

-- The answers that the steps count, and the errors among them.
abbrev pub answers : List Step → ℕ
answers [] = 0
answers (counted error ∷ steps) = suc (answers steps)
answers (checked ∷ steps) = answers steps

abbrev pub errors : List Step → ℕ
errors [] = 0
errors (counted true ∷ steps) = suc (errors steps)
errors (counted false ∷ steps) = errors steps
errors (checked ∷ steps) = errors steps

errors-le-answers : (steps : List Step) → errors steps ≤ answers steps
errors-le-answers [] = omega arith
errors-le-answers (counted true ∷ steps) = omega (arith, errors-le-answers steps)
errors-le-answers (counted false ∷ steps) = omega (arith, errors-le-answers steps)
errors-le-answers (checked ∷ steps) = errors-le-answers steps

All-note_check :
    (P : Verdict → Type 0) (v : Verdict) (rest : List Verdict)
    → (v ≢ waits → P v)
    → All P rest
    → All P (note_check v rest)
unfolding note_check
All-note_check P waits rest h r = r
All-note_check P all_succeeded rest h r = (h (λ e. cc), r)
All-note_check P with_errors rest h r = (h (λ e. cc), r)

complete :
    (status : CommitStatus) (total k f a e : ℕ)
    → status.total ≡ total
    → status.success + status.failed + a ≡ k
    → status.failed + e ≡ f
    → k ≤ total
    → e ≤ a
    → check_and_commit status ≢ waits
    → (k ≡ total) × (check_and_commit status ≡ verdict_of (ltb 0 f))
unfolding check_and_commit
complete status total k f a e t p q h l n = ground arith

run-All :
    (total k f : ℕ) (steps : List Step) (status : CommitStatus)
    → status.total ≡ total
    → status.success + status.failed + answers steps ≡ k
    → status.failed + errors steps ≡ f
    → k ≤ total
    → All (λ v. (k ≡ total) × (v ≡ verdict_of (ltb 0 f))) (run steps status)
unfolding run count
run-All total k f [] status t a e h = tt
run-All total k f (counted true ∷ steps) status t a e h =
    run-All total k f steps (count true status) t (omega arith) (omega arith) h
run-All total k f (counted false ∷ steps) status t a e h =
    run-All total k f steps (count false status) t (omega arith) (omega arith) h
run-All total k f (checked ∷ steps) status t a e h =
    All-note_check _ _ _ passes (run-All total k f steps status t a e h)
  where
    passes :
        check_and_commit status ≢ waits
        → (k ≡ total) × (check_and_commit status ≡ verdict_of (ltb 0 f))
    passes n =
        complete status total k f (answers steps) (errors steps) t a e h (errors-le-answers steps) n

-- Whatever order the threads' steps take, nothing is called back before every answer has been
-- counted, and every call back says rightly whether one of them was an error.
pub run_final :
    (total : ℕ) (steps : List Step)
    → answers steps ≤ total
    → All
        (λ v. (answers steps ≡ total) × (v ≡ verdict_of (ltb 0 (errors steps))))
        (run steps (start total))
unfolding start
run_final total steps h =
    run-All total (answers steps) (errors steps) steps (start total) refl (omega arith)
      (omega arith) h

-- The two last answers counted before either is checked: both threads call back.
pub run_twice :
    (status : CommitStatus) (a b : Bool)
    → status.success + status.failed + 2 ≡ status.total
    → let v = verdict_of (ltb 0 status.failed || (a || b)) in
      run (counted a ∷ counted b ∷ checked ∷ checked ∷ []) status ≡ v ∷ v ∷ []
unfolding run count check_and_commit
run_twice status true true h = ground arith
run_twice status true false h = ground arith
run_twice status false true h = ground arith
run_twice status false false h = ground arith
