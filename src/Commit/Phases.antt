-- ===== src/Commit/Phases.antt =====
-- What the phases call back, for all answers of the executors and the storage.
use bcos_dispatcher.Base.{
  ℕ, zero, replicate, suc, ◌+◌, ◌≡◌, refl, ap, ◌∙◌, Bool, true, false, ◌||◌, none, some, List, [],
  ◌∷◌, length, arith, ltb,
}
use bcos_dispatcher.Common.{SchedulerError, unknown_error, commit_error, rollback_error}
use bcos_dispatcher.Status.Interleaved.{answers, errors}
use bcos_dispatcher.Status.Late.{late_checks, run-late_checks}
use bcos_dispatcher.Status.{
  Step, counted, start, run, executor_answers, any_error, verdict_of, count,
}
use bcos_dispatcher.Status.Sequential.{run-executor_answers, run_early}
use bcos_dispatcher.Commit.{
  Reply, replies, batch_next_block, batch_block_commit, batch_block_rollback, prepare_verdicts,
  Answers,
}

abbrev pub reply_of : SchedulerError → Bool → Reply
reply_of code true = some code
reply_of code false = none

replies-verdict_of :
    (code : SchedulerError) (b : Bool) → replies code (verdict_of b ∷ []) ≡ reply_of code b ∷ []
unfolding replies
replies-verdict_of code true = refl
replies-verdict_of code false = refl

-- With an executor there, `batchNextBlock` calls back once: with an error if some executor answered one.
pub batch_next_block_lem :
    (answer : Bool) (answers : List Bool)
    → batch_next_block (answer ∷ answers)
      ≡ reply_of unknown_error (any_error (answer ∷ answers)) ∷ []
unfolding batch_next_block start
batch_next_block_lem answer answers =
    ap (replies unknown_error) (
      run-executor_answers (answer ∷ answers) (start (length (answer ∷ answers))) (omega arith)
        (omega arith))
    ∙ replies-verdict_of unknown_error (any_error (answer ∷ answers))

-- The run of the steps after the storage's answer has been counted first.
storage_first :
    (storage answer : Bool) (answers : List Bool)
    → run
        (counted storage ∷ executor_answers (answer ∷ answers))
        (start (suc (length (answer ∷ answers))))
      ≡ verdict_of (storage || any_error (answer ∷ answers)) ∷ []
unfolding run count start
storage_first true answer answers =
    run-executor_answers (answer ∷ answers) _ (omega arith) (omega arith)
storage_first false answer answers =
    run-executor_answers (answer ∷ answers) _ (omega arith) (omega arith)

replies-replicate :
    (code : SchedulerError) (k : ℕ) (b : Bool)
    → replies code (replicate k (verdict_of b)) ≡ replicate k (reply_of code b)
unfolding replies
replies-replicate code zero b = refl
replies-replicate code (suc k) true = ap (λ rs. some code ∷ rs) (replies-replicate code k true)
replies-replicate code (suc k) false = ap (λ rs. none ∷ rs) (replies-replicate code k false)

-- Whatever order the steps of the executors' callbacks take, if each executor's answer is counted,
-- `batchBlockCommit` calls back for each check after the last count: with an error if the storage or some
-- executor answered one.
pub batch_block_commit_lem :
    (storage : Bool) (executors : ℕ) (steps : List Step)
    → answers steps ≡ executors
    → batch_block_commit storage executors steps
      ≡ replicate (late_checks steps) (reply_of commit_error (storage || ltb 0 (errors steps)))
unfolding batch_block_commit start
batch_block_commit_lem storage executors steps h =
    ap (replies commit_error) (
      run-late_checks (counted storage ∷ steps) (start (suc executors)) (all_counted storage)
      ∙ ap (λ b. replicate (late_checks steps) (verdict_of b)) (spoilt storage))
    ∙ replies-replicate commit_error (late_checks steps) (storage || ltb 0 (errors steps))
  where
    all_counted : (storage : Bool) → 0 + 0 + answers (counted storage ∷ steps) ≡ suc executors
    all_counted storage = omega (arith, h)

    spoilt :
        (storage : Bool)
        → ltb 0 (0 + errors (counted storage ∷ steps)) ≡ storage || ltb 0 (errors steps)
    spoilt true = ground arith
    spoilt false = ground arith

pub prepare_verdicts_lem :
    (a : Answers) (answer : Bool) (answers : List Bool)
    → a.prepare ≡ answer ∷ answers
    → prepare_verdicts a ≡ verdict_of (a.prepare_storage || any_error a.prepare) ∷ []
unfolding prepare_verdicts
prepare_verdicts_lem a answer answers e = rw e (storage_first a.prepare_storage answer answers)

-- `batchBlockRollback` calls back once if the storage answers before the last executor: with an error
-- if it or some executor answered one.
pub batch_block_rollback_lem :
    (before : List Bool) (storage answer : Bool) (after : List Bool)
    → batch_block_rollback before storage (answer ∷ after)
      ≡ reply_of rollback_error ((any_error before || storage) || any_error (answer ∷ after)) ∷ []
unfolding batch_block_rollback start run count
batch_block_rollback_lem before storage answer after =
    let (s, f, e, n, b) =
      run_early before (counted storage ∷ executor_answers (answer ∷ after))
        (start (suc (length before + length (answer ∷ after)))) (omega arith) in
    ap (replies rollback_error) (e ∙ last storage s f n b)
    ∙ replies-verdict_of rollback_error
        ((any_error before || storage) || any_error (answer ∷ after))
  where
    last :
        (storage : Bool) (s f : ℕ)
        → s + f ≡ 0 + 0 + length before
        → ltb 0 f ≡ any_error before
        → run (counted storage ∷ executor_answers (answer ∷ after)) (record {
          total = suc (length before + length (answer ∷ after));
          success = s;
          failed = f;
        })
          ≡ verdict_of ((any_error before || storage) || any_error (answer ∷ after)) ∷ []
    last true s f n b =
        run-executor_answers (answer ∷ after) _ (omega arith) (omega arith)
        ∙ ap (λ x. verdict_of x ∷ []) (ground arith)
    last false s f n b =
        run-executor_answers (answer ∷ after) _ (omega arith) (omega arith)
        ∙ ap (λ x. verdict_of x ∷ []) (ground arith)

-- If the storage's answer to the rollback is the last one, nothing is called back, since no check
-- follows that answer.
pub batch_block_rollback_lost :
    (before : List Bool) (storage : Bool) → batch_block_rollback before storage [] ≡ []
unfolding batch_block_rollback start run executor_answers
batch_block_rollback_lost before storage =
    let (s, f, e, n, b) =
      run_early before (counted storage ∷ executor_answers []) (start (suc (length before + 0)))
        (omega arith) in
    ap (replies rollback_error) e
