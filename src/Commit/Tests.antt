-- ===== src/Commit/Tests.antt =====
-- The theorems on answers and on `asyncCommit` at concrete answers.
use bcos_dispatcher.Base.{◌≡◌, refl, true, false, some, ◌<◌, List, [], ◌∷◌, All, ltb, arith}
use bcos_dispatcher.Common.{unknown_error}
use bcos_dispatcher.Status.{Step, counted, checked, start, run, verdict_of}
use bcos_dispatcher.Status.Interleaved.{answers, errors, run_final, run_twice}
use bcos_dispatcher.Commit.{Answers, async_commit}
use bcos_dispatcher.Commit.Outcome.{
  async_commit_commits, async_commit_rolls_back, async_commit_lost,
}

abbrev crossed : List Step
crossed = counted false ∷ counted true ∷ checked ∷ checked ∷ []

run_final_example :
    All
      (λ v. (answers crossed ≡ 2) × (v ≡ verdict_of (ltb 0 (errors crossed))))
      (run crossed (start 2))
run_final_example = run_final 2 crossed (omega arith)

run_twice_example : run crossed (start 2) ≡ verdict_of true ∷ verdict_of true ∷ []
unfolding start
run_twice_example = run_twice (start 2) false true refl

-- Two executors, one of which fails to commit.
abbrev good : Answers
good = record {
  prewrite = false;
  prepare_storage = false;
  prepare = false ∷ false ∷ [];
  commit_storage = false;
  executors = 2;
  commit = crossed;
  rollback_before = false ∷ [];
  rollback_storage = false;
  rollback_after = false ∷ [];
}

-- The second executor cannot prepare.
abbrev unready : Answers
unready = record good { prepare = false ∷ true ∷ [] }

abbrev late_storage : Answers
late_storage = record unready { rollback_before = false ∷ false ∷ []; rollback_after = [] }

-- The executors' answers to the commit cross, and one of them is an error: it is called back twice.
async_commit_commits_example :
    (async_commit good ≡ some unknown_error ∷ some unknown_error ∷ []) × (0 < 2)
async_commit_commits_example =
    async_commit_commits good false (false ∷ []) refl refl refl refl (omega arith) (tt, (tt, tt))

async_commit_rolls_back_example : async_commit unready ≡ []
async_commit_rolls_back_example =
    async_commit_rolls_back unready false (true ∷ []) refl refl false [] refl refl

async_commit_lost_example : async_commit late_storage ≡ []
async_commit_lost_example = async_commit_lost late_storage false (true ∷ []) refl refl refl refl
