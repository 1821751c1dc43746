-- ===== src/Commit/Outcome.antt =====
-- What the callback of `asyncCommit` is given.
use bcos_dispatcher.Base.{
  ℕ, zero, ◌<◌, ltb, replicate, none, arith, suc, length, ◌≡◌, refl, ap, ap, ◌∙◌, Bool, true, false,
  ◌||◌, some, List, [], ◌∷◌, if◌then◌else◌,
}
use mathlib.Core.List.{append-nil}
use bcos_dispatcher.Common.{unknown_error, commit_error, rollback_error}
use bcos_dispatcher.Status.{any_error, verdict_of, run, count, start, executor_answers, counted}
use bcos_dispatcher.Status.Interleaved.{answers, errors}
use bcos_dispatcher.Status.Late.{late_checks, Followed, Followed-late}
use bcos_dispatcher.Commit.{
  Answers, after_rollback, after_commit, after_prepare, async_commit, prepare_verdicts,
  batch_block_rollback,
}
use bcos_dispatcher.Commit.Phases.{
  reply_of, prepare_verdicts_lem, batch_block_commit_lem, batch_block_rollback_lem,
  batch_block_rollback_lost,
}

-- The first phase fails if the storage or an executor cannot prepare.
abbrev pub unprepared : Answers → Bool
unprepared a = a.prepare_storage || any_error a.prepare

after_commit-replicate :
    (k : ℕ) (b : Bool)
    → after_commit (replicate k (reply_of commit_error b)) ≡ replicate k (reply_of unknown_error b)
unfolding after_commit
after_commit-replicate zero b = refl
after_commit-replicate (suc k) true =
    ap (λ rs. some unknown_error ∷ rs) (after_commit-replicate k true)
after_commit-replicate (suc k) false = ap (λ rs. none ∷ rs) (after_commit-replicate k false)

after_rollback-reply_of :
    (b : Bool)
    → after_rollback (reply_of rollback_error b ∷ []) ≡ (if b then some rollback_error ∷ [] else [])
unfolding after_rollback
after_rollback-reply_of true = refl
after_rollback-reply_of false = refl

rollback_of :
    (before : List Bool) (storage : Bool) (xs : List Bool) (c : Bool) (cs : List Bool)
    → xs ≡ c ∷ cs
    → batch_block_rollback before storage xs
      ≡ reply_of rollback_error ((any_error before || storage) || any_error xs) ∷ []
rollback_of before storage xs c cs k = rw k (batch_block_rollback_lem before storage c cs)

rollback_lost :
    (before : List Bool) (storage : Bool) (xs : List Bool)
    → xs ≡ []
    → batch_block_rollback before storage xs ≡ []
rollback_lost before storage xs k = rw k (batch_block_rollback_lost before storage)

module _ (a : Answers) (e : Bool) (es : List Bool) (some_executor : a.prepare ≡ e ∷ es)
    (prewritten : a.prewrite ≡ false) where
  async_commit_prepared : async_commit a ≡ after_prepare a (verdict_of (unprepared a) ∷ [])
  unfolding async_commit
  async_commit_prepared =
      rw prewritten (ap (after_prepare a) (prepare_verdicts_lem a e es some_executor))

  -- If there is an executor to prepare and one to commit, the block is prewritten, the storage and all
  -- executors prepare, the executors' answers to that coming one after the other, and each executor's
  -- answer to the commit is counted and then checked, these steps in any order among the executors: the
  -- callback is called at least once, namely for each check after the last count, each time with an error
  -- exactly if the storage or an executor fails to commit.
  pub async_commit_commits :
      unprepared a ≡ false
      → answers a.commit ≡ a.executors
      → 0 < a.executors
      → Followed a.commit
      → (async_commit a
          ≡ replicate
              (late_checks a.commit)
              (reply_of unknown_error (a.commit_storage || ltb 0 (errors a.commit))))
        × (0 < late_checks a.commit)
  unfolding after_prepare after_commit
  async_commit_commits h counts some_commit followed = (
    async_commit_prepared
        ∙ rw h (
            append-nil _
            ∙ ap after_commit (batch_block_commit_lem a.commit_storage a.executors a.commit counts)
            ∙ after_commit-replicate (late_checks a.commit)
                (a.commit_storage || ltb 0 (errors a.commit))),
    Followed-late a.commit followed (omega (arith, counts)),
  )

  -- An error in the first phase, and a rollback in which the storage answers before the last
  -- executor: the callback is called only if the rollback meets an error too.
  pub async_commit_rolls_back :
      (c : Bool) (cs : List Bool)
      → a.rollback_after ≡ c ∷ cs
      → unprepared a ≡ true
      → async_commit a ≡ (
          if (any_error a.rollback_before || a.rollback_storage) || any_error a.rollback_after
          then some rollback_error ∷ []
          else [])
  unfolding after_prepare
  async_commit_rolls_back c cs k h =
      async_commit_prepared
      ∙ rw h (
          append-nil _
          ∙ ap after_rollback
              (rollback_of a.rollback_before a.rollback_storage a.rollback_after c cs k)
          ∙ after_rollback-reply_of _)

  -- If the storage answers last, the callback is never called.
  pub async_commit_lost : a.rollback_after ≡ [] → unprepared a ≡ true → async_commit a ≡ []
  unfolding after_prepare after_rollback
  async_commit_lost k h =
      async_commit_prepared
      ∙ rw h (
          append-nil _
          ∙ ap after_rollback
              (rollback_lost a.rollback_before a.rollback_storage a.rollback_after k))

-- With no executor registered the storage's answer is the only one, and no check follows it: once the
-- block is written to the ledger's cache, the callback of `asyncCommit` is never called.
pub async_commit_no_executor :
    (a : Answers) → a.prepare ≡ [] → a.prewrite ≡ false → async_commit a ≡ []
unfolding async_commit prepare_verdicts run count start executor_answers after_prepare
async_commit_no_executor a h k =
    rw k (ap (after_prepare a) (no_verdict a.prepare_storage a.prepare h))
  where
    no_verdict :
        (s : Bool) (xs : List Bool)
        → xs ≡ []
        → run (counted s ∷ executor_answers xs) (start (suc (length xs))) ≡ []
    no_verdict s xs e = rw e
