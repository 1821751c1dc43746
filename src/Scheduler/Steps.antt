-- ===== src/Scheduler/Steps.antt =====
-- The states that the scheduler can reach, by requests and the callbacks of the work they started in
-- any order.
use bcos_dispatcher.Base.{
  ℕ, ◌+◌, ◌≡◌, refl, Bool, true, false, not, ◌&&◌, Option, none, some, List, [], ◌∷◌, ◌++◌, arith,
  if_elim, subst, ◌==◌, leb,
}
use bcos_dispatcher.Scheduler.{
  BlockHeader, BlockExecutive, SchedulerImpl, Answer, back, start_block, execute_checked,
  execute_block, execute_done, commit_front, commit_checked, commit_block, commit_done,
  new_scheduler,
}
use bcos_dispatcher.Scheduler.Numbers.{
  Consecutive, Consecutive-append, Consecutive-set_result, Consecutive-pop_front, LastOpen,
  FrontDone, LastOpen-append, LastOpen-pop_front, FrontDone-append, FrontDone-set_result,
}

-- A callback of `asyncExecute` or `asyncCommit` comes while its mutex is held.
pub data Step (s : SchedulerImpl) : SchedulerImpl → Type 0 where
  executes : (number : ℕ) → Step s (execute_block number s).1
  executed : (r : Option BlockHeader) → s.execute_locked ≡ true → Step s (execute_done r s).1
  commits : (number : ℕ) → Step s (commit_block number s).1
  committed :
      (failed unread notify_error : Bool)
      → s.commit_locked ≡ true
      → Step s (commit_done failed unread notify_error s).1

pub data Reach (s : SchedulerImpl) : SchedulerImpl → Type 0 where
  here : Reach s s
  next : {t u : SchedulerImpl} → Reach s t → Step t u → Reach s u

pub record Inv (s : SchedulerImpl) : Type 0 where
  pub consecutive : Consecutive s.blocks
  -- the block that executes is the last, and has no result yet
  pub executing : s.execute_locked ≡ true → LastOpen s.blocks
  -- the block that is committed is the front, and has been executed
  pub committing : s.commit_locked ≡ true → FrontDone s.blocks

pub new_scheduler-Inv : Inv new_scheduler
unfolding new_scheduler
new_scheduler-Inv = record { consecutive = tt; executing = λ e. cc; committing = λ e. cc }

abbrev Kept : Answer × SchedulerImpl → Type 0
Kept r = Inv r.1

-- The number comes next after the blocks.
abbrev pub Follows : ℕ → List BlockExecutive → Type 0
Follows number [] = Unit {0}
Follows number (b ∷ bs) = number ≡ (back b bs).number + 1

module _ (number : ℕ) where
  abbrev fresh : BlockExecutive
  fresh = record { number = number; result = none }

  Consecutive-next :
      (bs : List BlockExecutive)
      → Consecutive bs
      → Follows number bs
      → Consecutive (bs ++ fresh ∷ [])
  Consecutive-next [] h f = tt
  Consecutive-next (b ∷ bs) h f = Consecutive-append b bs fresh h f

  open_next : (bs : List BlockExecutive) → LastOpen (bs ++ fresh ∷ [])
  open_next [] = refl
  open_next (b ∷ bs) = LastOpen-append b bs fresh refl

  start_block-Inv :
      (s : SchedulerImpl) → Inv s → Follows number s.blocks → Inv (start_block number s)
  unfolding start_block
  start_block-Inv s h f = record {
    consecutive = Consecutive-next s.blocks h.consecutive f;
    executing = λ _. open_next s.blocks;
    committing = λ e. FrontDone-append s.blocks _ (h.committing e);
  }

  execute_checked-Inv :
      (bs : List BlockExecutive) (s : SchedulerImpl)
      → bs ≡ s.blocks
      → Inv s
      → Inv (execute_checked number bs s).1
  unfolding execute_checked
  execute_checked-Inv [] s e h =
      if_elim Kept (not (s.last_executed == 0) && leb number s.last_executed) _ _ (λ _. h)
        (λ _. start_block-Inv s h (subst (Follows number) e tt))
  execute_checked-Inv (b ∷ bs) s e h =
      if_elim Kept (leb b.number number && leb number (back b bs).number) _ _ (λ _. h)
        (λ _.
          if_elim Kept (number == (back b bs).number + 1) _ _
            (λ t. start_block-Inv s h (subst (Follows number) e (ground arith))) (λ _. h))

commit_checked-Inv :
    (number : ℕ) (bs : List BlockExecutive) (s : SchedulerImpl)
    → bs ≡ s.blocks
    → Inv s
    → Inv (commit_checked number bs s).1
unfolding commit_checked commit_front
commit_checked-Inv number [] s e h = h
commit_checked-Inv number (b ∷ bs) s e h = go b.result refl
  where
    go : (r : Option BlockHeader) → b.result ≡ r → Inv (commit_front number b s).1
    go none q = simp (q, commit_front) h
    go (some header) q =
        simp (q, commit_front)
          (if_elim Kept (number == b.number) _ _
            (λ _. record {
              consecutive = h.consecutive;
              executing = h.executing;
              committing = λ _. subst FrontDone e (header, q);
            })
            (λ _. h))

execute_done-Inv : (r : Option BlockHeader) (s : SchedulerImpl) → Inv s → Inv (execute_done r s).1
unfolding execute_done
execute_done-Inv none s h = record {
  consecutive = h.consecutive;
  executing = λ e. cc;
  committing = h.committing;
}
execute_done-Inv (some header) s h = record {
  consecutive = Consecutive-set_result header s.blocks h.consecutive;
  executing = λ e. cc;
  committing = λ e. FrontDone-set_result header s.blocks (h.committing e);
}

commit_done-Inv :
    (failed unread notify_error : Bool) (s : SchedulerImpl)
    → s.commit_locked ≡ true
    → Inv s
    → Inv (commit_done failed unread notify_error s).1
unfolding commit_done
commit_done-Inv true unread n s l h = record {
  consecutive = h.consecutive;
  executing = h.executing;
  committing = λ e. cc;
}
commit_done-Inv false true n s l h = record {
  consecutive = h.consecutive;
  executing = h.executing;
  committing = λ e. cc;
}
commit_done-Inv false false n s l h = record {
  consecutive = Consecutive-pop_front s.blocks h.consecutive;
  executing = λ e. LastOpen-pop_front s.blocks (h.executing e) (h.committing l);
  committing = λ e. cc;
}

pub Step-Inv : {s t : SchedulerImpl} → Step s t → Inv s → Inv t
unfolding execute_block commit_block
Step-Inv {s} (executes number) h =
    if_elim Kept s.execute_locked _ _ (λ _. h) (λ _. execute_checked-Inv number s.blocks s refl h)
Step-Inv {s} (executed r l) h = execute_done-Inv r s h
Step-Inv {s} (commits number) h =
    if_elim Kept s.commit_locked _ _ (λ _. h) (λ _. commit_checked-Inv number s.blocks s refl h)
Step-Inv {s} (committed failed unread n l) h = commit_done-Inv failed unread n s l h

pub Reach-Inv : {s : SchedulerImpl} → Reach new_scheduler s → Inv s
Reach-Inv here = new_scheduler-Inv
Reach-Inv (next r st) = Step-Inv st (Reach-Inv r)
