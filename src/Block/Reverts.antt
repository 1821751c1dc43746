-- ===== src/Block/Reverts.antt =====
-- What `checkBatch` does about dead locks after a batch that sent nothing.
use bcos_dispatcher.Base.{
  ◌≡◌, refl, ap, ◌∙◌, Bool, true, false, ◌&&◌, not, Option, none, some, List, [], ◌∷◌, ◌++◌, All,
  arith, ◌==◌, ltb, if◌then◌else◌, if_elim,
}
use bcos_dispatcher.Common.{SchedulerError}
use bcos_dispatcher.KeyLocks.{GraphKeyLocks}
use bcos_dispatcher.KeyLocks.Search.{DepthFirstVisit}
use bcos_dispatcher.KeyLocks.Deadlock.{detect_dead_lock}
use bcos_dispatcher.Batch.{is_over}
use bcos_dispatcher.Executive.{
  revert_key_lock, ExecutionMessage, ExecutiveState, TraverseHint, pass, end, Node, Traversed, keep,
  follow, visit, reinsert_all, traverse_executive,
}
use bcos_dispatcher.Block.{Batch, Block}
use bcos_dispatcher.Block.Check.{
  revert_first, find_dead_lock, traverse_and_call, is_nil, end_batch, check_batch,
}

-- Not to be skipped, and in a dead lock or not.
abbrev pub Locked : DepthFirstVisit → GraphKeyLocks → Bool → Node → Type 0
Locked visit_graph l locked n =
    (n.mapped.skip ≡ false) × (detect_dead_lock visit_graph n.mapped.context_id l ≡ locked)

-- The state with its message told to revert.
abbrev pub reverted : Node → ExecutionMessage → Node
reverted n m = record n {
  mapped = record n.mapped { message = some (record m { kind = revert_key_lock }) };
}

module _ (visit_graph : DepthFirstVisit) (l : GraphKeyLocks) where
  find_dead_lock-pass :
      (n : Node)
      → Locked visit_graph l false n
      → find_dead_lock visit_graph n.mapped l ≡ (some pass, n.mapped, l)
  unfolding find_dead_lock
  find_dead_lock-pass n h =
      let (unskipped, free) = h in
      if_elim (λ r. r ≡ (some pass, n.mapped, l)) n.mapped.skip _ _ (λ skipped. cc)
        (λ _.
          if_elim (λ r. r ≡ (some pass, n.mapped, l))
            (detect_dead_lock visit_graph n.mapped.context_id l) _ _ (λ locked. cc) (λ _. refl))

  find_dead_lock-end :
      (n : Node) (m : ExecutionMessage)
      → Locked visit_graph l true n
      → n.mapped.message ≡ some m
      → find_dead_lock visit_graph n.mapped l ≡ (some end, (reverted n m).mapped, l)
  unfolding find_dead_lock revert_first
  find_dead_lock-end n m h e =
      let (unskipped, locked) = h in
      if_elim (λ r. r ≡ (some end, (reverted n m).mapped, l)) n.mapped.skip _ _ (λ skipped. cc)
        (λ _.
          if_elim (λ r. r ≡ (some end, (reverted n m).mapped, l))
            (detect_dead_lock visit_graph n.mapped.context_id l) _ _
            (λ _. ap (λ o. (let (hint, x) = revert_first o n.mapped in (hint, x, l))) e)
            (λ free. cc))

  visit-first :
      (before : List Node) (n : Node) (m : ExecutionMessage) (later : List Node)
      → All (Locked visit_graph l false) before
      → Locked visit_graph l true n
      → n.mapped.message ≡ some m
      → visit (find_dead_lock visit_graph) (before ++ n ∷ later) none [] l ≡ record {
        kept = before ++ reverted n m ∷ later;
        update_nodes = [];
        state = l;
        thrown = false;
      }
  unfolding visit follow keep
  visit-first [] n m later h k e =
      ap
        (λ ((hint, mapped, s) : Option TraverseHint × ExecutiveState × GraphKeyLocks).
          follow hint (record n { mapped = mapped }) later
            (visit (find_dead_lock visit_graph) later) [] s)
        (find_dead_lock-end n m k e)
  visit-first (b ∷ before) n m later h k e =
      ap
        (λ ((hint, mapped, s) : Option TraverseHint × ExecutiveState × GraphKeyLocks).
          follow hint (record b { mapped = mapped }) (before ++ n ∷ later)
            (visit (find_dead_lock visit_graph) (before ++ n ∷ later)) [] s)
        (find_dead_lock-pass b h.0)
      ∙ ap (keep b) (visit-first before n m later h.1 k e)

is_nil_append :
    (before : List Node) (n : Node) (later : List Node) → is_nil (before ++ n ∷ later) ≡ false
is_nil_append [] n later = refl
is_nil_append (b ∷ before) n later = refl

-- If a batch has sent nothing and is over, no answer was an error, and no thread has called back yet, and
-- if a context whose state is not to be skipped and has a message is in a dead lock, and none of the
-- states before it is, or is to be skipped, then `checkBatch` calls back without an error, and all that it
-- does to the states and key locks is that the message of that context is told to revert.
pub check_batch-reverted :
    {E : Type 0} (visit_graph : DepthFirstVisit) (batch : Batch E) (before : List Node) (n : Node)
    (m : ExecutionMessage) (later : List Node)
    → is_over batch.status && not batch.status.callback_executed ≡ true
    → batch.status.error ≡ 0
    → batch.status.total ≡ 0
    → All (Locked visit_graph batch.key_locks false) before
    → Locked visit_graph batch.key_locks true n
    → n.mapped.message ≡ some m
    → check_batch visit_graph (record { states = before ++ n ∷ later; batch = batch }) ≡ (
      none ∷ [],
      record {
        states = before ++ reverted n m ∷ later;
        batch = record batch { status = record batch.status { callback_executed = true } };
      },
      false,
    )
unfolding check_batch end_batch traverse_and_call traverse_executive reinsert_all
check_batch-reverted {E} visit_graph batch before n m later over error total h k e =
    if_elim Reverts (is_over batch.status && not batch.status.callback_executed) _ _
      (λ _.
        if_elim Reverts (ltb 0 batch.status.error) _ _ (λ failed. absurd (no_error failed))
          (λ _.
            if_elim Reverts (batch.status.total == 0 && not (is_nil (before ++ n ∷ later))) _ _
              (λ _. ap called (visit-first visit_graph batch.key_locks before n m later h k e))
              (λ some_sent. absurd (none_sent some_sent))))
      (λ waiting. cc)
  where
    closed : Batch E
    closed = record batch { status = record batch.status { callback_executed = true } }

    Reverts : List (Option SchedulerError) × Block E × Bool → Type 0
    Reverts r =
        r ≡ (none ∷ [], record { states = before ++ reverted n m ∷ later; batch = closed }, false)

    called : Traversed GraphKeyLocks → List (Option SchedulerError) × Block E × Bool
    called v = (
      (if v.thrown then [] else none ∷ []),
      record {
        states = if v.thrown then v.kept else reinsert_all v.update_nodes v.kept;
        batch = record closed { key_locks = v.state };
      },
      v.thrown,
    )

    no_error : ¬ (ltb 0 batch.status.error ≡ true)
    no_error failed = ground arith

    none_sent : ¬ (batch.status.total == 0 && not (is_nil (before ++ n ∷ later)) ≡ false)
    none_sent some_sent = ground (arith, is_nil_append before n later)
