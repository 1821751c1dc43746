-- ===== src/Block/Refines.antt =====
-- `checkBatch` with all that it does to a block: its contract, and the part of it that `Batch` states alone.
use bcos_dispatcher.Base.{
  ℕ, ◌⊎◌, ◌≢◌, ◌<◌, inl, inr, sym, subst, Bool-cases, ◌≡◌, refl, ◌∙◌, Bool, true, false, not, ◌&&◌,
  Option, none, some, List, [], ◌∷◌, ltb, ◌==◌, if◌then◌else◌, if_elim, arith, ap,
}
use bcos_dispatcher.Common.{SchedulerError, batch_error}
use bcos_dispatcher.KeyLocks.{GraphKeyLocks}
use bcos_dispatcher.KeyLocks.Search.{DepthFirstVisit}
use bcos_dispatcher.Batch
use bcos_dispatcher.Batch.{BatchStatus, is_over}
use bcos_dispatcher.Executive.{ExecutiveState}
use bcos_dispatcher.Executive.Counts.{Callback, Inv, copies}
use bcos_dispatcher.Executive.Preserved.{copies-traverse_executive}
use bcos_dispatcher.Block.{Block}
use bcos_dispatcher.Block.Check.{
  order, find_dead_lock, is_nil, traverse_and_call, end_batch, check_batch,
}
use bcos_dispatcher.Block.Orders.{Orders, order-Orders, find_dead_lock-Orders, Careful-of_Orders}

-- The batch is over, and no thread has called back.
abbrev pub Over : BatchStatus → Type 0
Over s = (s.all_sended ≡ true) × (s.received ≡ s.total) × (s.callback_executed ≡ false)

-- The block behind the exchange of `callbackExecuted`.
abbrev pub exchanged : {E : Type 0} → Block E → Block E
exchanged b = record b {
  batch = record b.batch { status = record b.batch.status { callback_executed = true } };
}

-- What `checkBatch` owes: the call backs, the block, and whether an exception leaves it.
pub record Contract {E : Type 0} (b : Block E) (r : List (Option SchedulerError) × Block E × Bool)
    : Type 0 where
  -- while messages are to be sent or answers to come, and once a thread has called back, it does nothing
  pub waits :
      (b.batch.status.all_sended ≡ false)
        ⊎ ((b.batch.status.received ≢ b.batch.status.total)
            ⊎ (b.batch.status.callback_executed ≡ true))
      → r ≡ ([], b, false)
  -- else it notes that it calls back, also where an exception comes before that
  pub notes :
      Over b.batch.status → r.1.batch.status ≡ record b.batch.status { callback_executed = true }
  -- an error among the answers is called back at once, and the states and key locks stay
  pub fails :
      Over b.batch.status
      → 0 < b.batch.status.error
      → r ≡ (some batch_error ∷ [], exchanged b, false)
  -- without an error it calls back once, unless an exception comes before that
  pub passes :
      Over b.batch.status → b.batch.status.error ≡ 0 → r.0 ≡ (if r.2 then [] else none ∷ [])
  -- no context is lost or added, unless an exception leaves it
  pub keeps : Inv b.states → r.2 ≡ false → (c : ℕ) → copies c r.1.states ≡ copies c b.states
  -- and the status and the call backs are those of the batch alone, with the same exception
  pub refines : Batch.check_batch r.2 b.batch.status ≡ (r.0, r.1.batch.status)

module _ {E : Type 0} where
  -- What a traversal leaves behind the exchange.
  abbrev Traverses : Block E → List (Option SchedulerError) × Block E × Bool → Type 0
  Traverses b r =
      (r.1.batch.status ≡ b.batch.status)
      × (r.0 ≡ (if r.2 then [] else none ∷ []))
      × (Inv b.states → r.2 ≡ false → (c : ℕ) → copies c r.1.states ≡ copies c b.states)

  traverse_and_call-Traverses :
      (callback : Callback GraphKeyLocks) (b : Block E)
      → ((x : ExecutiveState) (l : GraphKeyLocks) → Orders x.message x.context_id (callback x l))
      → Traverses b (traverse_and_call callback b)
  unfolding traverse_and_call
  traverse_and_call-Traverses callback b o = (
    refl,
    refl,
    λ inv e c.
        copies-traverse_executive callback (Careful-of_Orders callback o) b.states b.batch.key_locks
          inv (λ x l. (o x l).1) e c,
  )

  module _ (visit : DepthFirstVisit) where
    end_batch-Traverses : (b : Block E) → b.batch.status.error ≡ 0 → Traverses b (end_batch visit b)
    unfolding end_batch
    end_batch-Traverses b h =
        if_elim (Traverses b) (ltb 0 b.batch.status.error) _ _ (λ e. absurd (ground arith))
          (λ _.
            if_elim (Traverses b) (b.batch.status.total == 0 && not (is_nil b.states)) _ _
              (λ _.
                traverse_and_call-Traverses (find_dead_lock visit) b (find_dead_lock-Orders visit))
              (λ _. traverse_and_call-Traverses order b order-Orders))

    end_batch-fails :
        (b : Block E)
        → 0 < b.batch.status.error
        → end_batch visit b ≡ (some batch_error ∷ [], b, false)
    unfolding end_batch
    end_batch-fails b h = ground arith

    abbrev guarded : Block E → Bool
    guarded b = is_over b.batch.status && not b.batch.status.callback_executed

    guarded-Over : (b : Block E) → guarded b ≡ true → Over b.batch.status
    guarded-Over b h = ground arith

    Over-guarded : (b : Block E) → Over b.batch.status → guarded b ≡ true
    Over-guarded b h = ground arith

    check_batch-waits : (b : Block E) → guarded b ≡ false → check_batch visit b ≡ ([], b, false)
    unfolding check_batch
    check_batch-waits b h = rw (check_batch, h) refl

    check_batch-ends :
        (b : Block E) → guarded b ≡ true → check_batch visit b ≡ end_batch visit (exchanged b)
    unfolding check_batch
    check_batch-ends b h = rw (check_batch, h) refl

    waiting-Contract : (b : Block E) → guarded b ≡ false → Contract b ([], b, false)
    unfolding Batch.check_batch
    waiting-Contract b h = record {
      waits = λ w. refl;
      notes = λ o. absurd (not_over o);
      fails = λ o e. absurd (not_over o);
      passes = λ o e. absurd (not_over o);
      keeps = λ inv e c. refl;
      refines = ground arith;
    }
      where
        not_over : ¬ Over b.batch.status
        not_over o = let over = Over-guarded b o in cc

    -- A batch that has to wait is not over.
    not_waiting :
        (b : Block E)
        → guarded b ≡ true
        → ¬ (
            (b.batch.status.all_sended ≡ false)
            ⊎ ((b.batch.status.received ≢ b.batch.status.total)
                ⊎ (b.batch.status.callback_executed ≡ true)))
    not_waiting b h w = let (sent, all, fresh) = guarded-Over b h in ground arith

    failed-Contract :
        (b : Block E)
        → guarded b ≡ true
        → 0 < b.batch.status.error
        → Contract b (some batch_error ∷ [], exchanged b, false)
    unfolding Batch.check_batch
    failed-Contract b h e = record {
      waits = λ w. absurd (not_waiting b h w);
      notes = λ o. refl;
      fails = λ o p. refl;
      passes = λ o p. absurd (omega arith);
      keeps = λ inv p c. refl;
      refines = ground arith;
    }

    passed-Contract :
        (b : Block E) (r : List (Option SchedulerError) × Block E × Bool)
        → guarded b ≡ true
        → b.batch.status.error ≡ 0
        → Traverses (exchanged b) r
        → Contract b r
    unfolding Batch.check_batch
    passed-Contract b r h e (status, called, kept) = record {
      waits = λ w. absurd (not_waiting b h w);
      notes = λ o. status;
      fails = λ o p. absurd (omega arith);
      passes = λ o p. called;
      keeps = kept;
      refines = ground arith;
    }

    ended-Contract : (b : Block E) → guarded b ≡ true → Contract b (end_batch visit (exchanged b))
    ended-Contract b h = elim (Bool-cases (ltb 0 b.batch.status.error)) [
      | inl e ↦
          subst (Contract b) (sym (end_batch-fails (exchanged b) (ground arith)))
            (failed-Contract b h (ground arith))
      | inr e ↦
          passed-Contract b (end_batch visit (exchanged b)) h (ground arith)
            (end_batch-Traverses (exchanged b) (ground arith))
    ]

    -- `checkBatch` keeps its contract in every state of a block: while messages are to be sent or answers to
    -- come, and once a thread has called back, it does nothing; else it notes that it calls back, calls back
    -- an error at once if an answer was one, and without an error calls back once, unless an exception
    -- comes before that; it loses no context and adds none, if no context is in the map twice, the keys
    -- name the contexts and no exception leaves it; and its status and call backs are those of the batch
    -- alone.
    pub check_batch-Contract : (b : Block E) → Contract b (check_batch visit b)
    check_batch-Contract b = elim (Bool-cases (guarded b)) [
      | inl h ↦ subst (Contract b) (sym (check_batch-ends b h)) (ended-Contract b h)
      | inr h ↦ subst (Contract b) (sym (check_batch-waits b h)) (waiting-Contract b h)
    ]

    thrown-guarded : (b : Block E) → (check_batch visit b).2 ≡ true → guarded b ≡ true
    thrown-guarded b h = elim (Bool-cases (guarded b)) [
      | inl g ↦ g
      | inr g ↦ let quiet = ap (λ r. r.2) (check_batch-waits b g) in cc
    ]

    thrown-error : (b : Block E) → (check_batch visit b).2 ≡ true → b.batch.status.error ≡ 0
    thrown-error b h = elim (Bool-cases (ltb 0 b.batch.status.error)) [
      | inl e ↦
          let quiet =
            ap (λ r. r.2)
              ((check_batch-Contract b).fails (guarded-Over b (thrown-guarded b h))
                (ground arith)) in
          cc
      | inr e ↦ ground arith
    ]

    check_batch-executed :
        (b : Block E)
        → b.batch.status.callback_executed ≡ true
        → check_batch visit b ≡ ([], b, false)
    unfolding check_batch
    check_batch-executed b h = ground arith

  -- Once an exception has left `checkBatch`, nothing has been called back, and no later check of that
  -- batch calls back.
  pub check_batch-lost :
      (visit visit' : DepthFirstVisit) (b : Block E)
      → (check_batch visit b).2 ≡ true
      → ((check_batch visit b).0 ≡ [])
        × (check_batch visit' (check_batch visit b).1 ≡ ([], (check_batch visit b).1, false))
  check_batch-lost visit visit' b h =
      let over = guarded-Over visit b (thrown-guarded visit b h) in
      let contract = check_batch-Contract visit b in
      (
        contract.passes over (thrown-error visit b h) ∙ rw h,
        check_batch-executed visit' (check_batch visit b).1
            (ap (λ (st : BatchStatus). st.callback_executed) (contract.notes over)),
      )
