-- ===== src/Executors/Race.antt =====
-- Two threads in `dispatchExecutor` that both look a new contract up before either has the lock: each then
-- runs the part behind the lock, one after the other.
use mathlib.Core.List.{lookup}
use bcos_dispatcher.Base.{
  ℕ, ◌≡◌, ◌≢◌, ◌⊎◌, refl, sym, subst, ap, ◌∙◌, inl, inr, if_pos, if_neg, ℕ_discrete, Option, none,
  some, List, ◌∷◌, Memᴰ, dec_memᴰ,
}
use bcos_dispatcher.Base.Text.{Text, Text-discrete}
use bcos_dispatcher.Executors.{
  ExecutorInfo, ExecutorManager, Outcome, returned, insert_fail, pop_least, emplace, assign,
  dispatch_locked,
}
use bcos_dispatcher.Executors.Maps.{find-emplace, pop_least-Popped}
use bcos_dispatcher.Executors.Invariant.{Inv, given, assign_lem}

-- What the second thread finds: it throws, and the executor it popped is gone from the queue; or it returns
-- another executor than the first, though the contract leads to that.
abbrev pub Raced :
    {E : Type 0}
    → Text
    → ℕ
    → ℕ
    → List ℕ
    → ExecutorManager E
    → Outcome (Option E) × ExecutorManager E
    → Type 0
Raced contract p q rest m r =
    ((q ≡ p) × (r.0 ≡ insert_fail) × (r.1.queue ≡ rest))
    ⊎ ((q ≢ p)
        × (r.0 ≡ returned (m.heap q).executor)
        × (lookup Text-discrete contract r.1.contract_to_info ≡ some p)
        × Memᴰ contract (r.1.heap q).contracts)

emplace_taken :
    (contract : Text) (q p : ℕ) (entries : List (Text × ℕ))
    → lookup Text-discrete contract entries ≡ some p
    → emplace contract q entries ≡ entries
unfolding emplace
emplace_taken contract q p entries e = rw (emplace, e) refl

module _ {E : Type 0} where
  locked_lem :
      (contract : Text) (m : ExecutorManager E) (p : ℕ) (rest : List ℕ)
      → pop_least m.heap m.queue ≡ some (p, rest)
      → dispatch_locked contract m ≡ assign contract p rest m
  unfolding dispatch_locked
  locked_lem contract m p rest e = rw (dispatch_locked, e) refl

  leads :
      (contract : Text) (m : ExecutorManager E) (p : ℕ) (rest : List ℕ)
      → lookup Text-discrete contract m.contract_to_info ≡ none
      → lookup Text-discrete contract (given m contract p rest).contract_to_info ≡ some p
  leads contract m p rest u =
      find-emplace contract contract p m.contract_to_info u
      ∙ if_pos (Text-discrete contract contract) refl _ _

  heap_same :
      (contract : Text) (m : ExecutorManager E) (p : ℕ) (rest : List ℕ)
      → ((given m contract p rest).heap p).contracts ≡ contract ∷ (m.heap p).contracts
  heap_same contract m p rest =
      ap (λ (i : ExecutorInfo E). i.contracts) (if_pos (ℕ_discrete p p) refl _ (m.heap p))

  heap_other :
      (contract : Text) (m : ExecutorManager E) (p q : ℕ) (rest : List ℕ)
      → q ≢ p
      → (given m contract p rest).heap q ≡ m.heap q
  heap_other contract m p q rest h = if_neg (ℕ_discrete p q) (λ e. h (sym e)) _ (m.heap q)

  second_same :
      (contract : Text) (m : ExecutorManager E) (p : ℕ) (rest rest' : List ℕ)
      → assign contract p rest' (given m contract p rest)
        ≡ (insert_fail, record (given m contract p rest) { queue = rest' })
  unfolding assign
  second_same contract m p rest rest' =
      if_pos (dec_memᴰ Text-discrete contract ((given m contract p rest).heap p).contracts)
        (subst (Memᴰ contract) (sym (heap_same contract m p rest)) (Memᴰ.head refl)) _ _

  second_other :
      (contract : Text) (m : ExecutorManager E) (q : ℕ) (rest : List ℕ)
      → ¬ Memᴰ contract (m.heap q).contracts
      → assign contract q rest m ≡ (returned (m.heap q).executor, given m contract q rest)
  unfolding assign
  second_other contract m q rest new =
      if_neg (dec_memᴰ Text-discrete contract (m.heap q).contracts) new _ _

  -- Under the invariant, if two threads look a new contract up before either has the lock, the first
  -- assigns it as it does alone. If the queue gives the second the same executor, the second throws, and
  -- the executor is lost to the queue; else it returns the executor of another entry, whose set then has
  -- the contract although the contract leads to the entry of the first.
  pub dispatch_locked-Raced :
      (contract : Text) (m : ExecutorManager E) (p q : ℕ) (rest rest' : List ℕ)
      → Inv m
      → lookup Text-discrete contract m.contract_to_info ≡ none
      → pop_least m.heap m.queue ≡ some (p, rest)
      → pop_least (given m contract p rest).heap (given m contract p rest).queue ≡ some (q, rest')
      → (dispatch_locked contract m ≡ (returned (m.heap p).executor, given m contract p rest))
        × Raced contract p q rest' m (dispatch_locked contract (given m contract p rest))
  dispatch_locked-Raced contract m p q rest rest' h u first second = (
    locked_lem contract m p rest first
        ∙ assign_lem m contract p rest h u (pop_least-Popped m.heap m.queue p rest first),
    elim (ℕ_discrete q p) [ yes e ↦ inl (same e) | no e ↦ inr (other e) ],
  )
    where
      m' : ExecutorManager E
      m' = given m contract p rest

      ran : dispatch_locked contract m' ≡ assign contract q rest' m'
      ran = locked_lem contract m' q rest' second

      same :
          (e : q ≡ p)
          → (q ≡ p)
            × ((dispatch_locked contract m').0 ≡ insert_fail)
            × ((dispatch_locked contract m').1.queue ≡ rest')
      same e =
          let threw =
            ran ∙ ap (λ x. assign contract x rest' m') e ∙ second_same contract m p rest rest' in
          (e, ap (λ r. r.0) threw, ap (λ r. r.1.queue) threw)

      queued : Memᴰ q m.queue
      queued =
          ((pop_least-Popped m.heap m.queue p rest first).members q).1
            (((pop_least-Popped m'.heap m'.queue q rest' second).members q).1 (Memᴰ.head refl))

      unheld : q ≢ p → ¬ Memᴰ contract (m'.heap q).contracts
      unheld ne i =
          let held : Memᴰ contract (m.heap q).contracts =
            subst (λ (x : ExecutorInfo E). Memᴰ contract x.contracts)
              (heap_other contract m p q rest ne) i in
          let mapped = h.mapped contract q queued held in cc

      other :
          (ne : q ≢ p)
          → (q ≢ p)
            × ((dispatch_locked contract m').0 ≡ returned (m.heap q).executor)
            × (lookup Text-discrete contract (dispatch_locked contract m').1.contract_to_info
                ≡ some p)
            × Memᴰ contract ((dispatch_locked contract m').1.heap q).contracts
      other ne =
          let got = ran ∙ second_other contract m' q rest' (unheld ne) in
          (
            ne,
            ap (λ r. r.0) got
                ∙ ap (λ (x : ExecutorInfo E). returned x.executor)
                    (heap_other contract m p q rest ne),
            ap (λ r. lookup Text-discrete contract r.1.contract_to_info) got
                ∙ ap (lookup Text-discrete contract)
                    (emplace_taken contract q p m'.contract_to_info (leads contract m p rest u))
                ∙ leads contract m p rest u,
            subst (λ r. Memᴰ contract (r.1.heap q).contracts) (sym got)
                (subst (Memᴰ contract) (sym (heap_same contract m' q rest')) (Memᴰ.head refl)),
          )
