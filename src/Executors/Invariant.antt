-- ===== src/Executors/Invariant.antt =====
-- How the maps, the queue and the contracts of the executors fit together, kept by each operation.
use mathlib.Core.List.{lookup}
use mathlib.Core.List.Memᴰ
use bcos_dispatcher.Base.{
  ℕ, ◌+◌, ◌<◌, ◌≡◌, refl, subst, ◌≢◌, inl, inr, if_pos, if_neg, Option, none, some, List, [], ◌∷◌,
  Memᴰ, Memᴰ-cons, arith, Option-cases, dec_memᴰ,
}
use bcos_dispatcher.Base.Text.{Text, Text-discrete}
use bcos_dispatcher.Executors.{
  ExecutorInfo, ExecutorManager, Outcome, returned, update, pop_least, emplace, add_executor,
  assign, dispatch_locked, dispatch_executor, no_executors,
}
use bcos_dispatcher.Executors.Maps.{
  Entries, Distinct, Once, find-emplace, Distinct-emplace, Popped, pop_least-Popped, pop_least-none,
}

not-Memᴰ-nil : (c : Text) → ¬ Memᴰ c []
not-Memᴰ-nil c m = Memᴰ.not-nil m

module _ {E : Type 0} where
  pub record Inv (m : ExecutorManager E) : Type 0 where
    -- an entry of a contract leads to a live executor that has the contract
    pub owned :
        (c : Text) (p : ℕ)
        → lookup Text-discrete c m.contract_to_info ≡ some p
        → Memᴰ p m.queue × Memᴰ c (m.heap p).contracts
    -- and each contract of a live executor has its entry
    pub mapped :
        (c : Text) (p : ℕ)
        → Memᴰ p m.queue
        → Memᴰ c (m.heap p).contracts
        → lookup Text-discrete c m.contract_to_info ≡ some p
    -- the queue holds the executors that have a name, under that name
    pub queued :
        (p : ℕ) → Memᴰ p m.queue → lookup Text-discrete (m.heap p).name m.name_to_info ≡ some p
    pub registered :
        (n : Text) (p : ℕ)
        → lookup Text-discrete n m.name_to_info ≡ some p
        → Memᴰ p m.queue × ((m.heap p).name ≡ n)
    -- a set holds each contract once
    pub sets : (p : ℕ) → Memᴰ p m.queue → Once (m.heap p).contracts
    pub distinct : Distinct m.name_to_info
    pub below : (p : ℕ) → Memᴰ p m.queue → p < m.fresh

  module _ (m : ExecutorManager E) (contract : Text) (p : ℕ) (rest : List ℕ) where
    -- The state after a contract is given to the executor at `p`.
    abbrev pub given : ExecutorManager E
    given = record m {
      heap = update m.heap p (record (m.heap p) { contracts = contract ∷ (m.heap p).contracts });
      queue = p ∷ rest;
      contract_to_info = emplace contract p m.contract_to_info;
    }

    assign-given :
        ¬ Memᴰ contract (m.heap p).contracts
        → assign contract p rest m ≡ (returned (m.heap p).executor, given)
    unfolding assign
    assign-given new = if_neg (dec_memᴰ Text-discrete contract (m.heap p).contracts) new _ _

    given-Inv :
        Inv m
        → lookup Text-discrete contract m.contract_to_info ≡ none
        → Popped m.heap m.queue p rest
        → Inv given
    given-Inv h unmapped popped = record {
      owned = λ c q e. ground (
        arith,
        find-emplace c contract p m.contract_to_info,
        h.owned c q,
        popped.members q,
        Memᴰ-cons c contract (m.heap p).contracts,
        popped.members p,
        Memᴰ-cons p p rest,
      );
      mapped = λ c q i j. ground (
        arith,
        find-emplace c contract p m.contract_to_info,
        h.mapped c q,
        popped.members q,
        Memᴰ-cons c contract (m.heap p).contracts,
        popped.members p,
        Memᴰ-cons p p rest,
      );
      queued = λ q i. ground (arith, h.queued q, popped.members q);
      registered = λ n q e. ground (arith, h.registered n q, popped.members q);
      sets = λ q i.
          ground (arith, h.sets q, h.mapped contract q ((popped.members q).1 i), popped.members q);
      distinct = h.distinct;
      below = λ q i. h.below q ((popped.members q).1 i);
    }

    -- The new contract is in no set yet, so the exception is not reached.
    pub assign_lem :
        Inv m
        → lookup Text-discrete contract m.contract_to_info ≡ none
        → Popped m.heap m.queue p rest
        → assign contract p rest m ≡ (returned (m.heap p).executor, given)
    assign_lem h unmapped popped =
        assign-given (λ i. cc (h.mapped contract p ((popped.members p).1 (Memᴰ.head refl)) i))

  -- An executor that was never removed is there to take a contract.
  nonempty :
      (m : ExecutorManager E) (e : Text × ℕ) (es : Entries)
      → Inv m
      → m.name_to_info ≡ e ∷ es
      → m.queue ≢ []
  unfolding lookup
  nonempty m (n, p) es h e q =
      Memᴰ.not-nil
        (subst (Memᴰ p) q (h.registered n p (rw e (if_pos (Text-discrete n n) refl _ _))).0)

  -- The three ways through `dispatchExecutor` where the maps fit together. None throws.
  pub data Dispatched (m : ExecutorManager E) (contract : Text)
      : Outcome (Option E) × ExecutorManager E → Type 0 where
    no_executor : m.name_to_info ≡ [] → Dispatched m contract (returned none, m)
    again :
        (p : ℕ)
        → lookup Text-discrete contract m.contract_to_info ≡ some p
        → Dispatched m contract (returned (m.heap p).executor, m)
    first :
        (p : ℕ) (rest : List ℕ)
        → lookup Text-discrete contract m.contract_to_info ≡ none
        → Popped m.heap m.queue p rest
        → Dispatched m contract (returned (m.heap p).executor, given m contract p rest)

  pub dispatch-Dispatched :
      (contract : Text) (m : ExecutorManager E)
      → Inv m
      → Dispatched m contract (dispatch_executor contract m)
  unfolding dispatch_executor dispatch_locked
  dispatch-Dispatched contract m h = go m.name_to_info refl
    where
      locked :
          (o : Option (ℕ × List ℕ))
          → pop_least m.heap m.queue ≡ o
          → m.queue ≢ []
          → lookup Text-discrete contract m.contract_to_info ≡ none
          → Dispatched m contract (dispatch_locked contract m)
      locked none e q u = absurd (q (pop_least-none m.heap m.queue e))
      locked (some (p, rest)) e q u =
          let popped = pop_least-Popped m.heap m.queue p rest e in
          rw (e, dispatch_locked)
            (rw (assign_lem m contract p rest h u popped) (first p rest u popped))

      found :
          (o : Option ℕ)
          → lookup Text-discrete contract m.contract_to_info ≡ o
          → m.queue ≢ []
          → Dispatched m contract (elim (lookup Text-discrete contract m.contract_to_info) [
            | some p ↦ (returned (m.heap p).executor, m)
            | none ↦ dispatch_locked contract m
          ])
      found (some p) e q = rw e (again p e)
      found none e q = rw e (locked (pop_least m.heap m.queue) refl q e)

      go :
          (es : Entries)
          → m.name_to_info ≡ es
          → Dispatched m contract (dispatch_executor contract m)
      go [] e = simp (e, dispatch_executor) (no_executor e)
      go (x ∷ es) e = simp (e, dispatch_executor) (found _ refl (nonempty m x es h e))

  Dispatched-Inv :
      {m : ExecutorManager E} {contract : Text} {r : Outcome (Option E) × ExecutorManager E}
      → Dispatched m contract r
      → Inv m
      → Inv r.1
  Dispatched-Inv (no_executor e) h = h
  Dispatched-Inv (again p e) h = h
  Dispatched-Inv {m} {contract} (first p rest u popped) h = given-Inv m contract p rest h u popped

  -- `dispatchExecutor` keeps the maps, the queue and the contracts of the executors together.
  pub dispatch-Inv :
      (contract : Text) (m : ExecutorManager E) → Inv m → Inv (dispatch_executor contract m).1
  dispatch-Inv contract m h = Dispatched-Inv (dispatch-Dispatched contract m h) h

  module _ (name : Text) (executor : Option E) (m : ExecutorManager E) (h : Inv m) where
    abbrev made : ExecutorManager E
    made = record m {
      heap = update m.heap m.fresh (record { name = name; executor = executor; contracts = [] });
      fresh = m.fresh + 1;
    }

    made-Inv : Inv made
    made-Inv = record {
      owned = λ c q e. ground (arith, h.owned c q, h.below q);
      mapped = λ c q i j. ground (arith, h.mapped c q, h.below q);
      queued = λ q i. ground (arith, h.queued q, h.below q);
      registered = λ n q e. ground (arith, h.registered n q, h.below q);
      sets = λ q i. ground (arith, h.sets q, h.below q);
      distinct = h.distinct;
      below = λ q i. omega (arith, h.below q i);
    }

    added-Inv :
        lookup Text-discrete name m.name_to_info ≡ none
        → Inv (record made {
          name_to_info = emplace name m.fresh m.name_to_info;
          queue = m.fresh ∷ m.queue;
        })
    added-Inv e = record {
      owned = λ c q l. ground (arith, h.owned c q, h.below q, Memᴰ-cons q m.fresh m.queue);
      mapped = λ c q i j.
          ground (arith, h.mapped c q, h.below q, Memᴰ-cons q m.fresh m.queue, not-Memᴰ-nil c);
      queued = λ q i. ground (
        arith,
        h.queued q,
        h.below q,
        Memᴰ-cons q m.fresh m.queue,
        find-emplace name name m.fresh m.name_to_info e,
        find-emplace (m.heap q).name name m.fresh m.name_to_info e,
      );
      registered = λ n q l. ground (
        arith,
        h.registered n q,
        h.below q,
        Memᴰ-cons q m.fresh m.queue,
        find-emplace n name m.fresh m.name_to_info e,
      );
      sets = λ q i. ground (arith, h.sets q, h.below q, Memᴰ-cons q m.fresh m.queue);
      distinct = Distinct-emplace name m.fresh m.name_to_info h.distinct;
      below = λ q i. ground (arith, h.below q, Memᴰ-cons q m.fresh m.queue);
    }

  -- `addExecutor` keeps the maps and the queue together, also where the name is taken.
  pub add-Inv :
      (name : Text) (executor : Option E) (m : ExecutorManager E)
      → Inv m
      → Inv (add_executor name executor m).1
  unfolding add_executor
  add-Inv name executor m h = elim (Option-cases (lookup Text-discrete name m.name_to_info)) [
    | inl e ↦ simp (e, add_executor) (added-Inv name executor m h e)
    | inr (p, e) ↦ simp (e, add_executor) (made-Inv name executor m h)
  ]

  pub no_executors-Inv : (blank : ExecutorInfo E) → Inv (no_executors blank)
  unfolding no_executors lookup
  no_executors-Inv blank = record {
    owned = λ c p e. cc;
    mapped = λ c p i j. absurd (Memᴰ.not-nil i);
    queued = λ p i. absurd (Memᴰ.not-nil i);
    registered = λ n p e. cc;
    sets = λ p i. absurd (Memᴰ.not-nil i);
    distinct = tt;
    below = λ p i. absurd (Memᴰ.not-nil i);
  }
