-- ===== src/Executors/Remove.antt =====
-- What `removeExecutor` does to the maps and the queue.
use mathlib.Core.List.{lookup}
use mathlib.Core.List.Memᴰ
use bcos_dispatcher.Base.{
  ℕ, ◌≡◌, refl, ◌≢◌, ◌↔◌, inl, inr, none, some, List, [], ◌∷◌, map, Memᴰ, Memᴰ-cons, arith,
  Option-cases, subst,
}
use bcos_dispatcher.Base.Text.{Text, Text-discrete}
use bcos_dispatcher.Executors.{
  ExecutorManager, Outcome, returned, executor_exists, insert_fail, executor_missing,
  contract_missing, undefined, erase, erase_contracts, remove_found, remove_executor,
}
use bcos_dispatcher.Executors.Maps.{Entries, Once, find-erase, Distinct-erase, find-mem, mem-find}
use bcos_dispatcher.Executors.Invariant.{Inv}

-- With an entry for each contract the loop ends by no exception, and takes exactly their entries out.
erase_contracts_lem :
    (cs : List Text) (entries : Entries)
    → Once cs
    → ((c : Text) → Memᴰ c cs → lookup Text-discrete c entries ≢ none)
    → ((erase_contracts cs entries).0 ≡ returned tt)
      × ((c : Text) (p : ℕ)
          → (lookup Text-discrete c (erase_contracts cs entries).1 ≡ some p)
            ↔ ((lookup Text-discrete c entries ≡ some p) × ¬ Memᴰ c cs))
unfolding erase_contracts
erase_contracts_lem [] entries once there = (refl, λ c p. (λ h. (h, λ m. Memᴰ.not-nil m), λ h. h.0))
erase_contracts_lem (c ∷ cs) entries once there =
    elim (Option-cases (lookup Text-discrete c entries)) [
      | inl e ↦ absurd (there c (Memᴰ.head refl) e)
      | inr (p, e) ↦
          let (ok, found) = erase_contracts_lem cs (erase c entries) once.1 others in
          rw (e, erase_contracts)
            (ok, λ d q. ground (arith, found d q, find-erase d c entries, Memᴰ-cons d c cs))
    ]
  where
    others : (d : Text) → Memᴰ d cs → lookup Text-discrete d (erase c entries) ≢ none
    others d m q = ground (
      arith,
      there d (Memᴰ.tail m),
      find-erase d c entries,
      λ (x : d ≡ c). once.0 (subst (λ y. Memᴰ y cs) x m),
    )

remove_found-returned :
    {E : Type 0} (name : Text) (m : ExecutorManager E) (r : Outcome (Unit {0}) × Entries)
    → r.0 ≡ returned tt
    → remove_found name r m ≡ (
      returned tt,
      record m {
        contract_to_info = r.1;
        name_to_info = erase name m.name_to_info;
        queue = map (λ e. e.1) (erase name m.name_to_info);
      },
    )
unfolding remove_found
remove_found-returned name m (returned _, es) h = refl
remove_found-returned name m (executor_exists, es) h = cc
remove_found-returned name m (insert_fail, es) h = cc
remove_found-returned name m (contract_missing, es) h = cc
remove_found-returned name m (executor_missing, es) h = cc
remove_found-returned name m (undefined, es) h = cc

module _ {E : Type 0} (m : ExecutorManager E) (name : Text) (p : ℕ) (h : Inv m)
    (named : lookup Text-discrete name m.name_to_info ≡ some p) where
  abbrev kept : Entries
  kept = (erase_contracts (m.heap p).contracts m.contract_to_info).1

  abbrev names : Entries
  names = erase name m.name_to_info

  -- The manager without the executor at `p`.
  abbrev pub without : ExecutorManager E
  without = record m { contract_to_info = kept; name_to_info = names; queue = map (λ e. e.1) names }

  member : Memᴰ p m.queue
  member = (h.registered name p named).0

  loop_lem :
      ((erase_contracts (m.heap p).contracts m.contract_to_info).0 ≡ returned tt)
      × ((c : Text) (q : ℕ)
          → (lookup Text-discrete c kept ≡ some q) ↔ (
              (lookup Text-discrete c m.contract_to_info ≡ some q) × ¬ Memᴰ c (m.heap p).contracts))
  loop_lem =
      erase_contracts_lem (m.heap p).contracts m.contract_to_info (h.sets p member)
        (λ c i e. cc (h.mapped c p member i))

  entries_lem :
      (c : Text) (q : ℕ)
      → (lookup Text-discrete c kept ≡ some q)
        ↔ ((lookup Text-discrete c m.contract_to_info ≡ some q) × (q ≢ p))
  entries_lem c q = ground (arith, loop_lem.1 c q, h.owned c q, h.mapped c p member)

  queue_lem : (q : ℕ) → Memᴰ q without.queue ↔ (Memᴰ q m.queue × (q ≢ p))
  queue_lem q = (
    λ i.
        let (n, e) = mem-find q names (Distinct-erase name m.name_to_info h.distinct) i in
        ground (arith, find-erase n name m.name_to_info, h.registered n q, h.registered name p),
    λ (i, n).
        find-mem (m.heap q).name q names
          (ground (arith, find-erase (m.heap q).name name m.name_to_info, h.queued q i)),
  )

  without-Inv : Inv without
  without-Inv = record {
    owned = λ c q e. ground (arith, entries_lem c q, queue_lem q, h.owned c q);
    mapped = λ c q i j. ground (arith, entries_lem c q, queue_lem q, h.mapped c q);
    queued = λ q i.
        ground (arith, queue_lem q, h.queued q, find-erase (m.heap q).name name m.name_to_info);
    registered = λ n q e. ground (
      arith,
      queue_lem q,
      h.registered n q,
      h.registered name p,
      find-erase n name m.name_to_info,
    );
    sets = λ q i. h.sets q ((queue_lem q).0 i).0;
    distinct = Distinct-erase name m.name_to_info h.distinct;
    below = λ q i. h.below q ((queue_lem q).0 i).0;
  }

  remove-without : remove_executor name m ≡ (returned tt, without)
  unfolding remove_executor
  remove-without =
      rw (named, remove_executor)
        (remove_found-returned name m (erase_contracts (m.heap p).contracts m.contract_to_info)
          loop_lem.0)

  -- `removeExecutor` of a name that is there throws nothing. The executor leaves the queue and its
  -- contracts have no entry any more, all others stay, and the maps still fit together.
  pub remove_executor_lem :
      let (outcome, m') = remove_executor name m in
      (outcome ≡ returned tt)
      × Inv m'
      × ((q : ℕ) → Memᴰ q m'.queue ↔ (Memᴰ q m.queue × (q ≢ p)))
      × ((c : Text) (q : ℕ)
          → (lookup Text-discrete c m'.contract_to_info ≡ some q)
            ↔ ((lookup Text-discrete c m.contract_to_info ≡ some q) × (q ≢ p)))
  remove_executor_lem = rw remove-without (refl, without-Inv, queue_lem, entries_lem)
