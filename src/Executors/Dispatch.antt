-- ===== src/Executors/Dispatch.antt =====
-- Which executor a contract gets from `dispatchExecutor`.
use mathlib.Core.List.{lookup}
use bcos_dispatcher.Base.{
  ℕ, ◌+◌, ◌≤◌, ◌≡◌, refl, sym, ap, ◌∙◌, ◌≢◌, inl, inr, Option, none, some, List, [], ◌∷◌, Memᴰ,
  arith, List-cases,
}
use bcos_dispatcher.Base.Text.{Text, Text-discrete}
use bcos_dispatcher.Executors.{ExecutorManager, Outcome, returned, load, dispatch_executor}
use bcos_dispatcher.Executors.Maps.{find-emplace}
use bcos_dispatcher.Executors.Invariant.{
  Inv, Dispatched, no_executor, again, first, dispatch-Dispatched, dispatch-Inv,
}

module _ {E : Type 0} where
  -- The call returns, and no exception is thrown.
  returned_of :
      {m : ExecutorManager E} {contract : Text} {r : Outcome (Option E) × ExecutorManager E}
      → Dispatched m contract r
      → (e : Option E) × (r.0 ≡ returned e)
  returned_of (no_executor e) = (none, refl)
  returned_of {m} (again p e) = ((m.heap p).executor, refl)
  returned_of {m} (first p rest u popped) = ((m.heap p).executor, refl)

  -- A contract that has an executor keeps it, and its name and pointer stay.
  keeps :
      {m : ExecutorManager E} {contract : Text} {r : Outcome (Option E) × ExecutorManager E}
      → Dispatched m contract r
      → (c : Text) (p : ℕ) → lookup Text-discrete c m.contract_to_info ≡ some p
      → (lookup Text-discrete c r.1.contract_to_info ≡ some p)
        × ((r.1.heap p).executor ≡ (m.heap p).executor)
  keeps (no_executor e) c p h = (h, refl)
  keeps (again q e) c p h = (h, refl)
  keeps {m} {contract} (first q rest u popped) c p h =
      ground (arith, find-emplace c contract q m.contract_to_info)

  -- Where some executor is there, the contract has an entry afterwards, and the call returned its executor.
  settles :
      {m : ExecutorManager E} {contract : Text} {r : Outcome (Option E) × ExecutorManager E}
      → Dispatched m contract r
      → m.name_to_info ≢ []
      → (p : ℕ) × (lookup Text-discrete contract r.1.contract_to_info ≡ some p)
        × (r.0 ≡ returned (r.1.heap p).executor)
        × (r.1.name_to_info ≢ [])
  settles (no_executor e) n = absurd (n e)
  settles (again p e) n = (p, e, refl, n)
  settles {m} {contract} (first p rest u popped) n =
      (p, ground (arith, find-emplace contract contract p m.contract_to_info), ground arith, n)

  settled_again :
      {m : ExecutorManager E} {contract : Text} {r : Outcome (Option E) × ExecutorManager E}
      → Dispatched m contract r
      → m.name_to_info ≢ []
      → (p : ℕ) → lookup Text-discrete contract m.contract_to_info ≡ some p
      → r.0 ≡ returned (m.heap p).executor
  settled_again (no_executor e) n p h = absurd (n e)
  settled_again (again q e) n p h = ground arith
  settled_again (first q rest u popped) n p h = cc

  same_names :
      {m : ExecutorManager E} {contract : Text} {r : Outcome (Option E) × ExecutorManager E}
      → Dispatched m contract r
      → r.1.name_to_info ≡ m.name_to_info
  same_names (no_executor e) = refl
  same_names (again q e) = refl
  same_names (first q rest u popped) = refl

  -- A run of calls.
  unfoldable pub dispatch_all : List Text → ExecutorManager E → ExecutorManager E
  dispatch_all [] m = m
  dispatch_all (c ∷ cs) m = dispatch_all cs (dispatch_executor c m).1

  pub dispatch_all-Inv : (cs : List Text) (m : ExecutorManager E) → Inv m → Inv (dispatch_all cs m)
  unfolding dispatch_all
  dispatch_all-Inv [] m h = h
  dispatch_all-Inv (c ∷ cs) m h = dispatch_all-Inv cs (dispatch_executor c m).1 (dispatch-Inv c m h)

  -- Its last contract has an executor already, which every call keeps.
  last_again :
      (cs : List Text) (m : ExecutorManager E) (c : Text) (p : ℕ)
      → Inv m
      → m.name_to_info ≢ []
      → lookup Text-discrete c m.contract_to_info ≡ some p
      → (dispatch_executor c (dispatch_all cs m)).0 ≡ returned (m.heap p).executor
  unfolding dispatch_all
  last_again [] m c p h n e = settled_again (dispatch-Dispatched c m h) n p e
  last_again (d ∷ cs) m c p h n e =
      let r = dispatch-Dispatched d m h in
      let (e', same) = keeps r c p e in
      last_again cs (dispatch_executor d m).1 c p (dispatch-Inv d m h)
        (λ z. n (sym (same_names r) ∙ z)) e'
      ∙ ap returned same

  none_again :
      (cs : List Text) (m : ExecutorManager E) (c : Text)
      → Inv m
      → m.name_to_info ≡ []
      → (dispatch_executor c (dispatch_all cs m)).0 ≡ returned none
  unfolding dispatch_all dispatch_executor
  none_again [] m c h n = simp (n, dispatch_executor)
  none_again (d ∷ cs) m c h n =
      none_again cs (dispatch_executor d m).1 c (dispatch-Inv d m h)
        (same_names (dispatch-Dispatched d m h) ∙ n)

  -- Calls for the same contract return the same executor, whatever calls stand between them, and
  -- none of them throws.
  pub dispatch_sticky :
      (m : ExecutorManager E) (c : Text) (cs : List Text)
      → Inv m
      → (e : Option E) × ((dispatch_executor c m).0 ≡ returned e)
        × ((dispatch_executor c (dispatch_all cs (dispatch_executor c m).1)).0 ≡ returned e)
  dispatch_sticky m c cs h = elim (List-cases m.name_to_info) [
    | inl none_there ↦ (
      none,
      unfold dispatch_all in (none_again [] m c h none_there),
      none_again cs (dispatch_executor c m).1 c (dispatch-Inv c m h)
          (same_names (dispatch-Dispatched c m h) ∙ none_there),
    )
    | inr (x, xs, there) ↦
        let r = dispatch-Dispatched c m h in
        let (p, e, value, n) = settles r (λ z. cc) in
        (_, value, last_again cs (dispatch_executor c m).1 c p (dispatch-Inv c m h) n e)
  ]

  -- The numbers of contracts differ by at most one.
  abbrev pub Balanced : ExecutorManager E → Type 0
  Balanced m = (p q : ℕ) → Memᴰ p m.queue → Memᴰ q m.queue → load m.heap p ≤ load m.heap q + 1

  Dispatched-Balanced :
      {m : ExecutorManager E} {contract : Text} {r : Outcome (Option E) × ExecutorManager E}
      → Dispatched m contract r
      → Balanced m
      → Balanced r.1
  Dispatched-Balanced (no_executor e) b = b
  Dispatched-Balanced (again q e) b = b
  Dispatched-Balanced (first x rest u popped) b = λ p q i j.
      let i' = (popped.members p).1 i in
      let j' = (popped.members q).1 j in
      ground (arith, b p q i' j', popped.least p i', popped.least q j')

  -- A run of calls on executors with equally many contracts leaves them with numbers that differ by
  -- at most one.
  pub dispatch_all-Balanced :
      (cs : List Text) (m : ExecutorManager E) → Inv m → Balanced m → Balanced (dispatch_all cs m)
  unfolding dispatch_all
  dispatch_all-Balanced [] m h b = b
  dispatch_all-Balanced (c ∷ cs) m h b =
      dispatch_all-Balanced cs (dispatch_executor c m).1 (dispatch-Inv c m h)
        (Dispatched-Balanced (dispatch-Dispatched c m h) b)
