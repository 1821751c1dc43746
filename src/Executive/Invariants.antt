-- ===== src/Executive/Invariants.antt =====
-- What a callback keeps of its own state, and of the states of the contexts, a traversal keeps too.
use bcos_dispatcher.Base.{ℕ, ◌≡◌, ap, true, Option, none, some, List, [], ◌∷◌, All, if_elim}
use bcos_dispatcher.Executive.{
  ExecutionMessage, ExecutiveState, TraverseHint, pass, delete, skip_contract, update, end, Node,
  Traversed, keep, follow, visit, reinsert, reinsert_all, traverse_executive,
}
use bcos_dispatcher.Executive.Counts.{Callback, after, visit-elim}
use bcos_dispatcher.Executive.Order.{All-insert}

module _ {S : Type 0} (P : S → Type 0) where
  follow-state :
      (hint : Option TraverseHint) (n : Node) (ns : List Node)
      (rest : Option (List ℕ) → List ExecutiveState → S → Traversed S) (nodes : List ExecutiveState)
      (s : S)
      → P s
      → ((sk : Option (List ℕ)) (xs : List ExecutiveState) → P (rest sk xs s).state)
      → P (follow hint n ns rest nodes s).state
  unfolding follow keep
  follow-state none n ns rest nodes s p h = p
  follow-state (some pass) n ns rest nodes s p h = h none nodes
  follow-state (some delete) n ns rest nodes s p h = h none nodes
  follow-state (some skip_contract) n ns rest nodes s p h = h (some n.contract) nodes
  follow-state (some update) n ns rest nodes s p h = h none (n.mapped ∷ nodes)
  follow-state (some end) n ns rest nodes s p h = p

  module _ (callback : Callback S)
      (keeps : (x : ExecutiveState) (s : S) → P s → P (callback x s).2) where
    visit-state :
        (ns : List Node) (skipping : Option (List ℕ)) (nodes : List ExecutiveState) (s : S)
        → P s
        → P (visit callback ns skipping nodes s).state
    unfolding visit keep
    visit-state [] skipping nodes s p = p
    visit-state (n ∷ ns) skipping nodes s p =
        visit-elim callback (λ t. P t.state) n ns skipping nodes s
          (visit-state ns skipping nodes s p)
          (follow-state (callback n.mapped s).0 (after callback n s) ns (visit callback ns) nodes
            (callback n.mapped s).2 (keeps n.mapped s p)
            (λ sk xs. visit-state ns sk xs (callback n.mapped s).2 (keeps n.mapped s p)))

    -- What holds once the first node has been visited.
    pub traverse_executive-first :
        (n : Node) (ns : List Node) (s : S)
        → P (callback n.mapped s).2
        → P (traverse_executive callback (n ∷ ns) s).1
    unfolding traverse_executive visit
    traverse_executive-first n ns s p =
        follow-state (callback n.mapped s).0 (after callback n s) ns (visit callback ns) []
          (callback n.mapped s).2 p (λ sk xs. visit-state ns sk xs (callback n.mapped s).2 p)

    pub traverse_executive-state :
        (ns : List Node) (s : S) → P s → P (traverse_executive callback ns s).1
    unfolding traverse_executive
    traverse_executive-state ns s p = visit-state ns none [] s p

-- An exception on the first node leaves the traversal.
pub traverse_executive-first_thrown :
    {S : Type 0} (callback : Callback S) (n : Node) (ns : List Node) (s : S)
    → (callback n.mapped s).0 ≡ none
    → (traverse_executive callback (n ∷ ns) s).2 ≡ true
unfolding traverse_executive visit follow
traverse_executive-first_thrown callback n ns s e =
    ap
      (λ hint.
        (follow hint (after callback n s) ns (visit callback ns) [] (callback n.mapped s).2).thrown)
      e

module _ (P : ExecutiveState → Type 0) where
  abbrev pub Mapped : Node → Type 0
  Mapped n = P n.mapped

  abbrev Both : {S : Type 0} → Traversed S → Type 0
  Both t = All Mapped t.kept × All P t.update_nodes

  All-reinsert :
      (o : Option ExecutionMessage) (x : ExecutiveState) (ns : List Node)
      → P x
      → All Mapped ns
      → All Mapped (reinsert o x ns)
  unfolding reinsert
  All-reinsert none x ns h k = k
  All-reinsert (some m) x ns h k =
      All-insert Mapped (record { contract = m.to; context = x.context_id; mapped = x }) ns h k

  All-reinsert_all :
      (xs : List ExecutiveState) (ns : List Node)
      → All P xs
      → All Mapped ns
      → All Mapped (reinsert_all xs ns)
  unfolding reinsert_all
  All-reinsert_all [] ns h k = k
  All-reinsert_all (x ∷ xs) ns h k =
      All-reinsert_all xs (reinsert x.message x ns) h.1 (All-reinsert x.message x ns h.0 k)

  module _ {S : Type 0} where
    follow-Both :
        (hint : Option TraverseHint) (n : Node) (ns : List Node)
        (rest : Option (List ℕ) → List ExecutiveState → S → Traversed S)
        (nodes : List ExecutiveState) (s : S)
        → P n.mapped
        → All Mapped ns
        → All P nodes
        → ((sk : Option (List ℕ)) (xs : List ExecutiveState) → All P xs → Both (rest sk xs s))
        → Both (follow hint n ns rest nodes s)
    unfolding follow keep
    follow-Both none n ns rest nodes s p l m h = ((p, l), m)
    follow-Both (some pass) n ns rest nodes s p l m h = let (a, b) = h none nodes m in ((p, a), b)
    follow-Both (some delete) n ns rest nodes s p l m h = h none nodes m
    follow-Both (some skip_contract) n ns rest nodes s p l m h =
        let (a, b) = h (some n.contract) nodes m in ((p, a), b)
    follow-Both (some update) n ns rest nodes s p l m h = h none (n.mapped ∷ nodes) (p, m)
    follow-Both (some end) n ns rest nodes s p l m h = ((p, l), m)

    module _ (callback : Callback S)
        (keeps : (x : ExecutiveState) (s : S) → P x → P (callback x s).1) where
      visit-Both :
          (ns : List Node) (skipping : Option (List ℕ)) (nodes : List ExecutiveState) (s : S)
          → All Mapped ns
          → All P nodes
          → Both (visit callback ns skipping nodes s)
      unfolding visit keep
      visit-Both [] skipping nodes s k m = (tt, m)
      visit-Both (n ∷ ns) skipping nodes s k m =
          visit-elim callback Both n ns skipping nodes s
            (let (a, b) = visit-Both ns skipping nodes s k.1 m in ((k.0, a), b))
            (follow-Both (callback n.mapped s).0 (after callback n s) ns (visit callback ns) nodes
              (callback n.mapped s).2 (keeps n.mapped s k.0) k.1 m
              (λ sk xs. visit-Both ns sk xs (callback n.mapped s).2 k.1))

      pub traverse_executive-All :
          (ns : List Node) (s : S) → All Mapped ns → All Mapped (traverse_executive callback ns s).0
      unfolding traverse_executive
      traverse_executive-All ns s h =
          let t = visit callback ns none [] s in
          let (a, b) = visit-Both ns none [] s h tt in
          if_elim (All Mapped) t.thrown _ _ (λ _. a)
            (λ _. All-reinsert_all t.update_nodes t.kept b a)
