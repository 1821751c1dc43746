-- ===== src/Executive/Order.antt =====
-- A traversal leaves the map in the order of its keys.
use bcos_dispatcher.Base.{
  ℕ, sym, ◌∙◌, subst, inl, inr, ite, Option, none, some, List, [], ◌∷◌, arith, All, if_elim,
}
use bcos_dispatcher.Base.Text.{TextLt, Text-discrete, TextLt-trans, TextLt-total}
use bcos_dispatcher.Executive.{
  ExecutionMessage, ExecutiveState, TraverseHint, pass, delete, skip_contract, update, end, Node,
  KeyLt, SameKey, dec_same_key, dec_key_lt, insert, Traversed, keep, follow, visit, reinsert,
  reinsert_all, traverse_executive,
}
use bcos_dispatcher.Executive.Counts.{Callback, visit-elim}

KeyLt-trans : (l m n : Node) → KeyLt l m → KeyLt m n → KeyLt l n
KeyLt-trans l m n (inl p) (inl q) = inl (TextLt-trans _ _ _ p q)
KeyLt-trans l m n (inl p) (inr (e, q)) = inl (subst (TextLt l.contract) e p)
KeyLt-trans l m n (inr (e, p)) (inl q) = inl (subst (λ t. TextLt t n.contract) (sym e) q)
KeyLt-trans l m n (inr (e, p)) (inr (f, q)) = inr (e ∙ f, omega arith)

KeyLt-total : (m n : Node) → ¬ KeyLt m n → ¬ SameKey m n → KeyLt n m
KeyLt-total m n h k = elim (Text-discrete m.contract n.contract) [
  | yes e ↦ ground arith
  | no e ↦ inl (TextLt-total m.contract n.contract (λ q. h (inl q)) e)
]

-- Keys rise strictly.
abbrev pub Sorted : List Node → Type 0
Sorted [] = Unit {0}
Sorted (n ∷ ns) = All (KeyLt n) ns × Sorted ns

All-KeyLt : (m n : Node) (ns : List Node) → KeyLt m n → All (KeyLt n) ns → All (KeyLt m) ns
All-KeyLt m n [] h k = tt
All-KeyLt m n (o ∷ ns) h k = (KeyLt-trans m n o h k.0, All-KeyLt m n ns h k.1)

pub All-insert :
    (P : Node → Type 0) (n : Node) (ns : List Node) → P n → All P ns → All P (insert n ns)
unfolding insert
All-insert P n [] h k = (h, tt)
All-insert P n (m ∷ ms) h k =
    elim (dec_same_key n m)
      as (λ d. All P (ite d (m ∷ ms) (ite (dec_key_lt n m) (n ∷ m ∷ ms) (m ∷ insert n ms)))) [
        | yes _ ↦ k
        | no _ ↦ elim (dec_key_lt n m) as (λ d. All P (ite d (n ∷ m ∷ ms) (m ∷ insert n ms))) [
          | yes _ ↦ (h, k)
          | no _ ↦ (k.0, All-insert P n ms h k.1)
        ]
      ]

Sorted-insert : (n : Node) (ns : List Node) → Sorted ns → Sorted (insert n ns)
unfolding insert
Sorted-insert n [] h = (tt, tt)
Sorted-insert n (m ∷ ms) h =
    elim (dec_same_key n m)
      as (λ d. Sorted (ite d (m ∷ ms) (ite (dec_key_lt n m) (n ∷ m ∷ ms) (m ∷ insert n ms)))) [
        | yes _ ↦ h
        | no u ↦ elim (dec_key_lt n m) as (λ d. Sorted (ite d (n ∷ m ∷ ms) (m ∷ insert n ms))) [
          | yes p ↦ ((p, All-KeyLt n m ms p h.0), h)
          | no p ↦ (All-insert (KeyLt m) n ms (KeyLt-total n m p u) h.0, Sorted-insert n ms h.1)
        ]
      ]

Sorted-reinsert :
    (o : Option ExecutionMessage) (x : ExecutiveState) (ns : List Node)
    → Sorted ns
    → Sorted (reinsert o x ns)
unfolding reinsert
Sorted-reinsert none x ns h = h
Sorted-reinsert (some m) x ns h = Sorted-insert _ ns h

Sorted-reinsert_all :
    (xs : List ExecutiveState) (ns : List Node) → Sorted ns → Sorted (reinsert_all xs ns)
unfolding reinsert_all
Sorted-reinsert_all [] ns h = h
Sorted-reinsert_all (x ∷ xs) ns h = Sorted-reinsert_all xs _ (Sorted-reinsert x.message x ns h)

module _ {S : Type 0} where
  follow-All :
      (m : Node) (hint : Option TraverseHint) (n : Node) (ns : List Node)
      (rest : Option (List ℕ) → List ExecutiveState → S → Traversed S) (nodes : List ExecutiveState)
      (s : S)
      → KeyLt m n
      → All (KeyLt m) ns
      → ((sk : Option (List ℕ)) (xs : List ExecutiveState) → All (KeyLt m) (rest sk xs s).kept)
      → All (KeyLt m) (follow hint n ns rest nodes s).kept
  unfolding follow keep
  follow-All m none n ns rest nodes s k l h = (k, l)
  follow-All m (some pass) n ns rest nodes s k l h = (k, h none nodes)
  follow-All m (some delete) n ns rest nodes s k l h = h none nodes
  follow-All m (some skip_contract) n ns rest nodes s k l h = (k, h (some n.contract) nodes)
  follow-All m (some update) n ns rest nodes s k l h = h none (n.mapped ∷ nodes)
  follow-All m (some end) n ns rest nodes s k l h = (k, l)

  follow-Sorted :
      (hint : Option TraverseHint) (n : Node) (ns : List Node)
      (rest : Option (List ℕ) → List ExecutiveState → S → Traversed S) (nodes : List ExecutiveState)
      (s : S)
      → Sorted (n ∷ ns)
      → ((sk : Option (List ℕ)) (xs : List ExecutiveState) → All (KeyLt n) (rest sk xs s).kept)
      → ((sk : Option (List ℕ)) (xs : List ExecutiveState) → Sorted (rest sk xs s).kept)
      → Sorted (follow hint n ns rest nodes s).kept
  unfolding follow keep
  follow-Sorted none n ns rest nodes s k l h = k
  follow-Sorted (some pass) n ns rest nodes s k l h = (l none nodes, h none nodes)
  follow-Sorted (some delete) n ns rest nodes s k l h = h none nodes
  follow-Sorted (some skip_contract) n ns rest nodes s k l h =
      (l (some n.contract) nodes, h (some n.contract) nodes)
  follow-Sorted (some update) n ns rest nodes s k l h = h none (n.mapped ∷ nodes)
  follow-Sorted (some end) n ns rest nodes s k l h = k

module _ {S : Type 0} (callback : Callback S) where
  visit-All :
      (m : Node) (ns : List Node) (skipping : Option (List ℕ)) (nodes : List ExecutiveState) (s : S)
      → All (KeyLt m) ns
      → All (KeyLt m) (visit callback ns skipping nodes s).kept
  unfolding visit keep
  visit-All m [] skipping nodes s h = tt
  visit-All m (n ∷ ns) skipping nodes s h =
      visit-elim callback (λ t. All (KeyLt m) t.kept) n ns skipping nodes s
        (h.0, visit-All m ns skipping nodes s h.1)
        (follow-All m (callback n.mapped s).0 _ ns (visit callback ns) nodes (callback n.mapped s).2
          h.0 h.1 (λ sk xs. visit-All m ns sk xs (callback n.mapped s).2 h.1))

  visit-Sorted :
      (ns : List Node) (skipping : Option (List ℕ)) (nodes : List ExecutiveState) (s : S)
      → Sorted ns
      → Sorted (visit callback ns skipping nodes s).kept
  unfolding visit keep
  visit-Sorted [] skipping nodes s h = tt
  visit-Sorted (n ∷ ns) skipping nodes s h =
      visit-elim callback (λ t. Sorted t.kept) n ns skipping nodes s
        (visit-All n ns skipping nodes s h.0, visit-Sorted ns skipping nodes s h.1)
        (follow-Sorted (callback n.mapped s).0 _ ns (visit callback ns) nodes
          (callback n.mapped s).2 h (λ sk xs. visit-All n ns sk xs (callback n.mapped s).2 h.0)
          (λ sk xs. visit-Sorted ns sk xs (callback n.mapped s).2 h.1))

  -- Whatever its callback does, a traversal leaves the map in the strict order of its keys, in which it
  -- was before.
  pub traverse_executive-Sorted :
      (ns : List Node) (s : S) → Sorted ns → Sorted (traverse_executive callback ns s).0
  unfolding traverse_executive
  traverse_executive-Sorted ns s h =
      let t = visit callback ns none [] s in
      if_elim Sorted t.thrown _ _ (λ _. visit-Sorted ns none [] s h)
        (λ _. Sorted-reinsert_all t.update_nodes t.kept (visit-Sorted ns none [] s h))
