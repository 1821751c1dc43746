-- ===== src/Executive/Tallies.antt =====
-- A traversal whose callback enters in a tally what it deletes: nothing gets lost.
use bcos_dispatcher.Base.{
  ℕ, ◌+◌, ◌≤◌, ◌≡◌, ap, ◌==◌, if◌then◌else◌, Option, none, some, List, [], ◌∷◌, arith,
}
use bcos_dispatcher.Executive.{
  ExecutiveState, TraverseHint, pass, delete, skip_contract, update, end, Node, Traversed, keep,
  follow, visit,
}
use bcos_dispatcher.Executive.Counts.{
  one, one_self, copies, copies_out, Callback, Careful, after, visit-elim,
}

-- Whether a node with the context is there when it has been given the hint.
abbrev pub kept_one : ℕ → Option TraverseHint → ℕ → ℕ
kept_one c none i = if i == c then 1 else 0
kept_one c (some pass) i = if i == c then 1 else 0
kept_one c (some delete) i = 0
kept_one c (some skip_contract) i = if i == c then 1 else 0
kept_one c (some update) i = if i == c then 1 else 0
kept_one c (some end) i = if i == c then 1 else 0

module _ {S : Type 0} (tally : ℕ → S → ℕ) where
  -- A deletion, and nothing else, raises the tally, and only that of its context.
  abbrev pub Tallies : Callback S → Type 0
  Tallies callback =
      (x : ExecutiveState) (s : S)
      → tally x.context_id s ≡ 0
      → (c : ℕ)
      → kept_one c (callback x s).0 x.context_id + tally c (callback x s).2 ≡ one c x + tally c s

  abbrev pub total : ℕ → Traversed S → ℕ
  total c t = copies c t.kept + copies_out c t.update_nodes + tally c t.state

  follow-total :
      (hint : Option TraverseHint) (n : Node) (ns : List Node)
      (rest : Option (List ℕ) → List ExecutiveState → S → Traversed S) (nodes : List ExecutiveState)
      (s : S)
      → ((c : ℕ)
          → kept_one c hint n.mapped.context_id + copies c ns + copies_out c nodes + tally c s ≤ 1)
      → ((sk : Option (List ℕ)) (xs : List ExecutiveState)
          → ((c : ℕ) → copies c ns + copies_out c xs + tally c s ≤ 1)
          → (c : ℕ) → total c (rest sk xs s) ≡ copies c ns + copies_out c xs + tally c s)
      → (c : ℕ)
      → total c (follow hint n ns rest nodes s)
        ≡ kept_one c hint n.mapped.context_id + copies c ns + copies_out c nodes + tally c s
  unfolding follow keep
  follow-total none n ns rest nodes s b h c = omega arith
  follow-total (some pass) n ns rest nodes s b h c =
      omega (arith, h none nodes (λ d. omega (arith, b d)) c)
  follow-total (some delete) n ns rest nodes s b h c =
      omega (arith, h none nodes (λ d. omega (arith, b d)) c)
  follow-total (some skip_contract) n ns rest nodes s b h c =
      omega (arith, h (some n.contract) nodes (λ d. omega (arith, b d)) c)
  follow-total (some update) n ns rest nodes s b h c =
      omega (arith, h none (n.mapped ∷ nodes) (λ d. omega (arith, b d)) c)
  follow-total (some end) n ns rest nodes s b h c = omega arith

  module _ (callback : Callback S) (careful : Careful callback) (tallies : Tallies callback) where
    pub visit-total :
        (ns : List Node) (skipping : Option (List ℕ)) (nodes : List ExecutiveState) (s : S)
        → ((c : ℕ) → copies c ns + copies_out c nodes + tally c s ≤ 1)
        → (c : ℕ)
        → total c (visit callback ns skipping nodes s)
          ≡ copies c ns + copies_out c nodes + tally c s
    unfolding visit keep
    visit-total [] skipping nodes s b c = omega arith
    visit-total (n ∷ ns) skipping nodes s b c =
        visit-elim callback (λ t. total c t ≡ copies c (n ∷ ns) + copies_out c nodes + tally c s) n
          ns skipping nodes s
          (omega (arith, visit-total ns skipping nodes s (λ d. omega (arith, b d)) c))
          (omega (
            arith,
            balance c,
            follow-total (callback n.mapped s).0 (after callback n s) ns (visit callback ns) nodes
                (callback n.mapped s).2 (λ d. omega (arith, balance d, b d))
                (λ sk xs. visit-total ns sk xs (callback n.mapped s).2) c,
          ))
      where
        balance :
            (d : ℕ)
            → kept_one d (callback n.mapped s).0 (callback n.mapped s).1.context_id
                + tally d (callback n.mapped s).2
              ≡ one d n.mapped + tally d s
        balance d = omega (
          arith,
          ap (kept_one d (callback n.mapped s).0) (careful.same_context n.mapped s),
          tallies n.mapped s (omega (arith, b n.mapped.context_id, one_self n.mapped)) d,
        )
