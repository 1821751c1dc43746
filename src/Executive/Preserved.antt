-- ===== src/Executive/Preserved.antt =====
-- What holds of the map and its contexts after a whole traversal.
use bcos_dispatcher.Base.{
  ℕ, ◌+◌, ◌≤◌, ◌≡◌, ◌≢◌, refl, ap, false, Option, none, some, List, [], ◌∷◌, arith, All, if_elim,
  if◌then◌else◌, ◌==◌,
}
use bcos_dispatcher.Executive.{
  ExecutionMessage, ExecutiveState, TraverseHint, pass, skip_contract, end, delete, update, Node,
  Traversed, keep, follow, visit, reinsert, reinsert_all, traverse_executive,
}
use bcos_dispatcher.Executive.Counts.{
  one, one_self, copies, copies_out, OwnKey, HasMessage, Inv, Callback, Careful, copies-insert,
  OwnKey-insert, visit-AtMost, visit-Sound, visit-elim, after,
}
use bcos_dispatcher.Executive.Tallies.{kept_one, Tallies, total, visit-total}

OwnKey-reinsert :
    (o : Option ExecutionMessage) (x : ExecutiveState) (ns : List Node)
    → All OwnKey ns
    → All OwnKey (reinsert o x ns)
unfolding reinsert
OwnKey-reinsert none x ns h = h
OwnKey-reinsert (some m) x ns h = OwnKey-insert _ ns h refl

copies-reinsert :
    (o : Option ExecutionMessage) (x : ExecutiveState) (ns : List Node) (c : ℕ)
    → o ≢ none
    → All OwnKey ns
    → copies x.context_id ns ≡ 0
    → copies c (reinsert o x ns) ≡ one c x + copies c ns
unfolding reinsert
copies-reinsert none x ns c n h z = absurd (n refl)
copies-reinsert (some m) x ns c n h z = copies-insert _ ns c h refl z

reinsert_all-Inv :
    (xs : List ExecutiveState) (ns : List Node)
    → All OwnKey ns
    → All HasMessage xs
    → ((c : ℕ) → copies c ns + copies_out c xs ≤ 1)
    → All OwnKey (reinsert_all xs ns)
      × ((c : ℕ) → copies c (reinsert_all xs ns) ≡ copies c ns + copies_out c xs)
unfolding reinsert_all
reinsert_all-Inv [] ns k m d = (k, λ c. omega arith)
reinsert_all-Inv (x ∷ xs) ns k m d =
    let (own, counts) =
      reinsert_all-Inv xs (reinsert x.message x ns) (OwnKey-reinsert x.message x ns k) m.1
        (λ c. omega (arith, added c, d c)) in
    (own, λ c. omega (arith, added c, counts c))
  where
    added : (c : ℕ) → copies c (reinsert x.message x ns) ≡ one c x + copies c ns
    added c = copies-reinsert x.message x ns c m.0 k (omega (arith, d x.context_id, one_self x))

module _ {S : Type 0} (callback : Callback S) (careful : Careful callback) (ns : List Node) (s : S)
    (inv : Inv ns) where
  abbrev visited : Traversed S
  visited = visit callback ns none [] s

  reinserted :
      All OwnKey (reinsert_all visited.update_nodes visited.kept)
      × ((c : ℕ)
          → copies c (reinsert_all visited.update_nodes visited.kept)
            ≡ copies c visited.kept + copies_out c visited.update_nodes)
  reinserted =
      let (a, b) = visit-Sound callback careful ns none [] s inv.own_keys tt in
      reinsert_all-Inv _ _ a b
        (λ c. omega (arith, visit-AtMost callback careful c ns none [] s, inv.distinct c))

  -- A traversal keeps the invariant that no context is in the map twice and that the keys name the
  -- contexts, if its callback leaves the identifiers alone and asks for an update only of a state that
  -- has a message.
  pub traverse_executive-Inv : Inv (traverse_executive callback ns s).0
  unfolding traverse_executive
  traverse_executive-Inv =
      if_elim Inv visited.thrown _ _
        (λ _. record {
          own_keys = (visit-Sound callback careful ns none [] s inv.own_keys tt).0;
          distinct =
              λ c. omega (arith, visit-AtMost callback careful c ns none [] s, inv.distinct c);
        })
        (λ _. record {
          own_keys = reinserted.0;
          distinct = λ c.
              omega (
                arith,
                reinserted.1 c,
                visit-AtMost callback careful c ns none [] s,
                inv.distinct c,
              );
        })

  module _ (tally : ℕ → S → ℕ) (tallies : Tallies tally callback)
      (bound : (c : ℕ) → copies c ns + tally c s ≤ 1) where
    visited_total : (c : ℕ) → total tally c visited ≡ copies c ns + tally c s
    visited_total c = omega (
      arith,
      visit-total tally callback careful tallies ns none [] s (λ d. omega (arith, bound d)) c,
    )

    -- What a traversal deletes is in the tally, if no exception ends it.
    pub traverse_executive-total :
        (traverse_executive callback ns s).2 ≡ false
        → (c : ℕ)
        → copies c (traverse_executive callback ns s).0
            + tally c (traverse_executive callback ns s).1
          ≡ copies c ns + tally c s
    unfolding traverse_executive
    traverse_executive-total h c =
        if_elim (λ ms. copies c ms + tally c visited.state ≡ copies c ns + tally c s) visited.thrown
          _ _ (λ t. absurd (cc)) (λ _. omega (arith, reinserted.1 c, visited_total c))

    -- So too after an exception, if nothing has been taken out.
    pub traverse_executive-total_kept :
        visited.update_nodes ≡ []
        → (c : ℕ)
        → copies c (traverse_executive callback ns s).0
            + tally c (traverse_executive callback ns s).1
          ≡ copies c ns + tally c s
    unfolding traverse_executive
    traverse_executive-total_kept h c =
        if_elim (λ ms. copies c ms + tally c visited.state ≡ copies c ns + tally c s) visited.thrown
          _ _ (λ t. omega (arith, ap (copies_out c) h, visited_total c))
          (λ _. omega (arith, reinserted.1 c, visited_total c))

  -- If that callback asks for no deletion either, and no exception ends the traversal, it loses no
  -- context and adds none: each one is in the map as often afterwards as before.
  pub copies-traverse_executive :
      ((x : ExecutiveState) (r : S) → (callback x r).0 ≢ some delete)
      → (traverse_executive callback ns s).2 ≡ false
      → (c : ℕ) → copies c (traverse_executive callback ns s).0 ≡ copies c ns
  copies-traverse_executive d h c = omega (
    arith,
    traverse_executive-total (λ c s. 0)
        (λ x s z c. omega (arith, kept_one_undeleted c (callback x s).0 x.context_id (d x s)))
        (λ c. omega (arith, inv.distinct c)) h c,
  )
    where
      kept_one_undeleted :
          (c : ℕ) (hint : Option TraverseHint) (i : ℕ)
          → hint ≢ some delete
          → kept_one c hint i ≡ (if i == c then 1 else 0)
      kept_one_undeleted c none x n = refl
      kept_one_undeleted c (some pass) x n = refl
      kept_one_undeleted c (some delete) x n = absurd (n refl)
      kept_one_undeleted c (some skip_contract) x n = refl
      kept_one_undeleted c (some update) x n = refl
      kept_one_undeleted c (some end) x n = refl

module _ {S : Type 0} where
  follow-update_nodes :
      (hint : Option TraverseHint) (n : Node) (ns : List Node)
      (rest : Option (List ℕ) → List ExecutiveState → S → Traversed S) (nodes : List ExecutiveState)
      (s : S)
      → hint ≢ some update
      → ((sk : Option (List ℕ)) → (rest sk nodes s).update_nodes ≡ nodes)
      → (follow hint n ns rest nodes s).update_nodes ≡ nodes
  unfolding follow keep
  follow-update_nodes none n ns rest nodes s u h = refl
  follow-update_nodes (some pass) n ns rest nodes s u h = h none
  follow-update_nodes (some delete) n ns rest nodes s u h = h none
  follow-update_nodes (some skip_contract) n ns rest nodes s u h = h (some n.contract)
  follow-update_nodes (some update) n ns rest nodes s u h = absurd (u refl)
  follow-update_nodes (some end) n ns rest nodes s u h = refl

  -- A callback that asks for no update takes nothing out.
  pub visit-update_nodes :
      (callback : Callback S)
      → ((x : ExecutiveState) (r : S) → (callback x r).0 ≢ some update)
      → (ns : List Node) (skipping : Option (List ℕ)) (nodes : List ExecutiveState) (s : S)
      → (visit callback ns skipping nodes s).update_nodes ≡ nodes
  unfolding visit keep
  visit-update_nodes callback u [] skipping nodes s = refl
  visit-update_nodes callback u (n ∷ ns) skipping nodes s =
      visit-elim callback (λ t. t.update_nodes ≡ nodes) n ns skipping nodes s
        (visit-update_nodes callback u ns skipping nodes s)
        (follow-update_nodes (callback n.mapped s).0 (after callback n s) ns (visit callback ns)
          nodes (callback n.mapped s).2 (u n.mapped s)
          (λ sk. visit-update_nodes callback u ns sk nodes (callback n.mapped s).2))
