-- ===== src/Executive/Counts.antt =====
-- How often a context is in the map and among the nodes taken out, before and after the loop.
use bcos_dispatcher.Base.{
  ℕ, ◌+◌, ◌≤◌, ◌≡◌, ◌≢◌, refl, sym, ap, ◌∙◌, ite, Option, none, some, List, [], ◌∷◌, ◌==◌,
  if◌then◌else◌, arith, All,
}
use bcos_dispatcher.Executive.{
  ExecutiveState, TraverseHint, pass, delete, skip_contract, update, end, Node, dec_same_key,
  dec_key_lt, insert, Traversed, keep, dec_passes, follow, visit,
}

abbrev pub one : ℕ → ExecutiveState → ℕ
one c x = if x.context_id == c then 1 else 0

-- How many nodes have the context, in the map and among those taken out.
abbrev pub copies : ℕ → List Node → ℕ
copies c [] = 0
copies c (n ∷ ns) = one c n.mapped + copies c ns

abbrev pub copies_out : ℕ → List ExecutiveState → ℕ
copies_out c [] = 0
copies_out c (x ∷ xs) = one c x + copies_out c xs

pub one_self : (x : ExecutiveState) → one x.context_id x ≡ 1
one_self x = ground arith

-- The second part of a key is the context of the state.
abbrev pub OwnKey : Node → Type 0
OwnKey n = n.context ≡ n.mapped.context_id

abbrev pub HasMessage : ExecutiveState → Type 0
HasMessage x = x.message ≢ none

-- No context is there twice, and the keys name the contexts.
pub record Inv (ns : List Node) : Type 0 where
  pub own_keys : All OwnKey ns
  pub distinct : (c : ℕ) → copies c ns ≤ 1

pub copies-insert :
    (n : Node) (ns : List Node) (c : ℕ)
    → All OwnKey ns
    → OwnKey n
    → copies n.mapped.context_id ns ≡ 0
    → copies c (insert n ns) ≡ one c n.mapped + copies c ns
unfolding insert
copies-insert n [] c h k z = refl
copies-insert n (m ∷ ms) c h k z =
    elim (dec_same_key n m)
      as (λ d.
        copies c (ite d (m ∷ ms) (ite (dec_key_lt n m) (n ∷ m ∷ ms) (m ∷ insert n ms)))
        ≡ one c n.mapped + (one c m.mapped + copies c ms)) [
          | yes e ↦ absurd (ground arith)
          | no _ ↦
              elim (dec_key_lt n m)
                as (λ d.
                  copies c (ite d (n ∷ m ∷ ms) (m ∷ insert n ms))
                  ≡ one c n.mapped + (one c m.mapped + copies c ms)) [
                    | yes _ ↦ refl
                    | no _ ↦ omega (arith, copies-insert n ms c h.1 k (omega arith))
                  ]
        ]

pub OwnKey-insert :
    (n : Node) (ns : List Node) → All OwnKey ns → OwnKey n → All OwnKey (insert n ns)
unfolding insert
OwnKey-insert n [] h k = (k, tt)
OwnKey-insert n (m ∷ ms) h k =
    elim (dec_same_key n m)
      as (λ d. All OwnKey (ite d (m ∷ ms) (ite (dec_key_lt n m) (n ∷ m ∷ ms) (m ∷ insert n ms)))) [
        | yes _ ↦ h
        | no _ ↦ elim (dec_key_lt n m) as (λ d. All OwnKey (ite d (n ∷ m ∷ ms) (m ∷ insert n ms))) [
          | yes _ ↦ (k, h)
          | no _ ↦ (h.0, OwnKey-insert n ms h.1 k)
        ]
      ]

-- What the loop leaves has no context more often than what it was given.
abbrev pub AtMost : {S : Type 0} → ℕ → List Node → List ExecutiveState → Traversed S → Type 0
AtMost c ns nodes t =
    copies c t.kept + copies_out c t.update_nodes ≤ copies c ns + copies_out c nodes

abbrev pub Sound : {S : Type 0} → Traversed S → Type 0
Sound t = All OwnKey t.kept × All HasMessage t.update_nodes

abbrev pub Callback : Type 0 → Type 0
Callback S = ExecutiveState → S → Option TraverseHint × ExecutiveState × S

-- A callback leaves the identifier of a context alone, and asks for an update of a state only with a
-- message in it.
pub record Careful {S : Type 0} (callback : Callback S) : Type 0 where
  pub same_context : (x : ExecutiveState) (s : S) → (callback x s).1.context_id ≡ x.context_id
  pub has_message :
      (x : ExecutiveState) (s : S) → (callback x s).0 ≡ some update → HasMessage (callback x s).1

module _ {S : Type 0} where
  follow-AtMost :
      (c : ℕ) (hint : Option TraverseHint) (n : Node) (ns : List Node)
      (rest : Option (List ℕ) → List ExecutiveState → S → Traversed S) (nodes : List ExecutiveState)
      (s : S)
      → ((sk : Option (List ℕ)) (xs : List ExecutiveState) → AtMost c ns xs (rest sk xs s))
      → AtMost c (n ∷ ns) nodes (follow hint n ns rest nodes s)
  unfolding follow keep
  follow-AtMost c none n ns rest nodes s h = omega arith
  follow-AtMost c (some pass) n ns rest nodes s h = omega (arith, h none nodes)
  follow-AtMost c (some delete) n ns rest nodes s h = omega (arith, h none nodes)
  follow-AtMost c (some skip_contract) n ns rest nodes s h =
      omega (arith, h (some n.contract) nodes)
  follow-AtMost c (some update) n ns rest nodes s h = omega (arith, h none (n.mapped ∷ nodes))
  follow-AtMost c (some end) n ns rest nodes s h = omega arith

  follow-Sound :
      (hint : Option TraverseHint) (n : Node) (ns : List Node)
      (rest : Option (List ℕ) → List ExecutiveState → S → Traversed S) (nodes : List ExecutiveState)
      (s : S)
      → OwnKey n
      → All OwnKey ns
      → All HasMessage nodes
      → (hint ≡ some update → HasMessage n.mapped)
      → ((sk : Option (List ℕ)) (xs : List ExecutiveState)
          → All HasMessage xs
          → Sound (rest sk xs s))
      → Sound (follow hint n ns rest nodes s)
  unfolding follow keep
  follow-Sound none n ns rest nodes s k l m u h = ((k, l), m)
  follow-Sound (some pass) n ns rest nodes s k l m u h = let (a, b) = h none nodes m in ((k, a), b)
  follow-Sound (some delete) n ns rest nodes s k l m u h = h none nodes m
  follow-Sound (some skip_contract) n ns rest nodes s k l m u h =
      let (a, b) = h (some n.contract) nodes m in ((k, a), b)
  follow-Sound (some update) n ns rest nodes s k l m u h = h none (n.mapped ∷ nodes) (u refl, m)
  follow-Sound (some end) n ns rest nodes s k l m u h = ((k, l), m)

module _ {S : Type 0} (callback : Callback S) where
  -- The node with what the callback made of its state.
  abbrev pub after : Node → S → Node
  after n s = record n { mapped = (callback n.mapped s).1 }

  -- To prove a statement of the loop from its two ways on.
  pub visit-elim :
      (P : Traversed S → Type 0) (n : Node) (ns : List Node) (skipping : Option (List ℕ))
      (nodes : List ExecutiveState) (s : S)
      → P (keep n (visit callback ns skipping nodes s))
      → P (
          follow
            (callback n.mapped s).0
            (after n s)
            ns
            (visit callback ns)
            nodes
            (callback n.mapped s).2)
      → P (visit callback (n ∷ ns) skipping nodes s)
  unfolding visit
  visit-elim P n ns skipping nodes s h k =
      elim (dec_passes skipping n)
        as (λ d. P (elim d [
          | yes _ ↦ keep n (visit callback ns skipping nodes s)
          | no _ ↦
              follow (callback n.mapped s).0 (after n s) ns (visit callback ns) nodes
                (callback n.mapped s).2
        ])) [ yes _ ↦ h | no _ ↦ k ]

  module _ (careful : Careful callback) where
    pub one-callback : (c : ℕ) (x : ExecutiveState) (s : S) → one c (callback x s).1 ≡ one c x
    one-callback c x s = ap (λ i. if i == c then 1 else 0) (careful.same_context x s)

    pub visit-AtMost :
        (c : ℕ) (ns : List Node) (skipping : Option (List ℕ)) (nodes : List ExecutiveState) (s : S)
        → AtMost c ns nodes (visit callback ns skipping nodes s)
    unfolding visit keep
    visit-AtMost c [] skipping nodes s = omega arith
    visit-AtMost c (n ∷ ns) skipping nodes s =
        visit-elim (AtMost c (n ∷ ns) nodes) n ns skipping nodes s
          (omega (arith, visit-AtMost c ns skipping nodes s))
          (omega (
            arith,
            one-callback c n.mapped s,
            follow-AtMost c (callback n.mapped s).0 (after n s) ns (visit callback ns) nodes
                (callback n.mapped s).2 (λ sk xs. visit-AtMost c ns sk xs (callback n.mapped s).2),
          ))

    pub visit-Sound :
        (ns : List Node) (skipping : Option (List ℕ)) (nodes : List ExecutiveState) (s : S)
        → All OwnKey ns
        → All HasMessage nodes
        → Sound (visit callback ns skipping nodes s)
    unfolding visit keep
    visit-Sound [] skipping nodes s k m = (tt, m)
    visit-Sound (n ∷ ns) skipping nodes s k m =
        visit-elim Sound n ns skipping nodes s
          (let (a, b) = visit-Sound ns skipping nodes s k.1 m in ((k.0, a), b))
          (follow-Sound (callback n.mapped s).0 (after n s) ns (visit callback ns) nodes
            (callback n.mapped s).2 (k.0 ∙ sym (careful.same_context n.mapped s)) k.1 m
            (careful.has_message n.mapped s)
            (λ sk xs b. visit-Sound ns sk xs (callback n.mapped s).2 k.1 b))
