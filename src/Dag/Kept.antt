-- ===== src/Dag/Kept.antt =====
-- `DAGExecute` and the answers to it leave every state in the map, under its key.
use bcos_dispatcher.Base.{
  ℕ, ◌≡◌, refl, ◌∙◌, Bool, ◌||◌, not, Option, some, List, [], ◌∷◌, All, arith, ◌==◌, length,
  if_elim,
}
use bcos_dispatcher.Executive.{ExecutionMessage, Node}
use bcos_dispatcher.Executive.Counts.{copies, OwnKey, Inv}
use bcos_dispatcher.Dag.{call_dag, mark, Group, store_at, store_responses, take_responses}

-- The same contexts in the map, and the invariant if it was there before.
pub record Kept (ns ms : List Node) : Type 0 where
  pub same_copies : (d : ℕ) → copies d ms ≡ copies d ns
  pub own_keys : All OwnKey ns → All OwnKey ms

pub Kept-Inv : (ns ms : List Node) → Kept ns ms → Inv ns → Inv ms
Kept-Inv ns ms k h = record {
  own_keys = k.own_keys h.own_keys;
  distinct = λ d. omega (arith, k.same_copies d, h.distinct d);
}

Kept-refl : (ns : List Node) → Kept ns ns
Kept-refl ns = record { same_copies = λ d. refl; own_keys = λ h. h }

Kept-trans : (ks ns ms : List Node) → Kept ks ns → Kept ns ms → Kept ks ms
Kept-trans ks ns ms h k = record {
  same_copies = λ d. k.same_copies d ∙ h.same_copies d;
  own_keys = λ o. k.own_keys (h.own_keys o);
}

-- The first state may change as long as it keeps its context.
Kept-cons :
    (m n : Node) (ns ms : List Node)
    → m.context ≡ n.context
    → m.mapped.context_id ≡ n.mapped.context_id
    → Kept ns ms
    → Kept (n ∷ ns) (m ∷ ms)
Kept-cons m n ns ms e f k = record {
  same_copies = λ d. ground (arith, k.same_copies d);
  own_keys = λ h. (ground arith, k.own_keys h.1);
}

pub Kept-mark : (ns : List Node) → Kept ns (mark ns)
unfolding mark call_dag
Kept-mark [] = Kept-refl []
Kept-mark (n ∷ ns) =
    if_elim (λ m. Kept (n ∷ ns) (m ∷ mark ns)) n.mapped.enable_dag _ _
      (λ _.
        Kept-cons (record n { mapped = call_dag n.mapped }) n ns (mark ns) refl refl (Kept-mark ns))
      (λ _. Kept-cons n n ns (mark ns) refl refl (Kept-mark ns))

Kept-store_at : (c : ℕ) (m : ExecutionMessage) (ns : List Node) → Kept ns (store_at c m ns)
unfolding store_at
Kept-store_at c m [] = Kept-refl []
Kept-store_at c m (n ∷ ns) =
    if_elim (Kept (n ∷ ns)) (n.context == c) _ _
      (λ _.
        Kept-cons (record n { mapped = record n.mapped { message = some m } }) n ns ns refl refl
          (Kept-refl ns))
      (λ _. Kept-cons n n ns (store_at c m ns) refl refl (Kept-store_at c m ns))

Kept-store_responses :
    (sent : List (ℕ × Option ExecutionMessage)) (responses : List ExecutionMessage) (ns : List Node)
    → Kept ns (store_responses sent responses ns)
unfolding store_responses
Kept-store_responses [] responses ns = Kept-refl ns
Kept-store_responses (_ ∷ _) [] ns = Kept-refl ns
Kept-store_responses ((c, _) ∷ sent) (m ∷ responses) ns =
    Kept-trans ns (store_at c m ns) _ (Kept-store_at c m ns)
      (Kept-store_responses sent responses (store_at c m ns))

pub Kept-take_responses :
    (g : Group) (error : Bool) (responses : List ExecutionMessage) (ns : List Node)
    → Kept ns (take_responses g error responses ns)
unfolding take_responses
Kept-take_responses g error responses ns =
    if_elim (Kept ns) (error || not (length g.messages == length responses)) _ _ (λ _. Kept-refl ns)
      (λ _. Kept-store_responses g.messages responses ns)
