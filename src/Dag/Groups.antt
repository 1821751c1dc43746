-- ===== src/Dag/Groups.antt =====
-- Which messages `DAGExecute` sends together.
use bcos_dispatcher.Base.{
  ℕ, ◌≡◌, ◌≢◌, refl, ap, sym, true, Bool-cases, ◌∙◌, ◌⊎◌, inl, inr, if_pos, if_neg, Option, List,
  [], ◌∷◌, ◌++◌, All, if_elim, filter,
}
use bcos_dispatcher.Base.Text.{Text, Text-discrete, TextLt, TextLt-trans}
use bcos_dispatcher.Executive.{ExecutionMessage, Node, KeyLt}
use bcos_dispatcher.Executive.Order.{Sorted}
use bcos_dispatcher.Dag.{requests, Group, join, group}

-- All messages of the groups, each with its contract and context.
abbrev pub spread :
    Text → List (ℕ × Option ExecutionMessage) → List (Text × ℕ × Option ExecutionMessage)
spread contract [] = []
spread contract ((c, m) ∷ ms) = (contract, c, m) ∷ spread contract ms

abbrev pub all_messages : List Group → List (Text × ℕ × Option ExecutionMessage)
all_messages [] = []
all_messages (g ∷ gs) = spread g.contract g.messages ++ all_messages gs

abbrev pub requested : List Node → List (Text × ℕ × Option ExecutionMessage)
requested [] = []
requested (n ∷ ns) = (n.contract, n.context, n.mapped.message) ∷ requested ns

-- The contracts rise.
abbrev pub Rising : List Group → Type 0
Rising [] = Unit {0}
Rising (g ∷ gs) = All (λ (h : Group). TextLt g.contract h.contract) gs × Rising gs

all_messages-join :
    (n : Node) (gs : List Group)
    → all_messages (join n gs) ≡ (n.contract, n.context, n.mapped.message) ∷ all_messages gs
unfolding join
all_messages-join n [] = refl
all_messages-join n (g ∷ gs) = elim (Text-discrete n.contract g.contract) [
  | yes e ↦ rw (if_pos _ e, e) refl
  | no e ↦ rw (if_neg _ e) refl
]

all_messages-group : (ns : List Node) → all_messages (group ns) ≡ requested ns
unfolding group
all_messages-group [] = refl
all_messages-group (n ∷ ns) =
    all_messages-join n (group ns)
    ∙ ap (λ ms. (n.contract, n.context, n.mapped.message) ∷ ms) (all_messages-group ns)

-- Not before the contract.
abbrev From : Text → Group → Type 0
From contract g = TextLt contract g.contract ⊎ (contract ≡ g.contract)

join-Rising :
    (n : Node) (gs : List Group) → All (From n.contract) gs → Rising gs → Rising (join n gs)
unfolding join
join-Rising n [] h r = (tt, tt)
join-Rising n (g ∷ gs) h r = elim (Text-discrete n.contract g.contract) [
  | yes e ↦ rw (if_pos _ e) r
  | no e ↦ rw (if_neg _ e) ((first h.0 e, All-above gs (first h.0 e) r.0), r)
]
  where
    first : From n.contract g → n.contract ≢ g.contract → TextLt n.contract g.contract
    first (inl p) e = p
    first (inr q) e = absurd (e q)

    All-above :
        (hs : List Group)
        → TextLt n.contract g.contract
        → All (λ (h : Group). TextLt g.contract h.contract) hs
        → All (λ (h : Group). TextLt n.contract h.contract) hs
    All-above [] p q = tt
    All-above (h ∷ hs) p q =
        (TextLt-trans n.contract g.contract h.contract p q.0, All-above hs p q.1)

From_key : (m n : Node) → KeyLt m n → TextLt m.contract n.contract ⊎ (m.contract ≡ n.contract)
From_key m n (inl p) = inl p
From_key m n (inr (e, q)) = inr e

join-From :
    (contract : Text) (n : Node) (gs : List Group)
    → TextLt contract n.contract ⊎ (contract ≡ n.contract)
    → All (From contract) gs
    → All (From contract) (join n gs)
unfolding join
join-From contract n [] p h = (p, tt)
join-From contract n (g ∷ gs) p h = elim (Text-discrete n.contract g.contract) [
  | yes e ↦ rw (if_pos _ e) h
  | no e ↦ rw (if_neg _ e) (p, h)
]

group-From : (m : Node) (ns : List Node) → All (KeyLt m) ns → All (From m.contract) (group ns)
unfolding group
group-From m [] h = tt
group-From m (n ∷ ns) h = join-From m.contract n (group ns) (From_key m n h.0) (group-From m ns h.1)

Rising-group : (ns : List Node) → Sorted ns → Rising (group ns)
unfolding group
Rising-group [] h = tt
Rising-group (n ∷ ns) h = join-Rising n (group ns) (group-From n ns h.0) (Rising-group ns h.1)

All-requests : (m : Node) (ns : List Node) → All (KeyLt m) ns → All (KeyLt m) (requests ns)
unfolding requests
All-requests m [] h = tt
All-requests m (n ∷ ns) h =
    if_elim (All (KeyLt m)) n.mapped.enable_dag _ _ (λ _. (h.0, All-requests m ns h.1))
      (λ _. All-requests m ns h.1)

Sorted-requests : (ns : List Node) → Sorted ns → Sorted (requests ns)
unfolding requests
Sorted-requests [] h = tt
Sorted-requests (n ∷ ns) h =
    if_elim Sorted n.mapped.enable_dag _ _ (λ _. (All-requests n ns h.0, Sorted-requests ns h.1))
      (λ _. Sorted-requests ns h.1)

-- The states whose messages may run in parallel.
pub dec_parallel : (n : Node) → Dec (n.mapped.enable_dag ≡ true)
dec_parallel n = elim (Bool-cases n.mapped.enable_dag) [ inl e ↦ yes e | inr e ↦ no (λ h. cc) ]

abbrev pub parallel : List Node → List Node
parallel states = filter dec_parallel states

requests-parallel : (states : List Node) → requests states ≡ parallel states
unfolding requests
requests-parallel [] = refl
requests-parallel (n ∷ ns) =
    if_elim (λ (ms : List Node). ms ≡ parallel (n ∷ ns)) n.mapped.enable_dag _ _
      (λ e. ap (λ ms. n ∷ ms) (requests-parallel ns) ∙ sym (if_pos (dec_parallel n) e _ _))
      (λ e. requests-parallel ns ∙ sym (if_neg (dec_parallel n) (λ h. cc) _ _))

-- If the states are in the order of their keys, `DAGExecute` sends the message of each state that may run
-- in parallel once, and no other, with its contract and context, in the order of the states, and all
-- messages for one contract in one call.
pub group-requests :
    (states : List Node)
    → Sorted states
    → (all_messages (group (requests states)) ≡ requested (parallel states))
      × Rising (group (requests states))
group-requests states h = (
  all_messages-group (requests states) ∙ ap requested (requests-parallel states),
  Rising-group (requests states) (Sorted-requests states h),
)
