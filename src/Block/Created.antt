-- ===== src/Block/Created.antt =====
-- The states that `asyncExecute` makes: one for each transaction.
use bcos_dispatcher.Base.{
  ℕ, suc, ◌+◌, ◌≤◌, ◌<◌, ◌≡◌, refl, subst, Bool, false, ◌||◌, Option, none, some, List, [], ◌∷◌,
  length, arith, ◌==◌, ltb, leb, ◌&&◌, if◌then◌else◌, All,
}
use bcos_dispatcher.Executive.{ExecutionMessage, Node, insert}
use bcos_dispatcher.Executive.Counts.{copies, copies-insert, OwnKey, OwnKey-insert, Inv}
use bcos_dispatcher.Block.Create.{
  Transaction, Setting, map_target, target, message_of, meta_target, meta_message, node_of,
  add_state, continue_with, add_states, create_states,
}

-- The contexts from an index to another.
abbrev between : ℕ → ℕ → ℕ → ℕ
between i n c = if leb i c && ltb c n then 1 else 0

abbrev Holds : ℕ → ℕ → List Node → Option (List Node × Bool) → Type 0
Holds i n ns none = Unit {0}
Holds i n ns (some (ms, d)) = All OwnKey ms × ((c : ℕ) → copies c ms ≡ copies c ns + between i n c)

between_step :
    (ns ms : List Node) (i n c : ℕ) (later : ℕ)
    → i < n
    → later ≡ (if i == c then 1 else 0) + copies c ns
    → copies c ms ≡ later + between (suc i) n c
    → copies c ms ≡ copies c ns + between i n c
between_step ns ms i n c later l e h = ground arith

Holds-step :
    (ns ms : List Node) (i n : ℕ) (r : Option (List Node × Bool))
    → i < n
    → ((c : ℕ) → copies c ms ≡ (if i == c then 1 else 0) + copies c ns)
    → Holds (suc i) n ms r
    → Holds i n ns r
Holds-step ns ms i n none l e h = tt
Holds-step ns ms i n (some (rs, d)) l e h =
    (h.0, λ c. between_step ns rs i n c (copies c ms) l (e c) (h.1 c))

add_state-Holds :
    (o : Option ExecutionMessage) (i n : ℕ) (d : Bool) (ns : List Node)
    (rest : List Node → Option (List Node × Bool))
    → i < n
    → All OwnKey ns
    → ((c : ℕ) → i ≤ c → copies c ns ≡ 0)
    → ((ms : List Node)
        → All OwnKey ms
        → ((c : ℕ) → suc i ≤ c → copies c ms ≡ 0)
        → Holds (suc i) n ms (rest ms))
    → Holds i n ns (continue_with (add_state o i d ns) rest)
unfolding add_state continue_with node_of
add_state-Holds none i n d ns rest l k z h = tt
add_state-Holds (some m) i n d ns rest l k z h =
    Holds-step ns (insert (node_of i m d) ns) i n (rest (insert (node_of i m d) ns)) l added (
      h (insert (node_of i m d) ns) (OwnKey-insert (node_of i m d) ns k refl)
        (λ c q. ground (arith, added c, z c)))
  where
    added : (c : ℕ) → copies c (insert (node_of i m d) ns) ≡ (if i == c then 1 else 0) + copies c ns
    added c = copies-insert (node_of i m d) ns c k refl (z i (omega arith))

add_states-Holds :
    (make : ℕ → Transaction → Option ExecutionMessage) (txs : List Transaction) (i n : ℕ) (d : Bool)
    (ns : List Node)
    → n ≡ i + length txs
    → All OwnKey ns
    → ((c : ℕ) → i ≤ c → copies c ns ≡ 0)
    → Holds i n ns (add_states make txs i d ns)
unfolding add_states
add_states-Holds make [] i n d ns e k z = (k, λ c. ground arith)
add_states-Holds make (tx ∷ txs) i n d ns e k z =
    add_state-Holds (make i tx) i n (d || tx.dag) ns (add_states make txs (suc i) (d || tx.dag))
      (omega arith) k z
      (λ ms k' z'. add_states-Holds make txs (suc i) n (d || tx.dag) ms (omega arith) k' z')

-- How many transactions the block brings.
abbrev pub size : List Transaction → List Transaction → ℕ
size [] txs = length txs
size (meta ∷ metas) txs = length (meta ∷ metas)

created :
    (make : ℕ → Transaction → Option ExecutionMessage) (txs : List Transaction) (ns : List Node)
    (d : Bool)
    → add_states make txs 0 false [] ≡ some (ns, d)
    → Inv ns × ((c : ℕ) → copies c ns ≡ (if ltb c (length txs) then 1 else 0))
created make txs ns d e =
    let (k, h) =
      subst (Holds 0 (length txs) []) e
        (add_states-Holds make txs 0 (length txs) false [] (omega arith) tt (λ c q. refl)) in
    (record { own_keys = k; distinct = λ c. ground (arith, h c) }, λ c. ground (arith, h c))

pub create_states-Inv :
    (e : Setting) (metas txs : List Transaction) (ns : List Node) (d : Bool)
    → create_states e metas txs ≡ some (ns, d)
    → Inv ns × ((c : ℕ) → copies c ns ≡ (if ltb c (size metas txs) then 1 else 0))
unfolding create_states
create_states-Inv e [] txs ns d h =
    created (λ i tx. map_target (target e tx) (message_of e i tx)) txs ns d h
create_states-Inv e (meta ∷ metas) txs ns d h =
    created (λ i tx. map_target (meta_target tx) (meta_message e i tx)) (meta ∷ metas) ns d h
