-- ===== src/Executive.antt =====
-- The states of the transactions of a block in bcos-scheduler/BlockExecutive.h, and
-- `traverseExecutive` of BlockExecutive.cpp, by which each batch visits and reorders them.
pub mod Counts
pub mod Tallies
pub mod Preserved
pub mod Order
pub mod Invariants
mod Tests
use bcos_dispatcher.Base.{
  ℕ, ◌<◌, ◌≡◌, ◌⊎◌, inl, inr, ite, dec_lt, ℕ_discrete, dec_and, dec_not, Bool, true, false, Option,
  none, some, List, [], ◌∷◌, arith, if◌then◌else◌,
}
use bcos_dispatcher.Base.Text.{Text, Text-discrete, TextLt, dec_text_lt}

pub data MessageType : Type 0 where
  txhash message send_back revert finished key_lock revert_key_lock : MessageType

-- What the scheduler reads and sets of a message. Its log entries, which it only hands on to the
-- receipt, and its origin and depth are left out. The hash is the number that its bytes spell.
pub record ExecutionMessage : Type 0 where
  pub kind : MessageType
  pub context_id : ℕ
  pub seq : ℕ
  pub from : Text
  pub to : Text
  pub create : Bool
  pub create_salt : Option ℕ
  pub input : Text
  pub transaction_hash : ℕ
  pub key_locks : List Text
  pub key_lock_acquired : Text
  pub gas_available : ℕ
  pub status : ℕ
  pub new_evm_contract_address : Text
  pub static_call : Bool

-- `message` is null while an executor has it.
pub record ExecutiveState : Type 0 where
  pub context_id : ℕ
  pub call_stack : List ℕ
  pub message : Option ExecutionMessage
  pub error : Bool
  pub current_seq : ℕ
  pub enable_dag : Bool
  pub skip : Bool

pub data TraverseHint : Type 0 where
  pass delete skip_contract update end : TraverseHint

-- A node of `m_executiveStates`, which the list holds in the order of the keys.
pub record Node : Type 0 where
  pub contract : Text
  pub context : ℕ
  pub mapped : ExecutiveState

abbrev pub KeyLt : Node → Node → Type 0
KeyLt m n = TextLt m.contract n.contract ⊎ ((m.contract ≡ n.contract) × (m.context < n.context))

pub dec_key_lt : (m n : Node) → Dec (KeyLt m n)
unfolding dec_text_lt Text-discrete dec_lt
dec_key_lt m n = elim (dec_text_lt m.contract n.contract) [
  | yes p ↦ yes (inl p)
  | no p ↦ elim (dec_and (Text-discrete m.contract n.contract) (dec_lt m.context n.context)) [
    | yes q ↦ yes (inr q)
    | no q ↦ no (ground arith)
  ]
]

abbrev pub SameKey : Node → Node → Type 0
SameKey m n = (m.contract ≡ n.contract) × (m.context ≡ n.context)

abbrev pub dec_same_key : (m n : Node) → Dec (SameKey m n)
unfolding Text-discrete ℕ_discrete
dec_same_key m n = dec_and (Text-discrete m.contract n.contract) (ℕ_discrete m.context n.context)

-- `m_executiveStates.insert`: a node whose key is there already is not inserted, and destroyed.
unfoldable pub insert : Node → List Node → List Node
unfolding dec_key_lt Text-discrete
insert n [] = n ∷ []
insert n (m ∷ ms) =
    ite (dec_same_key n m) (m ∷ ms) (ite (dec_key_lt n m) (n ∷ m ∷ ms) (m ∷ insert n ms))

-- What the loop leaves in the map, the nodes it took out, the last of them first, the state of its
-- callback, and whether an exception ended it.
pub record Traversed (S : Type 0) : Type 0 where
  pub kept : List Node
  pub update_nodes : List ExecutiveState
  pub state : S
  pub thrown : Bool

unfoldable pub keep : {S : Type 0} → Node → Traversed S → Traversed S
keep n t = record t { kept = n ∷ t.kept }

-- The iterator stands behind `upper_bound({contract, INT64_MAX})` or has still to get there: all nodes
-- of the contract, since no context's identifier is larger.
abbrev pub Passes : Option Text → Node → Type 0
Passes none n = ⊥
Passes (some contract) n = ¬ TextLt contract n.contract

pub dec_passes : (skipping : Option Text) (n : Node) → Dec (Passes skipping n)
unfolding dec_text_lt
dec_passes none n = no λ h. h
dec_passes (some contract) n = dec_not (dec_text_lt contract n.contract)

-- The `switch` on the hint for a node; no hint is an exception. The rest of the loop is given the
-- contract that is skipped, the nodes taken out so far and the callback's state.
unfoldable pub follow :
    {S : Type 0}
    → Option TraverseHint
    → Node
    → List Node
    → (Option Text → List ExecutiveState → S → Traversed S)
    → List ExecutiveState
    → S
    → Traversed S
unfolding keep
follow none n later rest nodes s = record {
  kept = n ∷ later;
  update_nodes = nodes;
  state = s;
  thrown = true;
}
follow (some pass) n later rest nodes s = keep n (rest none nodes s)
follow (some delete) n later rest nodes s = rest none nodes s
follow (some skip_contract) n later rest nodes s = keep n (rest (some n.contract) nodes s)
follow (some update) n later rest nodes s = rest none (n.mapped ∷ nodes) s
follow (some end) n later rest nodes s = record {
  kept = n ∷ later;
  update_nodes = nodes;
  state = s;
  thrown = false;
}

-- The loop from an iterator to the end of the map.
unfoldable pub visit :
    {S : Type 0}
    → (ExecutiveState → S → Option TraverseHint × ExecutiveState × S)
    → List Node
    → Option Text
    → List ExecutiveState
    → S
    → Traversed S
unfolding follow keep dec_passes
visit callback [] skipping nodes s = record {
  kept = [];
  update_nodes = nodes;
  state = s;
  thrown = false;
}
visit callback (n ∷ ns) skipping nodes s = elim (dec_passes skipping n) [
  | yes _ ↦ keep n (visit callback ns skipping nodes s)
  | no _ ↦
      let (hint, mapped, s') = callback n.mapped s in
      follow hint (record n { mapped = mapped }) ns (visit callback ns) nodes s'
]

-- A node with its new key. A null message would be read here; no callback asks for that.
unfoldable pub reinsert : Option ExecutionMessage → ExecutiveState → List Node → List Node
unfolding insert
reinsert none x ns = ns
reinsert (some m) x ns = insert (record { contract = m.to; context = x.context_id; mapped = x }) ns

unfoldable pub reinsert_all : List ExecutiveState → List Node → List Node
unfolding reinsert
reinsert_all [] ns = ns
reinsert_all (x ∷ xs) ns = reinsert_all xs (reinsert x.message x ns)

-- The map and the callback's state afterwards, and whether an exception leaves the function: the nodes
-- taken out are then destroyed with the list that holds them.
unfoldable pub traverse_executive :
    {S : Type 0}
    → (ExecutiveState → S → Option TraverseHint × ExecutiveState × S)
    → List Node
    → S
    → List Node × S × Bool
unfolding visit reinsert_all
traverse_executive callback ns s =
    let t = visit callback ns none [] s in
    (if t.thrown then t.kept else reinsert_all t.update_nodes t.kept, t.state, t.thrown)
