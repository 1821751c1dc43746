-- ===== src/Block/Orders.antt =====
-- What the callbacks of `checkBatch` do to a state.
use bcos_dispatcher.Base.{ℕ, ◌≡◌, ◌≢◌, refl, sym, ◌∙◌, Option, none, some, arith, if_elim}
use bcos_dispatcher.KeyLocks
use bcos_dispatcher.KeyLocks.{GraphKeyLocks, granted, refused, bad_access, batch_acquire_key_lock}
use bcos_dispatcher.KeyLocks.Search.{DepthFirstVisit}
use bcos_dispatcher.KeyLocks.Deadlock.{detect_dead_lock}
use bcos_dispatcher.Executive.{
  MessageType, txhash, message, send_back, revert, finished, key_lock, revert_key_lock, pass,
  delete, ExecutionMessage, ExecutiveState, TraverseHint, update, visit,
}
use bcos_dispatcher.Executive.Counts.{Callback, Careful}
use bcos_dispatcher.Block.Check.{
  order_by, order_kind, order_message, order, revert_first, find_dead_lock,
}

-- What a callback of `checkBatch` does to a state: its context stays, it is not deleted, and it is
-- moved only with a message.
abbrev pub Orders :
    Option ExecutionMessage → ℕ → Option TraverseHint × ExecutiveState × GraphKeyLocks → Type 0
Orders o i (hint, x, l) =
    (x.context_id ≡ i) × (hint ≢ some delete) × (hint ≡ some update → (o ≢ none) × (x.message ≡ o))

order_by-Orders :
    (a : KeyLocks.Answer) (l : GraphKeyLocks) (m : ExecutionMessage) (hint : TraverseHint)
    (x : ExecutiveState)
    → x.message ≡ some m
    → hint ≢ delete
    → Orders (some m) x.context_id (order_by (a, l) hint x)
unfolding order_by
order_by-Orders granted l m hint x e n = (refl, λ h. n (ground arith), λ h. (λ q. cc, e))
order_by-Orders refused l m hint x e n = (refl, λ h. cc, λ h. cc)
order_by-Orders bad_access l m hint x e n = (refl, λ h. cc, λ h. cc)

order_kind-Orders :
    (k : MessageType) (m : ExecutionMessage) (x : ExecutiveState) (l : GraphKeyLocks)
    → x.message ≡ some m
    → Orders (some m) x.context_id (order_kind k m x l)
unfolding order_kind
order_kind-Orders message m x l e =
    order_by-Orders (batch_acquire_key_lock m.from m.key_locks m.context_id m.seq l).0 _ m update x
      e (λ h. cc)
order_kind-Orders key_lock m x l e =
    order_by-Orders (batch_acquire_key_lock m.from m.key_locks m.context_id m.seq l).0 _ m pass x e
      (λ h. cc)
order_kind-Orders finished m x l e = (refl, λ h. cc, λ h. (λ q. cc, e))
order_kind-Orders revert m x l e = (refl, λ h. cc, λ h. (λ q. cc, e))
order_kind-Orders revert_key_lock m x l e = (refl, λ h. cc, λ h. cc)
order_kind-Orders txhash m x l e = (refl, λ h. cc, λ h. cc)
order_kind-Orders send_back m x l e = (refl, λ h. cc, λ h. cc)

order_message-Orders :
    (o : Option ExecutionMessage) (x : ExecutiveState) (l : GraphKeyLocks)
    → x.message ≡ o
    → Orders o x.context_id (order_message o x l)
unfolding order_message
order_message-Orders none x l e = (refl, λ h. cc, λ h. cc)
order_message-Orders (some m) x l e = order_kind-Orders m.kind m x l e

pub order-Orders :
    (x : ExecutiveState) (l : GraphKeyLocks) → Orders x.message x.context_id (order x l)
unfolding order
order-Orders x l =
    if_elim (Orders x.message x.context_id) x.skip _ _ (λ _. (refl, λ h. cc, λ h. cc))
      (λ _. order_message-Orders x.message x l refl)

revert_first-Orders :
    (o : Option ExecutionMessage) (x : ExecutiveState) (l : GraphKeyLocks)
    → Orders x.message x.context_id ((revert_first o x).0, (revert_first o x).1, l)
unfolding revert_first
revert_first-Orders none x l = (refl, λ h. cc, λ h. cc)
revert_first-Orders (some m) x l = (refl, λ h. cc, λ h. cc)

pub find_dead_lock-Orders :
    (visit : DepthFirstVisit) (x : ExecutiveState) (l : GraphKeyLocks)
    → Orders x.message x.context_id (find_dead_lock visit x l)
unfolding find_dead_lock
find_dead_lock-Orders visit x l =
    if_elim (Orders x.message x.context_id) x.skip _ _ (λ _. (refl, λ h. cc, λ h. cc))
      (λ _.
        if_elim (Orders x.message x.context_id) (detect_dead_lock visit x.context_id l) _ _
          (λ _. revert_first-Orders x.message x l) (λ _. (refl, λ h. cc, λ h. cc)))

pub Careful-of_Orders :
    (callback : Callback GraphKeyLocks)
    → ((x : ExecutiveState) (l : GraphKeyLocks) → Orders x.message x.context_id (callback x l))
    → Careful callback
Careful-of_Orders callback h = record {
  same_context = λ x l. (h x l).0;
  has_message = λ x l e q. ((h x l).2 e).0 (sym ((h x l).2 e).1 ∙ q);
}
