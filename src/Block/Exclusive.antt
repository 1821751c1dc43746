-- ===== src/Block/Exclusive.antt =====
-- In a batch no two contexts work on one contract.
use mathlib.Core.List.Memᴰ
use bcos_dispatcher.Base.{
  ℕ, suc, ◌≡◌, ◌≢◌, refl, sym, subst, Bool, true, false, Option, none, some, List, [], ◌∷◌, Memᴰ,
  Memᴰ-cons, arith, ◌==◌, if◌then◌else◌, if_elim, decide-false, dec_memᴰ,
}
use bcos_dispatcher.Base.Text.{Text, Text-discrete}
use bcos_dispatcher.KeyLocks
use bcos_dispatcher.KeyLocks.{GraphKeyLocks, granted, refused, bad_access, acquire_key_lock}
use bcos_dispatcher.Executors.{
  Outcome, returned, executor_exists, insert_fail, contract_missing, executor_missing, undefined,
  dispatch_executor,
}
use bcos_dispatcher.Executive.{
  MessageType, txhash, message, send_back, revert, finished, key_lock, revert_key_lock,
  ExecutionMessage, ExecutiveState, Node, traverse_executive,
}
use bcos_dispatcher.Executive.Invariants.{traverse_executive-state}
use bcos_dispatcher.Block.{
  Libraries, Sent, Batch, Block, Sending, is_empty, hand_over, dispatch, finish, send_return,
  send_addressed, send_locked, made_address, address_for, send_request, send_kind, is_called,
  send_message, send, new_sending, start_batch,
}

abbrev pub tos : {E : Type 0} → List (Sent E) → List Text
tos [] = []
tos (s ∷ ss) = s.message.to ∷ tos ss

-- A message that came with a contract goes to that contract, and none of the earlier ones does.
abbrev pub Sole : {E : Type 0} → Sent E → List (Sent E) → Type 0
Sole s earlier = s.requested ≢ [] → (s.message.to ≡ s.requested) × ¬ Memᴰ s.requested (tos earlier)

-- The messages of a batch, the last first.
abbrev pub Exclusive : {E : Type 0} → List (Sent E) → Type 0
Exclusive [] = Unit {0}
Exclusive (s ∷ ss) = Sole s ss × Exclusive ss

-- `calledContract` holds the contract of every message that was sent.
abbrev Noted : {E : Type 0} → Batch E → Type 0
Noted b = Exclusive b.sent × ((t : Text) → Memᴰ t (tos b.sent) → Memᴰ t b.called_contract)

-- The contract, if there is one, has not been called.
abbrev Free : {E : Type 0} → Text → Text → Batch E → Type 0
Free to requested b = requested ≢ [] → (to ≡ requested) × ¬ Memᴰ requested b.called_contract

-- An address is made only where there is none.
abbrev Addressed : Text → Option Text → Type 0
Addressed requested none = Unit {0}
Addressed requested (some to) = requested ≢ [] → to ≡ requested

nonempty : (t : Text) → is_empty t ≡ true → t ≡ []
nonempty [] h = refl
nonempty (c ∷ t) h = cc

address_for-Addressed :
    (lib : Libraries) (number : ℕ) (m : ExecutionMessage) (contextID seq : ℕ)
    → Addressed m.to (address_for lib number m contextID seq)
unfolding address_for
address_for-Addressed lib number m contextID seq =
    if_elim (Addressed m.to) (is_empty m.to) _ _
      (λ e. made (made_address lib number m.create_salt m contextID seq) (nonempty m.to e))
      (λ _ _. refl)
  where
    made : (o : Option Text) → m.to ≡ [] → Addressed m.to o
    made none e = tt
    made (some to) e = λ r. absurd (r e)

module _ {E : Type 0} where
  hand_over-Noted :
      (requested : Text) (m : ExecutionMessage) (x : ExecutiveState) (b : Batch E)
      (called : List Text) (o : Outcome (Option E))
      → Exclusive b.sent
      → ((t : Text) → Memᴰ t (tos b.sent) → Memᴰ t called)
      → (requested ≢ [] → (m.to ≡ requested) × ¬ Memᴰ requested called)
      → b.called_contract ≡ m.to ∷ called
      → Noted (hand_over requested m x b o).2
  unfolding hand_over
  hand_over-Noted requested m x b called (returned (some e)) p q r s = (
    ((λ h. ((r h).0, λ k. (r h).1 (q requested k))), p),
    λ t k.
        subst (Memᴰ t) (sym s)
          (ground (arith, Memᴰ-cons t m.to (tos b.sent), Memᴰ-cons t m.to called, q t)),
  )
  hand_over-Noted requested m x b called (returned none) p q r s =
      (p, λ t k. subst (Memᴰ t) (sym s) (Memᴰ.tail (q t k)))
  hand_over-Noted requested m x b called executor_exists p q r s =
      (p, λ t k. subst (Memᴰ t) (sym s) (Memᴰ.tail (q t k)))
  hand_over-Noted requested m x b called insert_fail p q r s =
      (p, λ t k. subst (Memᴰ t) (sym s) (Memᴰ.tail (q t k)))
  hand_over-Noted requested m x b called contract_missing p q r s =
      (p, λ t k. subst (Memᴰ t) (sym s) (Memᴰ.tail (q t k)))
  hand_over-Noted requested m x b called executor_missing p q r s =
      (p, λ t k. subst (Memᴰ t) (sym s) (Memᴰ.tail (q t k)))
  hand_over-Noted requested m x b called undefined p q r s =
      (p, λ t k. subst (Memᴰ t) (sym s) (Memᴰ.tail (q t k)))

  dispatch-Noted :
      (requested : Text) (m : ExecutionMessage) (x : ExecutiveState) (b : Batch E)
      → Noted b
      → Free m.to requested b
      → Noted (dispatch requested m x b).2
  unfolding dispatch
  dispatch-Noted requested m x b h f =
      hand_over-Noted requested _ x _ b.called_contract (dispatch_executor m.to b.executors).0 h.0
        h.1 f refl

  send_return-Noted :
      (number : ℕ) (m : ExecutionMessage) (stack : List ℕ) (x : ExecutiveState) (b : Batch E)
      → Noted b
      → Free m.to m.to b
      → Noted (send_return number m stack x b).2
  unfolding send_return finish
  send_return-Noted number m [] x b h f = h
  send_return-Noted number m (_ ∷ []) x b h f = h
  send_return-Noted number m (_ ∷ top ∷ rest) x b h f =
      dispatch-Noted m.to (record m { seq = top; create = false })
        (record x { call_stack = top ∷ rest }) b h f

  send_locked-Noted :
      (a : KeyLocks.Answer) (l : GraphKeyLocks) (m : ExecutionMessage) (x : ExecutiveState)
      (b : Batch E)
      → Noted b
      → Free m.to m.to b
      → Noted (send_locked (a, l) m x b).2
  unfolding send_locked
  send_locked-Noted granted l m x b h f = dispatch-Noted m.to m x (record b { key_locks = l }) h f
  send_locked-Noted refused l m x b h f = h
  send_locked-Noted bad_access l m x b h f = h

  send_addressed-Noted :
      (o : Option Text) (m : ExecutionMessage) (x : ExecutiveState) (b : Batch E)
      → Noted b
      → Free m.to m.to b
      → Addressed m.to o
      → Noted (send_addressed o m x b).2
  unfolding send_addressed
  send_addressed-Noted none m x b h f a = h
  send_addressed-Noted (some to) m x b h f a =
      dispatch-Noted m.to (record m { to = to }) x b h (λ r. (a r, (f r).1))

  module _ (lib : Libraries) (number : ℕ) where
    send_request-Noted :
        (m : ExecutionMessage) (x : ExecutiveState) (b : Batch E)
        → Noted b
        → Free m.to m.to b
        → Noted (send_request lib number m x b).2
    unfolding send_request
    send_request-Noted m x b h f =
        send_addressed-Noted (address_for lib number m x.context_id x.current_seq)
          (record m { seq = x.current_seq })
          (record x { call_stack = x.current_seq ∷ x.call_stack; current_seq = suc x.current_seq })
          b h f (address_for-Addressed lib number m x.context_id x.current_seq)

    send_kind-Noted :
        (k : MessageType) (m : ExecutionMessage) (x : ExecutiveState) (b : Batch E)
        → Noted b
        → Free m.to m.to b
        → Noted (send_kind lib number k m x b).2
    unfolding send_kind
    send_kind-Noted message m x b h f = send_request-Noted m x b h f
    send_kind-Noted txhash m x b h f = send_request-Noted m x b h f
    send_kind-Noted finished m x b h f = send_return-Noted number m x.call_stack x b h f
    send_kind-Noted revert m x b h f = send_return-Noted number m x.call_stack x b h f
    send_kind-Noted revert_key_lock m x b h f =
        dispatch-Noted m.to (record m { kind = revert; create = false; key_locks = [] }) x b h f
    send_kind-Noted key_lock m x b h f =
        let (a, l) = acquire_key_lock m.from m.key_lock_acquired x.context_id m.seq b.key_locks in
        send_locked-Noted a l m x b h f
    send_kind-Noted send_back m x b h f =
        send_addressed-Noted (address_for lib number m x.context_id m.seq)
          (record m { kind = if m.transaction_hash == 0 then message else txhash }) x b h f
          (address_for-Addressed lib number m x.context_id m.seq)

    Free-uncalled :
        (to : Text) (b : Batch E) → is_called to b.called_contract ≡ false → Free to to b
    unfolding is_called
    Free-uncalled [] b e r = absurd (r refl)
    Free-uncalled (c ∷ t) b e r =
        (refl, λ k. decide-false (dec_memᴰ Text-discrete (c ∷ t) b.called_contract) e k)

    send_message-Noted :
        (o : Option ExecutionMessage) (x : ExecutiveState) (b : Batch E)
        → Noted b
        → Noted (send_message lib number o x b).2
    unfolding send_message
    send_message-Noted none x b h = h
    send_message-Noted (some m) x b h =
        if_elim (λ (r : Sending E). Noted r.2) (is_called m.to b.called_contract) _ _ (λ _. h)
          (λ e. send_kind-Noted m.kind m x b h (Free-uncalled m.to b e))

    send-Noted : (x : ExecutiveState) (b : Batch E) → Noted b → Noted (send lib number x b).2
    unfolding send
    send-Noted x b h =
        if_elim (λ (r : Sending E). Noted r.2) x.error _ _ (λ _. h)
          (λ _. send_message-Noted x.message x b h)

    -- Within one batch, `startBatch` sends a message that comes with a contract to that contract, and
    -- only if no message has been sent to it before.
    pub start_batch-Exclusive :
        (block : Block E) → Exclusive (start_batch lib number block).0.batch.sent
    unfolding start_batch new_sending
    start_batch-Exclusive block =
        if_elim (λ (b : Batch E). Exclusive b.sent) sent.2 _ _ (λ _. noted) (λ _. noted)
      where
        sent : List Node × Batch E × Bool
        sent = traverse_executive (send lib number) block.states (new_sending block.batch)

        noted : Exclusive sent.1.sent
        noted =
            (traverse_executive-state Noted (send lib number) send-Noted block.states
              (new_sending block.batch) (tt, λ t k. absurd (Memᴰ.not-nil k))).0
