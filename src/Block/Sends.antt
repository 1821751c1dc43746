-- ===== src/Block/Sends.antt =====
-- What one call of the callback of `startBatch` leaves as it was.
use bcos_dispatcher.Base.{
  ℕ, suc, ◌+◌, ◌≡◌, ◌≢◌, refl, false, Option, none, some, List, [], ◌∷◌, arith, ◌==◌, if◌then◌else◌,
  if_elim,
}
use bcos_dispatcher.Base.Text.{Text}
use bcos_dispatcher.KeyLocks
use bcos_dispatcher.KeyLocks.{
  GraphKeyLocks, granted, refused, bad_access, acquire_key_lock,
  get_key_locks_not_holding_by_context,
}
use bcos_dispatcher.Executors.{
  Outcome, returned, executor_exists, insert_fail, contract_missing, executor_missing, undefined,
  dispatch_executor,
}
use bcos_dispatcher.Executive.{
  MessageType, txhash, message, send_back, revert, finished, key_lock, revert_key_lock,
  ExecutionMessage, ExecutiveState, update,
}
use bcos_dispatcher.Executive.Counts.{Careful}
use bcos_dispatcher.Executive.Tallies.{kept_one, Tallies}
use bcos_dispatcher.Block.{
  Libraries, Receipt, Batch, Sending, hand_over, dispatch, finish, send_return, send_addressed,
  send_locked, address_for, send_request, send_kind, is_called, send_message, send,
}

-- Whether the context has its receipt.
abbrev pub has_receipt : Option Receipt → ℕ
has_receipt none = 0
has_receipt (some r) = 1

abbrev pub done : {E : Type 0} → ℕ → Batch E → ℕ
done c b = has_receipt (b.results c)

-- The state keeps its context and is not to be moved, and a receipt is written exactly for a state that
-- is deleted.
abbrev pub Settles : {E : Type 0} → ℕ → (ℕ → Option Receipt) → Sending E → Type 0
Settles i results (hint, x', b') =
    (x'.context_id ≡ i)
    × (hint ≢ some update)
    × (has_receipt (results i) ≡ 0
        → (c : ℕ)
        → kept_one c hint i + done c b' ≡ (if i == c then 1 else 0) + has_receipt (results c))

module _ {E : Type 0} where
  hand_over-Settles :
      (requested : Text) (m : ExecutionMessage) (x : ExecutiveState) (b : Batch E)
      (o : Outcome (Option E))
      → Settles x.context_id b.results (hand_over requested m x b o)
  unfolding hand_over
  hand_over-Settles requested m x b (returned (some e)) = (refl, λ h. cc, λ z c. refl)
  hand_over-Settles requested m x b (returned none) = (refl, λ h. cc, λ z c. refl)
  hand_over-Settles requested m x b executor_exists = (refl, λ h. cc, λ z c. refl)
  hand_over-Settles requested m x b insert_fail = (refl, λ h. cc, λ z c. refl)
  hand_over-Settles requested m x b contract_missing = (refl, λ h. cc, λ z c. refl)
  hand_over-Settles requested m x b executor_missing = (refl, λ h. cc, λ z c. refl)
  hand_over-Settles requested m x b undefined = (refl, λ h. cc, λ z c. refl)

  dispatch-Settles :
      (requested : Text) (m : ExecutionMessage) (x : ExecutiveState) (b : Batch E)
      → Settles x.context_id b.results (dispatch requested m x b)
  unfolding dispatch
  dispatch-Settles requested m x b =
      hand_over-Settles requested _ x _ (dispatch_executor m.to b.executors).0

  finish-Settles :
      (number : ℕ) (m : ExecutionMessage) (x : ExecutiveState) (b : Batch E)
      → Settles x.context_id b.results (finish number m x b)
  unfolding finish
  finish-Settles number m x b = (refl, λ h. cc, λ z c. ground arith)

  send_return-Settles :
      (number : ℕ) (m : ExecutionMessage) (stack : List ℕ) (x : ExecutiveState) (b : Batch E)
      → Settles x.context_id b.results (send_return number m stack x b)
  unfolding send_return
  send_return-Settles number m [] x b = (refl, λ h. cc, λ z c. refl)
  send_return-Settles number m (_ ∷ []) x b = finish-Settles number m x b
  send_return-Settles number m (_ ∷ top ∷ rest) x b =
      dispatch-Settles m.to (record m { seq = top; create = false })
        (record x { call_stack = top ∷ rest }) b

  send_addressed-Settles :
      (to : Option Text) (m : ExecutionMessage) (x : ExecutiveState) (b : Batch E)
      → Settles x.context_id b.results (send_addressed to m x b)
  unfolding send_addressed
  send_addressed-Settles none m x b = (refl, λ h. cc, λ z c. refl)
  send_addressed-Settles (some to) m x b = dispatch-Settles m.to (record m { to = to }) x b

  send_locked-Settles :
      (a : KeyLocks.Answer) (l : GraphKeyLocks) (m : ExecutionMessage) (x : ExecutiveState)
      (b : Batch E)
      → Settles x.context_id b.results (send_locked (a, l) m x b)
  unfolding send_locked
  send_locked-Settles granted l m x b = dispatch-Settles m.to m x (record b { key_locks = l })
  send_locked-Settles refused l m x b = (refl, λ h. cc, λ z c. refl)
  send_locked-Settles bad_access l m x b = (refl, λ h. cc, λ z c. refl)

  module _ (lib : Libraries) (number : ℕ) where
    send_request-Settles :
        (m : ExecutionMessage) (x : ExecutiveState) (b : Batch E)
        → Settles x.context_id b.results (send_request lib number m x b)
    unfolding send_request
    send_request-Settles m x b =
        send_addressed-Settles (address_for lib number m x.context_id x.current_seq)
          (record m { seq = x.current_seq })
          (record x { call_stack = x.current_seq ∷ x.call_stack; current_seq = suc x.current_seq })
          b

    send_kind-Settles :
        (k : MessageType) (m : ExecutionMessage) (x : ExecutiveState) (b : Batch E)
        → Settles x.context_id b.results (send_kind lib number k m x b)
    unfolding send_kind
    send_kind-Settles message m x b = send_request-Settles m x b
    send_kind-Settles txhash m x b = send_request-Settles m x b
    send_kind-Settles finished m x b = send_return-Settles number m x.call_stack x b
    send_kind-Settles revert m x b = send_return-Settles number m x.call_stack x b
    send_kind-Settles revert_key_lock m x b =
        dispatch-Settles m.to (record m { kind = revert; create = false; key_locks = [] }) x b
    send_kind-Settles key_lock m x b =
        send_locked-Settles
          (acquire_key_lock m.from m.key_lock_acquired x.context_id m.seq b.key_locks).0
          (acquire_key_lock m.from m.key_lock_acquired x.context_id m.seq b.key_locks).1 m x b
    send_kind-Settles send_back m x b =
        send_addressed-Settles (address_for lib number m x.context_id m.seq)
          (record m { kind = if m.transaction_hash == 0 then message else txhash }) x b

    send_message-Settles :
        (o : Option ExecutionMessage) (x : ExecutiveState) (b : Batch E)
        → Settles x.context_id b.results (send_message lib number o x b)
    unfolding send_message
    send_message-Settles none x b = (refl, λ h. cc, λ z c. refl)
    send_message-Settles (some m) x b =
        if_elim (Settles x.context_id b.results) (is_called m.to b.called_contract) _ _
          (λ _. (refl, λ h. cc, λ z c. refl)) (λ _. send_kind-Settles m.kind m x b)

    pub send-Settles :
        (x : ExecutiveState) (b : Batch E) → Settles x.context_id b.results (send lib number x b)
    unfolding send
    send-Settles x b =
        if_elim (Settles x.context_id b.results) x.error _ _ (λ _. (refl, λ h. cc, λ z c. refl))
          (λ _. send_message-Settles x.message x b)

    pub send-Careful : Careful (send {E = E} lib number)
    send-Careful = record {
      same_context = λ x b. (send-Settles x b).0;
      has_message = λ x b h. absurd ((send-Settles x b).1 h);
    }

    pub send-Tallies : Tallies (done {E = E}) (send lib number)
    send-Tallies x b z c = (send-Settles x b).2 z c
