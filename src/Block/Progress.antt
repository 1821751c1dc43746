-- ===== src/Block/Progress.antt =====
-- A batch gets on with the first state.
use bcos_dispatcher.Base.{
  ℕ, suc, ◌<◌, ◌≤◌, ◌≡◌, ◌≢◌, refl, sym, subst, ⊎_elim, ◌⊎◌, inl, inr, Bool, true, false, Option,
  none, some, List, [], ◌∷◌, arith, ◌==◌, if◌then◌else◌, if_elim,
}
use bcos_dispatcher.Base.Text.{Text}
use bcos_dispatcher.KeyLocks
use bcos_dispatcher.KeyLocks.{GraphKeyLocks, granted, refused, bad_access, acquire_key_lock}
use bcos_dispatcher.Executors.{
  Outcome, returned, executor_exists, insert_fail, contract_missing, executor_missing, undefined,
  dispatch_executor,
}
use bcos_dispatcher.Executive.{
  MessageType, txhash, message, finished, revert, send_back, key_lock, revert_key_lock,
  ExecutionMessage, ExecutiveState, Node, traverse_executive,
}
use bcos_dispatcher.Executive.Invariants.{traverse_executive-first, traverse_executive-first_thrown}
use bcos_dispatcher.Block.{
  Libraries, Receipt, Batch, Sending, hand_over, dispatch, finish, send_return, send_addressed,
  send_locked, address_for, is_called, send_request, send_kind, send_message, send, new_sending,
  start_batch,
}
use bcos_dispatcher.Block.Sends.{has_receipt, done}

-- A message has been sent, or the context has its receipt.
abbrev pub Advanced : {E : Type 0} → ℕ → Batch E → Type 0
Advanced c b = (0 < b.status.total) ⊎ (done c b ≡ 1)

-- What an earlier state has reached stays.
abbrev Grows : {E : Type 0} → Batch E → Sending E → Type 0
Grows b r = (b.status.total ≤ r.2.status.total) × ((c : ℕ) → done c b ≤ done c r.2)

-- An exception, or an advance.
abbrev Advances : {E : Type 0} → ℕ → Sending E → Type 0
Advances c r = (r.0 ≡ none) ⊎ Advanced c r.2

abbrev Gets : {E : Type 0} → ℕ → Batch E → Sending E → Type 0
Gets c b r = Grows b r × Advances c r

has_receipt_bounded : (r : Option Receipt) → has_receipt r ≤ 1
has_receipt_bounded none = omega arith
has_receipt_bounded (some r) = omega arith

-- Nothing has been called when a batch begins.
uncalled : (to : Text) → ¬ (is_called to [] ≡ true)
unfolding is_called
uncalled [] h = cc
uncalled (c ∷ t) h = cc

module _ {E : Type 0} where
  hand_over-Gets :
      (requested : Text) (m : ExecutionMessage) (x : ExecutiveState) (c : ℕ) (b b' : Batch E)
      (o : Outcome (Option E))
      → b.status.total < b'.status.total
      → ((d : ℕ) → done d b ≤ done d b')
      → Gets c b (hand_over requested m x b' o)
  unfolding hand_over
  hand_over-Gets requested m x c b b' (returned (some e)) h k =
      ((omega arith, k), inr (inl (omega arith)))
  hand_over-Gets requested m x c b b' (returned none) h k = ((omega arith, k), inl refl)
  hand_over-Gets requested m x c b b' executor_exists h k = ((omega arith, k), inl refl)
  hand_over-Gets requested m x c b b' insert_fail h k = ((omega arith, k), inl refl)
  hand_over-Gets requested m x c b b' contract_missing h k = ((omega arith, k), inl refl)
  hand_over-Gets requested m x c b b' executor_missing h k = ((omega arith, k), inl refl)
  hand_over-Gets requested m x c b b' undefined h k = ((omega arith, k), inl refl)

  dispatch-Gets :
      (requested : Text) (m : ExecutionMessage) (x : ExecutiveState) (c : ℕ) (b : Batch E)
      → Gets c b (dispatch requested m x b)
  unfolding dispatch
  dispatch-Gets requested m x c b =
      hand_over-Gets requested _ x c b _ (dispatch_executor m.to b.executors).0 (omega arith)
        (λ d. omega arith)

  finish-Gets :
      (number : ℕ) (m : ExecutionMessage) (x : ExecutiveState) (b : Batch E)
      → Gets x.context_id b (finish number m x b)
  unfolding finish
  finish-Gets number m x b = (
    (omega arith, λ d. ground (arith, has_receipt_bounded (b.results d))),
    inr (inr (ground arith)),
  )

  send_return-Gets :
      (number : ℕ) (m : ExecutionMessage) (stack : List ℕ) (x : ExecutiveState) (b : Batch E)
      → Gets x.context_id b (send_return number m stack x b)
  unfolding send_return
  send_return-Gets number m [] x b = ((omega arith, λ d. omega arith), inl refl)
  send_return-Gets number m (_ ∷ []) x b = finish-Gets number m x b
  send_return-Gets number m (_ ∷ top ∷ rest) x b =
      dispatch-Gets m.to (record m { seq = top; create = false })
        (record x { call_stack = top ∷ rest }) x.context_id b

  send_addressed-Gets :
      (to : Option Text) (m : ExecutionMessage) (x : ExecutiveState) (c : ℕ) (b : Batch E)
      → Gets c b (send_addressed to m x b)
  unfolding send_addressed
  send_addressed-Gets none m x c b = ((omega arith, λ d. omega arith), inl refl)
  send_addressed-Gets (some to) m x c b = dispatch-Gets m.to (record m { to = to }) x c b

  send_locked-Grows :
      (a : KeyLocks.Answer) (l : GraphKeyLocks) (m : ExecutionMessage) (x : ExecutiveState)
      (b : Batch E)
      → Grows b (send_locked (a, l) m x b)
  unfolding send_locked
  send_locked-Grows granted l m x b = (dispatch-Gets m.to m x 0 (record b { key_locks = l })).0
  send_locked-Grows refused l m x b = (omega arith, λ d. omega arith)
  send_locked-Grows bad_access l m x b = (omega arith, λ d. omega arith)

  module _ (lib : Libraries) (number : ℕ) where
    send_request-Gets :
        (m : ExecutionMessage) (x : ExecutiveState) (b : Batch E)
        → Gets x.context_id b (send_request lib number m x b)
    unfolding send_request
    send_request-Gets m x b =
        send_addressed-Gets (address_for lib number m x.context_id x.current_seq)
          (record m { seq = x.current_seq })
          (record x { call_stack = x.current_seq ∷ x.call_stack; current_seq = suc x.current_seq })
          x.context_id b

    -- Only a message that waits for a key lock may get nowhere.
    send_kind-Gets :
        (k : MessageType) (m : ExecutionMessage) (x : ExecutiveState) (b : Batch E)
        → Grows b (send_kind lib number k m x b)
          × (k ≢ key_lock → Advances x.context_id (send_kind lib number k m x b))
    unfolding send_kind
    send_kind-Gets message m x b = let (g, a) = send_request-Gets m x b in (g, λ _. a)
    send_kind-Gets txhash m x b = let (g, a) = send_request-Gets m x b in (g, λ _. a)
    send_kind-Gets finished m x b =
        let (g, a) = send_return-Gets number m x.call_stack x b in (g, λ _. a)
    send_kind-Gets revert m x b =
        let (g, a) = send_return-Gets number m x.call_stack x b in (g, λ _. a)
    send_kind-Gets revert_key_lock m x b =
        let (g, a) =
          dispatch-Gets m.to (record m { kind = revert; create = false; key_locks = [] }) x
            x.context_id b in
        (g, λ _. a)
    send_kind-Gets key_lock m x b =
        let (a, l) = acquire_key_lock m.from m.key_lock_acquired x.context_id m.seq b.key_locks in
        (send_locked-Grows a l m x b, λ h. absurd (h refl))
    send_kind-Gets send_back m x b =
        let (g, a) =
          send_addressed-Gets (address_for lib number m x.context_id m.seq)
            (record m { kind = if m.transaction_hash == 0 then message else txhash }) x x.context_id
            b in
        (g, λ _. a)

    send_message-Grows :
        (o : Option ExecutionMessage) (x : ExecutiveState) (b : Batch E)
        → Grows b (send_message lib number o x b)
    unfolding send_message
    send_message-Grows none x b = (omega arith, λ d. omega arith)
    send_message-Grows (some m) x b =
        if_elim (Grows b) (is_called m.to b.called_contract) _ _
          (λ _. (omega arith, λ d. omega arith)) (λ _. (send_kind-Gets m.kind m x b).0)

    send-Grows : (x : ExecutiveState) (b : Batch E) → Grows b (send lib number x b)
    unfolding send
    send-Grows x b =
        if_elim (Grows b) x.error _ _ (λ _. (omega arith, λ d. omega arith))
          (λ _. send_message-Grows x.message x b)

    send-Advanced :
        (c : ℕ) (x : ExecutiveState) (b : Batch E)
        → Advanced c b
        → Advanced c (send lib number x b).2
    send-Advanced c x b (inl h) = inl (omega (arith, (send-Grows x b).0))
    send-Advanced c x b (inr h) = inr (
        omega
          (arith, (send-Grows x b).1 c, has_receipt_bounded ((send lib number x b).2.results c)))

    send_message-Advances :
        (m : ExecutionMessage) (x : ExecutiveState) (b : Batch E)
        → m.kind ≢ key_lock
        → Advances x.context_id (send_message lib number (some m) x (new_sending b))
    unfolding send_message new_sending
    send_message-Advances m x b k =
        if_elim (Advances x.context_id) (is_called m.to []) _ _
          (λ called. absurd (uncalled m.to called))
          (λ _. (send_kind-Gets m.kind m x (new_sending b)).1 k)

    send-Advances :
        (x : ExecutiveState) (m : ExecutionMessage) (b : Batch E)
        → x.error ≡ false
        → x.message ≡ some m
        → m.kind ≢ key_lock
        → Advances x.context_id (send lib number x (new_sending b))
    unfolding send
    send-Advances x m b e o k =
        if_elim (Advances x.context_id) x.error _ _ (λ t. cc)
          (λ _.
            subst (λ o. Advances x.context_id (send_message lib number o x (new_sending b))) (sym o)
              (send_message-Advances m x b k))

    -- If the first state of the map has no error, and a message that does not ask for a key lock, then
    -- `startBatch` throws, or it sends a message, or the context of that state has its receipt
    -- afterwards.
    pub start_batch-Advanced :
        (n : Node) (ns : List Node) (m : ExecutionMessage) (b : Batch E)
        → n.mapped.error ≡ false
        → n.mapped.message ≡ some m
        → m.kind ≢ key_lock
        → let r = start_batch lib number (record { states = n ∷ ns; batch = b }) in
          (r.1 ≡ true) ⊎ Advanced n.mapped.context_id r.0.batch
    unfolding start_batch
    start_batch-Advanced n ns m b e o k =
        ⊎_elim
          (λ thrown.
            inl (traverse_executive-first_thrown (send lib number) n ns (new_sending b) thrown))
          (λ advanced. inr (kept advanced)) (send-Advances n.mapped m b e o k)
      where
        sent : List Node × Batch E × Bool
        sent = traverse_executive (send lib number) (n ∷ ns) (new_sending b)

        kept :
            Advanced n.mapped.context_id (send lib number n.mapped (new_sending b)).2
            → Advanced n.mapped.context_id
                (start_batch lib number (record { states = n ∷ ns; batch = b })).0.batch
        kept advanced =
            let first : Advanced n.mapped.context_id sent.1 =
              traverse_executive-first (Advanced n.mapped.context_id) (send lib number)
                (send-Advanced n.mapped.context_id) n ns (new_sending b) advanced in
            if_elim (Advanced n.mapped.context_id) sent.2 _ _ (λ _. first) (λ _. first)
