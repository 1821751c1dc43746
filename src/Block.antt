-- ===== src/Block.antt =====
-- The batches in which bcos-scheduler/BlockExecutive.cpp executes a block: what `startBatch` sends,
-- what the answers of the executors change, and how `checkBatch` orders what comes next.
pub mod Check
pub mod Sends
pub mod Create
pub mod Created
pub mod Orders
pub mod Accounts
pub mod Exclusive
pub mod Progress
pub mod Reverts
pub mod Sample
mod Tests
pub mod Refines
use bcos_dispatcher.Base.{
  ℕ, suc, ◌+◌, ◌-◌, ◌%◌, ◌^◌, ite, ℕ_discrete, Bool, true, false, ◌&&◌, not, Option, none, some,
  List, [], ◌∷◌, ◌==◌, if◌then◌else◌, decide, dec_memᴰ,
}
use bcos_dispatcher.Base.Text.{Text, Text-discrete}
use bcos_dispatcher.Common.{transaction_gas}
use bcos_dispatcher.KeyLocks
use bcos_dispatcher.KeyLocks.{
  GraphKeyLocks, granted, refused, bad_access, acquire_key_lock,
  get_key_locks_not_holding_by_context,
}
use bcos_dispatcher.Executors.{ExecutorManager, Outcome, returned, dispatch_executor}
use bcos_dispatcher.Address.{new_evm_address, new_evm_address_salted}
use bcos_dispatcher.Batch.{BatchStatus, new_batch}
use bcos_dispatcher.Executive.{
  MessageType, txhash, message, send_back, revert, finished, key_lock, revert_key_lock,
  ExecutionMessage, ExecutiveState, TraverseHint, pass, delete, skip_contract, update, end, Node,
  traverse_executive,
}

-- What other libraries give: two forms of a hash, decimal numbers, and the bytes of a number.
pub record Libraries : Type 0 where
  pub hash : Text → Text
  pub hash_hex : Text → Text
  pub decimal : ℕ → Text
  pub to_big_endian : ℕ → Text

-- What `createReceipt` is given.
pub record Receipt : Type 0 where
  pub gas_available : ℕ
  pub contract_address : Text
  pub status : ℕ
  pub output : Text
  pub block_number : ℕ

-- A message on its way to an executor, and what its `to` was before an address was made for it.
pub record Sent (E : Type 0) : Type 0 where
  pub requested : Text
  pub executor : E
  pub message : ExecutionMessage

-- What a traversal of `startBatch` changes besides the states; `results` are the receipts in
-- `m_executiveResults`, by index.
pub record Batch (E : Type 0) : Type 0 where
  pub called_contract : List Text
  pub status : BatchStatus
  pub key_locks : GraphKeyLocks
  pub executors : ExecutorManager E
  pub results : ℕ → Option Receipt
  pub gas_used : ℕ
  pub sent : List (Sent E)

pub record Block (E : Type 0) : Type 0 where
  pub states : List Node
  pub batch : Batch E

abbrev pub Sending : Type 0 → Type 0
Sending E = Option TraverseHint × ExecutiveState × Batch E

-- `m_gasUsed += (TRANSACTION_GAS - gasAvailable)` on 64 bits.
unfoldable pub add_gas : ℕ → ℕ → ℕ
add_gas gas_used gas_available =
    (gas_used + (transaction_gas + 2 ^ 64 - gas_available % 2 ^ 64) % 2 ^ 64) % 2 ^ 64

abbrev pub is_empty : Text → Bool
is_empty [] = true
is_empty (_ ∷ _) = false

-- Another context has the contract already.
abbrev pub is_called : Text → List Text → Bool
unfolding Text-discrete
is_called to called = not (is_empty to) && decide (dec_memᴰ Text-discrete to called)

module _ (lib : Libraries) (number : ℕ) where
  unfoldable pub made_address : Option ℕ → ExecutionMessage → ℕ → ℕ → Option Text
  made_address (some salt) m contextID seq =
      new_evm_address_salted lib.hash lib.hash_hex lib.to_big_endian m.from m.input salt
  made_address none m contextID seq =
      new_evm_address lib.hash lib.hash_hex lib.decimal number contextID seq

  unfoldable pub address_for : ExecutionMessage → ℕ → ℕ → Option Text
  unfolding made_address
  address_for m contextID seq =
      if is_empty m.to then made_address m.create_salt m contextID seq else some m.to

module _ {E : Type 0} where
  -- The state keeps a message that has not been sent.
  unfoldable pub hand_over :
      Text → ExecutionMessage → ExecutiveState → Batch E → Outcome (Option E) → Sending E
  hand_over requested m x b (returned (some executor)) = (
    some pass,
    record x { message = none },
    record b { sent = record { requested = requested; executor = executor; message = m } ∷ b.sent },
  )
  hand_over requested m x b outcome = (none, record x { message = some m }, b)

  -- From `calledContract.emplace_hint` on. Without an executor a null pointer is called.
  unfoldable pub dispatch : Text → ExecutionMessage → ExecutiveState → Batch E → Sending E
  unfolding hand_over
  dispatch requested m x b =
      let keys = get_key_locks_not_holding_by_context m.to x.context_id b.key_locks in
      let (outcome, executors) = dispatch_executor m.to b.executors in
      hand_over requested (record m { key_locks = keys }) x
        (record b {
          called_contract = m.to ∷ b.called_contract;
          status = record b.status { total = suc b.status.total };
          executors = executors;
        })
        outcome

  -- The empty stack of a last answer: the receipt is made and the state goes.
  unfoldable pub finish : ℕ → ExecutionMessage → ExecutiveState → Batch E → Sending E
  finish number m x b = (
    some delete,
    record x { call_stack = [] },
    record b {
      results = λ c.
          ite (ℕ_discrete c x.context_id)
            (some (record {
              gas_available = m.gas_available;
              contract_address = m.new_evm_contract_address;
              status = m.status;
              output = m.input;
              block_number = number;
            }))
            (b.results c);
      gas_used = add_gas b.gas_used m.gas_available;
    },
  )

  -- FINISHED and REVERT; `pop` of an empty stack is undefined.
  unfoldable pub send_return : ℕ → ExecutionMessage → List ℕ → ExecutiveState → Batch E → Sending E
  unfolding finish dispatch
  send_return number m [] x b = (none, x, b)
  send_return number m (_ ∷ []) x b = finish number m x b
  send_return number m (_ ∷ top ∷ rest) x b =
      dispatch m.to (record m { seq = top; create = false }) (record x { call_stack = top ∷ rest })
        b

  -- A request or a message that was sent back, with the address it goes to, if one could be made.
  unfoldable pub send_addressed :
      Option Text → ExecutionMessage → ExecutiveState → Batch E → Sending E
  unfolding dispatch
  send_addressed none m x b = (none, x, b)
  send_addressed (some to) m x b = dispatch m.to (record m { to = to }) x b

  unfoldable pub send_locked :
      KeyLocks.Answer × GraphKeyLocks → ExecutionMessage → ExecutiveState → Batch E → Sending E
  unfolding dispatch
  send_locked (granted, locks) m x b = dispatch m.to m x (record b { key_locks = locks })
  send_locked (refused, locks) m x b = (some pass, x, record b { key_locks = locks })
  send_locked (bad_access, locks) m x b = (none, x, record b { key_locks = locks })

  -- The fresh `calledContract` and `BatchStatus` of a batch.
  unfoldable pub new_sending : Batch E → Batch E
  new_sending b = record b { called_contract = []; status = new_batch; sent = [] }

  module _ (lib : Libraries) (number : ℕ) where
    -- MESSAGE and TXHASH.
    unfoldable pub send_request : ExecutionMessage → ExecutiveState → Batch E → Sending E
    unfolding send_addressed address_for
    send_request m x b =
        send_addressed (address_for lib number m x.context_id x.current_seq)
          (record m { seq = x.current_seq })
          (record x { call_stack = x.current_seq ∷ x.call_stack; current_seq = suc x.current_seq })
          b

    -- The `switch` on the type.
    unfoldable pub send_kind : MessageType → ExecutionMessage → ExecutiveState → Batch E → Sending E
    unfolding send_request send_return send_locked send_addressed address_for dispatch
    send_kind message m x b = send_request m x b
    send_kind txhash m x b = send_request m x b
    send_kind finished m x b = send_return number m x.call_stack x b
    send_kind revert m x b = send_return number m x.call_stack x b
    send_kind revert_key_lock m x b =
        dispatch m.to (record m { kind = revert; create = false; key_locks = [] }) x b
    send_kind key_lock m x b =
        send_locked (acquire_key_lock m.from m.key_lock_acquired x.context_id m.seq b.key_locks) m x
          b
    send_kind send_back m x b =
        send_addressed (address_for lib number m x.context_id m.seq)
          (record m { kind = if m.transaction_hash == 0 then message else txhash }) x b

    unfoldable pub send_message : Option ExecutionMessage → ExecutiveState → Batch E → Sending E
    unfolding send_kind is_called
    send_message none x b = (none, x, b)
    send_message (some m) x b =
        if is_called m.to b.called_contract
        then (some skip_contract, record x { skip = true }, b)
        else send_kind m.kind m x b

    -- The callback of `startBatch`.
    unfoldable pub send : ExecutiveState → Batch E → Sending E
    unfolding send_message
    send x b =
        if x.error
        then (
          some end,
          x,
          record b { status = record b.status { all_sended = true; error = suc b.status.error } },
        )
        else send_message x.message x b

    -- `startBatch` up to its call of `checkBatch`, and whether an exception ends it there.
    unfoldable pub start_batch : Block E → Block E × Bool
    unfolding send new_sending
    start_batch block =
        let (states, b, thrown) = traverse_executive send block.states (new_sending block.batch) in
        (
          record {
            states = states;
            batch =
                if thrown then b else record b { status = record b.status { all_sended = true } };
          },
          thrown,
        )
