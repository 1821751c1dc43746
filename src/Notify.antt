-- ===== src/Notify.antt =====
-- `asyncNotify` of bcos-scheduler/BlockExecutive.cpp, which makes a result for each transaction of an
-- executed block and hands all of them to the notifier.
pub mod Results
mod Tests
use bcos_dispatcher.Base.{ℕ, suc, Bool, Option, none, some, List, [], ◌∷◌, if◌then◌else◌, get_elem?}
use bcos_dispatcher.Base.Text.{Text}
use bcos_dispatcher.Block.{Receipt}
use bcos_dispatcher.Block.Create.{Transaction}

-- An entry of `m_executiveResults`. Its source, which nothing reads, is left out.
pub record ExecutiveResult : Type 0 where
  pub receipt : Option Receipt
  pub transaction_hash : ℕ

pub record SubmitResult : Type 0 where
  pub transaction_index : ℕ
  pub block_hash : Text
  pub tx_hash : ℕ
  pub status : ℕ
  pub transaction_receipt : Receipt
  pub nonce : Option ℕ

-- What is asked of the notifier, whose answer goes on to the callback. Without a notifier nothing is, and
-- the callback is not called; `undefined` is a read of a null receipt, or past the end.
pub data Notification : Type 0 where
  skipped undefined : Notification
  notified : ℕ → List SubmitResult → Notification

-- The transactions of a block, of which metadata are preferred.
abbrev pub transactions_of : List Transaction → List Transaction → List Transaction
transactions_of [] txs = txs
transactions_of (meta ∷ metas) txs = meta ∷ metas

-- `m_executiveResults`, which `asyncExecute` gives the hashes and `startBatch` the receipts by index.
unfoldable pub executive_results :
    (ℕ → Option Receipt) → ℕ → List Transaction → List ExecutiveResult
executive_results receipts i [] = []
executive_results receipts i (tx ∷ txs) =
    record { receipt = receipts i; transaction_hash = tx.hash }
    ∷ executive_results receipts (suc i) txs

-- The nonce that is set, in a synchronized block only; `none` where the transaction is missing.
unfoldable pub nonce_of : Bool → List ℕ → ℕ → Option (Option ℕ)
nonce_of sync_block nonces index =
    if sync_block
    then elim (get_elem? nonces index) [ none ↦ none | some nonce ↦ some (some nonce) ]
    else some none

unfoldable pub submit_result :
    Text → ℕ → Option (Option ℕ) → Option Receipt → ℕ → Option SubmitResult
submit_result block_hash index none receipt hash = none
submit_result block_hash index (some set) none hash = none
submit_result block_hash index (some set) (some receipt) hash = some (record {
  transaction_index = index;
  block_hash = block_hash;
  tx_hash = hash;
  status = receipt.status;
  transaction_receipt = receipt;
  nonce = set;
})

unfoldable pub add_result :
    Option SubmitResult → Option (List SubmitResult) → Option (List SubmitResult)
add_result none rest = none
add_result (some result) none = none
add_result (some result) (some results) = some (result ∷ results)

-- The loop, from the index on.
unfoldable pub submit_results :
    Bool → List ℕ → Text → ℕ → List ExecutiveResult → Option (List SubmitResult)
unfolding nonce_of submit_result add_result
submit_results sync_block nonces block_hash index [] = some []
submit_results sync_block nonces block_hash index (it ∷ rest) =
    add_result
      (submit_result block_hash index (nonce_of sync_block nonces index) it.receipt
        it.transaction_hash)
      (submit_results sync_block nonces block_hash (suc index) rest)

unfoldable pub notify : ℕ → Option (List SubmitResult) → Notification
notify number none = undefined
notify number (some results) = notified number results

-- The block has a number, a hash, and the nonces of its transactions.
unfoldable pub async_notify : Bool → ℕ → Text → Bool → List ℕ → List ExecutiveResult → Notification
unfolding submit_results notify
async_notify has_notifier number block_hash sync_block nonces results =
    if has_notifier
    then notify number (submit_results sync_block nonces block_hash 0 results)
    else skipped
