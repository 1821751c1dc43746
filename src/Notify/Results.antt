-- ===== src/Notify/Results.antt =====
-- The results of a block whose execution has ended.
use bcos_dispatcher.Base.{
  ℕ, suc, ◌+◌, ◌<◌, ◌≤◌, ◌≡◌, refl, ap, Bool, true, false, Option, none, some, List, [], ◌∷◌,
  length, get_elem?, zero, arith, if◌then◌else◌,
}
use bcos_dispatcher.Base.Text.{Text}
use bcos_dispatcher.KeyLocks.Search.{DepthFirstVisit}
use bcos_dispatcher.Executive.{Node}
use bcos_dispatcher.Block.{Libraries, Receipt, Batch, Block}
use bcos_dispatcher.Block.Create.{Transaction, Setting, create_states}
use bcos_dispatcher.Block.Created.{size}
use bcos_dispatcher.Block.Sends.{has_receipt}
use bcos_dispatcher.Block.Accounts.{Reach, Reach-complete}
use bcos_dispatcher.Notify.{
  SubmitResult, notified, transactions_of, executive_results, nonce_of, submit_result, add_result,
  submit_results, notify, async_notify,
}

-- One result for each transaction from an index on, in their order, with its index, its hash, its receipt
-- and the status of that, and with a nonce exactly in a synchronized block.
abbrev pub Matches :
    Bool → List ℕ → Text → (ℕ → Option Receipt) → ℕ → List Transaction → List SubmitResult → Type 0
Matches sync nonces block_hash receipts i [] [] = Unit {0}
Matches sync nonces block_hash receipts i [] (r ∷ rs) = ⊥
Matches sync nonces block_hash receipts i (tx ∷ txs) [] = ⊥
Matches sync nonces block_hash receipts i (tx ∷ txs) (r ∷ rs) =
    ((r.transaction_index ≡ i)
      × (r.block_hash ≡ block_hash)
      × (r.tx_hash ≡ tx.hash)
      × (receipts i ≡ some r.transaction_receipt)
      × (r.status ≡ r.transaction_receipt.status)
      × (r.nonce ≡ (if sync then get_elem? nonces i else none)))
    × Matches sync nonces block_hash receipts (suc i) txs rs

length-some :
    (nonces : List ℕ) (i : ℕ) → i < length nonces → (nonce : ℕ) × (get_elem? nonces i ≡ some nonce)
length-some [] i h = absurd (omega arith)
length-some (x ∷ xs) zero h = (x, refl)
length-some (x ∷ xs) (suc i) h = length-some xs i (omega arith)

-- The nonce that a result is given.
nonce_of-some :
    (sync : Bool) (nonces : List ℕ) (i : ℕ)
    → (sync ≡ true → i < length nonces)
    → nonce_of sync nonces i ≡ some (if sync then get_elem? nonces i else none)
unfolding nonce_of
nonce_of-some false nonces i h = refl
nonce_of-some true nonces i h = let (nonce, e) = length-some nonces i (h refl) in rw (e) refl

has_receipt-some :
    (r : Option Receipt) → has_receipt r ≡ 1 → (receipt : Receipt) × (r ≡ some receipt)
has_receipt-some none h = absurd (omega (arith, h))
has_receipt-some (some receipt) h = (receipt, refl)

module _ (sync : Bool) (nonces : List ℕ) (block_hash : Text) (receipts : ℕ → Option Receipt) where
  submit_results-Matches :
      (txs : List Transaction) (i : ℕ)
      → ((c : ℕ) → i ≤ c → c < i + length txs → has_receipt (receipts c) ≡ 1)
      → (sync ≡ true → i + length txs ≤ length nonces)
      → (rs : List SubmitResult) × (submit_results sync nonces block_hash i
            (executive_results receipts i txs)
          ≡ some rs)
        × Matches sync nonces block_hash receipts i txs rs
  unfolding submit_results executive_results submit_result add_result
  submit_results-Matches [] i h k = ([], refl, tt)
  submit_results-Matches (tx ∷ txs) i h k =
      let (receipt, e) = has_receipt-some (receipts i) (h i (omega arith) (omega arith)) in
      let (rs, f, m) =
        submit_results-Matches txs (suc i) (λ c p q. h c (omega arith) (omega arith))
          (λ s. omega (arith, k s)) in
      let set = nonce_of-some sync nonces i (λ s. omega (arith, k s)) in
      (
        record {
          transaction_index = i;
          block_hash = block_hash;
          tx_hash = tx.hash;
          status = receipt.status;
          transaction_receipt = receipt;
          nonce = if sync then get_elem? nonces i else none;
        }
            ∷ rs,
        rw (set, e, f) refl,
        ((refl, refl, refl, e, refl, refl), m),
      )

length-transactions_of :
    (metas txs : List Transaction) → length (transactions_of metas txs) ≡ size metas txs
length-transactions_of [] txs = refl
length-transactions_of (meta ∷ metas) txs = refl

-- Once a block is executed, that is, from the states that `asyncExecute` makes a state is reached in
-- which no executive states are left, and no exception has left a check, and if a synchronized block has
-- all its transactions, `asyncNotify` with a notifier reads no null receipt: it hands on a result for
-- each transaction of the block, in their order, each with its index, its hash, its receipt and the
-- status of that.
pub async_notify_complete :
    {E : Type 0} (lib : Libraries) (number : ℕ) (visit_graph : DepthFirstVisit) (e : Setting)
    (metas txs : List Transaction) (ns : List Node) (d : Bool) (batch : Batch E) {t : Block E}
    → create_states e metas txs ≡ some (ns, d)
    → ((c : ℕ) → batch.results c ≡ none)
    → Reach lib number visit_graph (record { states = ns; batch = batch }) t
    → t.states ≡ []
    → (block_hash : Text) (sync : Bool) (nonces : List ℕ)
    → (sync ≡ true → size metas txs ≤ length nonces)
    → (results : List SubmitResult) × (async_notify true number block_hash sync nonces
          (executive_results t.batch.results 0 (transactions_of metas txs))
        ≡ notified number results)
      × Matches sync nonces block_hash t.batch.results 0 (transactions_of metas txs) results
unfolding async_notify notify
async_notify_complete lib number visit_graph e metas txs ns d batch {t} h z r empty block_hash sync
      nonces k =
    let count = length-transactions_of metas txs in
    let (results, f, m) =
      submit_results-Matches sync nonces block_hash t.batch.results (transactions_of metas txs) 0
        (λ c p q. has_all c (omega (arith, count))) (λ s. omega (arith, count, k s)) in
    (results, ap (notify number) f, m)
  where
    has_all : (c : ℕ) → c < size metas txs → has_receipt (t.batch.results c) ≡ 1
    has_all c p =
        ground (arith, Reach-complete lib number visit_graph e metas txs ns d batch h z r empty c)
