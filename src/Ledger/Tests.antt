-- ===== src/Ledger/Tests.antt =====
-- The answers to `asyncGetLedgerConfig` at concrete values.
use bcos_dispatcher.Base.{
  ℕ, zero, suc, ◌<◌, ◌≡◌, refl, true, false, inl, inr, Option, none, some, List, [], ◌∷◌, arith,
}
use bcos_dispatcher.Base.Text.{Text}
use bcos_dispatcher.Ledger.{
  Step, answered, tested, LedgerConfig, node_list, config, number, block_hash, with_config, store,
  async_get_ledger_config,
}
use bcos_dispatcher.Ledger.Late.{answers_of}
use bcos_dispatcher.Ledger.Collected.{
  Answered, async_get_ledger_config-Says, async_get_ledger_config-SomeUnread,
}

-- A single digit is read.
abbrev parse : Text → Option ℕ
parse [] = none
parse (c ∷ t) = some c

abbrev fresh : LedgerConfig Text
fresh = record {
  consensus_node_list = [];
  observer_node_list = [];
  block_tx_count_limit = 0;
  leader_switch_period = 0;
  block_number = 0;
  hash = [];
}

abbrev stored : LedgerConfig Text
stored = record {
  consensus_node_list = 1 ∷ [];
  observer_node_list = 2 ∷ [];
  block_tx_count_limit = 1000;
  leader_switch_period = 1;
  block_number = 9;
  hash = 7 ∷ [];
}

-- The hash comes before the number, and the two last threads cross: both call back.
abbrev steps : List (Step Text)
steps =
    answered false (config 1 (1 ∷ []))
    ∷ tested
    ∷ answered false (block_hash (7 ∷ []))
    ∷ answered false (node_list true (1 ∷ []))
    ∷ tested
    ∷ tested
    ∷ answered false (number 9)
    ∷ tested
    ∷ answered false (node_list false (2 ∷ []))
    ∷ answered false (config 0 (1000 ∷ []))
    ∷ tested
    ∷ tested
    ∷ []

all-Answered : (k : ℕ) → k < 6 → Answered k (answers_of steps)
all-Answered zero h = inr (inr (inl refl))
all-Answered (suc zero) h = inr (inr (inr (inr (inl refl))))
all-Answered (suc (suc zero)) h = inr (inr (inr (inr (inr (inl refl)))))
all-Answered (suc (suc (suc zero))) h = inl refl
all-Answered (suc (suc (suc (suc zero)))) h = inr (inr (inr (inl refl)))
all-Answered (suc (suc (suc (suc (suc zero))))) h = inr (inl refl)
all-Answered (suc (suc (suc (suc (suc (suc k)))))) h = absurd (omega arith)

async_get_ledger_config-Says_example :
    (async_get_ledger_config parse fresh steps ≡ with_config stored ∷ with_config stored ∷ [])
    × (0 < 2)
async_get_ledger_config-Says_example =
    async_get_ledger_config-Says parse fresh stored steps refl
      (tt, (tt, (tt, (tt, (tt, (tt, tt)))))) (refl, (refl, (refl, (refl, (refl, (refl, tt)))))) refl
      all-Answered

-- The limit is an empty text.
abbrev unread : List (Step Text)
unread =
    answered false (config 1 (1 ∷ []))
    ∷ tested
    ∷ answered false (block_hash [])
    ∷ tested
    ∷ answered false (node_list true (1 ∷ []))
    ∷ tested
    ∷ answered false (number 9)
    ∷ tested
    ∷ answered false (node_list false (2 ∷ []))
    ∷ tested
    ∷ answered false (config 0 [])
    ∷ []

async_get_ledger_config-SomeUnread_example : async_get_ledger_config parse fresh unread ≡ []
unfolding store
async_get_ledger_config-SomeUnread_example =
    async_get_ledger_config-SomeUnread parse fresh unread refl
      (inr (inr (inr (inr (inr (inl (refl, λ d. refl)))))))
