-- ===== src/Ledger/Collected.antt =====
-- The six answers to `asyncGetLedgerConfig`, in any order of the steps of their threads.
use bcos_dispatcher.Base.{
  ℕ, zero, suc, ◌+◌, ◌<◌, ◌≤◌, ◌≡◌, refl, ap, Bool, true, false, ◌||◌, ◌⊎◌, inl, inr, Option, none,
  some, List, [], ◌∷◌, length, arith, ◌∙◌, replicate, ℕ_discrete, All, Option-cases,
}
use bcos_dispatcher.Base.Text.{Text}
use bcos_dispatcher.Ledger.{
  Step, answered, tested, LedgerConfig, LedgerAnswer, node_list, config, number, block_hash,
  Summary, with_config, set_limit, set_period, store, report, count_stored, collect, run,
  async_get_ledger_config,
}
use bcos_dispatcher.Ledger.Late.{answers_of, late_tests, Followed, Followed-late}

module _ {N : Type 0} where
  abbrev pub any_error : List (Bool × LedgerAnswer N) → Bool
  any_error [] = false
  any_error ((error, a) ∷ answers) = error || any_error answers

  -- Which of the six questions it answers.
  abbrev pub question : LedgerAnswer N → ℕ
  question (node_list true list) = 0
  question (node_list false list) = 1
  question (config zero value) = 2
  question (config (suc zero) value) = 3
  question (config (suc (suc type)) value) = 6
  question (number n) = 4
  question (block_hash h) = 5

  abbrev pub Answered : ℕ → List (Bool × LedgerAnswer N) → Type 0
  Answered k [] = ⊥
  Answered k ((error, a) ∷ answers) = (question a ≡ k) ⊎ Answered k answers

  module _ (parse : Text → Option ℕ) where
    -- The answer is what the configuration says; numbers can be read.
    abbrev pub Says : LedgerConfig N → Bool × LedgerAnswer N → Type 0
    Says c (error, node_list true list) = list ≡ c.consensus_node_list
    Says c (error, node_list false list) = list ≡ c.observer_node_list
    Says c (error, config zero value) = parse value ≡ some c.block_tx_count_limit
    Says c (error, config (suc zero) value) = parse value ≡ some c.leader_switch_period
    Says c (error, config (suc (suc type)) value) = ⊥
    Says c (error, number n) = n ≡ c.block_number
    Says c (error, block_hash h) = h ≡ c.hash

    -- What is settled, or still to come.
    abbrev Open : LedgerConfig N → LedgerConfig N → List (Bool × LedgerAnswer N) → Type 0
    Open c d answers =
        ((d.consensus_node_list ≡ c.consensus_node_list) ⊎ Answered 0 answers)
        × ((d.observer_node_list ≡ c.observer_node_list) ⊎ Answered 1 answers)
        × ((d.block_tx_count_limit ≡ c.block_tx_count_limit) ⊎ Answered 2 answers)
        × ((d.leader_switch_period ≡ c.leader_switch_period) ⊎ Answered 3 answers)
        × ((d.block_number ≡ c.block_number) ⊎ Answered 4 answers)
        × ((d.hash ≡ c.hash) ⊎ Answered 5 answers)

    -- Storing an answer that says so settles its question and unsettles none.
    store-Open :
        (c d : LedgerConfig N) (error : Bool) (a : LedgerAnswer N)
        (answers : List (Bool × LedgerAnswer N))
        → Says c (error, a)
        → Open c d ((error, a) ∷ answers)
        → (d' : LedgerConfig N) × (store parse a d ≡ some d') × Open c d' answers
    unfolding store set_limit set_period
    store-Open c d error (node_list true list) answers h o =
        (record d { consensus_node_list = list }, refl, ground arith)
    store-Open c d error (node_list false list) answers h o =
        (record d { observer_node_list = list }, refl, ground arith)
    store-Open c d error (config zero value) answers h o =
        (record d { block_tx_count_limit = c.block_tx_count_limit }, ground arith, ground arith)
    store-Open c d error (config (suc zero) value) answers h o =
        (record d { leader_switch_period = c.leader_switch_period }, ground arith, ground arith)
    store-Open c d error (config (suc (suc type)) value) answers h o = absurd h
    store-Open c d error (number n) answers h o =
        (record d { block_number = n }, refl, ground arith)
    store-Open c d error (block_hash x) answers h o = (record d { hash = x }, refl, ground arith)

    -- With no answer to come the configuration is settled.
    settled :
        (c d : LedgerConfig N) (answers : List (Bool × LedgerAnswer N))
        → length answers ≡ 0
        → Open c d answers
        → d ≡ c
    settled c d [] z o = ground arith
    settled c d (a ∷ answers) z o = absurd (omega (arith, z))

    run-Open :
        (c : LedgerConfig N) (steps : List (Step N)) (s : Summary N)
        → All (Says c) (answers_of steps)
        → s.success + s.failed + length (answers_of steps) ≡ 6
        → any_error (answers_of steps) ≡ false
        → s.failed ≡ 0
        → Open c s.ledger_config (answers_of steps)
        → run parse steps s ≡ replicate (late_tests steps) (with_config c)
    unfolding run collect count_stored report
    run-Open c [] s h n e f o = refl
    run-Open c (answered true a ∷ steps) s h n e f o = cc
    run-Open c (answered false a ∷ steps) s h n e f o =
        let (d, p, q) = store-Open c s.ledger_config false a (answers_of steps) h.0 o in
        ap (λ stored. run parse steps (count_stored stored s)) p
        ∙ run-Open c steps (record s { success = suc s.success; ledger_config = d }) h.1
            (omega (arith, n)) e f q
    run-Open c (tested ∷ steps) s h n e f o =
        let ih = run-Open c steps s h n e f o in
        elim (ℕ_discrete (length (answers_of steps)) 0) [
          | yes z ↦
              let same : s.ledger_config ≡ c = settled c s.ledger_config (answers_of steps) z o in
              ground (arith, ap with_config same)
          | no z ↦ ground arith
        ]

    -- The answers to the six questions of `asyncGetLedgerConfig` are collected in any order, each followed
    -- by its test, and these steps in any order among the threads: if each question is answered, without
    -- an error, and the answers are what a configuration says, its callback is called at least once,
    -- namely for each test after the last answer, and each time with that configuration.
    pub async_get_ledger_config-Says :
        (fresh c : LedgerConfig N) (steps : List (Step N))
        → length (answers_of steps) ≡ 6
        → Followed steps
        → All (Says c) (answers_of steps)
        → any_error (answers_of steps) ≡ false
        → ((k : ℕ) → k < 6 → Answered k (answers_of steps))
        → (async_get_ledger_config parse fresh steps ≡ replicate (late_tests steps) (with_config c))
          × (0 < late_tests steps)
    unfolding async_get_ledger_config
    async_get_ledger_config-Says fresh c steps l w h e k = (
      run-Open c steps (record { success = 0; failed = 0; ledger_config = fresh }) h
          (omega (arith, l)) e refl
          (
            inr (k 0 (omega arith)),
            inr (k 1 (omega arith)),
            inr (k 2 (omega arith)),
            inr (k 3 (omega arith)),
            inr (k 4 (omega arith)),
            inr (k 5 (omega arith)),
          ),
      Followed-late steps w (omega (arith, l)),
    )

    -- Some answer without an error cannot be stored: a number cannot be read.
    abbrev pub SomeUnread : List (Bool × LedgerAnswer N) → Type 0
    SomeUnread [] = ⊥
    SomeUnread ((error, a) ∷ answers) =
        ((error ≡ false) × ((d : LedgerConfig N) → store parse a d ≡ none)) ⊎ SomeUnread answers

    -- At most one more is counted.
    collect_counts :
        (error : Bool) (a : LedgerAnswer N) (s : Summary N)
        → let s' = collect parse error a s in s'.success + s'.failed ≤ suc (s.success + s.failed)
    unfolding collect count_stored
    collect_counts true a s = omega arith
    collect_counts false a s = elim (Option-cases (store parse a s.ledger_config)) [
      | inl e ↦ simp (e, count_stored) (omega arith)
      | inr (d, e) ↦ simp (e, count_stored) (omega arith)
    ]

    run-short :
        (steps : List (Step N)) (s : Summary N)
        → s.success + s.failed + length (answers_of steps) < 6
        → run parse steps s ≡ []
    unfolding run report
    run-short [] s n = refl
    run-short (answered error a ∷ steps) s n =
        run-short steps (collect parse error a s) (omega (arith, n, collect_counts error a s))
    run-short (tested ∷ steps) s n = ground (arith, run-short steps s n)

    run-SomeUnread :
        (steps : List (Step N)) (s : Summary N)
        → s.success + s.failed + length (answers_of steps) ≤ 6
        → SomeUnread (answers_of steps)
        → run parse steps s ≡ []
    unfolding run collect count_stored report
    run-SomeUnread [] s n u = absurd u
    run-SomeUnread (answered true a ∷ steps) s n (inl (e, u)) = cc
    run-SomeUnread (answered false a ∷ steps) s n (inl (e, u)) =
        ap (λ stored. run parse steps (count_stored stored s)) (u s.ledger_config)
        ∙ run-short steps s (omega (arith, n))
    run-SomeUnread (answered error a ∷ steps) s n (inr u) =
        run-SomeUnread steps (collect parse error a s) (omega (arith, n, collect_counts error a s))
          u
    run-SomeUnread (tested ∷ steps) s n u =
        ground (arith, run-SomeUnread steps s n u, some_answer (answers_of steps) u)
      where
        some_answer :
            (answers : List (Bool × LedgerAnswer N)) → SomeUnread answers → 0 < length answers
        some_answer [] u = absurd u
        some_answer (a ∷ answers) u = omega arith

    -- If the text of one of the six answers cannot be read as a number, the exception leaves the
    -- collector before it counts, and the callback is never called, whatever order the steps of the
    -- threads take.
    pub async_get_ledger_config-SomeUnread :
        (fresh : LedgerConfig N) (steps : List (Step N))
        → length (answers_of steps) ≡ 6
        → SomeUnread (answers_of steps)
        → async_get_ledger_config parse fresh steps ≡ []
    unfolding async_get_ledger_config
    async_get_ledger_config-SomeUnread fresh steps l u =
        run-SomeUnread steps (record { success = 0; failed = 0; ledger_config = fresh })
          (omega (arith, l)) u
