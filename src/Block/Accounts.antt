-- ===== src/Block/Accounts.antt =====
-- No transaction is lost while a block executes.
use bcos_dispatcher.Base.{
  ℕ, ◌+◌, ◌≤◌, ◌≡◌, refl, sym, ap, ◌∙◌, Bool, true, false, Option, none, some, List, [], ◌∷◌, arith,
  ◌==◌, ltb, ◌&&◌, not, if◌then◌else◌, if_elim, All,
}
use bcos_dispatcher.Common.{SchedulerError}
use bcos_dispatcher.KeyLocks.{GraphKeyLocks}
use bcos_dispatcher.KeyLocks.Search.{DepthFirstVisit}
use bcos_dispatcher.Batch.{is_over}
use bcos_dispatcher.Executive.{ExecutionMessage, ExecutiveState, Node, traverse_executive}
use bcos_dispatcher.Executive.Counts.{one, copies, OwnKey, Inv, Callback}
use bcos_dispatcher.Executive.Preserved.{
  traverse_executive-Inv, traverse_executive-total_kept, copies-traverse_executive,
  visit-update_nodes,
}
use bcos_dispatcher.Block.{Libraries, Batch, Block, send, new_sending, start_batch}
use bcos_dispatcher.Block.Create.{Transaction, Setting, create_states}
use bcos_dispatcher.Block.Check.{
  Response, respond, answer, answer_at, order, find_dead_lock, is_nil, traverse_and_call, end_batch,
  check_batch,
}
use bcos_dispatcher.Block.Sends.{has_receipt, done, send-Careful, send-Tallies, send-Settles}
use bcos_dispatcher.Block.Orders.{Orders, order-Orders, find_dead_lock-Orders, Careful-of_Orders}
use bcos_dispatcher.Dag.{Group, mark, take_responses}
use bcos_dispatcher.Dag.Kept.{Kept, Kept-Inv, Kept-mark, Kept-take_responses}
use bcos_dispatcher.Block.Created.{size, create_states-Inv}

-- Each of the first contexts is in the map and has no receipt, or has left it and has one; there is no
-- other.
pub record Accounted {E : Type 0} (n : ℕ) (block : Block E) : Type 0 where
  pub inv : Inv block.states
  pub each : (c : ℕ) → copies c block.states + done c block.batch ≡ (if ltb c n then 1 else 0)

answer-one : (c : ℕ) (r : Response) (x : ExecutiveState) → one c (answer r x) ≡ one c x
unfolding answer
answer-one c Response.failed x = refl
answer-one c Response.null x = refl
answer-one c (Response.answered m) x = refl

copies-answer_at :
    (d c : ℕ) (r : Response) (ns : List Node) → copies d (answer_at c r ns) ≡ copies d ns
unfolding answer_at
copies-answer_at d c r [] = refl
copies-answer_at d c r (n ∷ ns) = ground (arith, answer-one d r n.mapped, copies-answer_at d c r ns)

answer-context : (r : Response) (x : ExecutiveState) → (answer r x).context_id ≡ x.context_id
unfolding answer
answer-context Response.failed x = refl
answer-context Response.null x = refl
answer-context (Response.answered m) x = refl

OwnKey-answer_at :
    (c : ℕ) (r : Response) (ns : List Node) → All OwnKey ns → All OwnKey (answer_at c r ns)
unfolding answer_at
OwnKey-answer_at c r [] h = tt
OwnKey-answer_at c r (n ∷ ns) h =
    if_elim (All OwnKey) (n.mapped.context_id == c) _ _
      (λ _. (h.0 ∙ sym (answer-context r n.mapped), h.1)) (λ _. (h.0, OwnKey-answer_at c r ns h.1))

module _ {E : Type 0} (lib : Libraries) (number : ℕ) (visit_graph : DepthFirstVisit) where
  -- The steps of a block's execution: a batch is sent, also where an exception stops that; an answer
  -- comes; a batch is checked, and no exception leaves the check;
  -- messages go out in parallel; such messages are answered together.
  pub data Step (b : Block E) : Block E → Type 0 where
    sends : Step b (start_batch lib number b).0
    answers : (c : ℕ) (r : Response) → Step b (respond c r b)
    checks : (check_batch visit_graph b).2 ≡ false → Step b (check_batch visit_graph b).1
    sends_parallel : Step b (record b { states = mark b.states })
    answers_parallel :
        (g : Group) (error : Bool) (responses : List ExecutionMessage)
        → Step b (record b { states = take_responses g error responses b.states })

  pub data Reach (b : Block E) : Block E → Type 0 where
    here : Reach b b
    next : {s t : Block E} → Reach b s → Step s t → Reach b t

  start_batch-Accounted :
      (n : ℕ) (b : Block E) → Accounted n b → Accounted n (start_batch lib number b).0
  unfolding start_batch new_sending
  start_batch-Accounted n b h = record {
    inv =
        traverse_executive-Inv (send lib number) (send-Careful lib number) b.states
          (new_sending b.batch) h.inv;
    each = λ c.
        if_elim (λ (batch : Batch E). copies c sent.0 + done c batch ≡ (if ltb c n then 1 else 0))
          sent.2 _ _ (λ _. accounts c) (λ _. accounts c);
  }
    where
      sent : List Node × Batch E × Bool
      sent = traverse_executive (send lib number) b.states (new_sending b.batch)

      bound : (c : ℕ) → copies c b.states + done c b.batch ≤ 1
      bound c = ground (arith, h.each c)

      accounts : (c : ℕ) → copies c sent.0 + done c sent.1 ≡ (if ltb c n then 1 else 0)
      accounts c =
          traverse_executive-total_kept (send lib number) (send-Careful lib number) b.states
            (new_sending b.batch) h.inv done (send-Tallies lib number) bound
            (visit-update_nodes (send lib number) (λ x r. (send-Settles lib number x r).1) b.states
              none [] (new_sending b.batch))
            c
          ∙ h.each c

  respond-Accounted :
      (n c : ℕ) (r : Response) (b : Block E) → Accounted n b → Accounted n (respond c r b)
  unfolding respond
  respond-Accounted n c r b h = record {
    inv = record {
      own_keys = OwnKey-answer_at c r b.states h.inv.own_keys;
      distinct = λ d. omega (arith, copies-answer_at d c r b.states, h.inv.distinct d);
    };
    each = λ d. omega (arith, copies-answer_at d c r b.states, h.each d);
  }

  traverse_and_call-Accounted :
      (callback : Callback GraphKeyLocks) (n : ℕ) (b : Block E)
      → ((x : ExecutiveState) (l : GraphKeyLocks) → Orders x.message x.context_id (callback x l))
      → Accounted n b
      → (traverse_and_call callback b).2 ≡ false
      → Accounted n (traverse_and_call callback b).1
  unfolding traverse_and_call
  traverse_and_call-Accounted callback n b o h e = record {
    inv =
        traverse_executive-Inv callback (Careful-of_Orders callback o) b.states b.batch.key_locks
          h.inv;
    each = λ c.
        ap (λ k. k + done c b.batch)
          (copies-traverse_executive callback (Careful-of_Orders callback o) b.states
            b.batch.key_locks h.inv (λ x l. (o x l).1) e c)
        ∙ h.each c;
  }

  abbrev Keeps : ℕ → List (Option SchedulerError) × Block E × Bool → Type 0
  Keeps n r = r.2 ≡ false → Accounted n r.1

  check_batch-Accounted :
      (n : ℕ) (b : Block E) → Accounted n b → Keeps n (check_batch visit_graph b)
  unfolding check_batch end_batch
  check_batch-Accounted n b h =
      if_elim (Keeps n) (is_over b.batch.status && not b.batch.status.callback_executed) _ _
        (λ _.
          if_elim (Keeps n) (ltb 0 b.batch.status.error) _ _ (λ _ _. closed)
            (λ _.
              if_elim (Keeps n) (b.batch.status.total == 0 && not (is_nil b.states)) _ _
                (λ _ e.
                  traverse_and_call-Accounted (find_dead_lock visit_graph) n _
                    (find_dead_lock-Orders visit_graph) closed e)
                (λ _ e. traverse_and_call-Accounted order n _ order-Orders closed e)))
        (λ _ _. h)
    where
      closed : Accounted n (record b {
        batch = record b.batch { status = record b.batch.status { callback_executed = true } };
      })
      closed = record { inv = h.inv; each = h.each }

  parallel-Accounted :
      (n : ℕ) (b : Block E) (ms : List Node)
      → Kept b.states ms
      → Accounted n b
      → Accounted n (record b { states = ms })
  parallel-Accounted n b ms k h = record {
    inv = Kept-Inv b.states ms k h.inv;
    each = λ c. omega (arith, k.same_copies c, h.each c);
  }

  Step-Accounted : (n : ℕ) {s t : Block E} → Step s t → Accounted n s → Accounted n t
  Step-Accounted n {s} sends h = start_batch-Accounted n s h
  Step-Accounted n {s} (answers c r) h = respond-Accounted n c r s h
  Step-Accounted n {s} (checks e) h = check_batch-Accounted n s h e
  Step-Accounted n {s} sends_parallel h =
      parallel-Accounted n s (mark s.states) (Kept-mark s.states) h
  Step-Accounted n {s} (answers_parallel g error responses) h =
      parallel-Accounted n s (take_responses g error responses s.states)
        (Kept-take_responses g error responses s.states) h

  Reach-Accounted_from : (n : ℕ) {s t : Block E} → Reach s t → Accounted n s → Accounted n t
  Reach-Accounted_from n here h = h
  Reach-Accounted_from n (next r st) h = Step-Accounted n st (Reach-Accounted_from n r h)

  -- From the states that `asyncExecute` makes on, whatever the executors answer and in whatever order
  -- messages in parallel and batches are sent and answered, and batches checked: each transaction of the
  -- block is in the map exactly once and has no receipt, or has left the map and has its receipt, and no
  -- other context is there. An exception in `checkBatch` ends the run.
  pub Reach-Accounted :
      (e : Setting) (metas txs : List Transaction) (ns : List Node) (d : Bool) (batch : Batch E)
      {t : Block E}
      → create_states e metas txs ≡ some (ns, d)
      → ((c : ℕ) → batch.results c ≡ none)
      → Reach (record { states = ns; batch = batch }) t
      → Accounted (size metas txs) t
  Reach-Accounted e metas txs ns d batch h z r =
      let (inv, each) = create_states-Inv e metas txs ns d h in
      Reach-Accounted_from (size metas txs) r
        (record { inv = inv; each = λ c. omega (arith, each c, ap has_receipt (z c)) })

  -- From the states that `asyncExecute` makes on, whatever the executors answer and in whatever order
  -- messages in parallel and batches are sent and answered, and batches checked, if no exception leaves a
  -- check: once the map is empty, there is a receipt for each transaction of the block, and no other.
  pub Reach-complete :
      (e : Setting) (metas txs : List Transaction) (ns : List Node) (d : Bool) (batch : Batch E)
      {t : Block E}
      → create_states e metas txs ≡ some (ns, d)
      → ((c : ℕ) → batch.results c ≡ none)
      → Reach (record { states = ns; batch = batch }) t
      → t.states ≡ []
      → (c : ℕ) → done c t.batch ≡ (if ltb c (size metas txs) then 1 else 0)
  Reach-complete e metas txs ns d batch {t} h z r empty c =
      let counted = (Reach-Accounted e metas txs ns d batch h z r).each c in
      let none_left = ap (copies c) empty in omega (arith, counted, none_left)
