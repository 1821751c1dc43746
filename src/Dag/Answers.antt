-- ===== src/Dag/Answers.antt =====
-- When `DAGExecute` calls back.
use bcos_dispatcher.Base.{
  ℕ, ◌+◌, ◌-◌, ◌%◌, ◌^◌, ◌<◌, ◌≤◌, ◌≡◌, refl, Bool, false, ◌||◌, not, none, some, List, [], ◌∷◌,
  ◌++◌, ◌∙◌, inl, inr, Bool-cases, suc, length, arith, ltb, ◌==◌, if◌then◌else◌, All,
}
use bcos_dispatcher.Common.{dag_error}
use bcos_dispatcher.Executive.{Node}
use bcos_dispatcher.Dag.{
  requests, DagAnswer, DagStep, lower, dag_report, dag_run, dag_answer, dag_answers, dag_execute,
}

abbrev pub sum_returned : List DagAnswer → ℕ
sum_returned [] = 0
sum_returned (a ∷ rest) = a.returned + sum_returned rest

abbrev pub spoils : DagAnswer → Bool
spoils a = a.error || not (a.sent == a.returned)

abbrev pub any_spoils : List DagAnswer → Bool
any_spoils [] = false
any_spoils (a ∷ rest) = spoils a || any_spoils rest

-- No answer comes without a message.
abbrev pub Positive : List DagAnswer → Type 0
Positive = All λ (a : DagAnswer). 0 < a.returned

counted_down :
    (total returned : ℕ)
    → total < 2 ^ 64
    → returned ≤ total
    → (total + 2 ^ 64 - returned % 2 ^ 64) % 2 ^ 64 ≡ total - returned
counted_down total returned h k = omega arith

-- What a thread does that runs alone.
dag_run-dag_answer :
    (a : DagAnswer) (steps : List DagStep) (total failed : ℕ)
    → total < 2 ^ 64
    → a.returned ≤ total
    → dag_run (dag_answer a ++ steps) total failed ≡ (
        let failed' = if spoils a then suc failed else failed in
        dag_report (total - a.returned) failed' ++ dag_run steps (total - a.returned) failed')
unfolding dag_run dag_answer lower
dag_run-dag_answer a steps total failed h k = elim (Bool-cases (spoils a)) [
  | inl e ↦ simp (e, counted_down total a.returned h k) refl
  | inr e ↦ simp (e, counted_down total a.returned h k) refl
]

dag_answers-all :
    (answers : List DagAnswer) (total failed : ℕ)
    → total < 2 ^ 64
    → sum_returned answers ≡ total
    → 0 < total
    → Positive answers
    → dag_run (dag_answers answers) total failed
      ≡ (if ltb 0 failed || any_spoils answers then some dag_error else none) ∷ []
unfolding dag_answers dag_report dag_run
dag_answers-all [] total failed h e p q = absurd (omega arith)
dag_answers-all (a ∷ []) total failed h e p q =
    dag_run-dag_answer a [] total failed h (omega (arith, e)) ∙ ground (arith)
dag_answers-all (a ∷ b ∷ rest) total failed h e p q =
    dag_run-dag_answer a (dag_answers (b ∷ rest)) total failed h (omega (arith, e))
    ∙ ground (
      arith,
      dag_answers-all (b ∷ rest) (total - a.returned) failed,
      dag_answers-all (b ∷ rest) (total - a.returned) (suc failed),
    )

dag_answers-short :
    (answers : List DagAnswer) (total failed : ℕ)
    → total < 2 ^ 64
    → sum_returned answers < total
    → dag_run (dag_answers answers) total failed ≡ []
unfolding dag_answers dag_report dag_run
dag_answers-short [] total failed h e = refl
dag_answers-short (a ∷ rest) total failed h e =
    dag_run-dag_answer a (dag_answers rest) total failed h (omega (arith, e))
    ∙ ground (
      arith,
      dag_answers-short rest (total - a.returned) failed,
      dag_answers-short rest (total - a.returned) (suc failed),
    )

-- While there are fewer than 2 ^ 64 requests and at least one, if every answer returns a message and all
-- answers together return as many as there are requests, `DAGExecute` calls back once, when the last
-- answer comes: with `DAGError` exactly if an answer has an error, or returns another number of messages
-- than it was sent.
pub dag_execute_complete :
    (states : List Node) (answers : List DagAnswer)
    → 0 < length (requests states)
    → length (requests states) < 2 ^ 64
    → sum_returned answers ≡ length (requests states)
    → Positive answers
    → dag_execute states answers ≡ (if any_spoils answers then some dag_error else none) ∷ []
unfolding dag_execute
dag_execute_complete states answers p h e q =
    ground (arith, dag_answers-all answers (length (requests states)) 0)

-- While there are fewer than 2 ^ 64 requests, if the answers together return fewer messages than there
-- are requests, as when an executor answers with an error and no messages, `DAGExecute` never calls back.
pub dag_execute_short :
    (states : List Node) (answers : List DagAnswer)
    → length (requests states) < 2 ^ 64
    → sum_returned answers < length (requests states)
    → dag_execute states answers ≡ []
unfolding dag_execute
dag_execute_short states answers h e =
    ground (arith, dag_answers-short answers (length (requests states)) 0)
