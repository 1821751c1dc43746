-- ===== src/Requests/Registers.antt =====
-- What `registerExecutor` answers and does.
use mathlib.Core.List.{lookup}
use bcos_dispatcher.Base.{
  ℕ, ◌≡◌, ◌<◌, inl, inr, if_neg, arith, Memᴰ, Option-cases, refl, ap, ◌∙◌, Bool, true, false,
  Option, none, some, [], if_pos, ℕ_discrete,
}
use bcos_dispatcher.Base.Text.{Text, Text-discrete}
use bcos_dispatcher.Executors.{ExecutorManager, ExecutorInfo, update, add_executor}
use bcos_dispatcher.Executors.Invariant.{Inv, add-Inv}
use bcos_dispatcher.Executors.Maps.{find-emplace}
use bcos_dispatcher.Requests.{is_caught, register_executor}

-- What there is after a request with this name and executor.
pub record Registered {E : Type 0} (name : Text) (executor : Option E) (m : ExecutorManager E)
    (r : Bool × ExecutorManager E) : Type 0 where
  pub inv : Inv r.1
  -- what is known of an executor that was registered stays as it is
  pub kept : (p : ℕ) → Memᴰ p m.queue → r.1.heap p ≡ m.heap p
  -- a name that is taken is an error, and the executors stay
  pub refused :
      (p : ℕ)
      → lookup Text-discrete name m.name_to_info ≡ some p
      → (r.0 ≡ true) × (r.1.name_to_info ≡ m.name_to_info) × (r.1.queue ≡ m.queue)
  -- else the name leads to the executor, which has no contract yet
  pub accepted :
      lookup Text-discrete name m.name_to_info ≡ none
      → (r.0 ≡ false)
        × ((p : ℕ) × (lookup Text-discrete name r.1.name_to_info ≡ some p)
            × ((r.1.heap p).executor ≡ executor)
            × ((r.1.heap p).contracts ≡ []))

update_self :
    {E : Type 0} (m : ExecutorManager E) (info : ExecutorInfo E)
    → update m.heap m.fresh info m.fresh ≡ info
update_self m info = if_pos (ℕ_discrete m.fresh m.fresh) refl _ _

heap_kept :
    {E : Type 0} (name : Text) (executor : Option E) (m : ExecutorManager E) (p : ℕ)
    → p < m.fresh
    → (add_executor name executor m).1.heap p ≡ m.heap p
unfolding add_executor
heap_kept name executor m p h = elim (Option-cases (lookup Text-discrete name m.name_to_info)) [
  | inl e ↦
      simp (e, add_executor) (if_neg (ℕ_discrete m.fresh p) (λ q. absurd (omega (arith, q))) _ _)
  | inr (q, e) ↦
      simp (e, add_executor) (if_neg (ℕ_discrete m.fresh p) (λ q. absurd (omega (arith, q))) _ _)
]

-- Under the invariant of the executors, which stays, `registerExecutor` calls back with an error exactly if
-- the name is taken. What is known of each registered executor stays: its name, the executor itself and its
-- contracts. If the name is taken, the names and the queue stay too; else the name leads to the given
-- executor, without contracts.
pub register_executor-Registered :
    {E : Type 0} (name : Text) (executor : Option E) (m : ExecutorManager E)
    → Inv m
    → Registered name executor m (register_executor name executor m)
unfolding register_executor
register_executor-Registered {E} name executor m h = record {
  inv = add-Inv name executor m h;
  kept = λ p i. heap_kept name executor m p (h.below p i);
  refused = λ p e. simp (e, add_executor, is_caught) (refl, refl, refl);
  accepted = λ e.
      simp (e, add_executor, is_caught)
        (
          refl,
          (
            m.fresh,
            find-emplace name name m.fresh m.name_to_info e
                ∙ if_pos (Text-discrete name name) refl _ _,
            ap (λ (i : ExecutorInfo E). i.executor)
                (update_self m (record { name = name; executor = executor; contracts = [] })),
            ap (λ (i : ExecutorInfo E). i.contracts)
                (update_self m (record { name = name; executor = executor; contracts = [] })),
          ),
        );
}
