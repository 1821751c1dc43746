-- ===== src/Scheduler/Failures.antt =====
-- How requests are answered, and what becomes of a block whose execution failed.
use bcos_dispatcher.Base.{
  ℕ, ◌+◌, ◌<◌, ◌≤◌, ◌≡◌, refl, ◌⊎◌, inl, inr, false, not, ◌&&◌, none, some, List, [], ◌∷◌, arith,
  if_elim, subst, ◌==◌, leb,
}
use bcos_dispatcher.Common.{invalid_block_number}
use bcos_dispatcher.Scheduler.{
  BlockExecutive, SchedulerImpl, Answer, replied, started, back, find_block, start_block,
  execute_checked, execute_block,
}
use bcos_dispatcher.Scheduler.Numbers.{Consecutive, Finds, find_block-Finds, LastOpen}
use bcos_dispatcher.Scheduler.Steps.{Inv}

-- The number lies between those of the front block and the back block.
abbrev pub Within : ℕ → List BlockExecutive → Type 0
Within number [] = ⊥
Within number (b ∷ bs) = (b.number ≤ number) × (number ≤ (back b bs).number)

-- The number is the next one; with no block waiting, it is above the last that was executed.
abbrev pub IsNext : ℕ → List BlockExecutive → SchedulerImpl → Type 0
IsNext number [] s = (s.last_executed ≡ 0) ⊎ (s.last_executed < number)
IsNext number (b ∷ bs) s = number ≡ (back b bs).number + 1

-- What `executeBlock` answers while no block executes: the result of the block with the number, if
-- there is one; the start of the execution, if the number is the next; and else an error.
abbrev pub Executes : ℕ → List BlockExecutive → SchedulerImpl → Answer × SchedulerImpl → Type 0
Executes number bs s (a, t) =
    (Within number bs × Finds number bs a × (t ≡ s))
    ⊎ ((IsNext number bs s × (a ≡ started) × (t ≡ start_block number s))
        ⊎ ((¬ Within number bs × ¬ IsNext number bs s)
            × (a ≡ replied (some invalid_block_number) none)
            × (t ≡ s)))

execute_checked-Executes :
    (number : ℕ) (bs : List BlockExecutive) (s : SchedulerImpl)
    → Consecutive bs
    → Executes number bs s (execute_checked number bs s)
unfolding execute_checked
execute_checked-Executes number [] s h =
    if_elim (Executes number [] s) (not (s.last_executed == 0) && leb number s.last_executed) _ _
      (λ t. inr (inr ((λ w. w, ground arith), refl, refl)))
      (λ t. inr (inl (ground arith, refl, refl)))
execute_checked-Executes number (b ∷ bs) s h =
    if_elim (Executes number (b ∷ bs) s) (leb b.number number && leb number (back b bs).number) _ _
      (λ t. inl (ground arith, find_block-Finds number b bs h (ground arith) (ground arith), refl))
      (λ t.
        if_elim (Executes number (b ∷ bs) s) (number == (back b bs).number + 1) _ _
          (λ e. inr (inl (ground arith, refl, refl)))
          (λ e. inr (inr ((ground arith, ground arith), refl, refl))))

-- While no block executes, `executeBlock` returns the result of the block with the number if there is
-- one, starts the block if its number is the next, and else refuses it and changes nothing.
pub execute_block-Executes :
    (number : ℕ) (s : SchedulerImpl)
    → Inv s
    → s.execute_locked ≡ false
    → Executes number s.blocks s (execute_block number s)
unfolding execute_block
execute_block-Executes number s h e =
    if_elim (Executes number s.blocks s) s.execute_locked _ _ (λ t. absurd (cc))
      (λ _. execute_checked-Executes number s.blocks s h.consecutive)

-- The front block has no result, and does not execute any more.
abbrev pub Stuck : SchedulerImpl → Type 0
Stuck s =
    (b : BlockExecutive) × (bs : List BlockExecutive) × (s.blocks ≡ b ∷ bs)
    × (b.result ≡ none)
    × (bs ≡ [] → s.execute_locked ≡ false)

front-le-back :
    (b : BlockExecutive) (bs : List BlockExecutive)
    → Consecutive (b ∷ bs)
    → b.number ≤ (back b bs).number
unfolding back
front-le-back b [] h = omega arith
front-le-back b (c ∷ bs) h = omega (arith, front-le-back c bs h.1)

find_block-back :
    (b : BlockExecutive) (bs : List BlockExecutive)
    → Consecutive (b ∷ bs)
    → LastOpen (b ∷ bs)
    → find_block (back b bs).number (b ∷ bs) ≡ replied none none
unfolding find_block back
find_block-back b [] h o = ground arith
find_block-back b (c ∷ bs) h o = ground (arith, find_block-back c bs h.1 o, front-le-back c bs h.1)

-- After the execution of a block has failed, a second request for it is answered with no error and no
-- header.
pub execute_block_again :
    (s : SchedulerImpl) (b : BlockExecutive) (bs : List BlockExecutive)
    → Inv s
    → s.blocks ≡ b ∷ bs
    → s.execute_locked ≡ false
    → LastOpen (b ∷ bs)
    → execute_block (back b bs).number s ≡ (replied none none, s)
unfolding execute_block execute_checked
execute_block_again s b bs h e u o =
    simp (u, e, execute_block, execute_checked)
      (ground (arith, front-le-back b bs order, find_block-back b bs order o))
  where
    order : Consecutive (b ∷ bs)
    order = subst Consecutive e h.consecutive
