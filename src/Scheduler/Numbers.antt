-- ===== src/Scheduler/Numbers.antt =====
-- The numbers of the blocks that wait for their commit.
use bcos_dispatcher.Base.{
  ℕ, ◌+◌, ◌≤◌, ◌≡◌, refl, inl, inr, none, some, List, [], ◌∷◌, ◌++◌, arith, Memᴰ, Bool-cases, ◌==◌,
}
use bcos_dispatcher.Scheduler.{
  BlockHeader, BlockExecutive, Answer, replied, back, find_block, set_result, pop_front,
}

-- Each block follows the one before it.
abbrev pub Consecutive : List BlockExecutive → Type 0
Consecutive [] = Unit {0}
Consecutive (b ∷ []) = Unit {0}
Consecutive (b ∷ c ∷ bs) = (c.number ≡ b.number + 1) × Consecutive (c ∷ bs)

pub Consecutive-append :
    (b : BlockExecutive) (bs : List BlockExecutive) (c : BlockExecutive)
    → Consecutive (b ∷ bs)
    → c.number ≡ (back b bs).number + 1
    → Consecutive (b ∷ bs ++ c ∷ [])
unfolding back
Consecutive-append b [] c h e = (e, tt)
Consecutive-append b (d ∷ bs) c h e = (h.0, Consecutive-append d bs c h.1 e)

pub Consecutive-set_result :
    (header : BlockHeader) (bs : List BlockExecutive)
    → Consecutive bs
    → Consecutive (set_result header bs)
unfolding set_result
Consecutive-set_result header [] h = tt
Consecutive-set_result header (b ∷ []) h = tt
Consecutive-set_result header (b ∷ c ∷ []) h = h
Consecutive-set_result header (b ∷ c ∷ d ∷ bs) h =
    (h.0, Consecutive-set_result header (c ∷ d ∷ bs) h.1)

pub Consecutive-pop_front : (bs : List BlockExecutive) → Consecutive bs → Consecutive (pop_front bs)
unfolding pop_front
Consecutive-pop_front [] h = tt
Consecutive-pop_front (b ∷ []) h = tt
Consecutive-pop_front (b ∷ c ∷ bs) h = h.1

-- The block of a number, whose result `executeBlock` returns.
abbrev pub Finds : ℕ → List BlockExecutive → Answer → Type 0
Finds number bs a =
    (b : BlockExecutive) × Memᴰ b bs × (b.number ≡ number) × (a ≡ replied none b.result)

-- A number between the front and the back is found.
pub find_block-Finds :
    (number : ℕ) (b : BlockExecutive) (bs : List BlockExecutive)
    → Consecutive (b ∷ bs)
    → b.number ≤ number
    → number ≤ (back b bs).number
    → Finds number (b ∷ bs) (find_block number (b ∷ bs))
unfolding find_block back
find_block-Finds number b [] h lo hi = (b, Memᴰ.head refl, omega arith, ground arith)
find_block-Finds number b (c ∷ bs) h lo hi = elim (Bool-cases (b.number == number)) [
  | inl here ↦ (b, Memᴰ.head refl, ground arith, rw here)
  | inr there ↦
      let (x, m, e, q) = find_block-Finds number c bs h.1 (ground arith) hi in
      (x, Memᴰ.tail m, e, rw there q)
]

-- The block that is executing is the last one, and has no result.
abbrev pub LastOpen : List BlockExecutive → Type 0
LastOpen [] = ⊥
LastOpen (b ∷ []) = b.result ≡ none
LastOpen (b ∷ c ∷ bs) = LastOpen (c ∷ bs)

abbrev pub FrontDone : List BlockExecutive → Type 0
FrontDone [] = ⊥
FrontDone (b ∷ bs) = (header : BlockHeader) × (b.result ≡ some header)

pub LastOpen-append :
    (b : BlockExecutive) (bs : List BlockExecutive) (c : BlockExecutive)
    → c.result ≡ none
    → LastOpen (b ∷ bs ++ c ∷ [])
LastOpen-append b [] c e = e
LastOpen-append b (d ∷ bs) c e = LastOpen-append d bs c e

-- The block that is executing is not the one that is committed.
pub LastOpen-pop_front :
    (bs : List BlockExecutive) → LastOpen bs → FrontDone bs → LastOpen (pop_front bs)
unfolding pop_front
LastOpen-pop_front [] l f = l
LastOpen-pop_front (b ∷ []) l (header, e) = cc
LastOpen-pop_front (b ∷ c ∷ bs) l f = l

pub FrontDone-append : (bs cs : List BlockExecutive) → FrontDone bs → FrontDone (bs ++ cs)
FrontDone-append [] cs f = absurd f
FrontDone-append (b ∷ bs) cs f = f

pub FrontDone-set_result :
    (header : BlockHeader) (bs : List BlockExecutive)
    → FrontDone bs
    → FrontDone (set_result header bs)
unfolding set_result
FrontDone-set_result header [] f = f
FrontDone-set_result header (b ∷ []) f = (header, refl)
FrontDone-set_result header (b ∷ c ∷ bs) f = f
