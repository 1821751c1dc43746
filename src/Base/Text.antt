-- ===== src/Base/Text.antt =====
-- `std::string` as the list of its bytes, and its order: bytes compared as unsigned, the shorter
-- first where one is a prefix of the other.
use Prim.Native.Nat.{ℕ, ◌<◌}
use mathlib.Core.List.{List, [], ◌∷◌}
use mathlib.Core.Path.{◌≡◌, refl}
use mathlib.Core.Logic.{◌⊎◌, inl, inr, ◌≢◌}
use native.Mathlib.Decide.{ℕ_discrete, dec_lt}
use native.Mathlib.Omega.{arith}

abbrev pub Text : Type 0
Text = List ℕ

unfoldable pub Text-discrete : Discrete Text
unfolding ℕ_discrete
Text-discrete = hlevel ℕ_discrete

-- `lhs < rhs`
abbrev pub TextLt : Text → Text → Type 0
TextLt s [] = ⊥
TextLt [] (y ∷ t) = Unit
TextLt (x ∷ s) (y ∷ t) = (x < y) ⊎ ((x ≡ y) × TextLt s t)

unfoldable pub dec_text_lt : (s t : Text) → Dec (TextLt s t)
unfolding ℕ_discrete dec_lt
dec_text_lt [] [] = no λ h. h
dec_text_lt (x ∷ s) [] = no λ h. h
dec_text_lt [] (y ∷ t) = yes tt
dec_text_lt (x ∷ s) (y ∷ t) = elim (dec_lt x y) [
  | yes p ↦ yes (inl p)
  | no p ↦ elim (ℕ_discrete x y) [
    | yes e ↦ elim (dec_text_lt s t) [ yes q ↦ yes (inr (e, q)) | no q ↦ no (ground arith) ]
    | no e ↦ no (ground arith)
  ]
]

pub TextLt-irreflexive : (s : Text) → ¬ TextLt s s
TextLt-irreflexive [] h = h
TextLt-irreflexive (x ∷ s) h = ground (arith, TextLt-irreflexive s)

pub TextLt-trans : (s t u : Text) → TextLt s t → TextLt t u → TextLt s u
TextLt-trans s t [] h k = k
TextLt-trans [] t (z ∷ u) h k = tt
TextLt-trans (x ∷ s) [] (z ∷ u) h k = absurd h
TextLt-trans (x ∷ s) (y ∷ t) (z ∷ u) h k = ground (arith, TextLt-trans s t u)

-- The order is total.
pub TextLt-total : (s t : Text) → ¬ TextLt s t → s ≢ t → TextLt t s
TextLt-total [] [] h n = absurd (n refl)
TextLt-total [] (y ∷ t) h n = absurd (h tt)
TextLt-total (x ∷ s) [] h n = tt
TextLt-total (x ∷ s) (y ∷ t) h n = ground (arith, TextLt-total s t)
