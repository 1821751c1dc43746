-- ===== src/Base/Lists.antt =====
-- Lists measured and indexed by native numbers, under the library's names, and membership as a
-- family that can be matched.
use Prim.Native.Nat.{ℕ, zero, suc, ◌+◌, ◌≤◌}
use mathlib.Core.Path.{◌≡◌, refl, sym, subst}
use mathlib.Core.Logic.{◌⊎◌, inl, inr, ◌↔◌, ⊎_elim, if_pos, if_neg}
use mathlib.Core.List.{List, [], ◌∷◌, ◌++◌, filter, Memᴰ}
use mathlib.Core.List.Memᴰ
use mathlib.Core.Option.{Option, none, some}
use native.Mathlib.Omega.{arith}

module _ {ℓ} {A : Type ℓ} where
  abbrev pub length : List A → ℕ
  length [] = 0
  length (x ∷ xs) = suc (length xs)

  abbrev pub replicate : ℕ → A → List A
  replicate zero x = []
  replicate (suc n) x = x ∷ replicate n x

  abbrev pub get_elem? : List A → ℕ → Option A
  get_elem? [] i = none
  get_elem? (x ∷ xs) zero = some x
  get_elem? (x ∷ xs) (suc i) = get_elem? xs i

  pub length-append : (xs ys : List A) → length (xs ++ ys) ≡ length xs + length ys
  length-append [] ys = omega arith
  length-append (x ∷ xs) ys = omega (arith, length-append xs ys)

  pub List-cases : (xs : List A) → (xs ≡ []) ⊎ ((x : A) × (rest : List A) × (xs ≡ x ∷ rest))
  List-cases [] = inl refl
  List-cases (x ∷ xs) = inr (x, xs, refl)

  pub Memᴰ-nil : {a : A} → ¬ Memᴰ a []
  Memᴰ-nil = Memᴰ.not-nil

  pub Memᴰ-cons : (a x : A) (xs : List A) → Memᴰ a (x ∷ xs) ↔ ((a ≡ x) ⊎ Memᴰ a xs)
  Memᴰ-cons a x xs = (Memᴰ.cases_cons, ⊎_elim Memᴰ.head Memᴰ.tail)

  pub Memᴰ-concat : (a x : A) (xs : List A) → Memᴰ a (xs ++ x ∷ []) ↔ (Memᴰ a xs ⊎ (a ≡ x))
  Memᴰ-concat a x xs = (
    λ m. ⊎_elim inl (λ last. inr (Memᴰ.eq_of_singleton last)) (Memᴰ.append_cases xs m),
    ⊎_elim (Memᴰ.append_left _) (λ e. Memᴰ.append_right xs (Memᴰ.head e)),
  )

module _ {ℓ κ} {A : Type ℓ} {P : A → Type κ} (d : (a : A) → Dec (P a)) where
  pub length-filter-le : (xs : List A) → length (filter d xs) ≤ length xs
  length-filter-le [] = omega arith
  length-filter-le (x ∷ xs) = ground (arith, length-filter-le xs)

  pub Memᴰ-filter : (a : A) (xs : List A) → Memᴰ a (filter d xs) ↔ (Memᴰ a xs × P a)
  Memᴰ-filter a [] = (λ m. absurd (Memᴰ.not-nil m), λ m. absurd (Memᴰ.not-nil m.0))
  Memᴰ-filter a (x ∷ xs) = elim (d x) [
    | yes p ↦ rw (if_pos _ p) (
        ground (
          arith,
          Memᴰ-filter a xs,
          Memᴰ-cons a x xs,
          Memᴰ-cons a x (filter d xs),
          λ (e : a ≡ x). subst P (sym e) p,
        ))
    | no n ↦ rw (if_neg _ n) (ground (arith, Memᴰ-filter a xs, Memᴰ-cons a x xs, λ (e : a ≡ x). n))
  ]

abbrev pub dec_memᴰ {ℓ} : {A : Type ℓ} → Discrete A → (a : A) (xs : List A) → Dec (Memᴰ a xs)
dec_memᴰ d a [] = no Memᴰ.not-nil
dec_memᴰ d a (x ∷ xs) = elim (d a x) [
  | yes e ↦ yes (Memᴰ.head e)
  | no n ↦ elim (dec_memᴰ d a xs) [
    | yes m ↦ yes (Memᴰ.tail m)
    | no k ↦ no λ m. ⊎_elim n k (Memᴰ.cases_cons m)
  ]
]

abbrev pub All {ℓ κ} : {A : Type ℓ} → (A → Type κ) → List A → Type κ
All P [] = Unit
All P (x ∷ xs) = P x × All P xs

-- Two sequences of steps in one order that keeps the order of each.
pub data Merge {ℓ} {A : Type ℓ} : List A → List A → List A → Type ℓ where
  nothing : Merge [] [] []
  left : {x : A} {xs ys zs : List A} → Merge xs ys zs → Merge (x ∷ xs) ys (x ∷ zs)
  right : {y : A} {xs ys zs : List A} → Merge xs ys zs → Merge xs (y ∷ ys) (y ∷ zs)
