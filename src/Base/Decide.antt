-- ===== src/Base/Decide.antt =====
-- Decisions of compound statements.
use mathlib.Core.Path.{◌≡◌, refl}
use mathlib.Core.Logic.{◌↔◌}
use mathlib.Core.Bool.{Bool, true, false}

abbrev pub dec_and {ℓ κ} : {A : Type ℓ} {B : Type κ} → Dec A → Dec B → Dec (A × B)
dec_and (yes a) (yes b) = yes (a, b)
dec_and (yes a) (no b) = no λ h. b h.1
dec_and (no a) b = no λ h. a h.0

abbrev pub dec_not {ℓ} : {A : Type ℓ} → Dec A → Dec (¬ A)
dec_not (yes a) = no λ h. h a
dec_not (no a) = yes a

abbrev pub decide {ℓ} : {A : Type ℓ} → Dec A → Bool
decide (yes a) = true
decide (no a) = false

pub decide_iff {ℓ} : {A : Type ℓ} (d : Dec A) → (decide d ≡ true) ↔ A
decide_iff (yes a) = (λ h. a, λ h. refl)
decide_iff (no a) = (λ h. cc, λ h. absurd (a h))

pub decide-false {ℓ} : {A : Type ℓ} (d : Dec A) → decide d ≡ false → ¬ A
decide-false (yes a) h = λ x. cc
decide-false (no a) h = a
