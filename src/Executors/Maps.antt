-- ===== src/Executors/Maps.antt =====
-- Lemmas on the maps of the executor manager and on the choice of an executor.
use mathlib.Core.List.{lookup}
use mathlib.Core.List.Memᴰ
use bcos_dispatcher.Base.{
  ℕ, ◌≤◌, ◌≡◌, refl, subst, ◌↔◌, inl, inr, ⊎_elim, ite, none, some, List, [], ◌∷◌, map, Memᴰ,
  Memᴰ-cons, arith, Option-cases, dec_not,
}
use bcos_dispatcher.Base.Text.{Text, Text-discrete}
use bcos_dispatcher.Executors.{ExecutorInfo, load, pop_least, emplace, erase}

abbrev pub Entries : Type 0
Entries = List (Text × ℕ)

-- `std::set` holds each contract once.
abbrev pub Once : List Text → Type 0
Once [] = Unit {0}
Once (c ∷ cs) = ¬ Memᴰ c cs × Once cs

-- Each key stands once.
abbrev pub Distinct : Entries → Type 0
unfolding lookup
Distinct [] = Unit {0}
Distinct (e ∷ es) = (lookup Text-discrete e.0 es ≡ none) × Distinct es

pub find-emplace :
    (j k : Text) (p : ℕ) (es : Entries)
    → lookup Text-discrete k es ≡ none
    → lookup Text-discrete j (emplace k p es)
      ≡ ite (Text-discrete j k) (some p) (lookup Text-discrete j es)
unfolding emplace lookup
find-emplace j k p es h = rw (h, emplace)

pub find-erase :
    (j k : Text) (es : Entries)
    → lookup Text-discrete j (erase k es) ≡ ite (Text-discrete j k) none (lookup Text-discrete j es)
unfolding erase lookup
find-erase j k [] = ground arith
find-erase j k ((i, p) ∷ es) = ground (arith, find-erase j k es)

pub Distinct-emplace : (k : Text) (p : ℕ) (es : Entries) → Distinct es → Distinct (emplace k p es)
unfolding emplace lookup
Distinct-emplace k p es h = elim (Option-cases (lookup Text-discrete k es)) [
  | inl e ↦ rw (e, emplace) (e, h)
  | inr (q, e) ↦ rw (e, emplace) h
]

pub Distinct-erase : (k : Text) (es : Entries) → Distinct es → Distinct (erase k es)
unfolding erase lookup
Distinct-erase k [] h = tt
Distinct-erase k ((i, p) ∷ es) h =
    elim (Text-discrete i k)
      as (λ d. Distinct (ite (dec_not d) ((i, p) ∷ erase k es) (erase k es))) [
        | yes e ↦ Distinct-erase k es h.1
        | no n ↦ (ground (arith, find-erase i k es), Distinct-erase k es h.1)
      ]

pub find-mem :
    (k : Text) (p : ℕ) (es : Entries)
    → lookup Text-discrete k es ≡ some p
    → Memᴰ p (map (λ e. e.1) es)
unfolding lookup
find-mem k p [] h = cc
find-mem k p ((i, q) ∷ es) h = ground (arith, find-mem k p es, Memᴰ-cons p q (map (λ e. e.1) es))

pub mem-find :
    (p : ℕ) (es : Entries)
    → Distinct es
    → Memᴰ p (map (λ e. e.1) es)
    → (k : Text) × (lookup Text-discrete k es ≡ some p)
unfolding lookup
mem-find p [] h m = absurd (Memᴰ.not-nil m)
mem-find p ((i, q) ∷ es) h m =
    ⊎_elim (λ e. (i, ground arith)) (λ r. let (k, found) = mem-find p es h.1 r in (k, ground arith))
      (Memᴰ.cases_cons m)

Memᴰ-nil-eq : (x : ℕ) (xs : List ℕ) → xs ≡ [] → ¬ Memᴰ x xs
Memᴰ-nil-eq x xs e m = Memᴰ.not-nil (subst (Memᴰ x) e m)

-- What `top` and `pop` leave: the address taken out has no more contracts than any in the queue.
pub record Popped {E : Type 0} (heap : ℕ → ExecutorInfo E) (queue : List ℕ) (p : ℕ) (rest : List ℕ)
    : Type 0 where
  pub least : (q : ℕ) → Memᴰ q queue → load heap p ≤ load heap q
  pub members : (q : ℕ) → Memᴰ q queue ↔ Memᴰ q (p ∷ rest)

module _ {E : Type 0} (heap : ℕ → ExecutorInfo E) where
  pub pop_least-none : (queue : List ℕ) → pop_least heap queue ≡ none → queue ≡ []
  unfolding pop_least
  pop_least-none [] h = refl
  pop_least-none (q ∷ queue) h = elim (Option-cases (pop_least heap queue)) [
    | inl e ↦ ground arith
    | inr ((r, others), e) ↦ ground arith
  ]

  pub pop_least-Popped :
      (queue : List ℕ) (p : ℕ) (rest : List ℕ)
      → pop_least heap queue ≡ some (p, rest)
      → Popped heap queue p rest
  unfolding pop_least
  pop_least-Popped [] p rest h = cc
  pop_least-Popped (q ∷ queue) p rest h = elim (Option-cases (pop_least heap queue)) [
    | inl e ↦ record {
      least =
          λ x m. ground (arith, Memᴰ-cons x q queue, pop_least-none queue e, Memᴰ-nil-eq x queue);
      members = λ x. ground (arith, Memᴰ-cons x q queue, Memᴰ-cons x p rest);
    }
    | inr ((r, others), e) ↦
        let ih = pop_least-Popped queue r others e in
        record {
          least = λ x m. ground (arith, Memᴰ-cons x q queue, ih.least x, ih.members x);
          members = λ x. ground (
            arith,
            Memᴰ-cons x q queue,
            Memᴰ-cons x p rest,
            ih.members x,
            Memᴰ-cons x r others,
            Memᴰ-cons x q others,
          );
        }
  ]
