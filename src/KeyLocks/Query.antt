-- ===== src/KeyLocks/Query.antt =====
-- What `getKeyLocksNotHoldingByContext` returns.
use mathlib.Core.List.Memᴰ
use bcos_dispatcher.Base.{
  ℕ, ◌≡◌, refl, sym, ap, ◌∙◌, ◌≢◌, ◌↔◌, ◌⊎◌, inl, inr, ⊎_elim, List, [], ◌∷◌, Memᴰ, Memᴰ-cons,
  arith, Option, none, some, ℕ_discrete, dec_and, dec_not, if_pos, if_neg, ite, All,
}
use bcos_dispatcher.Base.Text.{Text, Text-discrete, TextLt, dec_text_lt, TextLt-trans, TextLt-total}
use bcos_dispatcher.KeyLocks.{
  Vertex, context, key_lock, Edge, GraphKeyLocks, emplace, not_holding, collect, key_locks_of,
  get_key_locks_not_holding_by_context,
}
use bcos_dispatcher.KeyLocks.Acquire.{HeldByOther}

-- The names rise, so each stands once.
abbrev pub IsSorted : List Text → Type 0
IsSorted [] = Unit {0}
IsSorted (t ∷ us) = All (TextLt t) us × IsSorted us

mem-emplace : (k t : Text) (us : List Text) → Memᴰ k (emplace t us) ↔ (Memᴰ k us ⊎ (k ≡ t))
unfolding emplace
mem-emplace k t [] = ground (arith, Memᴰ-cons k t [])
mem-emplace k t (u ∷ us) = elim (dec_text_lt t u) [
  | yes p ↦ rw (if_pos (dec_text_lt t u) p) (ground (arith, Memᴰ-cons k t (u ∷ us)))
  | no p ↦ rw (if_neg (dec_text_lt t u) p) (elim (Text-discrete t u) [
    | yes q ↦ rw (if_pos (Text-discrete t u) q) (ground (arith, Memᴰ-cons k u us))
    | no q ↦
        rw (if_neg (Text-discrete t u) q)
          (ground (arith, Memᴰ-cons k u us, Memᴰ-cons k u (emplace t us), mem-emplace k t us))
  ])
]

All-emplace :
    (a t : Text) (us : List Text) → TextLt a t → All (TextLt a) us → All (TextLt a) (emplace t us)
unfolding emplace
All-emplace a t [] p h = (p, tt)
All-emplace a t (u ∷ us) p h =
    elim (dec_text_lt t u)
      as (λ d.
        All (TextLt a) (ite d (t ∷ u ∷ us) (ite (Text-discrete t u) (u ∷ us) (u ∷ emplace t us)))) [
          | yes q ↦ (p, h)
          | no q ↦
              elim (Text-discrete t u)
                as (λ d. All (TextLt a) (ite d (u ∷ us) (u ∷ emplace t us))) [
                  | yes e ↦ h
                  | no e ↦ (h.0, All-emplace a t us p h.1)
                ]
        ]

All-trans : (a b : Text) (us : List Text) → TextLt a b → All (TextLt b) us → All (TextLt a) us
All-trans a b [] p h = tt
All-trans a b (u ∷ us) p h = (TextLt-trans a b u p h.0, All-trans a b us p h.1)

emplace-IsSorted : (t : Text) (us : List Text) → IsSorted us → IsSorted (emplace t us)
unfolding emplace
emplace-IsSorted t [] h = (tt, tt)
emplace-IsSorted t (u ∷ us) h =
    elim (dec_text_lt t u)
      as (λ d.
        IsSorted (ite d (t ∷ u ∷ us) (ite (Text-discrete t u) (u ∷ us) (u ∷ emplace t us)))) [
          | yes q ↦ ((q, All-trans t u us q h.0), h)
          | no q ↦ elim (Text-discrete t u) as (λ d. IsSorted (ite d (u ∷ us) (u ∷ emplace t us))) [
            | yes e ↦ h
            | no e ↦ (All-emplace u t us (TextLt-total t u q e) h.0, emplace-IsSorted t us h.1)
          ]
        ]

collect-IsSorted : (o : Option Text) (keys : List Text) → IsSorted keys → IsSorted (collect o keys)
unfolding collect
collect-IsSorted none keys h = h
collect-IsSorted (some k) keys h = emplace-IsSorted k keys h

module _ (contract : Text) (exclude : ℕ) where
  -- The edge says that another context holds the key.
  abbrev Shows : Vertex → Vertex → Text → Type 0
  Shows s t key = (o : ℕ) × (s ≡ key_lock contract key) × (t ≡ context o) × (o ≢ exclude)

  mem-collect :
      (s t : Vertex) (k : Text) (keys : List Text)
      → Memᴰ k (collect (not_holding contract exclude s t) keys) ↔ (Memᴰ k keys ⊎ Shows s t k)
  unfolding collect not_holding
  mem-collect (context a) t k keys = (inl, ⊎_elim (λ m. m) (λ (o, p, q, n). cc))
  mem-collect (key_lock c key) (key_lock _ _) k keys = (inl, ⊎_elim (λ m. m) (λ (o, p, q, n). cc))
  mem-collect (key_lock c key) (context o) k keys =
      elim test
        as (λ d.
          Memᴰ k (collect (ite d (some key) none) keys)
          ↔ (Memᴰ k keys ⊎ Shows (key_lock c key) (context o) k)) [
            | yes (p, q) ↦
                let (to, of) = mem-emplace k key keys in
                (
                  λ m. ⊎_elim inl (λ e. inr (o, cc, refl, p)) (to m),
                  ⊎_elim (λ m. of (inl m)) (λ (o', x, y, n). of (inr (cc))),
                )
            | no n ↦ (inl, ⊎_elim (λ m. m) (λ (o', x, y, m). absurd (n (λ e. m (cc), cc))))
          ]
    where
      test : Dec ((o ≢ exclude) × (c ≡ contract))
      test = dec_and (dec_not (ℕ_discrete o exclude)) (Text-discrete c contract)

  HeldByOther-cons :
      (e : Edge) (es : List Edge) (k : Text)
      → HeldByOther (e ∷ es) contract k exclude
        ↔ (HeldByOther es contract k exclude ⊎ Shows e.source e.target k)
  HeldByOther-cons e es k = (
    λ (o, (f, m, p, q), n).
        ⊎_elim
          (λ x. inr (
            o,
            sym (ap (λ (g : Edge). g.source) x) ∙ p,
            sym (ap (λ (g : Edge). g.target) x) ∙ q,
            n,
          ))
          (λ r. inl (o, (f, r, p, q), n)) (Memᴰ.cases_cons m),
    ⊎_elim (λ (o, (f, m, p, q), n). (o, (f, Memᴰ.tail m, p, q), n))
        (λ (o, p, q, n). (o, (e, Memᴰ.head refl, p, q), n)),
  )

  mem-key_locks_of :
      (es : List Edge) (keys : List Text) (k : Text)
      → Memᴰ k (key_locks_of contract exclude es keys)
        ↔ (Memᴰ k keys ⊎ HeldByOther es contract k exclude)
  unfolding key_locks_of
  mem-key_locks_of [] keys k =
      (inl, ⊎_elim (λ m. m) (λ (o, (e, m, p, q), n). absurd (Memᴰ.not-nil m)))
  mem-key_locks_of (e ∷ es) keys k =
      let (to, of) =
        mem-key_locks_of es (collect (not_holding contract exclude e.source e.target) keys) k in
      let (to', of') = mem-collect e.source e.target k keys in
      let (split, join) = HeldByOther-cons e es k in
      (
        λ m.
            ⊎_elim (λ n. ⊎_elim inl (λ h. inr (join (inr h))) (to' n)) (λ h. inr (join (inl h)))
              (to m),
        ⊎_elim (λ m. of (inl (of' (inl m))))
            (λ h. ⊎_elim (λ h'. of (inr h')) (λ h'. of (inl (of' (inr h')))) (split h)),
      )

  key_locks_of-IsSorted :
      (es : List Edge) (keys : List Text)
      → IsSorted keys
      → IsSorted (key_locks_of contract exclude es keys)
  unfolding key_locks_of
  key_locks_of-IsSorted [] keys h = h
  key_locks_of-IsSorted (e ∷ es) keys h =
      key_locks_of-IsSorted es _
        (collect-IsSorted (not_holding contract exclude e.source e.target) keys h)

-- `getKeyLocksNotHoldingByContext` returns the keys of the contract that another context holds, and
-- returns them in order and once each.
pub get_key_locks_lem :
    (contract : Text) (exclude : ℕ) (l : GraphKeyLocks)
    → let keys = get_key_locks_not_holding_by_context contract exclude l in
      IsSorted keys × ((key : Text) → Memᴰ key keys ↔ HeldByOther l.edges contract key exclude)
unfolding get_key_locks_not_holding_by_context
get_key_locks_lem contract exclude l = (
  key_locks_of-IsSorted contract exclude l.edges [] tt,
  λ key.
      let (to, of) = mem-key_locks_of contract exclude l.edges [] key in
      (λ m. ⊎_elim (λ n. absurd (Memᴰ.not-nil n)) (λ h. h) (to m), λ h. of (inr h)),
)
