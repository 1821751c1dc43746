-- ===== src/KeyLocks/Release.antt =====
-- What `releaseKeyLocks` removes and keeps.
use mathlib.Core.List.Memᴰ
use bcos_dispatcher.Base.{
  ℕ, suc, decide_iff, decide-false, ◌≡◌, refl, ap, ◌∙◌, ◌≢◌, ◌↔◌, ◌⊎◌, inl, inr, ⊎_elim, List, [],
  ◌∷◌, Memᴰ, arith, Bool, true, false, ◌&&◌, Bool-cases, filter, length, length-filter-le,
  Memᴰ-filter, ℕ_discrete, dec_not, dec_and, if_pos, if_neg,
}
use bcos_dispatcher.Base.Text.{Text}
use bcos_dispatcher.KeyLocks.{
  Vertex, context, key_lock, Vertex-discrete, Edge, GraphKeyLocks, in_edges, out_edges, remains,
  all_removed, touch_context, release_key_locks, granted, acquire_key_lock,
}
use bcos_dispatcher.KeyLocks.Edges.{Arrow}
use bcos_dispatcher.KeyLocks.Acquire.{Inv, acquire-granted_iff, touch-edges, mem-touch}

-- The edge starts or ends at the vertex.
abbrev pub Touches : Vertex → Edge → Type 0
Touches v e = (e.target ≡ v) ⊎ (e.source ≡ v)

module _ (n : ℕ) where
  abbrev numbered : (e : Edge) → Dec (e.seq ≡ n)
  numbered e = ℕ_discrete e.seq n

  -- `total == removed` says that every edge of the range has the number.
  all_of_length :
      (es : List Edge)
      → length es ≡ length (filter numbered es)
      → (e : Edge) → Memᴰ e es
      → e.seq ≡ n
  all_of_length [] h e m = absurd (Memᴰ.not-nil m)
  all_of_length (f ∷ es) h e m = elim (ℕ_discrete f.seq n) [
    | yes p ↦
        let h' : length es ≡ length (filter numbered es) = omega (arith, rw (if_pos _ p) at h) in
        ⊎_elim (λ q. ap (λ (g : Edge). g.seq) q ∙ p) (all_of_length es h' e) (Memᴰ.cases_cons m)
    | no k ↦ absurd (omega (arith, rw (if_neg _ k) at h, length-filter-le numbered es))
  ]

  other_of_length :
      (es : List Edge)
      → length es ≢ length (filter numbered es)
      → (e : Edge) × Memᴰ e es × (e.seq ≢ n)
  other_of_length [] h = absurd (h refl)
  other_of_length (f ∷ es) h = elim (ℕ_discrete f.seq n) [
    | yes p ↦
        let (e, m, k) = other_of_length es (λ q. h (rw (if_pos _ p) (ap suc q))) in
        (e, Memᴰ.tail m, k)
    | no k ↦ (f, Memᴰ.head refl, k)
  ]

  all_removed-true : (es : List Edge) → all_removed n es ≡ true → (e : Edge) → Memᴰ e es → e.seq ≡ n
  all_removed-true es h = all_of_length es ((decide_iff _).0 h)

  all_removed-false :
      (es : List Edge) → all_removed n es ≡ false → (e : Edge) × Memᴰ e es × (e.seq ≢ n)
  all_removed-false es h = other_of_length es (decide-false _ h)

module _ (c n : ℕ) (es : List Edge) where
  abbrev after_in : List Edge
  after_in = remains (λ e. Vertex-discrete e.target (context c)) n es

  abbrev cleared : Bool
  cleared =
      all_removed n (in_edges (context c) es) && all_removed n (out_edges (context c) after_in)

  abbrev Left : Edge → Type 0
  Left e = Memᴰ e es × ¬ ((e.seq ≡ n) × Touches (context c) e)

  cleared-true : cleared ≡ true → (e : Edge) → Left e → ¬ Touches (context c) e
  cleared-true h e (m, k) t = k (seq_n t, t)
    where
      both :
          (all_removed n (in_edges (context c) es) ≡ true)
          × (all_removed n (out_edges (context c) after_in) ≡ true)
      both = ground arith

      seq_n : Touches (context c) e → e.seq ≡ n
      seq_n (inl t) = all_removed-true n _ both.0 e ((Memᴰ-filter _ e es).1 (m, t))
      seq_n (inr t) =
          all_removed-true n _ both.1 e
            ((Memᴰ-filter _ e after_in).1 ((Memᴰ-filter _ e es).1 (m, λ (p, q). k (q, inl p)), t))

  cleared-false : cleared ≡ false → (e : Edge) × Left e × Touches (context c) e
  cleared-false h = elim (Bool-cases (all_removed n (in_edges (context c) es))) [
    | inl ins ↦
        let (e, m, k) = all_removed-false n _ (rw ins at h) in
        let (m', t) = (Memᴰ-filter _ e after_in).0 m in
        (e, (((Memᴰ-filter _ e es).0 m').0, λ (p, _). k p), inr t)
    | inr ins ↦
        let (e, m, k) = all_removed-false n _ ins in
        let (m', t) = (Memᴰ-filter _ e es).0 m in (e, (m', λ (p, _). k p), inl t)
  ]

  abbrev after_out : List Edge
  after_out = remains (λ e. Vertex-discrete e.source (context c)) n after_in

  mem-after_out : (e : Edge) → Memᴰ e after_out ↔ Left e
  mem-after_out e = ground (
    arith,
    Memᴰ-filter (λ e. dec_not (dec_and (Vertex-discrete e.source (context c)) (ℕ_discrete e.seq n)))
        e after_in,
    Memᴰ-filter (λ e. dec_not (dec_and (Vertex-discrete e.target (context c)) (ℕ_discrete e.seq n)))
        e es,
  )

-- `releaseKeyLocks` removes exactly the edges of the context that have the number.
pub mem-release :
    (c n : ℕ) (l : GraphKeyLocks) (e : Edge)
    → Memᴰ e (release_key_locks c n l).edges
      ↔ (Memᴰ e l.edges × ¬ ((e.seq ≡ n) × Touches (context c) e))
unfolding release_key_locks touch_context
mem-release c n l e = rw (touch-edges (context c) l) (mem-after_out c n l.edges e)

-- The vertex of the context goes exactly if no edge of it is left, and no other vertex goes.
pub vertexes-release :
    (c n : ℕ) (l : GraphKeyLocks) (v : Vertex)
    → Memᴰ v (release_key_locks c n l).vertexes ↔ (
        Memᴰ v l.vertexes × (v ≢ context c)
        ⊎ (v ≡ context c) × ((e : Edge) × Memᴰ e (release_key_locks c n l).edges × Touches v e))
unfolding release_key_locks touch_context
vertexes-release c n l v = rw (touch-edges (context c) l) (elim (Bool-cases (cleared c n l.edges)) [
  | inl h ↦ rw h (
    λ m.
        let (m', k) = (Memᴰ-filter _ v touched).0 m in
        ⊎_elim (λ old. inl (old, k)) (λ q. absurd (k q)) (known.0 m'),
    ⊎_elim (λ (m, k). (Memᴰ-filter _ v touched).1 (known.1 (inl m), k))
        (λ (q, (e, m, t)).
          absurd (cleared-true c n l.edges h e ((mem-after_out c n l.edges e).0 m) (rw q at t))),
  )
  | inr h ↦ rw h (
    λ m. elim (Vertex-discrete v (context c)) [
      | yes q ↦
          let (e, left, t) = cleared-false c n l.edges h in
          inr (q, (e, (mem-after_out c n l.edges e).1 left, rw q t))
      | no k ↦ ⊎_elim (λ old. inl (old, k)) (λ q. absurd (k q)) (known.0 m)
    ],
    ⊎_elim (λ (m, k). known.1 (inl m)) (λ (q, _). known.1 (inr q)),
  )
])
  where
    touched : List Vertex
    touched = (touch_context c l).vertexes

    known : Memᴰ v touched ↔ (Memᴰ v l.vertexes ⊎ (v ≡ context c))
    known = mem-touch v (context c) l

Arrow-release :
    (c n : ℕ) (l : GraphKeyLocks) (s t : Vertex)
    → Arrow (release_key_locks c n l).edges s t
    → Arrow l.edges s t
Arrow-release c n l s t (e, m, p, q) = (e, ((mem-release c n l e).0 m).0, p, q)

-- `releaseKeyLocks` keeps the invariant: a vertex that goes leaves no edge behind.
pub release_key_locks-Inv : (c n : ℕ) (l : GraphKeyLocks) → Inv l → Inv (release_key_locks c n l)
release_key_locks-Inv c n l h = record {
  bipartite = λ s t x. h.bipartite s t (old s t x);
  exclusive = λ ct ky s t x y. h.exclusive ct ky s t (old _ s x) (old _ t y);
  no_self_wait = λ s t x y. h.no_self_wait s t (old s t x) (old t s y);
  known = λ s t (e, m, p, q).
      let (ms, mt) = h.known s t (old s t (e, m, p, q)) in
      (stays s ms e m (inr p), stays t mt e m (inl q));
}
  where
    old : (s t : Vertex) → Arrow (release_key_locks c n l).edges s t → Arrow l.edges s t
    old = Arrow-release c n l

    stays :
        (v : Vertex)
        → Memᴰ v l.vertexes
        → (e : Edge) → Memᴰ e (release_key_locks c n l).edges
        → Touches v e
        → Memᴰ v (release_key_locks c n l).vertexes
    stays v m e me t =
        (vertexes-release c n l v).1
          (elim (Vertex-discrete v (context c)) [ yes q ↦ inr (q, (e, me, t)) | no k ↦ inl (m, k) ])

-- Once every edge of the key lock has gone with the released number, the lock is free: any context
-- acquires it.
pub acquire-release :
    (contract key : Text) (c n c' n' : ℕ) (l : GraphKeyLocks)
    → Inv l
    → ((e : Edge)
        → Memᴰ e l.edges
        → e.source ≡ key_lock contract key
        → (e.seq ≡ n) × (e.target ≡ context c))
    → (acquire_key_lock contract key c' n' (release_key_locks c n l)).0 ≡ granted
acquire-release contract key c n c' n' l h mine =
    (acquire-granted_iff contract key c' n' _ (release_key_locks-Inv c n l h)).1
      λ (o, (e, m, p, q), _).
        let (m', k) = (mem-release c n l e).0 m in
        let (numbered, held) = mine e m' p in k (numbered, inl held)
