-- ===== src/KeyLocks/Acquire.antt =====
-- What `acquireKeyLock` answers and changes, on each branch.
use bcos_dispatcher.Base.{
  ℕ, ◌≡◌, refl, sym, ap, ◌∙◌, subst, ◌≢◌, ◌↔◌, ◌⊎◌, inl, inr, ⊎_elim, List, [], ◌∷◌, ℕ_discrete,
  Memᴰ, Memᴰ-filter, arith, ite, if_pos, if_neg, dec_memᴰ,
}
use mathlib.Core.List.Memᴰ
use bcos_dispatcher.Base.Text.{Text}
use bcos_dispatcher.KeyLocks.{
  Vertex, context, key_lock, Vertex-discrete, Edge, GraphKeyLocks, out_edges, touch, touch_context,
  touch_key_lock, Answer, granted, refused, bad_access, holder_check, check_holders, remove_edges,
  acquire_by, acquire_key_lock,
}
use bcos_dispatcher.KeyLocks.Edges.{Arrow, Arrow-add_edge, Arrow-remove_edges}

-- An edge joins a key lock and a context.
abbrev pub IsLockEdge : Vertex → Vertex → Type 0
IsLockEdge (context _) (key_lock _ _) = Unit {0}
IsLockEdge (key_lock _ _) (context _) = Unit {0}
IsLockEdge _ _ = ⊥

abbrev pub IsContext : Vertex → Type 0
IsContext (context _) = Unit {0}
IsContext (key_lock _ _) = ⊥

pub record Inv (l : GraphKeyLocks) : Type 0 where
  pub bipartite : (s t : Vertex) → Arrow l.edges s t → IsLockEdge s t
  -- a key lock has one holder
  pub exclusive :
      (contract key : Text) (s t : Vertex)
      → Arrow l.edges (key_lock contract key) s
      → Arrow l.edges (key_lock contract key) t
      → s ≡ t
  -- no context waits for a key lock that it holds
  pub no_self_wait : (s t : Vertex) → Arrow l.edges s t → ¬ Arrow l.edges t s
  pub known : (s t : Vertex) → Arrow l.edges s t → Memᴰ s l.vertexes × Memᴰ t l.vertexes

pub touch-edges : (v : Vertex) (l : GraphKeyLocks) → (touch v l).edges ≡ l.edges
unfolding touch
touch-edges v l = ground arith

pub mem-touch :
    (w v : Vertex) (l : GraphKeyLocks) → Memᴰ w (touch v l).vertexes ↔ (Memᴰ w l.vertexes ⊎ (w ≡ v))
unfolding touch
mem-touch w v l =
    elim (dec_memᴰ Vertex-discrete v l.vertexes)
      as (λ d.
        Memᴰ w (ite d l (record l { vertexes = v ∷ l.vertexes })).vertexes
        ↔ (Memᴰ w l.vertexes ⊎ (w ≡ v))) [
          | yes old ↦ (inl, ⊎_elim (λ m. m) (λ e. subst (λ u. Memᴰ u l.vertexes) (sym e) old))
          | no new ↦ (λ m. ⊎_elim inr inl (Memᴰ.cases_cons m), ⊎_elim Memᴰ.tail Memᴰ.head)
        ]

-- What the answer of the loop says of the edges that it went over.
abbrev Verdict : ℕ → List Edge → Answer → Type 0
Verdict c es granted = (e : Edge) → Memᴰ e es → e.target ≡ context c
Verdict c es refused = (e : Edge) × (o : ℕ) × Memᴰ e es × (e.target ≡ context o) × (o ≢ c)
Verdict c es bad_access = ⊥

holder_check-Verdict :
    (c : ℕ) (e : Edge) (es : List Edge) (v : Vertex) (a : Answer)
    → e.target ≡ v
    → IsContext v
    → Verdict c es a
    → Verdict c (e ∷ es) (holder_check c v a)
unfolding holder_check
holder_check-Verdict c e es (key_lock _ _) a q h r = absurd h
holder_check-Verdict c e es (context o) a q h r = elim (ℕ_discrete o c) [
  | yes same ↦ rw (if_pos _ same) (pass same a r)
  | no other ↦ rw (if_neg _ other) (e, o, Memᴰ.head refl, q, other)
]
  where
    pass : o ≡ c → (a : Answer) → Verdict c es a → Verdict c (e ∷ es) a
    pass same granted r = λ f m.
        ⊎_elim (λ x. ap (λ (g : Edge). g.target) x ∙ q ∙ ap context same) (r f) (Memᴰ.cases_cons m)
    pass same refused (f, p, m, x, y) = (f, p, Memᴰ.tail m, x, y)
    pass same bad_access r = absurd r

check_holders-Verdict :
    (c : ℕ) (es : List Edge)
    → ((e : Edge) → Memᴰ e es → IsContext e.target)
    → Verdict c es (check_holders c es)
unfolding check_holders
check_holders-Verdict c [] h = λ e m. absurd (Memᴰ.not-nil m)
check_holders-Verdict c (e ∷ es) h =
    holder_check-Verdict c e es e.target (check_holders c es) refl (h e (Memᴰ.head refl))
      (check_holders-Verdict c es (λ f m. h f (Memᴰ.tail m)))

-- What `acquireKeyLock` answers, and which edges there are afterwards.
abbrev pub Acquired : Text → Text → ℕ → List Edge → Answer → GraphKeyLocks → Type 0
Acquired contract key c es granted l' =
    ((v : Vertex) → Arrow es (key_lock contract key) v → v ≡ context c)
    × ((s t : Vertex)
        → Arrow l'.edges s t ↔ (
            (Arrow es s t × ¬ ((s ≡ context c) × (t ≡ key_lock contract key)))
            ⊎ (s ≡ key_lock contract key) × (t ≡ context c)))
Acquired contract key c es refused l' =
    ((o : ℕ) × Arrow es (key_lock contract key) (context o) × (o ≢ c))
    × ((s t : Vertex)
        → Arrow l'.edges s t ↔ (Arrow es s t ⊎ (s ≡ context c) × (t ≡ key_lock contract key)))
Acquired contract key c es bad_access l' = ⊥

acquire_by-Acquired :
    (contract key : Text) (c n : ℕ) (l : GraphKeyLocks) (a : Answer)
    → Verdict c (out_edges (key_lock contract key) l.edges) a
    → Acquired contract key c l.edges a (acquire_by a (key_lock contract key) (context c) n l)
unfolding acquire_by
acquire_by-Acquired contract key c n l granted r = (
  λ v (e, m, p, q). sym q ∙ r e ((Memᴰ-filter _ e l.edges).1 (m, p)),
  λ s t.
      let k = key_lock contract key in
      let added = Arrow-add_edge k (context c) n (remove_edges (context c) k l) s t in
      let removed = Arrow-remove_edges (context c) k l s t in
      (
        λ x. ⊎_elim (λ r. inl (removed.0 r)) inr (added.0 x),
        ⊎_elim (λ r. added.1 (inl (removed.1 r))) (λ e. added.1 (inr e)),
      ),
)
acquire_by-Acquired contract key c n l refused (e, o, m, q, other) =
    let (m', p) = (Memᴰ-filter _ e l.edges).0 m in
    ((o, (e, m', p, q), other), λ s t. Arrow-add_edge _ _ n l s t)
acquire_by-Acquired contract key c n l bad_access r = absurd r

IsContext-of_edge :
    (contract key : Text) (v : Vertex) → IsLockEdge (key_lock contract key) v → IsContext v
IsContext-of_edge contract key (context _) h = tt
IsContext-of_edge contract key (key_lock _ _) h = h

-- What `acquireKeyLock` answers and does to the edges: it grants the lock where no other context
-- holds it, and else the context waits for it.
pub acquire_key_lock-Acquired :
    (contract key : Text) (c n : ℕ) (l : GraphKeyLocks)
    → Inv l
    → let (answer, l') = acquire_key_lock contract key c n l in
      Acquired contract key c l.edges answer l'
unfolding acquire_key_lock touch_context touch_key_lock
acquire_key_lock-Acquired contract key c n l h =
    subst (λ es. Acquired contract key c es answer l') same
      (acquire_by-Acquired contract key c n l₁ answer
        (check_holders-Verdict c (out_edges k l₁.edges) targets))
  where
    k : Vertex
    k = key_lock contract key

    l₁ : GraphKeyLocks
    l₁ = touch_context c (touch_key_lock contract key l)

    same : l₁.edges ≡ l.edges
    same = touch-edges (context c) (touch k l) ∙ touch-edges k l

    answer : Answer
    answer = check_holders c (out_edges k l₁.edges)

    l' : GraphKeyLocks
    l' = acquire_by answer k (context c) n l₁

    targets : (e : Edge) → Memᴰ e (out_edges k l₁.edges) → IsContext e.target
    targets e m =
        let (m', p) = (Memᴰ-filter _ e l₁.edges).0 m in
        IsContext-of_edge contract key e.target
          (h.bipartite k e.target (e, subst (Memᴰ e) same m', p, refl))

vertexes-acquire_by :
    (a : Answer) (k x : Vertex) (n : ℕ) (l : GraphKeyLocks)
    → (acquire_by a k x n l).vertexes ≡ l.vertexes
unfolding acquire_by
vertexes-acquire_by granted k x n l = ground arith
vertexes-acquire_by refused k x n l = ground arith
vertexes-acquire_by bad_access k x n l = refl

pub vertexes-acquire :
    (contract key : Text) (c n : ℕ) (l : GraphKeyLocks) (v : Vertex)
    → Memᴰ v (acquire_key_lock contract key c n l).1.vertexes
      ↔ ((Memᴰ v l.vertexes ⊎ (v ≡ key_lock contract key)) ⊎ (v ≡ context c))
unfolding acquire_key_lock touch_context touch_key_lock
vertexes-acquire contract key c n l v = rw (vertexes-acquire_by _ _ _ _ _) (
    let (to, of) = mem-touch v (context c) (touch (key_lock contract key) l) in
    let (to', of') = mem-touch v (key_lock contract key) l in
    (λ m. ⊎_elim (λ x. inl (to' x)) inr (to m), ⊎_elim (λ x. of (inl (of' x))) (λ e. of (inr e))))

-- Another context than `c` holds the key lock.
abbrev pub HeldByOther : List Edge → Text → Text → ℕ → Type 0
HeldByOther es contract key c = (o : ℕ) × Arrow es (key_lock contract key) (context o) × (o ≢ c)

granted_of_Acquired :
    (contract key : Text) (c : ℕ) (es : List Edge) (a : Answer) (l' : GraphKeyLocks)
    → Acquired contract key c es a l'
    → (a ≡ granted) ↔ ¬ HeldByOther es contract key c
granted_of_Acquired contract key c es granted l' (alone, _) =
    (λ _ (o, x, n). n (cc (alone (context o) x)), λ _. refl)
granted_of_Acquired contract key c es refused l' (held, _) = (λ e. cc, λ free. absurd (free held))
granted_of_Acquired contract key c es bad_access l' r = absurd r

-- `acquireKeyLock` grants the lock exactly if no other context holds it.
pub acquire-granted_iff :
    (contract key : Text) (c n : ℕ) (l : GraphKeyLocks)
    → Inv l
    → ((acquire_key_lock contract key c n l).0 ≡ granted) ↔ ¬ HeldByOther l.edges contract key c
acquire-granted_iff contract key c n l h =
    granted_of_Acquired contract key c l.edges _ _ (acquire_key_lock-Acquired contract key c n l h)
