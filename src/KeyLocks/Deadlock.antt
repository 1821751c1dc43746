-- ===== src/KeyLocks/Deadlock.antt =====
-- `detectDeadLock` of bcos-scheduler/GraphKeyLocks.cpp, over a depth first visit that runs as Boost
-- documents it.
use mathlib.Core.List.Memᴰ
use bcos_dispatcher.Base.{
  ℕ, suc, ◌==◌, ◌≡◌, refl, sym, ◌∙◌, subst, ◌↔◌, inl, inr, ⊎_elim, Bool, true, false, Bool-cases,
  List, [], ◌∷◌, Memᴰ, length, List-cases, Memᴰ-filter, arith, dec_memᴰ, if◌then◌else◌,
}
use bcos_dispatcher.KeyLocks.{Vertex, context, Vertex-discrete, Edge, GraphKeyLocks, in_edges}
use bcos_dispatcher.KeyLocks.Edges.{Arrow}
use bcos_dispatcher.KeyLocks.Search.{
  Colours, blank, Visit, stopped, through, Scan, done, tree, back, cross, DepthFirstVisit,
  RunsAsDocumented,
}
use bcos_dispatcher.KeyLocks.Walks.{Walk, here, step, ReachesCycle, Topological, closed, acyclic}

-- `GraphVisitor::back_edge` sets the flag; the terminator reads it.
abbrev pub back_edge : Bool → Bool
back_edge m_backEdge = true

abbrev pub terminate : Bool → Bool
terminate hasDeadLock = hasDeadLock

unfoldable pub detect_dead_lock : DepthFirstVisit → ℕ → GraphKeyLocks → Bool
detect_dead_lock visit contextID l =
    elim (dec_memᴰ Vertex-discrete (context contextID) l.vertexes) [
      | yes _ ↦
          if length (in_edges (context contextID) l.edges) == 0
          then false
          else visit back_edge terminate l.edges (context contextID) false
      | no _ ↦ false
    ]

Visit-gray :
    {es : List Edge} {s t : Colours} {u : Vertex}
    → Visit back_edge terminate es s u t
    → t.gray ≡ s.gray
Visit-gray (stopped h) = refl
Visit-gray (through vs h k d) = refl

module _ (es : List Edge) (root : Vertex) where
  -- the gray vertices are those that the walk to the current vertex came through
  abbrev Stack : Colours → Vertex → Type 0
  Stack s u = (g : Vertex) → Memᴰ g s.gray → Walk es g u

  abbrev Flagged : Colours → Type 0
  Flagged s = s.flag ≡ true → ReachesCycle es root

  mutual
    Visit-Flagged :
        {s t : Colours} {u : Vertex}
        → Visit back_edge terminate es s u t
        → Walk es root u
        → Stack s u
        → Flagged s
        → Flagged t
    Visit-Flagged (stopped h) p g f = f
    Visit-Flagged {s} {t} {u} (through vs h k d) p g f =
        Scan-Flagged d p (λ v m. (k v).0 m)
          (λ x m. ⊎_elim (λ e. subst (λ y. Walk es y u) (sym e) here) (g x) (Memᴰ.cases_cons m)) f

    Scan-Flagged :
        {s t : Colours} {vs : List Vertex} {u : Vertex}
        → Scan back_edge terminate es s vs t
        → Walk es root u
        → ((v : Vertex) → Memᴰ v vs → Arrow es u v)
        → Stack s u
        → Flagged s
        → Flagged t
    Scan-Flagged done p out g f = f
    Scan-Flagged (tree {v = v} w d r) p out g f =
        let edge = out v (Memᴰ.head refl) in
        Scan-Flagged r p (λ x m. out x (Memᴰ.tail m)) (λ x m. g x (subst (Memᴰ x) (Visit-gray d) m))
          (Visit-Flagged d (step p edge) (λ x m. step (g x m) edge) f)
    Scan-Flagged (back {v = v} m r) p out g f =
        let edge = out v (Memᴰ.head refl) in
        Scan-Flagged r p (λ x m. out x (Memᴰ.tail m)) g (λ _. (v, step p edge, (_, g v m, edge)))
    Scan-Flagged (cross m r) p out g f = Scan-Flagged r p (λ x m. out x (Memᴰ.tail m)) g f

module _ (es : List Edge) where
  -- What the visit of `u` has done by its end, where it met no back edge.
  record Finished (s t : Colours) : Type 0 where
    unmarked : s.flag ≡ false
    grows : (v : Vertex) → Memᴰ v s.black → Memᴰ v t.black
    sorted : Topological es s.black → Topological es t.black

  mutual
    Visit-Finished :
        {s t : Colours} {u : Vertex}
        → Visit back_edge terminate es s u t
        → t.flag ≡ false
        → Finished s t × Memᴰ u t.black
    Visit-Finished (stopped h) f = cc
    Visit-Finished {u = u} (through vs h k d) f =
        let (r, all) = Scan-Finished d f in
        (
          record {
            unmarked = r.unmarked;
            grows = λ v m. Memᴰ.tail (r.grows v m);
            sorted = λ o. (λ w a. all w ((k w).1 a), r.sorted o);
          },
          Memᴰ.head refl,
        )

    Scan-Finished :
        {s t : Colours} {vs : List Vertex}
        → Scan back_edge terminate es s vs t
        → t.flag ≡ false
        → Finished s t × ((v : Vertex) → Memᴰ v vs → Memᴰ v t.black)
    Scan-Finished done f =
        (record { unmarked = f; grows = λ v m. m; sorted = λ o. o }, λ v m. absurd (Memᴰ.not-nil m))
    Scan-Finished (tree {t = t} {v = v} w d r) f =
        let (later, rest) = Scan-Finished r f in
        let (first, own) = Visit-Finished d later.unmarked in
        (
          record {
            unmarked = first.unmarked;
            grows = λ x m. later.grows x (first.grows x m);
            sorted = λ o. later.sorted (first.sorted o);
          },
          λ x m.
              ⊎_elim (λ e. later.grows x (subst (λ y. Memᴰ y t.black) (sym e) own)) (rest x)
                (Memᴰ.cases_cons m),
        )
    Scan-Finished (back m r) f =
        let (later, _) = Scan-Finished r f in
        let e : ◌≡◌ {A = Bool} true false = later.unmarked in absurd (cc)
    Scan-Finished (cross {s = s} {v = v} b r) f =
        let (later, rest) = Scan-Finished r f in
        (
          later,
          λ x m.
              ⊎_elim (λ e. later.grows x (subst (λ y. Memᴰ y s.black) (sym e) b)) (rest x)
                (Memᴰ.cases_cons m),
        )

-- The visit raises the flag exactly if a cycle can be reached.
Visit-flag_iff :
    (es : List Edge) (u : Vertex) (t : Colours)
    → Visit back_edge terminate es (blank false) u t
    → (t.flag ≡ true) ↔ ReachesCycle es u
Visit-flag_iff es u t d = (
  Visit-Flagged es u d here (λ x m. absurd (Memᴰ.not-nil m)) (λ e. cc),
  λ (v, p, c). elim (Bool-cases t.flag) [
    | inl h ↦ h
    | inr h ↦
        let (r, own) = Visit-Finished es d h in
        let order = r.sorted tt in
        absurd (acyclic es t.black order v (closed es t.black order u v own p) c)
  ],
)

in_degree-zero :
    (v : Vertex) (es : List Edge) → in_edges v es ≡ [] → ¬ ((s : Vertex) × Arrow es s v)
in_degree-zero v es h (s, (e, m, p, q)) =
    Memᴰ.not-nil (subst (Memᴰ e) h ((Memᴰ-filter _ e es).1 (m, q)))

in_degree-pos :
    (v : Vertex) (es : List Edge) (e : Edge) (rest : List Edge)
    → in_edges v es ≡ e ∷ rest
    → (s : Vertex) × Arrow es s v
in_degree-pos v es e rest h =
    let (m, q) = (Memᴰ-filter _ e es).0 (subst (Memᴰ e) (sym h) (Memᴰ.head refl)) in
    (e.source, (e, m, refl, q))

-- The context has a vertex, an edge leads to it, so it holds a key lock, and a cycle can be reached
-- from it: exactly then `detectDeadLock` answers true, if the visit runs as documented.
pub detect_dead_lock_iff :
    (visit : DepthFirstVisit) (c : ℕ) (l : GraphKeyLocks)
    → RunsAsDocumented visit back_edge terminate l.edges (context c) false
    → (detect_dead_lock visit c l ≡ true) ↔ (
        Memᴰ (context c) l.vertexes
        × ((s : Vertex) × Arrow l.edges s (context c))
        × ReachesCycle l.edges (context c))
unfolding detect_dead_lock
detect_dead_lock_iff visit c l (t, d, e) =
    elim known as (λ k. (elim k [ yes _ ↦ behind | no _ ↦ false ] ≡ true) ↔ Found) [
      | yes m ↦ elim (List-cases (in_edges v l.edges)) [
        | inl none ↦
            (λ h. absurd (cc (rw none at h)), λ (_, a, _). absurd (in_degree-zero v l.edges none a))
        | inr (f, fs, some) ↦
            let flagged = Visit-flag_iff l.edges v t d in
            let z : (suc (length fs) == 0) ≡ false = ground arith in
            (
              λ h. (m, in_degree-pos v l.edges f fs some, flagged.0 (sym e ∙ rw (some, z) at h)),
              λ (_, _, r). rw (some, z) (e ∙ flagged.1 r),
            )
      ]
      | no n ↦ (λ h. absurd (cc), λ (m, _, _). absurd (n m))
    ]
  where
    v : Vertex
    v = context c

    known : Dec (Memᴰ v l.vertexes)
    known = dec_memᴰ Vertex-discrete v l.vertexes

    behind : Bool
    behind =
        if length (in_edges v l.edges) == 0
        then false
        else visit back_edge terminate l.edges v false

    Found : Type 0
    Found = Memᴰ v l.vertexes × ((s : Vertex) × Arrow l.edges s v) × ReachesCycle l.edges v
