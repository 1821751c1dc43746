-- ===== src/KeyLocks/Walks.antt =====
-- Walks along the edges, and cycles.
use mathlib.Core.List.Memᴰ
use bcos_dispatcher.Base.{subst, ⊎_elim, List, [], ◌∷◌, Memᴰ}
use bcos_dispatcher.KeyLocks.{Vertex, Edge}
use bcos_dispatcher.KeyLocks.Edges.{Arrow}

pub data Walk (es : List Edge) (u : Vertex) : Vertex → Type 0 where
  here : Walk es u u
  step : {v w : Vertex} → Walk es u v → Arrow es v w → Walk es u w

-- A walk of at least one edge leads from the vertex back to it.
abbrev pub Cycle : List Edge → Vertex → Type 0
Cycle es v = (w : Vertex) × Walk es v w × Arrow es w v

abbrev pub ReachesCycle : List Edge → Vertex → Type 0
ReachesCycle es u = (v : Vertex) × Walk es u v × Cycle es v

-- Every edge out of a vertex of the list leads to a later one.
abbrev pub Topological : List Edge → List Vertex → Type 0
Topological es [] = Unit {0}
Topological es (b ∷ bs) = ((w : Vertex) → Arrow es b w → Memᴰ w bs) × Topological es bs

module _ (es : List Edge) where
  closed_step :
      (bs : List Vertex) → Topological es bs → (v w : Vertex) → Memᴰ v bs → Arrow es v w → Memᴰ w bs
  closed_step [] h v w m a = absurd (Memᴰ.not-nil m)
  closed_step (b ∷ bs) h v w m a = Memᴰ.tail (
      ⊎_elim (λ e. h.0 w (subst (λ x. Arrow es x w) e a)) (λ r. closed_step bs h.1 v w r a)
        (Memᴰ.cases_cons m))

  pub closed :
      (bs : List Vertex) → Topological es bs → (v w : Vertex) → Memᴰ v bs → Walk es v w → Memᴰ w bs
  closed bs h v w m here = m
  closed bs h v w m (step {v = x} p a) = closed_step bs h x w (closed bs h v x m p) a

  -- the first edge of a cycle, and the walk back
  unroll : (v w x : Vertex) → Walk es v w → Arrow es w x → (y : Vertex) × Arrow es v y × Walk es y x
  unroll v w x here a = (x, a, here)
  unroll v w x (step {v = z} p b) a = let (y, c, q) = unroll v z w p b in (y, c, step q a)

  -- No cycle leads through a vertex of such a list.
  pub acyclic : (bs : List Vertex) → Topological es bs → (v : Vertex) → Memᴰ v bs → ¬ Cycle es v
  acyclic [] h v m c = Memᴰ.not-nil m
  acyclic (b ∷ bs) h v m (w, p, a) =
      ⊎_elim
        (λ e.
          let (y, first, q) = unroll v w v p a in
          acyclic bs h.1 v (closed bs h.1 y v (h.0 y (subst (λ x. Arrow es x y) e first)) q)
            (w, p, a))
        (λ r. acyclic bs h.1 v r (w, p, a)) (Memᴰ.cases_cons m)
