-- ===== src/KeyLocks/Search.antt =====
-- Boost's `depth_first_visit`, which is not part of this repository, as its documentation describes
-- it: the visitor sees the back edges, and the terminator is asked at each vertex that is discovered.
use bcos_dispatcher.Base.{◌≡◌, Bool, true, false, ◌↔◌, List, [], ◌∷◌, Memᴰ}
use bcos_dispatcher.KeyLocks.{Vertex, Edge}
use bcos_dispatcher.KeyLocks.Edges.{Arrow}

-- The colour map, where a vertex in neither list is white, and the state of the visitor.
pub record Colours : Type 0 where
  pub gray : List Vertex
  pub black : List Vertex
  pub flag : Bool

abbrev pub IsWhite : Colours → Vertex → Type 0
IsWhite s v = ¬ Memᴰ v s.gray × ¬ Memᴰ v s.black

abbrev pub discover : Vertex → Colours → Colours
discover u s = record s { gray = u ∷ s.gray }

-- `u` turns black, with the gray vertices `g` below it on the stack.
abbrev pub finish : Vertex → List Vertex → Colours → Colours
finish u g s = record { gray = g; black = u ∷ s.black; flag = s.flag }

-- `Visit s u t`: the visit of the white vertex `u` leads from `s` to `t`. `Scan s vs t`: so do the
-- out edges to `vs`, in whatever order the graph keeps them.
mutual
  pub data Visit (back_edge terminate : Bool → Bool) (es : List Edge)
      : Colours → Vertex → Colours → Type 0 where
    stopped :
        {s : Colours} {u : Vertex}
        → terminate s.flag ≡ true
        → Visit back_edge terminate es s u (finish u s.gray s)
    through :
        {s t : Colours} {u : Vertex} (vs : List Vertex)
        → terminate s.flag ≡ false
        → ((v : Vertex) → Memᴰ v vs ↔ Arrow es u v)
        → Scan back_edge terminate es (discover u s) vs t
        → Visit back_edge terminate es s u (finish u s.gray t)

  pub data Scan (back_edge terminate : Bool → Bool) (es : List Edge)
      : Colours → List Vertex → Colours → Type 0 where
    done : {s : Colours} → Scan back_edge terminate es s [] s
    tree :
        {s t r : Colours} {v : Vertex} {vs : List Vertex}
        → IsWhite s v
        → Visit back_edge terminate es s v t
        → Scan back_edge terminate es t vs r
        → Scan back_edge terminate es s (v ∷ vs) r
    back :
        {s r : Colours} {v : Vertex} {vs : List Vertex}
        → Memᴰ v s.gray
        → Scan back_edge terminate es (record s { flag = back_edge s.flag }) vs r
        → Scan back_edge terminate es s (v ∷ vs) r
    cross :
        {s r : Colours} {v : Vertex} {vs : List Vertex}
        → Memᴰ v s.black
        → Scan back_edge terminate es s vs r
        → Scan back_edge terminate es s (v ∷ vs) r

-- The colours before the visit: the map is empty, and every vertex white.
abbrev pub blank : Bool → Colours
blank flag = record { gray = []; black = []; flag = flag }

-- The function: from the visitor, the terminator, the graph, a vertex and the visitor's state to the
-- state that the visitor is left in.
abbrev pub DepthFirstVisit : Type 0
DepthFirstVisit = (Bool → Bool) → (Bool → Bool) → List Edge → Vertex → Bool → Bool

-- One call of it runs as documented.
abbrev pub RunsAsDocumented :
    DepthFirstVisit → (Bool → Bool) → (Bool → Bool) → List Edge → Vertex → Bool → Type 0
RunsAsDocumented visit back_edge terminate es u flag =
    (t : Colours) × Visit back_edge terminate es (blank flag) u t
    × (visit back_edge terminate es u flag ≡ t.flag)
