-- ===== src/KeyLocks.antt =====
-- bcos-scheduler/GraphKeyLocks.h and GraphKeyLocks.cpp: the key locks of a block as a graph. An edge
-- from a key lock to a context says that the context holds it, an edge back that it waits for it.
pub mod Edges
mod Tests
pub mod Acquire
pub mod Invariant
pub mod Search
pub mod Walks
pub mod Deadlock
pub mod Query
pub mod Release
pub mod Batch
use bcos_dispatcher.Base.{
  dec_and, dec_not, decide, dec_memᴰ, ◌||◌, some, none, ℕ, ◌≡◌, ite, dite, ◌≢◌, Bool, true, false,
  Option, List, [], ◌∷◌, ◌++◌, map, filter, ℕ_discrete, length, if◌then◌else◌, ◌&&◌,
}
use bcos_dispatcher.Base.Text.{Text, Text-discrete, dec_text_lt}

-- `std::variant<ContextID, KeyLock>`
pub data Vertex : Type 0 where
  context : ℕ → Vertex
  key_lock : Text → Text → Vertex

unfoldable pub Vertex-discrete : Discrete Vertex
unfolding Text-discrete ℕ_discrete
Vertex-discrete = hlevel (Text-discrete, ℕ_discrete)

pub record Edge : Type 0 where
  pub source : Vertex
  pub target : Vertex
  pub seq : ℕ

-- `m_graph` with its edges in the order of insertion, and the keys of `m_vertexes`, each of which
-- has its one vertex in the graph.
pub record GraphKeyLocks : Type 0 where
  pub edges : List Edge
  pub vertexes : List Vertex

unfoldable pub Edge-discrete : Discrete Edge
unfolding Vertex-discrete ℕ_discrete
Edge-discrete = hlevel (Vertex-discrete, ℕ_discrete)

-- The edges from `s` to `t`: `boost::edge_range(s, t, m_graph)`.
abbrev pub Joins : Vertex → Vertex → Edge → Type 0
Joins s t e = (e.source ≡ s) × (e.target ≡ t)

abbrev pub dec_joins : (s t : Vertex) (e : Edge) → Dec (Joins s t e)
unfolding Vertex-discrete
dec_joins s t e = dec_and (Vertex-discrete e.source s) (Vertex-discrete e.target t)

abbrev pub edge_range : Vertex → Vertex → List Edge → List Edge
edge_range s t = filter (dec_joins s t)

abbrev pub out_edges : Vertex → List Edge → List Edge
out_edges v = filter λ e. Vertex-discrete e.source v

abbrev pub in_edges : Vertex → List Edge → List Edge
in_edges v = filter λ e. Vertex-discrete e.target v

-- The loop of `addEdge` that sets `exists`.
unfoldable pub has_seq : ℕ → List Edge → Bool
has_seq seq [] = false
has_seq seq (e ∷ es) = decide (ℕ_discrete e.seq seq) || has_seq seq es

unfoldable pub add_edge : Vertex → Vertex → ℕ → GraphKeyLocks → GraphKeyLocks
unfolding has_seq
add_edge source target seq l =
    if has_seq seq (edge_range source target l.edges)
    then l
    else record l { edges = l.edges ++ record { source = source; target = target; seq = seq } ∷ [] }

-- The loop of `removeEdge`: the first edge from `source` to `target` with the number goes.
pub erase_first : Vertex → Vertex → ℕ → List Edge → List Edge
erase_first source target seq [] = []
erase_first source target seq (e ∷ es) =
    ite (dec_and (dec_joins source target e) (ℕ_discrete e.seq seq)) es
      (e ∷ erase_first source target seq es)

pub remove_edge : Vertex → Vertex → ℕ → GraphKeyLocks → GraphKeyLocks
unfolding erase_first
remove_edge source target seq l = record l { edges = erase_first source target seq l.edges }

-- `emplace` into `m_vertexes` with `add_vertex` if the key is new.
unfoldable pub touch : Vertex → GraphKeyLocks → GraphKeyLocks
touch v l = ite (dec_memᴰ Vertex-discrete v l.vertexes) l (record l { vertexes = v ∷ l.vertexes })

unfoldable pub touch_context : ℕ → GraphKeyLocks → GraphKeyLocks
unfolding touch
touch_context contextID l = touch (context contextID) l

unfoldable pub touch_key_lock : Text → Text → GraphKeyLocks → GraphKeyLocks
unfolding touch
touch_key_lock contract key l = touch (key_lock contract key) l

-- What a call answers. `bad_access` is the exception of `std::get<0>` on a vertex that is a key lock.
pub data Answer : Type 0 where
  granted refused bad_access : Answer

-- The body of the loop of `acquireKeyLock`: one target of the key's out edges.
unfoldable pub holder_check : ℕ → Vertex → Answer → Answer
holder_check contextID (context c) rest = ite (ℕ_discrete c contextID) rest refused
holder_check contextID (key_lock _ _) rest = bad_access

unfoldable pub check_holders : ℕ → List Edge → Answer
check_holders contextID [] = granted
check_holders contextID (e ∷ es) = holder_check contextID e.target (check_holders contextID es)

-- `boost::remove_edge(u, v, g)` drops every edge from `u` to `v`.
unfoldable pub remove_edges : Vertex → Vertex → GraphKeyLocks → GraphKeyLocks
remove_edges s t l = record l { edges = filter (λ e. dec_not (dec_joins s t e)) l.edges }

-- The three ways on from the loop.
unfoldable pub acquire_by : Answer → Vertex → Vertex → ℕ → GraphKeyLocks → GraphKeyLocks
unfolding add_edge remove_edges
acquire_by granted keyVertex contextVertex seq l =
    add_edge keyVertex contextVertex seq (remove_edges contextVertex keyVertex l)
acquire_by refused keyVertex contextVertex seq l = add_edge contextVertex keyVertex seq l
acquire_by bad_access keyVertex contextVertex seq l = l

unfoldable pub acquire_key_lock : Text → Text → ℕ → ℕ → GraphKeyLocks → Answer × GraphKeyLocks
unfolding touch_context touch_key_lock check_holders holder_check acquire_by
acquire_key_lock contract key contextID seq l =
    let touched = touch_context contextID (touch_key_lock contract key l) in
    let answer = check_holders contextID (out_edges (key_lock contract key) touched.edges) in
    (answer, acquire_by answer (key_lock contract key) (context contextID) seq touched)

-- The test in the loop of `batchAcquireKeyLock`: a refused key is thrown as `UnexpectedKeyLockError`,
-- and the keys before it stay acquired.
unfoldable pub proceed : Answer → Answer × GraphKeyLocks → GraphKeyLocks → Answer × GraphKeyLocks
proceed granted rest l = rest
proceed refused rest l = (refused, l)
proceed bad_access rest l = (bad_access, l)

unfoldable pub batch_acquire_key_lock :
    Text → List Text → ℕ → ℕ → GraphKeyLocks → Answer × GraphKeyLocks
unfolding proceed
batch_acquire_key_lock contract [] contextID seq l = (granted, l)
batch_acquire_key_lock contract (key ∷ keys) contextID seq l =
    let (answer, l') = acquire_key_lock contract key contextID seq l in
    proceed answer (batch_acquire_key_lock contract keys contextID seq l') l'

-- `emplace` into the `std::set` of key names.
unfoldable pub emplace : Text → List Text → List Text
unfolding Text-discrete dec_text_lt
emplace t [] = t ∷ []
emplace t (u ∷ us) =
    ite (dec_text_lt t u) (t ∷ u ∷ us) (ite (Text-discrete t u) (u ∷ us) (u ∷ emplace t us))

-- The test on an edge, which reads the target first: the source is then a key lock.
unfoldable pub not_holding : Text → ℕ → Vertex → Vertex → Option Text
unfolding Text-discrete
not_holding contract exclude (key_lock c key) (context other) =
    ite (dec_and (dec_not (ℕ_discrete other exclude)) (Text-discrete c contract)) (some key) none
not_holding contract exclude _ _ = none

unfoldable pub collect : Option Text → List Text → List Text
unfolding emplace
collect none keys = keys
collect (some key) keys = emplace key keys

-- The loop over `boost::edges(m_graph)`, with the set so far.
unfoldable pub key_locks_of : Text → ℕ → List Edge → List Text → List Text
unfolding not_holding collect
key_locks_of contract exclude [] uniqueKeyLocks = uniqueKeyLocks
key_locks_of contract exclude (e ∷ es) uniqueKeyLocks =
    key_locks_of contract exclude es
      (collect (not_holding contract exclude e.source e.target) uniqueKeyLocks)

unfoldable pub get_key_locks_not_holding_by_context : Text → ℕ → GraphKeyLocks → List Text
unfolding key_locks_of
get_key_locks_not_holding_by_context contract exclude l = key_locks_of contract exclude l.edges []

-- The edges that `edgeRemoveFunc` leaves: those that are not in its range, and the others that
-- have another number.
abbrev pub remains : {P : Edge → Type 0} → ((e : Edge) → Dec (P e)) → ℕ → List Edge → List Edge
remains d seq = filter λ e. dec_not (dec_and (d e) (ℕ_discrete e.seq seq))

-- Its answer `total == removed`.
abbrev pub all_removed : ℕ → List Edge → Bool
all_removed seq range =
    decide (ℕ_discrete (length range) (length (filter (λ e. ℕ_discrete e.seq seq) range)))

unfoldable pub release_key_locks : ℕ → ℕ → GraphKeyLocks → GraphKeyLocks
unfolding touch_context
release_key_locks contextID seq l =
    let v = context contextID in
    let touched = touch_context contextID l in
    let cleared_in = all_removed seq (in_edges v touched.edges) in
    let after_in = remains (λ e. Vertex-discrete e.target v) seq touched.edges in
    let cleared_out = all_removed seq (out_edges v after_in) in
    let after_out = remains (λ e. Vertex-discrete e.source v) seq after_in in
    record {
      edges = after_out;
      vertexes =
          if cleared_in && cleared_out
          then filter (λ w. dec_not (Vertex-discrete w v)) touched.vertexes
          else touched.vertexes;
    }

-- The default constructor.
abbrev pub no_locks : GraphKeyLocks
no_locks = record { edges = []; vertexes = [] }
