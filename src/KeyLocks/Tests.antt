-- ===== src/KeyLocks/Tests.antt =====
-- Runs of the key locks, after tests/testKeyLocks.cpp, and the theorems at concrete graphs.
use mathlib.Core.List.Memᴰ
use bcos_dispatcher.Base.{
  ◌≡◌, ◌↔◌, refl, sym, Bool, true, false, List, [], ◌∷◌, map, Memᴰ, Memᴰ-filter, arith, decide, ap,
  ◌∙◌, decide-false, dec_memᴰ, ⊎_elim,
}
use bcos_dispatcher.Base.Text.{Text}
use bcos_dispatcher.KeyLocks.{
  Vertex, context, key_lock, Vertex-discrete, Edge, GraphKeyLocks, no_locks, granted, refused,
  out_edges, acquire_key_lock, batch_acquire_key_lock, release_key_locks,
  get_key_locks_not_holding_by_context,
}
use bcos_dispatcher.KeyLocks.Edges.{Arrow}
use bcos_dispatcher.KeyLocks.Acquire.{
  Inv, Acquired, acquire_key_lock-Acquired, HeldByOther, acquire-granted_iff,
}
use bcos_dispatcher.KeyLocks.Invariant.{no_locks-Inv, acquire_key_lock-Inv}
use bcos_dispatcher.KeyLocks.Batch.{BatchAcquired, batch_acquire_key_lock-BatchAcquired}
use bcos_dispatcher.KeyLocks.Release.{Touches, mem-release, release_key_locks-Inv, acquire-release}
use bcos_dispatcher.KeyLocks.Query.{IsSorted, get_key_locks_lem}
use bcos_dispatcher.KeyLocks.Search.{
  Colours, blank, Visit, through, done, tree, back, DepthFirstVisit,
}
use bcos_dispatcher.KeyLocks.Walks.{ReachesCycle}
use bcos_dispatcher.KeyLocks.Deadlock.{back_edge, terminate, detect_dead_lock, detect_dead_lock_iff}

abbrev contract : Text
contract = b'c' ∷ []

abbrev key1 : Text
key1 = b'k' ∷ b'1' ∷ []

abbrev key2 : Text
key2 = b'k' ∷ b'2' ∷ []

-- Context 1000 holds the first key, 1001 the second.
two_held : GraphKeyLocks
two_held =
    (acquire_key_lock contract key2 1001 1 (acquire_key_lock contract key1 1000 1 no_locks).1).1

two_held-Inv : Inv two_held
unfolding two_held
two_held-Inv =
    acquire_key_lock-Inv contract key2 1001 1 (acquire_key_lock contract key1 1000 1 no_locks).1
      (acquire_key_lock-Inv contract key1 1000 1 no_locks no_locks-Inv)

waits : (acquire_key_lock contract key2 1000 2 two_held).0 ≡ refused
unfolding two_held acquire_key_lock Vertex-discrete
waits = refl

-- The sequence numbers are released one by one.
released_late :
    let held =
      (acquire_key_lock contract key1 1000 2
        (acquire_key_lock contract key1 1000 1 no_locks).1).1 in
    ((acquire_key_lock contract key1 1001 0 (release_key_locks 1000 1 held)).0 ≡ refused)
    × ((acquire_key_lock contract key1 1001 0
          (release_key_locks 1000 2 (release_key_locks 1000 1 held))).0
        ≡ granted)
unfolding acquire_key_lock release_key_locks Vertex-discrete
released_late = (refl, refl)

others_keys : get_key_locks_not_holding_by_context contract 1001 two_held ≡ key1 ∷ []
unfolding two_held acquire_key_lock get_key_locks_not_holding_by_context Vertex-discrete
others_keys = refl

acquire_key_lock-Acquired_example :
    let (answer, l) = acquire_key_lock contract key2 1000 2 two_held in
    Acquired contract key2 1000 two_held.edges answer l
acquire_key_lock-Acquired_example =
    acquire_key_lock-Acquired contract key2 1000 2 two_held two_held-Inv

acquire-granted_iff_example :
    ((acquire_key_lock contract key2 1000 2 two_held).0 ≡ granted)
    ↔ ¬ HeldByOther two_held.edges contract key2 1000
acquire-granted_iff_example = acquire-granted_iff contract key2 1000 2 two_held two_held-Inv

acquire_key_lock-Inv_example : Inv (acquire_key_lock contract key2 1000 2 two_held).1
acquire_key_lock-Inv_example = acquire_key_lock-Inv contract key2 1000 2 two_held two_held-Inv

batch_acquire_key_lock-BatchAcquired_example :
    let (answer, l) = batch_acquire_key_lock contract (key1 ∷ key2 ∷ []) 1000 2 two_held in
    BatchAcquired contract (key1 ∷ key2 ∷ []) 1000 two_held.edges answer l.edges
batch_acquire_key_lock-BatchAcquired_example =
    batch_acquire_key_lock-BatchAcquired contract (key1 ∷ key2 ∷ []) 1000 2 two_held two_held-Inv

abbrev first_edge : Edge
first_edge = record { source = key_lock contract key1; target = context 1000; seq = 1 }

mem-release_example : Memᴰ first_edge (release_key_locks 1000 1 two_held).edges ↔ (
    Memᴰ first_edge two_held.edges × ¬ ((first_edge.seq ≡ 1) × Touches (context 1000) first_edge))
mem-release_example = mem-release 1000 1 two_held first_edge

release_key_locks-Inv_example : Inv (release_key_locks 1000 1 two_held)
release_key_locks-Inv_example = release_key_locks-Inv 1000 1 two_held two_held-Inv

mine :
    (e : Edge)
    → Memᴰ e two_held.edges
    → e.source ≡ key_lock contract key1
    → (e.seq ≡ 1) × (e.target ≡ context 1000)
unfolding two_held acquire_key_lock Vertex-discrete
mine e m p =
    ⊎_elim (λ x. ground (arith, x)) (λ r. let x = Memᴰ.eq_of_singleton r in ground (arith, x))
      (Memᴰ.cases_cons m)

acquire-release_example :
    (acquire_key_lock contract key1 1001 5 (release_key_locks 1000 1 two_held)).0 ≡ granted
acquire-release_example = acquire-release contract key1 1000 1 1001 5 two_held two_held-Inv mine

get_key_locks_lem_example :
    let keys = get_key_locks_not_holding_by_context contract 1001 two_held in
    IsSorted keys × ((key : Text) → Memᴰ key keys ↔ HeldByOther two_held.edges contract key 1001)
get_key_locks_lem_example = get_key_locks_lem contract 1001 two_held

-- Each of the two contexts waits for the lock of the other.
dead_locked : GraphKeyLocks
dead_locked =
    (acquire_key_lock contract key1 1001 2 (acquire_key_lock contract key2 1000 2 two_held).1).1

mem-map :
    (v : Vertex) (es : List Edge)
    → Memᴰ v (map (λ e. e.target) es) ↔ ((e : Edge) × Memᴰ e es × (e.target ≡ v))
mem-map v [] = (λ m. absurd (Memᴰ.not-nil m), λ (e, m, p). absurd (Memᴰ.not-nil m))
mem-map v (e ∷ es) = (
  λ m.
      ⊎_elim (λ p. (e, Memᴰ.head refl, sym p))
        (λ r. let (f, n, q) = (mem-map v es).0 r in (f, Memᴰ.tail n, q)) (Memᴰ.cases_cons m),
  λ (f, m, q).
      ⊎_elim (λ p. Memᴰ.head (sym q ∙ ap (λ (g : Edge). g.target) p))
        (λ r. Memᴰ.tail ((mem-map v es).1 (f, r, q))) (Memᴰ.cases_cons m),
)

enumerate :
    (es : List Edge) (u v : Vertex) → Memᴰ v (map (λ e. e.target) (out_edges u es)) ↔ Arrow es u v
enumerate es u v = (
  λ m.
      let (e, n, q) = (mem-map v (out_edges u es)).0 m in
      let (n', p) = (Memᴰ-filter _ e es).0 n in (e, n', p, q),
  λ (e, m, p, q). (mem-map v (out_edges u es)).1 (e, (Memᴰ-filter _ e es).1 (m, p), q),
)

not_in :
    (v : Vertex) (vs : List Vertex) → decide (dec_memᴰ Vertex-discrete v vs) ≡ false → ¬ Memᴰ v vs
not_in v vs h = decide-false (dec_memᴰ Vertex-discrete v vs) h

-- The visit that the documentation prescribes: down the only path, to the edge back to its start.
dead_locked-Visit :
    (t : Colours) × Visit back_edge terminate dead_locked.edges (blank false) (context 1000) t
    × (◌≡◌ {A = Bool} true t.flag)
unfolding dead_locked two_held acquire_key_lock Vertex-discrete
dead_locked-Visit = (
  _,
  through (key_lock contract key2 ∷ []) refl (enumerate dead_locked.edges (context 1000)) (
      tree (not_in _ _ refl, not_in _ _ refl)
        (through (context 1001 ∷ []) refl (enumerate dead_locked.edges (key_lock contract key2)) (
          tree (not_in _ _ refl, not_in _ _ refl)
            (through (key_lock contract key1 ∷ []) refl (enumerate dead_locked.edges (context 1001))
              (tree (not_in _ _ refl, not_in _ _ refl)
                (through (context 1000 ∷ []) refl
                  (enumerate dead_locked.edges (key_lock contract key1))
                  (back (Memᴰ.tail (Memᴰ.tail (Memᴰ.tail (Memᴰ.head refl)))) done))
                done))
            done))
        done),
  refl,
)

-- The answer that a function gives for this graph, where it runs so.
abbrev sees_cycle : DepthFirstVisit
sees_cycle on_back_edge stop es u flag = true

detect_dead_lock_iff_example : (detect_dead_lock sees_cycle 1000 dead_locked ≡ true) ↔ (
    Memᴰ (context 1000) dead_locked.vertexes
    × ((s : Vertex) × Arrow dead_locked.edges s (context 1000))
    × ReachesCycle dead_locked.edges (context 1000))
detect_dead_lock_iff_example = detect_dead_lock_iff sees_cycle 1000 dead_locked dead_locked-Visit

dead_locked_detected : detect_dead_lock sees_cycle 1000 dead_locked ≡ true
unfolding detect_dead_lock dead_locked two_held acquire_key_lock Vertex-discrete
dead_locked_detected = refl
