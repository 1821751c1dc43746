-- ===== src/KeyLocks/Batch.antt =====
-- What `batchAcquireKeyLock` acquires, and when it throws.
use mathlib.Core.List.Memᴰ
use bcos_dispatcher.Base.{ℕ, refl, inl, inr, ⊎_elim, List, [], ◌∷◌, Memᴰ}
use bcos_dispatcher.Base.Text.{Text}
use bcos_dispatcher.KeyLocks.{
  Vertex, context, key_lock, Edge, GraphKeyLocks, Answer, granted, refused, bad_access, proceed,
  acquire_key_lock, batch_acquire_key_lock,
}
use bcos_dispatcher.KeyLocks.Edges.{Arrow}
use bcos_dispatcher.KeyLocks.Acquire.{Inv, Acquired, HeldByOther, acquire_key_lock-Acquired}
use bcos_dispatcher.KeyLocks.Invariant.{proceed-elim, acquire_key_lock-Inv}

module _ (contract key : Text) (c : ℕ) (l l' : GraphKeyLocks) where
  -- An acquisition takes no lock from anybody.
  Acquired-keeps :
      (a : Answer)
      → Acquired contract key c l.edges a l'
      → (contract' key' : Text) (v : Vertex) → Arrow l.edges (key_lock contract' key') v
      → Arrow l'.edges (key_lock contract' key') v
  Acquired-keeps granted (_, arrows) ct ky v x =
      (arrows (key_lock ct ky) v).1 (inl (x, λ (p, q). cc))
  Acquired-keeps refused (_, arrows) ct ky v x = (arrows (key_lock ct ky) v).1 (inl x)
  Acquired-keeps bad_access r ct ky v x = absurd r

  -- It gives locks to `c` alone.
  Acquired-other :
      (a : Answer)
      → Acquired contract key c l.edges a l'
      → (key' : Text) → HeldByOther l'.edges contract key' c
      → HeldByOther l.edges contract key' c
  Acquired-other granted (_, arrows) ky (o, x, n) =
      ⊎_elim (λ (y, _). (o, y, n)) (λ (p, q). absurd (n (cc))) ((arrows _ _).0 x)
  Acquired-other refused (_, arrows) ky (o, x, n) =
      ⊎_elim (λ y. (o, y, n)) (λ (p, q). absurd (n (cc))) ((arrows _ _).0 x)
  Acquired-other bad_access r ky h = absurd r

pub acquire-keeps :
    (contract key : Text) (c n : ℕ) (l : GraphKeyLocks)
    → Inv l
    → (contract' key' : Text) (v : Vertex) → Arrow l.edges (key_lock contract' key') v
    → Arrow (acquire_key_lock contract key c n l).1.edges (key_lock contract' key') v
acquire-keeps contract key c n l h =
    Acquired-keeps contract key c l _ _ (acquire_key_lock-Acquired contract key c n l h)

pub batch-keeps :
    (contract : Text) (keys : List Text) (c n : ℕ) (l : GraphKeyLocks)
    → Inv l
    → (contract' key' : Text) (v : Vertex) → Arrow l.edges (key_lock contract' key') v
    → Arrow (batch_acquire_key_lock contract keys c n l).1.edges (key_lock contract' key') v
unfolding batch_acquire_key_lock
batch-keeps contract [] c n l h ct ky v x = x
batch-keeps contract (key ∷ keys) c n l h ct ky v x =
    let first = acquire-keeps contract key c n l h ct ky v x in
    proceed-elim (λ r. Arrow r.1.edges (key_lock ct ky) v) _ _ _
      (batch-keeps contract keys c n _ (acquire_key_lock-Inv contract key c n l h) ct ky v first)
      first first

-- What a batch answers, with the edges before it and after it.
abbrev pub BatchAcquired : Text → List Text → ℕ → List Edge → Answer → List Edge → Type 0
BatchAcquired contract keys c es granted es' =
    (key : Text)
    → Memᴰ key keys
    → Arrow es' (key_lock contract key) (context c) × ¬ HeldByOther es contract key c
BatchAcquired contract keys c es refused es' =
    (key : Text) × Memᴰ key keys × HeldByOther es contract key c
BatchAcquired contract keys c es bad_access es' = ⊥

-- One round of the loop, from what the acquisition and the later rounds answer.
proceed-BatchAcquired :
    (contract key : Text) (keys : List Text) (c : ℕ) (l l' l'' : GraphKeyLocks) (a b : Answer)
    → Acquired contract key c l.edges a l'
    → BatchAcquired contract keys c l'.edges b l''.edges
    → (Arrow l'.edges (key_lock contract key) (context c)
        → Arrow l''.edges (key_lock contract key) (context c))
    → let (answer, end) = proceed a (b, l'') l' in
      BatchAcquired contract (key ∷ keys) c l.edges answer end.edges
unfolding proceed
proceed-BatchAcquired contract key keys c l l' l'' granted granted (alone, arrows) rest stays =
    λ ky m. ⊎_elim (λ e. rw e first) (later ky) (Memᴰ.cases_cons m)
  where
    first :
        Arrow l''.edges (key_lock contract key) (context c) × ¬ HeldByOther l.edges contract key c
    first = (stays ((arrows _ _).1 (inr (refl, refl))), λ (o, x, n). n (cc (alone (context o) x)))

    later :
        (ky : Text)
        → Memᴰ ky keys
        → Arrow l''.edges (key_lock contract ky) (context c) × ¬ HeldByOther l.edges contract ky c
    later ky m =
        let (held, free) = rest ky m in
        (
          held,
          λ (o, x, n).
              free
                (o, Acquired-keeps contract key c l l' granted (alone, arrows) contract ky _ x, n),
        )
proceed-BatchAcquired contract key keys c l l' l'' granted refused r (ky, m, held) stays =
    (ky, Memᴰ.tail m, Acquired-other contract key c l l' granted r ky held)
proceed-BatchAcquired contract key keys c l l' l'' granted bad_access r rest stays = rest
proceed-BatchAcquired contract key keys c l l' l'' refused b ((o, x, n), _) rest stays =
    (key, Memᴰ.head refl, (o, x, n))
proceed-BatchAcquired contract key keys c l l' l'' bad_access b r rest stays = r

-- `batchAcquireKeyLock` returns if no other context holds one of the keys, and the context then
-- holds them all; else it throws `UnexpectedKeyLockError`. No vertex is read as what it is not.
pub batch_acquire_key_lock-BatchAcquired :
    (contract : Text) (keys : List Text) (c n : ℕ) (l : GraphKeyLocks)
    → Inv l
    → let (answer, l') = batch_acquire_key_lock contract keys c n l in
      BatchAcquired contract keys c l.edges answer l'.edges
unfolding batch_acquire_key_lock
batch_acquire_key_lock-BatchAcquired contract [] c n l h = λ key m. absurd (Memᴰ.not-nil m)
batch_acquire_key_lock-BatchAcquired contract (key ∷ keys) c n l h =
    let l' = (acquire_key_lock contract key c n l).1 in
    let kept = acquire_key_lock-Inv contract key c n l h in
    proceed-BatchAcquired contract key keys c l l' (batch_acquire_key_lock contract keys c n l').1 _
      _ (acquire_key_lock-Acquired contract key c n l h)
      (batch_acquire_key_lock-BatchAcquired contract keys c n l' kept)
      (batch-keeps contract keys c n l' kept contract key (context c))
