-- ===== src/KeyLocks/Invariant.antt =====
-- The invariant of the key locks: one holder for each key lock, and no context waits for itself.
use bcos_dispatcher.Base.{ℕ, ◌≡◌, subst, ◌≢◌, ◌⊎◌, ⊎_elim, List, [], ◌∷◌, Memᴰ, arith}
use mathlib.Core.List.Memᴰ
use bcos_dispatcher.Base.Text.{Text}
use bcos_dispatcher.KeyLocks.{
  Vertex, context, key_lock, GraphKeyLocks, Answer, granted, refused, bad_access, no_locks,
  acquire_key_lock, proceed, batch_acquire_key_lock,
}
use bcos_dispatcher.KeyLocks.Edges.{Arrow}
use bcos_dispatcher.KeyLocks.Acquire.{Inv, Acquired, acquire_key_lock-Acquired, vertexes-acquire}

module _ (contract key : Text) (c : ℕ) (l l' : GraphKeyLocks) (h : Inv l) where
  abbrev k : Vertex
  k = key_lock contract key

  abbrev Knows : Type 0
  Knows = (v : Vertex) → (Memᴰ v l.vertexes ⊎ (v ≡ k)) ⊎ (v ≡ context c) → Memᴰ v l'.vertexes

  granted-Inv : Acquired contract key c l.edges granted l' → Knows → Inv l'
  granted-Inv (alone, arrows) known = record {
    bipartite =
        λ s t x. ⊎_elim (λ o. h.bipartite s t o.0) (λ (p, q). rw (p, q) tt) ((arrows s t).0 x);
    exclusive = λ ct ky s t x y. ground (
      arith,
      (arrows (key_lock ct ky) s).0 x,
      (arrows (key_lock ct ky) t).0 y,
      h.exclusive ct ky s t,
      alone s,
      alone t,
    );
    no_self_wait =
        λ s t x y. ground (arith, (arrows s t).0 x, (arrows t s).0 y, h.no_self_wait s t);
    known = λ s t x. ground (arith, (arrows s t).0 x, known s, known t, h.known s t);
  }

  not_held : ((o : ℕ) × Arrow l.edges k (context o) × (o ≢ c)) → ¬ Arrow l.edges k (context c)
  not_held (o, x, other) y = other (cc (h.exclusive contract key (context o) (context c) x y))

  refused-Inv : Acquired contract key c l.edges refused l' → Knows → Inv l'
  refused-Inv (other, arrows) known = record {
    bipartite = λ s t x. ⊎_elim (h.bipartite s t) (λ (p, q). rw (p, q) tt) ((arrows s t).0 x);
    exclusive = λ ct ky s t x y. ground (
      arith,
      (arrows (key_lock ct ky) s).0 x,
      (arrows (key_lock ct ky) t).0 y,
      h.exclusive ct ky s t,
    );
    no_self_wait = λ s t x y.
        let free = not_held other in
        ⊎_elim
          (λ x'.
            ⊎_elim (h.no_self_wait s t x')
              (λ (p, q).
                free (subst (λ v. Arrow l.edges v (context c)) q (subst (Arrow l.edges s) p x')))
              ((arrows t s).0 y))
          (λ (p, q).
            ⊎_elim (λ y'. free (subst (Arrow l.edges k) p (subst (λ v. Arrow l.edges v s) q y')))
              (λ (p', q'). cc) ((arrows t s).0 y))
          ((arrows s t).0 x);
    known = λ s t x. ground (arith, (arrows s t).0 x, known s, known t, h.known s t);
  }

Acquired-Inv :
    (contract key : Text) (c : ℕ) (l l' : GraphKeyLocks) (a : Answer)
    → Inv l
    → Acquired contract key c l.edges a l'
    → ((v : Vertex)
        → (Memᴰ v l.vertexes ⊎ (v ≡ key_lock contract key)) ⊎ (v ≡ context c)
        → Memᴰ v l'.vertexes)
    → Inv l'
Acquired-Inv contract key c l l' granted h r known = granted-Inv contract key c l l' h r known
Acquired-Inv contract key c l l' refused h r known = refused-Inv contract key c l l' h r known
Acquired-Inv contract key c l l' bad_access h r known = absurd r

-- `acquireKeyLock` keeps the invariant, whatever it answers.
pub acquire_key_lock-Inv :
    (contract key : Text) (c n : ℕ) (l : GraphKeyLocks)
    → Inv l
    → Inv (acquire_key_lock contract key c n l).1
acquire_key_lock-Inv contract key c n l h =
    Acquired-Inv contract key c l _ _ h (acquire_key_lock-Acquired contract key c n l h)
      (λ v. (vertexes-acquire contract key c n l v).1)

pub proceed-elim {ℓ} :
    (P : Answer × GraphKeyLocks → Type ℓ) (a : Answer) (rest : Answer × GraphKeyLocks)
    (l : GraphKeyLocks)
    → P rest
    → P (refused, l)
    → P (bad_access, l)
    → P (proceed a rest l)
unfolding proceed
proceed-elim P granted rest l p q r = p
proceed-elim P refused rest l p q r = q
proceed-elim P bad_access rest l p q r = r

-- So does `batchAcquireKeyLock`, also where it throws half way.
pub batch_acquire_key_lock-Inv :
    (contract : Text) (keys : List Text) (c n : ℕ) (l : GraphKeyLocks)
    → Inv l
    → Inv (batch_acquire_key_lock contract keys c n l).1
unfolding batch_acquire_key_lock
batch_acquire_key_lock-Inv contract [] c n l h = h
batch_acquire_key_lock-Inv contract (key ∷ keys) c n l h =
    let kept = acquire_key_lock-Inv contract key c n l h in
    proceed-elim (λ r. Inv r.1) _ _ _ (batch_acquire_key_lock-Inv contract keys c n _ kept) kept
      kept

pub no_locks-Inv : Inv no_locks
no_locks-Inv = record {
  bipartite = λ s t (e, m, p, q). absurd (Memᴰ.not-nil m);
  exclusive = λ ct ky s t (e, m, p, q) y. absurd (Memᴰ.not-nil m);
  no_self_wait = λ s t (e, m, p, q) y. Memᴰ.not-nil m;
  known = λ s t (e, m, p, q). absurd (Memᴰ.not-nil m);
}
