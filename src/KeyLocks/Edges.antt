-- ===== src/KeyLocks/Edges.antt =====
-- What the edge operations do to the relation "there is an edge from `s` to `t`".
use bcos_dispatcher.Base.{
  ℕ, ◌≡◌, refl, sym, ap, ◌∙◌, ◌↔◌, ◌⊎◌, inl, inr, ⊎_elim, true, List, [], ◌∷◌, ℕ_discrete, Memᴰ,
  Memᴰ-concat, Memᴰ-filter, Bool-cases, dec_not,
}
use bcos_dispatcher.KeyLocks.{
  Vertex, Edge, GraphKeyLocks, dec_joins, edge_range, has_seq, add_edge, remove_edges,
}

-- Some edge leads from `s` to `t`.
abbrev pub Arrow : List Edge → Vertex → Vertex → Type 0
Arrow es s t = (e : Edge) × Memᴰ e es × (e.source ≡ s) × (e.target ≡ t)

has_seq_mem : (n : ℕ) (es : List Edge) → has_seq n es ≡ true → (e : Edge) × Memᴰ e es
unfolding has_seq ℕ_discrete
has_seq_mem n [] h = cc
has_seq_mem n (e ∷ es) h = (e, Memᴰ.head refl)

pub Arrow-add_edge :
    (s t : Vertex) (n : ℕ) (l : GraphKeyLocks) (a b : Vertex)
    → Arrow (add_edge s t n l).edges a b ↔ (Arrow l.edges a b ⊎ (a ≡ s) × (b ≡ t))
unfolding add_edge
Arrow-add_edge s t n l a b = elim (Bool-cases (has_seq n (edge_range s t l.edges))) [
  | inl old ↦
      let (e, m) = has_seq_mem n (edge_range s t l.edges) old in
      let (m', j) = (Memᴰ-filter (dec_joins s t) e l.edges).0 m in
      rw old (inl, ⊎_elim (λ r. r) (λ (x, y). (e, m', j.0 ∙ sym x, j.1 ∙ sym y)))
  | inr new ↦ rw new (
    λ (e, m, p, q).
        ⊎_elim (λ m'. inl (e, m', p, q))
          (λ x. inr (sym p ∙ ap (λ (f : Edge). f.source) x, sym q ∙ ap (λ (f : Edge). f.target) x))
          ((Memᴰ-concat e _ l.edges).0 m),
    ⊎_elim (λ (e, m, p, q). (e, (Memᴰ-concat e _ l.edges).1 (inl m), p, q))
        (λ (x, y). (
          record { source = s; target = t; seq = n },
          (Memᴰ-concat _ _ l.edges).1 (inr refl),
          sym x,
          sym y,
        )),
  )
]

pub Arrow-remove_edges :
    (s t : Vertex) (l : GraphKeyLocks) (a b : Vertex)
    → Arrow (remove_edges s t l).edges a b ↔ (Arrow l.edges a b × ¬ ((a ≡ s) × (b ≡ t)))
unfolding remove_edges
Arrow-remove_edges s t l a b = (
  λ (e, m, p, q).
      let kept = (Memᴰ-filter (λ e. dec_not (dec_joins s t e)) e l.edges).0 m in
      ((e, kept.0, p, q), λ (x, y). kept.1 (p ∙ x, q ∙ y)),
  λ ((e, m, p, q), n). (
    e,
    (Memᴰ-filter (λ e. dec_not (dec_joins s t e)) e l.edges).1
        (m, λ (x, y). n (sym p ∙ x, sym q ∙ y)),
    p,
    q,
  ),
)
