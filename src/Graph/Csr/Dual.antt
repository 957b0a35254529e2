-- ===== src/Graph/Csr/Dual.antt =====
-- The outgoing and the incoming side of a graph show the same edges.
use grasp.Prelude.{
  ℕ, ◌≡◌, sym, ap, ◌∙◌, ◌↔◌, inl, inr, true, false, some, List, [], ◌∷◌, map, arith, Memᴰ, ◌==◌,
  ==_iff, ==_refl, Option-cases, get_elem?, lookup, Memᴰ-retain,
}
use mathlib.Core.List.Memᴰ
use grasp.Graph.Storage.{StoredEdge, IndexedEdge, row_of}
use grasp.Graph.Storage.Fill.{in_row}
use grasp.Graph.Csr.{CsrGraph, resolve, outgoing, incoming}
use grasp.Graph.Csr.View.{
  edges, IsWf, to_target, to_source, outgoing_by_idx-in_row, incoming_by_idx-in_row, outgoing-some,
  outgoing-none, incoming-some, incoming-none,
}

module _ {F : Type 0} where
  mem-resolve :
      (ids : List ℕ) (id : ℕ) (d : StoredEdge F) (xs : List (ℕ × StoredEdge F))
      → Memᴰ (id, d) (resolve ids xs)
      → (i : ℕ) × Memᴰ (i, d) xs × (get_elem? ids i ≡ some id)
  unfolding resolve
  mem-resolve ids id d [] m = absurd (Memᴰ.not-nil m)
  mem-resolve ids id d ((i, c) ∷ xs) m = elim (Option-cases (get_elem? ids i)) [
    | inl unknown ↦
        let (j, inside, known) = mem-resolve ids id d xs (rw (unknown, resolve) at m) in
        (j, Memᴰ.tail inside, known)
    | inr (x, known) ↦ elim (Memᴰ.cases_cons (rw (known, resolve) at m)) [
      | inl same ↦
          (i, Memᴰ.head (ap (λ p. (i, p.1)) same), known ∙ ap some (sym (ap (λ p. p.0) same)))
      | inr later ↦ let (j, inside, k) = mem-resolve ids id d xs later in (j, Memᴰ.tail inside, k)
    ]
  ]

  resolve-mem :
      (ids : List ℕ) (id i : ℕ) (d : StoredEdge F) (xs : List (ℕ × StoredEdge F))
      → get_elem? ids i ≡ some id
      → Memᴰ (i, d) xs
      → Memᴰ (id, d) (resolve ids xs)
  unfolding resolve
  resolve-mem ids id i d [] known m = absurd (Memᴰ.not-nil m)
  resolve-mem ids id i d ((j, c) ∷ xs) known m = elim (Memᴰ.cases_cons m) [
    | inl same ↦
        rw ((ap (λ p. get_elem? ids p.0) (sym same)) ∙ known, resolve)
          (Memᴰ.head (ap (λ p. (id, p.1)) same))
    | inr later ↦
        let rest = resolve-mem ids id i d xs known later in
        elim (Option-cases (get_elem? ids j)) [
          | inl unknown ↦ rw (unknown, resolve) rest
          | inr (x, found) ↦ rw (found, resolve) (Memᴰ.tail rest)
        ]
  ]

  row_mem :
      (i j : ℕ) (d : StoredEdge F) (es : List (IndexedEdge F))
      → Memᴰ (j, d) (map to_target (in_row false i es)) ↔ Memᴰ (i, j, d) es
  row_mem i j d es = (
    λ m.
        let (e, inside, same) = Memᴰ.of_map to_target (in_row false i es) m in
        let (old, at) = (Memᴰ-retain (λ x. row_of false x == i) e es).0 inside in
        let first = (==_iff e.0 i).0 at in
        let second = ap (λ p. p.0) same in
        let third = ap (λ p. p.1) same in
        Memᴰ.cast (λ k. (sym first k, sym second k, sym third k)) old,
    λ m.
        Memᴰ.map to_target ((Memᴰ-retain (λ x. row_of false x == i) (i, j, d) es).1 (m, ==_refl i)),
  )

  column_mem :
      (i j : ℕ) (d : StoredEdge F) (es : List (IndexedEdge F))
      → Memᴰ (i, d) (map to_source (in_row true j es)) ↔ Memᴰ (i, j, d) es
  column_mem i j d es = (
    λ m.
        let (e, inside, same) = Memᴰ.of_map to_source (in_row true j es) m in
        let (old, at) = (Memᴰ-retain (λ x. row_of true x == j) e es).0 inside in
        let first = ap (λ p. p.0) same in
        let second = (==_iff e.1 j).0 at in
        let third = ap (λ p. p.1) same in
        Memᴰ.cast (λ k. (sym first k, sym second k, sym third k)) old,
    λ m. Memᴰ.map to_source ((Memᴰ-retain (λ x. row_of true x == j) (i, j, d) es).1 (m, ==_refl j)),
  )

  module _ (g : CsrGraph F) (base : List (IndexedEdge F)) (wf : IsWf g base) (s t : ℕ)
      (d : StoredEdge F) where
    -- The graph as a relation on identifiers: a live edge between their indices.
    abbrev pub Joins : Type 0
    Joins =
        (i : ℕ) × (j : ℕ) × (lookup s g.id_to_idx ≡ some i)
        × (lookup t g.id_to_idx ≡ some j)
        × Memᴰ (i, j, d) (edges g base)

    private_index :
        (i j : ℕ)
        → Memᴰ (i, j, d) (edges g base)
        → (get_elem? g.idx_to_id i ≡ some s → lookup s g.id_to_idx ≡ some i)
          × (get_elem? g.idx_to_id j ≡ some t → lookup t g.id_to_idx ≡ some j)
    private_index i j m =
        let ((s', known_s, found_s), (t', known_t, found_t)) = wf.live (i, j, d) m in
        (λ k. ground arith, λ k. ground arith)

    -- A well-formed graph lists an edge among the outgoing edges of its source exactly when it
    -- is a live edge between the two indices.
    pub outgoing-Joins : Memᴰ (t, d) (outgoing g s) ↔ Joins
    outgoing-Joins = (
      λ m. elim (Option-cases (lookup s g.id_to_idx)) [
        | inl absent ↦ absurd (Memᴰ.not-nil (rw (outgoing-none g s absent) at m))
        | inr (i, found) ↦
            let (j, inside, known) =
              mem-resolve g.idx_to_id t d (map to_target (in_row false i (edges g base)))
                (rw (outgoing-some g s found, outgoing_by_idx-in_row g base i wf.rows) at m) in
            let e = (row_mem i j d (edges g base)).0 inside in
            (i, j, found, (private_index i j e).1 known, e)
      ],
      λ (i, j, at_s, at_t, e).
          rw (outgoing-some g s at_s, outgoing_by_idx-in_row g base i wf.rows)
            (resolve-mem g.idx_to_id t j d (map to_target (in_row false i (edges g base)))
              (wf.index t j at_t) ((row_mem i j d (edges g base)).1 e)),
    )

    pub incoming-Joins : Memᴰ (s, d) (incoming g t) ↔ Joins
    incoming-Joins = (
      λ m. elim (Option-cases (lookup t g.id_to_idx)) [
        | inl absent ↦ absurd (Memᴰ.not-nil (rw (incoming-none g t absent) at m))
        | inr (j, found) ↦
            let (i, inside, known) =
              mem-resolve g.idx_to_id s d (map to_source (in_row true j (edges g base)))
                (rw (incoming-some g t found, incoming_by_idx-in_row g base j wf.columns) at m) in
            let e = (column_mem i j d (edges g base)).0 inside in
            (i, j, (private_index i j e).0 known, found, e)
      ],
      λ (i, j, at_s, at_t, e).
          rw (incoming-some g t at_t, incoming_by_idx-in_row g base j wf.columns)
            (resolve-mem g.idx_to_id s i d (map to_source (in_row true j (edges g base)))
              (wf.index s i at_s) ((column_mem i j d (edges g base)).1 e)),
    )

    -- On a well-formed graph an edge with data `d` leads from `s` to `t` in the outgoing edges
    -- of `s` exactly when it does in the incoming edges of `t`.
    pub outgoing-incoming : Memᴰ (t, d) (outgoing g s) ↔ Memᴰ (s, d) (incoming g t)
    outgoing-incoming =
        (λ m. incoming-Joins.1 (outgoing-Joins.0 m), λ m. outgoing-Joins.1 (incoming-Joins.0 m))
