-- ===== src/Graph/Csr/Compact/Same.antt =====
-- `compact` keeps the graph well formed and every node's neighbours.
use grasp.Prelude.{
  ℕ, ◌≤◌, ◌<◌, ◌≡◌, refl, sym, ap, ◌∙◌, inl, inr, Bool, true, false, not, List, [], ◌∷◌, ◌++◌, map,
  append-nil, append_assoc, arith, Memᴰ, ltb, ◌==◌, ltb→lt, lt→ltb, Bool-cases, Option-cases,
  length, retain, retain_all, lt-length_of_get_elem?, lookup, retain_congr_mem,
}
use mathlib.Core.List.Memᴰ
use mathlib.Core.List.Permᴰ
use mathlib.Core.List.{Permᴰ, Perm}
use grasp.Core.Float32.{Float32}
use grasp.Graph.Storage.{StoredEdge, IndexedEdge, row_of, col_of, build_compressed}
use grasp.Graph.Storage.Fill.{in_row}
use grasp.Graph.Storage.Build.{build_compressed-in_row, build_compressed_outside}
use grasp.Graph.Csr.{
  CsrGraph, is_removed, resolve, outgoing_by_idx, incoming_by_idx, outgoing, incoming, all_edges,
  compact,
}
use grasp.Graph.Csr.View.{
  edges, IsWf, Holds, to_target, to_source, outgoing_by_idx-in_row, incoming_by_idx-in_row,
  outgoing-some, outgoing-none, incoming-some, incoming-none, in_row_view-append, resolve-append,
}
use grasp.Graph.Csr.Nodes.{in_row_nil}
use grasp.Graph.Csr.Compact.Rows.{
  rows_upto, existing_edges-rows_upto, in_row-rows_upto, mem-rows_upto, Perm-rows_upto, Perm-retain,
}

module _ {F : Type 0} where
  resolve-cons :
      (ids : List ℕ) (p : ℕ × StoredEdge F) (xs : List (ℕ × StoredEdge F))
      → resolve ids (p ∷ xs) ≡ resolve ids (p ∷ []) ++ resolve ids xs
  resolve-cons ids p xs = resolve-append ids (p ∷ []) xs

  Perm-resolve :
      (ids : List ℕ) {xs ys : List (ℕ × StoredEdge F)}
      → Permᴰ xs ys
      → Permᴰ (resolve ids xs) (resolve ids ys)
  Perm-resolve ids Permᴰ.nil = Permᴰ.refl (resolve ids [])
  Perm-resolve ids (Permᴰ.cons {a} {b} {l₁} {l₂} e h) =
      rw (e, resolve-cons ids b l₁, resolve-cons ids b l₂)
        (Permᴰ.append_left (resolve ids (b ∷ [])) (Perm-resolve ids h))
  Perm-resolve ids (Permᴰ.swap {a' = c} {b' = d} {l} e f) =
      let rc = resolve ids (c ∷ []) in
      let rd = resolve ids (d ∷ []) in
      rw
        (
          e,
          f,
          resolve-cons ids d (c ∷ l),
          resolve-cons ids c l,
          resolve-cons ids c (d ∷ l),
          resolve-cons ids d l,
          ← append_assoc rd rc (resolve ids l),
          ← append_assoc rc rd (resolve ids l),
        )
        (Permᴰ.append_right (resolve ids l) (Permᴰ.append_comm rd rc))
  Perm-resolve ids (Permᴰ.trans h k) = Permᴰ.trans (Perm-resolve ids h) (Perm-resolve ids k)

  module _ (fl : Float32 F) (g : CsrGraph F) (base : List (IndexedEdge F)) (wf : IsWf g base)
      (few : length (all_edges g) < 4294967296) where
    abbrev kept : List (IndexedEdge F)
    kept = retain (λ e. not (is_removed g e.0 e.1)) base

    abbrev n : ℕ
    n = length g.idx_to_id

    all_edges_lem : all_edges g ≡ rows_upto n kept ++ g.delta_edges
    all_edges_lem =
        ap (λ z. z ++ g.delta_edges)
          (existing_edges-rows_upto g base n wf.rows (omega (arith, wf.nodes)))

    mem-all_edges : (e : IndexedEdge F) → Memᴰ e (all_edges g) → Memᴰ e (edges g base)
    mem-all_edges e m = elim (Memᴰ.append_cases (rows_upto n kept) (rw all_edges_lem at m)) [
      | inl old ↦ Memᴰ.append_left g.delta_edges (mem-rows_upto e n kept old)
      | inr new ↦ Memᴰ.append_right kept new
    ]

    in_range : (t : Bool) (e : IndexedEdge F) → Memᴰ e (edges g base) → row_of t e < n
    in_range true e m =
        let (x, known, _) = (wf.live e m).1 in lt-length_of_get_elem? g.idx_to_id e.1 known
    in_range false e m =
        let (x, known, _) = (wf.live e m).0 in lt-length_of_get_elem? g.idx_to_id e.0 known

    built-Holds : (t : Bool) → Holds t (build_compressed fl.zero (all_edges g) n t) (all_edges g)
    built-Holds t = record {
      cols = λ r. elim (Bool-cases (ltb r n)) [
        | inl lt ↦ (build_compressed-in_row fl.zero (all_edges g) n t few r (ltb→lt r n lt)).0
        | inr ge ↦
            (build_compressed_outside fl.zero (all_edges g) n t few r (ground arith)).0
            ∙ sym (ap (map (col_of t)) (empty_row t r (ground arith)))
      ];
      values = λ r. elim (Bool-cases (ltb r n)) [
        | inl lt ↦ (build_compressed-in_row fl.zero (all_edges g) n t few r (ltb→lt r n lt)).1
        | inr ge ↦
            (build_compressed_outside fl.zero (all_edges g) n t few r (ground arith)).1
            ∙ sym (ap (map (λ e. e.2)) (empty_row t r (ground arith)))
      ];
    }
      where
        empty_row : (b : Bool) (r : ℕ) → n ≤ r → in_row b r (all_edges g) ≡ []
        empty_row b r ge =
            in_row_nil b r (all_edges g)
              (λ e m. let lt = in_range b e (mem-all_edges e m) in omega arith)

    abbrev compacted : CsrGraph F
    compacted = compact fl g

    edges-compacted : edges compacted (all_edges g) ≡ all_edges g
    unfolding compact is_removed
    edges-compacted = append-nil _ ∙ retain_all (λ _. true) (all_edges g) (λ e. refl)

    -- `compact` keeps a well-formed graph with fewer than 2 ^ 32 edges well formed: the new storages
    -- hold all its edges, by rows and by columns.
    pub compact-IsWf : IsWf compacted (all_edges g)
    unfolding compact
    compact-IsWf = record {
      nodes = wf.nodes;
      rows = built-Holds false;
      columns = built-Holds true;
      index = wf.index;
      live = λ e m. wf.live e (mem-all_edges e (rw edges-compacted at m));
    }

    compacted_row : (i : ℕ) → i < n → outgoing_by_idx compacted i ≡ outgoing_by_idx g i
    unfolding compact
    compacted_row i lt =
        let below : ltb i n ≡ true = lt→ltb i n lt in
        rw
          (
            outgoing_by_idx-in_row compacted (all_edges g) i compact-IsWf.rows,
            outgoing_by_idx-in_row g base i wf.rows,
            edges-compacted,
            all_edges_lem,
            in_row_view-append g.idx_to_id to_target false i (rows_upto n kept) g.delta_edges,
            in_row_view-append g.idx_to_id to_target false i kept g.delta_edges,
            in_row-rows_upto i n kept,
            below,
          )
          refl

    -- The live edges in another order.
    all_edges-Perm : Permᴰ (all_edges g) (edges g base)
    all_edges-Perm =
        let all : retain (λ e. ltb e.0 n) kept ≡ kept =
          retain_congr_mem (λ e. ltb e.0 n) (λ _. true) kept
            (λ e m. lt→ltb e.0 n (in_range false e (Memᴰ.append_left g.delta_edges m)))
          ∙ retain_all (λ _. true) kept (λ e. refl) in
        rw all_edges_lem (Permᴰ.append_right g.delta_edges (rw all at (Perm-rows_upto n kept)))

    compacted_column : (i : ℕ) → Permᴰ (incoming_by_idx compacted i) (incoming_by_idx g i)
    unfolding compact
    compacted_column i =
        rw
          (
            incoming_by_idx-in_row compacted (all_edges g) i compact-IsWf.columns,
            incoming_by_idx-in_row g base i wf.columns,
            edges-compacted,
          )
          (Perm-resolve g.idx_to_id
            (Permᴰ.map to_source (Perm-retain (λ e. row_of true e == i) all_edges-Perm)))

    -- On a well-formed graph with fewer than 2 ^ 32 edges, `compact` changes nothing about a
    -- node's outgoing edges: the same edges, in the same order, with the same data.
    pub outgoing-compact : (id : ℕ) → outgoing (compact fl g) id ≡ outgoing g id
    unfolding compact
    outgoing-compact id = elim (Option-cases (lookup id g.id_to_idx)) [
      | inl absent ↦ outgoing-none compacted id absent ∙ sym (outgoing-none g id absent)
      | inr (i, found) ↦
          outgoing-some compacted id found
          ∙ (compacted_row i (lt-length_of_get_elem? g.idx_to_id i (wf.index id i found))
              ∙ sym (outgoing-some g id found))
    ]

    -- On a well-formed graph with fewer than 2 ^ 32 edges, `compact` keeps a node's incoming edges,
    -- each as often as before, and may reorder them.
    pub incoming-compact : (id : ℕ) → Perm (incoming (compact fl g) id) (incoming g id)
    unfolding compact
    incoming-compact id = elim (Option-cases (lookup id g.id_to_idx)) [
      | inl absent ↦
          ∣ rw (incoming-none compacted id absent, incoming-none g id absent) Permᴰ.nil ∣₁
      | inr (i, found) ↦
          ∣ rw (incoming-some compacted id found, incoming-some g id found) (compacted_column i) ∣₁
    ]
