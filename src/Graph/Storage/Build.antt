-- ===== src/Graph/Storage/Build.antt =====
-- `build_compressed` is a counting sort: each row of the storage lists exactly the edges of that
-- row, in the order of the given list, and no slice or write is out of bounds.
use grasp.Prelude.{
  ℕ, suc, ◌+◌, ◌≤◌, ◌<◌, ◌≡◌, sym, ap, ◌∙◌, Bool, true, false, List, [], map, arith, leb, length,
  get_or, replicate, length-replicate,
}
use grasp.Graph.Storage.{
  IndexedEdge, col_of, prefix_sums, Filling, build_compressed, blank_edge, neighbors, edge_data_for,
}
use grasp.Graph.Storage.Fill.{in_row, length-place}
use grasp.Graph.Storage.Offsets.{
  length-prefix_sums, fill-place, counts, offset, size, offset_mono, offset_last, cursors,
  row-slice,
}

module _ {F : Type 0} (zero_weight : F) (es : List (IndexedEdge F)) (n : ℕ) (t : Bool)
    (small : length es < 4294967296) where
  -- With fewer than 2 ^ 32 edges, a row below `num_nodes` of the built storage lists the columns
  -- and the data of exactly the edges of that row, in the order of the edge list.
  pub build_compressed-in_row :
      (r : ℕ)
      → r < n
      → (neighbors (build_compressed zero_weight es n t) r ≡ map (col_of t) (in_row t r es))
        × (edge_data_for (build_compressed zero_weight es n t) r ≡ map (λ e. e.2) (in_row t r es))
  unfolding build_compressed neighbors edge_data_for
  build_compressed-in_row r lt =
      let s : Filling F = record {
        col_indices = replicate (offset es n t small n) 0;
        edge_data = replicate (offset es n t small n) (blank_edge zero_weight);
        cursors = cursors es n t small;
      } in
      let inside : leb (length (prefix_sums 0 (counts es n t small))) (suc r) ≡ false =
        ground (arith, size es n t small, length-prefix_sums 0 (counts es n t small)) in
      let (cols, data') = fill-place n t s es in
      let last = offset_last es n t small in
      let next : r + 1 ≡ suc r = omega arith in
      (
        rw (next, inside, cols, last) (row-slice es n t small (col_of t) 0 r lt),
        rw (next, inside, data', last)
            (row-slice es n t small (λ e. e.2) (blank_edge zero_weight) r lt),
      )

  -- A row that is out of range is empty.
  pub build_compressed_outside :
      (r : ℕ)
      → n ≤ r
      → (neighbors (build_compressed zero_weight es n t) r ≡ [])
        × (edge_data_for (build_compressed zero_weight es n t) r ≡ [])
  unfolding build_compressed neighbors edge_data_for
  build_compressed_outside r ge =
      let out : leb (length (prefix_sums 0 (counts es n t small))) (r + 1) ≡ true =
        ground (arith, size es n t small, length-prefix_sums 0 (counts es n t small)) in
      (rw out, rw out)

  -- With fewer than 2 ^ 32 edges, the offsets of a row below `num_nodes` are in order and within
  -- both arrays, which have the same length: no slice of `neighbors` and `edge_data_for` panics.
  pub build_compressed_bounds :
      (r : ℕ)
      → r < n
      → (get_or (build_compressed zero_weight es n t).row_offsets r 0
          ≤ get_or (build_compressed zero_weight es n t).row_offsets (r + 1) 0)
        × (get_or (build_compressed zero_weight es n t).row_offsets (r + 1) 0
            ≤ length (build_compressed zero_weight es n t).col_indices)
        × (length (build_compressed zero_weight es n t).edge_data
            ≡ length (build_compressed zero_weight es n t).col_indices)
  unfolding build_compressed
  build_compressed_bounds r lt =
      let s : Filling F = record {
        col_indices = replicate (offset es n t small n) 0;
        edge_data = replicate (offset es n t small n) (blank_edge zero_weight);
        cursors = cursors es n t small;
      } in
      let (cols, data') = fill-place n t s es in
      let next : r + 1 ≡ suc r = omega arith in
      let cols_length =
        ap length cols
        ∙ (length-place n t (col_of t) s.col_indices s.cursors es
            ∙ length-replicate (offset es n t small n) 0) in
      let data_length =
        ap length data'
        ∙ (length-place n t (λ e. e.2) s.edge_data s.cursors es
            ∙ length-replicate (offset es n t small n) (blank_edge zero_weight)) in
      rw next (
        offset_mono es n t small r (suc r) (omega arith) lt,
        rw cols_length (offset_mono es n t small (suc r) n lt (omega arith)),
        data_length ∙ sym cols_length,
      )
