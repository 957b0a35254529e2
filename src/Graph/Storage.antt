-- ===== src/Graph/Storage.antt =====
-- `StoredEdge`, `CompressedStorage` and `build_compressed` of crates/mentedb-graph/src/csr.rs.
-- Indices, counts and offsets are u32 and wrap around.
pub mod Fill
pub mod Offsets
pub mod Build
use grasp.Prelude.{
  ℕ, zero, suc, ◌+◌, ◌-◌, ◌*◌, ◌/◌, ◌%◌, ◌^◌, ◌≤◌, ◌<◌, min, max, ◌≡◌, refl, sym, ap, ◌∙◌, subst,
  ◌≡⟨◌⟩◌, ◌∎, ◌≢◌, ◌↔◌, ◌⊎◌, inl, inr, Bool, true, false, not, ◌&&◌, ◌||◌, Option, none, some, List,
  [], ◌∷◌, ◌++◌, map, append-nil, append_assoc, map-append, arith, Memᴰ, ltb, leb, ◌==◌,
  if◌then◌else◌, ltb→lt, lt→ltb, ==_iff, ==_refl, Bool-cases, Option-cases, as_u32, add_u32,
  add_u64, length, get_elem?, get_or, set, take, drop, replicate, retain, any, find, length-append,
  length-set, length-replicate, length-retain-le, get_or-set_self, get_or-set_ne, retain-append,
  retain-retain, eq_of_get_or, length-map, HashMap, lookup, insert, remove, lookup-insert,
  lookup-remove, is_some, contains, contains-append, All, Memᴰ-cons, Memᴰ-append, Memᴰ-retain,
  contains_iff, ltb, leb, ◌==◌, if◌then◌else◌, ltb→lt, lt→ltb, ==_iff, ==_refl, Bool-cases,
  Option-cases, as_u32, add_u32, add_u64, length, get_elem?, get_or, set, take, drop, replicate,
  retain, any, find, length-append, length-set, length-replicate, length-retain-le, get_or-set_self,
  get_or-set_ne, retain-append, retain-retain, eq_of_get_or, length-map, HashMap, lookup, insert,
  remove, lookup-insert, lookup-remove, is_some, contains, contains-append, All, Memᴰ-cons,
  Memᴰ-append, Memᴰ-retain, contains_iff,
}
use grasp.Core.Edge.{EdgeType, MemoryEdge, Timestamp, Text, within_bounds}

pub record StoredEdge (F : Type 0) : Type 0 where
  pub edge_type : EdgeType
  pub weight : F
  pub created_at : Timestamp
  pub valid_from : Option Timestamp
  pub valid_until : Option Timestamp
  pub label : Option Text

-- An edge of the list `all_edges`: source index, target index, data.
abbrev pub IndexedEdge : Type 0 → Type 0
IndexedEdge F = ℕ × ℕ × StoredEdge F

pub record CompressedStorage (F : Type 0) : Type 0 where
  pub row_offsets : List ℕ
  pub col_indices : List ℕ
  pub edge_data : List (StoredEdge F)

-- `&v[start..end]`; `Build` shows that no slice of a built storage is out of bounds.
abbrev pub slice {ℓ} : {A : Type ℓ} → List A → ℕ → ℕ → List A
slice v start end = take (end - start) (drop start v)

-- The prefix sum: `row_offsets[i + 1] = row_offsets[i] + counts[i]`, for i = 0, 1, …
unfoldable pub prefix_sums : ℕ → List ℕ → List ℕ
prefix_sums offset [] = offset ∷ []
prefix_sums offset (c ∷ counts) = offset ∷ prefix_sums (add_u32 offset c) counts

-- The two arrays and the write cursors of the last loop.
pub record Filling (F : Type 0) : Type 0 where
  pub col_indices : List ℕ
  pub edge_data : List (StoredEdge F)
  pub cursors : List ℕ

module _ {F : Type 0} where
  unfoldable pub from_memory_edge : MemoryEdge F → StoredEdge F
  from_memory_edge e = record {
    edge_type = e.edge_type;
    weight = e.weight;
    created_at = e.created_at;
    valid_from = e.valid_from;
    valid_until = e.valid_until;
    label = e.label;
  }

  unfoldable pub is_valid_at : StoredEdge F → Timestamp → Bool
  is_valid_at e at = within_bounds e.valid_from e.valid_until at

  unfoldable pub is_invalidated : StoredEdge F → Bool
  is_invalidated e = is_some e.valid_until

  unfoldable pub empty : CompressedStorage F
  empty = record { row_offsets = []; col_indices = []; edge_data = [] }

  -- `neighbors` and `edge_data_for` share the test and the two offsets.
  abbrev row_slice {ℓ} : {A : Type ℓ} → CompressedStorage F → List A → ℕ → List A
  row_slice s v row =
      if leb (length s.row_offsets) (row + 1)
      then []
      else slice v (get_or s.row_offsets row 0) (get_or s.row_offsets (row + 1) 0)

  unfoldable pub neighbors : CompressedStorage F → ℕ → List ℕ
  neighbors s row = row_slice s s.col_indices row

  unfoldable pub edge_data_for : CompressedStorage F → ℕ → List (StoredEdge F)
  edge_data_for s row = row_slice s s.edge_data row

  -- The row and the column of an edge in `build_compressed`.
  abbrev pub row_of : Bool → IndexedEdge F → ℕ
  row_of transpose e = if transpose then e.1 else e.0

  abbrev pub col_of : Bool → IndexedEdge F → ℕ
  col_of transpose e = if transpose then e.0 else e.1

  -- The first loop: `counts[row] += 1`.
  unfoldable pub count_rows : ℕ → Bool → List ℕ → List (IndexedEdge F) → List ℕ
  count_rows num_nodes transpose counts [] = counts
  count_rows num_nodes transpose counts (e ∷ edges) =
      let row = row_of transpose e in
      count_rows num_nodes transpose
        (if ltb row num_nodes then set counts row (add_u32 (get_or counts row 0) 1) else counts)
        edges

  -- The body of the last loop.
  unfoldable pub write_edge : ℕ → Bool → Filling F → IndexedEdge F → Filling F
  write_edge num_nodes transpose s e =
      let row = row_of transpose e in
      let at = get_or s.cursors row 0 in
      if ltb row num_nodes
      then record {
        col_indices = set s.col_indices at (col_of transpose e);
        edge_data = set s.edge_data at e.2;
        cursors = set s.cursors row (add_u32 at 1);
      }
      else s

  unfoldable pub fill : ℕ → Bool → Filling F → List (IndexedEdge F) → Filling F
  fill num_nodes transpose s [] = s
  fill num_nodes transpose s (e ∷ edges) =
      fill num_nodes transpose (write_edge num_nodes transpose s e) edges

  -- The placeholder of `vec![StoredEdge { … }; total]`.
  abbrev pub blank_edge : F → StoredEdge F
  blank_edge zero_weight = record {
    edge_type = EdgeType.related;
    weight = zero_weight;
    created_at = 0;
    valid_from = none;
    valid_until = none;
    label = none;
  }

  unfoldable pub build_compressed : F → List (IndexedEdge F) → ℕ → Bool → CompressedStorage F
  build_compressed zero_weight edges num_nodes transpose =
      let counts = count_rows num_nodes transpose (replicate num_nodes 0) edges in
      let row_offsets = prefix_sums 0 counts in
      let total = get_or row_offsets num_nodes 0 in
      let filled =
        fill num_nodes transpose
          (record {
            col_indices = replicate total 0;
            edge_data = replicate total (blank_edge zero_weight);
            cursors = take num_nodes row_offsets;
          })
          edges in
      record {
        row_offsets = row_offsets;
        col_indices = filled.col_indices;
        edge_data = filled.edge_data;
      }
