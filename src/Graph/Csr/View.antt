-- ===== src/Graph/Csr/View.antt =====
-- What a graph stands for: the edges of the last compaction that are not removed, then the delta
-- log. `IsWf g base` says that the two storages hold the edge list `base` by rows and by columns,
-- that the indices are those of the nodes, and that every edge joins registered nodes.
use grasp.Prelude.{
  ℕ, ◌<◌, ◌≡◌, refl, Bool, true, false, not, none, some, List, [], ◌∷◌, ◌++◌, map, map-append,
  arith, Memᴰ, length, get_elem?, retain, retain-append, zip-map-map, retain-map, lookup,
}
use grasp.Graph.Storage.{
  StoredEdge, IndexedEdge, CompressedStorage, col_of, neighbors, edge_data_for,
}
use grasp.Graph.Storage.Fill.{in_row}
use grasp.Graph.Csr.{
  CsrGraph, is_removed, resolve, outgoing_by_idx, incoming_by_idx, outgoing, incoming,
}

module _ {F : Type 0} where
  -- The storage holds `base`, by rows or by columns.
  pub record Holds (transpose : Bool) (s : CompressedStorage F) (base : List (IndexedEdge F))
      : Type 0 where
    pub cols : (r : ℕ) → neighbors s r ≡ map (col_of transpose) (in_row transpose r base)
    pub values : (r : ℕ) → edge_data_for s r ≡ map (λ e. e.2) (in_row transpose r base)

  abbrev pub edges : CsrGraph F → List (IndexedEdge F) → List (IndexedEdge F)
  edges g base = retain (λ e. not (is_removed g e.0 e.1)) base ++ g.delta_edges

  -- An index of a registered node.
  abbrev pub IsLive : CsrGraph F → ℕ → Type 0
  IsLive g i = (id : ℕ) × (get_elem? g.idx_to_id i ≡ some id) × (lookup id g.id_to_idx ≡ some i)

  pub record IsWf (g : CsrGraph F) (base : List (IndexedEdge F)) : Type 0 where
    pub nodes : length g.idx_to_id < 4294967296
    pub rows : Holds false g.csr base
    pub columns : Holds true g.csc base
    pub index : (id i : ℕ) → lookup id g.id_to_idx ≡ some i → get_elem? g.idx_to_id i ≡ some id
    pub live : (e : IndexedEdge F) → Memᴰ e (edges g base) → IsLive g e.0 × IsLive g e.1

  pub resolve-append :
      (ids : List ℕ) (xs ys : List (ℕ × StoredEdge F))
      → resolve ids (xs ++ ys) ≡ resolve ids xs ++ resolve ids ys
  unfolding resolve
  resolve-append ids [] ys = refl
  resolve-append ids ((i, d) ∷ xs) ys = ground (arith, resolve-append ids xs ys)

  abbrev pub to_target : IndexedEdge F → ℕ × StoredEdge F
  to_target e = (e.1, e.2)

  abbrev pub to_source : IndexedEdge F → ℕ × StoredEdge F
  to_source e = (e.0, e.2)

  pub kept_row :
      (g : CsrGraph F) (i : ℕ) (base : List (IndexedEdge F))
      → retain (λ e. not (is_removed g i e.1)) (in_row false i base)
        ≡ in_row false i (retain (λ e. not (is_removed g e.0 e.1)) base)
  kept_row g i [] = refl
  kept_row g i (e ∷ base) = ground (arith, kept_row g i base)

  pub kept_column :
      (g : CsrGraph F) (i : ℕ) (base : List (IndexedEdge F))
      → retain (λ e. not (is_removed g e.0 i)) (in_row true i base)
        ≡ in_row true i (retain (λ e. not (is_removed g e.0 e.1)) base)
  kept_column g i [] = refl
  kept_column g i (e ∷ base) = ground (arith, kept_column g i base)

  module _ (g : CsrGraph F) (base : List (IndexedEdge F)) (i : ℕ) where
    -- The neighbours of an index are the edges of its row, or column, in order.
    pub outgoing_by_idx-in_row :
        Holds false g.csr base
        → outgoing_by_idx g i ≡ resolve g.idx_to_id (map to_target (in_row false i (edges g base)))
    unfolding outgoing_by_idx
    outgoing_by_idx-in_row h = simp (
      h.cols, h.values, zip-map-map, retain-map, kept_row, retain-append, map-append,
      resolve-append,
    )

    pub incoming_by_idx-in_row :
        Holds true g.csc base
        → incoming_by_idx g i ≡ resolve g.idx_to_id (map to_source (in_row true i (edges g base)))
    unfolding incoming_by_idx
    incoming_by_idx-in_row h = simp (
      h.cols, h.values, zip-map-map, retain-map, kept_column, retain-append, map-append,
      resolve-append,
    )

  module _ (g : CsrGraph F) (id : ℕ) where
    pub outgoing-some :
        {i : ℕ} → lookup id g.id_to_idx ≡ some i → outgoing g id ≡ outgoing_by_idx g i
    unfolding outgoing
    outgoing-some h = rw (h, outgoing)

    pub outgoing-none : lookup id g.id_to_idx ≡ none → outgoing g id ≡ []
    unfolding outgoing
    outgoing-none h = rw (h, outgoing)

    pub incoming-some :
        {i : ℕ} → lookup id g.id_to_idx ≡ some i → incoming g id ≡ incoming_by_idx g i
    unfolding incoming
    incoming-some h = rw (h, incoming)

    pub incoming-none : lookup id g.id_to_idx ≡ none → incoming g id ≡ []
    unfolding incoming
    incoming-none h = rw (h, incoming)

  pub in_row_view-append :
      (ids : List ℕ) (k : IndexedEdge F → ℕ × StoredEdge F) (t : Bool) (i : ℕ)
      (xs ys : List (IndexedEdge F))
      → resolve ids (map k (in_row t i (xs ++ ys)))
        ≡ resolve ids (map k (in_row t i xs)) ++ resolve ids (map k (in_row t i ys))
  in_row_view-append ids k t i xs ys = simp (retain-append, map-append, resolve-append)
