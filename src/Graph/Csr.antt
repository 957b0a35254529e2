-- ===== src/Graph/Csr.antt =====
-- `CsrGraph` of crates/mentedb-graph/src/csr.rs: nodes with their indices, the two compressed
-- storages, the delta log and the removals that wait for the next `compact`. A `DeltaEdge` is the
-- triple of its fields. Floats are a parameter.
pub mod View
pub mod Nodes
pub mod Edges
pub mod Strengthen
pub mod Removal
pub mod NodeRemoval
pub mod Compact
pub mod Dual
pub mod Reachable
pub mod Refines
use grasp.Prelude.{
  ℕ, zero, suc, ◌+◌, ◌-◌, ◌*◌, ◌/◌, ◌%◌, ◌^◌, ◌≤◌, ◌<◌, min, max, ◌≡◌, refl, sym, ap, ◌∙◌, subst,
  ◌≡⟨◌⟩◌, ◌∎, ◌≢◌, ◌↔◌, ◌⊎◌, inl, inr, Bool, true, false, not, ◌&&◌, ◌||◌, Option, none, some, List,
  [], ◌∷◌, ◌++◌, map, append-nil, append_assoc, map-append, arith, Memᴰ, ltb, leb, ◌==◌,
  if◌then◌else◌, ltb→lt, lt→ltb, ==_iff, ==_refl, Bool-cases, Option-cases, as_u32, add_u32,
  add_u64, length, get_elem?, get_or, set, take, drop, replicate, retain, any, find, length-append,
  length-set, length-replicate, length-retain-le, get_or-set_self, get_or-set_ne, get_or-set,
  retain-append, retain-retain, eq_of_get_or, length-map, get_or-take, length-take, get_or-drop,
  length-drop, zip, zip-map-map, retain-map, retain_congr, retain_all, retain_comm, HashMap, lookup,
  insert, remove, lookup-insert, lookup-remove, is_some, contains, contains-append, All, Memᴰ-cons,
  Memᴰ-append, Memᴰ-retain, contains_iff,
}
use grasp.Core.Float32.{Float32}
use grasp.Core.Edge.{MemoryEdge, MemoryId, Timestamp}
use grasp.Graph.Storage.{
  StoredEdge, IndexedEdge, CompressedStorage, empty, neighbors, edge_data_for, from_memory_edge,
  is_valid_at, build_compressed,
}

pub record CsrGraph (F : Type 0) : Type 0 where
  pub id_to_idx : HashMap ℕ
  pub idx_to_id : List MemoryId
  pub csr : CompressedStorage F
  pub csc : CompressedStorage F
  pub delta_edges : List (IndexedEdge F)
  pub removed_edges : List (ℕ × ℕ)

module _ {F : Type 0} where
  unfoldable pub new : CsrGraph F
  new = record {
    id_to_idx = [];
    idx_to_id = [];
    csr = empty;
    csc = empty;
    delta_edges = [];
    removed_edges = [];
  }

  unfoldable pub contains_node : CsrGraph F → MemoryId → Bool
  contains_node g id = is_some (lookup id g.id_to_idx)

  unfoldable pub get_idx : CsrGraph F → MemoryId → Option ℕ
  get_idx g id = lookup id g.id_to_idx

  abbrev pub get_id : CsrGraph F → ℕ → Option MemoryId
  get_id g idx = get_elem? g.idx_to_id idx

  unfoldable pub node_count : CsrGraph F → ℕ
  node_count g = length g.idx_to_id

  unfoldable pub add_node : CsrGraph F → MemoryId → CsrGraph F × ℕ
  add_node g id = elim (lookup id g.id_to_idx) [
    | some idx ↦ (g, idx)
    | none ↦
        let idx = as_u32 (length g.idx_to_id) in
        (
          record g { id_to_idx = insert id idx g.id_to_idx; idx_to_id = g.idx_to_id ++ id ∷ [] },
          idx,
        )
  ]

  unfoldable pub is_removed : CsrGraph F → ℕ → ℕ → Bool
  is_removed g source target = any (λ p. p.0 == source && p.1 == target) g.removed_edges

  unfoldable pub remove_node : CsrGraph F → MemoryId → CsrGraph F
  remove_node g id = elim (lookup id g.id_to_idx) [
    | none ↦ g
    | some idx ↦ record g {
      removed_edges =
          (g.removed_edges ++ map (λ neighbor. (idx, neighbor)) (neighbors g.csr idx))
          ++ map (λ neighbor. (neighbor, idx)) (neighbors g.csc idx);
      delta_edges = retain (λ e. not (e.0 == idx) && not (e.1 == idx)) g.delta_edges;
      id_to_idx = remove id g.id_to_idx;
    }
  ]

  unfoldable pub add_edge : CsrGraph F → MemoryEdge F → CsrGraph F
  unfolding add_node
  add_edge g e =
      let (g₁, source_idx) = add_node g e.source in
      let (g₂, target_idx) = add_node g₁ e.target in
      record g₂ {
        delta_edges = g₂.delta_edges ++ (source_idx, target_idx, from_memory_edge e) ∷ [];
      }

  unfoldable pub remove_edge : CsrGraph F → MemoryId → MemoryId → CsrGraph F
  remove_edge g source target = elim (lookup source g.id_to_idx) [
    | none ↦ g
    | some src_idx ↦ elim (lookup target g.id_to_idx) [
      | none ↦ g
      | some tgt_idx ↦ record g {
        removed_edges = g.removed_edges ++ (src_idx, tgt_idx) ∷ [];
        delta_edges = retain (λ e. not (e.0 == src_idx && e.1 == tgt_idx)) g.delta_edges;
      }
    ]
  ]

  -- The pairs `(neighbors[i], edges[i])` of one row.
  abbrev pub entries : CompressedStorage F → ℕ → List (ℕ × StoredEdge F)
  entries s row = zip (neighbors s row) (edge_data_for s row)

  -- What is pushed for a list of indexed neighbours: those whose index `idx_to_id` knows.
  unfoldable pub resolve : List MemoryId → List (ℕ × StoredEdge F) → List (MemoryId × StoredEdge F)
  resolve ids [] = []
  resolve ids ((idx, edge) ∷ rest) = elim (get_elem? ids idx) [
    | none ↦ resolve ids rest
    | some id ↦ (id, edge) ∷ resolve ids rest
  ]

  unfoldable pub outgoing_by_idx : CsrGraph F → ℕ → List (MemoryId × StoredEdge F)
  outgoing_by_idx g idx =
      resolve g.idx_to_id (retain (λ p. not (is_removed g idx p.0)) (entries g.csr idx))
      ++ resolve g.idx_to_id (map (λ e. (e.1, e.2)) (retain (λ e. e.0 == idx) g.delta_edges))

  unfoldable pub incoming_by_idx : CsrGraph F → ℕ → List (MemoryId × StoredEdge F)
  incoming_by_idx g idx =
      resolve g.idx_to_id (retain (λ p. not (is_removed g p.0 idx)) (entries g.csc idx))
      ++ resolve g.idx_to_id (map (λ e. (e.0, e.2)) (retain (λ e. e.1 == idx) g.delta_edges))

  unfoldable pub outgoing : CsrGraph F → MemoryId → List (MemoryId × StoredEdge F)
  outgoing g id = elim (lookup id g.id_to_idx) [ none ↦ [] | some idx ↦ outgoing_by_idx g idx ]

  unfoldable pub incoming : CsrGraph F → MemoryId → List (MemoryId × StoredEdge F)
  incoming g id = elim (lookup id g.id_to_idx) [ none ↦ [] | some idx ↦ incoming_by_idx g idx ]

  unfoldable pub outgoing_valid_at :
      CsrGraph F → MemoryId → Timestamp → List (MemoryId × StoredEdge F)
  outgoing_valid_at g id at = retain (λ p. is_valid_at p.1 at) (outgoing g id)

  unfoldable pub incoming_valid_at :
      CsrGraph F → MemoryId → Timestamp → List (MemoryId × StoredEdge F)
  incoming_valid_at g id at = retain (λ p. is_valid_at p.1 at) (incoming g id)

  -- The first loop of `compact`: the edges of rows 0 .. n that are not removed.
  unfoldable pub existing_edges : CsrGraph F → ℕ → List (IndexedEdge F)
  existing_edges g zero = []
  existing_edges g (suc n) =
      let row = as_u32 n in
      existing_edges g n
      ++ map (λ p. (row, p.0, p.1)) (retain (λ p. not (is_removed g row p.0)) (entries g.csr row))

  abbrev pub all_edges : CsrGraph F → List (IndexedEdge F)
  all_edges g = existing_edges g (length g.idx_to_id) ++ g.delta_edges

  module _ (fl : Float32 F) where
    unfoldable pub strengthen_edge : CsrGraph F → MemoryId → MemoryId → F → CsrGraph F
    unfolding outgoing outgoing_by_idx resolve add_node
    strengthen_edge g source target delta = elim (find (λ p. p.0 == target) (outgoing g source)) [
      | none ↦ g
      | some (_, stored) ↦
          let new_weight = fl.min (fl.add stored.weight delta) fl.one in
          let (g₁, source_idx) = add_node g source in
          let (g₂, target_idx) = add_node g₁ target in
          record g₂ {
            delta_edges =
                g₂.delta_edges
                ++ (source_idx, target_idx, record stored { weight = new_weight }) ∷ [];
          }
    ]

    unfoldable pub compact : CsrGraph F → CsrGraph F
    compact g =
        let num_nodes = length g.idx_to_id in
        record g {
          csr = build_compressed fl.zero (all_edges g) num_nodes false;
          csc = build_compressed fl.zero (all_edges g) num_nodes true;
          delta_edges = [];
          removed_edges = [];
        }
