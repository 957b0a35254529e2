-- ===== src/Graph/Traversal.antt =====
-- Breadth-first traversals: crates/mentedb-graph/src/traversal.rs. The `while` loop over the queue
-- takes fuel, and `none` says that it ran out; `Traversal/Fuel` shows that it never does. The set
-- `visited` is the list of its elements.
pub mod Trace
pub mod Discovery
pub mod Correct
pub mod Fuel
pub mod Reach
use grasp.Prelude.{
  ℕ, zero, suc, ◌+◌, true, false, Option, none, some, List, [], ◌∷◌, ◌++◌, map, leb, if◌then◌else◌,
  length, retain, any, contains,
}
use grasp.Core.Edge.{EdgeType, MemoryEdge, MemoryId, same_type}
use grasp.Graph.Storage.{StoredEdge}
use grasp.Graph.Csr.{CsrGraph, get_idx, outgoing}

pub record Search : Type 0 where
  pub visited : List MemoryId
  pub queue : List (MemoryId × ℕ)
  pub result : List (MemoryId × ℕ)

-- The inner loop: `if visited.insert(neighbor) { queue.push_back((neighbor, depth + 1)) }`.
unfoldable pub push_new : ℕ → Search → List MemoryId → Search
push_new depth s [] = s
push_new depth s (neighbor ∷ rest) =
    push_new depth
      (if contains s.visited neighbor then s else record s {
        visited = s.visited ++ neighbor ∷ [];
        queue = s.queue ++ (neighbor, depth + 1) ∷ [];
      })
      rest

-- The outer loop; `next` gives the neighbours that are offered to the inner one.
unfoldable pub search_loop : (MemoryId → List MemoryId) → ℕ → ℕ → Search → Option Search
search_loop next max_depth zero s = elim s.queue [ [] ↦ some s | _ ∷ _ ↦ none ]
search_loop next max_depth (suc fuel) s = elim s.queue [
  | [] ↦ some s
  | (node, depth) ∷ rest ↦
      let popped = record s { queue = rest; result = s.result ++ (node, depth) ∷ [] } in
      elim (leb max_depth depth) [
        | true ↦ search_loop next max_depth fuel popped
        | false ↦ search_loop next max_depth fuel (push_new depth popped (next node))
      ]
]

abbrev pub start_at : MemoryId → Search
start_at start = record { visited = start ∷ []; queue = (start, 0) ∷ []; result = [] }

abbrev pub results : Option Search → Option (List (MemoryId × ℕ))
results none = none
results (some s) = some s.result

module _ {F : Type 0} where
  abbrev pub targets : List (MemoryId × StoredEdge F) → List MemoryId
  targets = map (λ p. p.0)

  -- One more round than there are nodes is enough.
  abbrev pub enough : CsrGraph F → ℕ
  enough g = length g.idx_to_id + 1

  unfoldable pub bfs : CsrGraph F → MemoryId → ℕ → Option (List (MemoryId × ℕ))
  bfs g start max_depth = elim (get_idx g start) [
    | none ↦ some []
    | some _ ↦
        results
          (search_loop (λ node. targets (outgoing g node)) max_depth (enough g) (start_at start))
  ]

  -- The edges of the given types: `filter_set.contains(&edge.edge_type)`.
  abbrev pub of_types :
      List EdgeType → List (MemoryId × StoredEdge F) → List (MemoryId × StoredEdge F)
  of_types edge_filter = retain (λ p. any (same_type p.1.edge_type) edge_filter)

  unfoldable pub bfs_filtered :
      CsrGraph F → MemoryId → ℕ → List EdgeType → Option (List (MemoryId × ℕ))
  bfs_filtered g start max_depth edge_filter = elim (get_idx g start) [
    | none ↦ some []
    | some _ ↦ results (
        search_loop (λ node. targets (of_types edge_filter (outgoing g node))) max_depth (enough g)
          (start_at start))
  ]

  -- The edge that `extract_subgraph` rebuilds.
  abbrev pub to_memory_edge : MemoryId → MemoryId × StoredEdge F → MemoryEdge F
  to_memory_edge node p = record {
    source = node;
    target = p.0;
    edge_type = p.1.edge_type;
    weight = p.1.weight;
    created_at = p.1.created_at;
    valid_from = p.1.valid_from;
    valid_until = p.1.valid_until;
    label = p.1.label;
  }

  -- The edges out of each node of the list whose target is in the set.
  unfoldable pub edges_within : CsrGraph F → List MemoryId → List MemoryId → List (MemoryEdge F)
  edges_within g node_set [] = []
  edges_within g node_set (node ∷ nodes) =
      map (to_memory_edge node) (retain (λ p. contains node_set p.0) (outgoing g node))
      ++ edges_within g node_set nodes

  unfoldable pub extract_subgraph :
      CsrGraph F → MemoryId → ℕ → Option (List MemoryId × List (MemoryEdge F))
  extract_subgraph g center radius = elim (bfs g center radius) [
    | none ↦ none
    | some found ↦ let nodes = map (λ p. p.0) found in some (nodes, edges_within g nodes nodes)
  ]
