-- ===== src/Graph/Tests.antt =====
-- Small graphs, and the theorems about graphs at them. Floats are natural numbers here.
use grasp.Prelude.{
  ◌+◌, ◌*◌, ◌/◌, ◌≤◌, ◌<◌, min, max, ◌≡◌, refl, ◌↔◌, true, none, some, List, [], ◌∷◌, map, arith,
  Memᴰ, leb, ltb, ◌-◌, ◌^◌, ◌==◌, length, get_or, find,
}
use Prim.Native.Nat.{ℕ}
use grasp.Core.Float32.{Float32}
use grasp.Core.Edge.{EdgeType, caused, supports, MemoryEdge}
use grasp.Graph.Storage.{
  StoredEdge, IndexedEdge, col_of, neighbors, edge_data_for, from_memory_edge, build_compressed,
  prefix_sums, count_rows, fill, write_edge, empty,
}
use grasp.Graph.Storage.Build.{build_compressed-in_row, build_compressed_bounds}
use grasp.Graph.Storage.Fill.{in_row}
use grasp.Graph.Csr.{
  CsrGraph, new, contains_node, add_node, remove_node, add_edge, remove_edge, outgoing, incoming,
  all_edges, existing_edges, is_removed, strengthen_edge, compact, outgoing_by_idx, resolve,
  get_idx,
}
use grasp.Graph.Csr.View.{IsWf}
use grasp.Graph.Csr.Nodes.{new-IsWf}
use grasp.Graph.Csr.Edges.{Appends, add_edge-Appends}
use grasp.Graph.Csr.Removal.{Cuts, remove_edge-Cuts}
use grasp.Graph.Csr.NodeRemoval.{Drops, remove_node-Drops}
use grasp.Graph.Csr.Strengthen.{strengthen_edge-find}
use grasp.Graph.Csr.Compact.Same.{compact-IsWf, outgoing-compact}
use grasp.Graph.Csr.Dual.{outgoing-incoming}
use grasp.Graph.Csr.Reachable.{reachable-IsWf, start, edge, without_node, compacted}
use grasp.Graph.Traversal.{bfs, extract_subgraph, targets}
use grasp.Graph.Traversal.Correct.{Shortest}
use grasp.Graph.Traversal.Reach.{bfs-Shortest, extract_subgraph-Inside, Inside}

abbrev pub floats : Float32 ℕ
floats = record {
  zero = 0;
  one = 10;
  add = λ a b. a + b;
  min = min;
  max = max;
  le = leb;
  lt = ltb;
  as_usize = λ a. a / 10;
  sub = λ a b. a - b;
  decimal = λ n k. n * 10 / 10 ^ k;
  mul = λ a b. a * b;
  div = λ a b. a / b;
  of_nat = λ n. n;
}

abbrev pub memory_edge : ℕ → ℕ → EdgeType → ℕ → MemoryEdge ℕ
memory_edge source target edge_type weight = record {
  source = source;
  target = target;
  edge_type = edge_type;
  weight = weight;
  created_at = 0;
  valid_from = none;
  valid_until = none;
  label = none;
}

abbrev pub two_edges : CsrGraph ℕ
two_edges = add_edge (add_edge new (memory_edge 7 8 caused 4)) (memory_edge 8 9 supports 5)

-- The two edges compacted, then a third in the log.
abbrev pub three_edges : CsrGraph ℕ
three_edges = add_edge (compact floats two_edges) (memory_edge 7 9 caused 6)

abbrev stored : EdgeType → ℕ → StoredEdge ℕ
stored edge_type weight = from_memory_edge (memory_edge 0 0 edge_type weight)

pub outgoing-three_edges : outgoing three_edges 7 ≡ (8, stored caused 4) ∷ (9, stored caused 6) ∷ []
unfolding new add_edge add_node compact build_compressed existing_edges is_removed outgoing
    outgoing_by_idx resolve prefix_sums count_rows fill write_edge neighbors edge_data_for empty
    from_memory_edge
outgoing-three_edges = refl

first_size : length (new {F = ℕ}).idx_to_id + 2 < 4294967296
unfolding new
first_size = omega arith

second_size : length (add_edge new (memory_edge 7 8 caused 4)).idx_to_id + 2 < 4294967296
unfolding new add_edge add_node
second_size = omega arith

two_edges-Appends :
    Appends
      (add_edge new (memory_edge 7 8 caused 4))
      two_edges
      []
      8
      9
      (from_memory_edge (memory_edge 8 9 supports 5))
two_edges-Appends =
    add_edge-Appends (add_edge new (memory_edge 7 8 caused 4)) [] (memory_edge 8 9 supports 5)
      (add_edge-Appends new [] (memory_edge 7 8 caused 4) new-IsWf first_size).wf second_size

few : length (all_edges two_edges) < 4294967296
unfolding new add_edge add_node existing_edges is_removed empty neighbors edge_data_for
few = omega arith

three_size : length (compact floats two_edges).idx_to_id + 2 < 4294967296
unfolding new add_edge add_node compact
three_size = omega arith

compacted-IsWf : IsWf (compact floats two_edges) (all_edges two_edges)
compacted-IsWf = compact-IsWf floats two_edges [] two_edges-Appends.wf few

pub three_edges-IsWf : IsWf three_edges (all_edges two_edges)
three_edges-IsWf =
    (add_edge-Appends (compact floats two_edges) (all_edges two_edges) (memory_edge 7 9 caused 6)
      compacted-IsWf three_size).wf

three_few : length (all_edges three_edges) < 4294967296
unfolding new add_edge add_node compact build_compressed existing_edges is_removed prefix_sums
    count_rows fill write_edge neighbors edge_data_for empty from_memory_edge
three_few = omega arith

outgoing-compact_example : outgoing (compact floats three_edges) 7 ≡ outgoing three_edges 7
outgoing-compact_example =
    outgoing-compact floats three_edges (all_edges two_edges) three_edges-IsWf three_few 7

abbrev two_indexed : List (IndexedEdge ℕ)
two_indexed = (1, 0, stored caused 4) ∷ (0, 1, stored supports 5) ∷ []

build_compressed-in_row_example :
    (neighbors (build_compressed 0 two_indexed 2 true) 1
      ≡ map (col_of true) (in_row true 1 two_indexed))
    × (edge_data_for (build_compressed 0 two_indexed 2 true) 1
        ≡ map (λ e. e.2) (in_row true 1 two_indexed))
build_compressed-in_row_example =
    build_compressed-in_row 0 two_indexed 2 true (omega arith) 1 (omega arith)

build_compressed_bounds_example :
    (get_or (build_compressed 0 two_indexed 2 true).row_offsets 1 0
      ≤ get_or (build_compressed 0 two_indexed 2 true).row_offsets 2 0)
    × (get_or (build_compressed 0 two_indexed 2 true).row_offsets 2 0
        ≤ length (build_compressed 0 two_indexed 2 true).col_indices)
    × (length (build_compressed 0 two_indexed 2 true).edge_data
        ≡ length (build_compressed 0 two_indexed 2 true).col_indices)
build_compressed_bounds_example =
    build_compressed_bounds 0 two_indexed 2 true (omega arith) 1 (omega arith)

pub three_sizes : length three_edges.idx_to_id + 2 < 4294967296
unfolding new add_edge add_node compact
three_sizes = omega arith

add_edge-Appends_example :
    Appends three_edges
      (add_edge three_edges (memory_edge 9 7 supports 1))
      (all_edges two_edges)
      9
      7
      (from_memory_edge (memory_edge 9 7 supports 1))
add_edge-Appends_example =
    add_edge-Appends three_edges (all_edges two_edges) (memory_edge 9 7 supports 1) three_edges-IsWf
      three_sizes

remove_edge-Cuts_example : Cuts three_edges (remove_edge three_edges 7 8) (all_edges two_edges) 7 8
remove_edge-Cuts_example = remove_edge-Cuts three_edges (all_edges two_edges) 7 8 three_edges-IsWf

pub known_8 : contains_node three_edges 8 ≡ true
unfolding new add_edge add_node compact contains_node
known_8 = refl

remove_node-Drops_example : Drops three_edges (remove_node three_edges 8) (all_edges two_edges) 8
remove_node-Drops_example =
    remove_node-Drops three_edges (all_edges two_edges) 8 three_edges-IsWf known_8

outgoing-incoming_example :
    Memᴰ (9, stored supports 5) (outgoing three_edges 8)
    ↔ Memᴰ (8, stored supports 5) (incoming three_edges 9)
outgoing-incoming_example =
    outgoing-incoming three_edges (all_edges two_edges) three_edges-IsWf 8 9 (stored supports 5)

pub known_7 : get_idx three_edges 7 ≡ some 0
unfolding new add_edge add_node compact get_idx
known_7 = refl

pub known_9 : get_idx three_edges 9 ≡ some 2
unfolding new add_edge add_node compact get_idx
known_9 = refl

found_8 : find (λ p. p.0 == 8) (outgoing three_edges 7) ≡ some (8, stored caused 4)
found_8 = rw outgoing-three_edges refl

strengthen_edge-find_example :
    find (λ p. p.0 == 8) (outgoing (strengthen_edge floats three_edges 7 8 3) 7)
    ≡ some (8, stored caused 4)
strengthen_edge-find_example =
    strengthen_edge-find floats three_edges (all_edges two_edges) 7 8 3 three_edges-IsWf three_sizes
      found_8

bfs-Shortest_example :
    (found : List (ℕ × ℕ)) × (bfs three_edges 7 2 ≡ some found)
    × Shortest (λ u. targets (outgoing three_edges u)) 7 2 found
bfs-Shortest_example = bfs-Shortest three_edges 7 2 known_7

extract_subgraph-Inside_example :
    (found : List (ℕ × ℕ)) × (kept : List (MemoryEdge ℕ)) × (extract_subgraph three_edges 7 1
      ≡ some (map (λ p. p.0) found, kept))
    × Shortest (λ u. targets (outgoing three_edges u)) 7 1 found
    × ((e : MemoryEdge ℕ)
        → Memᴰ e kept ↔ Inside three_edges (map (λ p. p.0) found) (map (λ p. p.0) found) e)
extract_subgraph-Inside_example = extract_subgraph-Inside three_edges 7 1 known_7

few_left : length (all_edges (remove_node two_edges 8)) < 4294967296
unfolding new add_edge add_node remove_node existing_edges is_removed empty neighbors edge_data_for
few_left = omega arith

reachable-IsWf_example :
    (base : List (IndexedEdge ℕ)) × IsWf (compact floats (remove_node two_edges 8)) base
reachable-IsWf_example = reachable-IsWf floats (compact floats (remove_node two_edges 8)) (
    compacted
      (without_node
        (edge (edge start (memory_edge 7 8 caused 4) first_size) (memory_edge 8 9 supports 5)
          second_size)
        8)
      few_left)
