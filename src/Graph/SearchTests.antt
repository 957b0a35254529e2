-- ===== src/Graph/SearchTests.antt =====
-- Searches on small graphs, the manager, and the graph as an adjacency list, at concrete inputs.
use grasp.Prelude.{
  ℕ, ◌≤◌, ◌≡◌, refl, not, ◌&&◌, ◌||◌, Option, some, List, [], ◌∷◌, map, arith, ◌==◌, if◌then◌else◌,
  HashMap, lookup, is_some, contains, All,
}
use grasp.Core.Edge.{caused, supports, supersedes}
use grasp.Graph.Csr.{
  CsrGraph, new, add_node, add_edge, outgoing, incoming, get_idx, all_edges, outgoing_by_idx,
  resolve,
}
use grasp.Graph.Csr.Refines.{Call, link, unlink, forget, run, meanings, HasRoom, outgoing-run}
use grasp.Graph.Traversal.{targets, of_types, enough, bfs_filtered}
use grasp.Graph.ShortestPath.{shortest_path}
use grasp.Graph.ShortestPath.Correct.{Answers, shortest_path-Answers}
use grasp.Graph.Dfs.{dfs, dfs_loop, dfs_from, reported, push_unvisited}
use grasp.Graph.Dfs.Correct.{Explored, dfs-Explored}
use grasp.Graph.Contradiction.{find_superseded, find_contradictions}
use grasp.Graph.Contradiction.Superseded.{find_superseded-bfs_filtered}
use grasp.Graph.Contradiction.Found.{
  contradicting, passed_over, passed_over_later, fresh_leads, find_contradictions-Finds,
}
use grasp.Graph.Cycles.{detect_cycles, starts_loop, cycle_loop, visit_edges, close_cycle, position}
use grasp.Graph.Storage.{neighbors, empty, from_memory_edge}
use grasp.Graph.Cycles.Sound.{IsCycle, detect_cycles-IsCycle}
use grasp.Graph.Belief.{default_config, propagate_update_with_config}
use grasp.Graph.Belief.Affected.{spreading, propagate_update_with_config-bfs_filtered}
use grasp.Graph.Manager.{GraphManager, add_relationship}
use grasp.Graph.Manager.Relationships.{Answer, add_relationship-Answer}
use grasp.Graph.Tests.{
  floats, memory_edge, two_edges, three_edges, three_edges-IsWf, three_sizes, known_7, known_9,
}

shortest_path-Answers_example :
    (answer : Option (List ℕ)) × (shortest_path three_edges 7 9 ≡ some answer)
    × Answers (λ u. targets (outgoing three_edges u)) 7 9 answer
shortest_path-Answers_example = shortest_path-Answers three_edges 7 9 known_7 known_9

dfs-Explored_example :
    (found : List (ℕ × ℕ)) × (dfs three_edges 7 2 ≡ some found)
    × Explored (λ u. targets (outgoing three_edges u)) 7 2 found
dfs-Explored_example = dfs-Explored three_edges 7 2 known_7

abbrev replaced : CsrGraph ℕ
replaced = add_edge (add_edge new (memory_edge 7 8 supersedes 4)) (memory_edge 8 9 supersedes 5)

replaced-enough : enough replaced ≤ 9
unfolding new add_edge add_node
replaced-enough = omega arith

replaced_7 : get_idx replaced 7 ≡ some 0
unfolding new add_edge add_node get_idx
replaced_7 = refl

find_superseded-bfs_filtered_example :
    (found : List ℕ) × (whole : List (ℕ × ℕ)) × (find_superseded replaced 7 ≡ some found)
    × (bfs_filtered replaced 7 9 (supersedes ∷ []) ≡ some whole)
    × (map (λ p. p.0) whole ≡ 7 ∷ found)
find_superseded-bfs_filtered_example =
    find_superseded-bfs_filtered replaced 7 9 replaced_7 replaced-enough

find_contradictions-Finds_example : contains (find_contradictions three_edges 8) 9 ≡ (
    contradicting three_edges 8 9
    || not (9 == 8)
      && fresh_leads three_edges supports (passed_over three_edges 8) (incoming three_edges 8) 9
    || fresh_leads three_edges supports
        (passed_over_later three_edges 8)
        (outgoing three_edges 8)
        9)
find_contradictions-Finds_example = find_contradictions-Finds three_edges 8 9

propagate_update_with_config-bfs_filtered_example :
    (after : HashMap ℕ) × (whole : List (ℕ × ℕ)) × (propagate_update_with_config floats three_edges
        7 6
        (default_config floats)
      ≡ some after)
    × (bfs_filtered three_edges 7 5 spreading ≡ some whole)
    × ((v : ℕ) → is_some (lookup v after) ≡ is_some (lookup v whole))
propagate_update_with_config-bfs_filtered_example =
    propagate_update_with_config-bfs_filtered floats (default_config floats) three_edges 7 6 known_7

abbrev manager : GraphManager ℕ
manager = record { graph = three_edges }

add_relationship-Answer_example :
    Answer
      (all_edges two_edges)
      manager
      (memory_edge 9 7 supports 1)
      (add_relationship manager (memory_edge 9 7 supports 1)).0
      (add_relationship manager (memory_edge 9 7 supports 1)).1
add_relationship-Answer_example =
    add_relationship-Answer manager (all_edges two_edges) (memory_edge 9 7 supports 1)
      three_edges-IsWf three_sizes

abbrev calls : List (Call ℕ)
calls =
    link (memory_edge 7 8 caused 4) ∷ link (memory_edge 8 9 supports 5) ∷ unlink 7 8 ∷ forget 9 ∷ []

calls-HasRoom : HasRoom floats new calls
unfolding new add_edge add_node
calls-HasRoom = (omega arith, (omega arith, (tt, (tt, tt))))

outgoing-run_example : outgoing (run floats new calls) 8 ≡ meanings floats (λ _. []) calls 8
outgoing-run_example = outgoing-run floats calls 8 calls-HasRoom

-- 10 is two steps from 7, and `dfs` with `max_depth` 2 does not report it: it has expanded 8 first
-- and marked 9 at depth 2.
abbrev shortcut : ℕ → List ℕ
shortcut v =
    if v == 7 then 9 ∷ 8 ∷ [] else (if v == 8 then 9 ∷ [] else (if v == 9 then 10 ∷ [] else []))

dfs_misses : reported (dfs_loop shortcut 2 9 (dfs_from 7)) ≡ some ((7, 0) ∷ (8, 1) ∷ (9, 2) ∷ [])
unfolding dfs_loop push_unvisited
dfs_misses = refl

-- Two memories that cause one another.
abbrev circular : CsrGraph ℕ
circular = add_edge (add_edge new (memory_edge 7 8 caused 4)) (memory_edge 8 7 caused 5)

detect_cycles-circular : detect_cycles circular (caused ∷ []) ≡ some ((7 ∷ 8 ∷ []) ∷ [])
unfolding new add_edge add_node outgoing outgoing_by_idx resolve neighbors empty from_memory_edge
    detect_cycles starts_loop cycle_loop visit_edges close_cycle position
detect_cycles-circular = refl

detect_cycles-IsCycle_example :
    (cycles : List (List ℕ)) × (detect_cycles circular (caused ∷ []) ≡ some cycles)
    × All (IsCycle (λ u. targets (of_types (caused ∷ []) (outgoing circular u)))) cycles
detect_cycles-IsCycle_example = detect_cycles-IsCycle circular (caused ∷ [])
