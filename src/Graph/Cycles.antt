-- ===== src/Graph/Cycles.antt =====
-- `detect_cycles` of crates/mentedb-graph/src/contradiction.rs. The head of the list is the top of the
-- stack, a hash set is the list of its elements, and the loop over the stack takes fuel;
-- Cycles/Sound shows that it never runs out.
pub mod Sound
use grasp.Prelude.{
  ℕ, zero, suc, Bool, true, false, not, ◌&&◌, Option, none, some, List, [], ◌∷◌, ◌++◌, ◌==◌,
  if◌then◌else◌, length, drop, any, contains, with_element,
}
use grasp.Core.Edge.{EdgeType, MemoryId}
use grasp.Graph.Csr.{CsrGraph, outgoing}
use grasp.Graph.Traversal.{targets, of_types, enough}

pub record CycleSearch : Type 0 where
  pub cycles : List (List MemoryId)
  pub globally_visited : List MemoryId
  pub local_visited : List MemoryId
  pub stack : List (MemoryId × List MemoryId)

abbrev pub one_later : Option ℕ → Option ℕ
one_later none = none
one_later (some i) = some (suc i)

-- `path.iter().position(|&n| n == neighbor)`
unfoldable pub position : List MemoryId → MemoryId → Option ℕ
position [] n = none
position (x ∷ xs) n = if x == n then some 0 else one_later (position xs n)

-- A cycle that was found before: as long, and with all of the new one's nodes.
abbrev pub equivalent : List MemoryId → List MemoryId → Bool
equivalent cycle c = length c == length cycle && not (any (λ n. not (contains c n)) cycle)

-- The edge back to `neighbor` on the path closes a cycle.
unfoldable pub close_cycle : List MemoryId → MemoryId → CycleSearch → CycleSearch
close_cycle path neighbor s = elim (position path neighbor) [
  | none ↦ s
  | some pos ↦
      let cycle = drop pos path in
      if any (equivalent cycle) s.cycles then s else record s { cycles = s.cycles ++ cycle ∷ [] }
]

abbrev pub push_path : List MemoryId → MemoryId → CycleSearch → CycleSearch
push_path path neighbor s = record s {
  local_visited = s.local_visited ++ neighbor ∷ [];
  stack = (neighbor, path ++ neighbor ∷ []) ∷ s.stack;
}

-- The inner loop over the targets of the edges of the given types.
unfoldable pub visit_edges : List MemoryId → CycleSearch → List MemoryId → CycleSearch
visit_edges path s [] = s
visit_edges path s (neighbor ∷ rest) =
    visit_edges path
      (if contains path neighbor
        then close_cycle path neighbor s
        else (if contains s.local_visited neighbor then s else push_path path neighbor s))
      rest

-- The `while` loop.
unfoldable pub cycle_loop : (MemoryId → List MemoryId) → ℕ → CycleSearch → Option CycleSearch
cycle_loop next zero s = elim s.stack [ [] ↦ some s | _ ∷ _ ↦ none ]
cycle_loop next (suc fuel) s = elim s.stack [
  | [] ↦ some s
  | (node, path) ∷ rest ↦
      let visited = visit_edges path (record s { stack = rest }) (next node) in
      cycle_loop next fuel
        (record visited { globally_visited = with_element visited.globally_visited node })
]

abbrev pub begin_at : MemoryId → CycleSearch → CycleSearch
begin_at start s = record s { local_visited = start ∷ []; stack = (start, start ∷ []) ∷ [] }

-- The outer loop over the nodes.
unfoldable pub starts_loop :
    (MemoryId → List MemoryId) → ℕ → CycleSearch → List MemoryId → Option (List (List MemoryId))
starts_loop next fuel s [] = some s.cycles
starts_loop next fuel s (start ∷ rest) = elim (contains s.globally_visited start) [
  | true ↦ starts_loop next fuel s rest
  | false ↦ elim (cycle_loop next fuel (begin_at start s)) [
    | none ↦ none
    | some s' ↦ starts_loop next fuel s' rest
  ]
]

abbrev pub node_ids : {F : Type 0} → CsrGraph F → List MemoryId
node_ids g = g.idx_to_id

unfoldable pub detect_cycles :
    {F : Type 0} → CsrGraph F → List EdgeType → Option (List (List MemoryId))
detect_cycles g edge_types =
    starts_loop (λ node. targets (of_types edge_types (outgoing g node))) (enough g)
      (record { cycles = []; globally_visited = []; local_visited = []; stack = [] }) (node_ids g)
