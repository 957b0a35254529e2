-- ===== src/Graph/Dfs.antt =====
-- `dfs` of crates/mentedb-graph/src/traversal.rs. The head of the list is the top of the stack. The
-- `while` loop takes fuel, and `none` says that it ran out; Dfs/Fuel shows that it never does.
mod Fuel
pub mod Correct
use grasp.Prelude.{
  ℕ, zero, suc, ◌+◌, true, false, Option, none, some, List, [], ◌∷◌, ◌++◌, leb, if◌then◌else◌,
  length, contains,
}
use grasp.Core.Edge.{MemoryId}
use grasp.Graph.Csr.{CsrGraph, get_idx, outgoing}
use grasp.Graph.Traversal.{targets}

pub record DepthSearch : Type 0 where
  pub visited : List MemoryId
  pub stack : List (MemoryId × ℕ)
  pub result : List (MemoryId × ℕ)

-- The inner loop: neighbours that are not visited go on the stack.
unfoldable pub push_unvisited :
    List MemoryId → ℕ → List (MemoryId × ℕ) → List MemoryId → List (MemoryId × ℕ)
push_unvisited visited depth stack [] = stack
push_unvisited visited depth stack (neighbor ∷ rest) =
    push_unvisited visited depth
      (if contains visited neighbor then stack else (neighbor, depth + 1) ∷ stack) rest

unfoldable pub dfs_loop : (MemoryId → List MemoryId) → ℕ → ℕ → DepthSearch → Option DepthSearch
dfs_loop next max_depth zero s = elim s.stack [ [] ↦ some s | _ ∷ _ ↦ none ]
dfs_loop next max_depth (suc fuel) s = elim s.stack [
  | [] ↦ some s
  | (node, depth) ∷ rest ↦ elim (contains s.visited node) [
    | true ↦ dfs_loop next max_depth fuel (record s { stack = rest })
    | false ↦
        let visited = s.visited ++ node ∷ [] in
        let result = s.result ++ (node, depth) ∷ [] in
        elim (leb max_depth depth) [
          | true ↦
              dfs_loop next max_depth fuel
                (record { visited = visited; stack = rest; result = result })
          | false ↦ dfs_loop next max_depth fuel (record {
            visited = visited;
            stack = push_unvisited visited depth rest (next node);
            result = result;
          })
        ]
  ]
]

abbrev pub dfs_from : MemoryId → DepthSearch
dfs_from start = record { visited = []; stack = (start, 0) ∷ []; result = [] }

abbrev pub reported : Option DepthSearch → Option (List (MemoryId × ℕ))
reported none = none
reported (some s) = some s.result

-- How often the nodes of a list push a neighbour.
abbrev pub pushes : (MemoryId → List MemoryId) → List MemoryId → ℕ
pushes next [] = 0
pushes next (id ∷ ids) = length (next id) + pushes next ids

module _ {F : Type 0} where
  -- A round for the start, and one for each edge.
  abbrev pub rounds : CsrGraph F → MemoryId → ℕ
  rounds g start = pushes (λ node. targets (outgoing g node)) (start ∷ g.idx_to_id) + 1

  unfoldable pub dfs : CsrGraph F → MemoryId → ℕ → Option (List (MemoryId × ℕ))
  dfs g start max_depth = elim (get_idx g start) [
    | none ↦ some []
    | some _ ↦
        reported
          (dfs_loop (λ node. targets (outgoing g node)) max_depth (rounds g start) (dfs_from start))
  ]
