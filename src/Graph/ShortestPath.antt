-- ===== src/Graph/ShortestPath.antt =====
-- `shortest_path` of crates/mentedb-graph/src/traversal.rs. Both `while` loops take fuel, and the
-- outer `none` says that it ran out; ShortestPath/Correct shows that it never does.
pub mod Chain
mod Rounds
pub mod Correct
use grasp.Prelude.{
  ℕ, zero, suc, true, false, Option, none, some, List, [], ◌∷◌, ◌++◌, ◌==◌, length, HashMap, lookup,
  insert, contains,
}
use mathlib.Core.List.{reverse}
use grasp.Core.Edge.{MemoryId}
use grasp.Graph.Csr.{CsrGraph, get_idx, outgoing}
use grasp.Graph.Traversal.{targets, enough}

pub record PathSearch : Type 0 where
  pub visited : List MemoryId
  pub parent : HashMap MemoryId
  pub queue : List MemoryId

-- What the inner loop ends with: the node that was looked for has just got its parent, or the
-- search goes on.
pub data Round : Type 0 where
  arrived : PathSearch → Round
  onward : PathSearch → Round

-- The inner loop over the neighbours of `node`.
unfoldable pub offer : MemoryId → MemoryId → PathSearch → List MemoryId → Round
offer to node s [] = onward s
offer to node s (neighbor ∷ rest) = elim (contains s.visited neighbor) [
  | true ↦ offer to node s rest
  | false ↦
      let met = record s {
        visited = s.visited ++ neighbor ∷ [];
        parent = insert neighbor node s.parent;
      } in
      elim (neighbor == to) [
        | true ↦ arrived met
        | false ↦ offer to node (record met { queue = s.queue ++ neighbor ∷ [] }) rest
      ]
]

abbrev pub pushed : MemoryId → Option (List MemoryId) → Option (List MemoryId)
pushed prev none = none
pushed prev (some path) = some (prev ∷ path)

-- The nodes that the reconstruction pushes behind `cur`, on the way back to `from`.
unfoldable pub follow : HashMap MemoryId → MemoryId → ℕ → MemoryId → Option (List MemoryId)
follow parent from zero cur = none
follow parent from (suc fuel) cur = elim (lookup cur parent) [
  | none ↦ some []
  | some prev ↦ elim (prev == from) [
    | true ↦ some (prev ∷ [])
    | false ↦ pushed prev (follow parent from fuel prev)
  ]
]

abbrev pub reversed : MemoryId → Option (List MemoryId) → Option (Option (List MemoryId))
reversed to none = none
reversed to (some path) = some (some (reverse (to ∷ path)))

unfoldable pub path_loop :
    (MemoryId → List MemoryId)
    → (from to : MemoryId) → ℕ
    → PathSearch
    → Option (Option (List MemoryId))
path_loop next from to zero s = elim s.queue [ [] ↦ some none | _ ∷ _ ↦ none ]
path_loop next from to (suc fuel) s = elim s.queue [
  | [] ↦ some none
  | node ∷ rest ↦ elim (offer to node (record s { queue = rest }) (next node)) [
    | arrived met ↦ reversed to (follow met.parent from (length met.visited) to)
    | onward later ↦ path_loop next from to fuel later
  ]
]

abbrev pub search_from : MemoryId → PathSearch
search_from from = record { visited = from ∷ []; parent = []; queue = from ∷ [] }

unfoldable pub shortest_path :
    {F : Type 0} → CsrGraph F → (from to : MemoryId) → Option (Option (List MemoryId))
shortest_path g from to = elim (from == to) [
  | true ↦ some (some (from ∷ []))
  | false ↦ elim (get_idx g from) [
    | none ↦ some none
    | some _ ↦ elim (get_idx g to) [
      | none ↦ some none
      | some _ ↦ path_loop (λ node. targets (outgoing g node)) from to (enough g) (search_from from)
    ]
  ]
]
