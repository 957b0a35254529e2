-- ===== src/Graph/Contradiction.antt =====
-- crates/mentedb-graph/src/contradiction.rs. A hash set is the list of its elements, and an element
-- that is already in the set is not added again.
pub mod Superseded
pub mod Found
use grasp.Prelude.{
  with_element, ℕ, zero, suc, Bool, true, not, ◌&&◌, Option, none, some, List, [], ◌∷◌, ◌++◌, ◌==◌,
  if◌then◌else◌, retain, contains,
}
use grasp.Core.Edge.{EdgeType, MemoryId, same_type, supersedes, contradicts, supports}
use grasp.Graph.Storage.{StoredEdge}
use grasp.Graph.Csr.{CsrGraph, outgoing, incoming}
use grasp.Graph.Traversal.{targets, enough}

pub record Superseding : Type 0 where
  pub result : List MemoryId
  pub visited : List MemoryId
  pub queue : List MemoryId

-- The inner loop of `find_superseded` over the targets of the `Supersedes` edges.
unfoldable pub note_new : Superseding → List MemoryId → Superseding
note_new s [] = s
note_new s (neighbor ∷ rest) =
    note_new
      (if contains s.visited neighbor then s else record {
        result = s.result ++ neighbor ∷ [];
        visited = s.visited ++ neighbor ∷ [];
        queue = s.queue ++ neighbor ∷ [];
      })
      rest

-- The outer loop, on fuel.
unfoldable pub superseded_loop :
    (MemoryId → List MemoryId) → ℕ → Superseding → Option (List MemoryId)
superseded_loop next zero s = elim s.queue [ [] ↦ some s.result | _ ∷ _ ↦ none ]
superseded_loop next (suc fuel) s = elim s.queue [
  | [] ↦ some s.result
  | node ∷ rest ↦ superseded_loop next fuel (note_new (record s { queue = rest }) (next node))
]

module _ {F : Type 0} where
  abbrev pub only : EdgeType → List (MemoryId × StoredEdge F) → List (MemoryId × StoredEdge F)
  only edge_type = retain (λ p. same_type p.1.edge_type edge_type)

  unfoldable pub find_superseded : CsrGraph F → MemoryId → Option (List MemoryId)
  find_superseded g id =
      superseded_loop (λ node. targets (only supersedes (outgoing g node))) (enough g)
        (record { result = []; visited = id ∷ []; queue = id ∷ [] })

pub record Contradictions : Type 0 where
  pub contradictions : List MemoryId
  pub visited : List MemoryId

module _ {F : Type 0} where
  -- The two loops over the direct contradictions.
  unfoldable pub direct : Contradictions → List (MemoryId × StoredEdge F) → Contradictions
  direct s [] = s
  direct s ((neighbor, edge) ∷ rest) =
      direct
        (if same_type edge.edge_type contradicts
          then record {
            contradictions = with_element s.contradictions neighbor;
            visited = with_element s.visited neighbor;
          }
          else s)
        rest

  -- The innermost loops: the contradicted targets that are allowed.
  unfoldable pub add_targets :
      (MemoryId → Bool) → List MemoryId → List (MemoryId × StoredEdge F) → List MemoryId
  add_targets allowed found [] = found
  add_targets allowed found ((target, edge) ∷ rest) =
      add_targets allowed
        (if same_type edge.edge_type contradicts && allowed target
          then with_element found target
          else found)
        rest

  -- The loops over the supporters and over the supported nodes.
  unfoldable pub through :
      CsrGraph F
      → (MemoryId → Bool)
      → Contradictions
      → List (MemoryId × StoredEdge F)
      → Contradictions
  through g allowed s [] = s
  through g allowed s ((neighbor, edge) ∷ rest) =
      through g allowed
        (if same_type edge.edge_type supports && not (contains s.visited neighbor)
          then record {
            contradictions = add_targets allowed s.contradictions (outgoing g neighbor);
            visited = s.visited ++ neighbor ∷ [];
          }
          else s)
        rest

  -- The queue holds `id` and nothing is ever pushed, so the body of the `while` loop runs once.
  unfoldable pub find_contradictions : CsrGraph F → MemoryId → List MemoryId
  find_contradictions g id =
      let s₀ : Contradictions = record { contradictions = []; visited = id ∷ [] } in
      let s₁ = direct s₀ (outgoing g id) in
      let s₂ = direct s₁ (incoming g id) in
      let s₃ = through g (λ target. not (target == id)) s₂ (incoming g id) in
      let s₄ = through g (λ target. true) s₃ (outgoing g id) in s₄.contradictions
