-- ===== src/Graph/Manager/Relationships.antt =====
-- When the manager accepts a relationship, and what it does then.
use grasp.Prelude.{
  ℕ, ◌+◌, ◌<◌, ◌≡◌, refl, ap, ◌∙◌, ◌⊎◌, inl, inr, true, false, some, List, arith, Bool-cases,
  Option-cases, length, lookup, is_some,
}
use grasp.Core.Edge.{MemoryId, MemoryEdge}
use grasp.Graph.Storage.{IndexedEdge, from_memory_edge}
use grasp.Graph.Csr.{CsrGraph, contains_node, add_node, add_edge}
use grasp.Graph.Csr.View.{IsWf}
use grasp.Graph.Csr.Edges.{Appends, add_edge-Appends}
use grasp.Graph.Manager.{memory_not_found, MenteResult, ok, err, GraphManager, add_relationship}

module _ {F : Type 0} where
  -- What each result says.
  abbrev pub Answer :
      List (IndexedEdge F)
      → GraphManager F
      → MemoryEdge F
      → GraphManager F
      → MenteResult Unit
      → Type 0
  Answer base m edge m' (ok _) =
      (contains_node m.graph edge.source ≡ true)
      × (contains_node m.graph edge.target ≡ true)
      × ((x : MemoryId) → contains_node m'.graph x ≡ contains_node m.graph x)
      × Appends m.graph m'.graph base edge.source edge.target (from_memory_edge edge)
  Answer base m edge m' (err (memory_not_found missing)) =
      (contains_node m.graph missing ≡ false)
      × ((missing ≡ edge.source)
          ⊎ ((missing ≡ edge.target) × (contains_node m.graph edge.source ≡ true)))
      × (m' ≡ m)

  add_node-known :
      (g : CsrGraph F) (id i : ℕ) → lookup id g.id_to_idx ≡ some i → add_node g id ≡ (g, i)
  unfolding add_node
  add_node-known g id i known = rw (known, add_node) refl

  known_nodes :
      (g : CsrGraph F) (edge : MemoryEdge F) (x : MemoryId)
      → contains_node g edge.source ≡ true
      → contains_node g edge.target ≡ true
      → contains_node (add_edge g edge) x ≡ contains_node g x
  unfolding contains_node add_edge
  known_nodes g edge x source target = elim (Option-cases (lookup edge.source g.id_to_idx)) [
    | inl gone ↦ absurd (ground arith)
    | inr (i, from) ↦ elim (Option-cases (lookup edge.target g.id_to_idx)) [
      | inl gone ↦ absurd (ground arith)
      | inr (j, to) ↦
          ap (λ n. is_some (lookup x (add_node n.0 edge.target).0.id_to_idx))
            (add_node-known g edge.source i from)
          ∙ ap (λ n. is_some (lookup x n.0.id_to_idx)) (add_node-known g edge.target j to)
    ]
  ]

  -- In a well-formed graph with room for two more nodes, `add_relationship` either finds both ends,
  -- registers no node and appends exactly that edge to the outgoing edges of its source and the
  -- incoming ones of its target, or it names an end that is missing, the source before the target,
  -- and leaves the graph as it was.
  pub add_relationship-Answer :
      (m : GraphManager F) (base : List (IndexedEdge F)) (edge : MemoryEdge F)
      → IsWf m.graph base
      → length m.graph.idx_to_id + 2 < 4294967296
      → Answer base m edge (add_relationship m edge).0 (add_relationship m edge).1
  unfolding add_relationship
  add_relationship-Answer m base edge wf room =
      elim (Bool-cases (contains_node m.graph edge.source)) [
        | inr source ↦ rw (source, add_relationship) (source, inl refl, refl)
        | inl source ↦ elim (Bool-cases (contains_node m.graph edge.target)) [
          | inr target ↦ rw (source, target, add_relationship) (target, inr (refl, source), refl)
          | inl target ↦
              rw (source, target, add_relationship)
                (
                  source,
                  target,
                  λ x. known_nodes m.graph edge x source target,
                  add_edge-Appends m.graph base edge wf room,
                )
        ]
      ]
