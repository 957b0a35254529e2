-- ===== src/Graph/Csr/Reachable.antt =====
-- Every graph that the operations build from the empty one is well formed.
use grasp.Prelude.{
  ◌+◌, ◌<◌, ◌≡◌, refl, inl, inr, false, List, [], arith, ◌==◌, Bool-cases, Option-cases, length,
  find, lookup,
}
use grasp.Core.Float32.{Float32}
use grasp.Core.Edge.{MemoryEdge, MemoryId}
use grasp.Graph.Storage.{IndexedEdge}
use grasp.Graph.Csr.{
  CsrGraph, new, contains_node, add_node, remove_node, add_edge, remove_edge, outgoing, all_edges,
  strengthen_edge, compact,
}
use grasp.Graph.Csr.View.{IsWf}
use grasp.Graph.Csr.Nodes.{new-IsWf, add_node_lem}
use grasp.Graph.Csr.Edges.{add_edge-Appends}
use grasp.Graph.Csr.Removal.{remove_edge-Cuts}
use grasp.Graph.Csr.NodeRemoval.{remove_node-Drops}
use grasp.Graph.Csr.Strengthen.{strengthen_edge-Appends, strengthen_edge_absent}
use grasp.Graph.Csr.Compact.Same.{compact-IsWf}

module _ {F : Type 0} (fl : Float32 F) where
  -- The calls on a graph, with room in the 32-bit indices for the nodes, and for the edges that a
  -- compaction writes.
  pub data Reachable : CsrGraph F → Type 0 where
    start : Reachable new
    node :
        {g : CsrGraph F}
        → Reachable g
        → (id : MemoryId) → length g.idx_to_id + 1 < 4294967296
        → Reachable (add_node g id).0
    edge :
        {g : CsrGraph F}
        → Reachable g
        → (e : MemoryEdge F) → length g.idx_to_id + 2 < 4294967296
        → Reachable (add_edge g e)
    without_node : {g : CsrGraph F} → Reachable g → (id : MemoryId) → Reachable (remove_node g id)
    without_edge :
        {g : CsrGraph F}
        → Reachable g
        → (source target : MemoryId) → Reachable (remove_edge g source target)
    stronger :
        {g : CsrGraph F}
        → Reachable g
        → (source target : MemoryId) → (delta : F) → length g.idx_to_id + 2 < 4294967296
        → Reachable (strengthen_edge fl g source target delta)
    compacted :
        {g : CsrGraph F}
        → Reachable g
        → length (all_edges g) < 4294967296
        → Reachable (compact fl g)

  pub unknown_node :
      (g : CsrGraph F) (id : MemoryId) → contains_node g id ≡ false → remove_node g id ≡ g
  unfolding contains_node remove_node
  unknown_node g id h = elim (Option-cases (lookup id g.id_to_idx)) [
    | inl absent ↦ rw (absent, remove_node) refl
    | inr (i, there) ↦ absurd (ground arith)
  ]

  -- However the calls on a graph follow each other, as long as the nodes, and the edges at a
  -- compaction, stay below 2 ^ 32, there is an edge list that its storages hold by rows and by
  -- columns, and its indices and its log agree with it.
  pub reachable-IsWf : (g : CsrGraph F) → Reachable g → (base : List (IndexedEdge F)) × IsWf g base
  reachable-IsWf _ start = ([], new-IsWf)
  reachable-IsWf _ (node {g} r id room) =
      let (base, wf) = reachable-IsWf g r in (base, (add_node_lem g base id wf room).wf)
  reachable-IsWf _ (edge {g} r e room) =
      let (base, wf) = reachable-IsWf g r in (base, (add_edge-Appends g base e wf room).wf)
  reachable-IsWf _ (without_node {g} r id) =
      let (base, wf) = reachable-IsWf g r in
      elim (Bool-cases (contains_node g id)) [
        | inl known ↦ (base, (remove_node-Drops g base id wf known).wf)
        | inr unknown ↦ (base, rw (unknown_node g id unknown) wf)
      ]
  reachable-IsWf _ (without_edge {g} r source target) =
      let (base, wf) = reachable-IsWf g r in (base, (remove_edge-Cuts g base source target wf).wf)
  reachable-IsWf _ (stronger {g} r source target delta room) =
      let (base, wf) = reachable-IsWf g r in
      elim (Option-cases (find (λ p. p.0 == target) (outgoing g source))) [
        | inl none_there ↦
            (base, rw (strengthen_edge_absent fl g base source target delta wf room none_there) wf)
        | inr ((id, stored), there) ↦
            (base, (strengthen_edge-Appends fl g base source target delta wf room there).wf)
      ]
  reachable-IsWf _ (compacted {g} r few) =
      let (base, wf) = reachable-IsWf g r in (all_edges g, compact-IsWf fl g base wf few)
