-- ===== src/Graph/Csr/Refines.antt =====
-- The graph as a plain adjacency list: what every call does to the outgoing edges of every node,
-- with no indices, compressed rows, log or pending removals.
use grasp.Prelude.{
  ◌+◌, ◌<◌, ◌≡◌, refl, sym, ap, ◌∙◌, inl, inr, true, false, not, ◌&&◌, Option, none, some, List, [],
  ◌∷◌, ◌++◌, arith, ◌==◌, if◌then◌else◌, ==_iff, Bool-cases, Option-cases, length, retain, find,
  retain_all, retain_congr_mem,
}
use mathlib.Core.Path.{fun_ext}
use grasp.Core.Float32.{Float32}
use grasp.Core.Edge.{MemoryEdge, MemoryId}
use grasp.Graph.Storage.{StoredEdge, IndexedEdge, from_memory_edge}
use grasp.Graph.Csr.{
  CsrGraph, new, contains_node, add_node, remove_node, add_edge, remove_edge, outgoing, all_edges,
  strengthen_edge, compact,
}
use grasp.Graph.Csr.View.{IsWf}
use grasp.Graph.Csr.Nodes.{new-IsWf, add_node_lem}
use grasp.Graph.Csr.Edges.{add_edge-Appends}
use grasp.Graph.Csr.Removal.{remove_edge-Cuts}
use grasp.Graph.Csr.NodeRemoval.{remove_node-Drops}
use grasp.Graph.Csr.Strengthen.{strengthen_edge-Appends, strengthen_edge_absent}
use grasp.Graph.Csr.Compact.Same.{compact-IsWf, outgoing-compact}
use grasp.Graph.Csr.Dual.{outgoing-Joins}
use grasp.Graph.Csr.Reachable.{unknown_node}

-- The calls that change a graph.
pub data Call (F : Type 0) : Type 0 where
  register : MemoryId → Call F
  link : MemoryEdge F → Call F
  forget : MemoryId → Call F
  unlink : (source target : MemoryId) → Call F
  strengthen : (source target : MemoryId) → (delta : F) → Call F
  rebuild : Call F

-- The outgoing edges of each node.
abbrev pub Adjacency : Type 0 → Type 0
Adjacency F = MemoryId → List (MemoryId × StoredEdge F)

module _ {F : Type 0} (fl : Float32 F) where
  abbrev pub call : CsrGraph F → Call F → CsrGraph F
  call g (register id) = (add_node g id).0
  call g (link e) = add_edge g e
  call g (forget id) = remove_node g id
  call g (unlink source target) = remove_edge g source target
  call g (strengthen source target delta) = strengthen_edge fl g source target delta
  call g rebuild = compact fl g

  abbrev pub run : CsrGraph F → List (Call F) → CsrGraph F
  run g [] = g
  run g (c ∷ cs) = run (call g c) cs

  -- Room in the 32-bit indices for the nodes of each call, and for the edges of each compaction.
  abbrev pub RoomFor : CsrGraph F → Call F → Type 0
  RoomFor g (register id) = length g.idx_to_id + 1 < 4294967296
  RoomFor g (link e) = length g.idx_to_id + 2 < 4294967296
  RoomFor g (forget id) = Unit
  RoomFor g (unlink source target) = Unit
  RoomFor g (strengthen source target delta) = length g.idx_to_id + 2 < 4294967296
  RoomFor g rebuild = length (all_edges g) < 4294967296

  abbrev pub HasRoom : CsrGraph F → List (Call F) → Type 0
  HasRoom g [] = Unit
  HasRoom g (c ∷ cs) = RoomFor g c × HasRoom (call g c) cs

  abbrev pub raised : F → StoredEdge F → StoredEdge F
  raised delta stored = record stored { weight = fl.min (fl.add stored.weight delta) fl.one }

  abbrev pub append_at : MemoryId → MemoryId × StoredEdge F → Adjacency F → Adjacency F
  append_at source p adj x = adj x ++ (if source == x then p ∷ [] else [])

  abbrev pub strengthened_by :
      Option (MemoryId × StoredEdge F) → MemoryId → MemoryId → F → Adjacency F → Adjacency F
  strengthened_by none source target delta adj = adj
  strengthened_by (some p) source target delta adj = append_at source (target, raised delta p.1) adj

  -- What a call means.
  abbrev pub meaning : Adjacency F → Call F → Adjacency F
  meaning adj (register id) = adj
  meaning adj (link e) = append_at e.source (e.target, from_memory_edge e) adj
  meaning adj (forget id) = λ x. if id == x then [] else retain (λ p. not (p.0 == id)) (adj x)
  meaning adj (unlink source target) = λ x. retain (λ p. not (source == x && p.0 == target)) (adj x)
  meaning adj (strengthen source target delta) =
      strengthened_by (find (λ p. p.0 == target) (adj source)) source target delta adj
  meaning adj rebuild = adj

  abbrev pub meanings : Adjacency F → List (Call F) → Adjacency F
  meanings adj [] = adj
  meanings adj (c ∷ cs) = meanings (meaning adj c) cs

  -- A node that is not registered is no target and has no edges.
  module _ (g : CsrGraph F) (base : List (IndexedEdge F)) (wf : IsWf g base) (id : MemoryId)
      (unknown : contains_node g id ≡ false) where
    no_target : (x : MemoryId) → retain (λ p. not (p.0 == id)) (outgoing g x) ≡ outgoing g x
    unfolding contains_node
    no_target x =
        retain_congr_mem (λ p. not (p.0 == id)) (λ _. true) (outgoing g x)
          (λ p m.
            let (i, j, at_s, at_t, e) = (outgoing-Joins g base wf x p.0 p.1).0 m in
            elim (Bool-cases (p.0 == id)) [
              | inl same ↦ let k = (==_iff p.0 id).0 same in absurd (ground (arith, rw k at at_t))
              | inr other ↦ rw other refl
            ])
        ∙ retain_all (λ _. true) (outgoing g x) (λ e. refl)

    no_edges : outgoing g id ≡ []
    unfolding contains_node outgoing
    no_edges = ground arith

  -- One call.
  call-meaning :
      (g : CsrGraph F) (base : List (IndexedEdge F)) (c : Call F)
      → IsWf g base
      → RoomFor g c
      → ((base' : List (IndexedEdge F)) × IsWf (call g c) base')
        × ((x : MemoryId) → outgoing (call g c) x ≡ meaning (outgoing g) c x)
  call-meaning g base (register id) wf room =
      let a = add_node_lem g base id wf room in ((base, a.wf), a.same_outgoing)
  call-meaning g base (link e) wf room =
      let a = add_edge-Appends g base e wf room in ((base, a.wf), a.from)
  call-meaning g base (forget id) wf room = elim (Bool-cases (contains_node g id)) [
    | inl known ↦ let d = remove_node-Drops g base id wf known in ((base, d.wf), d.from)
    | inr unknown ↦ rw (unknown_node fl g id unknown) (
      (base, wf),
      λ x. elim (Bool-cases (id == x)) [
        | inl same ↦ rw (same, sym ((==_iff id x).0 same)) (no_edges g base wf id unknown)
        | inr other ↦ rw other (sym (no_target g base wf id unknown x))
      ],
    )
  ]
  call-meaning g base (unlink source target) wf room =
      let c = remove_edge-Cuts g base source target wf in ((base, c.wf), c.from)
  call-meaning g base (strengthen source target delta) wf room =
      elim (Option-cases (find (λ p. p.0 == target) (outgoing g source))) [
        | inl absent ↦
            rw (strengthen_edge_absent fl g base source target delta wf room absent, absent)
              ((base, wf), λ x. refl)
        | inr ((id, stored), there) ↦
            let a = strengthen_edge-Appends fl g base source target delta wf room there in
            rw there ((base, a.wf), a.from)
      ]
  call-meaning g base rebuild wf few =
      ((all_edges g, compact-IsWf fl g base wf few), outgoing-compact fl g base wf few)

  run-meanings :
      (g : CsrGraph F) (base : List (IndexedEdge F)) (cs : List (Call F))
      → IsWf g base
      → HasRoom g cs
      → (x : MemoryId) → outgoing (run g cs) x ≡ meanings (outgoing g) cs x
  run-meanings g base [] wf room x = refl
  run-meanings g base (c ∷ cs) wf room x =
      let ((base', wf'), step) = call-meaning g base c wf room.0 in
      run-meanings (call g c) base' cs wf' room.1 x ∙ ap (λ adj. meanings adj cs x) (fun_ext step)

  outgoing-new : (x : MemoryId) → outgoing (new {F = F}) x ≡ []
  unfolding new outgoing
  outgoing-new x = refl

  -- The graph refines a plain adjacency list: after any calls, as long as there is room for them, the
  -- outgoing edges of every node are those that the calls mean, edge for edge and in order. How the
  -- graph stores them, and when it is compacted, does not show.
  pub outgoing-run :
      (cs : List (Call F)) (x : MemoryId)
      → HasRoom new cs
      → outgoing (run new cs) x ≡ meanings (λ _. []) cs x
  outgoing-run cs x room =
      run-meanings new [] cs new-IsWf room x ∙ ap (λ adj. meanings adj cs x) (fun_ext outgoing-new)
