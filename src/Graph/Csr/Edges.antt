-- ===== src/Graph/Csr/Edges.antt =====
-- What a call that logs an edge does to a graph, and `add_edge`.
use grasp.Prelude.{
  ℕ, ◌+◌, ◌<◌, ◌≡◌, refl, sym, ap, ◌∙◌, inl, inr, true, false, not, some, List, [], ◌∷◌, ◌++◌, map,
  append_assoc, arith, ◌==◌, if◌then◌else◌, Option-cases, length, retain, lookup,
}
use mathlib.Core.List.Memᴰ
use grasp.Core.Edge.{MemoryEdge}
use grasp.Graph.Storage.{StoredEdge, IndexedEdge, from_memory_edge}
use grasp.Graph.Storage.Fill.{in_row}
use grasp.Graph.Csr.{
  CsrGraph, is_removed, resolve, outgoing_by_idx, incoming_by_idx, outgoing, incoming, add_node,
  add_edge,
}
use grasp.Graph.Csr.View.{
  edges, IsWf, to_target, to_source, in_row_view-append, outgoing_by_idx-in_row,
  incoming_by_idx-in_row, outgoing-some, outgoing-none, incoming-some, incoming-none,
}
use grasp.Graph.Csr.Nodes.{add_node_lem}

module _ {F : Type 0} where
  -- A graph with one more edge in its log, between registered nodes.
  module _ (g : CsrGraph F) (base : List (IndexedEdge F)) (wf : IsWf g base) (source target s t : ℕ)
      (d : StoredEdge F) (at_source : lookup source g.id_to_idx ≡ some s)
      (at_target : lookup target g.id_to_idx ≡ some t) where
    abbrev pub logged : CsrGraph F
    logged = record g { delta_edges = g.delta_edges ++ (s, t, d) ∷ [] }

    edges-logged : edges logged base ≡ edges g base ++ (s, t, d) ∷ []
    unfolding is_removed
    edges-logged = sym (
        append_assoc (retain (λ e. not (is_removed g e.0 e.1)) base) g.delta_edges ((s, t, d) ∷ []))

    pub logged-IsWf : IsWf logged base
    logged-IsWf = record {
      nodes = wf.nodes;
      rows = wf.rows;
      columns = wf.columns;
      index = wf.index;
      live = λ e m. elim (Memᴰ.append_cases (edges g base) (rw edges-logged at m)) [
        | inl old ↦ wf.live e old
        | inr new ↦
            let same = Memᴰ.eq_of_singleton new in
            rw same (
              (source, wf.index source s at_source, at_source),
              (target, wf.index target t at_target, at_target),
            )
      ];
    }

    last_row :
        (i : ℕ)
        → resolve g.idx_to_id (map to_target (in_row false i ((s, t, d) ∷ [])))
          ≡ (if s == i then (target, d) ∷ [] else [])
    unfolding resolve
    last_row i = ground (arith, wf.index target t at_target)

    last_column :
        (i : ℕ)
        → resolve g.idx_to_id (map to_source (in_row true i ((s, t, d) ∷ [])))
          ≡ (if t == i then (source, d) ∷ [] else [])
    unfolding resolve
    last_column i = ground (arith, wf.index source s at_source)

    logged_row :
        (i : ℕ)
        → outgoing_by_idx logged i
          ≡ outgoing_by_idx g i ++ (if s == i then (target, d) ∷ [] else [])
    logged_row i =
        outgoing_by_idx-in_row logged base i wf.rows
        ∙ rw
            (
              edges-logged,
              in_row_view-append g.idx_to_id to_target false i (edges g base) ((s, t, d) ∷ []),
              last_row i,
            )
            (ap (λ z. z ++ (if s == i then (target, d) ∷ [] else []))
              (sym (outgoing_by_idx-in_row g base i wf.rows)))

    logged_column :
        (i : ℕ)
        → incoming_by_idx logged i
          ≡ incoming_by_idx g i ++ (if t == i then (source, d) ∷ [] else [])
    logged_column i =
        incoming_by_idx-in_row logged base i wf.columns
        ∙ rw
            (
              edges-logged,
              in_row_view-append g.idx_to_id to_source true i (edges g base) ((s, t, d) ∷ []),
              last_column i,
            )
            (ap (λ z. z ++ (if t == i then (source, d) ∷ [] else []))
              (sym (incoming_by_idx-in_row g base i wf.columns)))

    -- An index is of one identifier, and an identifier has one index.
    same_id :
        (a x i j : ℕ)
        → lookup a g.id_to_idx ≡ some i
        → lookup x g.id_to_idx ≡ some j
        → (i == j) ≡ (a == x)
    same_id a x i j h k = ground (arith, wf.index a i h, wf.index x j k)

    pub outgoing-logged :
        (x : ℕ) → outgoing logged x ≡ outgoing g x ++ (if source == x then (target, d) ∷ [] else [])
    outgoing-logged x = elim (Option-cases (lookup x g.id_to_idx)) [
      | inl absent ↦
          let other : (source == x) ≡ false = ground arith in
          outgoing-none logged x absent ∙ rw (outgoing-none g x absent, other)
      | inr (i, found) ↦
          outgoing-some logged x found
          ∙ (logged_row i ∙ rw (outgoing-some g x found, same_id source x s i at_source found))
    ]

    pub incoming-logged :
        (x : ℕ) → incoming logged x ≡ incoming g x ++ (if target == x then (source, d) ∷ [] else [])
    incoming-logged x = elim (Option-cases (lookup x g.id_to_idx)) [
      | inl absent ↦
          let other : (target == x) ≡ false = ground arith in
          incoming-none logged x absent ∙ rw (incoming-none g x absent, other)
      | inr (i, found) ↦
          incoming-some logged x found
          ∙ (logged_column i ∙ rw (incoming-some g x found, same_id target x t i at_target found))
    ]

  -- What a call that appends an edge from `source` to `target` does to a graph.
  pub record Appends (g g' : CsrGraph F) (base : List (IndexedEdge F)) (source target : ℕ)
      (d : StoredEdge F) : Type 0 where
    pub wf : IsWf g' base
    pub from :
        (x : ℕ) → outgoing g' x ≡ outgoing g x ++ (if source == x then (target, d) ∷ [] else [])
    pub to :
        (x : ℕ) → incoming g' x ≡ incoming g x ++ (if target == x then (source, d) ∷ [] else [])

  -- Registering both ends and logging the edge.
  pub appends_lem :
      (g : CsrGraph F) (base : List (IndexedEdge F)) (source target : ℕ) (d : StoredEdge F)
      → IsWf g base
      → length g.idx_to_id + 2 < 4294967296
      → let n₁ = add_node g source in
        let n₂ = add_node n₁.0 target in
        Appends g
          (record n₂.0 { delta_edges = n₂.0.delta_edges ++ (n₁.1, n₂.1, d) ∷ [] })
          base
          source
          target
          d
  appends_lem g base source target d wf room =
      let n₁ = add_node g source in
      let n₂ = add_node n₁.0 target in
      let a₁ = add_node_lem g base source wf (omega arith) in
      let a₂ = add_node_lem n₁.0 base target a₁.wf (omega (arith, a₁.grows)) in
      let s = a₂.others source n₁.1 a₁.found in
      record {
        wf = logged-IsWf n₂.0 base a₂.wf source target n₁.1 n₂.1 d s a₂.found;
        from = λ x.
            outgoing-logged n₂.0 base a₂.wf source target n₁.1 n₂.1 d s a₂.found x
            ∙ rw (a₂.same_outgoing x, a₁.same_outgoing x) refl;
        to = λ x.
            incoming-logged n₂.0 base a₂.wf source target n₁.1 n₂.1 d s a₂.found x
            ∙ rw (a₂.same_incoming x, a₁.same_incoming x) refl;
      }

  -- On a well-formed graph with room for two nodes `add_edge` registers both ends, appends the edge to the neighbours of
  -- its source and to those coming into its target, and leaves all other neighbours alone.
  pub add_edge-Appends :
      (g : CsrGraph F) (base : List (IndexedEdge F)) (e : MemoryEdge F)
      → IsWf g base
      → length g.idx_to_id + 2 < 4294967296
      → Appends g (add_edge g e) base e.source e.target (from_memory_edge e)
  unfolding add_edge
  add_edge-Appends g base e wf room =
      appends_lem g base e.source e.target (from_memory_edge e) wf room
