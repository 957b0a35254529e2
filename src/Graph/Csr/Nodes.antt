-- ===== src/Graph/Csr/Nodes.antt =====
-- `add_node`, and the empty graph.
use grasp.Prelude.{
  ℕ, ◌+◌, ◌≤◌, ◌<◌, ◌≡◌, refl, sym, ◌∙◌, ◌≢◌, inl, inr, Bool, true, false, none, some, List, [],
  ◌∷◌, ◌++◌, map, arith, Memᴰ, ◌==◌, Bool-cases, Option-cases, as_u32, length, get_elem?,
  length-append, get_elem?-append, get_elem?-concat, lt-length_of_get_elem?, lookup, insert,
  lookup-insert, Memᴰ-retain,
}
use mathlib.Core.List.Memᴰ
use grasp.Graph.Storage.{IndexedEdge, empty, neighbors, edge_data_for, row_of}
use grasp.Graph.Storage.Fill.{in_row}
use grasp.Graph.Csr.{
  CsrGraph, is_removed, resolve, outgoing_by_idx, incoming_by_idx, outgoing, incoming, new,
  add_node,
}
use grasp.Graph.Csr.View.{
  edges, IsLive, IsWf, outgoing_by_idx-in_row, incoming_by_idx-in_row, outgoing-some, outgoing-none,
  incoming-some, incoming-none,
}

module _ {F : Type 0} where
  -- The empty graph holds no edges.
  pub new-IsWf : IsWf (new {F = F}) []
  unfolding new empty neighbors edge_data_for
  new-IsWf = record {
    nodes = omega arith;
    rows = record { cols = λ r. ground arith; values = λ r. ground arith };
    columns = record { cols = λ r. ground arith; values = λ r. ground arith };
    index = λ id i h. cc;
    live = λ e m. absurd (Memᴰ.not-nil m);
  }

  -- More identifiers at the end do not matter to indices that are known.
  resolve_extend :
      (k : IndexedEdge F → ℕ) (ids more : List ℕ) (es : List (IndexedEdge F))
      → ((e : IndexedEdge F) → Memᴰ e es → (id : ℕ) × (get_elem? ids (k e) ≡ some id))
      → resolve (ids ++ more) (map (λ e. (k e, e.2)) es) ≡ resolve ids (map (λ e. (k e, e.2)) es)
  unfolding resolve
  resolve_extend k ids more [] h = refl
  resolve_extend k ids more (e ∷ es) h =
      let (id, known) = h e (Memᴰ.head refl) in
      let rest = resolve_extend k ids more es (λ x m. h x (Memᴰ.tail m)) in
      ground (arith, get_elem?-append ids more (k e) known)

  pub in_row_nil :
      (t : Bool) (i : ℕ) (es : List (IndexedEdge F))
      → ((e : IndexedEdge F) → Memᴰ e es → row_of t e ≢ i)
      → in_row t i es ≡ []
  in_row_nil t i [] h = refl
  in_row_nil t i (e ∷ es) h =
      let rest = in_row_nil t i es (λ x m. h x (Memᴰ.tail m)) in
      let other = h e (Memᴰ.head refl) in ground arith

  pub in_row_live :
      {P : IndexedEdge F → Type 0} (t : Bool) (i : ℕ) (es : List (IndexedEdge F))
      → ((e : IndexedEdge F) → Memᴰ e es → P e)
      → (e : IndexedEdge F) → Memᴰ e (in_row t i es)
      → P e
  in_row_live t i es h e m = h e ((Memᴰ-retain (λ x. row_of t x == i) e es).0 m).0

  module _ (g : CsrGraph F) (base : List (IndexedEdge F)) (id : ℕ) (wf : IsWf g base)
      (fresh : lookup id g.id_to_idx ≡ none) (room : length g.idx_to_id + 1 < 4294967296) where
    abbrev idx : ℕ
    idx = as_u32 (length g.idx_to_id)

    abbrev grown : CsrGraph F
    grown = record g { id_to_idx = insert id idx g.id_to_idx; idx_to_id = g.idx_to_id ++ id ∷ [] }

    idx_lem : idx ≡ length g.idx_to_id
    idx_lem = omega arith

    grown-IsLive : (i : ℕ) → IsLive g i → IsLive grown i
    grown-IsLive i (x, known, found) = (
      x,
      get_elem?-append g.idx_to_id (id ∷ []) i known,
      ground (arith, lookup-insert id x idx g.id_to_idx),
    )

    grown-IsWf : IsWf grown base
    unfolding is_removed
    grown-IsWf = record {
      nodes = omega (arith, length-append g.idx_to_id (id ∷ []));
      rows = wf.rows;
      columns = wf.columns;
      index = λ x i h. elim (Bool-cases (id == x)) [
        | inl here ↦
            ground
              (arith, lookup-insert id x idx g.id_to_idx, get_elem?-concat g.idx_to_id id, idx_lem)
        | inr other ↦
            get_elem?-append g.idx_to_id (id ∷ []) i
              (wf.index x i (ground (arith, lookup-insert id x idx g.id_to_idx)))
      ];
      live = λ e m. let (s, t) = wf.live e m in (grown-IsLive e.0 s, grown-IsLive e.1 t);
    }

    -- Every neighbour is known before.
    known_target :
        (e : IndexedEdge F) → Memᴰ e (edges g base) → (x : ℕ) × (get_elem? g.idx_to_id e.1 ≡ some x)
    known_target e m = let (x, known, _) = (wf.live e m).1 in (x, known)

    known_source :
        (e : IndexedEdge F) → Memᴰ e (edges g base) → (x : ℕ) × (get_elem? g.idx_to_id e.0 ≡ some x)
    known_source e m = let (x, known, _) = (wf.live e m).0 in (x, known)

    grown_row : (i : ℕ) → outgoing_by_idx grown i ≡ outgoing_by_idx g i
    unfolding is_removed
    grown_row i =
        outgoing_by_idx-in_row grown base i wf.rows
        ∙ (resolve_extend (λ e. e.1) g.idx_to_id (id ∷ []) (in_row false i (edges g base))
              (in_row_live false i (edges g base) known_target)
            ∙ sym (outgoing_by_idx-in_row g base i wf.rows))

    grown_column : (i : ℕ) → incoming_by_idx grown i ≡ incoming_by_idx g i
    unfolding is_removed
    grown_column i =
        incoming_by_idx-in_row grown base i wf.columns
        ∙ (resolve_extend (λ e. e.0) g.idx_to_id (id ∷ []) (in_row true i (edges g base))
              (in_row_live true i (edges g base) known_source)
            ∙ sym (incoming_by_idx-in_row g base i wf.columns))

    -- The new index has no edges.
    fresh_row : (t : Bool) → in_row t (length g.idx_to_id) (edges g base) ≡ []
    fresh_row t = in_row_nil t (length g.idx_to_id) (edges g base) (λ e m.
        let (s, ks) = known_source e m in
        let (d, kd) = known_target e m in
        let ls = lt-length_of_get_elem? g.idx_to_id e.0 ks in
        let ld = lt-length_of_get_elem? g.idx_to_id e.1 kd in
        row_ne t e (omega arith) (omega arith))
      where
        row_ne :
            (b : Bool) (e : IndexedEdge F)
            → e.0 ≢ length g.idx_to_id
            → e.1 ≢ length g.idx_to_id
            → row_of b e ≢ length g.idx_to_id
        row_ne true e h k = k
        row_ne false e h k = h

    -- The rows of the new index hold nothing.
    fresh_outgoing : outgoing_by_idx grown idx ≡ []
    unfolding resolve
    fresh_outgoing =
        grown_row idx ∙ (outgoing_by_idx-in_row g base idx wf.rows ∙ rw (idx_lem, fresh_row false))

    fresh_incoming : incoming_by_idx grown idx ≡ []
    unfolding resolve
    fresh_incoming =
        grown_column idx
        ∙ (incoming_by_idx-in_row g base idx wf.columns ∙ rw (idx_lem, fresh_row true))

    outgoing-grown : (x : ℕ) → outgoing grown x ≡ outgoing g x
    outgoing-grown x =
        let found = lookup-insert id x idx g.id_to_idx in
        elim (Bool-cases (id == x)) [
          | inl here ↦
              outgoing-some grown x (rw here at found)
              ∙ (fresh_outgoing ∙ sym (outgoing-none g x (ground arith)))
          | inr other ↦ elim (Option-cases (lookup x g.id_to_idx)) [
            | inl absent ↦
                outgoing-none grown x (rw (other, absent) at found) ∙ sym (outgoing-none g x absent)
            | inr (i, old) ↦
                outgoing-some grown x (rw (other, old) at found)
                ∙ (grown_row i ∙ sym (outgoing-some g x old))
          ]
        ]

    incoming-grown : (x : ℕ) → incoming grown x ≡ incoming g x
    incoming-grown x =
        let found = lookup-insert id x idx g.id_to_idx in
        elim (Bool-cases (id == x)) [
          | inl here ↦
              incoming-some grown x (rw here at found)
              ∙ (fresh_incoming ∙ sym (incoming-none g x (ground arith)))
          | inr other ↦ elim (Option-cases (lookup x g.id_to_idx)) [
            | inl absent ↦
                incoming-none grown x (rw (other, absent) at found) ∙ sym (incoming-none g x absent)
            | inr (i, old) ↦
                incoming-some grown x (rw (other, old) at found)
                ∙ (grown_column i ∙ sym (incoming-some g x old))
          ]
        ]

  -- What a call that registers a node does to a graph.
  pub record Adds (g g' : CsrGraph F) (base : List (IndexedEdge F)) (id idx : ℕ) : Type 0 where
    pub wf : IsWf g' base
    pub found : lookup id g'.id_to_idx ≡ some idx
    pub others : (x i : ℕ) → lookup x g.id_to_idx ≡ some i → lookup x g'.id_to_idx ≡ some i
    pub same_edges : edges g' base ≡ edges g base
    pub same_outgoing : (x : ℕ) → outgoing g' x ≡ outgoing g x
    pub same_incoming : (x : ℕ) → incoming g' x ≡ incoming g x
    pub grows : length g'.idx_to_id ≤ length g.idx_to_id + 1
    pub kept : length g.idx_to_id ≤ length g'.idx_to_id

  -- Registering a node, with room for one more, keeps a well-formed graph well formed, gives the
  -- node its index, and changes no neighbours, whether the node was there or not.
  pub add_node_lem :
      (g : CsrGraph F) (base : List (IndexedEdge F)) (id : ℕ)
      → IsWf g base
      → length g.idx_to_id + 1 < 4294967296
      → Adds g (add_node g id).0 base id (add_node g id).1
  unfolding add_node is_removed
  add_node_lem g base id wf room = elim (Option-cases (lookup id g.id_to_idx)) [
    | inr (i, old) ↦
        rw (old, add_node)
          (record {
            wf = wf;
            found = old;
            others = λ x j h. h;
            same_edges = refl;
            same_outgoing = λ x. refl;
            same_incoming = λ x. refl;
            grows = omega arith;
            kept = omega arith;
          })
    | inl fresh ↦
        rw (fresh, add_node)
          (record {
            wf = grown-IsWf g base id wf fresh room;
            found = ground (arith, lookup-insert id id (idx g base id wf fresh room) g.id_to_idx);
            others = λ x j h.
                ground (arith, lookup-insert id x (idx g base id wf fresh room) g.id_to_idx);
            same_edges = refl;
            same_outgoing = outgoing-grown g base id wf fresh room;
            same_incoming = incoming-grown g base id wf fresh room;
            grows = omega (arith, length-append g.idx_to_id (id ∷ []));
            kept = omega (arith, length-append g.idx_to_id (id ∷ []));
          })
  ]
