-- ===== src/Graph/Csr/Removal.antt =====
-- What `remove_edge` does to a well-formed graph.
use grasp.Prelude.{
  ℕ, ◌≡◌, refl, sym, ◌∙◌, ◌⊎◌, inl, inr, Bool, true, false, not, ◌&&◌, none, some, List, [], ◌∷◌,
  ◌++◌, map, arith, Memᴰ, ◌==◌, ==_iff, Option-cases, get_elem?, retain, retain-append, any-append,
  retain-retain, retain_all, retain_comm, lookup, Memᴰ-retain,
}
use grasp.Graph.Storage.{StoredEdge, IndexedEdge, row_of}
use grasp.Graph.Storage.Fill.{in_row}
use grasp.Graph.Csr.{
  CsrGraph, is_removed, resolve, outgoing_by_idx, incoming_by_idx, outgoing, incoming, remove_edge,
}
use grasp.Graph.Csr.View.{
  edges, IsWf, outgoing_by_idx-in_row, incoming_by_idx-in_row, outgoing-some, outgoing-none,
  incoming-some, incoming-none,
}

module _ {F : Type 0} where
  -- A filter on edges, seen through the identifiers.
  resolve-retain :
      (ids : List ℕ) (k : IndexedEdge F → ℕ) (p : IndexedEdge F → Bool)
      (q : ℕ × StoredEdge F → Bool) (es : List (IndexedEdge F))
      → ((e : IndexedEdge F)
          → Memᴰ e es
          → (id : ℕ) × (get_elem? ids (k e) ≡ some id) × (p e ≡ q (id, e.2)))
      → resolve ids (map (λ e. (k e, e.2)) (retain p es))
        ≡ retain q (resolve ids (map (λ e. (k e, e.2)) es))
  unfolding resolve
  resolve-retain ids k p q [] h = refl
  resolve-retain ids k p q (e ∷ es) h =
      let (id, known, same) = h e (Memᴰ.head refl) in
      let rest = resolve-retain ids k p q es (λ x m. h x (Memᴰ.tail m)) in ground arith

  -- The operations that only filter edges: the graph `g'` keeps the edges that `p` accepts.
  module _ (g g' : CsrGraph F) (base : List (IndexedEdge F)) (p : IndexedEdge F → Bool)
      (wf : IsWf g base) (wf' : IsWf g' base) (same_ids : g'.idx_to_id ≡ g.idx_to_id)
      (kept : edges g' base ≡ retain p (edges g base)) where
    pub filtered_row :
        (i : ℕ) (q : ℕ × StoredEdge F → Bool)
        → ((e : IndexedEdge F)
            → e.0 ≡ i
            → (id : ℕ) → lookup id g.id_to_idx ≡ some e.1
            → p e ≡ q (id, e.2))
        → outgoing_by_idx g' i ≡ retain q (outgoing_by_idx g i)
    filtered_row i q agree =
        rw
          (
            outgoing_by_idx-in_row g' base i wf'.rows,
            outgoing_by_idx-in_row g base i wf.rows,
            kept,
            same_ids,
            retain_comm (λ e. row_of false e == i) p (edges g base),
          )
          (resolve-retain g.idx_to_id (λ e. e.1) p q (in_row false i (edges g base))
            (λ e m.
              let (m', at) = (Memᴰ-retain (λ x. row_of false x == i) e (edges g base)).0 m in
              let (id, known, found) = (wf.live e m').1 in
              (id, known, agree e ((==_iff e.0 i).0 at) id found)))

    pub filtered_column :
        (i : ℕ) (q : ℕ × StoredEdge F → Bool)
        → ((e : IndexedEdge F)
            → e.1 ≡ i
            → (id : ℕ) → lookup id g.id_to_idx ≡ some e.0
            → p e ≡ q (id, e.2))
        → incoming_by_idx g' i ≡ retain q (incoming_by_idx g i)
    filtered_column i q agree =
        rw
          (
            incoming_by_idx-in_row g' base i wf'.columns,
            incoming_by_idx-in_row g base i wf.columns,
            kept,
            same_ids,
            retain_comm (λ e. row_of true e == i) p (edges g base),
          )
          (resolve-retain g.idx_to_id (λ e. e.0) p q (in_row true i (edges g base))
            (λ e m.
              let (m', at) = (Memᴰ-retain (λ x. row_of true x == i) e (edges g base)).0 m in
              let (id, known, found) = (wf.live e m').0 in
              (id, known, agree e ((==_iff e.1 i).0 at) id found)))

  -- `remove_edge` between registered nodes.
  module _ (g : CsrGraph F) (base : List (IndexedEdge F)) (wf : IsWf g base) (source target s t : ℕ)
      (at_source : lookup source g.id_to_idx ≡ some s)
      (at_target : lookup target g.id_to_idx ≡ some t) where
    abbrev cut : CsrGraph F
    cut = record g {
      removed_edges = g.removed_edges ++ (s, t) ∷ [];
      delta_edges = retain (λ e. not (e.0 == s && e.1 == t)) g.delta_edges;
    }

    is_removed-cut :
        (a b : ℕ) → not (is_removed cut a b) ≡ (not (is_removed g a b) && not (a == s && b == t))
    unfolding is_removed
    is_removed-cut a b =
        ground (arith, any-append (λ p. p.0 == a && p.1 == b) g.removed_edges ((s, t) ∷ []))

    edges-cut : edges cut base ≡ retain (λ e. not (e.0 == s && e.1 == t)) (edges g base)
    edges-cut = simp (is_removed-cut, ← retain-retain, retain-append)

    cut-IsWf : IsWf cut base
    cut-IsWf = record {
      nodes = wf.nodes;
      rows = wf.rows;
      columns = wf.columns;
      index = wf.index;
      live = λ e m.
          wf.live e
            ((Memᴰ-retain (λ e. not (e.0 == s && e.1 == t)) e (edges g base)).0
              (rw edges-cut at m)).0;
    }

    cut_row :
        (x i : ℕ)
        → lookup x g.id_to_idx ≡ some i
        → outgoing_by_idx cut i
          ≡ retain (λ p. not (source == x && p.0 == target)) (outgoing_by_idx g i)
    cut_row x i found =
        filtered_row g cut base (λ e. not (e.0 == s && e.1 == t)) wf cut-IsWf refl edges-cut i
          (λ p. not (source == x && p.0 == target))
          (λ e at id at_id. ground (
            arith,
            wf.index id e.1 at_id,
            wf.index target t at_target,
            wf.index x i found,
            wf.index source s at_source,
          ))

    cut_column :
        (x i : ℕ)
        → lookup x g.id_to_idx ≡ some i
        → incoming_by_idx cut i
          ≡ retain (λ p. not (p.0 == source && target == x)) (incoming_by_idx g i)
    cut_column x i found =
        filtered_column g cut base (λ e. not (e.0 == s && e.1 == t)) wf cut-IsWf refl edges-cut i
          (λ p. not (p.0 == source && target == x))
          (λ e at id at_id. ground (
            arith,
            wf.index id e.0 at_id,
            wf.index target t at_target,
            wf.index x i found,
            wf.index source s at_source,
          ))

  -- What a call that removes the edges from `source` to `target` does to a graph.
  pub record Cuts (g g' : CsrGraph F) (base : List (IndexedEdge F)) (source target : ℕ)
      : Type 0 where
    pub wf : IsWf g' base
    pub from :
        (x : ℕ) → outgoing g' x ≡ retain (λ p. not (source == x && p.0 == target)) (outgoing g x)
    pub to :
        (x : ℕ) → incoming g' x ≡ retain (λ p. not (p.0 == source && target == x)) (incoming g x)

  -- Where an end is not registered there is nothing to remove.
  nothing-Cuts :
      (g : CsrGraph F) (base : List (IndexedEdge F)) (source target : ℕ)
      → IsWf g base
      → (lookup source g.id_to_idx ≡ none) ⊎ (lookup target g.id_to_idx ≡ none)
      → Cuts g g base source target
  nothing-Cuts g base source target wf unknown =
      let all = sym (retain_all (λ _. true) (edges g base) (λ e. refl)) in
      record {
        wf = wf;
        from = λ x. elim (Option-cases (lookup x g.id_to_idx)) [
          | inl absent ↦ rw (outgoing-none g x absent)
          | inr (i, found) ↦ rw (outgoing-some g x found) (
              filtered_row g g base (λ _. true) wf wf refl all i
                (λ p. not (source == x && p.0 == target)) (λ e at id at_id. ground arith))
        ];
        to = λ x. elim (Option-cases (lookup x g.id_to_idx)) [
          | inl absent ↦ rw (incoming-none g x absent)
          | inr (i, found) ↦ rw (incoming-some g x found) (
              filtered_column g g base (λ _. true) wf wf refl all i
                (λ p. not (p.0 == source && target == x)) (λ e at id at_id. ground arith))
        ];
      }

  registered-Cuts :
      (g : CsrGraph F) (base : List (IndexedEdge F)) (source target s t : ℕ) (wf : IsWf g base)
      (at_source : lookup source g.id_to_idx ≡ some s)
      (at_target : lookup target g.id_to_idx ≡ some t)
      → Cuts g (cut g base wf source target s t at_source at_target) base source target
  registered-Cuts g base source target s t wf at_source at_target =
      let g' = cut g base wf source target s t at_source at_target in
      record {
        wf = cut-IsWf g base wf source target s t at_source at_target;
        from = λ x. elim (Option-cases (lookup x g.id_to_idx)) [
          | inl absent ↦ outgoing-none g' x absent ∙ sym (rw (outgoing-none g x absent))
          | inr (i, found) ↦
              outgoing-some g' x found
              ∙ rw (outgoing-some g x found)
                  (cut_row g base wf source target s t at_source at_target x i found)
        ];
        to = λ x. elim (Option-cases (lookup x g.id_to_idx)) [
          | inl absent ↦ incoming-none g' x absent ∙ sym (rw (incoming-none g x absent))
          | inr (i, found) ↦
              incoming-some g' x found
              ∙ rw (incoming-some g x found)
                  (cut_column g base wf source target s t at_source at_target x i found)
        ];
      }

  -- On a well-formed graph `remove_edge` removes exactly the edges from `source` to `target`,
  -- compacted or still in the log, from the neighbours on both sides, and keeps all others in
  -- their order.
  pub remove_edge-Cuts :
      (g : CsrGraph F) (base : List (IndexedEdge F)) (source target : ℕ)
      → IsWf g base
      → Cuts g (remove_edge g source target) base source target
  unfolding remove_edge
  remove_edge-Cuts g base source target wf = elim (Option-cases (lookup source g.id_to_idx)) [
    | inl absent ↦ rw (absent, remove_edge) (nothing-Cuts g base source target wf (inl absent))
    | inr (s, at_source) ↦ elim (Option-cases (lookup target g.id_to_idx)) [
      | inl absent ↦
          rw (at_source, absent, remove_edge) (nothing-Cuts g base source target wf (inr absent))
      | inr (t, at_target) ↦
          rw (at_source, at_target, remove_edge)
            (registered-Cuts g base source target s t wf at_source at_target)
    ]
  ]
