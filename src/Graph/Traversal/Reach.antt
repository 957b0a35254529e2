-- ===== src/Graph/Traversal/Reach.antt =====
-- `bfs`, `bfs_filtered` and `extract_subgraph` on a graph.
use grasp.Prelude.{
  ℕ, zero, suc, ◌≡◌, refl, sym, ap, subst, ◌↔◌, inl, inr, true, some, List, [], ◌∷◌, map, arith,
  Memᴰ, Bool-cases, Option-cases, get_elem?, any, lookup, contains, Memᴰ-append, Memᴰ-retain,
}
use mathlib.Core.List.Memᴰ
use grasp.Core.Edge.{EdgeType, same_type, MemoryEdge}
use grasp.Graph.Storage.{StoredEdge}
use grasp.Graph.Csr.{CsrGraph, get_idx, resolve, outgoing_by_idx, outgoing}
use grasp.Graph.Csr.View.{resolve-append}
use grasp.Graph.Traversal.{
  search_loop, start_at, results, targets, enough, bfs, of_types, bfs_filtered, extract_subgraph,
  edges_within, to_memory_edge,
}
use grasp.Graph.Traversal.Correct.{Shortest, search_loop-Shortest}
use grasp.Graph.Traversal.Fuel.{unseen-le, search_loop_ends}

contains_of_get_elem? :
    (ids : List ℕ) (i : ℕ) {id : ℕ} → get_elem? ids i ≡ some id → contains ids id ≡ true
contains_of_get_elem? [] i h = cc
contains_of_get_elem? (x ∷ xs) zero h = ground arith
contains_of_get_elem? (x ∷ xs) (suc i) h = ground (arith, contains_of_get_elem? xs i h)

module _ {F : Type 0} where
  targets-resolve :
      (ids : List ℕ) (v : ℕ) (xs : List (ℕ × StoredEdge F))
      → Memᴰ v (targets (resolve ids xs))
      → contains ids v ≡ true
  unfolding resolve
  targets-resolve ids v [] m = absurd (Memᴰ.not-nil m)
  targets-resolve ids v ((i, d) ∷ xs) m = elim (Option-cases (get_elem? ids i)) [
    | inl unknown ↦ targets-resolve ids v xs (rw (unknown, resolve) at m)
    | inr (id, known) ↦ elim (Memᴰ.cases_cons (rw (known, resolve) at m)) [
      | inl same ↦ rw same (contains_of_get_elem? ids i known)
      | inr later ↦ targets-resolve ids v xs later
    ]
  ]

  outgoing_by_idx-resolve :
      (g : CsrGraph F) (i : ℕ)
      → (xs : List (ℕ × StoredEdge F)) × (outgoing_by_idx g i ≡ resolve g.idx_to_id xs)
  unfolding outgoing_by_idx
  outgoing_by_idx-resolve g i = (_, sym (resolve-append g.idx_to_id _ _))

  -- Every target is a node of the graph.
  pub targets-outgoing :
      (g : CsrGraph F) (u v : ℕ) → Memᴰ v (targets (outgoing g u)) → contains g.idx_to_id v ≡ true
  unfolding outgoing
  targets-outgoing g u v m = elim (Option-cases (lookup u g.id_to_idx)) [
    | inl absent ↦ absurd (Memᴰ.not-nil (rw (absent, outgoing) at m))
    | inr (i, found) ↦
        let (xs, e) = outgoing_by_idx-resolve g i in
        targets-resolve g.idx_to_id v xs (rw (found, outgoing, e) at m)
  ]

  pub targets-of_types :
      (kinds : List EdgeType) (v : ℕ) (xs : List (ℕ × StoredEdge F))
      → Memᴰ v (targets (of_types kinds xs))
      → Memᴰ v (targets xs)
  targets-of_types kinds v [] m = m
  targets-of_types kinds v (x ∷ xs) m = elim (Bool-cases (any (same_type x.1.edge_type) kinds)) [
    | inl kept ↦ elim (Memᴰ.cases_cons (rw kept at m)) [
      | inl same ↦ Memᴰ.head same
      | inr later ↦ Memᴰ.tail (targets-of_types kinds v xs later)
    ]
    | inr dropped ↦ Memᴰ.tail (targets-of_types kinds v xs (rw dropped at m))
  ]

  module _ (g : CsrGraph F) (next : ℕ → List ℕ) (start max_depth : ℕ) where
    searched :
        ((u v : ℕ) → Memᴰ v (next u) → contains g.idx_to_id v ≡ true)
        → (found : List (ℕ × ℕ)) × (results (search_loop next max_depth (enough g) (start_at start))
            ≡ some found)
          × Shortest next start max_depth found
    searched known =
        let (t, ends) =
          search_loop_ends g.idx_to_id next max_depth known (enough g) (start_at start)
            (omega (arith, unseen-le (start ∷ []) g.idx_to_id)) in
        (t.result, ap results ends, search_loop-Shortest next start max_depth (enough g) t ends)

  -- From a node of the graph `bfs` returns exactly the nodes that a walk of at most `max_depth`
  -- edges reaches, each once, and each with the length of its shortest walk.
  pub bfs-Shortest :
      (g : CsrGraph F) (start max_depth : ℕ) {idx : ℕ}
      → get_idx g start ≡ some idx
      → (found : List (ℕ × ℕ)) × (bfs g start max_depth ≡ some found)
        × Shortest (λ u. targets (outgoing g u)) start max_depth found
  unfolding bfs
  bfs-Shortest g start max_depth known =
      let (found, e, shortest) =
        searched g (λ u. targets (outgoing g u)) start max_depth (targets-outgoing g) in
      (found, rw (known, bfs) e, shortest)

  -- From a node of the graph `bfs_filtered` returns exactly the nodes that a walk of at most
  -- `max_depth` edges of the given types reaches, each once, with the length of its shortest walk.
  pub bfs_filtered-Shortest :
      (g : CsrGraph F) (start max_depth : ℕ) (edge_filter : List EdgeType) {idx : ℕ}
      → get_idx g start ≡ some idx
      → (found : List (ℕ × ℕ)) × (bfs_filtered g start max_depth edge_filter ≡ some found)
        × Shortest (λ u. targets (of_types edge_filter (outgoing g u))) start max_depth found
  unfolding bfs_filtered
  bfs_filtered-Shortest g start max_depth edge_filter known =
      let (found, e, shortest) =
        searched g (λ u. targets (of_types edge_filter (outgoing g u))) start max_depth
          (λ u v m. targets-outgoing g u v (targets-of_types edge_filter v (outgoing g u) m)) in
      (found, rw (known, bfs_filtered) e, shortest)

  -- Edge `e` leaves a node of `nodes` and enters one of `node_set`.
  abbrev pub Inside : CsrGraph F → List ℕ → List ℕ → MemoryEdge F → Type 0
  Inside g node_set nodes e =
      (u : ℕ) × (p : ℕ × StoredEdge F) × Memᴰ u nodes
      × Memᴰ p (outgoing g u)
      × (contains node_set p.0 ≡ true)
      × (e ≡ to_memory_edge u p)

  module _ (g : CsrGraph F) (node_set : List ℕ) (e : MemoryEdge F) where
    edges_within-Inside :
        (nodes : List ℕ) → Memᴰ e (edges_within g node_set nodes) → Inside g node_set nodes e
    unfolding edges_within
    edges_within-Inside [] m = absurd (Memᴰ.not-nil m)
    edges_within-Inside (u ∷ nodes) m =
        elim ((Memᴰ-append e _ (edges_within g node_set nodes)).0 m) [
          | inl own ↦
              let (p, kept, same) = Memᴰ.of_map (to_memory_edge u) _ own in
              let (there, inside) =
                (Memᴰ-retain (λ p. contains node_set p.0) p (outgoing g u)).0 kept in
              (u, p, Memᴰ.head refl, there, inside, sym same)
          | inr later ↦
              let (v, p, there, out, inside, same) = edges_within-Inside nodes later in
              (v, p, Memᴰ.tail there, out, inside, same)
        ]

    Inside-edges_within :
        (nodes : List ℕ) → Inside g node_set nodes e → Memᴰ e (edges_within g node_set nodes)
    unfolding edges_within
    Inside-edges_within [] w = absurd (Memᴰ.not-nil w.2)
    Inside-edges_within (u ∷ nodes) (v, p, there, out, inside, same) =
        (Memᴰ-append e _ (edges_within g node_set nodes)).1 (elim (Memᴰ.cases_cons there) [
          | inl own ↦
              let kept =
                (Memᴰ-retain (λ p. contains node_set p.0) p (outgoing g u)).1
                  (subst (λ n. Memᴰ p (outgoing g n)) own out, inside) in
              inl (rw (same, own) (Memᴰ.map (to_memory_edge u) kept))
          | inr later ↦ inr (Inside-edges_within nodes (v, p, later, out, inside, same))
        ])

  -- The nodes of the subgraph around a node of the graph are those that `bfs` finds, and its edges
  -- are the edges of the graph between two of them.
  pub extract_subgraph-Inside :
      (g : CsrGraph F) (center radius : ℕ) {idx : ℕ}
      → get_idx g center ≡ some idx
      → (found : List (ℕ × ℕ)) × (kept : List (MemoryEdge F)) × (extract_subgraph g center radius
          ≡ some (map (λ p. p.0) found, kept))
        × Shortest (λ u. targets (outgoing g u)) center radius found
        × ((e : MemoryEdge F)
            → Memᴰ e kept ↔ Inside g (map (λ p. p.0) found) (map (λ p. p.0) found) e)
  unfolding extract_subgraph
  extract_subgraph-Inside g center radius known =
      let (found, e, shortest) = bfs-Shortest g center radius known in
      let nodes = map (λ p. p.0) found in
      (
        found,
        edges_within g nodes nodes,
        rw (e, extract_subgraph) refl,
        shortest,
        λ edge. (edges_within-Inside g nodes edge nodes, Inside-edges_within g nodes edge nodes),
      )
