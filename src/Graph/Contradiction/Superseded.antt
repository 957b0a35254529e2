-- ===== src/Graph/Contradiction/Superseded.antt =====
-- `find_superseded` finds what an unbounded breadth-first search along the `Supersedes` edges
-- reports behind its start.
use grasp.Prelude.{
  ℕ, zero, suc, ◌+◌, ◌≤◌, ◌<◌, ◌≡◌, refl, sym, ap, ◌∙◌, subst, inl, inr, false, some, List, [], ◌∷◌,
  ◌++◌, map, append-nil, append_assoc, map-append, arith, leb, Bool-cases, any, retain_congr,
  contains,
}
use mathlib.Core.Path.{fun_ext}
use grasp.Core.Edge.{EdgeType, same_type, supersedes}
use grasp.Graph.Storage.{StoredEdge}
use grasp.Graph.Csr.{CsrGraph, get_idx, outgoing}
use grasp.Graph.Traversal.{
  Search, push_new, search_loop, start_at, results, targets, enough, of_types, bfs_filtered,
}
use grasp.Graph.Traversal.Trace.{trace}
use grasp.Graph.Traversal.Discovery.{queue_cases}
use grasp.Graph.Traversal.Fuel.{unseen-le, search_loop_ends}
use grasp.Graph.Traversal.Reach.{targets-outgoing, targets-of_types}
use grasp.Graph.Contradiction.{Superseding, note_new, superseded_loop, only, find_superseded}

abbrev nodes : List (ℕ × ℕ) → List ℕ
nodes = map (λ p. p.0)

-- The state beside a search with depths.
abbrev beside : Search → List ℕ → Superseding
beside s result = record { result = result; visited = s.visited; queue = nodes s.queue }

abbrev NoDeeper : ℕ → List (ℕ × ℕ) → Type 0
NoDeeper bound [] = Unit
NoDeeper bound ((v, d) ∷ queue) = (d ≤ bound) × NoDeeper bound queue

NoDeeper-raise :
    (bound : ℕ) (queue : List (ℕ × ℕ)) → NoDeeper bound queue → NoDeeper (bound + 1) queue
NoDeeper-raise bound [] h = tt
NoDeeper-raise bound ((v, d) ∷ queue) h = (omega (arith, h.0), NoDeeper-raise bound queue h.1)

NoDeeper-concat :
    (bound v d : ℕ) (queue : List (ℕ × ℕ))
    → d ≤ bound
    → NoDeeper bound queue
    → NoDeeper bound (queue ++ (v, d) ∷ [])
NoDeeper-concat bound v d [] le h = (le, tt)
NoDeeper-concat bound v d ((x, k) ∷ queue) le h = (h.0, NoDeeper-concat bound v d queue le h.1)

module _ (id : ℕ) where
  note_new-push_new :
      (bound depth : ℕ) (s : Search) (result ns : List ℕ)
      → depth < bound
      → NoDeeper bound s.queue
      → id ∷ result ≡ nodes (trace s)
      → (later : List ℕ) × (note_new (beside s result) ns ≡ beside (push_new depth s ns) later)
        × (id ∷ later ≡ nodes (trace (push_new depth s ns)))
        × NoDeeper bound (push_new depth s ns).queue
  unfolding note_new push_new
  note_new-push_new bound depth s result [] lt low same = (result, refl, same, low)
  note_new-push_new bound depth s result (v ∷ ns) lt low same =
      elim (Bool-cases (contains s.visited v)) [
        | inl old ↦
            rw (old, note_new, push_new) (note_new-push_new bound depth s result ns lt low same)
        | inr fresh ↦
            let met : Search = record s {
              visited = s.visited ++ v ∷ [];
              queue = s.queue ++ (v, depth + 1) ∷ [];
            } in
            let queued : nodes s.queue ++ v ∷ [] ≡ nodes met.queue =
              sym (map-append (λ p. p.0) s.queue ((v, depth + 1) ∷ [])) in
            let noted : id ∷ (result ++ v ∷ []) ≡ nodes (trace met) =
              ap (λ xs. xs ++ v ∷ []) same
              ∙ (sym (map-append (λ p. p.0) (trace s) ((v, depth + 1) ∷ []))
                  ∙ ap nodes (append_assoc s.result s.queue ((v, depth + 1) ∷ []))) in
            rw (fresh, note_new, push_new, queued)
              (note_new-push_new bound depth met (result ++ v ∷ []) ns lt
                (NoDeeper-concat bound v (depth + 1) s.queue (omega arith) low) noted)
      ]

  nodes_at_end :
      (s t : Search) (result : List ℕ)
      → s.queue ≡ []
      → id ∷ result ≡ nodes (trace s)
      → some s ≡ some t
      → nodes t.result ≡ id ∷ result
  nodes_at_end s t result empty same ends =
      let e : s ≡ t = cc in
      subst (λ x. nodes x.result ≡ id ∷ result) e
        (sym (same ∙ ap nodes (ap (λ q. s.result ++ q) empty ∙ append-nil s.result)))

  -- Where no depth reaches `max_depth`, the loops run alongside each other.
  superseded_loop-search_loop :
      (next : ℕ → List ℕ) (max_depth fuel bound : ℕ) (s t : Search) (result : List ℕ)
      → NoDeeper bound s.queue
      → bound + fuel ≤ max_depth
      → id ∷ result ≡ nodes (trace s)
      → search_loop next max_depth fuel s ≡ some t
      → (found : List ℕ) × (superseded_loop next fuel (beside s result) ≡ some found)
        × (nodes t.result ≡ id ∷ found)
  unfolding superseded_loop search_loop
  superseded_loop-search_loop next max_depth zero bound s t result low deep same ends =
      elim (queue_cases s.queue) [
        | inl empty ↦ (
          result,
          rw (empty, superseded_loop) refl,
          nodes_at_end s t result empty same (rw (empty, search_loop) at ends),
        )
        | inr (u, d, rest, e) ↦ absurd (ground arith)
      ]
  superseded_loop-search_loop next max_depth (suc fuel) bound s t result low deep same ends =
      elim (queue_cases s.queue) [
        | inl empty ↦ (
          result,
          rw (empty, superseded_loop) refl,
          nodes_at_end s t result empty same (rw (empty, search_loop) at ends),
        )
        | inr (u, d, rest, e) ↦
            let low' : NoDeeper bound ((u, d) ∷ rest) = rw e at low in
            let popped : Search = record s { queue = rest; result = s.result ++ (u, d) ∷ [] } in
            let (later, notes, same', low'') =
              note_new-push_new (bound + 1) d popped result (next u) (omega (arith, low'.0))
                (NoDeeper-raise bound rest low'.1)
                (same
                  ∙ (ap (λ q. nodes (s.result ++ q)) e
                      ∙ ap nodes (sym (append_assoc s.result ((u, d) ∷ []) rest)))) in
            let shallow : leb max_depth d ≡ false = ground (arith, low'.0) in
            let (found, returns, all) =
              superseded_loop-search_loop next max_depth fuel (bound + 1)
                (push_new d popped (next u)) t later low'' (omega arith) same'
                (rw (e, search_loop, shallow) at ends) in
            (found, rw (e, superseded_loop, notes) returns, all)
      ]

module _ {F : Type 0} where
  only-of_types :
      (edge_type : EdgeType) (xs : List (ℕ × StoredEdge F))
      → only edge_type xs ≡ of_types (edge_type ∷ []) xs
  only-of_types edge_type xs =
      retain_congr (λ p. same_type p.1.edge_type edge_type)
        (λ p. any (same_type p.1.edge_type) (edge_type ∷ [])) xs (λ p. ground arith)

  -- For a node of the graph `find_superseded` ends, and returns in order the nodes that
  -- `bfs_filtered` along `Supersedes` edges reports behind its start, for every depth limit beyond
  -- the number of nodes.
  pub find_superseded-bfs_filtered :
      (g : CsrGraph F) (id max_depth : ℕ) {idx : ℕ}
      → get_idx g id ≡ some idx
      → enough g ≤ max_depth
      → (found : List ℕ) × (whole : List (ℕ × ℕ)) × (find_superseded g id ≡ some found)
        × (bfs_filtered g id max_depth (supersedes ∷ []) ≡ some whole)
        × (map (λ p. p.0) whole ≡ id ∷ found)
  unfolding find_superseded bfs_filtered
  find_superseded-bfs_filtered g id max_depth known le =
      let next = λ (u : ℕ). targets (only supersedes (outgoing g u)) in
      let next' = λ (u : ℕ). targets (of_types (supersedes ∷ []) (outgoing g u)) in
      let (t, ends) =
        search_loop_ends g.idx_to_id next' max_depth
          (λ u v m. targets-outgoing g u v (targets-of_types (supersedes ∷ []) v (outgoing g u) m))
          (enough g) (start_at id) (omega (arith, unseen-le (id ∷ []) g.idx_to_id)) in
      let (found, returns, all) =
        superseded_loop-search_loop id next' max_depth (enough g) 0 (start_at id) t []
          (omega arith, tt) (omega arith) refl ends in
      let alike : next ≡ next' =
        fun_ext (λ u. ap targets (only-of_types supersedes (outgoing g u))) in
      (
        found,
        t.result,
        ap (λ n. superseded_loop n (enough g) (beside (start_at id) [])) alike ∙ returns,
        rw (known, bfs_filtered) (ap results ends),
        all,
      )
