-- ===== src/Graph/Belief/Affected.antt =====
-- Which nodes a change of belief affects: those that a breadth-first search along the propagating
-- edges reports.
use grasp.Prelude.{
  ℕ, zero, suc, ◌+◌, ◌≡◌, refl, sym, ap, ◌∙◌, ◌⊎◌, inl, inr, true, false, Option, some, List, [],
  ◌∷◌, ◌++◌, map, append-nil, map-append, arith, leb, ◌==◌, ==_iff, Bool-cases, Option-cases, any,
  HashMap, lookup, insert, lookup-insert, is_some, contains, contains-append,
}
use grasp.Prelude.{any}
use grasp.Core.Float32.{Float32}
use grasp.Core.Edge.{
  EdgeType, MemoryId, same_type, caused, supports, contradicts, supersedes, before, related,
  derived, part_of,
}
use grasp.Graph.Storage.{StoredEdge}
use grasp.Graph.Csr.{CsrGraph, get_idx, outgoing}
use grasp.Graph.Traversal.{
  Search, push_new, search_loop, start_at, results, targets, enough, of_types, bfs_filtered,
}
use grasp.Graph.Traversal.Correct.{loop-Inv, start-Inv}
use grasp.Graph.Traversal.Fuel.{unseen-le, search_loop_ends}
use grasp.Graph.Traversal.Reach.{targets-outgoing, targets-of_types}
use grasp.Graph.Belief.{
  PropagationConfig, Propagation, new_confidence, spread, propagation_loop,
  propagate_update_with_config,
}

-- The types of edges that propagate belief.
abbrev pub spreading : List EdgeType
spreading = caused ∷ supports ∷ contradicts ∷ supersedes ∷ []

module _ {F : Type 0} (fl : Float32 F) (config : PropagationConfig F) where
  -- A confidence is computed for the edges of four types.
  is_some-new_confidence :
      (c : F) (known : Option F) (edge : StoredEdge F) (t : EdgeType)
      → edge.edge_type ≡ t
      → is_some (new_confidence fl config c known edge) ≡ any (same_type edge.edge_type) spreading
  unfolding new_confidence
  is_some-new_confidence c known edge caused e = rw (e, new_confidence) refl
  is_some-new_confidence c known edge supports e = rw (e, new_confidence) refl
  is_some-new_confidence c known edge contradicts e = rw (e, new_confidence) refl
  is_some-new_confidence c known edge supersedes e = rw (e, new_confidence) refl
  is_some-new_confidence c known edge before e = rw (e, new_confidence) refl
  is_some-new_confidence c known edge related e = rw (e, new_confidence) refl
  is_some-new_confidence c known edge derived e = rw (e, new_confidence) refl
  is_some-new_confidence c known edge part_of e = rw (e, new_confidence) refl

  abbrev places : List (ℕ × F × ℕ) → List (ℕ × ℕ)
  places = map (λ q. (q.0, q.2))

  -- The state beside a search along the spreading edges.
  record Agrees (p : Propagation F) (s : Search) : Type 0 where
    visited : p.visited ≡ s.visited
    queue : places p.queue ≡ s.queue
    told : (v : ℕ) → is_some (lookup v p.confidences) ≡ contains p.visited v

  spread-Agrees :
      (c : F) (depth : ℕ) (p : Propagation F) (s : Search) (xs : List (ℕ × StoredEdge F))
      → Agrees p s
      → Agrees (spread fl config c depth p xs) (push_new depth s (targets (of_types spreading xs)))
  unfolding spread push_new
  spread-Agrees c depth p s [] agrees = agrees
  spread-Agrees c depth p s ((v, edge) ∷ xs) agrees =
      let spreads = is_some-new_confidence c (lookup v p.confidences) edge edge.edge_type refl in
      elim (Option-cases (new_confidence fl config c (lookup v p.confidences) edge)) [
        | inl stays ↦
            let other : any (same_type edge.edge_type) spreading ≡ false =
              sym spreads ∙ ap is_some stays in
            rw (other, stays, spread) (spread-Agrees c depth p s xs agrees)
        | inr (c', gives) ↦
            let kind : any (same_type edge.edge_type) spreading ≡ true =
              sym spreads ∙ ap is_some gives in
            let p' = record p { confidences = insert v c' p.confidences } in
            let set = λ (x : ℕ). lookup-insert v x c' p.confidences in
            let same = ap (λ xs. contains xs v) agrees.visited in
            elim (Bool-cases (contains p.visited v)) [
              | inl old ↦
                  let old' = sym same ∙ old in
                  rw (kind, gives, spread, push_new, old, old')
                    (spread-Agrees c depth p' s xs (record {
                      visited = agrees.visited;
                      queue = agrees.queue;
                      told = λ x. elim (Bool-cases (v == x)) [
                        | inl hit ↦
                            let e = ap (contains p.visited) ((==_iff v x).0 hit) in
                            ground (arith, set x)
                        | inr other ↦ ground (arith, set x, agrees.told x)
                      ];
                    }))
              | inr fresh ↦
                  let fresh' = sym same ∙ fresh in
                  rw (kind, gives, spread, push_new, fresh, fresh')
                    (spread-Agrees c depth
                      (record p' {
                        visited = p.visited ++ v ∷ [];
                        queue = p.queue ++ (v, c', depth + 1) ∷ [];
                      })
                      (record s {
                        visited = s.visited ++ v ∷ [];
                        queue = s.queue ++ (v, depth + 1) ∷ [];
                      })
                      xs
                      (record {
                        visited = ap (λ xs. xs ++ v ∷ []) agrees.visited;
                        queue =
                            map-append (λ q. (q.0, q.2)) p.queue ((v, c', depth + 1) ∷ [])
                            ∙ ap (λ q. q ++ (v, depth + 1) ∷ []) agrees.queue;
                        told = λ x.
                            ground
                              (arith, set x, agrees.told x, contains-append p.visited (v ∷ []) x);
                      }))
            ]
      ]

  triple_cases :
      (q : List (ℕ × F × ℕ))
      → (q ≡ [])
        ⊎ ((u : ℕ) × (c : F) × (d : ℕ) × (rest : List (ℕ × F × ℕ)) × (q ≡ (u, c, d) ∷ rest))
  triple_cases [] = inl refl
  triple_cases ((u, c, d) ∷ rest) = inr (u, c, d, rest, refl)

  -- The loops run alongside each other.
  propagation_loop-search_loop :
      (g : CsrGraph F) (fuel : ℕ) (p : Propagation F) (s t : Search)
      → Agrees p s
      → search_loop (λ u. targets (of_types spreading (outgoing g u))) config.max_depth fuel s
        ≡ some t
      → (after : HashMap F) × (propagation_loop fl g config fuel p ≡ some after)
        × ((v : ℕ) → is_some (lookup v after) ≡ contains t.visited v)
  unfolding propagation_loop search_loop
  propagation_loop-search_loop g zero p s t agrees ends = elim (triple_cases p.queue) [
    | inl empty ↦
        let empty' : s.queue ≡ [] = sym agrees.queue ∙ ap places empty in
        let ended : some s ≡ some t = rw (empty', search_loop) at ends in
        let e : s ≡ t = cc in
        (
          p.confidences,
          rw (empty, propagation_loop) refl,
          λ v. agrees.told v ∙ ap (λ xs. contains xs v) (agrees.visited ∙ ap (λ x. x.visited) e),
        )
    | inr (u, c, d, rest, e) ↦
        let e' : s.queue ≡ (u, d) ∷ places rest = sym agrees.queue ∙ ap places e in
        absurd (ground arith)
  ]
  propagation_loop-search_loop g (suc fuel) p s t agrees ends = elim (triple_cases p.queue) [
    | inl empty ↦
        let empty' : s.queue ≡ [] = sym agrees.queue ∙ ap places empty in
        let ended : some s ≡ some t = rw (empty', search_loop) at ends in
        let e : s ≡ t = cc in
        (
          p.confidences,
          rw (empty, propagation_loop) refl,
          λ v. agrees.told v ∙ ap (λ xs. contains xs v) (agrees.visited ∙ ap (λ x. x.visited) e),
        )
    | inr (u, c, d, rest, e) ↦
        let e' : s.queue ≡ (u, d) ∷ places rest = sym agrees.queue ∙ ap places e in
        let p' : Propagation F = record p { queue = rest } in
        let s' : Search = record s { queue = places rest; result = s.result ++ (u, d) ∷ [] } in
        let agrees' : Agrees p' s' = record {
          visited = agrees.visited;
          queue = refl;
          told = agrees.told;
        } in
        elim (Bool-cases (leb config.max_depth d)) [
          | inl deep ↦
              let (after, returns, same) =
                propagation_loop-search_loop g fuel p' s' t agrees'
                  (rw (e', search_loop, deep) at ends) in
              (after, rw (e, propagation_loop, deep) returns, same)
          | inr shallow ↦
              let (after, returns, same) =
                propagation_loop-search_loop g fuel (spread fl config c d p' (outgoing g u))
                  (push_new d s' (targets (of_types spreading (outgoing g u)))) t
                  (spread-Agrees c d p' s' (outgoing g u) agrees')
                  (rw (e', search_loop, shallow) at ends) in
              (after, rw (e, propagation_loop, shallow) returns, same)
        ]
  ]

  -- A change of belief in a node of the graph always comes to an end, and it gives a confidence to
  -- exactly the nodes that `bfs_filtered` reports along the edges of the four types that propagate
  -- belief, under the same limit on the depth.
  pub propagate_update_with_config-bfs_filtered :
      (g : CsrGraph F) (changed_id : MemoryId) (confidence : F) {idx : ℕ}
      → get_idx g changed_id ≡ some idx
      → (after : HashMap F) × (whole : List (ℕ × ℕ)) × (propagate_update_with_config fl g changed_id
            confidence config
          ≡ some after)
        × (bfs_filtered g changed_id config.max_depth spreading ≡ some whole)
        × ((v : MemoryId) → is_some (lookup v after) ≡ is_some (lookup v whole))
  unfolding propagate_update_with_config bfs_filtered
  propagate_update_with_config-bfs_filtered g changed_id confidence known =
      let next = λ (u : ℕ). targets (of_types spreading (outgoing g u)) in
      let (t, ends) =
        search_loop_ends g.idx_to_id next config.max_depth
          (λ u v m. targets-outgoing g u v (targets-of_types spreading v (outgoing g u) m))
          (enough g) (start_at changed_id)
          (omega (arith, unseen-le (changed_id ∷ []) g.idx_to_id)) in
      let p₀ : Propagation F = record {
        confidences = insert changed_id confidence [];
        queue = (changed_id, confidence, 0) ∷ [];
        visited = changed_id ∷ [];
      } in
      let (after, returns, same) =
        propagation_loop-search_loop g (enough g) p₀ (start_at changed_id) t
          (record { visited = refl; queue = refl; told = λ v. ground arith }) ends in
      let (inv, empty) =
        loop-Inv next changed_id config.max_depth (enough g) (start_at changed_id) t
          (start-Inv next changed_id config.max_depth) ends in
      (
        after,
        t.result,
        rw (known, propagate_update_with_config) returns,
        rw (known, bfs_filtered) (ap results ends),
        λ v.
            same v
            ∙ (inv.mid.seen v
                ∙ ap (λ xs. is_some (lookup v xs))
                    (ap (λ q. t.result ++ q) empty ∙ append-nil t.result)),
      )
