-- ===== src/Graph/Cycles/Sound.antt =====
-- Every cycle that is found is one, and the search ends.
use grasp.Prelude.{
  ℕ, zero, suc, ◌+◌, ◌≤◌, ◌≡◌, refl, sym, ap, ◌∙◌, subst, ◌⊎◌, inl, inr, true, some, List, [], ◌∷◌,
  ◌++◌, arith, Memᴰ, ◌==◌, ==_iff, Bool-cases, Option-cases, length, drop, any, contains,
  with_element, All,
}
use grasp.Prelude.{any}
use grasp.Core.Edge.{EdgeType}
use grasp.Graph.Csr.{CsrGraph, outgoing}
use grasp.Graph.Traversal.{targets, of_types, enough}
use grasp.Graph.Traversal.Fuel.{unseen, unseen-le, unseen-concat-lt}
use grasp.Graph.Traversal.Reach.{targets-outgoing, targets-of_types}
use grasp.Graph.ShortestPath.Chain.{Steps}
use grasp.Graph.Cycles.{
  CycleSearch, node_ids, position, one_later, equivalent, close_cycle, push_path, visit_edges,
  cycle_loop, begin_at, starts_loop, detect_cycles,
}

module _ (next : ℕ → List ℕ) where
  Steps-concat :
      (u : ℕ) (ws : List ℕ) (v w : ℕ)
      → Steps next u ws v
      → Memᴰ w (next v)
      → Steps next u (ws ++ w ∷ []) w
  Steps-concat u [] v w e m = (subst (λ x. Memᴰ w (next x)) (sym e) m, refl)
  Steps-concat u (x ∷ ws) v w h m = (h.0, Steps-concat x ws v w h.1 m)

  -- Edges lead along the list to its last node.
  abbrev pub PathTo : List ℕ → ℕ → Type 0
  PathTo path v = (u : ℕ) × (ws : List ℕ) × (path ≡ u ∷ ws) × Steps next u ws v

  -- The part of a path from a node on it.
  abbrev Suffix : List ℕ → ℕ → ℕ → Type 0
  Suffix path n v = (rest : List ℕ) × (path ≡ n ∷ rest) × Steps next n rest v

  Suffix_here :
      (u : ℕ) (ws : List ℕ) (v n i : ℕ)
      → Steps next u ws v
      → u ≡ n
      → 0 ≡ i
      → Suffix (drop i (u ∷ ws)) n v
  Suffix_here u ws v n i h e z =
      subst (λ k. Suffix (drop k (u ∷ ws)) n v) z
        (ws, ap (λ x. x ∷ ws) e, subst (λ x. Steps next x ws v) e h)

  Steps-drop :
      (u : ℕ) (ws : List ℕ) (v n i : ℕ)
      → Steps next u ws v
      → position (u ∷ ws) n ≡ some i
      → Suffix (drop i (u ∷ ws)) n v
  unfolding position
  Steps-drop u [] v n i h found = elim (Bool-cases (u == n)) [
    | inl same ↦ Suffix_here u [] v n i h ((==_iff u n).0 same) (ground arith)
    | inr other ↦ absurd (ground arith)
  ]
  Steps-drop u (x ∷ ws) v n i h found = elim (Bool-cases (u == n)) [
    | inl same ↦
        let hit : some 0 ≡ some i = rw (same, position) at found in
        Suffix_here u (x ∷ ws) v n i h ((==_iff u n).0 same) (ground arith)
    | inr other ↦
        let behind : one_later (position (x ∷ ws) n) ≡ some i = rw (other, position) at found in
        elim (Option-cases (position (x ∷ ws) n)) [
          | inl absent ↦ absurd (ground (arith, rw absent at behind))
          | inr (k, there) ↦
              let hit : some (suc k) ≡ some i = rw there at behind in
              let e : suc k ≡ i = ground arith in
              subst (λ m. Suffix (drop m (u ∷ x ∷ ws)) n v) e (Steps-drop x ws v n k h.1 there)
        ]
  ]

  -- A closed walk along edges, as the list of its nodes: the last one leads back to the first.
  abbrev pub IsCycle : List ℕ → Type 0
  IsCycle cycle =
      (u : ℕ) × (ws : List ℕ) × (v : ℕ) × (cycle ≡ u ∷ ws) × Steps next u ws v × Memᴰ u (next v)

  -- An edge back to a node of the path closes a cycle.
  drop-IsCycle :
      (path : List ℕ) (v n i : ℕ)
      → PathTo path v
      → Memᴰ n (next v)
      → position path n ≡ some i
      → IsCycle (drop i path)
  drop-IsCycle path v n i (u, ws, e, steps) edge found =
      let (rest, dropped, walk) =
        Steps-drop u ws v n i steps (ap (λ p. position p n) (sym e) ∙ found) in
      (n, rest, v, ap (drop i) e ∙ dropped, walk, edge)

  All-concat :
      (cycles : List (List ℕ)) (c : List ℕ)
      → All IsCycle cycles
      → IsCycle c
      → All IsCycle (cycles ++ c ∷ [])
  All-concat [] c all real = (real, tt)
  All-concat (x ∷ cycles) c all real = (all.0, All-concat cycles c all.1 real)

  abbrev Waiting : List (ℕ × List ℕ) → Type 0
  Waiting stack = All (λ p. PathTo p.1 p.0) stack

  abbrev todo : List ℕ → CycleSearch → ℕ
  todo ids s = unseen s.local_visited ids + length s.stack

  record Step (ids : List ℕ) (s t : CycleSearch) : Type 0 where
    real : All IsCycle t.cycles
    paths : Waiting t.stack
    less : todo ids t ≤ todo ids s

  close_cycle-Step :
      (ids path : List ℕ) (v n : ℕ) (s : CycleSearch)
      → All IsCycle s.cycles
      → Waiting s.stack
      → PathTo path v
      → Memᴰ n (next v)
      → Step ids s (close_cycle path n s)
  unfolding close_cycle
  close_cycle-Step ids path v n s real paths path_to edge = elim (Option-cases (position path n)) [
    | inl absent ↦
        rw (absent, close_cycle) (record { real = real; paths = paths; less = omega arith })
    | inr (i, found) ↦ elim (Bool-cases (any (equivalent (drop i path)) s.cycles)) [
      | inl old ↦
          rw (found, close_cycle, old) (record { real = real; paths = paths; less = omega arith })
      | inr fresh ↦
          rw (found, close_cycle, fresh)
            (record {
              real =
                  All-concat s.cycles (drop i path) real
                    (drop-IsCycle path v n i path_to edge found);
              paths = paths;
              less = omega arith;
            })
    ]
  ]

  visit_edges-Step :
      (ids path : List ℕ) (v : ℕ) (s : CycleSearch) (ns : List ℕ)
      → All IsCycle s.cycles
      → Waiting s.stack
      → PathTo path v
      → ((n : ℕ) → Memᴰ n ns → Memᴰ n (next v) × (contains ids n ≡ true))
      → Step ids s (visit_edges path s ns)
  unfolding visit_edges
  visit_edges-Step ids path v s [] real paths path_to edges = record {
    real = real;
    paths = paths;
    less = omega arith;
  }
  visit_edges-Step ids path v s (n ∷ ns) real paths path_to edges =
      let (edge, known) = edges n (Memᴰ.head refl) in
      let later = λ (x : ℕ) (m : Memᴰ x ns). edges x (Memᴰ.tail m) in
      elim (Bool-cases (contains path n)) [
        | inl back ↦
            let closed = close_cycle-Step ids path v n s real paths path_to edge in
            let rest =
              visit_edges-Step ids path v (close_cycle path n s) ns closed.real closed.paths path_to
                later in
            rw (back, visit_edges)
              (record {
                real = rest.real;
                paths = rest.paths;
                less = omega (arith, rest.less, closed.less);
              })
        | inr ahead ↦ elim (Bool-cases (contains s.local_visited n)) [
          | inl old ↦
              rw (ahead, old, visit_edges)
                (visit_edges-Step ids path v s ns real paths path_to later)
          | inr fresh ↦
              let (u, ws, e, steps) = path_to in
              let longer : PathTo (path ++ n ∷ []) n =
                (u, ws ++ n ∷ [], ap (λ p. p ++ n ∷ []) e, Steps-concat u ws v n steps edge) in
              let rest =
                visit_edges-Step ids path v (push_path path n s) ns real (longer, paths) path_to
                  later in
              rw (ahead, fresh, visit_edges)
                (record {
                  real = rest.real;
                  paths = rest.paths;
                  less =
                      omega (arith, rest.less, unseen-concat-lt s.local_visited ids n fresh known);
                })
        ]
      ]

  stack_cases :
      (q : List (ℕ × List ℕ))
      → (q ≡ []) ⊎ ((v : ℕ) × (p : List ℕ) × (rest : List (ℕ × List ℕ)) × (q ≡ (v, p) ∷ rest))
  stack_cases [] = inl refl
  stack_cases ((v, p) ∷ rest) = inr (v, p, rest, refl)

  module _ (ids : List ℕ) (known : (u v : ℕ) → Memᴰ v (next u) → contains ids v ≡ true) where
    cycle_loop-real :
        (fuel : ℕ) (s : CycleSearch)
        → All IsCycle s.cycles
        → Waiting s.stack
        → todo ids s ≤ fuel
        → (t : CycleSearch) × (cycle_loop next fuel s ≡ some t) × All IsCycle t.cycles
    unfolding cycle_loop
    cycle_loop-real zero s real paths le = elim (stack_cases s.stack) [
      | inl empty ↦ (s, simp (empty, cycle_loop), real)
      | inr (v, p, rest, e) ↦ absurd (omega (arith, ap length e))
    ]
    cycle_loop-real (suc fuel) s real paths le = elim (stack_cases s.stack) [
      | inl empty ↦ (s, simp (empty, cycle_loop), real)
      | inr (v, p, rest, e) ↦
          let (path_to, paths') : PathTo p v × Waiting rest = subst Waiting e paths in
          let popped : CycleSearch = record s { stack = rest } in
          let step =
            visit_edges-Step ids p v popped (next v) real paths' path_to
              (λ n m. (m, known v n m)) in
          let visited = visit_edges p popped (next v) in
          let (t, ends, all) =
            cycle_loop-real fuel
              (record visited { globally_visited = with_element visited.globally_visited v })
              step.real step.paths (omega (arith, step.less, ap length e)) in
          (t, rw (e, cycle_loop) ends, all)
    ]

    starts_loop-real :
        (fuel : ℕ) (s : CycleSearch) (starts : List ℕ)
        → All IsCycle s.cycles
        → length ids + 1 ≤ fuel
        → (cycles : List (List ℕ)) × (starts_loop next fuel s starts ≡ some cycles)
          × All IsCycle cycles
    unfolding starts_loop
    starts_loop-real fuel s [] real le = (s.cycles, refl, real)
    starts_loop-real fuel s (start ∷ starts) real le =
        elim (Bool-cases (contains s.globally_visited start)) [
          | inl old ↦ rw (old, starts_loop) (starts_loop-real fuel s starts real le)
          | inr fresh ↦
              let (t, ends, all) =
                cycle_loop-real fuel (begin_at start s) real ((start, [], refl, refl), tt)
                  (omega (arith, unseen-le (start ∷ []) ids)) in
              rw (fresh, starts_loop, ends) (starts_loop-real fuel t starts all le)
        ]

module _ {F : Type 0} where
  -- `detect_cycles` ends on every graph, and each cycle that it reports is one: edges of the given
  -- types lead from each of its nodes to the next, and from the last back to the first.
  pub detect_cycles-IsCycle :
      (g : CsrGraph F) (edge_types : List EdgeType)
      → (cycles : List (List ℕ)) × (detect_cycles g edge_types ≡ some cycles)
        × All (IsCycle (λ u. targets (of_types edge_types (outgoing g u)))) cycles
  unfolding detect_cycles
  detect_cycles-IsCycle g edge_types =
      starts_loop-real (λ u. targets (of_types edge_types (outgoing g u))) g.idx_to_id
        (λ u v m. targets-outgoing g u v (targets-of_types edge_types v (outgoing g u) m))
        (enough g) (record { cycles = []; globally_visited = []; local_visited = []; stack = [] })
        (node_ids g) tt (omega arith)
