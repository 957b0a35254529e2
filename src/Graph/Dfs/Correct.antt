-- ===== src/Graph/Dfs/Correct.antt =====
-- What `dfs` reports: nodes within reach, none twice, and the neighbours of every node that it
-- expands.
use grasp.Prelude.{
  ℕ, zero, suc, ◌+◌, ◌≤◌, ◌<◌, ◌≡◌, refl, sym, ap, ◌∙◌, subst, ◌⊎◌, inl, inr, true, false, none,
  some, List, [], ◌∷◌, ◌++◌, arith, Memᴰ, leb, ◌==◌, ==_iff, ==_refl, Bool-cases, Option-cases,
  length, lookup, is_some, contains, contains-append,
}
use mathlib.Core.List.Memᴰ
use grasp.Graph.Csr.{CsrGraph, get_idx, outgoing}
use grasp.Graph.Traversal.{targets}
use grasp.Graph.Traversal.Trace.{Distinct, Distinct-concat, lookup-append}
use grasp.Graph.Traversal.Discovery.{Walk, here, step, queue_cases}
use grasp.Graph.Traversal.Reach.{targets-outgoing}
use grasp.Graph.Dfs.{DepthSearch, push_unvisited, dfs_loop, dfs_from, reported, rounds, dfs}
use grasp.Graph.Dfs.Fuel.{
  push_unvisited-length-le, of_push_unvisited, push_unvisited-keeps, push_unvisited-offers,
  remaining, remaining-concat, remaining-le,
}

module _ (next : ℕ → List ℕ) (start max_depth : ℕ) where
  pub record Explored (found : List (ℕ × ℕ)) : Type 0 where
    pub distinct : Distinct found
    pub first : lookup start found ≡ some 0
    pub sound : (v d : ℕ) → lookup v found ≡ some d → Walk next start v d × (d ≤ max_depth)
    pub closed :
        (u d v : ℕ)
        → lookup u found ≡ some d
        → d < max_depth
        → Memᴰ v (next u)
        → (e : ℕ) × (lookup v found ≡ some e)

  -- Reported, or still on the stack.
  abbrev Coming : ℕ → DepthSearch → Type 0
  Coming v s = (is_some (lookup v s.result) ≡ true) ⊎ ((e : ℕ) × Memᴰ (v, e) s.stack)

  abbrev Begun : DepthSearch → Type 0
  Begun s = (lookup start s.result ≡ some 0) ⊎ ((s.result ≡ []) × (s.stack ≡ (start, 0) ∷ []))

  record Inv (s : DepthSearch) : Type 0 where
    seen : (v : ℕ) → contains s.visited v ≡ is_some (lookup v s.result)
    distinct : Distinct s.result
    begun : Begun s
    sound : (v d : ℕ) → lookup v s.result ≡ some d → Walk next start v d × (d ≤ max_depth)
    waiting : (v d : ℕ) → Memᴰ (v, d) s.stack → Walk next start v d × (d ≤ max_depth)
    closed : (u d v : ℕ) → lookup u s.result ≡ some d → d < max_depth → Memᴰ v (next u) → Coming v s

  module _ (s : DepthSearch) (u d : ℕ) (rest : List (ℕ × ℕ)) (e : s.stack ≡ (u, d) ∷ rest)
      (inv : Inv s) where
    on_stack : (v k : ℕ) → Memᴰ (v, k) rest → Memᴰ (v, k) s.stack
    on_stack v k m = subst (Memᴰ (v, k)) (sym e) (Memᴰ.tail m)

    top : Memᴰ (u, d) s.stack
    top = subst (Memᴰ (u, d)) (sym e) (Memᴰ.head refl)

    -- The entry of a visited node is dropped.
    drop-Inv : contains s.visited u ≡ true → Inv (record s { stack = rest })
    drop-Inv old = record {
      seen = inv.seen;
      distinct = inv.distinct;
      begun = elim inv.begun [
        | inl there ↦ inl there
        | inr (empty, alone) ↦
            absurd (ground (arith, inv.seen u, ap (λ r. is_some (lookup u r)) empty))
      ];
      sound = inv.sound;
      waiting = λ v k m. inv.waiting v k (on_stack v k m);
      closed = λ x k v there below m. elim (inv.closed x k v there below m) [
        | inl done ↦ inl done
        | inr (j, waits) ↦ elim (Memᴰ.cases_cons (subst (Memᴰ (v, j)) e waits)) [
          | inl same ↦ inl (rw (ap (λ p. p.0) same) (sym (inv.seen u) ∙ old))
          | inr deeper ↦ inr (j, deeper)
        ]
      ];
    }

    -- A new node is reported, and its neighbours may go on the stack.
    visit-Inv :
        (stack : List (ℕ × ℕ))
        → contains s.visited u ≡ false
        → ((v k : ℕ)
            → Memᴰ (v, k) stack
            → Memᴰ (v, k) rest ⊎ (Memᴰ v (next u) × (k ≡ d + 1) × (d < max_depth)))
        → ((v k : ℕ) → Memᴰ (v, k) rest → Memᴰ (v, k) stack)
        → (d < max_depth
            → (v : ℕ) → Memᴰ v (next u)
            → (contains (s.visited ++ u ∷ []) v ≡ true) ⊎ Memᴰ (v, d + 1) stack)
        → Inv (record {
          visited = s.visited ++ u ∷ [];
          stack = stack;
          result = s.result ++ (u, d) ∷ [];
        })
    visit-Inv stack fresh from keeps offers =
        let gone : lookup u s.result ≡ none = ground (arith, inv.seen u) in
        let at = λ (x : ℕ). lookup-append x s.result ((u, d) ∷ []) in
        let seen = λ (x : ℕ). contains-append s.visited (u ∷ []) x in
        let (walk, deep) = inv.waiting u d top in
        record {
          seen = λ v. ground (arith, at v, seen v, inv.seen v);
          distinct = Distinct-concat u d s.result inv.distinct gone;
          begun = elim inv.begun [
            | inl there ↦ inl (ground (arith, at start))
            | inr (empty, alone) ↦
                let same : (u, d) ∷ rest ≡ (start, 0) ∷ [] = sym e ∙ alone in
                let eu : u ≡ start = cc in
                let ed : d ≡ 0 = cc in
                let none_yet : lookup start s.result ≡ none = ap (lookup start) empty in
                let hit : (u == start) ≡ true = (==_iff u start).1 eu in
                inl (ground (arith, at start))
          ];
          sound = λ v k h. elim (Bool-cases (u == v)) [
            | inl same ↦
                let ev = (==_iff u v).0 same in
                let k_d : d ≡ k = ground (arith, at v, ap (λ y. lookup y s.result) ev) in
                (
                  subst (λ y. Walk next start y k) ev (subst (Walk next start u) k_d walk),
                  omega arith,
                )
            | inr other ↦ inv.sound v k (ground (arith, at v))
          ];
          waiting = λ v k m. elim (from v k m) [
            | inl before ↦ inv.waiting v k (on_stack v k before)
            | inr (edge, deeper, below) ↦
                let k_d : suc d ≡ k = omega arith in
                (subst (Walk next start v) k_d (step walk edge), omega arith)
          ];
          closed = λ x k v h below m.
              let done : contains (s.visited ++ u ∷ []) v ≡ true
                  → (is_some (lookup v (s.result ++ (u, d) ∷ [])) ≡ true)
                    ⊎ ((j : ℕ) × Memᴰ (v, j) stack) =
                λ shown. inl (ground (arith, at v, seen v, inv.seen v)) in
              elim (Bool-cases (u == x)) [
                | inl same ↦
                    let ex = (==_iff u x).0 same in
                    let k_d : d ≡ k = ground (arith, at x, ap (λ y. lookup y s.result) ex) in
                    elim (offers (omega arith) v (subst (λ y. Memᴰ v (next y)) (sym ex) m)) [
                      | inl shown ↦ done shown
                      | inr waits ↦ inr (d + 1, waits)
                    ]
                | inr other ↦ elim (inv.closed x k v (ground (arith, at x)) below m) [
                  | inl old ↦ done (ground (arith, seen v, inv.seen v))
                  | inr (j, waits) ↦ elim (Memᴰ.cases_cons (subst (Memᴰ (v, j)) e waits)) [
                    | inl same ↦
                        let hit : (u == v) ≡ true = (==_iff u v).1 (sym (ap (λ p. p.0) same)) in
                        done (ground (arith, seen v))
                    | inr deeper ↦ inr (j, keeps v j deeper)
                  ]
                ]
              ];
        }

  finished : (s : DepthSearch) → Inv s → s.stack ≡ [] → Explored s.result
  finished s inv empty = record {
    distinct = inv.distinct;
    first = elim inv.begun [
      | inl there ↦ there
      | inr (_, alone) ↦ absurd (ground (arith, sym alone ∙ empty))
    ];
    sound = inv.sound;
    closed = λ u d v there below m. elim (inv.closed u d v there below m) [
      | inl done ↦ elim (Option-cases (lookup v s.result)) [
        | inl gone ↦ absurd (ground arith)
        | inr found ↦ found
      ]
      | inr (j, waits) ↦ absurd (Memᴰ.not-nil (subst (Memᴰ (v, j)) empty waits))
    ];
  }

  module _ (ids : List ℕ) (known : (u v : ℕ) → Memᴰ v (next u) → contains ids v ≡ true)
      (root : contains ids start ≡ true) where
    Walk-known : {v k : ℕ} → Walk next start v k → contains ids v ≡ true
    Walk-known here = root
    Walk-known (step {u} {v} {k} w m) = known u v m

    -- Enough rounds for the entries of the stack and for the pushes that are still to come.
    dfs_loop-Explored :
        (fuel : ℕ) (s : DepthSearch)
        → Inv s
        → length s.stack + remaining next s.visited ids ≤ fuel
        → (t : DepthSearch) × (dfs_loop next max_depth fuel s ≡ some t) × Explored t.result
    unfolding dfs_loop
    dfs_loop-Explored zero s inv le = elim (queue_cases s.stack) [
      | inl empty ↦ (s, simp (empty, dfs_loop), finished s inv empty)
      | inr (u, d, rest, e) ↦ absurd (omega (arith, ap length e))
    ]
    dfs_loop-Explored (suc fuel) s inv le = elim (queue_cases s.stack) [
      | inl empty ↦ (s, simp (empty, dfs_loop), finished s inv empty)
      | inr (u, d, rest, e) ↦
          let size = ap length e in
          elim (Bool-cases (contains s.visited u)) [
            | inl old ↦
                let (t, ends, right) =
                  dfs_loop-Explored fuel (record s { stack = rest }) (drop-Inv s u d rest e inv old)
                    (omega arith) in
                (t, rw (dfs_loop, e, old) ends, right)
            | inr fresh ↦
                let walk = (inv.waiting u d (top s u d rest e inv)).0 in
                let paid = remaining-concat next s.visited ids u fresh (Walk-known walk) in
                let visited = s.visited ++ u ∷ [] in
                let result = s.result ++ (u, d) ∷ [] in
                elim (Bool-cases (leb max_depth d)) [
                  | inl deep ↦
                      let (t, ends, right) =
                        dfs_loop-Explored fuel
                          (record { visited = visited; stack = rest; result = result })
                          (visit-Inv s u d rest e inv rest fresh (λ v k m. inl m) (λ v k m. m)
                            (λ below. absurd (ground arith)))
                          (omega arith) in
                      (t, rw (dfs_loop, e, fresh, deep) ends, right)
                  | inr shallow ↦
                      let stack = push_unvisited visited d rest (next u) in
                      let pushed = push_unvisited-length-le visited d rest (next u) in
                      let (t, ends, right) =
                        dfs_loop-Explored fuel
                          (record { visited = visited; stack = stack; result = result })
                          (visit-Inv s u d rest e inv stack fresh
                            (λ v k m. elim (of_push_unvisited visited d rest (next u) v k m) [
                              | inl before ↦ inl before
                              | inr (edge, deeper) ↦ inr (edge, deeper, ground arith)
                            ])
                            (λ v k m. push_unvisited-keeps visited d rest (next u) m)
                            (λ below v m. push_unvisited-offers visited d rest (next u) v m))
                          (omega arith) in
                      (t, rw (dfs_loop, e, fresh, shallow) ends, right)
                ]
          ]
    ]

  start-Inv : Inv (dfs_from start)
  start-Inv = record {
    seen = λ v. refl;
    distinct = tt;
    begun = inr (refl, refl);
    sound = λ v d h. cc;
    waiting = λ v d m. elim (Memᴰ.cases_cons m) [
      | inl e ↦ subst (λ p. Walk next start p.0 p.1 × (p.1 ≤ max_depth)) (sym e) (here, omega arith)
      | inr m' ↦ absurd (Memᴰ.not-nil m')
    ];
    closed = λ u d v h. cc;
  }

module _ {F : Type 0} where
  -- From a node of the graph `dfs` ends. It reports the start at depth 0 and no node twice; every
  -- depth is at most `max_depth` and the length of a walk from the start; and the targets of every
  -- node that it reports above `max_depth` are reported too.
  pub dfs-Explored :
      (g : CsrGraph F) (start max_depth : ℕ) {idx : ℕ}
      → get_idx g start ≡ some idx
      → (found : List (ℕ × ℕ)) × (dfs g start max_depth ≡ some found)
        × Explored (λ u. targets (outgoing g u)) start max_depth found
  unfolding dfs
  dfs-Explored g start max_depth known =
      let next = λ (u : ℕ). targets (outgoing g u) in
      let ids = start ∷ g.idx_to_id in
      let (t, ends, right) =
        dfs_loop-Explored next start max_depth ids
          (λ u v m. ground (arith, targets-outgoing g u v m)) (ground (arith, ==_refl start))
          (rounds g start) (dfs_from start) (start-Inv next start max_depth)
          (omega (arith, remaining-le next [] ids)) in
      (t.result, rw (known, dfs) (ap reported ends), right)
