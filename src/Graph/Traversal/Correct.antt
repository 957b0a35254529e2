-- ===== src/Graph/Traversal/Correct.antt =====
-- A search reports exactly the nodes within `max_depth` steps, each once, with the length of a
-- shortest walk.
use grasp.Prelude.{
  ℕ, zero, suc, ◌+◌, ◌≤◌, ◌<◌, ◌≡◌, refl, sym, ap, ◌∙◌, subst, ◌⊎◌, inl, inr, none, some, List, [],
  ◌∷◌, ◌++◌, append-nil, append_assoc, arith, Memᴰ, leb, ◌==◌, ==_iff, Bool-cases, Option-cases,
  lookup,
}
use grasp.Graph.Traversal.{Search, push_new, search_loop, start_at}
use grasp.Graph.Traversal.Trace.{
  trace, Distinct, Within, Within-raise, lookup-append, lookup-append_right, lookup-append_left,
  lookup-Within, fresh-Distinct,
}
use grasp.Graph.Traversal.Discovery.{queue_cases, Walk, here, step, Mid, Found, push_new-Pushed}

module _ (next : ℕ → List ℕ) (start max_depth : ℕ) where
  -- The state between two rounds: nodes that were expanded have their neighbours in the trace.
  pub record Inv (s : Search) : Type 0 where
    pub level : ℕ
    pub mid : Mid next start max_depth level s
    pub closed :
        (u d v : ℕ)
        → lookup u s.result ≡ some d
        → d < max_depth
        → Memᴰ v (next u)
        → Found next start max_depth (d + 1) v s

  abbrev pub pop : Search → ℕ → ℕ → List (ℕ × ℕ) → Search
  pop s u d rest = record s { queue = rest; result = s.result ++ (u, d) ∷ [] }

  module _ (s : Search) (u d : ℕ) (rest : List (ℕ × ℕ)) (e : s.queue ≡ (u, d) ∷ rest)
      (inv : Inv s) where
    pub trace-pop : trace (pop s u d rest) ≡ trace s
    trace-pop = append_assoc s.result ((u, d) ∷ []) rest ∙ ap (λ q. s.result ++ q) (sym e)

    pub pop-Mid : Mid next start max_depth d (pop s u d rest)
    pop-Mid =
        let mid = inv.mid in
        let wait : Within inv.level (inv.level + 1) ((u, d) ∷ rest) = rw e at mid.waiting in
        record {
          seen = rw trace-pop mid.seen;
          sound = rw trace-pop mid.sound;
          first = rw trace-pop mid.first;
          distinct = rw trace-pop mid.distinct;
          depth_le = λ v k h. omega (arith, mid.depth_le v k (rw trace-pop at h));
          waiting = Within-raise d (inv.level + 1) (d + 1) rest (omega arith) wait.1;
        }

    pub fresh_head : lookup u s.result ≡ none
    fresh_head =
        fresh-Distinct u d s.result rest (subst (λ q. Distinct (s.result ++ q)) e inv.mid.distinct)

    pub head_found : lookup u (trace s) ≡ some d
    head_found =
        ap (λ q. lookup u (s.result ++ q)) e
        ∙ (lookup-append_right u s.result ((u, d) ∷ rest) fresh_head ∙ ground arith)

    pub head-Walk : Walk next start u d
    head-Walk = (inv.mid.sound u d head_found).0

    -- What was reported before the head, or the head itself.
    reported :
        (x k : ℕ)
        → lookup x (s.result ++ (u, d) ∷ []) ≡ some k
        → (lookup x s.result ≡ some k) ⊎ ((x ≡ u) × (k ≡ d))
    reported x k h = ground (arith, lookup-append x s.result ((u, d) ∷ []))

    stop-Inv : max_depth ≤ d → Inv (pop s u d rest)
    stop-Inv deep = record {
      level = d;
      mid = pop-Mid;
      closed = λ x k v h below m. elim (reported x k h) [
        | inl before ↦ rw trace-pop (inv.closed x k v before below m)
        | inr (_, same) ↦ absurd (omega arith)
      ];
    }

    pub expand-Inv : d < max_depth → Inv (push_new d (pop s u d rest) (next u))
    expand-Inv below =
        let p =
          push_new-Pushed next start max_depth d (pop s u d rest) (next u) pop-Mid below
            (λ v m. step head-Walk m) in
        record {
          level = d;
          mid = p.mid;
          closed = λ x k v h under m. elim (reported x k (rw p.same at h)) [
            | inl before ↦
                let (j, there, le) = inv.closed x k v before under m in
                (j, p.keeps v j (rw trace-pop there), le)
            | inr (same_node, same_depth) ↦
                let (j, there, le) = p.finds v (subst (λ y. Memᴰ v (next y)) same_node m) in
                (j, there, omega arith)
          ];
        }

  finished : (s t : Search) → Inv s → s.queue ≡ [] → some s ≡ some t → Inv t × (t.queue ≡ [])
  finished s t inv empty h =
      let e : s ≡ t = cc in (subst Inv e inv, subst (λ x. x.queue ≡ []) e empty)

  -- The invariant holds when the loop ends, and the queue is empty then.
  pub loop-Inv :
      (fuel : ℕ) (s t : Search)
      → Inv s
      → search_loop next max_depth fuel s ≡ some t
      → Inv t × (t.queue ≡ [])
  unfolding search_loop
  loop-Inv zero s t inv h = elim (queue_cases s.queue) [
    | inl empty ↦ finished s t inv empty (rw (empty, search_loop) at h)
    | inr (u, d, rest, e) ↦ absurd (ground arith)
  ]
  loop-Inv (suc fuel) s t inv h = elim (queue_cases s.queue) [
    | inl empty ↦ finished s t inv empty (rw (empty, search_loop) at h)
    | inr (u, d, rest, e) ↦ elim (Bool-cases (leb max_depth d)) [
      | inl deep ↦
          loop-Inv fuel (pop s u d rest) t (stop-Inv s u d rest e inv (ground arith))
            (rw (e, search_loop, deep) at h)
      | inr shallow ↦
          loop-Inv fuel (push_new d (pop s u d rest) (next u)) t
            (expand-Inv s u d rest e inv (ground arith)) (rw (e, search_loop, shallow) at h)
    ]
  ]

  pub start-Inv : Inv (start_at start)
  start-Inv = record {
    level = 0;
    mid = record {
      seen = λ v. ground arith;
      sound = λ v d h. elim (Bool-cases (start == v)) [
        | inl same ↦
            let e = (==_iff start v).0 same in
            let k : 0 ≡ d = ground arith in
            (subst (λ y. Walk next start y d) e (subst (Walk next start start) k here), omega arith)
        | inr other ↦ absurd (ground arith)
      ];
      first = ground arith;
      distinct = (refl, tt);
      depth_le = λ v d h. ground arith;
      waiting = omega arith;
    };
    closed = λ u d v h. cc;
  }

  -- What a list of results says of the walks from `start`.
  pub record Shortest (found : List (ℕ × ℕ)) : Type 0 where
    pub distinct : Distinct found
    pub sound : (v d : ℕ) → lookup v found ≡ some d → Walk next start v d × (d ≤ max_depth)
    pub complete :
        (v k : ℕ)
        → Walk next start v k
        → k ≤ max_depth
        → (d : ℕ) × (lookup v found ≡ some d) × (d ≤ k)

  -- Walks shorter than the head of the queue is deep have been followed to their end.
  pub walks_shallow :
      (s : Search) (inv : Inv s) (top d : ℕ) (rest : List (ℕ × ℕ))
      → s.queue ≡ (top, d) ∷ rest
      → d ≤ max_depth
      → {v k : ℕ} → Walk next start v k
      → k ≤ d
      → (e : ℕ) × (lookup v (trace s) ≡ some e) × (e ≤ k)
  walks_shallow s inv top d rest e deep here le = (0, inv.mid.first, omega arith)
  walks_shallow s inv top d rest e deep (step {u} {v} {k} w m) le =
      let (j, there, short) = walks_shallow s inv top d rest e deep w (omega arith) in
      elim (Option-cases (lookup u s.result)) [
        | inl waits ↦
            let queued : lookup u ((top, d) ∷ rest) ≡ some j =
              rw e at (sym (lookup-append_right u s.result s.queue waits) ∙ there) in
            let within : Within inv.level (inv.level + 1) ((top, d) ∷ rest) =
              rw e at inv.mid.waiting in
            absurd (
              omega (
                arith,
                lookup-Within d (inv.level + 1) u j ((top, d) ∷ rest) (omega arith, within.1)
                    queued,
              ))
        | inr (i, done) ↦
            let same : some i ≡ some j =
              sym (lookup-append_left u i s.result s.queue done) ∙ there in
            let (l, found, le') = inv.closed u i v done (ground (arith, same)) m in
            (l, found, ground (arith, same))
      ]

  pub walks_found :
      (t : Search) (inv : Inv t)
      → t.queue ≡ []
      → {v k : ℕ} → Walk next start v k
      → k ≤ max_depth
      → (d : ℕ) × (lookup v t.result ≡ some d) × (d ≤ k)
  walks_found t inv empty here le =
      (0, rw (ap (λ q. t.result ++ q) empty ∙ append-nil t.result) at inv.mid.first, omega arith)
  walks_found t inv empty (step {u} {v} {k} w m) le =
      let (d, there, short) = walks_found t inv empty w (omega arith) in
      let (d', there', le') = inv.closed u d v there (omega arith) m in
      (d', rw (ap (λ q. t.result ++ q) empty ∙ append-nil t.result) at there', omega arith)

  pub search_loop-Shortest :
      (fuel : ℕ) (t : Search)
      → search_loop next max_depth fuel (start_at start) ≡ some t
      → Shortest t.result
  search_loop-Shortest fuel t h =
      let (inv, empty) = loop-Inv fuel (start_at start) t start-Inv h in
      let whole : trace t ≡ t.result = ap (λ q. t.result ++ q) empty ∙ append-nil t.result in
      record {
        distinct = rw whole at inv.mid.distinct;
        sound = λ v d there. inv.mid.sound v d (rw whole there);
        complete = λ v k w le. walks_found t inv empty w le;
      }
