-- ===== src/Graph/Traversal/Discovery.antt =====
-- The inner loop of a search: every neighbour is found, at most one step deeper.
use grasp.Prelude.{
  ℕ, zero, suc, ◌+◌, ◌≤◌, ◌<◌, ◌≡◌, refl, sym, subst, ◌⊎◌, inl, inr, true, false, none, some, List,
  [], ◌∷◌, ◌++◌, append_assoc, arith, Memᴰ, ◌==◌, if◌then◌else◌, ==_iff, Bool-cases, Option-cases,
  lookup, is_some, contains, contains-append,
}
use mathlib.Core.List.Memᴰ
use grasp.Graph.Traversal.{Search, push_new}
use grasp.Graph.Traversal.Trace.{
  trace, Distinct, Within, Within-concat, lookup-append, Distinct-concat,
}

pub queue_cases :
    (q : List (ℕ × ℕ))
    → (q ≡ []) ⊎ ((u : ℕ) × (d : ℕ) × (rest : List (ℕ × ℕ)) × (q ≡ (u, d) ∷ rest))
queue_cases [] = inl refl
queue_cases ((u, d) ∷ rest) = inr (u, d, rest, refl)

-- `Walk next start v k`: a walk of `k` steps from `start` to `v`.
pub data Walk (next : ℕ → List ℕ) (start : ℕ) : ℕ → ℕ → Type 0 where
  here : Walk next start start zero
  step : {u v k : ℕ} → Walk next start u k → Memᴰ v (next u) → Walk next start v (suc k)

module _ (next : ℕ → List ℕ) (start max_depth : ℕ) where
  -- The state while a node of depth `level` is expanded.
  pub record Mid (level : ℕ) (s : Search) : Type 0 where
    pub seen : (v : ℕ) → contains s.visited v ≡ is_some (lookup v (trace s))
    pub sound : (v d : ℕ) → lookup v (trace s) ≡ some d → Walk next start v d × (d ≤ max_depth)
    pub first : lookup start (trace s) ≡ some 0
    pub distinct : Distinct (trace s)
    pub depth_le : (v d : ℕ) → lookup v (trace s) ≡ some d → d ≤ level + 1
    pub waiting : Within level (level + 1) s.queue

  abbrev pub Found : ℕ → ℕ → Search → Type 0
  Found bound v s = (d : ℕ) × (lookup v (trace s) ≡ some d) × (d ≤ bound)

  abbrev pub pushed : ℕ → Search → ℕ → Search
  pushed depth s v = record s {
    visited = s.visited ++ v ∷ [];
    queue = s.queue ++ (v, depth + 1) ∷ [];
  }

  trace-pushed :
      (depth : ℕ) (s : Search) (v : ℕ) → trace (pushed depth s v) ≡ trace s ++ (v, depth + 1) ∷ []
  trace-pushed depth s v = sym (append_assoc s.result s.queue ((v, depth + 1) ∷ []))

  pub pushed-lookup :
      (depth : ℕ) (s : Search) (v x : ℕ)
      → lookup v (trace s) ≡ none
      → lookup x (trace (pushed depth s v))
        ≡ (if v == x then some (depth + 1) else lookup x (trace s))
  pushed-lookup depth s v x fresh =
      rw (trace-pushed depth s v, lookup-append x (trace s) ((v, depth + 1) ∷ []))
        (elim (Bool-cases (v == x)) [
          | inl same ↦
              let e = (==_iff v x).0 same in
              let gone : lookup x (trace s) ≡ none = rw e at fresh in rw (gone, same) refl
          | inr other ↦ elim (Option-cases (lookup x (trace s))) [
            | inl gone ↦ rw (gone, other) refl
            | inr (d, there) ↦ rw (there, other) refl
          ]
        ])

  pub pushed-Mid :
      (level : ℕ) (s : Search) (v : ℕ)
      → Mid level s
      → level < max_depth
      → Walk next start v (suc level)
      → contains s.visited v ≡ false
      → Mid level (pushed level s v)
  pushed-Mid level s v mid below walk fresh =
      let gone : lookup v (trace s) ≡ none = ground (arith, mid.seen v) in
      let at = λ (x : ℕ). pushed-lookup level s v x gone in
      let next_level : level + 1 ≡ suc level = omega arith in
      record {
        seen = λ x. ground (arith, mid.seen x, at x, contains-append s.visited (v ∷ []) x);
        sound = λ x d h. elim (Bool-cases (v == x)) [
          | inl same ↦
              let e = (==_iff v x).0 same in
              let k : suc level ≡ d = ground (arith, at x) in
              (subst (λ y. Walk next start y d) e (subst (Walk next start v) k walk), omega arith)
          | inr other ↦ mid.sound x d (ground (arith, at x))
        ];
        first = ground (arith, at start, mid.first);
        distinct =
            rw (trace-pushed level s v) (Distinct-concat v (level + 1) (trace s) mid.distinct gone);
        depth_le = λ x d h. ground (arith, at x, mid.depth_le x d);
        waiting = Within-concat level (level + 1) v s.queue mid.waiting;
      }

  -- The inner loop: nothing is forgotten, and every neighbour is found at most one step deeper.
  pub record Pushed (level : ℕ) (s t : Search) (ns : List ℕ) : Type 0 where
    pub mid : Mid level t
    pub same : t.result ≡ s.result
    pub keeps : (v d : ℕ) → lookup v (trace s) ≡ some d → lookup v (trace t) ≡ some d
    pub finds : (v : ℕ) → Memᴰ v ns → Found (level + 1) v t

  seen-Found :
      (level : ℕ) (s : Search) (v : ℕ)
      → Mid level s
      → contains s.visited v ≡ true
      → Found (level + 1) v s
  seen-Found level s v mid old = elim (Option-cases (lookup v (trace s))) [
    | inl gone ↦ absurd (ground (arith, mid.seen v))
    | inr (d, there) ↦ (d, there, mid.depth_le v d there)
  ]

  pub push_new-Pushed :
      (level : ℕ) (s : Search) (ns : List ℕ)
      → Mid level s
      → level < max_depth
      → ((v : ℕ) → Memᴰ v ns → Walk next start v (suc level))
      → Pushed level s (push_new level s ns) ns
  unfolding push_new
  push_new-Pushed level s [] mid below walks = record {
    mid = mid;
    same = refl;
    keeps = λ v d h. h;
    finds = λ v m. absurd (Memᴰ.not-nil m);
  }
  push_new-Pushed level s (v ∷ ns) mid below walks = elim (Bool-cases (contains s.visited v)) [
    | inl old ↦
        let rest = push_new-Pushed level s ns mid below (λ x m. walks x (Memᴰ.tail m)) in
        rw old (record {
          mid = rest.mid;
          same = rest.same;
          keeps = rest.keeps;
          finds = λ x m. elim (Memᴰ.cases_cons m) [
            | inl e ↦
                let (d, there, le) = seen-Found level s v mid old in
                (d, rw e (rest.keeps v d there), le)
            | inr later ↦ rest.finds x later
          ];
        })
    | inr fresh ↦
        let s' = pushed level s v in
        let mid' = pushed-Mid level s v mid below (walks v (Memᴰ.head refl)) fresh in
        let gone : lookup v (trace s) ≡ none = ground (arith, mid.seen v) in
        let rest = push_new-Pushed level s' ns mid' below (λ x m. walks x (Memᴰ.tail m)) in
        rw fresh (record {
          mid = rest.mid;
          same = rest.same;
          keeps = λ x d h. rest.keeps x d (ground (arith, pushed-lookup level s v x gone));
          finds = λ x m. elim (Memᴰ.cases_cons m) [
            | inl e ↦ (
              level + 1,
              rest.keeps x (level + 1) (ground (arith, pushed-lookup level s v x gone)),
              omega arith,
            )
            | inr later ↦ rest.finds x later
          ];
        })
  ]
