-- ===== src/Graph/Traversal/Fuel.antt =====
-- One round more than there are nodes is enough fuel: every round takes one node off the queue,
-- and a node enters the queue only when it enters `visited`.
use grasp.Prelude.{
  ℕ, zero, suc, ◌+◌, ◌≤◌, ◌<◌, ◌≡◌, refl, ap, inl, inr, true, false, some, List, [], ◌∷◌, ◌++◌,
  arith, Memᴰ, leb, if◌then◌else◌, Bool-cases, length, length-append, contains, contains-append,
}
use grasp.Graph.Traversal.{Search, push_new, search_loop}
use grasp.Graph.Traversal.Discovery.{queue_cases}

-- The nodes that are not visited.
abbrev pub unseen : List ℕ → List ℕ → ℕ
unseen visited [] = 0
unseen visited (x ∷ xs) = if contains visited x then unseen visited xs else suc (unseen visited xs)

unseen-concat-le :
    (visited ids : List ℕ) (v : ℕ) → unseen (visited ++ v ∷ []) ids ≤ unseen visited ids
unseen-concat-le visited [] v = omega arith
unseen-concat-le visited (x ∷ xs) v =
    ground (arith, unseen-concat-le visited xs v, contains-append visited (v ∷ []) x)

pub unseen-concat-lt :
    (visited ids : List ℕ) (v : ℕ)
    → contains visited v ≡ false
    → contains ids v ≡ true
    → unseen (visited ++ v ∷ []) ids < unseen visited ids
unseen-concat-lt visited [] v fresh known = cc
unseen-concat-lt visited (x ∷ xs) v fresh known = ground (
  arith,
  unseen-concat-lt visited xs v,
  unseen-concat-le visited xs v,
  contains-append visited (v ∷ []) x,
)

pub unseen-le : (visited ids : List ℕ) → unseen visited ids ≤ length ids
unseen-le visited [] = omega arith
unseen-le visited (x ∷ xs) = ground (arith, unseen-le visited xs)

module _ (ids : List ℕ) where
  abbrev pub work : Search → ℕ
  work s = unseen s.visited ids + length s.queue

  pub push_new-work-le :
      (depth : ℕ) (s : Search) (ns : List ℕ)
      → ((v : ℕ) → Memᴰ v ns → contains ids v ≡ true)
      → work (push_new depth s ns) ≤ work s
  unfolding push_new
  push_new-work-le depth s [] known = omega arith
  push_new-work-le depth s (v ∷ ns) known =
      let s' = record s { visited = s.visited ++ v ∷ []; queue = s.queue ++ (v, depth + 1) ∷ [] } in
      let later : (x : ℕ) → Memᴰ x ns → contains ids x ≡ true = λ x m. known x (Memᴰ.tail m) in
      elim (Bool-cases (contains s.visited v)) [
        | inl old ↦ rw (old, push_new) (push_new-work-le depth s ns later)
        | inr fresh ↦
            rw (fresh, push_new)
              (omega (
                arith,
                push_new-work-le depth s' ns later,
                unseen-concat-lt s.visited ids v fresh (known v (Memᴰ.head refl)),
                length-append s.queue ((v, depth + 1) ∷ []),
              ))
      ]

  -- A search whose neighbours are among the given nodes ends.
  pub search_loop_ends :
      (next : ℕ → List ℕ) (max_depth : ℕ)
      → ((u v : ℕ) → Memᴰ v (next u) → contains ids v ≡ true)
      → (fuel : ℕ) (s : Search) → work s ≤ fuel
      → (t : Search) × (search_loop next max_depth fuel s ≡ some t)
  unfolding search_loop
  search_loop_ends next max_depth known zero s le = elim (queue_cases s.queue) [
    | inl empty ↦ (s, simp (empty, search_loop))
    | inr (u, d, rest, e) ↦ absurd (omega (arith, ap length e))
  ]
  search_loop_ends next max_depth known (suc fuel) s le = elim (queue_cases s.queue) [
    | inl empty ↦ (s, simp (empty, search_loop))
    | inr (u, d, rest, e) ↦
        let popped : Search = record s { queue = rest; result = s.result ++ (u, d) ∷ [] } in
        elim (Bool-cases (leb max_depth d)) [
          | inl deep ↦
              let (t, ends) =
                search_loop_ends next max_depth known fuel popped (omega (arith, ap length e)) in
              (t, rw (e, search_loop, deep) ends)
          | inr shallow ↦
              let (t, ends) =
                search_loop_ends next max_depth known fuel (push_new d popped (next u))
                  (omega (arith, ap length e, push_new-work-le d popped (next u) (known u))) in
              (t, rw (e, search_loop, shallow) ends)
        ]
  ]
