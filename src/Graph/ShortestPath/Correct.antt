-- ===== src/Graph/ShortestPath/Correct.antt =====
-- The path that `shortest_path` rebuilds is a shortest one, and where it finds none there is none.
-- The breadth-first search of Traversal is run beside it, with the depths that the code forgets.
use grasp.Prelude.{
  ℕ, zero, suc, ◌+◌, ◌≤◌, ◌<◌, ◌≡◌, refl, sym, ap, ◌∙◌, subst, ◌≢◌, inl, inr, true, false, Option,
  none, some, List, [], ◌∷◌, arith, Memᴰ, leb, ◌==◌, ==_iff, Bool-cases, length, HashMap, lookup,
  contains,
}
use mathlib.Core.List.{reverse}
use grasp.Graph.Csr.{CsrGraph, get_idx, outgoing}
use grasp.Graph.Traversal.{Search, push_new, start_at, targets, enough}
use grasp.Graph.Traversal.Trace.{trace, lookup-append_left}
use grasp.Graph.Traversal.Discovery.{Walk, Mid, queue_cases}
use grasp.Graph.Traversal.Correct.{
  Inv, pop, trace-pop, pop-Mid, expand-Inv, head_found, head-Walk, start-Inv, walks_shallow,
  walks_found,
}
use grasp.Graph.Traversal.Fuel.{work, push_new-work-le, unseen-le}
use grasp.Graph.Traversal.Reach.{targets-outgoing}
use grasp.Graph.ShortestPath.{PathSearch, onward, offer, path_loop, shortest_path}
use grasp.Graph.ShortestPath.Chain.{Steps, follow-Steps}
use grasp.Graph.ShortestPath.Rounds.{beside, Linked, Behind, offer-Linked}

-- What an answer says of the walks between two nodes: a walk as short as any, or that there is none.
abbrev pub Answers : (ℕ → List ℕ) → ℕ → ℕ → Option (List ℕ) → Type 0
Answers next from to none = (k : ℕ) → ¬ Walk next from to k
Answers next from to (some path) =
    (rest : List ℕ) × (path ≡ from ∷ rest)
    × Steps next from rest to
    × ((k : ℕ) → Walk next from to k → length rest ≤ k)

module _ (next : ℕ → List ℕ) (from to : ℕ) where
  -- What an answer says of the walks of at most `n` steps.
  abbrev AnswersUpTo : ℕ → Option (List ℕ) → Type 0
  AnswersUpTo n none = (k : ℕ) → k ≤ n → ¬ Walk next from to k
  AnswersUpTo n (some path) = Answers next from to (some path)

  unseen_target :
      (bound : ℕ) (s : Search) (parent : HashMap ℕ) (max_depth level d : ℕ)
      → Mid next from max_depth level s
      → Linked next from to bound s parent
      → lookup to (trace s) ≢ some d
  unseen_target bound s parent max_depth level d mid linked there =
      ground (arith, mid.seen to, linked.missing)

  module _ (max_depth : ℕ) (ids : List ℕ)
      (known : (u v : ℕ) → Memᴰ v (next u) → contains ids v ≡ true) where
    pop-Linked :
        (bound : ℕ) (s : Search) (parent : HashMap ℕ) (u d : ℕ) (rest : List (ℕ × ℕ))
        (e : s.queue ≡ (u, d) ∷ rest) (inv : Inv next from max_depth s)
        → Linked next from to bound s parent
        → Linked next from to (bound + 1) (pop next from max_depth s u d rest) parent
    pop-Linked bound s parent u d rest e inv linked =
        let same = trace-pop next from max_depth s u d rest e inv in
        record {
          chained = rw same linked.chained;
          unset = linked.unset;
          room = rw same linked.room;
          bounded = λ v k h. omega (arith, linked.bounded v k (rw same at h));
          missing = linked.missing;
        }

    head-Behind :
        (bound : ℕ) (s : Search) (parent : HashMap ℕ) (u d : ℕ)
        → Inv next from max_depth s
        → Linked next from to bound s parent
        → lookup u (trace s) ≡ some d
        → Behind next from to u d parent
    head-Behind bound s parent u d inv linked there = elim (Bool-cases (u == from)) [
      | inl same ↦
          let e = (==_iff u from).0 same in
          let zeroth : some d ≡ some 0 =
            sym there ∙ (ap (λ x. lookup x (trace s)) e ∙ inv.mid.first) in
          inl (e, ground (arith, zeroth))
      | inr other ↦ elim (linked.chained u d there) [
        | inl e ↦ absurd (ground (arith, (==_iff u from).1 e))
        | inr c ↦ inr (other, c)
      ]
    ]

    -- With an empty queue the walks of at most `max_depth` steps lead to visited nodes only.
    emptied :
        (bound : ℕ) (s : Search) (parent : HashMap ℕ) (inv : Inv next from max_depth s)
        → Linked next from to bound s parent
        → s.queue ≡ []
        → AnswersUpTo max_depth none
    emptied bound s parent inv linked empty k le w =
        let (d, there, short) = walks_found next from max_depth s inv empty w le in
        unseen_target bound s parent max_depth inv.level d inv.mid linked
          (lookup-append_left to d s.result s.queue there)

    loop-onward :
        (fuel : ℕ) (s : Search) (parent : HashMap ℕ) (u d : ℕ) (rest : List (ℕ × ℕ))
        (p : PathSearch)
        → s.queue ≡ (u, d) ∷ rest
        → offer to u (beside (pop next from max_depth s u d rest) parent) (next u) ≡ onward p
        → path_loop next from to (suc fuel) (beside s parent) ≡ path_loop next from to fuel p
    unfolding path_loop
    loop-onward fuel s parent u d rest p e goes = rw (e, path_loop, goes) refl

    loop-Answers :
        (fuel bound : ℕ) (s : Search) (parent : HashMap ℕ)
        → Inv next from max_depth s
        → Linked next from to bound s parent
        → bound + fuel ≤ max_depth
        → work ids s ≤ fuel
        → (answer : Option (List ℕ)) × (path_loop next from to fuel (beside s parent) ≡ some answer)
          × AnswersUpTo max_depth answer
    unfolding path_loop
    loop-Answers zero bound s parent inv linked deep small = elim (queue_cases s.queue) [
      | inl empty ↦ (none, rw (empty, path_loop) refl, emptied bound s parent inv linked empty)
      | inr (u, d, rest, e) ↦ absurd (omega (arith, ap length e))
    ]
    loop-Answers (suc fuel) bound s parent inv linked deep small = elim (queue_cases s.queue) [
      | inl empty ↦ (none, rw (empty, path_loop) refl, emptied bound s parent inv linked empty)
      | inr (u, d, rest, e) ↦
          let popped = pop next from max_depth s u d rest in
          let there = head_found next from max_depth s u d rest e inv in
          let low = linked.bounded u d there in
          let below : d < max_depth = omega arith in
          let walk = head-Walk next from max_depth s u d rest e inv in
          elim (offer-Linked next from to max_depth (bound + 1) u d below (omega arith) popped
            parent (next u) (pop-Mid next from max_depth s u d rest e inv)
            (pop-Linked bound s parent u d rest e inv linked) (linked.room u d there)
            (head-Behind bound s parent u d inv linked there) (λ v m. m) walk) [
              | inl (later, goes, linked') ↦
                  let (answer, ends, right) =
                    loop-Answers fuel (bound + 1) (push_new d popped (next u)) later
                      (expand-Inv next from max_depth s u d rest e inv below) linked' (omega arith)
                      (omega
                        (arith, ap length e, push_new-work-le ids d popped (next u) (known u))) in
                  (
                    answer,
                    loop-onward fuel s parent u d rest (beside (push_new d popped (next u)) later) e
                          goes
                        ∙ ends,
                    right,
                  )
              | inr (last, goes, chain, few) ↦
                  let (pushes, path, returns, back, steps, size) =
                    follow-Steps next from to last.parent (length last.visited) chain few [] refl in
                  (
                    some (reverse (to ∷ pushes)),
                    rw (e, path_loop, goes, returns) refl,
                    (
                      path,
                      back,
                      steps,
                      λ k w. elim (Bool-cases (leb k d)) [
                        | inl short ↦
                            let (j, found, le) =
                              walks_shallow next from max_depth s inv u d rest e (omega arith) w
                                (ground arith) in
                            absurd (
                              unseen_target bound s parent max_depth inv.level j inv.mid linked
                                found)
                        | inr long ↦ ground (arith, size)
                      ],
                    ),
                  )
            ]
    ]

fewer_steps :
    (next : ℕ → List ℕ) (from to n m : ℕ) (answer : Option (List ℕ))
    → n ≤ m
    → AnswersUpTo next from to m answer
    → AnswersUpTo next from to n answer
fewer_steps next from to n m none le h = λ k short w. h k (omega arith) w
fewer_steps next from to n m (some path) le h = h

no_longer :
    (next : ℕ → List ℕ) (from to : ℕ) (answer : Option (List ℕ))
    → ((n : ℕ) → AnswersUpTo next from to n answer)
    → Answers next from to answer
no_longer next from to none h = λ k w. h k k (omega arith) w
no_longer next from to (some path) h = h 0

module _ {F : Type 0} where
  searched :
      (g : CsrGraph F) (from to n : ℕ) {i j : ℕ}
      → get_idx g from ≡ some i
      → get_idx g to ≡ some j
      → (from == to) ≡ false
      → (answer : Option (List ℕ)) × (shortest_path g from to ≡ some answer)
        × AnswersUpTo (λ u. targets (outgoing g u)) from to (enough g + n) answer
  unfolding shortest_path
  searched g from to n known_from known_to apart =
      let next = λ (u : ℕ). targets (outgoing g u) in
      let (answer, ends, right) =
        loop-Answers next from to (enough g + n) g.idx_to_id (targets-outgoing g) (enough g) 0
          (start_at from) [] (start-Inv next from (enough g + n))
          (record {
            chained = λ v d h. ground arith;
            unset = λ v h. refl;
            room = λ v d h. ground arith;
            bounded = λ v d h. ground arith;
            missing = ground arith;
          })
          (omega arith) (omega (arith, unseen-le (from ∷ []) g.idx_to_id)) in
      (answer, rw (apart, shortest_path, known_from, known_to) ends, right)

  -- Between two nodes of the graph `shortest_path` always answers. A path that it returns begins
  -- at `from`, goes along edges of the graph, ends at `to`, and no walk between them has fewer
  -- edges; where it returns none, no walk leads from `from` to `to`.
  pub shortest_path-Answers :
      (g : CsrGraph F) (from to : ℕ) {i j : ℕ}
      → get_idx g from ≡ some i
      → get_idx g to ≡ some j
      → (answer : Option (List ℕ)) × (shortest_path g from to ≡ some answer)
        × Answers (λ u. targets (outgoing g u)) from to answer
  unfolding shortest_path
  shortest_path-Answers g from to known_from known_to = elim (Bool-cases (from == to)) [
    | inl same ↦ (
      some (from ∷ []),
      rw (same, shortest_path) refl,
      ([], refl, (==_iff from to).0 same, λ k w. omega arith),
    )
    | inr apart ↦
        let (answer, e, right) = searched g from to 0 known_from known_to apart in
        (
          answer,
          e,
          no_longer (λ u. targets (outgoing g u)) from to answer
              (λ n.
                let (answer', e', right') = searched g from to n known_from known_to apart in
                let same : answer' ≡ answer = ground (arith, e, e') in
                subst (AnswersUpTo (λ u. targets (outgoing g u)) from to n) same (
                  fewer_steps (λ u. targets (outgoing g u)) from to n (enough g + n) answer'
                    (omega arith) right')),
        )
  ]
