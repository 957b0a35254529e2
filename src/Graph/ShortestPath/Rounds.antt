-- ===== src/Graph/ShortestPath/Rounds.antt =====
-- One round of `shortest_path` beside a round of the search with depths.
use grasp.Prelude.{
  ℕ, suc, ◌+◌, ◌≤◌, ◌<◌, ◌≡◌, refl, sym, ap, ◌∙◌, subst, ◌⊎◌, inl, inr, false, none, some, List, [],
  ◌∷◌, ◌++◌, map, map-append, arith, Memᴰ, ◌==◌, ==_iff, ==_refl, Bool-cases, length, length-append,
  HashMap, lookup, insert, lookup-insert, contains, contains-append,
}
use grasp.Graph.Traversal.{Search, push_new}
use grasp.Graph.Traversal.Trace.{trace}
use grasp.Graph.Traversal.Discovery.{Walk, step, Mid, pushed-lookup, pushed-Mid}
use grasp.Graph.ShortestPath.{PathSearch, arrived, onward, offer}
use grasp.Graph.ShortestPath.Chain.{Chain, root, link, Chain-insert}

-- The code's state beside a search with depths.
abbrev pub beside : Search → HashMap ℕ → PathSearch
beside s parent = record { visited = s.visited; parent = parent; queue = map (λ p. p.0) s.queue }

module _ (next : ℕ → List ℕ) (from to : ℕ) where
  -- Depths are at most `bound`, and smaller than the number of visited nodes.
  pub record Linked (bound : ℕ) (s : Search) (parent : HashMap ℕ) : Type 0 where
    pub chained : (v d : ℕ) → lookup v (trace s) ≡ some d → (v ≡ from) ⊎ Chain next from parent v d
    pub unset : (v : ℕ) → contains s.visited v ≡ false → lookup v parent ≡ none
    pub room : (v d : ℕ) → lookup v (trace s) ≡ some d → d < length s.visited
    pub bounded : (v d : ℕ) → lookup v (trace s) ≡ some d → d ≤ bound
    pub missing : contains s.visited to ≡ false

  -- How the node that is expanded was reached.
  abbrev pub Behind : ℕ → ℕ → HashMap ℕ → Type 0
  Behind u level parent =
      ((u ≡ from) × (level ≡ 0)) ⊎ (((u == from) ≡ false) × Chain next from parent u level)

  Behind-Chain :
      (u v level : ℕ) (parent : HashMap ℕ)
      → Behind u level parent
      → lookup v parent ≡ some u
      → Memᴰ v (next u)
      → Chain next from parent v (suc level)
  Behind-Chain u v level parent (inl (e, z)) there m =
      subst (λ k. Chain next from parent v (suc k)) (sym z)
        (root (there ∙ ap some e) (subst (λ x. Memᴰ v (next x)) e m))
  Behind-Chain u v level parent (inr (ne, c)) there m = link there ne m c

  Behind-insert :
      (u level w z : ℕ) (parent : HashMap ℕ)
      → lookup w parent ≡ none
      → Behind u level parent
      → Behind u level (insert w z parent)
  Behind-insert u level w z parent fresh (inl e) = inl e
  Behind-insert u level w z parent fresh (inr (ne, c)) =
      inr (ne, Chain-insert next from to parent w z fresh c)

  module _ (max_depth bound u level : ℕ) (below : level < max_depth) (le : level < bound) where
    abbrev met : Search → ℕ → Search
    met s v = record s { visited = s.visited ++ v ∷ []; queue = s.queue ++ (v, level + 1) ∷ [] }

    met-Linked :
        (s : Search) (parent : HashMap ℕ) (v : ℕ)
        → Mid next from max_depth level s
        → Linked bound s parent
        → level < length s.visited
        → Behind u level parent
        → Memᴰ v (next u)
        → contains s.visited v ≡ false
        → (v == to) ≡ false
        → Linked bound (met s v) (insert v u parent)
    met-Linked s parent v mid linked small behind edge fresh other =
        let gone : lookup v (trace s) ≡ none = ground (arith, mid.seen v) in
        let at = λ (x : ℕ). pushed-lookup next from max_depth level s v x gone in
        let unset = linked.unset v fresh in
        let size = length-append s.visited (v ∷ []) in
        record {
          chained = λ x d h. elim (Bool-cases (v == x)) [
            | inl same ↦
                let e = (==_iff v x).0 same in
                let k : suc level ≡ d = ground (arith, at x) in
                let set : lookup v (insert v u parent) ≡ some u =
                  lookup-insert v v u parent ∙ rw (==_refl v) refl in
                inr (
                  subst (λ y. Chain next from (insert v u parent) y d) e
                    (subst (Chain next from (insert v u parent) v) k (
                      Behind-Chain u v level (insert v u parent)
                        (Behind-insert u level v u parent unset behind) set edge)))
            | inr differs ↦ elim (linked.chained x d (ground (arith, at x))) [
              | inl e ↦ inl e
              | inr c ↦ inr (Chain-insert next from to parent v u unset c)
            ]
          ];
          unset = λ x h. ground (
            arith,
            lookup-insert v x u parent,
            linked.unset x,
            contains-append s.visited (v ∷ []) x,
          );
          room = λ x d h. ground (arith, at x, linked.room x d, size);
          bounded = λ x d h. ground (arith, at x, linked.bounded x d);
          missing = ground (arith, contains-append s.visited (v ∷ []) to, linked.missing);
        }

    -- A whole round: the search goes on beside the one with depths, or the node is there.
    pub offer-Linked :
        (s : Search) (parent : HashMap ℕ) (ns : List ℕ)
        → Mid next from max_depth level s
        → Linked bound s parent
        → level < length s.visited
        → Behind u level parent
        → ((v : ℕ) → Memᴰ v ns → Memᴰ v (next u))
        → Walk next from u level
        → ((later : HashMap ℕ) × (offer to u (beside s parent) ns
              ≡ onward (beside (push_new level s ns) later))
            × Linked bound (push_new level s ns) later)
          ⊎ ((last : PathSearch) × (offer to u (beside s parent) ns ≡ arrived last)
              × Chain next from last.parent to (suc level)
              × (suc level ≤ length last.visited))
    unfolding offer push_new
    offer-Linked s parent [] mid linked small behind edges walk = inl (parent, refl, linked)
    offer-Linked s parent (v ∷ ns) mid linked small behind edges walk =
        let rest = λ (x : ℕ) (m : Memᴰ x ns). edges x (Memᴰ.tail m) in
        let edge = edges v (Memᴰ.head refl) in
        elim (Bool-cases (contains s.visited v)) [
          | inl old ↦
              rw (old, offer, push_new) (offer-Linked s parent ns mid linked small behind rest walk)
          | inr fresh ↦
              let unset = linked.unset v fresh in
              let size = length-append s.visited (v ∷ []) in
              let behind' = Behind-insert u level v u parent unset behind in
              elim (Bool-cases (v == to)) [
                | inl there ↦
                    let e = (==_iff v to).0 there in
                    let last = record (beside s parent) {
                      visited = s.visited ++ v ∷ [];
                      parent = insert v u parent;
                    } in
                    let set : lookup v (insert v u parent) ≡ some u =
                      lookup-insert v v u parent ∙ rw (==_refl v) refl in
                    inr (
                      last,
                      rw (fresh, offer, there) refl,
                      subst (λ y. Chain next from (insert v u parent) y (suc level)) e
                          (Behind-Chain u v level (insert v u parent) behind' set edge),
                      omega (arith, size),
                    )
                | inr other ↦
                    let queued : map (λ p. p.0) s.queue ++ v ∷ [] ≡ map (λ p. p.0) (met s v).queue =
                      sym (map-append (λ p. p.0) s.queue ((v, level + 1) ∷ [])) in
                    rw (fresh, offer, push_new, other, queued)
                      (offer-Linked (met s v) (insert v u parent) ns
                        (pushed-Mid next from max_depth level s v mid below (step walk edge) fresh)
                        (met-Linked s parent v mid linked small behind edge fresh other)
                        (omega (arith, size)) behind' rest walk)
              ]
        ]
