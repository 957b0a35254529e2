-- ===== src/Graph/ShortestPath/Chain.antt =====
-- The way back along the parents: a chain of parents, and the steps that it is turned into.
use grasp.Prelude.{
  ℕ, zero, suc, ◌+◌, ◌≤◌, ◌≡◌, refl, false, none, some, List, [], ◌∷◌, arith, Memᴰ, ◌==◌, ==_refl,
  length, HashMap, lookup, insert, lookup-insert,
}
use mathlib.Core.List.{reverse_aux}
use grasp.Graph.ShortestPath.{follow}

-- A walk as the list of the nodes behind its first one.
abbrev pub Steps : (ℕ → List ℕ) → ℕ → List ℕ → ℕ → Type 0
Steps next u [] v = u ≡ v
Steps next u (w ∷ ws) v = Memᴰ w (next u) × Steps next w ws v

-- `Chain next from parent v k`: the parents lead in `k` steps from `v` back to `from`.
pub data Chain (next : ℕ → List ℕ) (from : ℕ) (parent : HashMap ℕ) : ℕ → ℕ → Type 0 where
  root : {v : ℕ} → lookup v parent ≡ some from → Memᴰ v (next from) → Chain next from parent v 1
  link :
      {u v k : ℕ}
      → lookup v parent ≡ some u
      → (u == from) ≡ false
      → Memᴰ v (next u)
      → Chain next from parent u k
      → Chain next from parent v (suc k)

module _ (next : ℕ → List ℕ) (from to : ℕ) where
  pub Chain-insert :
      (parent : HashMap ℕ) (w z : ℕ)
      → lookup w parent ≡ none
      → {v k : ℕ} → Chain next from parent v k
      → Chain next from (insert w z parent) v k
  Chain-insert parent w z fresh (root {v} e m) = root (ground (arith, lookup-insert w v z parent)) m
  Chain-insert parent w z fresh (link {u} {v} {k} e ne m c) =
      link (ground (arith, lookup-insert w v z parent)) ne m (Chain-insert parent w z fresh c)

  -- The reconstruction returns along the chain, given a round for each of its steps.
  pub follow-Steps :
      (parent : HashMap ℕ) (fuel : ℕ) {cur k : ℕ}
      → Chain next from parent cur k
      → k ≤ fuel
      → (acc : List ℕ) → Steps next cur acc to
      → (pushes rest : List ℕ) × (follow parent from fuel cur ≡ some pushes)
        × (reverse_aux (cur ∷ pushes) acc ≡ from ∷ rest)
        × Steps next from rest to
        × (length rest ≡ k + length acc)
  unfolding follow
  follow-Steps parent zero (root {v} e m) le acc steps = absurd (omega arith)
  follow-Steps parent zero (link {u} {v} {k} e ne m c) le acc steps = absurd (omega arith)
  follow-Steps parent (suc fuel) (root {v} e m) le acc steps =
      (from ∷ [], v ∷ acc, rw (e, follow, ==_refl from) refl, refl, (m, steps), omega arith)
  follow-Steps parent (suc fuel) (link {u} {v} {k} e ne m c) le acc steps =
      let (pushes, rest, returns, back, walk, size) =
        follow-Steps parent fuel c (omega arith) (v ∷ acc) (m, steps) in
      (u ∷ pushes, rest, rw (e, follow, ne, returns) refl, back, walk, omega (arith, size))
