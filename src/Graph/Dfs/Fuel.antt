-- ===== src/Graph/Dfs/Fuel.antt =====
-- A round for each edge is enough: a node pushes its neighbours once, when it is first taken off
-- the stack.
use grasp.Prelude.{
  ℕ, ◌+◌, ◌≤◌, ◌≡◌, ap, ◌⊎◌, inl, inr, true, false, List, [], ◌∷◌, ◌++◌, arith, Memᴰ, ◌==◌,
  if◌then◌else◌, ==_iff, Bool-cases, length, contains, contains-append,
}
use mathlib.Core.List.Memᴰ
use grasp.Graph.Dfs.{push_unvisited, pushes}

pub push_unvisited-length-le :
    (visited : List ℕ) (depth : ℕ) (stack : List (ℕ × ℕ)) (ns : List ℕ)
    → length (push_unvisited visited depth stack ns) ≤ length stack + length ns
unfolding push_unvisited
push_unvisited-length-le visited depth stack [] = omega arith
push_unvisited-length-le visited depth stack (v ∷ ns) = elim (Bool-cases (contains visited v)) [
  | inl old ↦
      rw (old, push_unvisited) (omega (arith, push_unvisited-length-le visited depth stack ns))
  | inr fresh ↦
      rw (fresh, push_unvisited)
        (omega (arith, push_unvisited-length-le visited depth ((v, depth + 1) ∷ stack) ns))
]

-- What is on the stack was there, or is a neighbour.
pub of_push_unvisited :
    (visited : List ℕ) (depth : ℕ) (stack : List (ℕ × ℕ)) (ns : List ℕ) (v d : ℕ)
    → Memᴰ (v, d) (push_unvisited visited depth stack ns)
    → Memᴰ (v, d) stack ⊎ (Memᴰ v ns × (d ≡ depth + 1))
unfolding push_unvisited
of_push_unvisited visited depth stack [] v d m = inl m
of_push_unvisited visited depth stack (n ∷ ns) v d m = elim (Bool-cases (contains visited n)) [
  | inl old ↦ elim (of_push_unvisited visited depth stack ns v d (rw (old, push_unvisited) at m)) [
    | inl before ↦ inl before
    | inr (later, e) ↦ inr (Memᴰ.tail later, e)
  ]
  | inr fresh ↦
      elim (of_push_unvisited visited depth ((n, depth + 1) ∷ stack) ns v d
        (rw (fresh, push_unvisited) at m)) [
          | inl before ↦ elim (Memᴰ.cases_cons before) [
            | inl e ↦ inr (Memᴰ.head (ap (λ p. p.0) e), ap (λ p. p.1) e)
            | inr deeper ↦ inl deeper
          ]
          | inr (later, e) ↦ inr (Memᴰ.tail later, e)
        ]
]

pub push_unvisited-keeps :
    (visited : List ℕ) (depth : ℕ) (stack : List (ℕ × ℕ)) (ns : List ℕ) {p : ℕ × ℕ}
    → Memᴰ p stack
    → Memᴰ p (push_unvisited visited depth stack ns)
unfolding push_unvisited
push_unvisited-keeps visited depth stack [] m = m
push_unvisited-keeps visited depth stack (n ∷ ns) m = elim (Bool-cases (contains visited n)) [
  | inl old ↦ rw (old, push_unvisited) (push_unvisited-keeps visited depth stack ns m)
  | inr fresh ↦
      rw (fresh, push_unvisited)
        (push_unvisited-keeps visited depth ((n, depth + 1) ∷ stack) ns (Memᴰ.tail m))
]

-- A neighbour is visited or on the stack.
pub push_unvisited-offers :
    (visited : List ℕ) (depth : ℕ) (stack : List (ℕ × ℕ)) (ns : List ℕ) (v : ℕ)
    → Memᴰ v ns
    → (contains visited v ≡ true) ⊎ Memᴰ (v, depth + 1) (push_unvisited visited depth stack ns)
unfolding push_unvisited
push_unvisited-offers visited depth stack [] v m = absurd (Memᴰ.not-nil m)
push_unvisited-offers visited depth stack (n ∷ ns) v m = elim (Bool-cases (contains visited n)) [
  | inl old ↦ elim (Memᴰ.cases_cons m) [
    | inl e ↦ inl (rw e old)
    | inr later ↦ rw (old, push_unvisited) (push_unvisited-offers visited depth stack ns v later)
  ]
  | inr fresh ↦
      let stack' = (n, depth + 1) ∷ stack in
      rw (fresh, push_unvisited)
        (elim (Memᴰ.cases_cons m) [
          | inl e ↦ inr (
              push_unvisited-keeps visited depth stack' ns (Memᴰ.head (ap (λ x. (x, depth + 1)) e)))
          | inr later ↦ push_unvisited-offers visited depth stack' ns v later
        ])
]

-- The pushes that the nodes of `ids` still have before them.
abbrev pub remaining : (ℕ → List ℕ) → List ℕ → List ℕ → ℕ
remaining next visited [] = 0
remaining next visited (id ∷ ids) =
    (if contains visited id then 0 else length (next id)) + remaining next visited ids

remaining-concat-le :
    (next : ℕ → List ℕ) (visited ids : List ℕ) (v : ℕ)
    → remaining next (visited ++ v ∷ []) ids ≤ remaining next visited ids
remaining-concat-le next visited [] v = omega arith
remaining-concat-le next visited (x ∷ xs) v =
    ground (arith, remaining-concat-le next visited xs v, contains-append visited (v ∷ []) x)

pub remaining-concat :
    (next : ℕ → List ℕ) (visited ids : List ℕ) (v : ℕ)
    → contains visited v ≡ false
    → contains ids v ≡ true
    → remaining next (visited ++ v ∷ []) ids + length (next v) ≤ remaining next visited ids
remaining-concat next visited [] v fresh known = cc
remaining-concat next visited (x ∷ xs) v fresh known = elim (Bool-cases (x == v)) [
  | inl same ↦
      let e = (==_iff x v).0 same in
      let size : length (next x) ≡ length (next v) = ap (λ y. length (next y)) e in
      let old : contains visited x ≡ false = rw e fresh in
      ground (
        arith,
        size,
        old,
        remaining-concat-le next visited xs v,
        contains-append visited (v ∷ []) x,
      )
  | inr other ↦ ground (
    arith,
    other,
    remaining-concat next visited xs v fresh (rw other at known),
    contains-append visited (v ∷ []) x,
  )
]

pub remaining-le :
    (next : ℕ → List ℕ) (visited ids : List ℕ) → remaining next visited ids ≤ pushes next ids
remaining-le next visited [] = omega arith
remaining-le next visited (x ∷ xs) = ground (arith, remaining-le next visited xs)
