-- ===== src/Graph/Traversal/Trace.antt =====
-- The trace of a search: the nodes already reported, then the queue. Nodes are only ever added at
-- its end, so it is the order of discovery.
use grasp.Prelude.{
  ℕ, ◌≤◌, ◌≡◌, refl, ◌∙◌, inl, inr, false, none, some, List, [], ◌∷◌, ◌++◌, arith, ◌==◌, ==_iff,
  Bool-cases, lookup,
}
use grasp.Graph.Traversal.{Search}

abbrev pub trace : Search → List (ℕ × ℕ)
trace s = s.result ++ s.queue

-- No node twice.
abbrev pub Distinct : List (ℕ × ℕ) → Type 0
Distinct [] = Unit
Distinct ((v, d) ∷ xs) = (lookup v xs ≡ none) × Distinct xs

-- Depths that do not fall, from `lo` up to `hi`.
abbrev pub Within : ℕ → ℕ → List (ℕ × ℕ) → Type 0
Within lo hi [] = lo ≤ hi
Within lo hi ((v, d) ∷ xs) = (lo ≤ d) × Within d hi xs

pub Within-concat :
    (lo hi v : ℕ) (xs : List (ℕ × ℕ)) → Within lo hi xs → Within lo hi (xs ++ (v, hi) ∷ [])
Within-concat lo hi v [] h = (h, omega arith)
Within-concat lo hi v ((x, d) ∷ xs) h = (h.0, Within-concat d hi v xs h.1)

pub Within-raise :
    (lo hi hi' : ℕ) (xs : List (ℕ × ℕ)) → hi ≤ hi' → Within lo hi xs → Within lo hi' xs
Within-raise lo hi hi' [] le h = omega arith
Within-raise lo hi hi' ((x, d) ∷ xs) le h = (h.0, Within-raise d hi hi' xs le h.1)

pub lookup-Within :
    (lo hi v d : ℕ) (xs : List (ℕ × ℕ)) → Within lo hi xs → lookup v xs ≡ some d → lo ≤ d
lookup-Within lo hi v d [] h there = cc
lookup-Within lo hi v d ((x, k) ∷ xs) h there = elim (Bool-cases (x == v)) [
  | inl same ↦ ground arith
  | inr other ↦ omega (arith, lookup-Within k hi v d xs h.1 (rw other at there), h.0)
]

pub lookup-append :
    (v : ℕ) (xs ys : List (ℕ × ℕ))
    → lookup v (xs ++ ys) ≡ elim (lookup v xs) [ none ↦ lookup v ys | some d ↦ some d ]
lookup-append v [] ys = refl
lookup-append v ((x, d) ∷ xs) ys = ground (arith, lookup-append v xs ys)

pub lookup-append_left :
    (v d : ℕ) (xs ys : List (ℕ × ℕ)) → lookup v xs ≡ some d → lookup v (xs ++ ys) ≡ some d
lookup-append_left v d xs ys h = lookup-append v xs ys ∙ rw h

pub lookup-append_right :
    (v : ℕ) (xs ys : List (ℕ × ℕ)) → lookup v xs ≡ none → lookup v (xs ++ ys) ≡ lookup v ys
lookup-append_right v xs ys h = lookup-append v xs ys ∙ rw h

pub Distinct-concat :
    (v d : ℕ) (xs : List (ℕ × ℕ)) → Distinct xs → lookup v xs ≡ none → Distinct (xs ++ (v, d) ∷ [])
Distinct-concat v d [] h fresh = (refl, tt)
Distinct-concat v d ((x, k) ∷ xs) h fresh =
    let other : (x == v) ≡ false = ground arith in
    (
      lookup-append_right x xs ((v, d) ∷ []) h.0 ∙ ground arith,
      Distinct-concat v d xs h.1 (ground arith),
    )

-- In a list without repetitions the entry behind a prefix is not in the prefix.
pub fresh-Distinct :
    (v d : ℕ) (xs ys : List (ℕ × ℕ)) → Distinct (xs ++ (v, d) ∷ ys) → lookup v xs ≡ none
fresh-Distinct v d [] ys h = refl
fresh-Distinct v d ((x, k) ∷ xs) ys h =
    let rest = fresh-Distinct v d xs ys h.1 in
    let behind = lookup-append_right v xs ((v, d) ∷ ys) rest in
    elim (Bool-cases (x == v)) [
      | inl same ↦ let gone = rw ((==_iff x v).0 same, behind) at h.0 in ground arith
      | inr other ↦ rw other rest
    ]
