-- ===== src/Graph/Csr/Compact/Rows.antt =====
-- The edges that `compact` collects: the live edges of the storage row by row, then the log.
use grasp.Prelude.{
  map-map, ℕ, zero, suc, ◌≤◌, ◌≡◌, refl, sym, ap, ◌∙◌, inl, inr, Bool, true, false, not, List, [],
  ◌∷◌, ◌++◌, map, append-nil, arith, Memᴰ, ltb, ◌==◌, if◌then◌else◌, Bool-cases, as_u32, retain,
  retain-append, zip-map-map, retain-map, Memᴰ-retain,
}
use mathlib.Core.List.Memᴰ
use mathlib.Core.List.Permᴰ
use mathlib.Core.List.{Permᴰ}
use grasp.Graph.Storage.{IndexedEdge, row_of}
use grasp.Graph.Storage.Fill.{in_row}
use grasp.Graph.Csr.{CsrGraph, is_removed, existing_edges}
use grasp.Graph.Csr.View.{Holds, kept_row}

module _ {F : Type 0} where
  abbrev pub rows_upto : ℕ → List (IndexedEdge F) → List (IndexedEdge F)
  rows_upto zero xs = []
  rows_upto (suc k) xs = rows_upto k xs ++ in_row false k xs

  map_same_row :
      (k : ℕ) (xs : List (IndexedEdge F))
      → map (λ (e : IndexedEdge F). (k, e.1, e.2)) (in_row false k xs) ≡ in_row false k xs
  map_same_row k [] = refl
  map_same_row k ((r, c, d) ∷ xs) = ground (arith, map_same_row k xs)

  pub existing_edges-rows_upto :
      (g : CsrGraph F) (base : List (IndexedEdge F)) (n : ℕ)
      → Holds false g.csr base
      → n ≤ 4294967296
      → existing_edges g n ≡ rows_upto n (retain (λ e. not (is_removed g e.0 e.1)) base)
  unfolding existing_edges
  existing_edges-rows_upto g base zero h small = refl
  existing_edges-rows_upto g base (suc n) h small =
      let row : as_u32 n ≡ n = omega arith in
      let rest = existing_edges-rows_upto g base n h (omega arith) in
      rw (row, rest)
        (ap (λ z. rows_upto n (retain (λ e. not (is_removed g e.0 e.1)) base) ++ z)
          (simp (h.cols, h.values, zip-map-map, retain-map, map-map, kept_row)
            (map_same_row n (retain (λ e. not (is_removed g e.0 e.1)) base))))

  in_row-in_row :
      (i k : ℕ) (xs : List (IndexedEdge F))
      → in_row false i (in_row false k xs) ≡ (if k == i then in_row false i xs else [])
  in_row-in_row i k [] = ground arith
  in_row-in_row i k (x ∷ xs) = ground (arith, in_row-in_row i k xs)

  pub in_row-rows_upto :
      (i n : ℕ) (xs : List (IndexedEdge F))
      → in_row false i (rows_upto n xs) ≡ (if ltb i n then in_row false i xs else [])
  in_row-rows_upto i zero xs = ground arith
  in_row-rows_upto i (suc n) xs =
      retain-append (λ e. row_of false e == i) (rows_upto n xs) (in_row false n xs)
      ∙ rw (in_row-rows_upto i n xs, in_row-in_row i n xs)
          (ground (arith, append-nil (in_row false i xs)))

  pub mem-rows_upto :
      (e : IndexedEdge F) (n : ℕ) (xs : List (IndexedEdge F)) → Memᴰ e (rows_upto n xs) → Memᴰ e xs
  mem-rows_upto e zero xs m = absurd (Memᴰ.not-nil m)
  mem-rows_upto e (suc n) xs m = elim (Memᴰ.append_cases (rows_upto n xs) m) [
    | inl before ↦ mem-rows_upto e n xs before
    | inr here ↦ ((Memᴰ-retain (λ x. row_of false x == n) e xs).0 here).0
  ]

  next_row :
      (k : ℕ) (ys : List (IndexedEdge F))
      → Permᴰ (retain (λ e. ltb e.0 k) ys ++ in_row false k ys) (retain (λ e. ltb e.0 (suc k)) ys)
  next_row k [] = Permᴰ.nil
  next_row k (y ∷ ys) = elim (Bool-cases (ltb y.0 k)) [
    | inl below ↦
        let other : (y.0 == k) ≡ false = ground arith in
        let within : ltb y.0 (suc k) ≡ true = ground arith in
        rw (below, other, within) (Permᴰ.cons refl (next_row k ys))
    | inr above ↦ elim (Bool-cases (y.0 == k)) [
      | inl here ↦
          let within : ltb y.0 (suc k) ≡ true = ground arith in
          rw (above, here, within)
            (Permᴰ.trans (Permᴰ.middle y (retain (λ e. ltb e.0 k) ys) (in_row false k ys))
              (Permᴰ.cons refl (next_row k ys)))
      | inr other ↦
          let outside : ltb y.0 (suc k) ≡ false = ground arith in
          rw (above, other, outside) (next_row k ys)
    ]
  ]

  none_below_zero : (xs : List (IndexedEdge F)) → retain (λ e. ltb e.0 0) xs ≡ []
  none_below_zero [] = refl
  none_below_zero (x ∷ xs) = ground (arith, none_below_zero xs)

  -- The rows, one after the other, are a permutation of the edges of these rows.
  pub Perm-rows_upto :
      (n : ℕ) (xs : List (IndexedEdge F)) → Permᴰ (rows_upto n xs) (retain (λ e. ltb e.0 n) xs)
  Perm-rows_upto zero xs = rw (none_below_zero xs) Permᴰ.nil
  Perm-rows_upto (suc n) xs =
      Permᴰ.trans (Permᴰ.append_right (in_row false n xs) (Perm-rows_upto n xs)) (next_row n xs)

  pub Perm-retain :
      (p : IndexedEdge F → Bool) {xs ys : List (IndexedEdge F)}
      → Permᴰ xs ys
      → Permᴰ (retain p xs) (retain p ys)
  Perm-retain p Permᴰ.nil = Permᴰ.nil
  Perm-retain p (Permᴰ.cons {a} {b} e h) = elim (Bool-cases (p a)) [
    | inl kept ↦ rw (kept, ap p (sym e) ∙ kept) (Permᴰ.cons e (Perm-retain p h))
    | inr gone ↦ rw (gone, ap p (sym e) ∙ gone) (Perm-retain p h)
  ]
  Perm-retain p (Permᴰ.swap {a} {b} {a' = c} {b' = d} {l} e f) =
      rw (e, f) (both (p d) (p c) refl refl)
    where
      both :
          (x y : Bool)
          → p d ≡ x
          → p c ≡ y
          → Permᴰ
              (if p d
                then d ∷ (if p c then c ∷ retain p l else retain p l)
                else (if p c then c ∷ retain p l else retain p l))
              (if p c
                then c ∷ (if p d then d ∷ retain p l else retain p l)
                else (if p d then d ∷ retain p l else retain p l))
      both true true h k = rw (h, k) (Permᴰ.swap refl refl)
      both true false h k = rw (h, k) (Permᴰ.refl (d ∷ retain p l))
      both false true h k = rw (h, k) (Permᴰ.refl (c ∷ retain p l))
      both false false h k = rw (h, k) (Permᴰ.refl (retain p l))
  Perm-retain p (Permᴰ.trans h k) = Permᴰ.trans (Perm-retain p h) (Perm-retain p k)
