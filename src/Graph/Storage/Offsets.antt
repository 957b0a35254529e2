-- ===== src/Graph/Storage/Offsets.antt =====
-- The offsets of `build_compressed` are the numbers of edges in the rows before, and a slice
-- between two of them is a row.
use grasp.Prelude.{
  ℕ, zero, suc, ◌+◌, ◌-◌, ◌≤◌, ◌<◌, ◌≡◌, refl, ap, ◌∙◌, Bool, List, [], ◌∷◌, map, arith, ltb,
  if◌then◌else◌, add_u32, length, get_or, set, replicate, take, drop, length-set, length-replicate,
  get_or-set, eq_of_get_or, length-map, get_or-take, length-take, get_or-drop, length-drop,
}
use grasp.Graph.Storage.{
  IndexedEdge, row_of, col_of, slice, count_rows, prefix_sums, Filling, write_edge, fill,
}
use grasp.Graph.Storage.Fill.{in_row, count, Room, place, place_self, length-place}

abbrev total : List ℕ → ℕ
total [] = 0
total (c ∷ cs) = c + total cs

total-set :
    (cs : List ℕ) (i : ℕ) → i < length cs → total (set cs i (get_or cs i 0 + 1)) ≡ total cs + 1
total-set [] i h = absurd (omega arith)
total-set (c ∷ cs) zero h = omega arith
total-set (c ∷ cs) (suc i) h = omega (arith, total-set cs i (omega arith))

get_or-le-total : (cs : List ℕ) (i : ℕ) → get_or cs i 0 ≤ total cs
get_or-le-total [] i = omega arith
get_or-le-total (c ∷ cs) zero = omega arith
get_or-le-total (c ∷ cs) (suc i) = omega (arith, get_or-le-total cs i)

total-replicate : (n : ℕ) → total (replicate n 0) ≡ 0
total-replicate zero = refl
total-replicate (suc n) = omega (arith, total-replicate n)

get_or-replicate : (n i : ℕ) → get_or {A = ℕ} (replicate n 0) i 0 ≡ 0
get_or-replicate zero i = refl
get_or-replicate (suc n) zero = refl
get_or-replicate (suc n) (suc i) = get_or-replicate n i

-- The prefix sums without wrap-around.
module _ (limit : ℕ) (small : limit < 4294967296) where
  prefix_step :
      (o : ℕ) (cs : List ℕ) (r : ℕ)
      → o + total cs ≤ limit
      → r < length cs
      → get_or (prefix_sums o cs) (suc r) 0 ≡ get_or (prefix_sums o cs) r 0 + get_or cs r 0
  unfolding prefix_sums
  prefix_step o [] r fits lt = absurd (omega arith)
  prefix_step o (c ∷ []) zero fits lt = omega arith
  prefix_step o (c ∷ c' ∷ cs) zero fits lt = omega arith
  prefix_step o (c ∷ cs) (suc r) fits lt =
      prefix_step (add_u32 o c) cs r (omega arith) (omega arith)

  prefix_last :
      (o : ℕ) (cs : List ℕ)
      → o + total cs ≤ limit
      → get_or (prefix_sums o cs) (length cs) 0 ≡ o + total cs
  unfolding prefix_sums
  prefix_last o [] fits = omega arith
  prefix_last o (c ∷ cs) fits = omega (arith, prefix_last (add_u32 o c) cs (omega arith))

  prefix_mono :
      (o : ℕ) (cs : List ℕ) (r k : ℕ)
      → o + total cs ≤ limit
      → r + k ≤ length cs
      → get_or (prefix_sums o cs) r 0 ≤ get_or (prefix_sums o cs) (r + k) 0
  prefix_mono o cs r zero fits le = let e : r + 0 ≡ r = omega arith in rw e (omega arith)
  prefix_mono o cs r (suc k) fits le =
      let e : r + suc k ≡ suc (r + k) = omega arith in
      rw e (
        omega (
          arith,
          prefix_mono o cs r k fits (omega arith),
          prefix_step o cs (r + k) fits (omega arith),
        ))

pub length-prefix_sums : (o : ℕ) (cs : List ℕ) → length (prefix_sums o cs) ≡ suc (length cs)
unfolding prefix_sums
length-prefix_sums o [] = refl
length-prefix_sums o (c ∷ cs) = ap suc (length-prefix_sums (add_u32 o c) cs)

total_step :
    (cs : List ℕ) (row n k : ℕ)
    → length cs ≡ n
    → total cs + suc k < 4294967296
    → total (if ltb row n then set cs row (add_u32 (get_or cs row 0) 1) else cs) ≤ total cs + 1
total_step cs row n k size small =
    let e : get_or cs row 0 + 1 ≡ add_u32 (get_or cs row 0) 1 =
      omega (arith, get_or-le-total cs row) in
    ground (arith, total-set cs row, ap (λ c. total (set cs row c)) e)

module _ {F : Type 0} (n : ℕ) (t : Bool) where
  length-count_rows :
      (cs : List ℕ) (es : List (IndexedEdge F)) → length (count_rows n t cs es) ≡ length cs
  unfolding count_rows
  length-count_rows cs [] = refl
  length-count_rows cs (e ∷ es) = ground (
    arith,
    length-count_rows
        (if ltb (row_of t e) n
          then set cs (row_of t e) (add_u32 (get_or cs (row_of t e) 0) 1)
          else cs)
        es,
    length-set cs (row_of t e) (add_u32 (get_or cs (row_of t e) 0) 1),
  )

  -- The counts are those of the rows, and sum up to no more than the number of edges.
  count_rows_lem :
      (cs : List ℕ) (es : List (IndexedEdge F))
      → length cs ≡ n
      → total cs + length es < 4294967296
      → (total (count_rows n t cs es) ≤ total cs + length es)
        × ((r : ℕ) → r < n → get_or (count_rows n t cs es) r 0 ≡ get_or cs r 0 + count n t r es)
  unfolding count_rows
  count_rows_lem cs [] size small = (omega arith, λ r lt. omega arith)
  count_rows_lem cs (e ∷ es) size small =
      let row = row_of t e in
      let cs' = if ltb row n then set cs row (add_u32 (get_or cs row 0) 1) else cs in
      let bound = get_or-le-total cs row in
      let size' : length cs' ≡ n =
        ground (arith, length-set cs row (add_u32 (get_or cs row 0) 1)) in
      let sum : total cs' ≤ total cs + 1 = total_step cs row n (length es) size small in
      let (sums, rows) = count_rows_lem cs' es size' (omega arith) in
      (
        omega arith,
        λ r lt.
            ground (arith, rows r lt, bound, get_or-set cs row r (add_u32 (get_or cs row 0) 1) 0),
      )

  -- The loop over both arrays is the loop over each.
  pub fill-place :
      (s : Filling F) (es : List (IndexedEdge F))
      → ((fill n t s es).col_indices ≡ place n t (col_of t) s.col_indices s.cursors es)
        × ((fill n t s es).edge_data ≡ place n t (λ e. e.2) s.edge_data s.cursors es)
  unfolding fill place write_edge
  fill-place s [] = (refl, refl)
  fill-place s (e ∷ es) = ground (arith, fill-place (write_edge n t s e) es)

-- A slice inside the bounds.
length-slice {ℓ} :
    {A : Type ℓ} (xs : List A) (a b : ℕ) → a ≤ b → b ≤ length xs → length (slice xs a b) ≡ b - a
length-slice xs a b le fits = length-take (b - a) (drop a xs) (omega (arith, length-drop a xs))

get_or-slice {ℓ} :
    {A : Type ℓ} (xs : List A) (a b k : ℕ) (d : A)
    → k < b - a
    → get_or (slice xs a b) k d ≡ get_or xs (a + k) d
get_or-slice xs a b k d lt = get_or-take (b - a) (drop a xs) k d lt ∙ get_or-drop a xs k d

module _ {F : Type 0} (es : List (IndexedEdge F)) (n : ℕ) (t : Bool)
    (small : length es < 4294967296) where
  abbrev pub counts : List ℕ
  counts = count_rows n t (replicate n 0) es

  abbrev pub offset : ℕ → ℕ
  offset r = get_or (prefix_sums 0 counts) r 0

  pub size : length counts ≡ n
  size = length-count_rows n t (replicate n 0) es ∙ length-replicate n 0

  sums : total counts < 4294967296
  sums =
      let (below, _) =
        count_rows_lem n t (replicate n 0) es (length-replicate n 0)
          (omega (arith, total-replicate n)) in
      omega (arith, total-replicate n)

  row_count : (r : ℕ) → r < n → get_or counts r 0 ≡ count n t r es
  row_count r lt =
      let (_, rows) =
        count_rows_lem n t (replicate n 0) es (length-replicate n 0)
          (omega (arith, total-replicate n)) in
      omega (arith, rows r lt, get_or-replicate n r)

  offset_step : (r : ℕ) → r < n → offset (suc r) ≡ offset r + count n t r es
  offset_step r lt = omega (
    arith,
    row_count r lt,
    prefix_step (total counts) sums 0 counts r (omega arith) (omega (arith, size)),
  )

  pub offset_mono : (r r' : ℕ) → r ≤ r' → r' ≤ n → offset r ≤ offset r'
  offset_mono r r' le le' =
      let e : r + (r' - r) ≡ r' = omega arith in
      rw e at
        (prefix_mono (total counts) sums 0 counts r (r' - r) (omega arith) (omega (arith, size)))

  pub offset_last : offset n ≡ total counts
  offset_last =
      let e = rw size at (prefix_last (total counts) sums 0 counts (omega arith)) in omega arith

  abbrev pub cursors : List ℕ
  cursors = take n (prefix_sums 0 counts)

  length-cursors : length cursors ≡ n
  length-cursors =
      length-take n (prefix_sums 0 counts) (omega (arith, size, length-prefix_sums 0 counts))

  start : (r : ℕ) → r < n → get_or cursors r 0 ≡ offset r
  start r lt = get_or-take n (prefix_sums 0 counts) r 0 lt

  start-Room : Room n t (total counts) cursors es
  start-Room = record {
    size = length-cursors;
    small = sums;
    ends = λ r lt.
        omega (
          arith,
          start r lt,
          offset_step r lt,
          offset_mono (suc r) n lt (omega arith),
          offset_last,
        );
    apart = λ r r' lt lt'. omega (
      arith,
      start r (omega arith),
      start r' lt',
      offset_step r (omega arith),
      offset_mono (suc r) r' lt (omega arith),
    );
  }

  -- One array of the storage: its slice for a row holds that row's values.
  pub row-slice :
      {A : Type 0} (v : IndexedEdge F → A) (blank : A) (r : ℕ)
      → r < n
      → slice (place n t v (replicate (total counts) blank) cursors es) (offset r) (offset (suc r))
        ≡ map v (in_row t r es)
  row-slice v blank r lt =
      let arr = place n t v (replicate (total counts) blank) cursors es in
      let step = offset_step r lt in
      let fits = offset_mono (suc r) n lt (omega arith) in
      let len : length arr ≡ total counts =
        length-place n t v (replicate (total counts) blank) cursors es
        ∙ length-replicate (total counts) blank in
      eq_of_get_or (slice arr (offset r) (offset (suc r))) (map v (in_row t r es)) blank
        (omega (
          arith,
          length-slice arr (offset r) (offset (suc r)) (omega arith) (omega (arith, offset_last)),
          length-map v (in_row t r es),
        ))
        (λ k kt.
          let inside : k < count n t r es = omega (
            arith,
            length-slice arr (offset r) (offset (suc r)) (omega arith) (omega (arith, offset_last)),
          ) in
          get_or-slice arr (offset r) (offset (suc r)) k blank (omega arith)
          ∙ rw (← start r lt) (
              place_self n t v (total counts) (replicate (total counts) blank) cursors es r k blank
                start-Room (length-replicate (total counts) blank) lt inside))
