-- ===== src/Core/Conflict/Detected.antt =====
-- The marks of the nested loops are the versions that some other version is concurrent with.
use grasp.Prelude.{
  ℕ, zero, suc, ◌+◌, ◌-◌, ◌≤◌, ◌<◌, ◌≡◌, refl, sym, ◌∙◌, inl, inr, Bool, true, false, ◌&&◌, ◌||◌,
  Option, none, some, List, [], ◌∷◌, map, arith, ltb, leb, ◌==◌, if◌then◌else◌, ==_refl, Bool-cases,
  length, get_elem?, get_or, set, replicate, retain, any, length-set, length-replicate,
  length-retain-le, get_or-set, eq_of_get_or, length-map, zip,
}
use grasp.Prelude.{any}
use grasp.Core.Edge.{MemoryId}
use grasp.Core.Conflict.{ConflictVersion, Conflict, concurrent, mark_row, mark, detect_conflict}

joined :
    (known own mine beyond first rest : Bool)
    → (own ≡ true → beyond ≡ false)
    → (known || own && mine || beyond && first || beyond && rest)
      ≡ (known || (if own then mine else beyond && (first || rest)))
joined known true mine beyond first rest apart = rw (apart refl) (ground arith)
joined known false mine beyond first rest apart = ground arith

get_or-replicate : (n k : ℕ) → get_or (replicate n false) k false ≡ false
get_or-replicate zero k = refl
get_or-replicate (suc n) zero = refl
get_or-replicate (suc n) (suc k) = get_or-replicate n k

module _ {F : Type 0} where
  -- One of the versions is concurrent with `v`.
  abbrev pub has_rival : List (ConflictVersion F) → ConflictVersion F → Bool
  has_rival versions v = any (concurrent v) versions

  concurrent-sym : (v w : ConflictVersion F) → concurrent v w ≡ concurrent w v
  concurrent-sym v w = ground arith

  -- Whether a version is at the index, and is concurrent with `v`.
  abbrev rival_at : ConflictVersion F → List (ConflictVersion F) → ℕ → Bool
  rival_at v ws n = elim (get_elem? ws n) [ none ↦ false | some w ↦ concurrent v w ]

  -- The first of the versions is at `j`, the others behind it.
  rival_at-cons :
      (j k : ℕ) (v w : ConflictVersion F) (ws : List (ConflictVersion F))
      → (leb j k && rival_at v (w ∷ ws) (k - j))
        ≡ (if k == j then concurrent v w else leb (j + 1) k && rival_at v ws (k - (j + 1)))
  rival_at-cons j k v w ws = elim (Bool-cases (k == j)) [
    | inl same ↦
        let here : k - j ≡ 0 = ground arith in
        let le : leb j k ≡ true = ground arith in rw (same, here, le) refl
    | inr differs ↦ elim (Bool-cases (leb (j + 1) k)) [
      | inl beyond ↦
          let next : k - j ≡ suc (k - (j + 1)) = ground arith in
          let le : leb j k ≡ true = ground arith in rw (differs, next, le, beyond) refl
      | inr ahead ↦ let gt : leb j k ≡ false = ground arith in rw (differs, gt, ahead) refl
    ]
  ]

  -- After the inner loop for `v` at `i`: its own mark, and those of its rivals from `j`.
  mark_row-get_or :
      (i j k : ℕ) (v : ConflictVersion F) (ws : List (ConflictVersion F)) (d : List Bool)
      → i < length d
      → j + length ws ≤ length d
      → (length (mark_row i j v ws d) ≡ length d)
        × (get_or (mark_row i j v ws d) k false ≡ (
            get_or d k false
            || k == i && any (concurrent v) ws
            || leb j k && rival_at v ws (k - j)))
  unfolding mark_row
  mark_row-get_or i j k v [] d small fits = (refl, ground arith)
  mark_row-get_or i j k v (w ∷ ws) d small fits =
      let shift = rival_at-cons j k v w ws in
      elim (Bool-cases (concurrent v w)) [
        | inl rival ↦
            let d' = set (set d i true) j true in
            let size : length d' ≡ length d =
              length-set (set d i true) j true ∙ length-set d i true in
            let inner = length-set d i true in
            let (same, rest) =
              mark_row-get_or i (j + 1) k v ws d' (omega (arith, size)) (omega (arith, size)) in
            let outer = get_or-set (set d i true) j k true false (omega (arith, inner)) in
            let own = get_or-set d i k true false small in
            rw (rival, mark_row) (same ∙ size, rest ∙ rw (outer, own, shift, rival) (ground arith))
        | inr other ↦
            let (same, rest) = mark_row-get_or i (j + 1) k v ws d small (omega arith) in
            rw (other, mark_row) (same, rest ∙ rw (shift, other) (ground arith))
      ]

  -- A version at the index that is concurrent with one of the list.
  abbrev marked_at : List (ConflictVersion F) → List (ConflictVersion F) → ℕ → Bool
  marked_at all ws n = elim (get_elem? ws n) [ none ↦ false | some w ↦ any (concurrent w) all ]

  marked_at-cons :
      (i k : ℕ) (v : ConflictVersion F) (all ws : List (ConflictVersion F))
      → (leb i k && marked_at all (v ∷ ws) (k - i)) ≡ (
          if k == i
          then any (concurrent v) all
          else leb (i + 1) k && marked_at all ws (k - (i + 1)))
  marked_at-cons i k v all ws = elim (Bool-cases (k == i)) [
    | inl same ↦
        let here : k - i ≡ 0 = ground arith in
        let le : leb i k ≡ true = ground arith in rw (same, here, le) refl
    | inr differs ↦ elim (Bool-cases (leb (i + 1) k)) [
      | inl beyond ↦
          let next : k - i ≡ suc (k - (i + 1)) = ground arith in
          let le : leb i k ≡ true = ground arith in rw (differs, next, le, beyond) refl
      | inr ahead ↦ let gt : leb i k ≡ false = ground arith in rw (differs, gt, ahead) refl
    ]
  ]

  -- The marks with one more version in the list.
  marked_at-more :
      (v : ConflictVersion F) (ws all : List (ConflictVersion F)) (n : ℕ)
      → marked_at (v ∷ all) ws n ≡ (rival_at v ws n || marked_at all ws n)
  marked_at-more v [] all n = refl
  marked_at-more v (w ∷ ws) all zero = rw (concurrent-sym w v) refl
  marked_at-more v (w ∷ ws) all (suc n) = marked_at-more v ws all n

  concurrent_self : (v : ConflictVersion F) → concurrent v v ≡ false
  concurrent_self v = ground (arith, ==_refl v.agent_id)

  mark-get_or :
      (i k : ℕ) (ws : List (ConflictVersion F)) (d : List Bool)
      → i + length ws ≤ length d
      → (length (mark i ws d) ≡ length d)
        × (get_or (mark i ws d) k false ≡ (get_or d k false || leb i k && marked_at ws ws (k - i)))
  unfolding mark
  mark-get_or i k [] d fits = (refl, ground arith)
  mark-get_or i k (v ∷ ws) d fits =
      let (size, row) = mark_row-get_or i (i + 1) k v ws d (omega arith) (omega arith) in
      let (same, rest) =
        mark-get_or (i + 1) k ws (mark_row i (i + 1) v ws d) (omega (arith, size)) in
      let self = concurrent_self v in
      (
        same ∙ size,
        rest
            ∙ (rw
                (row, marked_at-cons i k v (v ∷ ws) ws, marked_at-more v ws ws (k - (i + 1)), self)
                (joined (get_or d k false) (k == i) (any (concurrent v) ws) (leb (i + 1) k)
                  (rival_at v ws (k - (i + 1))) (marked_at ws ws (k - (i + 1)))
                  (λ h. ground arith))),
      )

  get_or-marked_at :
      (all ws : List (ConflictVersion F)) (k : ℕ)
      → get_or (map (has_rival all) ws) k false ≡ marked_at all ws k
  get_or-marked_at all [] k = refl
  get_or-marked_at all (w ∷ ws) zero = refl
  get_or-marked_at all (w ∷ ws) (suc k) = get_or-marked_at all ws k

  -- The marks of both loops together.
  mark-has_rival :
      (versions : List (ConflictVersion F))
      → mark 0 versions (replicate (length versions) false) ≡ map (has_rival versions) versions
  mark-has_rival versions =
      let size = length-replicate (length versions) false in
      let d = replicate (length versions) false in
      eq_of_get_or (mark 0 versions d) (map (has_rival versions) versions) false
        ((mark-get_or 0 0 versions d (omega (arith, size))).0
          ∙ (size ∙ sym (length-map (has_rival versions) versions)))
        (λ k lt.
          (mark-get_or 0 k versions d (omega (arith, size))).1
          ∙ (rw (get_or-replicate (length versions) k) (ground arith)
              ∙ sym (get_or-marked_at versions versions k)))

  retain-zip :
      (p : ConflictVersion F → Bool) (ws : List (ConflictVersion F))
      → map (λ q. q.0) (retain (λ q. q.1) (zip ws (map p ws))) ≡ retain p ws
  retain-zip p [] = refl
  retain-zip p (w ∷ ws) = ground (arith, retain-zip p ws)

  -- The conflict of the given versions, if there are two.
  abbrev pub conflict_of : MemoryId → List (ConflictVersion F) → Option (Conflict F)
  conflict_of memory_id rivals =
      if leb 2 (length rivals)
      then some (record { memory_id = memory_id; versions = rivals; resolution = none })
      else none

  -- `detect_conflict` reports, in order, exactly the versions that another version of a different
  -- agent is within a second of, and reports nothing where there are fewer than two of them.
  pub detect_conflict-conflict_of :
      (memory_id : MemoryId) (versions : List (ConflictVersion F))
      → detect_conflict memory_id versions
        ≡ conflict_of memory_id (retain (has_rival versions) versions)
  unfolding detect_conflict
  detect_conflict-conflict_of memory_id versions =
      let rivals = retain (has_rival versions) versions in
      let fewer = length-retain-le (has_rival versions) versions in
      rw (mark-has_rival versions, retain-zip (has_rival versions) versions)
        (elim (Bool-cases (ltb (length versions) 2)) [
          | inl few ↦
              let short : leb 2 (length rivals) ≡ false = ground (arith, fewer) in
              rw (few, short) refl
          | inr enough ↦ rw enough refl
        ])
