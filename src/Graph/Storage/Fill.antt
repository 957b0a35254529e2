-- ===== src/Graph/Storage/Fill.antt =====
-- The last loop of `build_compressed` writes the edges of each row, in order, from the row's
-- first cursor on. Both arrays are written at the same places, so one array is enough here.
use grasp.Prelude.{
  ℕ, zero, suc, ◌+◌, ◌≤◌, ◌<◌, ◌≡◌, refl, ◌⊎◌, Bool, List, [], ◌∷◌, map, arith, ltb, ◌==◌,
  if◌then◌else◌, add_u32, length, get_or, set, retain, length-set, get_or-set_self, get_or-set_ne,
  get_or-set,
}
use grasp.Graph.Storage.{IndexedEdge, row_of}

-- The edges of row `r`, in the order of the list: the specification.
abbrev pub in_row : {F : Type 0} → Bool → ℕ → List (IndexedEdge F) → List (IndexedEdge F)
in_row transpose r = retain (λ e. row_of transpose e == r)

module _ {F : Type 0} (n : ℕ) (t : Bool) where
  -- How many edges of row `r` are still to be written.
  abbrev pub count : ℕ → List (IndexedEdge F) → ℕ
  count r es = length (in_row t r es)

  abbrev pub move : List ℕ → IndexedEdge F → List ℕ
  move cur e =
      if ltb (row_of t e) n
      then set cur (row_of t e) (add_u32 (get_or cur (row_of t e) 0) 1)
      else cur

  -- Each row has room for its remaining edges below the room of the next, and below the limit.
  pub record Room (limit : ℕ) (cur : List ℕ) (es : List (IndexedEdge F)) : Type 0 where
    pub size : length cur ≡ n
    pub small : limit < 4294967296
    pub ends : (r : ℕ) → r < n → get_or cur r 0 + count r es ≤ limit
    pub apart : (r r' : ℕ) → r < r' → r' < n → get_or cur r 0 + count r es ≤ get_or cur r' 0

  move-get_or :
      (limit : ℕ) (cur : List ℕ) (e : IndexedEdge F) (es : List (IndexedEdge F)) (r : ℕ)
      → Room limit cur (e ∷ es)
      → r < n
      → (get_or (move cur e) r 0 + count r es ≡ get_or cur r 0 + count r (e ∷ es))
        × (get_or cur r 0 ≤ get_or (move cur e) r 0)
  move-get_or limit cur e es r room lt = ground (
    arith,
    room.ends r lt,
    get_or-set cur (row_of t e) r (add_u32 (get_or cur (row_of t e) 0) 1) 0,
  )

  move-Room :
      (limit : ℕ) (cur : List ℕ) (e : IndexedEdge F) (es : List (IndexedEdge F))
      → Room limit cur (e ∷ es)
      → Room limit (move cur e) es
  move-Room limit cur e es room = record {
    size =
        ground
          (arith, length-set cur (row_of t e) (add_u32 (get_or cur (row_of t e) 0) 1), room.size);
    small = room.small;
    ends = λ r lt. omega (arith, room.ends r lt, move-get_or limit cur e es r room lt);
    apart = λ r r' lt lt'. omega (
      arith,
      room.apart r r' lt lt',
      move-get_or limit cur e es r room (omega arith),
      move-get_or limit cur e es r' room lt',
    );
  }

  module _ {A : Type 0} (v : IndexedEdge F → A) where
    -- One array under the loop.
    unfoldable pub place : List A → List ℕ → List (IndexedEdge F) → List A
    place arr cur [] = arr
    place arr cur (e ∷ es) =
        place (if ltb (row_of t e) n then set arr (get_or cur (row_of t e) 0) (v e) else arr)
          (move cur e) es

    pub length-place :
        (arr : List A) (cur : List ℕ) (es : List (IndexedEdge F))
        → length (place arr cur es) ≡ length arr
    unfolding place
    length-place arr cur [] = refl
    length-place arr cur (e ∷ es) =
        let at = get_or cur (row_of t e) 0 in
        ground (
          arith,
          length-place (if ltb (row_of t e) n then set arr at (v e) else arr) (move cur e) es,
          length-set arr at (v e),
        )

    place_other :
        (limit : ℕ) (arr : List A) (cur : List ℕ) (es : List (IndexedEdge F)) (p : ℕ) (d : A)
        → Room limit cur es
        → ((r : ℕ) → r < n → (p < get_or cur r 0) ⊎ (get_or cur r 0 + count r es ≤ p))
        → get_or (place arr cur es) p d ≡ get_or arr p d
    unfolding place
    place_other limit arr cur [] p d room out = refl
    place_other limit arr cur (e ∷ es) p d room out =
        let out' : (r : ℕ)
            → r < n
            → (p < get_or (move cur e) r 0) ⊎ (get_or (move cur e) r 0 + count r es ≤ p) =
          λ r lt. ground (arith, out r lt, move-get_or limit cur e es r room lt) in
        ground (
          arith,
          place_other limit
              (if ltb (row_of t e) n then set arr (get_or cur (row_of t e) 0) (v e) else arr)
              (move cur e) es p d (move-Room limit cur e es room) out',
          out (row_of t e),
          get_or-set_ne arr (get_or cur (row_of t e) 0) p (v e) d,
        )

    place_first :
        (limit : ℕ) (arr : List A) (cur : List ℕ) (e : IndexedEdge F) (es : List (IndexedEdge F))
        (d : A)
        → Room limit cur (e ∷ es)
        → length arr ≡ limit
        → row_of t e < n
        → get_or (place arr cur (e ∷ es)) (get_or cur (row_of t e) 0) d ≡ v e
    unfolding place
    place_first limit arr cur e es d room size lt =
        let at = get_or cur (row_of t e) 0 in
        let own = room.ends (row_of t e) lt in
        let out : (r : ℕ)
            → r < n
            → (at < get_or (move cur e) r 0) ⊎ (get_or (move cur e) r 0 + count r es ≤ at) =
          λ r rt. ground (
            arith,
            room.apart r (row_of t e),
            room.apart (row_of t e) r,
            own,
            room.small,
            get_or-set cur (row_of t e) r (add_u32 at 1) 0,
            room.size,
          ) in
        ground (
          arith,
          place_other limit (set arr at (v e)) (move cur e) es at d (move-Room limit cur e es room)
              out,
          get_or-set_self arr at (v e) d,
          own,
        )

    -- The `k`-th edge of row `r` is written `k` places after the row's first cursor.
    pub place_self :
        (limit : ℕ) (arr : List A) (cur : List ℕ) (es : List (IndexedEdge F)) (r k : ℕ) (d : A)
        → Room limit cur es
        → length arr ≡ limit
        → r < n
        → k < count r es
        → get_or (place arr cur es) (get_or cur r 0 + k) d ≡ get_or (map v (in_row t r es)) k d
    unfolding place
    place_self limit arr cur [] r k d room size lt kt = absurd (omega arith)
    place_self limit arr cur (e ∷ es) r zero d room size lt kt =
        let at = get_or cur (row_of t e) 0 in
        ground (
          arith,
          place_first limit arr cur e es d room size,
          place_self limit (if ltb (row_of t e) n then set arr at (v e) else arr) (move cur e) es r
              0 d (move-Room limit cur e es room),
          length-set arr at (v e),
          move-get_or limit cur e es r room lt,
        )
    place_self limit arr cur (e ∷ es) r (suc k) d room size lt kt =
        let at = get_or cur (row_of t e) 0 in
        let arr' = if ltb (row_of t e) n then set arr at (v e) else arr in
        ground (
          arith,
          place_self limit arr' (move cur e) es r k d (move-Room limit cur e es room),
          place_self limit arr' (move cur e) es r (suc k) d (move-Room limit cur e es room),
          length-set arr at (v e),
          move-get_or limit cur e es r room lt,
        )
