-- ===== src/Context/Delta/Turns.antt =====
-- A delta and what was served before give what is served now.
use grasp.Prelude.{
  with_element, contains-with_element, ◌≡◌, refl, ap, ◌∙◌, inl, inr, Bool, not, ◌&&◌, ◌||◌, List,
  [], ◌∷◌, ◌++◌, arith, ◌==◌, ==_iff, Bool-cases, set, retain, contains, contains-append,
}
use grasp.Core.Edge.{MemoryId}
use grasp.Context.Delta.{DeltaResult, DeltaTracker, collect_into, compute_delta, update}

pub contains-collect_into :
    (set ids : List MemoryId) (v : MemoryId)
    → contains (collect_into set ids) v ≡ (contains set v || contains ids v)
unfolding collect_into
contains-collect_into set [] v = ground arith
contains-collect_into set (id ∷ ids) v =
    ground
      (arith, contains-collect_into (with_element set id) ids v, contains-with_element set id v)

contains-retain :
    (p : MemoryId → Bool) (xs : List MemoryId) (v : MemoryId)
    → contains (retain p xs) v ≡ (contains xs v && p v)
contains-retain p [] v = refl
contains-retain p (x ∷ xs) v = elim (Bool-cases (x == v)) [
  | inl same ↦ let e = ap p ((==_iff x v).0 same) in ground (arith, contains-retain p xs v)
  | inr other ↦ ground (arith, contains-retain p xs v)
]

-- What a reader keeps of the memories it had, with the new ones behind.
abbrev pub apply_delta : List MemoryId → DeltaResult → List MemoryId
apply_delta had delta = retain (λ id. not (contains delta.removed id)) had ++ delta.added

-- A reader that has the memories served last, drops those that the delta removes and takes those
-- that it adds, has exactly the current memories; those that it had before are the removed and the
-- unchanged ones.
pub apply_delta-compute_delta :
    (tracker : DeltaTracker) (served current : List MemoryId) (v : MemoryId)
    → let delta = compute_delta current (update tracker served).last_served in
      (contains (apply_delta served delta) v ≡ contains current v)
      × (contains served v ≡ (contains delta.removed v || contains delta.unchanged v))
unfolding compute_delta update
apply_delta-compute_delta tracker served current v =
    let previous = collect_into [] served in
    let same : contains previous v ≡ contains served v = contains-collect_into [] served v in
    let set : contains (collect_into [] current) v ≡ contains current v =
      contains-collect_into [] current v in
    let added = contains-retain (λ id. not (contains previous id)) current v in
    let removed = contains-retain (λ id. not (contains (collect_into [] current) id)) previous v in
    let unchanged = contains-retain (λ id. contains previous id) current v in
    let delta = compute_delta current previous in
    let kept = contains-retain (λ id. not (contains delta.removed id)) served v in
    (
      contains-append (retain (λ id. not (contains delta.removed id)) served) delta.added v
          ∙ rw (kept, added, removed, same, set) (ground arith),
      ground arith,
    )
