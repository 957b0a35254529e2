-- ===== src/Core/Conflict.antt =====
-- Concurrent writes: crates/mentedb-core/src/conflict.rs.
pub mod Detected
pub mod Winner
use grasp.Prelude.{
  ℕ, zero, ◌+◌, ◌-◌, max, Bool, true, false, not, ◌&&◌, Option, none, some, List, [], ◌∷◌, map, ltb,
  leb, ◌==◌, if◌then◌else◌, length, set, replicate, retain, zip,
}
use grasp.Core.Float32.{Float32}
use grasp.Core.Edge.{MemoryId, Timestamp, Text}

pub record ConflictVersion (F : Type 0) : Type 0 where
  pub agent_id : ℕ
  pub content : Text
  pub confidence : F
  pub timestamp : Timestamp

pub data Resolution : Type 0 where
  keep_latest : Resolution
  keep_highest_confidence : Resolution
  merge : Text → Resolution
  manual : Text → Resolution

pub record Conflict (F : Type 0) : Type 0 where
  pub memory_id : MemoryId
  pub versions : List (ConflictVersion F)
  pub resolution : Option Resolution

-- `CONFLICT_WINDOW_US`
abbrev pub conflict_window : Timestamp
conflict_window = 1000000

abbrev pub abs_diff : ℕ → ℕ → ℕ
abs_diff a b = if leb a b then b - a else a - b

module _ {F : Type 0} where
  -- Two versions of different agents within the window.
  abbrev pub concurrent : ConflictVersion F → ConflictVersion F → Bool
  concurrent v w =
      leb (abs_diff v.timestamp w.timestamp) conflict_window && not (v.agent_id == w.agent_id)

  -- The inner loop for one version `v` at index `i`, over the versions from index `j`.
  unfoldable pub mark_row :
      (i j : ℕ) → ConflictVersion F → List (ConflictVersion F) → List Bool → List Bool
  mark_row i j v [] dominated = dominated
  mark_row i j v (w ∷ rest) dominated =
      mark_row i (j + 1) v rest
        (if concurrent v w then set (set dominated i true) j true else dominated)

  -- The outer loop, over the versions from index `i`.
  unfoldable pub mark : (i : ℕ) → List (ConflictVersion F) → List Bool → List Bool
  mark i [] dominated = dominated
  mark i (v ∷ rest) dominated = mark (i + 1) rest (mark_row i (i + 1) v rest dominated)

  unfoldable pub detect_conflict : MemoryId → List (ConflictVersion F) → Option (Conflict F)
  detect_conflict memory_id versions =
      let dominated = mark 0 versions (replicate (length versions) false) in
      let conflicting = map (λ p. p.0) (retain (λ p. p.1) (zip versions dominated)) in
      if ltb (length versions) 2
      then none
      else (if leb 2 (length conflicting)
          then some (record { memory_id = memory_id; versions = conflicting; resolution = none })
          else none)

  -- `max_by_key`: the last of those with the greatest timestamp.
  unfoldable pub latest_from : ConflictVersion F → List (ConflictVersion F) → ConflictVersion F
  latest_from best [] = best
  latest_from best (v ∷ rest) =
      latest_from (if leb best.timestamp v.timestamp then v else best) rest

  abbrev pub latest : List (ConflictVersion F) → Option (ConflictVersion F)
  latest [] = none
  latest (v ∷ rest) = some (latest_from v rest)

  -- `none` stands for the panic of `expect` on a conflict without versions.
  unfoldable pub resolve_keep_latest : Conflict F → Option (ConflictVersion F)
  resolve_keep_latest c = latest c.versions

  -- `map(|v| v.timestamp).max().unwrap_or(0)`
  abbrev pub latest_timestamp : List (ConflictVersion F) → Timestamp
  latest_timestamp [] = 0
  latest_timestamp (v ∷ rest) = max v.timestamp (latest_timestamp rest)

  -- `conflict.versions[0]`, where `none` stands for the panic.
  abbrev pub first_version : List (ConflictVersion F) → Option (ConflictVersion F)
  first_version [] = none
  first_version (v ∷ rest) = some v

module _ {F : Type 0} (fl : Float32 F) where
  -- `max_by` with `partial_cmp(..).unwrap()`: `none` stands for the panic on confidences that
  -- cannot be compared.
  unfoldable pub surest_from :
      ConflictVersion F → List (ConflictVersion F) → Option (ConflictVersion F)
  surest_from best [] = some best
  surest_from best (v ∷ rest) =
      let higher = surest_from v rest in
      let kept = surest_from best rest in
      if fl.le best.confidence v.confidence
      then higher
      else (if fl.le v.confidence best.confidence then kept else none)

  abbrev pub surest : List (ConflictVersion F) → Option (ConflictVersion F)
  surest [] = none
  surest (v ∷ rest) = surest_from v rest

  unfoldable pub resolve_keep_highest_confidence : Conflict F → Option (ConflictVersion F)
  resolve_keep_highest_confidence c = surest c.versions

  -- `fold(0.0, f32::max)`
  abbrev pub highest_from : F → List (ConflictVersion F) → F
  highest_from best [] = best
  highest_from best (v ∷ rest) = highest_from (fl.max best v.confidence) rest

  abbrev pub written :
      Option (ConflictVersion F) → Text → F → Timestamp → Option (ConflictVersion F)
  written none content confidence timestamp = none
  written (some v) content confidence timestamp = some (record {
    agent_id = v.agent_id;
    content = content;
    confidence = confidence;
    timestamp = timestamp;
  })

  unfoldable pub auto_resolve : Conflict F → Resolution → Option (ConflictVersion F)
  auto_resolve c keep_latest = resolve_keep_latest c
  auto_resolve c keep_highest_confidence = resolve_keep_highest_confidence c
  auto_resolve c (merge merged) =
      written (first_version c.versions) merged (highest_from fl.zero c.versions)
        (latest_timestamp c.versions)
  auto_resolve c (manual text) =
      written (first_version c.versions) text fl.one (latest_timestamp c.versions)
