-- ===== src/Context/Delta.antt =====
-- What changed between turns: crates/mentedb-context/src/delta.rs. A hash set is the list of its
-- elements.
pub mod Turns
use grasp.Prelude.{
  with_element, ℕ, not, List, [], ◌∷◌, ◌++◌, ltb, if◌then◌else◌, add_u64, length, set, retain,
  contains,
}
use grasp.Core.Edge.{MemoryId, Text}
use grasp.Core.Text.{bytes, decimal_text, join_lines}
use grasp.Core.Memory.{MemoryNode}

pub record DeltaResult : Type 0 where
  pub added : List MemoryId
  pub removed : List MemoryId
  pub unchanged : List MemoryId

pub record DeltaTracker : Type 0 where
  pub last_served : List MemoryId
  pub last_turn_id : ℕ

abbrev pub new_tracker : DeltaTracker
new_tracker = record { last_served = []; last_turn_id = 0 }

-- `iter().copied().collect()` into a hash set.
unfoldable pub collect_into : List MemoryId → List MemoryId → List MemoryId
collect_into set [] = set
collect_into set (id ∷ ids) = collect_into (with_element set id) ids

unfoldable pub compute_delta : (current previous : List MemoryId) → DeltaResult
compute_delta current previous =
    let current_set = collect_into [] current in
    record {
      added = retain (λ id. not (contains previous id)) current;
      removed = retain (λ id. not (contains current_set id)) previous;
      unchanged = retain (λ id. contains previous id) current;
    }

unfoldable pub update : DeltaTracker → List MemoryId → DeltaTracker
update tracker served_ids = record {
  last_served = collect_into [] served_ids;
  last_turn_id = add_u64 tracker.last_turn_id 1;
}

unfoldable pub removed_lines : List Text → List Text
removed_lines [] = []
removed_lines (summary ∷ []) = (bytes "[REMOVED] " ++ summary) ∷ []
removed_lines (summary ∷ more ∷ rest) =
    (bytes "[REMOVED] "
      ++ decimal_text (length (summary ∷ more ∷ rest))
      ++ bytes " memories no longer relevant")
    ∷ []

unfoldable pub unchanged_lines : ℕ → List Text
unchanged_lines unchanged_count =
    if ltb 0 unchanged_count
    then (bytes "[UNCHANGED] "
        ++ decimal_text unchanged_count
        ++ bytes " memories from previous turn")
      ∷ []
    else []

-- `format_delta_context`.
module _ {F D : Type 0} where
  unfoldable pub new_lines : List (MemoryNode F D) → List Text
  new_lines [] = []
  new_lines (mem ∷ rest) = (bytes "[NEW] " ++ mem.content) ∷ new_lines rest

  unfoldable pub format_delta_context : List (MemoryNode F D) → List Text → ℕ → Text
  format_delta_context added removed_summaries unchanged_count =
      join_lines
        (new_lines added ++ removed_lines removed_summaries ++ unchanged_lines unchanged_count)
