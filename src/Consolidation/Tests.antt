-- ===== src/Consolidation/Tests.antt =====
-- Plans to forget and archival at concrete inputs.
use grasp.Prelude.{ℕ, ◌≡◌, refl, ◌||◌, none, some, List, [], ◌∷◌, length, retain, contains}
use grasp.Core.Edge.{MemoryId, Text}
use grasp.Core.Samples.{singles}
use grasp.Core.Memory.{MemoryNode, semantic, new_memory}
use grasp.Consolidation.Archival.{archive, evaluate, default_archival, ArchivalConfig}
use grasp.Consolidation.Forget.{ForgetRequest, plan_forget}
use grasp.Consolidation.Forget.Planned.{Unique, to_forget, plan_forget-to_forget}

abbrev stored : (id agent : ℕ) → MemoryNode ℕ ℕ
stored id agent = new_memory singles 0 id agent semantic [] []

abbrev memories : List (MemoryNode ℕ ℕ)
memories = stored 1 5 ∷ stored 2 6 ∷ stored 3 5 ∷ []

-- Memory 9 is not stored.
abbrev request : ForgetRequest
request = record {
  agent_id = some 5;
  space_id = none;
  memory_ids = 9 ∷ 1 ∷ [];
  reason = [];
  requested_at = 0;
}

abbrev links : List (MemoryId × MemoryId)
links = (1, 2) ∷ (2, 2) ∷ []

abbrev show : MemoryId → Text
show id = id ∷ []

plan_forget-to_forget_example :
    (ids : List MemoryId) × Unique ids
    × ((v : MemoryId) → contains ids v ≡ to_forget request memories v)
    × ((plan_forget show request memories links).deleted_memories ≡ length ids)
    × ((plan_forget show request memories links).deleted_facts ≡ length ids)
    × ((plan_forget show request memories links).deleted_edges
        ≡ length
            (retain (λ e. to_forget request memories e.0 || to_forget request memories e.1) links))
plan_forget-to_forget_example = plan_forget-to_forget show request memories links

-- A pipeline that is configured to wait a hundred days archives after eight.
abbrev patient : ArchivalConfig ℕ
patient = record (default_archival singles) { min_age_us = 8640000000000 }

impatient : evaluate singles patient (record (stored 1 5) { salience = 0 }) 691200000000 ≡ archive
unfolding evaluate new_memory
impatient = refl
