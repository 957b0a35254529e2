-- ===== src/Core/ConflictTests.antt =====
-- Conflicting versions at concrete inputs.
use grasp.Prelude.{ℕ, ◌≤◌, ◌≡◌, refl, true, none, some, List, [], ◌∷◌, Memᴰ, retain}
use grasp.Core.Samples.{singles}
use grasp.Core.Conflict.{
  ConflictVersion, Conflict, detect_conflict, auto_resolve, keep_latest, mark, mark_row,
}
use grasp.Core.Conflict.Detected.{has_rival, conflict_of, detect_conflict-conflict_of}
use grasp.Core.Conflict.Winner.{auto_resolve-detect_conflict}

abbrev version : (agent timestamp : ℕ) → ConflictVersion ℕ
version agent timestamp = record {
  agent_id = agent;
  content = [];
  confidence = 5;
  timestamp = timestamp;
}

-- The first two are half a second apart, the third comes too late, the fourth is the first agent's.
abbrev versions : List (ConflictVersion ℕ)
versions = version 1 1000000 ∷ version 2 1500000 ∷ version 3 9000000 ∷ version 1 1200000 ∷ []

detect_conflict-conflict_of_example :
    detect_conflict 7 versions ≡ conflict_of 7 (retain (has_rival versions) versions)
detect_conflict-conflict_of_example = detect_conflict-conflict_of 7 versions

abbrev three_way : Conflict ℕ
three_way = record {
  memory_id = 7;
  versions = version 1 1000000 ∷ version 2 1500000 ∷ version 1 1200000 ∷ [];
  resolution = none;
}

detected : detect_conflict 7 versions ≡ some three_way
unfolding detect_conflict mark mark_row
detected = refl

auto_resolve-detect_conflict_example :
    (w : ConflictVersion ℕ) × (auto_resolve singles three_way keep_latest ≡ some w)
    × Memᴰ w versions
    × (has_rival versions w ≡ true)
    × ((v : ConflictVersion ℕ)
        → Memᴰ v versions
        → has_rival versions v ≡ true
        → v.timestamp ≤ w.timestamp)
auto_resolve-detect_conflict_example =
    auto_resolve-detect_conflict singles 7 versions three_way detected
