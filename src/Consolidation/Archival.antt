-- ===== src/Consolidation/Archival.antt =====
-- `ArchivalPipeline`: crates/mentedb-consolidation/src/archival.rs.
use grasp.Prelude.{ℕ, ◌-◌, ◌&&◌, List, map, ltb, if◌then◌else◌}
use grasp.Core.Float32.{Float32}
use grasp.Core.Edge.{MemoryId, Timestamp}
use grasp.Core.Memory.{MemoryNode}

pub data ArchivalDecision : Type 0 where
  keep archive delete : ArchivalDecision
  consolidate : List MemoryId → ArchivalDecision

pub record ArchivalConfig (F : Type 0) : Type 0 where
  pub min_age_us : ℕ
  pub max_salience : F
  pub min_access_count : ℕ

abbrev pub thirty_days_us : ℕ
thirty_days_us = 2592000000000

abbrev pub seven_days_us : ℕ
seven_days_us = 604800000000

module _ {F : Type 0} (fl : Float32 F) where
  abbrev pub default_archival : ArchivalConfig F
  default_archival = record {
    min_age_us = seven_days_us;
    max_salience = fl.decimal 1 1;
    min_access_count = 2;
  }

module _ {F D : Type 0} (fl : Float32 F) where
  unfoldable pub evaluate : ArchivalConfig F → MemoryNode F D → Timestamp → ArchivalDecision
  evaluate config memory now =
      let age = now - memory.created_at in
      if fl.lt memory.salience (fl.decimal 5 2)
        && (ltb thirty_days_us age && ltb memory.access_count 2)
      then delete
      else (if fl.lt memory.salience (fl.decimal 1 1) && ltb seven_days_us age
          then archive
          else keep)

  unfoldable pub evaluate_batch :
      ArchivalConfig F → List (MemoryNode F D) → Timestamp → List (MemoryId × ArchivalDecision)
  evaluate_batch config memories now = map (λ m. (m.id, evaluate config m now)) memories
