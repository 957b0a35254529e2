-- ===== src/Core/Versions.antt =====
-- The versions of a memory: crates/mentedb-core/src/mvcc.rs. The current time is an argument.
pub mod History
use grasp.Prelude.{
  ℕ, Bool, Option, none, some, List, [], ◌∷◌, ◌++◌, leb, if◌then◌else◌, add_u64, HashMap, lookup,
  insert,
}
use grasp.Core.Edge.{MemoryId, Timestamp}

pub record Version : Type 0 where
  pub version_id : ℕ
  pub memory_id : MemoryId
  pub agent_id : ℕ
  pub timestamp : Timestamp
  pub data_hash : ℕ

pub record VersionStore : Type 0 where
  pub versions : HashMap (List Version)
  pub next_version : ℕ

unfoldable pub new : VersionStore
new = record { versions = []; next_version = 1 }

-- `versions.entry(memory_id).or_default()`.
abbrev pub or_default : Option (List Version) → List Version
or_default none = []
or_default (some vs) = vs

-- The version that `record_write` builds.
abbrev pub written : VersionStore → Timestamp → MemoryId → ℕ → ℕ → Version
written s now memory_id agent_id data_hash = record {
  version_id = s.next_version;
  memory_id = memory_id;
  agent_id = agent_id;
  timestamp = now;
  data_hash = data_hash;
}

-- The result is the new version's id.
unfoldable pub record_write : VersionStore → (now : Timestamp) → MemoryId → ℕ → ℕ → VersionStore × ℕ
record_write s now memory_id agent_id data_hash =
    let version = written s now memory_id agent_id data_hash in
    (
      record {
        versions =
            insert memory_id (or_default (lookup memory_id s.versions) ++ version ∷ []) s.versions;
        next_version = add_u64 s.next_version 1;
      },
      s.next_version,
    )

abbrev pub last : List Version → Option Version
last [] = none
last (v ∷ []) = some v
last (v ∷ w ∷ rest) = last (w ∷ rest)

-- `iter().rev().find(p)`.
abbrev pub find_last : (Version → Bool) → List Version → Option Version
find_last p [] = none
find_last p (v ∷ rest) = elim (find_last p rest) [
  | none ↦ if p v then some v else none
  | some w ↦ some w
]

unfoldable pub get_latest : VersionStore → MemoryId → Option Version
get_latest s memory_id = elim (lookup memory_id s.versions) [ none ↦ none | some vs ↦ last vs ]

unfoldable pub get_history : VersionStore → MemoryId → List Version
get_history s memory_id = elim (lookup memory_id s.versions) [ none ↦ [] | some vs ↦ vs ]

unfoldable pub get_version_at : VersionStore → MemoryId → Timestamp → Option Version
get_version_at s memory_id timestamp = elim (lookup memory_id s.versions) [
  | none ↦ none
  | some vs ↦ find_last (λ v. leb v.timestamp timestamp) vs
]
