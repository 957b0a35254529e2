-- ===== src/Context/Layout.antt =====
-- Attention zones: crates/mentedb-context/src/layout.rs.
pub mod Zones
pub mod Ranked
use grasp.Prelude.{ℕ, Bool, true, false, ◌&&◌, List, [], ◌∷◌, ◌++◌, if◌then◌else◌, add_u64}
use grasp.Core.Float32.{Float32}
use grasp.Core.Float64.{Float64}
use grasp.Core.Memory.{MemoryType, anti_pattern, correction, MemoryNode}
use grasp.Context.Budget.{estimate_tokens}

pub record ScoredMemory (F D : Type 0) : Type 0 where
  pub memory : MemoryNode F D
  pub score : F

pub data AttentionZone : Type 0 where
  opening critical primary supporting closing : AttentionZone

abbrev pub all_ordered : List AttentionZone
all_ordered = opening ∷ critical ∷ primary ∷ supporting ∷ closing ∷ []

pub record ContextBlock (F D : Type 0) : Type 0 where
  pub zone : AttentionZone
  pub memories : List (ScoredMemory F D)
  pub estimated_tokens : ℕ

pub record ZoneThresholds (F : Type 0) : Type 0 where
  pub critical_score : F
  pub critical_salience : F
  pub primary_score : F
  pub supporting_score : F

-- The five groups of `arrange`.
pub record Groups (F D : Type 0) : Type 0 where
  pub opening_group : List (ScoredMemory F D)
  pub critical_group : List (ScoredMemory F D)
  pub primary_group : List (ScoredMemory F D)
  pub supporting_group : List (ScoredMemory F D)
  pub closing_group : List (ScoredMemory F D)

-- The first test of `classify`.
abbrev pub opens : MemoryType → Bool
opens anti_pattern = true
opens correction = true
opens _ = false

module _ {F D : Type 0} (fl : Float32 F) (fl64 : Float64 D) where
  abbrev pub default_thresholds : ZoneThresholds F
  default_thresholds = record {
    critical_score = fl.decimal 8 1;
    critical_salience = fl.decimal 7 1;
    primary_score = fl.decimal 5 1;
    supporting_score = fl.decimal 2 1;
  }

  unfoldable pub classify : ZoneThresholds F → ScoredMemory F D → AttentionZone
  classify t sm =
      if opens sm.memory.memory_type
      then opening
      else (if fl.le t.critical_score sm.score && fl.le t.critical_salience sm.memory.salience
          then critical
          else (if fl.le t.primary_score sm.score
              then primary
              else (if fl.le t.supporting_score sm.score then supporting else closing)))

  -- `sort_by` with `b.score.partial_cmp(&a.score)`, where what cannot be compared counts as equal:
  -- a stable sort, by insertion.
  unfoldable pub insert_by_score :
      ScoredMemory F D → List (ScoredMemory F D) → List (ScoredMemory F D)
  insert_by_score a [] = a ∷ []
  insert_by_score a (b ∷ bs) =
      if fl.lt a.score b.score then b ∷ insert_by_score a bs else a ∷ b ∷ bs

  unfoldable pub sort_by_score : List (ScoredMemory F D) → List (ScoredMemory F D)
  sort_by_score [] = []
  sort_by_score (a ∷ rest) = insert_by_score a (sort_by_score rest)

  unfoldable pub push_group : AttentionZone → ScoredMemory F D → Groups F D → Groups F D
  push_group opening sm g = record g { opening_group = g.opening_group ++ sm ∷ [] }
  push_group critical sm g = record g { critical_group = g.critical_group ++ sm ∷ [] }
  push_group primary sm g = record g { primary_group = g.primary_group ++ sm ∷ [] }
  push_group supporting sm g = record g { supporting_group = g.supporting_group ++ sm ∷ [] }
  push_group closing sm g = record g { closing_group = g.closing_group ++ sm ∷ [] }

  unfoldable pub group_loop : ZoneThresholds F → Groups F D → List (ScoredMemory F D) → Groups F D
  group_loop t g [] = g
  group_loop t g (sm ∷ rest) = group_loop t (push_group (classify t sm) sm g) rest

  unfoldable pub estimate_block_tokens : List (ScoredMemory F D) → ℕ
  estimate_block_tokens [] = 0
  estimate_block_tokens (sm ∷ rest) =
      add_u64 (estimate_tokens fl64 sm.memory.content) (estimate_block_tokens rest)

  abbrev pub no_groups : Groups F D
  no_groups = record {
    opening_group = [];
    critical_group = [];
    primary_group = [];
    supporting_group = [];
    closing_group = [];
  }

  abbrev pub block : AttentionZone → List (ScoredMemory F D) → ContextBlock F D
  block zone group =
      let memories = sort_by_score group in
      record { zone = zone; memories = memories; estimated_tokens = estimate_block_tokens memories }

  unfoldable pub arrange : ZoneThresholds F → List (ScoredMemory F D) → List (ContextBlock F D)
  arrange t memories =
      let g = group_loop t no_groups memories in
      block opening g.opening_group
      ∷ block critical g.critical_group
      ∷ block primary g.primary_group
      ∷ block supporting g.supporting_group
      ∷ block closing g.closing_group
      ∷ []
