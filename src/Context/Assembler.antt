-- ===== src/Context/Assembler.antt =====
-- `ContextAssembler`: crates/mentedb-context/src/assembler.rs. The text of the window, which the
-- serializers print, is left out.
pub mod Filling
pub mod Included
use grasp.Prelude.{
  ℕ, ◌-◌, Bool, true, false, not, List, [], ◌∷◌, ◌++◌, map, if◌then◌else◌, add_u64, length, take,
  retain, contains,
}
use grasp.Core.Edge.{MemoryId, MemoryEdge, Text}
use grasp.Core.Text.{bytes}
use grasp.Core.Float32.{Float32}
use grasp.Core.Float64.{Float64}
use grasp.Context.Budget.{TokenBudget, can_fit, consume}
use grasp.Context.Budget as Budget
use grasp.Context.Layout.{ScoredMemory, ContextBlock, default_thresholds, sort_by_score, arrange}
use grasp.Context.Delta.{DeltaTracker, compute_delta, update, format_delta_context}

pub data OutputFormat : Type 0 where
  compact structured delta_only : OutputFormat

pub record AssemblyConfig : Type 0 where
  pub token_budget : ℕ
  pub format : OutputFormat
  pub include_edges : Bool
  pub include_metadata : Bool

abbrev pub default_assembly : AssemblyConfig
default_assembly = record {
  token_budget = 4096;
  format = structured;
  include_edges = false;
  include_metadata = true;
}

pub record AssemblyMetadata : Type 0 where
  pub total_candidates : ℕ
  pub included_count : ℕ
  pub excluded_count : ℕ
  pub edges_included : ℕ
  pub zones_used : ℕ

pub record ContextWindow (F D : Type 0) : Type 0 where
  pub blocks : List (ContextBlock F D)
  pub total_tokens : ℕ
  pub metadata : AssemblyMetadata

abbrev pub is_empty : {A : Type 0} → List A → Bool
is_empty [] = true
is_empty (a ∷ as') = false

module _ {F D : Type 0} where
  -- How many zones hold a memory.
  abbrev pub used_zones : List (ContextBlock F D) → ℕ
  used_zones blocks = length (retain (λ b. not (is_empty b.memories)) blocks)

module _ {F D : Type 0} (fl : Float32 F) (fl64 : Float64 D) where
  -- The greedy loop: the budget afterwards and the memories that fit.
  unfoldable pub fill :
      TokenBudget → List (ScoredMemory F D) → TokenBudget × List (ScoredMemory F D)
  fill budget [] = (budget, [])
  fill budget (sm ∷ rest) =
      let passed = fill budget rest in
      let charged = fill (consume fl64 budget sm.memory.content).0 rest in
      if can_fit fl64 budget sm.memory.content then (charged.0, sm ∷ charged.1) else passed

  unfoldable pub assemble :
      List (ScoredMemory F D) → List (MemoryEdge F) → AssemblyConfig → ContextWindow F D
  assemble memories edges config =
      let total_candidates = length memories in
      let filled = fill (Budget.new config.token_budget) (sort_by_score fl fl64 memories) in
      let included_count = length filled.1 in
      let blocks = arrange fl fl64 (default_thresholds fl fl64) filled.1 in
      record {
        blocks = blocks;
        total_tokens = filled.0.used_tokens;
        metadata = record {
          total_candidates = total_candidates;
          included_count = included_count;
          excluded_count = total_candidates - included_count;
          edges_included = if config.include_edges then length edges else 0;
          zones_used = used_zones blocks;
        };
      }

  -- `format!("memory {}", &id.to_string()[..8])`, where `show` prints a UUID.
  abbrev pub removed_summary : (MemoryId → Text) → MemoryId → Text
  removed_summary show id = bytes "memory " ++ take 8 (show id)

  unfoldable pub assemble_delta :
      (MemoryId → Text)
      → List (ScoredMemory F D)
      → List (MemoryEdge F)
      → DeltaTracker
      → AssemblyConfig
      → ContextWindow F D × DeltaTracker
  assemble_delta show current_memories edges tracker config =
      let current_ids = map (λ sm. sm.memory.id) current_memories in
      let delta = compute_delta current_ids tracker.last_served in
      let added_memories = retain (λ sm. contains delta.added sm.memory.id) current_memories in
      let delta_header =
        format_delta_context (map (λ sm. sm.memory) added_memories)
          (map (removed_summary show) delta.removed) (length delta.unchanged) in
      let total_candidates = add_u64 (length added_memories) (length delta.unchanged) in
      let budget = (consume fl64 (Budget.new config.token_budget) delta_header).0 in
      let filled = fill budget (sort_by_score fl fl64 added_memories) in
      let included_count = length filled.1 in
      let blocks = arrange fl fl64 (default_thresholds fl fl64) filled.1 in
      (
        record {
          blocks = blocks;
          total_tokens = filled.0.used_tokens;
          metadata = record {
            total_candidates = total_candidates;
            included_count = included_count;
            excluded_count = total_candidates - included_count;
            edges_included = if config.include_edges then length edges else 0;
            zones_used = used_zones blocks;
          };
        },
        update tracker current_ids,
      )
