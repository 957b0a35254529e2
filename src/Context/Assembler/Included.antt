-- ===== src/Context/Assembler/Included.antt =====
-- What a window shows and says of the memories and the edges it was assembled from.
use grasp.Prelude.{if◌then◌else◌, ltb, ℕ, ◌+◌, ◌≤◌, ◌<◌, ◌≡◌, List, [], ◌∷◌, map, length, All}
use grasp.Core.Edge.{MemoryEdge}
use grasp.Core.Float32.{Float32}
use grasp.Core.Float64.{Float64}
use grasp.Context.Budget.{TokenBudget, estimate_tokens, can_fit, consume}
use grasp.Context.Budget as Budget
use grasp.Context.Layout.{ScoredMemory, ContextBlock, all_ordered, default_thresholds}
use grasp.Context.Layout.Zones.{weigh, shown, InZone}
use grasp.Context.Layout.Ranked.{Descending}
use grasp.Context.Assembler.{AssemblyConfig, ContextWindow}
use grasp.Context.Assembler.Filling.{tokens_of, Greedy}

module _ {F D : Type 0} (fl : Float32 F) (fl64 : Float64 D) where
  -- How many blocks show a memory.
  abbrev pub occupied : List (ContextBlock F D) → ℕ
  occupied [] = 0
  occupied (b ∷ bs) = (if ltb 0 (length b.memories) then 1 else 0) + occupied bs

  -- What a window says of the memories and the edges it was assembled from.
  pub record Assembled (memories : List (ScoredMemory F D)) (edges : List (MemoryEdge F))
      (config : AssemblyConfig) (w : ContextWindow F D) : Type 0 where
    pub ranked : List (ScoredMemory F D)
    pub included : List (ScoredMemory F D)
    pub excluded : List (ScoredMemory F D)
    pub reordered : (f : ScoredMemory F D → ℕ) → weigh f ranked ≡ weigh f memories
    pub by_score : Descending fl ranked
    pub greedy : Greedy fl fl64 config.token_budget 0 ranked included excluded
    pub shows : (f : ScoredMemory F D → ℕ) → weigh f (shown w.blocks) ≡ weigh f included
    pub within : w.total_tokens ≤ config.token_budget
    pub charged : w.total_tokens ≡ weigh (tokens_of fl fl64) (shown w.blocks)
    pub all_there :
        (f : ScoredMemory F D → ℕ) → weigh f memories ≡ weigh f (shown w.blocks) + weigh f excluded
    pub no_room : All (λ sm. config.token_budget < w.total_tokens + tokens_of fl fl64 sm) excluded
    pub zones : map (λ b. b.zone) w.blocks ≡ all_ordered
    pub in_zone : All (InZone fl fl64 (default_thresholds fl fl64)) w.blocks
    pub in_order : All (λ b. Descending fl b.memories) w.blocks
    pub candidates : w.metadata.total_candidates ≡ length memories
    pub counted : w.metadata.included_count ≡ length (shown w.blocks)
    pub left_out : w.metadata.excluded_count ≡ length excluded
    pub all_edges : w.metadata.edges_included ≡ (if config.include_edges then length edges else 0)
    pub zones_counted : w.metadata.zones_used ≡ occupied w.blocks
