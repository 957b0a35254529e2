-- ===== src/Core/Limits.antt =====
-- Resource limits: crates/mentedb-core/src/limits.rs. The counters are `AtomicU64`s and wrap
-- around; `usize` has 64 bits. The operations run one after the other. The text of an error is the
-- tuple of the numbers that it is formatted from.
pub mod Tracked
use grasp.Prelude.{
  ℕ, zero, ◌-◌, min, max, Bool, false, Option, none, some, [], ltb, leb, if◌then◌else◌, add_u64,
  HashMap, lookup, insert,
}
use grasp.Core.Float32.{Float32}

pub record ResourceLimits : Type 0 where
  pub max_memories : Option ℕ
  pub max_memory_bytes : Option ℕ
  pub max_memories_per_agent : Option ℕ
  pub max_embedding_dimensions : ℕ
  pub write_rate_limit : Option ℕ

unfoldable pub default_limits : ResourceLimits
default_limits = record {
  max_memories = none;
  max_memory_bytes = none;
  max_memories_per_agent = none;
  max_embedding_dimensions = 4096;
  write_rate_limit = none;
}

pub record ResourceUsage (F : Type 0) : Type 0 where
  pub total_memories : ℕ
  pub total_bytes : ℕ
  pub limit_memories : Option ℕ
  pub limit_bytes : Option ℕ
  pub utilization_pct : F

pub record ResourceTracker : Type 0 where
  pub limits : ResourceLimits
  pub current_memory_count : ℕ
  pub current_bytes : ℕ
  pub agent_counts : HashMap ℕ

-- The three `MenteError::ResourceExhausted` of `check_can_write`.
pub data LimitError : Type 0 where
  memory_limit : (count max : ℕ) → LimitError
  byte_limit : (bytes estimated max : ℕ) → LimitError
  agent_limit : (agent count max : ℕ) → LimitError

unfoldable pub new : ResourceLimits → ResourceTracker
new limits = record {
  limits = limits;
  current_memory_count = 0;
  current_bytes = 0;
  agent_counts = [];
}

-- `agent_map.get(&agent_id).copied().unwrap_or(0)`.
abbrev pub agent_count : ResourceTracker → ℕ → ℕ
agent_count t agent = elim (lookup agent t.agent_counts) [ none ↦ 0 | some n ↦ n ]

-- Whether a limit that is set fails the test.
abbrev pub exceeds : Option ℕ → (ℕ → Bool) → Bool
exceeds none test = false
exceeds (some limit) test = test limit

abbrev pub limit_or : Option ℕ → ℕ
limit_or none = 0
limit_or (some limit) = limit

-- `none` for `Ok(())`.
unfoldable pub check_can_write : ResourceTracker → ℕ → ℕ → Option LimitError
check_can_write t agent estimated =
    if exceeds t.limits.max_memories (λ limit. leb limit t.current_memory_count)
    then some (memory_limit t.current_memory_count (limit_or t.limits.max_memories))
    else if exceeds t.limits.max_memory_bytes
        (λ limit. ltb limit (add_u64 t.current_bytes estimated))
    then some (byte_limit t.current_bytes estimated (limit_or t.limits.max_memory_bytes))
    else if exceeds t.limits.max_memories_per_agent (λ limit. leb limit (agent_count t agent))
    then some (agent_limit agent (agent_count t agent) (limit_or t.limits.max_memories_per_agent))
    else none

unfoldable pub record_write : ResourceTracker → ℕ → ℕ → ResourceTracker
record_write t agent bytes = record t {
  current_memory_count = add_u64 t.current_memory_count 1;
  current_bytes = add_u64 t.current_bytes bytes;
  agent_counts = insert agent (add_u64 (agent_count t agent) 1) t.agent_counts;
}

unfoldable pub record_delete : ResourceTracker → ℕ → ℕ → ResourceTracker
record_delete t agent bytes = record t {
  current_memory_count = t.current_memory_count - min 1 t.current_memory_count;
  current_bytes = t.current_bytes - min bytes t.current_bytes;
  agent_counts = elim (lookup agent t.agent_counts) [
    | none ↦ t.agent_counts
    | some count ↦ insert agent (count - 1) t.agent_counts
  ];
}

module _ {F : Type 0} (fl : Float32 F) where
  -- `(total as f32 / max as f32) * 100.0`.
  abbrev pub percentage : ℕ → ℕ → F
  percentage total max = fl.mul (fl.div (fl.of_nat total) (fl.of_nat max)) (fl.of_nat 100)

  unfoldable pub usage : ResourceTracker → ResourceUsage F
  usage t = record {
    total_memories = t.current_memory_count;
    total_bytes = t.current_bytes;
    limit_memories = t.limits.max_memories;
    limit_bytes = t.limits.max_memory_bytes;
    utilization_pct = elim t.limits.max_memories [
      | some max_mem ↦ elim t.limits.max_memory_bytes [
        | some max_bytes ↦
            fl.max (percentage t.current_memory_count max_mem)
              (percentage t.current_bytes max_bytes)
        | none ↦ percentage t.current_memory_count max_mem
      ]
      | none ↦ elim t.limits.max_memory_bytes [
        | some max_bytes ↦ percentage t.current_bytes max_bytes
        | none ↦ fl.zero
      ]
    ];
  }
