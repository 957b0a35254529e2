-- ===== src/Core/Memory.antt =====
-- Memory nodes: crates/mentedb-core/src/memory.rs. The clock, the fresh identifier and the nil
-- identifier are arguments; the map of attributes is a list of pairs.
use grasp.Prelude.{ℕ, Bool, Option, none, some, List, [], is_some}
use grasp.Core.Edge.{MemoryId, Timestamp, Text, within_bounds}
use grasp.Core.Float32.{Float32}

pub data MemoryType : Type 0 where
  episodic semantic procedural anti_pattern reasoning correction : MemoryType

-- An `i64`.
pub data Int64 : Type 0 where
  nonnegative : ℕ → Int64
  negative : ℕ → Int64

-- `D` is `f64`.
pub data AttributeValue (D : Type 0) : Type 0 where
  text : Text → AttributeValue D
  integer : Int64 → AttributeValue D
  float : D → AttributeValue D
  boolean : Bool → AttributeValue D
  raw_bytes : List ℕ → AttributeValue D

pub record MemoryNode (F D : Type 0) : Type 0 where
  pub id : MemoryId
  pub agent_id : ℕ
  pub memory_type : MemoryType
  pub embedding : List F
  pub content : Text
  pub created_at : Timestamp
  pub accessed_at : Timestamp
  pub access_count : ℕ
  pub salience : F
  pub confidence : F
  pub space_id : ℕ
  pub attributes : List (Text × AttributeValue D)
  pub tags : List Text
  pub valid_from : Option Timestamp
  pub valid_until : Option Timestamp

module _ {F D : Type 0} where
  -- `MemoryNode::new`, where `now` is the clock and `fresh` the new identifier.
  unfoldable pub new_memory :
      Float32 F → (now fresh agent_id : ℕ) → MemoryType → Text → List F → MemoryNode F D
  new_memory fl now fresh agent_id memory_type content embedding = record {
    id = fresh;
    agent_id = agent_id;
    memory_type = memory_type;
    embedding = embedding;
    content = content;
    created_at = now;
    accessed_at = now;
    access_count = 0;
    salience = fl.one;
    confidence = fl.one;
    space_id = 0;
    attributes = [];
    tags = [];
    valid_from = none;
    valid_until = none;
  }

  abbrev pub is_valid_at : MemoryNode F D → Timestamp → Bool
  is_valid_at m at = within_bounds m.valid_from m.valid_until at

  abbrev pub invalidate : MemoryNode F D → Timestamp → MemoryNode F D
  invalidate m at = record m { valid_until = some at }

  abbrev pub is_invalidated : MemoryNode F D → Bool
  is_invalidated m = is_some m.valid_until
