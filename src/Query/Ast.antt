-- ===== src/Query/Ast.antt =====
-- The syntax trees of crates/mentedb-query/src/ast.rs. `F` and `D` are the 32- and 64-bit floats.
-- The constructors of `Field` and `Operator` have the prefixes `on_` and `op_`.
use grasp.Prelude.{ℕ, Bool, Option, List}
pub use grasp.Core.Memory.{
  MemoryType, episodic, semantic, procedural, anti_pattern, reasoning, correction, Int64,
  nonnegative, negative,
}
use grasp.Core.Edge.{Text, MemoryId, EdgeType}

pub data Field : Type 0 where
  on_content on_type on_tag on_agent on_space on_salience on_confidence on_created on_accessed :
      Field

pub data Operator : Type 0 where
  op_eq op_neq op_gt op_lt op_gte op_lte op_similar_to : Operator

pub data Value (F D : Type 0) : Type 0 where
  text_value : Text → Value F D
  number_value : D → Value F D
  integer_value : Int64 → Value F D
  bool_value : Bool → Value F D
  uuid_value : MemoryId → Value F D
  vector_value : List F → Value F D
  memory_type_value : MemoryType → Value F D
  edge_type_value : EdgeType → Value F D

pub record Filter (F D : Type 0) : Type 0 where
  pub field : Field
  pub op : Operator
  pub value : Value F D

pub record OrderBy : Type 0 where
  pub field : Field
  pub descending : Bool

pub record RecallStatement (F D : Type 0) : Type 0 where
  pub filters : List (Filter F D)
  pub near : Option (List F)
  pub limit : Option ℕ
  pub order_by : Option OrderBy

pub record RelateStatement (F : Type 0) : Type 0 where
  pub source : MemoryId
  pub target : MemoryId
  pub edge_type : EdgeType
  pub weight : Option F

pub record TraverseStatement : Type 0 where
  pub start : MemoryId
  pub depth : ℕ
  pub edge_filter : Option (List EdgeType)

pub data Statement (F D : Type 0) : Type 0 where
  recall : RecallStatement F D → Statement F D
  relate : RelateStatement F → Statement F D
  forget : (target : MemoryId) → Statement F D
  consolidate : (filters : List (Filter F D)) → Statement F D
  traverse : TraverseStatement → Statement F D
