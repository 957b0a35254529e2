-- ===== src/Consolidation/Forget.antt =====
-- `ForgetEngine`: crates/mentedb-consolidation/src/forget.rs. A hash set is the list of its
-- elements; `show` prints a UUID.
pub mod Planned
use grasp.Prelude.{
  ℕ, Bool, ◌||◌, Option, none, some, List, [], ◌∷◌, ◌++◌, ltb, ◌==◌, if◌then◌else◌, length, retain,
  contains, with_element,
}
use grasp.Core.Edge.{MemoryId, Timestamp, Text}
use grasp.Core.Text.{bytes, decimal_text}
use grasp.Core.Memory.{MemoryNode}

pub record ForgetRequest : Type 0 where
  pub agent_id : Option ℕ
  pub space_id : Option ℕ
  pub memory_ids : List MemoryId
  pub reason : Text
  pub requested_at : Timestamp

pub record ForgetResult : Type 0 where
  pub deleted_memories : ℕ
  pub deleted_edges : ℕ
  pub deleted_facts : ℕ
  pub audit_log_entry : Text

-- The loop over the requested identifiers.
unfoldable pub add_ids : List MemoryId → List MemoryId → List MemoryId
add_ids to_delete [] = to_delete
add_ids to_delete (id ∷ ids) = add_ids (with_element to_delete id) ids

abbrev pub id_line : (MemoryId → Text) → Text → Option ℕ → Text
id_line show label none = []
id_line show label (some id) = label ++ show id ++ 10 ∷ []

unfoldable pub generate_audit_log : (MemoryId → Text) → ForgetRequest → ForgetResult → Text
generate_audit_log show request result =
    bytes "FORGET REQUEST at timestamp "
    ++ decimal_text request.requested_at
    ++ 10 ∷ []
    ++ bytes "Reason: "
    ++ request.reason
    ++ 10 ∷ []
    ++ id_line show (bytes "Agent: ") request.agent_id
    ++ id_line show (bytes "Space: ") request.space_id
    ++ (if ltb 0 (length request.memory_ids)
        then bytes "Specific IDs: " ++ decimal_text (length request.memory_ids) ++ 10 ∷ []
        else [])
    ++ bytes "Result: "
    ++ decimal_text result.deleted_memories
    ++ bytes " memories, "
    ++ decimal_text result.deleted_edges
    ++ bytes " edges, "
    ++ decimal_text result.deleted_facts
    ++ bytes " facts deleted"
    ++ 10 ∷ []

module _ {F D : Type 0} where
  -- The loops over the memories of an agent and of a space.
  unfoldable pub add_matching :
      (MemoryNode F D → Bool) → List MemoryId → List (MemoryNode F D) → List MemoryId
  add_matching matches to_delete [] = to_delete
  add_matching matches to_delete (m ∷ rest) =
      add_matching matches (if matches m then with_element to_delete m.id else to_delete) rest

  abbrev pub add_agent : Option ℕ → List MemoryId → List (MemoryNode F D) → List MemoryId
  add_agent none to_delete memories = to_delete
  add_agent (some agent_id) to_delete memories =
      add_matching (λ m. m.agent_id == agent_id) to_delete memories

  abbrev pub add_space : Option ℕ → List MemoryId → List (MemoryNode F D) → List MemoryId
  add_space none to_delete memories = to_delete
  add_space (some space_id) to_delete memories =
      add_matching (λ m. m.space_id == space_id) to_delete memories

  unfoldable pub plan_forget :
      (MemoryId → Text)
      → ForgetRequest
      → List (MemoryNode F D)
      → List (MemoryId × MemoryId)
      → ForgetResult
  plan_forget show request all_memories all_edges =
      let requested = add_ids [] request.memory_ids in
      let of_agent = add_agent request.agent_id requested all_memories in
      let to_delete = add_space request.space_id of_agent all_memories in
      let deleted_edges =
        length (retain (λ e. contains to_delete e.0 || contains to_delete e.1) all_edges) in
      let draft : ForgetResult = record {
        deleted_memories = length to_delete;
        deleted_edges = deleted_edges;
        deleted_facts = length to_delete;
        audit_log_entry = [];
      } in
      record draft { audit_log_entry = generate_audit_log show request draft }
