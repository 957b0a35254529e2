-- ===== src/Query/Result.antt =====
-- What a stage of the query front end returns. `panicked` stands for a string slice that does not
-- end between two characters, and `out_of_fuel` for a loop that has not ended.
use grasp.Prelude.{ℕ}
use grasp.Core.Edge.{Text}
use grasp.Query.Token.{TokenKind}

-- The `MenteError::Query` messages, as what they are formatted from.
pub data QueryError : Type 0 where
  unterminated_string : QueryError
  unexpected_character : (byte position : ℕ) → QueryError
  expected_kind : (wanted found : TokenKind) → Text → (position : ℕ) → QueryError
  expected_statement : (found : TokenKind) → (position : ℕ) → QueryError
  expected_field expected_operator expected_value expected_memory_type expected_edge_type
        expected_uuid :
      Text → (position : ℕ) → QueryError
  invalid_limit invalid_weight invalid_depth invalid_integer invalid_float invalid_uuid :
      Text → QueryError
  invalid_uuid_string invalid_vector_float unknown_memory_type unknown_edge_type : Text → QueryError
  text_required : QueryError

pub data Outcome {ℓ} (A : Type ℓ) : Type ℓ where
  ok : A → Outcome A
  err : QueryError → Outcome A
  panicked : Outcome A
  out_of_fuel : Outcome A
