-- ===== src/Query/Parser.antt =====
-- The recursive descent parser of crates/mentedb-query/src/parser.rs. The two loops take fuel, one
-- round for each token. The parsers of floats and of UUIDs are those of the standard library and of
-- the crate uuid, and parameters here.
pub mod Literals
pub mod Here
pub mod Vectors
pub mod Written
pub mod Reads
use grasp.Prelude.{
  ℕ, zero, suc, ◌-◌, true, false, Option, none, some, List, [], ◌∷◌, if◌then◌else◌, length,
}
use grasp.Core.Edge.{
  Text, MemoryId, EdgeType, caused, before, related, contradicts, supports, supersedes, derived,
  part_of,
}
use grasp.Query.Token.{
  Token, TokenKind, same_kind, kind_number, bytes, same_text, kw_recall, kw_relate, kw_forget,
  kw_consolidate, kw_traverse, kw_where, kw_and, kw_or, kw_not, kw_near, kw_within, kw_limit,
  kw_order_by, kw_as, kw_from, kw_to, kw_with, kw_agent, kw_space, kw_type, kw_tag, kw_salience,
  kw_confidence, kw_created, kw_accessed, kw_depth, kw_hops, kw_memories, kw_by, kw_edge_type, eq,
  neq, gt, lt, gte, lte, similar_to, arrow, l_paren, r_paren, l_bracket, r_bracket, comma, dot,
  colon, semicolon, string_lit, integer_lit, float_lit, identifier, uuid_lit, eof,
}
use grasp.Query.Result
use grasp.Query.Result.{
  QueryError, Outcome, ok, err, panicked, out_of_fuel, expected_kind, expected_statement,
  expected_field, expected_operator, expected_value, expected_memory_type, expected_edge_type,
  expected_uuid, invalid_limit, invalid_weight, invalid_depth, invalid_integer, invalid_float,
  invalid_uuid, invalid_uuid_string, invalid_vector_float, unknown_memory_type, unknown_edge_type,
}
use grasp.Query.Lexer.{to_lowercase}
use grasp.Query.Ast.{
  MemoryType, episodic, semantic, procedural, anti_pattern, reasoning, correction, Int64, Field,
  on_content, on_type, on_tag, on_agent, on_space, on_salience, on_confidence, on_created,
  on_accessed, Operator, op_eq, op_neq, op_gt, op_lt, op_gte, op_lte, op_similar_to, Value,
  text_value, number_value, integer_value, bool_value, uuid_value, vector_value, memory_type_value,
  Filter, OrderBy, RecallStatement, RelateStatement, TraverseStatement, Statement, recall, relate,
  forget, consolidate, traverse,
}
use grasp.Query.Parser.Literals.{parse_usize, parse_i64}
use grasp.Query.Cursor.{
  Parse, ◌>>=◌, ◌>>◌, return, fail, require, continue_with, eof_token, peek, advance, expect, at,
  when_at,
}
use grasp.Query.Words.{unquote, memory_type_of, edge_type_of, name_of, field_of, operator_of}

-- `str::parse` for `f32`, `f64` and `Uuid`.
pub record Parsers (F D : Type 0) : Type 0 where
  pub f32 : Text → Option F
  pub f64 : Text → Option D
  pub uuid : Text → Option MemoryId

module _ (tokens : List Token) where
  unfoldable pub parse_field : Parse Field
  parse_field = do
    tok ← advance tokens
    require (field_of tok) (expected_field tok.lexeme tok.position)

  unfoldable pub parse_operator : Parse Operator
  parse_operator = do
    tok ← advance tokens
    require (operator_of tok.kind) (expected_operator tok.lexeme tok.position)

  unfoldable pub parse_edge_type : Parse EdgeType
  parse_edge_type = do
    tok ← advance tokens
    name ← require (name_of tok) (expected_edge_type tok.lexeme tok.position)
    require (edge_type_of (to_lowercase name)) (unknown_edge_type name)

  module _ {F D : Type 0} (parsers : Parsers F D) where
    unfoldable pub parse_memory_type_value : Parse (Value F D)
    parse_memory_type_value = do
      tok ← advance tokens
      name ← require (name_of tok) (expected_memory_type tok.lexeme tok.position)
      kind ← require (memory_type_of (to_lowercase name)) (unknown_memory_type name)
      return (memory_type_value kind)

    unfoldable pub parse_uuid : Parse MemoryId
    parse_uuid = do
      tok ← advance tokens
      elim tok.kind [
        | uuid_lit ↦ require (parsers.uuid tok.lexeme) (invalid_uuid tok.lexeme)
        | string_lit ↦ require (parsers.uuid (unquote tok.lexeme)) (invalid_uuid_string tok.lexeme)
        | _ ↦ fail (expected_uuid tok.lexeme tok.position)
      ]

    abbrev pub vector_item : Parse F
    vector_item = do
      tok ← advance tokens
      require (parsers.f32 tok.lexeme) (invalid_vector_float tok.lexeme)

    -- `while self.at(TokenKind::Comma)`.
    unfoldable pub vector_loop : ℕ → Parse (List F)
    vector_loop zero = when_at tokens comma (λ pos. out_of_fuel) (return [])
    vector_loop (suc fuel) =
        when_at tokens comma (do v ← vector_item; values ← vector_loop fuel; return (v ∷ values))
          (return [])

    unfoldable pub parse_vector : Parse (List F)
    parse_vector = do
      expect tokens l_bracket
      empty ← at tokens r_bracket
      values ← elim empty [
        | true ↦ return []
        | false ↦ do v ← vector_item; rest ← vector_loop (length tokens); return (v ∷ rest)
      ]
      expect tokens r_bracket
      return values

    -- A string literal is a UUID if it parses as one, else a text.
    abbrev pub string_value : Text → Value F D
    string_value inner = elim (parsers.uuid inner) [
      | some id ↦ uuid_value id
      | none ↦ text_value inner
    ]

    abbrev pub word_value : Text → Value F D
    word_value lexeme =
        if same_text (to_lowercase lexeme) (bytes "true")
        then bool_value true
        else if same_text (to_lowercase lexeme) (bytes "false")
        then bool_value false
        else text_value lexeme

    unfoldable pub parse_plain_value : Parse (Value F D)
    parse_plain_value = do
      tok ← advance tokens
      elim tok.kind [
        | string_lit ↦ return (string_value (unquote tok.lexeme))
        | integer_lit ↦ do
          n ← require (parse_i64 tok.lexeme) (invalid_integer tok.lexeme)
          return (integer_value n)
        | float_lit ↦ do
          n ← require (parsers.f64 tok.lexeme) (invalid_float tok.lexeme)
          return (number_value n)
        | uuid_lit ↦ do
          id ← require (parsers.uuid tok.lexeme) (invalid_uuid tok.lexeme)
          return (uuid_value id)
        | identifier ↦ return (word_value tok.lexeme)
        | l_bracket ↦ do v ← λ pos. parse_vector (pos - 1); return (vector_value v)
        | _ ↦ fail (expected_value tok.lexeme tok.position)
      ]

    unfoldable pub parse_value : Field → Parse (Value F D)
    parse_value on_type = parse_memory_type_value
    parse_value _ = parse_plain_value

    unfoldable pub parse_filter : Parse (Filter F D)
    parse_filter = do
      field ← parse_field
      op ← parse_operator
      value ← parse_value field
      return (record { field = field; op = op; value = value })

    -- `while self.at(TokenKind::And)`.
    unfoldable pub filters_loop : ℕ → Parse (List (Filter F D))
    filters_loop zero = when_at tokens kw_and (λ pos. out_of_fuel) (return [])
    filters_loop (suc fuel) =
        when_at tokens kw_and
          (do f ← parse_filter; filters ← filters_loop fuel; return (f ∷ filters)) (return [])

    unfoldable pub parse_filters : Parse (List (Filter F D))
    parse_filters = do
      f ← parse_filter
      filters ← filters_loop (length tokens)
      return (f ∷ filters)

    abbrev pub parse_limit : Parse (Option ℕ)
    parse_limit = do
      tok ← advance tokens
      n ← require (parse_usize tok.lexeme) (invalid_limit tok.lexeme)
      return (some n)

    abbrev pub parse_order : Parse (Option OrderBy)
    parse_order = do
      when_at tokens kw_by (return tt) (return tt)
      field ← parse_field
      return (some (record { field = field; descending = false }))

    unfoldable pub parse_recall : Parse (Statement F D)
    parse_recall = do
      advance tokens
      when_at tokens kw_memories (return tt) (return tt)
      near ← when_at tokens kw_near (do v ← parse_vector; return (some v)) (return none)
      filters ← when_at tokens kw_where parse_filters (return [])
      order_by ← when_at tokens kw_order_by parse_order (return none)
      limit ← when_at tokens kw_limit parse_limit (return none)
      return
          (recall (record { filters = filters; near = near; limit = limit; order_by = order_by }))

    abbrev pub parse_weight : Parse (Option F)
    parse_weight = do
      expect tokens identifier
      expect tokens eq
      tok ← advance tokens
      w ← require (parsers.f32 tok.lexeme) (invalid_weight tok.lexeme)
      return (some w)

    unfoldable pub parse_relate : Parse (Statement F D)
    parse_relate = do
      advance tokens
      source ← parse_uuid
      expect tokens arrow
      target ← parse_uuid
      expect tokens kw_as
      edge_type ← parse_edge_type
      weight ← when_at tokens kw_with parse_weight (return none)
      return (
          relate
            (record { source = source; target = target; edge_type = edge_type; weight = weight }))

    unfoldable pub parse_forget : Parse (Statement F D)
    parse_forget = do advance tokens; target ← parse_uuid; return (forget target)

    unfoldable pub parse_consolidate : Parse (Statement F D)
    parse_consolidate = do
      advance tokens
      filters ← when_at tokens kw_where parse_filters (return [])
      return (consolidate filters)

    abbrev pub parse_edge_filter : Parse (Option (List EdgeType))
    parse_edge_filter = do
      expect tokens kw_edge_type
      expect tokens eq
      kind ← parse_edge_type
      return (some (kind ∷ []))

    unfoldable pub parse_traverse : Parse (Statement F D)
    parse_traverse = do
      advance tokens
      start ← parse_uuid
      expect tokens kw_depth
      tok ← advance tokens
      depth ← require (parse_usize tok.lexeme) (invalid_depth tok.lexeme)
      edge_filter ← when_at tokens kw_where parse_edge_filter (return none)
      return (traverse (record { start = start; depth = depth; edge_filter = edge_filter }))

    unfoldable pub parse_statement : Parse (Statement F D)
    parse_statement = do
      tok ← peek tokens
      elim tok.kind [
        | kw_recall ↦ parse_recall
        | kw_relate ↦ parse_relate
        | kw_forget ↦ parse_forget
        | kw_consolidate ↦ parse_consolidate
        | kw_traverse ↦ parse_traverse
        | _ ↦ fail (expected_statement tok.kind tok.position)
      ]

-- `Parser::parse`, which leaves the tokens behind the statement unread.
abbrev pub statement_of : {F D : Type 0} → Outcome (Statement F D × ℕ) → Outcome (Statement F D)
statement_of (ok (s, pos)) = ok s
statement_of (err e) = err e
statement_of panicked = panicked
statement_of out_of_fuel = out_of_fuel

unfoldable pub parse : {F D : Type 0} → Parsers F D → List Token → Outcome (Statement F D)
parse parsers tokens = statement_of (parse_statement tokens parsers 0)
