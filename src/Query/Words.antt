-- ===== src/Query/Words.antt =====
-- The words of the language that the parser of crates/mentedb-query/src/parser.rs knows, as tables.
use grasp.Prelude.{◌-◌, ◌||◌, Option, none, some, if◌then◌else◌, length, take, drop}
use grasp.Core.Edge.{
  Text, EdgeType, caused, before, related, contradicts, supports, supersedes, derived, part_of,
}
use grasp.Query.Token.{
  Token, TokenKind, bytes, same_text, kw_agent, kw_space, kw_type, kw_tag, kw_salience,
  kw_confidence, kw_created, kw_accessed, eq, neq, gt, lt, gte, lte, similar_to, string_lit,
  identifier,
}
use grasp.Query.Lexer.{to_lowercase}
use grasp.Query.Ast.{
  MemoryType, episodic, semantic, procedural, anti_pattern, reasoning, correction, Field,
  on_content, on_type, on_tag, on_agent, on_space, on_salience, on_confidence, on_created,
  on_accessed, Operator, op_eq, op_neq, op_gt, op_lt, op_gte, op_lte, op_similar_to,
}

-- `lexeme[1..len - 1]`.
abbrev pub unquote : Text → Text
unquote t = drop 1 (take (length t - 1) t)

unfoldable pub memory_type_of : Text → Option MemoryType
memory_type_of s =
    if same_text s (bytes "episodic")
    then some episodic
    else if same_text s (bytes "semantic")
    then some semantic
    else if same_text s (bytes "procedural")
    then some procedural
    else if same_text s (bytes "antipattern") || same_text s (bytes "anti_pattern")
    then some anti_pattern
    else if same_text s (bytes "reasoning")
    then some reasoning
    else if same_text s (bytes "correction")
    then some correction
    else none

unfoldable pub edge_type_of : Text → Option EdgeType
edge_type_of s =
    if same_text s (bytes "caused")
    then some caused
    else if same_text s (bytes "before")
    then some before
    else if same_text s (bytes "related")
    then some related
    else if same_text s (bytes "contradicts")
    then some contradicts
    else if same_text s (bytes "supports")
    then some supports
    else if same_text s (bytes "supersedes")
    then some supersedes
    else if same_text s (bytes "derived")
    then some derived
    else if same_text s (bytes "partof") || same_text s (bytes "part_of")
    then some part_of
    else none

-- The name in an identifier or in a string literal.
abbrev pub name_of : Token → Option Text
name_of tok = elim tok.kind [
  | identifier ↦ some tok.lexeme
  | string_lit ↦ some (unquote tok.lexeme)
  | _ ↦ none
]

abbrev pub field_of : Token → Option Field
field_of tok = elim tok.kind [
  | identifier ↦
      if same_text (to_lowercase tok.lexeme) (bytes "content") then some on_content else none
  | kw_type ↦ some on_type
  | kw_tag ↦ some on_tag
  | kw_agent ↦ some on_agent
  | kw_space ↦ some on_space
  | kw_salience ↦ some on_salience
  | kw_confidence ↦ some on_confidence
  | kw_created ↦ some on_created
  | kw_accessed ↦ some on_accessed
  | _ ↦ none
]

abbrev pub operator_of : TokenKind → Option Operator
operator_of kind = elim kind [
  | eq ↦ some op_eq
  | neq ↦ some op_neq
  | gt ↦ some op_gt
  | lt ↦ some op_lt
  | gte ↦ some op_gte
  | lte ↦ some op_lte
  | similar_to ↦ some op_similar_to
  | _ ↦ none
]
