-- ===== src/Query/Parser/Written.antt =====
-- The statements on edges as the lexer hands them over: the tokens of a `RELATE` and of a `TRAVERSE`
-- statement, with any spelling of each word and any offsets.
use grasp.Prelude.{◌≡◌, ◌⊎◌, Option, none, some, List, [], ◌∷◌, ◌++◌}
use grasp.Core.Edge.{
  Text, EdgeType, caused, before, related, contradicts, supports, supersedes, derived, part_of,
}
use grasp.Query.Token.{
  Token, bytes, identifier, uuid_lit, string_lit, integer_lit, arrow, eof, eq, kw_relate, kw_as,
  kw_with, kw_traverse, kw_depth, kw_where, kw_edge_type,
}
use grasp.Query.Lexer.{to_lowercase}
use grasp.Query.Words.{unquote}
use grasp.Query.Parser.{Parsers}
use grasp.Query.Parser.Here.{Spelling, tok}
use grasp.Query.Parser.Vectors.{Number, number_token}

-- An identifier or a name, plain or in quotes.
pub data Word : Type 0 where
  bare : Spelling → Word
  quoted : Spelling → Word

abbrev pub id_token : Word → Token
id_token (bare s) = tok uuid_lit s
id_token (quoted s) = tok string_lit s

abbrev pub name_token : Word → Token
name_token (bare s) = tok identifier s
name_token (quoted s) = tok string_lit s

abbrev pub text_of : Word → Text
text_of (bare s) = s.0
text_of (quoted s) = unquote s.0

-- The names of a type of edge, in lower case.
abbrev pub Names : EdgeType → Text → Type 0
Names caused t = t ≡ bytes "caused"
Names before t = t ≡ bytes "before"
Names related t = t ≡ bytes "related"
Names contradicts t = t ≡ bytes "contradicts"
Names supports t = t ≡ bytes "supports"
Names supersedes t = t ≡ bytes "supersedes"
Names derived t = t ≡ bytes "derived"
Names part_of t = (t ≡ bytes "part_of") ⊎ (t ≡ bytes "partof")

-- `WITH name = number`.
pub record Weight (F : Type 0) : Type 0 where
  pub with_word : Spelling
  pub name : Spelling
  pub equals : Spelling
  pub number : Number F

abbrev pub weight_tokens : {F : Type 0} → Option (Weight F) → List Token
weight_tokens none = []
weight_tokens (some w) =
    tok kw_with w.with_word ∷ tok identifier w.name ∷ tok eq w.equals ∷ number_token w.number ∷ []

abbrev pub weight_of : {F : Type 0} → Option (Weight F) → Option F
weight_of none = none
weight_of (some w) = some w.number.value

-- The lexeme of the weight stands for its value.
abbrev pub ReadsWeight : {F D : Type 0} → Parsers F D → Option (Weight F) → Type 0
ReadsWeight parsers none = Unit
ReadsWeight parsers (some w) = parsers.f32 w.number.spelling.0 ≡ some w.number.value

-- `RELATE source -> target AS name`, and the end of the text.
pub record WrittenRelate : Type 0 where
  pub relate_word : Spelling
  pub source : Word
  pub arrow_sign : Spelling
  pub target : Word
  pub as_word : Spelling
  pub name : Word
  pub end : Spelling

abbrev pub relate_tokens : {F : Type 0} → WrittenRelate → Option (Weight F) → List Token
relate_tokens w weight =
    tok kw_relate w.relate_word
      ∷ id_token w.source
      ∷ tok arrow w.arrow_sign
      ∷ id_token w.target
      ∷ tok kw_as w.as_word
      ∷ name_token w.name
      ∷ weight_tokens weight
    ++ tok eof w.end ∷ []

-- `WHERE edge_type = name`.
pub record WrittenFilter : Type 0 where
  pub where_word : Spelling
  pub field_word : Spelling
  pub equals : Spelling
  pub name : Word

abbrev pub filter_tokens : Option WrittenFilter → List Token
filter_tokens none = []
filter_tokens (some f) =
    tok kw_where f.where_word
    ∷ tok kw_edge_type f.field_word
    ∷ tok eq f.equals
    ∷ name_token f.name
    ∷ []

-- The filter names the types of edges, none at all if it is missing.
abbrev pub ReadsFilter : Option WrittenFilter → Option EdgeType → Type 0
ReadsFilter none none = Unit
ReadsFilter none (some kind) = ⊥
ReadsFilter (some f) none = ⊥
ReadsFilter (some f) (some kind) = Names kind (to_lowercase (text_of f.name))

abbrev pub one_type : Option EdgeType → Option (List EdgeType)
one_type none = none
one_type (some kind) = some (kind ∷ [])

-- `TRAVERSE start DEPTH depth`, and the end of the text.
pub record WrittenTraverse : Type 0 where
  pub traverse_word : Spelling
  pub start : Word
  pub depth_word : Spelling
  pub depth : Spelling
  pub end : Spelling

abbrev pub traverse_tokens : WrittenTraverse → Option WrittenFilter → List Token
traverse_tokens w filter =
    tok kw_traverse w.traverse_word
      ∷ id_token w.start
      ∷ tok kw_depth w.depth_word
      ∷ tok integer_lit w.depth
      ∷ filter_tokens filter
    ++ tok eof w.end ∷ []
