-- ===== src/Query/Token.antt =====
-- `Token` and `TokenKind` of crates/mentedb-query/src/lexer.rs. The kinds of the keywords have the
-- prefix `kw_`. A text is the list of its UTF-8 bytes.
pub use grasp.Core.Text.{same_text}
use grasp.Prelude.{[], ℕ, Bool, List, ◌∷◌, ◌==◌}
use grasp.Core.Edge.{Text}
pub use grasp.Core.Text.{bytes}

pub data TokenKind : Type 0 where
  kw_recall kw_relate kw_forget kw_consolidate kw_traverse kw_where kw_and kw_or : TokenKind
  kw_not kw_near kw_within kw_limit kw_order_by kw_as kw_from kw_to kw_with : TokenKind
  kw_agent kw_space kw_type kw_tag kw_salience kw_confidence kw_created : TokenKind
  kw_accessed kw_depth kw_hops kw_memories kw_by kw_edge_type eq neq gt lt gte lte : TokenKind
  similar_to arrow l_paren r_paren l_bracket r_bracket comma dot colon semicolon : TokenKind
  string_lit integer_lit float_lit identifier uuid_lit eof : TokenKind

-- The discriminant, by which `==` of the derived `PartialEq` compares.
unfoldable pub kind_number : TokenKind → ℕ
kind_number kw_recall = 0
kind_number kw_relate = 1
kind_number kw_forget = 2
kind_number kw_consolidate = 3
kind_number kw_traverse = 4
kind_number kw_where = 5
kind_number kw_and = 6
kind_number kw_or = 7
kind_number kw_not = 8
kind_number kw_near = 9
kind_number kw_within = 10
kind_number kw_limit = 11
kind_number kw_order_by = 12
kind_number kw_as = 13
kind_number kw_from = 14
kind_number kw_to = 15
kind_number kw_with = 16
kind_number kw_agent = 17
kind_number kw_space = 18
kind_number kw_type = 19
kind_number kw_tag = 20
kind_number kw_salience = 21
kind_number kw_confidence = 22
kind_number kw_created = 23
kind_number kw_accessed = 24
kind_number kw_depth = 25
kind_number kw_hops = 26
kind_number kw_memories = 27
kind_number kw_by = 28
kind_number kw_edge_type = 29
kind_number eq = 30
kind_number neq = 31
kind_number gt = 32
kind_number lt = 33
kind_number gte = 34
kind_number lte = 35
kind_number similar_to = 36
kind_number arrow = 37
kind_number l_paren = 38
kind_number r_paren = 39
kind_number l_bracket = 40
kind_number r_bracket = 41
kind_number comma = 42
kind_number dot = 43
kind_number colon = 44
kind_number semicolon = 45
kind_number string_lit = 46
kind_number integer_lit = 47
kind_number float_lit = 48
kind_number identifier = 49
kind_number uuid_lit = 50
kind_number eof = 51

abbrev pub same_kind : TokenKind → TokenKind → Bool
unfolding kind_number
same_kind a b = kind_number a == kind_number b

pub record Token : Type 0 where
  pub kind : TokenKind
  pub lexeme : Text
  pub position : ℕ

abbrev pub keywords : List (Text × TokenKind)
keywords =
    (bytes "recall", kw_recall)
    ∷ (bytes "relate", kw_relate)
    ∷ (bytes "forget", kw_forget)
    ∷ (bytes "consolidate", kw_consolidate)
    ∷ (bytes "traverse", kw_traverse)
    ∷ (bytes "where", kw_where)
    ∷ (bytes "and", kw_and)
    ∷ (bytes "or", kw_or)
    ∷ (bytes "not", kw_not)
    ∷ (bytes "near", kw_near)
    ∷ (bytes "within", kw_within)
    ∷ (bytes "limit", kw_limit)
    ∷ (bytes "order", kw_order_by)
    ∷ (bytes "as", kw_as)
    ∷ (bytes "from", kw_from)
    ∷ (bytes "to", kw_to)
    ∷ (bytes "with", kw_with)
    ∷ (bytes "agent", kw_agent)
    ∷ (bytes "space", kw_space)
    ∷ (bytes "type", kw_type)
    ∷ (bytes "tag", kw_tag)
    ∷ (bytes "salience", kw_salience)
    ∷ (bytes "confidence", kw_confidence)
    ∷ (bytes "created", kw_created)
    ∷ (bytes "accessed", kw_accessed)
    ∷ (bytes "depth", kw_depth)
    ∷ (bytes "hops", kw_hops)
    ∷ (bytes "memories", kw_memories)
    ∷ (bytes "by", kw_by)
    ∷ (bytes "edge_type", kw_edge_type)
    ∷ []
