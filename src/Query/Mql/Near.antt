-- ===== src/Query/Mql/Near.antt =====
-- The plan of the text of a `RECALL` statement with a vector, through the lexer, the parser and the
-- planner.
use grasp.Prelude.{
  ℕ, ◌+◌, ◌≡◌, refl, sym, ◌∙◌, Option, none, some, List, [], ◌∷◌, ◌++◌, length, drop,
}
use grasp.Core.Edge.{Text}
use grasp.Core.Float32.{Float32}
use grasp.Query.Token.{
  Token, kind_number, kw_recall, kw_memories, kw_near, kw_where, kw_order_by, kw_limit, integer_lit,
  eof,
}
use grasp.Query.Result.{ok}
use grasp.Query.Ast.{recall}
use grasp.Query.Lexer.{tokenize}
use grasp.Query.Parser.{Parsers, parse_recall, parse_statement}
use grasp.Query.Parser as Parser
use grasp.Query.Parser.Literals.{parse_usize}
use grasp.Query.Parser.Here.{
  Spelling, tok, drop-drop, drop-append, peek-here, advance-here, drop-here, at-here,
}
use grasp.Query.Parser.Vectors.{Item, Reads, vector_tokens, values, parse_vector-vector_tokens}
use grasp.Query.Planner.{vector_search, default_limit, unwrap_or, plan, plan_recall}
use grasp.Query.Mql as Mql

-- `RECALL memories NEAR [...]`, and the end of the text.
pub record WrittenNear (F : Type 0) : Type 0 where
  pub recall_word : Spelling
  pub memories_word : Spelling
  pub near_word : Spelling
  pub opening : Spelling
  pub items : List (Item F)
  pub closing : Spelling
  pub end : Spelling

-- `LIMIT number`, by the spellings of the two.
abbrev pub limit_tokens : Option (Spelling × Spelling) → List Token
limit_tokens none = []
limit_tokens (some (word, number)) = tok kw_limit word ∷ tok integer_lit number ∷ []

abbrev pub near_tokens : {F : Type 0} → WrittenNear F → Option (Spelling × Spelling) → List Token
near_tokens w limit =
    tok kw_recall w.recall_word
    ∷ tok kw_memories w.memories_word
    ∷ tok kw_near w.near_word
    ∷ (vector_tokens w.opening w.closing w.items ++ (limit_tokens limit ++ tok eof w.end ∷ []))

-- The tokens behind the vector.
drop-near_tokens :
    {F : Type 0} (w : WrittenNear F) (limit : Option (Spelling × Spelling))
    → drop (3 + length (vector_tokens w.opening w.closing w.items)) (near_tokens w limit)
      ≡ limit_tokens limit ++ tok eof w.end ∷ []
drop-near_tokens w limit =
    let vs = vector_tokens w.opening w.closing w.items in
    sym (drop-drop 3 (length vs) (near_tokens w limit))
    ∙ drop-append vs (limit_tokens limit ++ tok eof w.end ∷ [])

-- The limit that is written, the default if none is.
abbrev pub ReadsLimit : Option (Spelling × Spelling) → ℕ → Type 0
ReadsLimit none n = n ≡ default_limit
ReadsLimit (some (word, number)) n = parse_usize number.0 ≡ some n

module _ {F D : Type 0} (parsers : Parsers F D) where
  -- A written `RECALL` statement with a vector is read as the statement it stands for.
  parse-near_tokens :
      (w : WrittenNear F) (limit : Option (Spelling × Spelling)) (n : ℕ)
      → Reads parsers w.items
      → ReadsLimit limit n
      → (l : Option ℕ) × (Parser.parse parsers (near_tokens w limit)
          ≡ ok (
              recall (record {
                filters = [];
                near = some (values w.items);
                limit = l;
                order_by = none;
              })))
        × (unwrap_or l default_limit ≡ n)
  unfolding Parser.parse parse_statement parse_recall kind_number
  parse-near_tokens w none n reads small =
      let ts = near_tokens w none in
      let end = 3 + length (vector_tokens w.opening w.closing w.items) in
      let behind = drop-near_tokens w none in
      (
        none,
        rw
            (
              peek-here ts 0 _ _ refl,
              advance-here ts 0 _ _ refl,
              at-here ts 1 _ _ refl kw_memories,
              advance-here ts 1 _ _ refl,
              at-here ts 2 _ _ refl kw_near,
              advance-here ts 2 _ _ refl,
              parse_vector-vector_tokens parsers w.closing w.opening ts 3 w.items _ reads refl,
              at-here ts end _ _ behind kw_where,
              at-here ts end _ _ behind kw_order_by,
              at-here ts end _ _ behind kw_limit,
            )
            refl,
        sym small,
      )
  parse-near_tokens w (some (word, number)) n reads parsed =
      let ts = near_tokens w (some (word, number)) in
      let end = 3 + length (vector_tokens w.opening w.closing w.items) in
      let last = tok integer_lit number ∷ tok eof w.end ∷ [] in
      let behind = drop-near_tokens w (some (word, number)) in
      let at_number = drop-here ts end _ last behind in
      (
        some n,
        rw
            (
              peek-here ts 0 _ _ refl,
              advance-here ts 0 _ _ refl,
              at-here ts 1 _ _ refl kw_memories,
              advance-here ts 1 _ _ refl,
              at-here ts 2 _ _ refl kw_near,
              advance-here ts 2 _ _ refl,
              parse_vector-vector_tokens parsers w.closing w.opening ts 3 w.items _ reads refl,
              at-here ts end _ _ behind kw_where,
              at-here ts end _ _ behind kw_order_by,
              at-here ts end _ _ behind kw_limit,
              advance-here ts end _ _ behind,
              advance-here ts (end + 1) _ _ at_number,
              parsed,
            )
            refl,
        refl,
      )

module _ {F D : Type 0} (fl : Float32 F) (parsers : Parsers F D) (input : Text) where
  -- A text that is lexed as `RECALL memories NEAR` and a bracketed list of numbers, whole or with a
  -- fraction, with a limit behind it or without, is planned as the search for the values of the
  -- numbers, without filters, if the lexemes and the limit parse. Where no limit is written it is
  -- the default.
  pub parse-vector_search :
      (w : WrittenNear F) (limit : Option (Spelling × Spelling)) (n : ℕ)
      → tokenize input ≡ ok (near_tokens w limit)
      → Reads parsers w.items
      → ReadsLimit limit n
      → Mql.parse fl parsers input ≡ ok (vector_search (values w.items) n [])
  unfolding Mql.parse plan plan_recall
  parse-vector_search w limit n lexed reads limited =
      let (l, read, same) = parse-near_tokens parsers w limit n reads limited in
      rw (lexed, read, same) refl
