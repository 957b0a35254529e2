-- ===== src/Query/Parser/Reads.antt =====
-- What the parser reads back from the tokens of the statements on edges.
use grasp.Prelude.{ℕ, ◌+◌, ◌≡◌, refl, inl, inr, Option, none, some, List, ◌∷◌, drop}
use grasp.Core.Edge.{
  Text, MemoryId, EdgeType, caused, before, related, contradicts, supports, supersedes, derived,
  part_of,
}
use grasp.Query.Token.{Token, kind_number, identifier, uuid_lit, string_lit, kw_with, kw_where}
use grasp.Query.Result.{ok}
use grasp.Query.Ast.{relate, traverse}
use grasp.Query.Lexer.{to_lowercase}
use grasp.Query.Parser.Literals.{parse_usize}
use grasp.Query.Words.{edge_type_of}
use grasp.Query.Parser.{
  Parsers, parse_uuid, parse_edge_type, parse_relate, parse_traverse, parse_statement, parse,
}
use grasp.Query.Parser.Here.{tok, peek-here, advance-here, at-here, expect-here}
use grasp.Query.Parser.Written.{
  Word, bare, quoted, id_token, name_token, text_of, Names, Weight, weight_of, ReadsWeight,
  WrittenRelate, relate_tokens, WrittenFilter, ReadsFilter, one_type, WrittenTraverse,
  traverse_tokens,
}

edge_type_of-Names : (kind : EdgeType) (t : Text) → Names kind t → edge_type_of t ≡ some kind
unfolding edge_type_of
edge_type_of-Names caused t e = rw e refl
edge_type_of-Names before t e = rw e refl
edge_type_of-Names related t e = rw e refl
edge_type_of-Names contradicts t e = rw e refl
edge_type_of-Names supports t e = rw e refl
edge_type_of-Names supersedes t e = rw e refl
edge_type_of-Names derived t e = rw e refl
edge_type_of-Names part_of t (inl e) = rw e refl
edge_type_of-Names part_of t (inr e) = rw e refl

module _ (tokens : List Token) (pos : ℕ) where
  parse_edge_type-here :
      (name : Word) (kind : EdgeType) (rest : List Token)
      → Names kind (to_lowercase (text_of name))
      → drop pos tokens ≡ name_token name ∷ rest
      → parse_edge_type tokens pos ≡ ok (kind, pos + 1)
  unfolding parse_edge_type
  parse_edge_type-here (bare s) kind rest names here =
      rw (advance-here tokens pos (tok identifier s) rest here, edge_type_of-Names kind _ names)
        refl
  parse_edge_type-here (quoted s) kind rest names here =
      rw (advance-here tokens pos (tok string_lit s) rest here, edge_type_of-Names kind _ names)
        refl

module _ {F D : Type 0} (parsers : Parsers F D) where
  parse_uuid-here :
      (tokens : List Token) (pos : ℕ) (w : Word) (rest : List Token) {id : MemoryId}
      → drop pos tokens ≡ id_token w ∷ rest
      → parsers.uuid (text_of w) ≡ some id
      → parse_uuid tokens parsers pos ≡ ok (id, pos + 1)
  unfolding parse_uuid
  parse_uuid-here tokens pos (bare s) rest here read =
      rw (advance-here tokens pos (tok uuid_lit s) rest here, read) refl
  parse_uuid-here tokens pos (quoted s) rest here read =
      rw (advance-here tokens pos (tok string_lit s) rest here, read) refl

  -- A written `RELATE` statement is read as the statement it stands for.
  pub parse-relate_tokens :
      (w : WrittenRelate) (weight : Option (Weight F)) (kind : EdgeType) {s t : MemoryId}
      → parsers.uuid (text_of w.source) ≡ some s
      → parsers.uuid (text_of w.target) ≡ some t
      → Names kind (to_lowercase (text_of w.name))
      → ReadsWeight parsers weight
      → parse parsers (relate_tokens w weight)
        ≡ ok (
            relate (record { source = s; target = t; edge_type = kind; weight = weight_of weight }))
  unfolding parse parse_statement parse_relate kind_number
  parse-relate_tokens w none kind hs ht names reads =
      let ts : List Token = relate_tokens {F = F} w none in
      rw
        (
          peek-here ts 0 _ _ refl,
          advance-here ts 0 _ _ refl,
          parse_uuid-here ts 1 w.source _ refl hs,
          expect-here ts 2 _ _ refl refl,
          parse_uuid-here ts 3 w.target _ refl ht,
          expect-here ts 4 _ _ refl refl,
          parse_edge_type-here ts 5 w.name kind _ names refl,
          at-here ts 6 _ _ refl kw_with,
        )
        refl
  parse-relate_tokens w (some weight) kind hs ht names reads =
      let ts = relate_tokens w (some weight) in
      rw
        (
          peek-here ts 0 _ _ refl,
          advance-here ts 0 _ _ refl,
          parse_uuid-here ts 1 w.source _ refl hs,
          expect-here ts 2 _ _ refl refl,
          parse_uuid-here ts 3 w.target _ refl ht,
          expect-here ts 4 _ _ refl refl,
          parse_edge_type-here ts 5 w.name kind _ names refl,
          at-here ts 6 _ _ refl kw_with,
          advance-here ts 6 _ _ refl,
          expect-here ts 7 _ _ refl refl,
          expect-here ts 8 _ _ refl refl,
          advance-here ts 9 _ _ refl,
          reads,
        )
        refl

  -- A written `TRAVERSE` statement is read as the statement it stands for.
  pub parse-traverse_tokens :
      (w : WrittenTraverse) (filter : Option WrittenFilter) (kind : Option EdgeType) {s : MemoryId}
      {n : ℕ}
      → parsers.uuid (text_of w.start) ≡ some s
      → parse_usize w.depth.0 ≡ some n
      → ReadsFilter filter kind
      → parse parsers (traverse_tokens w filter)
        ≡ ok (traverse (record { start = s; depth = n; edge_filter = one_type kind }))
  unfolding parse parse_statement parse_traverse kind_number
  parse-traverse_tokens w none none hs hn reads =
      let ts = traverse_tokens w none in
      rw
        (
          peek-here ts 0 _ _ refl,
          advance-here ts 0 _ _ refl,
          parse_uuid-here ts 1 w.start _ refl hs,
          expect-here ts 2 _ _ refl refl,
          advance-here ts 3 _ _ refl,
          hn,
          at-here ts 4 _ _ refl kw_where,
        )
        refl
  parse-traverse_tokens w none (some kind) hs hn reads = elim reads [ ]
  parse-traverse_tokens w (some f) none hs hn reads = elim reads [ ]
  parse-traverse_tokens w (some f) (some kind) hs hn reads =
      let ts = traverse_tokens w (some f) in
      rw
        (
          peek-here ts 0 _ _ refl,
          advance-here ts 0 _ _ refl,
          parse_uuid-here ts 1 w.start _ refl hs,
          expect-here ts 2 _ _ refl refl,
          advance-here ts 3 _ _ refl,
          hn,
          at-here ts 4 _ _ refl kw_where,
          advance-here ts 4 _ _ refl,
          expect-here ts 5 _ _ refl refl,
          expect-here ts 6 _ _ refl refl,
          parse_edge_type-here ts 7 f.name kind _ reads refl,
        )
        refl
