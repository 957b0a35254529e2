-- ===== src/Query/Mql/Edges.antt =====
-- The plans of the texts of statements on edges, through the lexer, the parser and the planner.
use grasp.Prelude.{ℕ, ◌≡◌, refl, Option, none, some, List, [], ◌∷◌}
use grasp.Core.Edge.{Text, MemoryId, EdgeType}
use grasp.Core.Float32.{Float32}
use grasp.Query.Result.{ok}
use grasp.Query.Lexer.{to_lowercase, tokenize}
use grasp.Query.Parser.{Parsers}
use grasp.Query.Parser.Literals.{parse_usize}
use grasp.Query.Parser.Written.{
  text_of, Names, Weight, weight_of, ReadsWeight, WrittenRelate, relate_tokens, WrittenFilter,
  one_type, ReadsFilter, WrittenTraverse, traverse_tokens,
}
use grasp.Query.Parser.Reads.{parse-relate_tokens, parse-traverse_tokens}
use grasp.Query.Planner.{edge_insert, graph_traversal, unwrap_or, plan, plan_relate, plan_traverse}
use grasp.Query.Mql as Mql

-- The types of edges in the plan of a traversal.
abbrev types_of : Option EdgeType → List EdgeType
types_of none = []
types_of (some kind) = kind ∷ []

one_type-types_of :
    {A : Type 0}
    → (f : List EdgeType → A) → (kind : Option EdgeType)
    → f (unwrap_or (one_type kind) []) ≡ f (types_of kind)
one_type-types_of f none = refl
one_type-types_of f (some kind) = refl

module _ {F D : Type 0} (fl : Float32 F) (parsers : Parsers F D) (input : Text) where
  -- A text that is lexed as a `RELATE` statement, with a weight or without, is planned as the
  -- insertion of that edge, if its identifiers, plain or in quotes, and its weight parse, and its
  -- type is named in any case. Where no weight is written it is one.
  pub parse-edge_insert :
      (w : WrittenRelate) (weight : Option (Weight F)) (kind : EdgeType) {s t : MemoryId}
      → tokenize input ≡ ok (relate_tokens w weight)
      → parsers.uuid (text_of w.source) ≡ some s
      → parsers.uuid (text_of w.target) ≡ some t
      → Names kind (to_lowercase (text_of w.name))
      → ReadsWeight parsers weight
      → Mql.parse fl parsers input ≡ ok (edge_insert s t kind (unwrap_or (weight_of weight) fl.one))
  unfolding Mql.parse plan plan_relate
  parse-edge_insert w weight kind lexed hs ht names reads =
      rw (lexed, parse-relate_tokens parsers w weight kind hs ht names reads) refl

  -- A text that is lexed as a `TRAVERSE` statement, with a filter on the type of the edges or
  -- without, is planned as that traversal, if its identifier, plain or in quotes, and its depth
  -- parse, and the type is named in any case. Where no filter is written the list of types is empty.
  pub parse-graph_traversal :
      (w : WrittenTraverse) (filter : Option WrittenFilter) (kind : Option EdgeType) {s : MemoryId}
      {n : ℕ}
      → tokenize input ≡ ok (traverse_tokens w filter)
      → parsers.uuid (text_of w.start) ≡ some s
      → parse_usize w.depth.0 ≡ some n
      → ReadsFilter filter kind
      → Mql.parse fl parsers input ≡ ok (graph_traversal s n (types_of kind))
  unfolding Mql.parse plan plan_traverse
  parse-graph_traversal w filter kind {s = s} {n = n} lexed hs hn reads =
      rw (lexed, parse-traverse_tokens parsers w filter kind hs hn reads)
        (one_type-types_of (λ types. ok (graph_traversal s n types)) kind)
