-- ===== src/Query/MqlTests.antt =====
-- The texts of three queries, what the lexer makes of them and how they are planned. A float is the
-- length of its text here, and a UUID the number of its bytes.
use grasp.Prelude.{ℕ, ◌≡◌, refl, true, false, some, [], ◌∷◌, length}
use grasp.Core.Edge.{Text, supports}
use grasp.Core.Samples.{singles}
use grasp.Query.Token.{bytes}
use grasp.Query.Result.{ok}
use grasp.Query.Lexer.{
  tokenize, tokenize_loop, scan, scan_string, string_body, scan_uuid, scan_plain, scan_number,
  scan_word, prefix_length, is_uuid_like, split_dashes,
}
use grasp.Query.Parser.{Parsers}
use grasp.Query.Parser.Literals.{parse_usize, digits}
use grasp.Query.Parser.Written.{
  bare, quoted, Weight, WrittenRelate, relate_tokens, WrittenFilter, WrittenTraverse,
  traverse_tokens,
}
use grasp.Query.Planner.{vector_search, edge_insert, graph_traversal}
use grasp.Query.Mql as Mql
use grasp.Query.Mql.Near.{WrittenNear, near_tokens, parse-vector_search}
use grasp.Query.Mql.Edges.{parse-edge_insert, parse-graph_traversal}

abbrev lengths : Parsers ℕ ℕ
lengths = record {
  f32 = λ s. some (length s);
  f64 = λ s. some (length s);
  uuid = λ s. some (length s);
}

-- RECALL memories NEAR [0.5, -1] LIMIT 12
abbrev near : Text
near = bytes "RECALL memories NEAR [0.5, -1] LIMIT 12"

abbrev written_near : WrittenNear ℕ
written_near = record {
  recall_word = (bytes "RECALL", 0);
  memories_word = (bytes "memories", 7);
  near_word = (bytes "NEAR", 16);
  opening = (bytes "[", 21);
  items =
      (([], 0), record { spelling = (bytes "0.5", 22); whole = false; value = 3 })
      ∷ ((bytes ",", 25), record { spelling = (bytes "-1", 27); whole = true; value = 2 })
      ∷ [];
  closing = (bytes "]", 29);
  end = ([], 39);
}

tokenize-near :
    tokenize near ≡ ok (near_tokens written_near (some ((bytes "LIMIT", 31), (bytes "12", 37))))
unfolding tokenize tokenize_loop scan scan_string string_body scan_uuid scan_plain scan_number
    scan_word prefix_length is_uuid_like split_dashes
tokenize-near = refl

twelve : parse_usize (bytes "12") ≡ some 12
unfolding parse_usize digits
twelve = refl

parse-vector_search_example :
    Mql.parse {D = ℕ} singles lengths near ≡ ok (vector_search (3 ∷ 2 ∷ []) 12 [])
parse-vector_search_example =
    parse-vector_search singles lengths near written_near
      (some ((bytes "LIMIT", 31), (bytes "12", 37))) 12 tokenize-near (refl, (refl, tt)) twelve

-- The weighted edge from the memory with the given UUID to one whose UUID stands in quotes.
abbrev relating : Text
relating =
    bytes "RELATE 0c000000-0000-0000-0000-000000000001 -> \"bob\" AS Supports WITH weight = 0.5"

abbrev written_relate : WrittenRelate
written_relate = record {
  relate_word = (bytes "RELATE", 0);
  source = bare (bytes "0c000000-0000-0000-0000-000000000001", 7);
  arrow_sign = (bytes "->", 44);
  target = quoted (bytes "\"bob\"", 47);
  as_word = (bytes "AS", 53);
  name = bare (bytes "Supports", 56);
  end = ([], 82);
}

abbrev written_weight : Weight ℕ
written_weight = record {
  with_word = (bytes "WITH", 65);
  name = (bytes "weight", 70);
  equals = (bytes "=", 77);
  number = record { spelling = (bytes "0.5", 79); whole = false; value = 3 };
}

tokenize-relating : tokenize relating ≡ ok (relate_tokens written_relate (some written_weight))
unfolding tokenize tokenize_loop scan scan_string string_body scan_uuid scan_plain scan_number
    scan_word prefix_length is_uuid_like split_dashes
tokenize-relating = refl

parse-edge_insert_example :
    Mql.parse {D = ℕ} singles lengths relating ≡ ok (edge_insert 36 3 supports 3)
parse-edge_insert_example =
    parse-edge_insert singles lengths relating written_relate (some written_weight) supports
      tokenize-relating refl refl refl refl

abbrev traversing : Text
traversing =
    bytes "traverse 0c000000-0000-0000-0000-000000000001 depth 12 where edge_type = \"SUPPORTS\""

abbrev written_traverse : WrittenTraverse
written_traverse = record {
  traverse_word = (bytes "traverse", 0);
  start = bare (bytes "0c000000-0000-0000-0000-000000000001", 9);
  depth_word = (bytes "depth", 46);
  depth = (bytes "12", 52);
  end = ([], 83);
}

abbrev written_filter : WrittenFilter
written_filter = record {
  where_word = (bytes "where", 55);
  field_word = (bytes "edge_type", 61);
  equals = (bytes "=", 71);
  name = quoted (bytes "\"SUPPORTS\"", 73);
}

tokenize-traversing :
    tokenize traversing ≡ ok (traverse_tokens written_traverse (some written_filter))
unfolding tokenize tokenize_loop scan scan_string string_body scan_uuid scan_plain scan_number
    scan_word prefix_length is_uuid_like split_dashes
tokenize-traversing = refl

parse-graph_traversal_example :
    Mql.parse {D = ℕ} singles lengths traversing ≡ ok (graph_traversal 36 12 (supports ∷ []))
parse-graph_traversal_example =
    parse-graph_traversal singles lengths traversing written_traverse (some written_filter)
      (some supports) tokenize-traversing refl twelve refl
