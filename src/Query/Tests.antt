-- ===== src/Query/Tests.antt =====
-- Small queries, and the theorems about the query front end at them.
use grasp.Prelude.{ℕ, ◌≡◌, refl, ◌≢◌, ◌⊎◌, true, none, some, List, [], ◌∷◌, Memᴰ}
use grasp.Query.Token.{Token, bytes, kw_limit, integer_lit, eof}
use grasp.Query.Result.{ok, panicked, out_of_fuel}
use grasp.Query.Lexer.{
  tokenize, tokenize_loop, scan, scan_string, string_body, scan_uuid, scan_plain, scan_number,
  scan_word, prefix_length, is_uuid_like, split_dashes,
}
use grasp.Query.Lexer.Tiles.{Tiles, tokenize-Tiles, tokenize_ends}
use grasp.Query.Ast.{on_tag, on_created, op_eq, op_gt, text_value, Filter, RecallStatement}
use grasp.Query.Planner.{temporal_scan, plan_recall, plan_scan, time_bounds, is_tag}
use grasp.Query.Planner.Plans.{filters_of, tags_of, Covered, plan_recall-filters}

abbrev limit_5 : List Token
limit_5 =
    record { kind = kw_limit; lexeme = bytes "LIMIT"; position = 0 }
    ∷ record { kind = integer_lit; lexeme = bytes "5"; position = 6 }
    ∷ record { kind = eof; lexeme = []; position = 7 }
    ∷ []

tokenize-limit : tokenize (bytes "LIMIT 5") ≡ ok limit_5
unfolding tokenize tokenize_loop scan scan_string string_body scan_uuid scan_plain scan_number
    scan_word prefix_length is_uuid_like split_dashes
tokenize-limit = refl

-- A letter before a character of two bytes: the slice of two bytes ends inside it.
tokenize_panics : tokenize (97 ∷ 195 ∷ 169 ∷ []) ≡ panicked
unfolding tokenize tokenize_loop scan scan_string string_body scan_uuid scan_plain scan_number
    scan_word prefix_length is_uuid_like split_dashes
tokenize_panics = refl

tokenize-Tiles_example : Tiles 0 (bytes "LIMIT 5") limit_5
tokenize-Tiles_example = tokenize-Tiles (bytes "LIMIT 5") limit_5 tokenize-limit

tokenize_ends_example : tokenize (bytes "LIMIT 5") ≢ out_of_fuel
tokenize_ends_example = tokenize_ends (bytes "LIMIT 5")

abbrev tag_filter : Filter ℕ ℕ
tag_filter = record { field = on_tag; op = op_eq; value = text_value (bytes "rust") }

abbrev since : Filter ℕ ℕ
since = record { field = on_created; op = op_gt; value = text_value (bytes "2024-01-01") }

abbrev tagged : RecallStatement ℕ ℕ
tagged = record { filters = tag_filter ∷ []; near = none; limit = some 5; order_by = none }

plan_recall-filters_example :
    (plan_recall tagged ≡ ok (plan_scan tagged))
    × (Memᴰ tag_filter (filters_of (plan_scan tagged))
        ⊎ ((is_tag tag_filter.field ≡ true)
            × Covered tag_filter.value (tags_of (plan_scan tagged))))
plan_recall-filters_example = plan_recall-filters tagged tag_filter refl refl (Memᴰ.head refl) refl

-- A time filter with a text is neither applied nor a bound, and the limit is gone.
plan_recall-since :
    plan_recall {D = ℕ}
      (record { filters = since ∷ []; near = none; limit = some 5; order_by = none })
    ≡ ok (temporal_scan 0 18446744073709551615 [])
unfolding plan_recall plan_scan time_bounds
plan_recall-since = refl
