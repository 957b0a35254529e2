-- ===== src/Query/Planner.antt =====
-- `plan` of crates/mentedb-query/src/planner.rs.
pub mod Plans
use grasp.Prelude.{
  ℕ, ◌-◌, ◌%◌, Bool, true, false, not, ◌&&◌, ◌||◌, Option, none, some, List, [], ◌∷◌, ◌==◌,
  if◌then◌else◌, length, retain, any, find,
}
use grasp.Core.Edge.{Text, MemoryId, Timestamp, EdgeType}
use grasp.Core.Float32.{Float32}
use grasp.Query.Result.{Outcome, ok, err, text_required}
use grasp.Query.Ast.{
  Int64, nonnegative, negative, Field, on_content, on_type, on_tag, on_agent, on_space, on_salience,
  on_confidence, on_created, on_accessed, Operator, op_eq, op_neq, op_gt, op_lt, op_gte, op_lte,
  op_similar_to, Value, text_value, integer_value, Filter, RecallStatement, RelateStatement,
  TraverseStatement, Statement, recall, relate, forget, consolidate, traverse,
}

pub data QueryPlan (F D : Type 0) : Type 0 where
  vector_search : (query : List F) → (k : ℕ) → (filters : List (Filter F D)) → QueryPlan F D
  tag_scan : (tags : List Text) → (filters : List (Filter F D)) → (limit : Option ℕ) → QueryPlan F D
  temporal_scan : (start end : Timestamp) → (filters : List (Filter F D)) → QueryPlan F D
  graph_traversal : (start : MemoryId) → (depth : ℕ) → (edge_types : List EdgeType) → QueryPlan F D
  point_lookup : (id : MemoryId) → QueryPlan F D
  edge_insert : (source target : MemoryId) → EdgeType → (weight : F) → QueryPlan F D
  delete : (id : MemoryId) → QueryPlan F D
  consolidation : (filters : List (Filter F D)) → QueryPlan F D

abbrev pub default_limit : ℕ
default_limit = 20

-- `n as u64` of an `i64`.
abbrev pub as_u64 : Int64 → ℕ
as_u64 (nonnegative n) = n % 18446744073709551616
as_u64 (negative n) = (18446744073709551616 - n) % 18446744073709551616

-- `unwrap_or` and `unwrap_or_default`.
abbrev pub unwrap_or {ℓ} : {A : Type ℓ} → Option A → A → A
unwrap_or none d = d
unwrap_or (some a) d = a

abbrev pub is_similar : Operator → Bool
is_similar op_similar_to = true
is_similar _ = false

abbrev pub is_tag : Field → Bool
is_tag on_tag = true
is_tag _ = false

abbrev pub is_time : Field → Bool
is_time on_created = true
is_time on_accessed = true
is_time _ = false

abbrev pub is_lower : Operator → Bool
is_lower op_gt = true
is_lower op_gte = true
is_lower _ = false

abbrev pub is_upper : Operator → Bool
is_upper op_lt = true
is_upper op_lte = true
is_upper _ = false

module _ {F D : Type 0} where
  abbrev pub similar : Filter F D → Bool
  similar f = is_similar f.op

  abbrev pub on_time : Filter F D → Bool
  on_time f = is_time f.field && (is_lower f.op || is_upper f.op)

  -- `filter_map` over the values that are texts.
  abbrev pub texts : List (Filter F D) → List Text
  texts [] = []
  texts (f ∷ fs) = elim f.value [ text_value t ↦ t ∷ texts fs | _ ↦ texts fs ]

  -- The loop over the time filters: a later bound replaces an earlier one.
  unfoldable pub time_bounds : Timestamp → Timestamp → List (Filter F D) → Timestamp × Timestamp
  time_bounds start end [] = (start, end)
  time_bounds start end (f ∷ fs) = elim f.value [
    | integer_value ts ↦
        if is_lower f.op
        then time_bounds (as_u64 ts) end fs
        else if is_upper f.op
        then time_bounds start (as_u64 ts) fs
        else time_bounds start end fs
    | _ ↦ time_bounds start end fs
  ]

  -- The scans, when there is neither a vector nor a similarity filter.
  unfoldable pub plan_scan : RecallStatement F D → QueryPlan F D
  unfolding time_bounds
  plan_scan r =
      let limit = unwrap_or r.limit default_limit in
      let tag_filters = retain (λ f. is_tag f.field) r.filters in
      let time_filters = retain on_time r.filters in
      if not (length tag_filters == 0) && not (any (λ f. not (is_tag f.field)) r.filters)
      then tag_scan (texts tag_filters) [] (some limit)
      else if not (length time_filters == 0)
      then temporal_scan (time_bounds 0 18446744073709551615 time_filters).0
          (time_bounds 0 18446744073709551615 time_filters).1
          (retain (λ f. not (on_time f)) r.filters)
      else tag_scan [] r.filters (some limit)

  unfoldable pub plan_recall : RecallStatement F D → Outcome (QueryPlan F D)
  unfolding plan_scan
  plan_recall r =
      let limit = unwrap_or r.limit default_limit in
      elim r.near [
        | some vec ↦ ok (vector_search vec limit r.filters)
        | none ↦ elim (find similar r.filters) [
          | some sim_filter ↦ elim sim_filter.value [
            | text_value _ ↦ ok (vector_search [] limit (retain (λ f. not (similar f)) r.filters))
            | _ ↦ err text_required
          ]
          | none ↦ ok (plan_scan r)
        ]
      ]

  module _ (fl : Float32 F) where
    unfoldable pub plan_relate : RelateStatement F → QueryPlan F D
    plan_relate r = edge_insert r.source r.target r.edge_type (unwrap_or r.weight fl.one)

    unfoldable pub plan_traverse : TraverseStatement → QueryPlan F D
    plan_traverse t = graph_traversal t.start t.depth (unwrap_or t.edge_filter [])

    unfoldable pub plan : Statement F D → Outcome (QueryPlan F D)
    unfolding plan_recall plan_relate plan_traverse
    plan (recall r) = plan_recall r
    plan (relate r) = ok (plan_relate r)
    plan (forget target) = ok (delete target)
    plan (consolidate filters) = ok (consolidation filters)
    plan (traverse t) = ok (plan_traverse t)
