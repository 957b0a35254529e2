-- ===== src/Query/Mql.antt =====
-- `Mql::parse` of crates/mentedb-query/src/mql.rs: from the text of a query to its plan.
pub mod Edges
pub mod Near
use grasp.Core.Edge.{Text}
use grasp.Core.Float32.{Float32}
use grasp.Query.Result.{Outcome, ok, err, panicked, out_of_fuel}
use grasp.Query.Lexer.{tokenize}
use grasp.Query.Parser.{Parsers}
use grasp.Query.Parser as Parser
use grasp.Query.Planner.{QueryPlan, plan}

-- The operator `?`.
abbrev pub and_then : {A B : Type 0} → Outcome A → (A → Outcome B) → Outcome B
and_then (ok a) k = k a
and_then (err e) k = err e
and_then panicked k = panicked
and_then out_of_fuel k = out_of_fuel

unfoldable pub parse : {F D : Type 0} → Float32 F → Parsers F D → Text → Outcome (QueryPlan F D)
parse fl parsers input =
    and_then (tokenize input)
      λ tokens. and_then (Parser.parse parsers tokens) λ statement. plan fl statement
