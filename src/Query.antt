-- ===== src/Query.antt =====
-- MQL, the query language: crates/mentedb-query.
pub mod Token
pub mod Result
pub mod Lexer
pub mod Ast
pub mod Cursor
pub mod Words
pub mod Parser
pub mod Planner
pub mod Mql
mod Tests
mod MqlTests
