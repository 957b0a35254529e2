-- ===== src/Lib.antt =====
-- MenteDB, the memory database for agents: its knowledge graph, the core services beside it,
-- the embedding cache, the context assembler, the query front end and the rate limiter.
--
-- The parts and their files:
-- - Prelude: lists, maps with numeric keys, Boolean tests and wrap-around, for all the others.
-- - Core/Edge, Core/Memory and Core/Text: edges and memories of edge.rs and memory.rs in
--   crates/mentedb-core/src, and texts. Core/Float32 and Core/Float64: the floats as interfaces
--   without laws.
-- - Graph/Storage: the compressed rows of crates/mentedb-graph/src/csr.rs (`CompressedStorage`,
--   `build_compressed`). Storage/Fill, Storage/Offsets and Storage/Build are
--   about the filling by write cursors.
-- - Graph/Csr: `CsrGraph` of the same file, with its delta log and pending removals. Csr/View says
--   what a graph stands for and when it is well formed, one file follows for each operation, and
--   Csr/Reachable puts them together.
-- - Graph/Traversal: `bfs`, `bfs_filtered` and `extract_subgraph` of
--   crates/mentedb-graph/src/traversal.rs. The queue loop takes fuel, one round more than there are
--   nodes, and Traversal/Fuel shows that this is enough.
-- - Graph/Dfs and Graph/ShortestPath: the other searches of that file. The stack loop takes a round of
--   fuel for each edge, the queue loop one more than there are nodes, and the reconstruction of a path
--   one for each visited node; Dfs/Correct and ShortestPath/Correct show that this is enough.
-- - Graph/Contradiction and Graph/Belief: `find_contradictions`, `find_superseded` and the propagation
--   of belief, of contradiction.rs and belief.rs beside it, with the fuel of `bfs`. They are compared
--   with `bfs_filtered`.
-- - Graph/Cycles: `detect_cycles` of contradiction.rs. The stack loop takes one round more than there
--   are nodes, and Cycles/Sound shows that this is enough.
-- - Graph/Manager: `GraphManager` of manager.rs, the interface to all of these.
-- - Graph/Csr/Refines: the graph as a plain adjacency list under the manager's calls.
-- - Core/Limits, Core/Space and Core/Versions: the resource tracker, the access lists and the
--   version store of limits.rs, space.rs and mvcc.rs in crates/mentedb-core/src.
-- - Embedding/Cache: the LRU cache of crates/mentedb-embedding/src/cache.rs.
-- - Context/Budget, Context/Layout, Context/Delta and Context/Assembler: the files of the same names in
--   crates/mentedb-context/src. The sort by score is a stable insertion sort.
-- - Core/Conflict: conflict.rs in crates/mentedb-core/src. Core/Samples has floats for the tests.
-- - Core/Event: the event bus of event.rs beside it. A callback is a function of the event and of the
--   world outside the bus. Core/Agent: the agent registry of agent.rs.
-- - Consolidation/Forget and Consolidation/Archival: forget.rs and archival.rs in
--   crates/mentedb-consolidation/src.
-- - Server/RateLimit: the token buckets of crates/mentedb-server/src/rate_limit.rs.
-- - Query/Token and Query/Lexer: `tokenize` of crates/mentedb-query/src/lexer.rs. The main loop takes
--   a round of fuel for each byte, and Lexer/Tiles shows that this is enough.
-- - Query/Ast, Query/Parser and Query/Planner: the statements, the recursive descent parser and the
--   plans of ast.rs, parser.rs and planner.rs in the same crate. Query/Cursor has the parser's single
--   steps and Query/Words its tables. The loops of the parser take a round of fuel for each token;
--   Parser/Vectors and Parser/Reads are about what is read back.
-- - Query/Mql: `Mql::parse` of mql.rs beside them, from the text of a query to its plan. Mql/Near and
--   Mql/Edges are about searches by a vector and about statements on edges.
--
-- The traversals read the graph through `outgoing`, the graph reads the storages through
-- `neighbors` and `edge_data_for`, and `compact` rebuilds both storages by `build_compressed`. The
-- parser reads what the lexer returns, and the planner what the parser returns; `Mql::parse` chains
-- them.
--
-- The assembler calls the budget, the layout and the delta tracker.
--
-- The parsers of floats and of UUIDs, and the text of a UUID, are parameters.
--
-- Numbers are natural numbers with the wrap-around of the source's types written out; `usize` has
-- 64 bits. A map is an association list, so its iteration order is one of those the source may
-- have. Identifiers are numbers, texts lists of bytes. The clock and fresh identifiers are
-- arguments. Locks and atomics are left out: operations follow each other.
--
-- Not modelled: file and network I/O, serialisation, SQL, calls of language models, and the
-- floating-point heuristics of the other crates.
pub mod Prelude
pub mod Core
pub mod Graph
pub mod Embedding
pub mod Context
pub mod Query
pub mod Consolidation
pub mod Server
