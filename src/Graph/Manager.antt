-- ===== src/Graph/Manager.antt =====
-- `GraphManager` of crates/mentedb-graph/src/manager.rs. The lock is left out: calls follow each
-- other. `save` and `load` are file I/O.
pub mod Relationships
use grasp.Prelude.{ℕ, true, false, not, Option, List, HashMap}
use grasp.Core.Float32.{Float32}
use grasp.Core.Edge.{MemoryId, MemoryEdge}
use grasp.Graph.Csr.{CsrGraph, contains_node, add_node, remove_node, add_edge}
use grasp.Graph.Csr as Csr
use grasp.Graph.Traversal.{extract_subgraph}
use grasp.Graph.Contradiction.{find_contradictions}
use grasp.Graph.Belief.{propagate_update}

-- The errors of the manager: `MenteError::MemoryNotFound`.
pub data MenteError : Type 0 where
  memory_not_found : MemoryId → MenteError

pub data MenteResult (A : Type 0) : Type 0 where
  ok : A → MenteResult A
  err : MenteError → MenteResult A

pub record GraphManager (F : Type 0) : Type 0 where
  pub graph : CsrGraph F

module _ {F : Type 0} where
  abbrev pub empty_manager : GraphManager F
  empty_manager = record { graph = Csr.new }

  abbrev pub add_memory : GraphManager F → MemoryId → GraphManager F
  add_memory m id = record { graph = (add_node m.graph id).0 }

  abbrev pub remove_memory : GraphManager F → MemoryId → GraphManager F
  remove_memory m id = record { graph = remove_node m.graph id }

  unfoldable pub add_relationship :
      GraphManager F → MemoryEdge F → GraphManager F × MenteResult Unit
  add_relationship m edge = elim (not (contains_node m.graph edge.source)) [
    | true ↦ (m, err (memory_not_found edge.source))
    | false ↦ elim (not (contains_node m.graph edge.target)) [
      | true ↦ (m, err (memory_not_found edge.target))
      | false ↦ (record { graph = add_edge m.graph edge }, ok tt)
    ]
  ]

  abbrev pub get_context_subgraph :
      GraphManager F → MemoryId → ℕ → Option (List MemoryId × List (MemoryEdge F))
  get_context_subgraph m center depth = extract_subgraph m.graph center depth

  abbrev pub find_all_contradictions : GraphManager F → MemoryId → List MemoryId
  find_all_contradictions m id = find_contradictions m.graph id

module _ {F : Type 0} (fl : Float32 F) where
  abbrev pub propagate_belief_change : GraphManager F → MemoryId → F → Option (HashMap F)
  propagate_belief_change m id new_confidence = propagate_update fl m.graph id new_confidence

  abbrev pub compact : GraphManager F → GraphManager F
  compact m = record { graph = Csr.compact fl m.graph }

  abbrev pub strengthen_edge : GraphManager F → (source target : MemoryId) → F → GraphManager F
  strengthen_edge m source target delta = record {
    graph = Csr.strengthen_edge fl m.graph source target delta;
  }
