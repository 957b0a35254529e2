-- ===== src/Graph/Belief.antt =====
-- crates/mentedb-graph/src/belief.rs. The `while` loop takes fuel, and `none` says that it ran out;
-- Belief/Affected shows that it never does.
pub mod Affected
use grasp.Prelude.{
  ℕ, zero, suc, ◌+◌, min, true, false, Option, none, some, List, [], ◌∷◌, ◌++◌, leb, HashMap,
  lookup, insert, contains,
}
use grasp.Core.Float32.{Float32, clamp}
use grasp.Core.Edge.{
  MemoryId, caused, supports, contradicts, supersedes, before, related, derived, part_of,
}
use grasp.Graph.Storage.{StoredEdge}
use grasp.Graph.Csr.{CsrGraph, get_idx, outgoing}
use grasp.Graph.Traversal.{enough}

pub record PropagationConfig (F : Type 0) : Type 0 where
  pub max_depth : ℕ
  pub caused_dampening : F
  pub supports_factor : F
  pub contradicts_factor : F
  pub supersedes_floor : F

pub record Propagation (F : Type 0) : Type 0 where
  pub confidences : HashMap F
  pub queue : List (MemoryId × F × ℕ)
  pub visited : List MemoryId

module _ {F : Type 0} (fl : Float32 F) where
  -- `PropagationConfig::default`.
  abbrev pub default_config : PropagationConfig F
  default_config = record {
    max_depth = 5;
    caused_dampening = fl.decimal 9 1;
    supports_factor = fl.decimal 5 1;
    contradicts_factor = fl.decimal 7 1;
    supersedes_floor = fl.decimal 1 1;
  }

  -- `confidences.get(&neighbor).copied().unwrap_or(1.0)`
  abbrev pub current : Option F → F
  current none = fl.one
  current (some confidence) = confidence

  -- The confidence that an edge gives its target, where its type propagates belief.
  unfoldable pub new_confidence : PropagationConfig F → F → Option F → StoredEdge F → Option F
  new_confidence config node_confidence known edge = elim edge.edge_type [
    | caused ↦ some (fl.mul (fl.mul node_confidence edge.weight) config.caused_dampening)
    | supports ↦
        let delta = fl.sub node_confidence fl.one in
        some (
          clamp fl
            (fl.add (current known) (fl.mul (fl.mul delta edge.weight) config.supports_factor))
            fl.zero fl.one)
    | contradicts ↦ some (
        clamp fl
          (fl.sub (current known)
            (fl.mul (fl.mul node_confidence edge.weight) config.contradicts_factor))
          fl.zero fl.one)
    | supersedes ↦ some (fl.min (current known) (fl.mul node_confidence config.supersedes_floor))
    | before ↦ none
    | related ↦ none
    | derived ↦ none
    | part_of ↦ none
  ]

  -- The inner loop over the edges of a node at `depth`.
  unfoldable pub spread :
      PropagationConfig F → F → ℕ → Propagation F → List (MemoryId × StoredEdge F) → Propagation F
  spread config node_confidence depth s [] = s
  spread config node_confidence depth s ((neighbor, edge) ∷ rest) =
      elim (new_confidence config node_confidence (lookup neighbor s.confidences) edge) [
        | none ↦ spread config node_confidence depth s rest
        | some new_conf ↦
            let told = record s { confidences = insert neighbor new_conf s.confidences } in
            elim (contains s.visited neighbor) [
              | true ↦ spread config node_confidence depth told rest
              | false ↦
                  spread config node_confidence depth
                    (record told {
                      visited = s.visited ++ neighbor ∷ [];
                      queue = s.queue ++ (neighbor, new_conf, depth + 1) ∷ [];
                    })
                    rest
            ]
      ]

  unfoldable pub propagation_loop :
      CsrGraph F → PropagationConfig F → ℕ → Propagation F → Option (HashMap F)
  propagation_loop g config zero s = elim s.queue [ [] ↦ some s.confidences | _ ∷ _ ↦ none ]
  propagation_loop g config (suc fuel) s = elim s.queue [
    | [] ↦ some s.confidences
    | (node, node_confidence, depth) ∷ rest ↦
        let popped = record s { queue = rest } in
        elim (leb config.max_depth depth) [
          | true ↦ propagation_loop g config fuel popped
          | false ↦
              propagation_loop g config fuel
                (spread config node_confidence depth popped (outgoing g node))
        ]
  ]

  unfoldable pub propagate_update_with_config :
      CsrGraph F → MemoryId → F → PropagationConfig F → Option (HashMap F)
  propagate_update_with_config g changed_id confidence config = elim (get_idx g changed_id) [
    | none ↦ some []
    | some _ ↦ propagation_loop g config (enough g) (record {
      confidences = insert changed_id confidence [];
      queue = (changed_id, confidence, 0) ∷ [];
      visited = changed_id ∷ [];
    })
  ]

  unfoldable pub propagate_update : CsrGraph F → MemoryId → F → Option (HashMap F)
  propagate_update g changed_id confidence =
      propagate_update_with_config g changed_id confidence default_config
