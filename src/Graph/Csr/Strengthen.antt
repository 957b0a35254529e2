-- ===== src/Graph/Csr/Strengthen.antt =====
-- `strengthen_edge`.
use grasp.Prelude.{
  ℕ, ◌+◌, ◌<◌, ◌≡◌, Bool, none, some, List, [], ◌∷◌, ◌++◌, arith, ◌==◌, length, find,
}
use grasp.Core.Float32.{Float32}
use grasp.Graph.Storage.{StoredEdge, IndexedEdge}
use grasp.Graph.Csr.{CsrGraph, outgoing, strengthen_edge}
use grasp.Graph.Csr.View.{IsWf}
use grasp.Graph.Csr.Edges.{Appends, appends_lem}

find-append {ℓ} :
    {A : Type ℓ} (p : A → Bool) (xs ys : List A) (a : A)
    → find p xs ≡ some a
    → find p (xs ++ ys) ≡ some a
find-append p [] ys a h = cc
find-append p (x ∷ xs) ys a h = ground (arith, find-append p xs ys a)

module _ {F : Type 0} (fl : Float32 F) (g : CsrGraph F) (base : List (IndexedEdge F))
    (source target : ℕ) (delta : F) (wf : IsWf g base)
    (room : length g.idx_to_id + 2 < 4294967296) where
  abbrev strengthened : StoredEdge F → StoredEdge F
  strengthened stored = record stored { weight = fl.min (fl.add stored.weight delta) fl.one }

  -- On a well-formed graph with room for two nodes, if `source` has an edge to `target`,
  -- `strengthen_edge` appends a second
  -- edge to `target`, with the data of the first one but the raised weight, and changes no other.
  pub strengthen_edge-Appends :
      {id : ℕ} {stored : StoredEdge F}
      → find (λ p. p.0 == target) (outgoing g source) ≡ some (id, stored)
      → Appends g
          (strengthen_edge fl g source target delta)
          base
          source
          target
          (strengthened stored)
  unfolding strengthen_edge
  strengthen_edge-Appends {stored} found =
      rw (found, strengthen_edge) (appends_lem g base source target (strengthened stored) wf room)

  -- Without an edge from `source` to `target` nothing changes.
  pub strengthen_edge_absent :
      find (λ p. p.0 == target) (outgoing g source) ≡ none
      → strengthen_edge fl g source target delta ≡ g
  unfolding strengthen_edge
  strengthen_edge_absent found = rw (found, strengthen_edge)

  -- On a well-formed graph with room for two nodes `strengthen_edge` leaves the first edge from `source` to `target`, which
  -- it read, as it was: the next call reads the old weight again.
  pub strengthen_edge-find :
      {id : ℕ} {stored : StoredEdge F}
      → find (λ p. p.0 == target) (outgoing g source) ≡ some (id, stored)
      → find (λ p. p.0 == target) (outgoing (strengthen_edge fl g source target delta) source)
        ≡ some (id, stored)
  strengthen_edge-find {id} {stored} found =
      rw ((strengthen_edge-Appends found).from source)
        (find-append (λ p. p.0 == target) (outgoing g source) _ (id, stored) found)
