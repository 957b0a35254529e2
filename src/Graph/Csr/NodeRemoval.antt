-- ===== src/Graph/Csr/NodeRemoval.antt =====
-- `remove_node`.
use grasp.Prelude.{
  ℕ, ◌≡◌, refl, ◌∙◌, inl, inr, Bool, true, false, not, ◌&&◌, some, List, [], ◌∷◌, ◌++◌, map, arith,
  Memᴰ, ◌==◌, if◌then◌else◌, ==_refl, Bool-cases, Option-cases, retain, any, retain-append,
  retain-retain, any-append, lookup, remove, lookup-remove, contains, Memᴰ-retain, contains_iff,
  retain_congr_mem,
}
use mathlib.Core.List.Memᴰ
use grasp.Graph.Storage.{IndexedEdge, neighbors, row_of, col_of}
use grasp.Graph.Storage.Fill.{in_row}
use grasp.Graph.Csr.{
  CsrGraph, is_removed, outgoing_by_idx, incoming_by_idx, outgoing, incoming, remove_node,
  contains_node,
}
use grasp.Graph.Csr.View.{
  edges, IsLive, IsWf, outgoing-some, outgoing-none, incoming-some, incoming-none,
}
use grasp.Graph.Csr.Removal.{filtered_row, filtered_column}

-- Whether a list of marks with one end fixed has the pair (a, b).
any-from :
    (i a b : ℕ) (ns : List ℕ)
    → any (λ (p : ℕ × ℕ). p.0 == a && p.1 == b) (map (λ n. (i, n)) ns) ≡ (i == a && contains ns b)
any-from i a b [] = ground arith
any-from i a b (n ∷ ns) = ground (arith, any-from i a b ns)

any-to :
    (i a b : ℕ) (ns : List ℕ)
    → any (λ (p : ℕ × ℕ). p.0 == a && p.1 == b) (map (λ n. (n, i)) ns) ≡ (i == b && contains ns a)
any-to i a b [] = ground arith
any-to i a b (n ∷ ns) = ground (arith, any-to i a b ns)

module _ {F : Type 0} where
  -- The columns of a row contain the column of each of its edges.
  contains_col :
      (t : Bool) (e : IndexedEdge F) (base : List (IndexedEdge F))
      → Memᴰ e base
      → contains (map (col_of t) (in_row t (row_of t e) base)) (col_of t e) ≡ true
  contains_col t e base m =
      (contains_iff (map (col_of t) (in_row t (row_of t e) base)) (col_of t e)).1 (
        Memᴰ.map (col_of t)
          ((Memᴰ-retain (λ x. row_of t x == row_of t e) e base).1 (m, ==_refl (row_of t e))))

  module _ (g : CsrGraph F) (base : List (IndexedEdge F)) (wf : IsWf g base) (id idx : ℕ)
      (found : lookup id g.id_to_idx ≡ some idx) where
    abbrev away : IndexedEdge F → Bool
    away e = not (e.0 == idx) && not (e.1 == idx)

    abbrev dropped : CsrGraph F
    dropped = record g {
      removed_edges =
          (g.removed_edges ++ map (λ neighbor. (idx, neighbor)) (neighbors g.csr idx))
          ++ map (λ neighbor. (neighbor, idx)) (neighbors g.csc idx);
      delta_edges = retain away g.delta_edges;
      id_to_idx = remove id g.id_to_idx;
    }

    is_removed-dropped :
        (e : IndexedEdge F)
        → Memᴰ e base
        → not (is_removed dropped e.0 e.1) ≡ (not (is_removed g e.0 e.1) && away e)
    unfolding is_removed
    is_removed-dropped e m =
        let p : ℕ × ℕ → Bool = λ q. q.0 == e.0 && q.1 == e.1 in
        let outs : List (ℕ × ℕ) = map (λ (n : ℕ). (idx, n)) (neighbors g.csr idx) in
        let ins : List (ℕ × ℕ) = map (λ (n : ℕ). (n, idx)) (neighbors g.csc idx) in
        ground (
          arith,
          any-append p (g.removed_edges ++ outs) ins,
          any-append p g.removed_edges outs,
          any-from idx e.0 e.1 (neighbors g.csr idx),
          any-to idx e.0 e.1 (neighbors g.csc idx),
          wf.rows.cols idx,
          wf.columns.cols idx,
          contains_col false e base m,
          contains_col true e base m,
        )

    edges-dropped : edges dropped base ≡ retain away (edges g base)
    edges-dropped =
        rw
          (retain_congr_mem (λ e. not (is_removed dropped e.0 e.1))
            (λ e. not (is_removed g e.0 e.1) && away e) base is_removed-dropped)
          (simp (← retain-retain, retain-append))

    dropped-IsLive : (i : ℕ) → (i == idx) ≡ false → IsLive g i → IsLive dropped i
    dropped-IsLive i other (x, known, at) =
        (x, known, ground (arith, lookup-remove id x g.id_to_idx))

    dropped-IsWf : IsWf dropped base
    dropped-IsWf = record {
      nodes = wf.nodes;
      rows = wf.rows;
      columns = wf.columns;
      index = λ x i h. wf.index x i (ground (arith, lookup-remove id x g.id_to_idx));
      live = λ e m.
          let (old, apart) = (Memᴰ-retain away e (edges g base)).0 (rw edges-dropped at m) in
          let (s, t) = wf.live e old in
          (dropped-IsLive e.0 (ground arith) s, dropped-IsLive e.1 (ground arith) t);
    }

    dropped_row :
        (x i : ℕ)
        → lookup x g.id_to_idx ≡ some i
        → (id == x) ≡ false
        → outgoing_by_idx dropped i ≡ retain (λ p. not (p.0 == id)) (outgoing_by_idx g i)
    dropped_row x i at other =
        filtered_row g dropped base away wf dropped-IsWf refl edges-dropped i (λ p. not (p.0 == id))
          (λ e here y at_y.
            ground (arith, wf.index y e.1 at_y, wf.index id idx found, wf.index x i at))

    dropped_column :
        (x i : ℕ)
        → lookup x g.id_to_idx ≡ some i
        → (id == x) ≡ false
        → incoming_by_idx dropped i ≡ retain (λ p. not (p.0 == id)) (incoming_by_idx g i)
    dropped_column x i at other =
        filtered_column g dropped base away wf dropped-IsWf refl edges-dropped i
          (λ p. not (p.0 == id))
          (λ e here y at_y.
            ground (arith, wf.index y e.0 at_y, wf.index id idx found, wf.index x i at))

    outgoing-dropped :
        (x : ℕ)
        → outgoing dropped x
          ≡ (if id == x then [] else retain (λ p. not (p.0 == id)) (outgoing g x))
    outgoing-dropped x =
        let gone = lookup-remove id x g.id_to_idx in
        elim (Bool-cases (id == x)) [
          | inl here ↦ rw here (outgoing-none dropped x (rw here at gone))
          | inr other ↦ elim (Option-cases (lookup x g.id_to_idx)) [
            | inl absent ↦
                outgoing-none dropped x (rw (other, absent) at gone)
                ∙ rw (other, outgoing-none g x absent) refl
            | inr (i, at) ↦
                outgoing-some dropped x (rw (other, at) at gone)
                ∙ rw (other, outgoing-some g x at) (dropped_row x i at other)
          ]
        ]

    incoming-dropped :
        (x : ℕ)
        → incoming dropped x
          ≡ (if id == x then [] else retain (λ p. not (p.0 == id)) (incoming g x))
    incoming-dropped x =
        let gone = lookup-remove id x g.id_to_idx in
        elim (Bool-cases (id == x)) [
          | inl here ↦ rw here (incoming-none dropped x (rw here at gone))
          | inr other ↦ elim (Option-cases (lookup x g.id_to_idx)) [
            | inl absent ↦
                incoming-none dropped x (rw (other, absent) at gone)
                ∙ rw (other, incoming-none g x absent) refl
            | inr (i, at) ↦
                incoming-some dropped x (rw (other, at) at gone)
                ∙ rw (other, incoming-some g x at) (dropped_column x i at other)
          ]
        ]

  -- What a call that removes a registered node does to a graph.
  pub record Drops (g g' : CsrGraph F) (base : List (IndexedEdge F)) (id : ℕ) : Type 0 where
    pub wf : IsWf g' base
    pub absent : contains_node g' id ≡ false
    pub from :
        (x : ℕ)
        → outgoing g' x ≡ (if id == x then [] else retain (λ p. not (p.0 == id)) (outgoing g x))
    pub to :
        (x : ℕ)
        → incoming g' x ≡ (if id == x then [] else retain (λ p. not (p.0 == id)) (incoming g x))

  -- On a well-formed graph `remove_node` of a registered node leaves it unregistered and without
  -- edges, removes it from the neighbours of every other node, and keeps all else in order.
  pub remove_node-Drops :
      (g : CsrGraph F) (base : List (IndexedEdge F)) (id : ℕ)
      → IsWf g base
      → contains_node g id ≡ true
      → Drops g (remove_node g id) base id
  unfolding remove_node contains_node
  remove_node-Drops g base id wf known = elim (Option-cases (lookup id g.id_to_idx)) [
    | inl absent ↦ absurd (ground arith)
    | inr (idx, found) ↦
        rw (found, remove_node)
          (record {
            wf = dropped-IsWf g base wf id idx found;
            absent = ground (arith, lookup-remove id id g.id_to_idx);
            from = outgoing-dropped g base wf id idx found;
            to = incoming-dropped g base wf id idx found;
          })
  ]
