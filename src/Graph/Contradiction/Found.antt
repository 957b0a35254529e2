-- ===== src/Graph/Contradiction/Found.antt =====
-- Which nodes `find_contradictions` finds.
use grasp.Prelude.{
  with_element, contains-with_element, ℕ, ◌≡◌, refl, sym, ap, ◌∙◌, inl, inr, Bool, true, false, not,
  ◌&&◌, ◌||◌, List, [], ◌∷◌, ◌++◌, arith, ◌==◌, ==_iff, Bool-cases, contains, contains-append,
}
use grasp.Prelude.{any}
use mathlib.Core.Path.{fun_ext}
use grasp.Core.Edge.{EdgeType, MemoryId, same_type, contradicts, supports}
use grasp.Graph.Storage.{StoredEdge}
use grasp.Graph.Csr.{CsrGraph, outgoing, incoming}
use grasp.Graph.Contradiction.{Contradictions, direct, add_targets, through, find_contradictions}

absorbed : (a b x : Bool) → (a || b && true || b && x) ≡ (a || b && true)
absorbed a b x = ground arith

silenced : (a b x : Bool) → (a || b && false || b && x) ≡ (a || b && x)
silenced a b x = ground arith

module _ {F : Type 0} where
  -- An edge of the list has the type and leads to the node.
  abbrev pub leads : EdgeType → List (MemoryId × StoredEdge F) → MemoryId → Bool
  leads edge_type xs c = any (λ p. same_type p.1.edge_type edge_type && p.0 == c) xs

  contains-add_targets :
      (allowed : MemoryId → Bool) (found : List ℕ) (xs : List (ℕ × StoredEdge F)) (c : ℕ)
      → contains (add_targets allowed found xs) c
        ≡ (contains found c || allowed c && leads contradicts xs c)
  unfolding add_targets
  contains-add_targets allowed found [] c = ground arith
  contains-add_targets allowed found ((t, e) ∷ xs) c =
      let rest = contains-add_targets allowed found xs c in
      let more = contains-add_targets allowed (with_element found t) xs c in
      elim (Bool-cases (t == c)) [
        | inl same ↦
            let eq = ap allowed ((==_iff t c).0 same) in
            ground (arith, rest, more, contains-with_element found t c)
        | inr other ↦ ground (arith, rest, more, contains-with_element found t c)
      ]

  contains-direct :
      (s : Contradictions) (xs : List (ℕ × StoredEdge F)) (c : ℕ)
      → (contains (direct s xs).contradictions c
          ≡ (contains s.contradictions c || leads contradicts xs c))
        × (contains (direct s xs).visited c ≡ (contains s.visited c || leads contradicts xs c))
  unfolding direct
  contains-direct s [] c = (ground arith, ground arith)
  contains-direct s ((t, e) ∷ xs) c = elim (Bool-cases (same_type e.edge_type contradicts)) [
    | inl kind ↦
        let s' : Contradictions = record {
          contradictions = with_element s.contradictions t;
          visited = with_element s.visited t;
        } in
        let (found, visited) = contains-direct s' xs c in
        rw (kind, direct)
          (
            ground (arith, contains-with_element s.contradictions t c),
            ground (arith, contains-with_element s.visited t c),
          )
    | inr other ↦ rw (other, direct) (contains-direct s xs c)
  ]

  any-congr :
      (p q : ℕ × StoredEdge F → Bool) (xs : List (ℕ × StoredEdge F))
      → ((x : ℕ × StoredEdge F) → p x ≡ q x)
      → any p xs ≡ any q xs
  any-congr p q [] same = refl
  any-congr p q (x ∷ xs) same = rw (same x, any-congr p q xs same) refl

  -- A node of the type, that is not visited, and that contradicts `c`.
  abbrev pub fresh_leads :
      CsrGraph F → EdgeType → (MemoryId → Bool) → List (MemoryId × StoredEdge F) → MemoryId → Bool
  fresh_leads g edge_type visited xs c =
      any
        (λ p.
          same_type p.1.edge_type edge_type
          && (not (visited p.0) && leads contradicts (outgoing g p.0) c))
        xs

  module _ (g : CsrGraph F) (allowed : MemoryId → Bool) (c : ℕ) where
    visited-through :
        (s : Contradictions) (xs : List (ℕ × StoredEdge F)) (v : ℕ)
        → contains (through g allowed s xs).visited v
          ≡ (contains s.visited v || leads supports xs v)
    unfolding through
    visited-through s [] v = ground arith
    visited-through s ((t, e) ∷ xs) v =
        let s' : Contradictions = record {
          contradictions = add_targets allowed s.contradictions (outgoing g t);
          visited = s.visited ++ t ∷ [];
        } in
        elim (Bool-cases (same_type e.edge_type supports)) [
          | inl kind ↦ elim (Bool-cases (contains s.visited t)) [
            | inl old ↦
                rw (kind, old, through)
                  (elim (Bool-cases (t == v)) [
                    | inl same ↦
                        let e = ap (contains s.visited) ((==_iff t v).0 same) in
                        ground (arith, visited-through s xs v)
                    | inr other ↦ ground (arith, visited-through s xs v)
                  ])
            | inr fresh ↦
                rw (kind, fresh, through)
                  (ground (arith, visited-through s' xs v, contains-append s.visited (t ∷ []) v))
          ]
          | inr other ↦ rw (other, through) (visited-through s xs v)
        ]

    -- What a node contributes that is visited already need not be looked for again.
    fresh_leads-concat :
        (visited : List ℕ) (t : ℕ) (xs : List (ℕ × StoredEdge F))
        → leads contradicts (outgoing g t) c ≡ false
        → fresh_leads g supports (contains (visited ++ t ∷ [])) xs c
          ≡ fresh_leads g supports (contains visited) xs c
    fresh_leads-concat visited t xs silent =
        any-congr
          (λ p.
            same_type p.1.edge_type supports
            && (not (contains (visited ++ t ∷ []) p.0) && leads contradicts (outgoing g p.0) c))
          (λ p.
            same_type p.1.edge_type supports
            && (not (contains visited p.0) && leads contradicts (outgoing g p.0) c))
          xs
          (λ p. elim (Bool-cases (t == p.0)) [
            | inl same ↦
                let e = ap (λ x. leads contradicts (outgoing g x) c) ((==_iff t p.0).0 same) in
                let silent' : leads contradicts (outgoing g p.0) c ≡ false = sym e ∙ silent in
                rw silent' (ground arith)
            | inr other ↦ rw (contains-append visited (t ∷ []) p.0, other) (ground arith)
          ])

    contains-through :
        (s : Contradictions) (xs : List (ℕ × StoredEdge F))
        → contains (through g allowed s xs).contradictions c ≡ (
            contains s.contradictions c
            || allowed c && fresh_leads g supports (contains s.visited) xs c)
    unfolding through
    contains-through s [] = ground arith
    contains-through s ((t, e) ∷ xs) =
        let s' : Contradictions = record {
          contradictions = add_targets allowed s.contradictions (outgoing g t);
          visited = s.visited ++ t ∷ [];
        } in
        elim (Bool-cases (same_type e.edge_type supports)) [
          | inl kind ↦ elim (Bool-cases (contains s.visited t)) [
            | inl old ↦ rw (kind, old, through) (contains-through s xs)
            | inr fresh ↦
                rw (kind, fresh, through)
                  (contains-through s' xs
                    ∙ rw (contains-add_targets allowed s.contradictions (outgoing g t) c)
                        (elim (Bool-cases (leads contradicts (outgoing g t) c)) [
                          | inl speaks ↦
                              rw speaks (absorbed (contains s.contradictions c) (allowed c) _)
                          | inr silent ↦
                              rw (fresh_leads-concat s.visited t xs silent, silent)
                                (silenced (contains s.contradictions c) (allowed c) _)
                        ]))
          ]
          | inr other ↦ rw (other, through) (contains-through s xs)
        ]

  -- Two nodes contradict each other by an edge either way.
  abbrev pub contradicting : CsrGraph F → MemoryId → MemoryId → Bool
  contradicting g id c = leads contradicts (outgoing g id) c || leads contradicts (incoming g id) c

  -- What the search passes over: `id`, the nodes that contradict it, and for the supported nodes
  -- those that support `id` as well.
  abbrev pub passed_over : CsrGraph F → MemoryId → MemoryId → Bool
  passed_over g id v = id == v || contradicting g id v

  abbrev pub passed_over_later : CsrGraph F → MemoryId → MemoryId → Bool
  passed_over_later g id v = passed_over g id v || leads supports (incoming g id) v

  -- `find_contradictions` finds exactly the nodes that contradict `id` by an edge either way, those
  -- other than `id` that a supporter of `id` contradicts, and those that a node contradicts that
  -- `id` supports; a supporter or supported node that is `id`, or contradicts it, does not count,
  -- nor among the supported does a supporter. Longer chains of supports are not followed.
  pub find_contradictions-Finds :
      (g : CsrGraph F) (id c : MemoryId)
      → contains (find_contradictions g id) c ≡ (
          contradicting g id c
          || not (c == id) && fresh_leads g supports (passed_over g id) (incoming g id) c
          || fresh_leads g supports (passed_over_later g id) (outgoing g id) c)
  unfolding find_contradictions
  find_contradictions-Finds g id c =
      let s₀ : Contradictions = record { contradictions = []; visited = id ∷ [] } in
      let s₁ = direct s₀ (outgoing g id) in
      let s₂ = direct s₁ (incoming g id) in
      let other = λ (target : ℕ). not (target == id) in
      let s₃ = through g other s₂ (incoming g id) in
      let seen₂ : contains s₂.visited ≡ passed_over g id = fun_ext (λ v.
        (contains-direct s₁ (incoming g id) v).1
        ∙ rw ((contains-direct s₀ (outgoing g id) v).1) (ground arith)) in
      let seen₃ : contains s₃.visited ≡ passed_over_later g id =
        fun_ext (λ v. visited-through g other c s₂ (incoming g id) v ∙ rw seen₂ refl) in
      let found₂ : contains s₂.contradictions c ≡ contradicting g id c =
        (contains-direct s₁ (incoming g id) c).0
        ∙ rw ((contains-direct s₀ (outgoing g id) c).0) refl in
      contains-through g (λ target. true) c s₃ (outgoing g id)
      ∙ rw (seen₃, contains-through g other c s₂ (incoming g id), seen₂, found₂) refl
