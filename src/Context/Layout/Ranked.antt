-- ===== src/Context/Layout/Ranked.antt =====
-- Sorting by score, where `<` on the scores is asymmetric, as it is on floats.
use grasp.Prelude.{◌≡◌, inl, inr, true, false, List, [], ◌∷◌, Bool-cases, All}
use grasp.Core.Float32.{Float32}
use grasp.Core.Float64.{Float64}
use grasp.Context.Layout.{
  ScoredMemory, ZoneThresholds, insert_by_score, sort_by_score, group_loop, no_groups, arrange,
}

-- `x < y` and `y < x` do not both hold.
abbrev pub Asymmetric : {F : Type 0} → Float32 F → Type 0
Asymmetric {F} fl = (x y : F) → fl.lt x y ≡ true → fl.lt y x ≡ false

module _ {F D : Type 0} (fl : Float32 F) where
  -- The first of the memories does not score more than `a`.
  abbrev pub Above : ScoredMemory F D → List (ScoredMemory F D) → Type 0
  Above a [] = Unit
  Above a (b ∷ bs) = fl.lt a.score b.score ≡ false

  -- No memory scores less than the next one.
  abbrev pub Descending : List (ScoredMemory F D) → Type 0
  Descending [] = Unit
  Descending (a ∷ rest) = Above a rest × Descending rest

module _ {F D : Type 0} (fl : Float32 F) (fl64 : Float64 D) (asym : Asymmetric fl) where
  Above-insert_by_score :
      (a b : ScoredMemory F D) (bs : List (ScoredMemory F D))
      → fl.lt b.score a.score ≡ false
      → Above fl b bs
      → Above fl b (insert_by_score fl fl64 a bs)
  unfolding insert_by_score
  Above-insert_by_score a b [] h above = h
  Above-insert_by_score a b (c ∷ cs) h above = elim (Bool-cases (fl.lt a.score c.score)) [
    | inl lower ↦ rw (lower, insert_by_score) above
    | inr other ↦ rw (other, insert_by_score) h
  ]

  insert_by_score-Descending :
      (a : ScoredMemory F D) (bs : List (ScoredMemory F D))
      → Descending fl bs
      → Descending fl (insert_by_score fl fl64 a bs)
  unfolding insert_by_score
  insert_by_score-Descending a [] d = (tt, tt)
  insert_by_score-Descending a (b ∷ bs) d = elim (Bool-cases (fl.lt a.score b.score)) [
    | inl lower ↦
        rw (lower, insert_by_score)
          (
            Above-insert_by_score a b bs (asym a.score b.score lower) d.0,
            insert_by_score-Descending a bs d.1,
          )
    | inr other ↦ rw (other, insert_by_score) (other, d)
  ]

  pub sort_by_score-Descending :
      (memories : List (ScoredMemory F D)) → Descending fl (sort_by_score fl fl64 memories)
  unfolding sort_by_score
  sort_by_score-Descending [] = tt
  sort_by_score-Descending (a ∷ rest) =
      insert_by_score-Descending a (sort_by_score fl fl64 rest) (sort_by_score-Descending rest)

  pub arrange-Descending :
      (t : ZoneThresholds F) (memories : List (ScoredMemory F D))
      → All (λ b. Descending fl b.memories) (arrange fl fl64 t memories)
  unfolding arrange
  arrange-Descending t memories =
      let g = group_loop fl fl64 t (no_groups fl fl64) memories in
      (
        sort_by_score-Descending g.opening_group,
        (
          sort_by_score-Descending g.critical_group,
          (
            sort_by_score-Descending g.primary_group,
            (
              sort_by_score-Descending g.supporting_group,
              (sort_by_score-Descending g.closing_group, tt),
            ),
          ),
        ),
      )
