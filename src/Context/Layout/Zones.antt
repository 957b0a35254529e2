-- ===== src/Context/Layout/Zones.antt =====
-- Arranging and sorting lose no memory and put each in the zone that it is classified for.
use grasp.Prelude.{
  ℕ, ◌+◌, ◌≡◌, refl, ap, ◌∙◌, inl, inr, List, [], ◌∷◌, ◌++◌, map, arith, Bool-cases, length, All,
}
use grasp.Core.Float32.{Float32}
use grasp.Core.Float64.{Float64}
use grasp.Context.Layout.{
  ScoredMemory, AttentionZone, opening, critical, primary, supporting, closing, all_ordered,
  ContextBlock, ZoneThresholds, Groups, classify, insert_by_score, sort_by_score, push_group,
  group_loop, no_groups, block, arrange,
}

-- The weights of a list together. With weights 1 and 0 this counts.
abbrev pub weigh {ℓ} : {A : Type ℓ} → (A → ℕ) → List A → ℕ
weigh f [] = 0
weigh f (x ∷ xs) = f x + weigh f xs

pub weigh-append {ℓ} :
    {A : Type ℓ} → (f : A → ℕ) → (xs ys : List A) → weigh f (xs ++ ys) ≡ weigh f xs + weigh f ys
weigh-append f [] ys = omega arith
weigh-append f (x ∷ xs) ys = omega (arith, weigh-append f xs ys)

pub weigh_one {ℓ} : {A : Type ℓ} → (xs : List A) → weigh (λ _. 1) xs ≡ length xs
weigh_one [] = refl
weigh_one (x ∷ xs) = omega (arith, weigh_one xs)

All-concat {ℓ ℓ'} :
    {A : Type ℓ}
    → (P : A → Type ℓ') → (xs : List A) → (y : A) → All P xs
    → P y
    → All P (xs ++ y ∷ [])
All-concat P [] y all p = (p, tt)
All-concat P (x ∷ xs) y all p = (all.0, All-concat P xs y all.1 p)

-- The memories of all blocks.
abbrev pub shown : {F D : Type 0} → List (ContextBlock F D) → List (ScoredMemory F D)
shown [] = []
shown (b ∷ bs) = b.memories ++ shown bs

module _ {F D : Type 0} (fl : Float32 F) (fl64 : Float64 D) where
  module _ (f : ScoredMemory F D → ℕ) where
    weigh-insert_by_score :
        (a : ScoredMemory F D) (bs : List (ScoredMemory F D))
        → weigh f (insert_by_score fl fl64 a bs) ≡ f a + weigh f bs
    unfolding insert_by_score
    weigh-insert_by_score a [] = refl
    weigh-insert_by_score a (b ∷ bs) = elim (Bool-cases (fl.lt a.score b.score)) [
      | inl lower ↦ rw (lower, insert_by_score) (omega (arith, weigh-insert_by_score a bs))
      | inr other ↦ rw (other, insert_by_score) refl
    ]

    pub weigh-sort_by_score :
        (memories : List (ScoredMemory F D))
        → weigh f (sort_by_score fl fl64 memories) ≡ weigh f memories
    unfolding sort_by_score
    weigh-sort_by_score [] = refl
    weigh-sort_by_score (a ∷ rest) =
        weigh-insert_by_score a (sort_by_score fl fl64 rest)
        ∙ ap (λ n. f a + n) (weigh-sort_by_score rest)

    abbrev weight : Groups F D → ℕ
    weight g =
        weigh f g.opening_group
        + weigh f g.critical_group
        + weigh f g.primary_group
        + weigh f g.supporting_group
        + weigh f g.closing_group

    weight-push_group :
        (zone : AttentionZone) (sm : ScoredMemory F D) (g : Groups F D)
        → weight (push_group fl fl64 zone sm g) ≡ weight g + f sm
    unfolding push_group
    weight-push_group opening sm g = omega (arith, weigh-append f g.opening_group (sm ∷ []))
    weight-push_group critical sm g = omega (arith, weigh-append f g.critical_group (sm ∷ []))
    weight-push_group primary sm g = omega (arith, weigh-append f g.primary_group (sm ∷ []))
    weight-push_group supporting sm g = omega (arith, weigh-append f g.supporting_group (sm ∷ []))
    weight-push_group closing sm g = omega (arith, weigh-append f g.closing_group (sm ∷ []))

    weight-group_loop :
        (t : ZoneThresholds F) (g : Groups F D) (memories : List (ScoredMemory F D))
        → weight (group_loop fl fl64 t g memories) ≡ weight g + weigh f memories
    unfolding group_loop
    weight-group_loop t g [] = omega arith
    weight-group_loop t g (sm ∷ rest) = omega (
      arith,
      weight-group_loop t (push_group fl fl64 (classify fl fl64 t sm) sm g) rest,
      weight-push_group (classify fl fl64 t sm) sm g,
    )

    weigh-block :
        (zone : AttentionZone) (group : List (ScoredMemory F D)) (blocks : List (ContextBlock F D))
        → weigh f (shown (block fl fl64 zone group ∷ blocks))
          ≡ weigh f group + weigh f (shown blocks)
    weigh-block zone group blocks =
        weigh-append f (sort_by_score fl fl64 group) (shown blocks)
        ∙ ap (λ n. n + weigh f (shown blocks)) (weigh-sort_by_score group)

    pub arrange-weigh :
        (t : ZoneThresholds F) (memories : List (ScoredMemory F D))
        → weigh f (shown (arrange fl fl64 t memories)) ≡ weigh f memories
    unfolding arrange
    arrange-weigh t memories =
        let g = group_loop fl fl64 t (no_groups fl fl64) memories in
        let b₅ = block fl fl64 closing g.closing_group ∷ [] in
        let b₄ = block fl fl64 supporting g.supporting_group ∷ b₅ in
        let b₃ = block fl fl64 primary g.primary_group ∷ b₄ in
        let b₂ = block fl fl64 critical g.critical_group ∷ b₃ in
        omega (
          arith,
          weigh-block opening g.opening_group b₂,
          weigh-block critical g.critical_group b₃,
          weigh-block primary g.primary_group b₄,
          weigh-block supporting g.supporting_group b₅,
          weigh-block closing g.closing_group [],
          weight-group_loop t (no_groups fl fl64) memories,
        )

  module _ (t : ZoneThresholds F) where
    -- The memories of a block are classified for its zone.
    abbrev pub InZone : ContextBlock F D → Type 0
    InZone b = All (λ sm. classify fl fl64 t sm ≡ b.zone) b.memories

    abbrev Classified : AttentionZone → List (ScoredMemory F D) → Type 0
    Classified zone = All (λ sm. classify fl fl64 t sm ≡ zone)

    abbrev Sorted : Groups F D → Type 0
    Sorted g =
        Classified opening g.opening_group
        × Classified critical g.critical_group
        × Classified primary g.primary_group
        × Classified supporting g.supporting_group
        × Classified closing g.closing_group

    Classified-concat :
        (zone : AttentionZone) (xs : List (ScoredMemory F D)) (sm : ScoredMemory F D)
        → Classified zone xs
        → classify fl fl64 t sm ≡ zone
        → Classified zone (xs ++ sm ∷ [])
    Classified-concat zone = All-concat (λ sm. classify fl fl64 t sm ≡ zone)

    push_group-Sorted :
        (zone : AttentionZone) (sm : ScoredMemory F D) (g : Groups F D)
        → Sorted g
        → classify fl fl64 t sm ≡ zone
        → Sorted (push_group fl fl64 zone sm g)
    unfolding push_group
    push_group-Sorted opening sm g s e =
        (Classified-concat opening g.opening_group sm s.0 e, s.1, s.2, s.3, s.4)
    push_group-Sorted critical sm g s e =
        (s.0, Classified-concat critical g.critical_group sm s.1 e, s.2, s.3, s.4)
    push_group-Sorted primary sm g s e =
        (s.0, s.1, Classified-concat primary g.primary_group sm s.2 e, s.3, s.4)
    push_group-Sorted supporting sm g s e =
        (s.0, s.1, s.2, Classified-concat supporting g.supporting_group sm s.3 e, s.4)
    push_group-Sorted closing sm g s e =
        (s.0, s.1, s.2, s.3, Classified-concat closing g.closing_group sm s.4 e)

    group_loop-Sorted :
        (g : Groups F D) (memories : List (ScoredMemory F D))
        → Sorted g
        → Sorted (group_loop fl fl64 t g memories)
    unfolding group_loop
    group_loop-Sorted g [] s = s
    group_loop-Sorted g (sm ∷ rest) s =
        group_loop-Sorted (push_group fl fl64 (classify fl fl64 t sm) sm g) rest
          (push_group-Sorted (classify fl fl64 t sm) sm g s refl)

    insert_by_score-Classified :
        (zone : AttentionZone) (a : ScoredMemory F D) (bs : List (ScoredMemory F D))
        → classify fl fl64 t a ≡ zone
        → Classified zone bs
        → Classified zone (insert_by_score fl fl64 a bs)
    unfolding insert_by_score
    insert_by_score-Classified zone a [] e all = (e, tt)
    insert_by_score-Classified zone a (b ∷ bs) e all = elim (Bool-cases (fl.lt a.score b.score)) [
      | inl lower ↦
          rw (lower, insert_by_score) (all.0, insert_by_score-Classified zone a bs e all.1)
      | inr other ↦ rw (other, insert_by_score) (e, all)
    ]

    sort_by_score-Classified :
        (zone : AttentionZone) (memories : List (ScoredMemory F D))
        → Classified zone memories
        → Classified zone (sort_by_score fl fl64 memories)
    unfolding sort_by_score
    sort_by_score-Classified zone [] all = tt
    sort_by_score-Classified zone (a ∷ rest) all =
        insert_by_score-Classified zone a (sort_by_score fl fl64 rest) all.0
          (sort_by_score-Classified zone rest all.1)

    pub arrange-InZone :
        (memories : List (ScoredMemory F D)) → All InZone (arrange fl fl64 t memories)
    unfolding arrange
    arrange-InZone memories =
        let g = group_loop fl fl64 t (no_groups fl fl64) memories in
        let s = group_loop-Sorted (no_groups fl fl64) memories (tt, tt, tt, tt, tt) in
        (
          sort_by_score-Classified opening g.opening_group s.0,
          (
            sort_by_score-Classified critical g.critical_group s.1,
            (
              sort_by_score-Classified primary g.primary_group s.2,
              (
                sort_by_score-Classified supporting g.supporting_group s.3,
                (sort_by_score-Classified closing g.closing_group s.4, tt),
              ),
            ),
          ),
        )

    pub arrange-all_ordered :
        (memories : List (ScoredMemory F D))
        → map (λ b. b.zone) (arrange fl fl64 t memories) ≡ all_ordered
    unfolding arrange
    arrange-all_ordered memories = refl
