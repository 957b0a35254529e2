-- ===== src/Context/Assembler/Filling.antt =====
-- The greedy loop of the assembler: which memories it takes into the budget.
use grasp.Prelude.{
  true, subst, ℕ, ◌+◌, ◌≤◌, ◌<◌, ◌≡◌, refl, inl, inr, List, [], ◌∷◌, arith, Bool-cases, All,
}
use grasp.Core.Float32.{Float32}
use grasp.Core.Float64.{Float64}
use grasp.Context.Budget.{TokenBudget, estimate_tokens, can_fit, consume}
use grasp.Context.Budget as Budget
use grasp.Context.Layout.{ScoredMemory}
use grasp.Context.Layout.Zones.{weigh}
use grasp.Context.Assembler.{fill}

module _ {F D : Type 0} (fl : Float32 F) (fl64 : Float64 D) where
  abbrev pub tokens_of : ScoredMemory F D → ℕ
  tokens_of sm = estimate_tokens fl64 sm.memory.content

  -- `Greedy max used ranked included excluded`: of the ranked memories, taken one by one, each is
  -- included if its estimate and the tokens used so far are within `max`, and else excluded.
  pub data Greedy (max : ℕ)
      : (used : ℕ) → (ranked included excluded : List (ScoredMemory F D)) → Type 0 where
    done : {used : ℕ} → Greedy max used [] [] []
    takes :
        {used : ℕ} {rest included excluded : List (ScoredMemory F D)} (sm : ScoredMemory F D)
        → used + tokens_of sm ≤ max
        → Greedy max (used + tokens_of sm) rest included excluded
        → Greedy max used (sm ∷ rest) (sm ∷ included) excluded
    skips :
        {used : ℕ} {rest included excluded : List (ScoredMemory F D)} (sm : ScoredMemory F D)
        → max < used + tokens_of sm
        → Greedy max used rest included excluded
        → Greedy max used (sm ∷ rest) included (sm ∷ excluded)

  -- What the greedy loop does: the budget and the memories afterwards.
  pub record Filled (budget : TokenBudget) (memories : List (ScoredMemory F D))
      (budget' : TokenBudget) (included : List (ScoredMemory F D)) : Type 0 where
    pub excluded : List (ScoredMemory F D)
    pub greedy :
        budget.used_tokens ≤ budget.max_tokens
        → Greedy budget.max_tokens budget.used_tokens memories included excluded
    pub same_max : budget'.max_tokens ≡ budget.max_tokens
    pub within : budget.used_tokens ≤ budget.max_tokens → budget'.used_tokens ≤ budget.max_tokens
    pub charged : budget'.used_tokens ≡ budget.used_tokens + weigh tokens_of included
    pub all_there :
        (f : ScoredMemory F D → ℕ) → weigh f memories ≡ weigh f included + weigh f excluded
    pub no_room : All (λ sm. budget.max_tokens < budget'.used_tokens + tokens_of sm) excluded

  room_for :
      (budget : TokenBudget) (sm : ScoredMemory F D)
      → budget.used_tokens ≤ budget.max_tokens
      → can_fit fl64 budget sm.memory.content ≡ true
      → (budget.used_tokens + tokens_of sm ≤ budget.max_tokens)
        × ((consume fl64 budget sm.memory.content).0.used_tokens
            ≡ budget.used_tokens + tokens_of sm)
  room_for budget sm h fits =
      let small : tokens_of sm ≤ Budget.remaining budget = ground arith in
      (omega (arith, small), omega (arith, small))

  pub fill-Filled :
      (budget : TokenBudget) (memories : List (ScoredMemory F D))
      → Filled budget memories (fill fl fl64 budget memories).0 (fill fl fl64 budget memories).1
  unfolding fill
  fill-Filled budget [] = record {
    excluded = [];
    greedy = λ h. done;
    same_max = refl;
    within = λ h. h;
    charged = omega arith;
    all_there = λ f. refl;
    no_room = tt;
  }
  fill-Filled budget (sm ∷ rest) = elim (Bool-cases (can_fit fl64 budget sm.memory.content)) [
    | inl fits ↦
        let r = fill-Filled (consume fl64 budget sm.memory.content).0 rest in
        rw (fits, fill)
          (record {
            excluded = r.excluded;
            greedy = λ h.
                let (room, used) = room_for budget sm h fits in
                takes sm room (
                  subst
                    (λ used.
                      Greedy budget.max_tokens used rest
                        (fill fl fl64 (consume fl64 budget sm.memory.content).0 rest).1 r.excluded)
                    used (r.greedy (omega (arith, room, used))));
            same_max = r.same_max;
            within = λ h. r.within (omega arith);
            charged = ground (arith, r.charged);
            all_there = λ f. omega (arith, r.all_there f);
            no_room = r.no_room;
          })
    | inr full ↦
        let r = fill-Filled budget rest in
        rw (full, fill)
          (record {
            excluded = sm ∷ r.excluded;
            greedy = λ h. skips sm (ground arith) (r.greedy h);
            same_max = r.same_max;
            within = r.within;
            charged = r.charged;
            all_there = λ f. omega (arith, r.all_there f);
            no_room = (ground (arith, r.charged), r.no_room);
          })
  ]
