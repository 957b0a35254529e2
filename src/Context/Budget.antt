-- ===== src/Context/Budget.antt =====
-- Token budgets: crates/mentedb-context/src/budget.rs. A `usize` has 64 bits.
use grasp.Prelude.{
  ℕ, zero, suc, ◌+◌, ◌-◌, min, Bool, true, false, ◌&&◌, ◌||◌, [], ◌∷◌, leb, ◌==◌, if◌then◌else◌,
  add_u64,
}
use grasp.Core.Edge.{Text}
use grasp.Core.Float32.{Float32}
use grasp.Core.Float64.{Float64}

-- The number of bytes of the white space that a text begins with, or 0: what `split_whitespace`
-- takes for white space, in UTF-8.
unfoldable pub space_length : Text → ℕ
space_length [] = 0
space_length (b ∷ rest) = if (leb 9 b && leb b 13) || b == 32 then 1 else second b rest
  where
    third : ℕ → ℕ → Text → ℕ
    third b c [] = 0
    third b c (d ∷ rest) =
        if (b == 225 && c == 154 && d == 128)
          || (b == 226 && c == 128 && (leb 128 d && leb d 138 || d == 168 || d == 169 || d == 175))
          || (b == 226 && c == 129 && d == 159)
          || (b == 227 && c == 128 && d == 128)
        then 3
        else 0

    second : ℕ → Text → ℕ
    second b [] = 0
    second b (c ∷ rest) = if b == 194 && (c == 133 || c == 160) then 2 else third b c rest

-- `text.split_whitespace().count()`: `skip` bytes belong to white space already seen, and `inside`
-- says whether a word has begun.
unfoldable pub count_words : (skip : ℕ) → (inside : Bool) → Text → ℕ
count_words skip inside [] = if inside then 1 else 0
count_words (suc skip) inside (b ∷ rest) = count_words skip inside rest
count_words zero inside (b ∷ rest) = elim (space_length (b ∷ rest)) [
  | zero ↦ count_words zero true rest
  | suc more ↦ (if inside then 1 else 0) + count_words more false rest
]

module _ {D : Type 0} (fl : Float64 D) where
  unfoldable pub estimate_tokens : Text → ℕ
  estimate_tokens text =
      fl.as_usize (fl.ceil (fl.mul (fl.of_nat (count_words 0 false text)) (fl.decimal 13 1)))

pub record TokenBudget : Type 0 where
  pub max_tokens : ℕ
  pub used_tokens : ℕ

abbrev pub new : ℕ → TokenBudget
new max_tokens = record { max_tokens = max_tokens; used_tokens = 0 }

-- `saturating_sub`
abbrev pub remaining : TokenBudget → ℕ
remaining b = b.max_tokens - b.used_tokens

abbrev pub reset : TokenBudget → TokenBudget
reset b = record b { used_tokens = 0 }

module _ {D : Type 0} (fl : Float64 D) where
  abbrev pub can_fit : TokenBudget → Text → Bool
  can_fit b text = leb (estimate_tokens fl text) (remaining b)

  -- The budget afterwards and the tokens consumed.
  abbrev pub consume : TokenBudget → Text → TokenBudget × ℕ
  consume b text =
      let actual = min (estimate_tokens fl text) (remaining b) in
      (record b { used_tokens = b.used_tokens + actual }, actual)

pub record ZoneBudgetConfig (F : Type 0) : Type 0 where
  pub system_pct : F
  pub critical_pct : F
  pub primary_pct : F
  pub supporting_pct : F
  pub reference_pct : F

pub record BudgetAllocation : Type 0 where
  pub system : ℕ
  pub critical : ℕ
  pub primary : ℕ
  pub supporting : ℕ
  pub reference : ℕ

module _ {F : Type 0} (fl : Float32 F) where
  abbrev pub default_zones : ZoneBudgetConfig F
  default_zones = record {
    system_pct = fl.decimal 10 2;
    critical_pct = fl.decimal 25 2;
    primary_pct = fl.decimal 35 2;
    supporting_pct = fl.decimal 20 2;
    reference_pct = fl.decimal 10 2;
  }

  unfoldable pub from_total_with_config : ℕ → ZoneBudgetConfig F → BudgetAllocation
  from_total_with_config total config = record {
    system = fl.as_usize (fl.mul (fl.of_nat total) config.system_pct);
    critical = fl.as_usize (fl.mul (fl.of_nat total) config.critical_pct);
    primary = fl.as_usize (fl.mul (fl.of_nat total) config.primary_pct);
    supporting = fl.as_usize (fl.mul (fl.of_nat total) config.supporting_pct);
    reference = fl.as_usize (fl.mul (fl.of_nat total) config.reference_pct);
  }

  unfoldable pub from_total : ℕ → BudgetAllocation
  from_total total = from_total_with_config total default_zones

unfoldable pub total : BudgetAllocation → ℕ
total a =
    add_u64 (add_u64 (add_u64 (add_u64 a.system a.critical) a.primary) a.supporting) a.reference
