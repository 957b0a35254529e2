-- ===== src/Context/Tests.antt =====
-- The context at concrete inputs. Floats are tenths of natural numbers here.
use grasp.Prelude.{ℕ, ◌≡◌, refl, false, ◌||◌, List, [], ◌∷◌, ◌++◌, contains}
use grasp.Core.Edge.{Text}
use grasp.Core.Samples.{singles, doubles}
use grasp.Core.Text.{bytes, decimal_text, digits_of}
use grasp.Core.Memory.{MemoryType, semantic, anti_pattern, new_memory}
use grasp.Context.Budget.{estimate_tokens, count_words, space_length}
use grasp.Context.Layout.{ScoredMemory}
use grasp.Context.Delta.{new_tracker, compute_delta, update}
use grasp.Context.Delta.Turns.{apply_delta, apply_delta-compute_delta}
use grasp.Context.Assembler.{AssemblyConfig, default_assembly}

-- "hello\u{a0}world" has two words.
two_words : count_words 0 false (bytes "hello" ++ 194 ∷ 160 ∷ bytes "world ") ≡ 2
unfolding count_words space_length
two_words = refl

three_tokens : estimate_tokens doubles (bytes "hello world") ≡ 3
unfolding estimate_tokens count_words space_length
three_tokens = refl

sixty_four : decimal_text 64 ≡ bytes "64"
unfolding digits_of
sixty_four = refl

abbrev scored : ℕ → MemoryType → Text → ℕ → ScoredMemory ℕ ℕ
scored id memory_type content score = record {
  memory = new_memory singles 0 id 1 memory_type content [];
  score = score;
}

abbrev candidates : List (ScoredMemory ℕ ℕ)
candidates =
    scored 1 semantic (bytes "one two three") 3
    ∷ scored 2 semantic (bytes "one two") 9
    ∷ scored 3 anti_pattern (bytes "one") 5
    ∷ []

abbrev small : AssemblyConfig
small = record default_assembly { token_budget = 5 }

apply_delta-compute_delta_example :
    (contains
        (apply_delta
          (1 ∷ 2 ∷ [])
          (compute_delta (2 ∷ 3 ∷ []) (update new_tracker (1 ∷ 2 ∷ [])).last_served))
        3
      ≡ contains (2 ∷ 3 ∷ []) 3)
    × (contains (1 ∷ 2 ∷ []) 3 ≡ (
        contains
          (compute_delta (2 ∷ 3 ∷ []) (update new_tracker (1 ∷ 2 ∷ [])).last_served).removed
          3
        || contains
            (compute_delta (2 ∷ 3 ∷ []) (update new_tracker (1 ∷ 2 ∷ [])).last_served).unchanged
            3))
apply_delta-compute_delta_example =
    apply_delta-compute_delta new_tracker (1 ∷ 2 ∷ []) (2 ∷ 3 ∷ []) 3
