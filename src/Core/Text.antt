-- ===== src/Core/Text.antt =====
-- Texts are lists of bytes; literals are written as strings.
use grasp.Prelude.{
  Bool, true, false, ◌&&◌, ◌==◌, ℕ, zero, suc, ◌+◌, ◌/◌, ◌%◌, List, [], ◌∷◌, ◌++◌, ltb,
  if◌then◌else◌,
}
use Prim.Native.Char.{code}
use Prim.Native.String.{String}
use grasp.Core.Edge.{Text}

-- The bytes of an ASCII text.
abbrev pub bytes : String → Text
bytes String.[] = []
bytes (String.◌∷◌ c s) = code c ∷ bytes s

abbrev pub same_text : Text → Text → Bool
same_text [] [] = true
same_text [] (b ∷ t) = false
same_text (a ∷ s) [] = false
same_text (a ∷ s) (b ∷ t) = a == b && same_text s t

-- How a number is printed: its decimal digits, the last one on top.
unfoldable pub digits_of : ℕ → ℕ → Text
digits_of zero n = []
digits_of (suc fuel) n =
    let rest = digits_of fuel (n / 10) in
    if ltb n 10 then (48 + n) ∷ [] else rest ++ (48 + n % 10) ∷ []

-- A number below 2 ^ 64 has at most 20 digits.
abbrev pub decimal_text : ℕ → Text
decimal_text n = digits_of 20 n

-- `parts.join("\n")`
unfoldable pub join_lines : List Text → Text
join_lines [] = []
join_lines (line ∷ []) = line
join_lines (line ∷ next ∷ lines) = line ++ 10 ∷ join_lines (next ∷ lines)
