-- ===== src/Query/Parser/Literals.antt =====
-- `str::parse` for `usize` and `i64`: an optional sign, then digits, without overflow.
use grasp.Prelude.{
  ℕ, ◌+◌, ◌-◌, ◌*◌, Bool, false, Option, none, some, [], ◌∷◌, leb, ◌==◌, if◌then◌else◌, drop,
}
use grasp.Core.Edge.{Text}
use grasp.Query.Lexer.{is_ascii_digit}
use grasp.Query.Ast.{Int64, nonnegative, negative}

-- The number of a text of digits.
unfoldable pub digits : ℕ → Text → Option ℕ
digits n [] = some n
digits n (c ∷ rest) = if is_ascii_digit c then digits (n * 10 + (c - 48)) rest else none

abbrev pub digits_some : Text → Option ℕ
unfolding digits
digits_some [] = none
digits_some (c ∷ rest) = digits 0 (c ∷ rest)

abbrev pub up_to : ℕ → Option ℕ → Option ℕ
up_to limit none = none
up_to limit (some n) = if leb n limit then some n else none

abbrev pub without_plus : Text → Text
without_plus [] = []
without_plus (c ∷ rest) = if c == b'+' then rest else c ∷ rest

unfoldable pub parse_usize : Text → Option ℕ
parse_usize s = up_to 18446744073709551615 (digits_some (without_plus s))

abbrev pub starts_minus : Text → Bool
starts_minus [] = false
starts_minus (c ∷ rest) = c == b'-'

abbrev pub signed : (ℕ → Int64) → Option ℕ → Option Int64
signed sign none = none
signed sign (some n) = some (sign n)

unfoldable pub parse_i64 : Text → Option Int64
parse_i64 s =
    if starts_minus s
    then signed negative (up_to 9223372036854775808 (digits_some (drop 1 s)))
    else signed nonnegative (up_to 9223372036854775807 (digits_some (without_plus s)))
