-- ===== src/Query/Cursor.antt =====
-- The state of the parser of crates/mentedb-query/src/parser.rs, the index `pos` into the tokens, and
-- its single steps. An empty slice of tokens panics in the source, and `tokenize` never gives one;
-- here it reads as `eof`.
use grasp.Prelude.{
  ℕ, ◌+◌, ◌-◌, min, Bool, true, false, Option, none, some, List, [], ltb, if◌then◌else◌, length,
  get_or,
}
use grasp.Query.Token.{Token, TokenKind, same_kind, eof}
use grasp.Query.Result.{QueryError, Outcome, ok, err, panicked, out_of_fuel, expected_kind}

-- What a parsing function returns: its result and the new index.
abbrev pub Parse : Type 0 → Type 0
Parse A = ℕ → Outcome (A × ℕ)

-- What follows a result.
abbrev pub continue_with : {A B : Type 0} → (A → Parse B) → Outcome (A × ℕ) → Outcome (B × ℕ)
continue_with k (ok (a, next)) = k a next
continue_with k (err e) = err e
continue_with k panicked = panicked
continue_with k out_of_fuel = out_of_fuel

infixl 5 ◌>>=◌ ◌>>◌
abbrev pub ◌>>=◌ : {A B : Type 0} → Parse A → (A → Parse B) → Parse B
(p >>= k) pos = continue_with k (p pos)

abbrev pub ◌>>◌ : {A B : Type 0} → Parse A → Parse B → Parse B
p >> k = p >>= λ _. k

abbrev pub return : {A : Type 0} → A → Parse A
return a pos = ok (a, pos)

abbrev pub fail : {A : Type 0} → QueryError → Parse A
fail e pos = err e

-- `map_err` and `?` on an `Option`.
abbrev pub require : {A : Type 0} → Option A → QueryError → Parse A
require none e = fail e
require (some a) e = return a

abbrev pub eof_token : Token
eof_token = record { kind = eof; lexeme = []; position = 0 }

module _ (tokens : List Token) where
  unfoldable pub peek : Parse Token
  peek pos = ok (get_or tokens (min pos (length tokens - 1)) eof_token, pos)

  unfoldable pub advance : Parse Token
  advance pos = ok (
    get_or tokens (min pos (length tokens - 1)) eof_token,
    if ltb pos (length tokens) then pos + 1 else pos,
  )

  unfoldable pub expect : TokenKind → Parse Token
  expect kind = do
    tok ← peek
    if same_kind tok.kind kind
        then advance
        else fail (expected_kind kind tok.kind tok.lexeme tok.position)

  unfoldable pub at : TokenKind → Parse Bool
  at kind = do tok ← peek; return (same_kind tok.kind kind)

  -- `if self.at(kind) { self.advance(); then } else { otherwise }`.
  abbrev pub when_at : {A : Type 0} → TokenKind → Parse A → Parse A → Parse A
  when_at kind body otherwise = do
    found ← at kind
    elim found [ true ↦ advance >> body | false ↦ otherwise ]
