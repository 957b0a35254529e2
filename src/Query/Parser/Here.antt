-- ===== src/Query/Parser/Here.antt =====
-- The steps of the parser at a token that is known to stand at the index.
use grasp.Prelude.{
  ℕ, zero, suc, ◌+◌, ◌-◌, ◌<◌, min, ◌≡◌, refl, sym, ap, ◌∙◌, true, List, [], ◌∷◌, ◌++◌, arith,
  lt→ltb, length, get_or, drop, get_or-drop, length-drop,
}
use grasp.Core.Edge.{Text}
use grasp.Query.Token.{Token, TokenKind, same_kind}
use grasp.Query.Result.{ok}
use grasp.Query.Cursor.{peek, advance, expect, at, eof_token}

-- The lexeme of a token and its offset in the text.
abbrev pub Spelling : Type 0
Spelling = Text × ℕ

abbrev pub tok : TokenKind → Spelling → Token
tok kind spelling = record { kind = kind; lexeme = spelling.0; position = spelling.1 }

drop-suc : (n : ℕ) (ts : List Token) → drop (suc n) ts ≡ drop 1 (drop n ts)
drop-suc zero ts = refl
drop-suc (suc n) [] = refl
drop-suc (suc n) (t ∷ ts) = drop-suc n ts

pub drop-drop : (n m : ℕ) (ts : List Token) → drop m (drop n ts) ≡ drop (n + m) ts
drop-drop zero m ts = let e : zero + m ≡ m = omega arith in rw e refl
drop-drop (suc n) m [] = drop_nil m ∙ sym (drop_nil (suc n + m))
  where
    drop_nil : (k : ℕ) → drop {A = Token} k [] ≡ []
    drop_nil zero = refl
    drop_nil (suc k) = refl
drop-drop (suc n) m (t ∷ ts) =
    let e : suc n + m ≡ suc (n + m) = omega arith in rw e (drop-drop n m ts)

pub drop-append : (xs ys : List Token) → drop (length xs) (xs ++ ys) ≡ ys
drop-append [] ys = refl
drop-append (x ∷ xs) ys = drop-append xs ys

module _ (tokens : List Token) (pos : ℕ) (t : Token) (rest : List Token)
    (here : drop pos tokens ≡ t ∷ rest) where
  here-lt : pos < length tokens
  here-lt = omega (arith, length-drop pos tokens, ap length here)

  pub get_or-here : get_or tokens (min pos (length tokens - 1)) eof_token ≡ t
  get_or-here =
      let at_pos : min pos (length tokens - 1) ≡ pos + 0 = omega (arith, here-lt) in
      rw (at_pos, ← get_or-drop pos tokens 0 eof_token, here) refl

  pub peek-here : peek tokens pos ≡ ok (t, pos)
  unfolding peek
  peek-here = rw get_or-here refl

  pub advance-here : advance tokens pos ≡ ok (t, pos + 1)
  unfolding advance
  advance-here = rw (get_or-here, lt→ltb pos (length tokens) here-lt) refl

  pub drop-here : drop (pos + 1) tokens ≡ rest
  drop-here =
      let next : pos + 1 ≡ suc pos = omega arith in rw (next, drop-suc pos tokens, here) refl

  pub at-here : (kind : TokenKind) → at tokens kind pos ≡ ok (same_kind t.kind kind, pos)
  unfolding at
  at-here kind = rw peek-here refl

  pub expect-here : same_kind t.kind t.kind ≡ true → expect tokens t.kind pos ≡ ok (t, pos + 1)
  unfolding expect
  expect-here same = rw (peek-here, same, advance-here) refl
