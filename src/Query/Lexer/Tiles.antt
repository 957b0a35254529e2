-- ===== src/Query/Lexer/Tiles.antt =====
-- The tokens of a text are its pieces in order, with nothing but white space between them.
use grasp.Prelude.{
  ℕ, zero, suc, ◌+◌, ◌≤◌, ◌<◌, ◌≡◌, refl, ap, subst, ◌≢◌, ◌⊎◌, inl, inr, Bool, true, ◌&&◌, ◌||◌,
  some, List, [], ◌∷◌, ◌++◌, arith, ◌==◌, if◌then◌else◌, Bool-cases, Option-cases, length, take,
  drop, length-take, length-drop,
}
use grasp.Core.Edge.{Text}
use grasp.Query.Token.{TokenKind, Token, eof}
use grasp.Query.Result.{Outcome, ok, err, panicked, out_of_fuel}
use grasp.Query.Lexer.{
  is_ascii_whitespace, is_ascii_digit, is_ascii_alphanumeric, is_ascii_hexdigit, is_word,
  starts_with_digit, starts_fraction, prefix_length, Scanned, token, unterminated, unexpected,
  not_a_boundary, scan_string, two_char, two_boundary, single_char, is_uuid_like, scan_number,
  scan_word, scan_plain, scan_uuid, scan, tokenize_loop, tokenize, emit,
}

-- `Tiles pos text tokens`: the tokens cover the text that starts at `pos`, each with its position
-- and its lexeme, which is not empty, and end with `eof`.
pub data Tiles : ℕ → Text → List Token → Type 0 where
  finish : {pos : ℕ} → Tiles pos [] (record { kind = eof; lexeme = []; position = pos } ∷ [])
  blank :
      {pos c : ℕ} {rest : Text} {ts : List Token}
      → is_ascii_whitespace c ≡ true
      → Tiles (pos + 1) rest ts
      → Tiles pos (c ∷ rest) ts
  piece :
      {pos : ℕ} {lexeme rest : Text} {ts : List Token} (kind : TokenKind)
      → 0 < length lexeme
      → Tiles (pos + length lexeme) rest ts
      → Tiles pos (lexeme ++ rest) (record { kind = kind; lexeme = lexeme; position = pos } ∷ ts)

prefix_length-le : (p : ℕ → Bool) (cs : Text) → prefix_length p cs ≤ length cs
unfolding prefix_length
prefix_length-le p [] = omega arith
prefix_length-le p (c ∷ rest) = ground (arith, prefix_length-le p rest)

prefix_length-pos :
    (p : ℕ → Bool) (c : ℕ) (rest : Text) → p c ≡ true → 0 < prefix_length p (c ∷ rest)
unfolding prefix_length
prefix_length-pos p c rest h = rw h (omega arith)

-- A scanned token is not empty and ends within the text.
abbrev Fits : ℕ → Scanned → Type 0
Fits len (token kind n) = (0 < n) × (n ≤ len)
Fits len unterminated = Unit
Fits len unexpected = Unit
Fits len not_a_boundary = Unit

scan_string-Fits : (rest : Text) → Fits (suc (length rest)) (scan_string rest)
unfolding scan_string
scan_string-Fits rest = ground arith

scan_word-Fits : (c : ℕ) (rest : Text) → Fits (suc (length rest)) (scan_word c rest)
unfolding scan_word
scan_word-Fits c rest = elim (Bool-cases (is_ascii_alphanumeric c || c == b'_')) [
  | inl word ↦
      rw word (prefix_length-pos is_word c rest (ground arith), prefix_length-le is_word (c ∷ rest))
  | inr other ↦ rw other tt
]

fraction-le :
    (behind : Text)
    → starts_fraction behind ≡ true
    → 1 + prefix_length is_ascii_digit (drop 1 behind) ≤ length behind
fraction-le [] h = cc
fraction-le (c ∷ rest) h = omega (arith, prefix_length-le is_ascii_digit rest)

-- The sign and the digits of the integer part.
abbrev digits : ℕ → Text → ℕ
digits c rest =
    let sign = if c == b'-' then 1 else 0 in
    sign + prefix_length is_ascii_digit (drop sign (c ∷ rest))

digits-Fits :
    (c : ℕ) (rest : Text)
    → (is_ascii_digit c || c == b'-' && starts_with_digit rest) ≡ true
    → (0 < digits c rest) × (digits c rest ≤ suc (length rest))
digits-Fits c rest h = elim (Bool-cases (c == b'-')) [
  | inl minus ↦ rw minus (omega arith, omega (arith, prefix_length-le is_ascii_digit rest))
  | inr other ↦ rw other (
    omega (arith, prefix_length-pos is_ascii_digit c rest (ground arith)),
    omega (arith, prefix_length-le is_ascii_digit (c ∷ rest)),
  )
]

scan_number-Fits :
    (c : ℕ) (rest : Text)
    → (is_ascii_digit c || c == b'-' && starts_with_digit rest) ≡ true
    → Fits (suc (length rest)) (scan_number c rest)
unfolding scan_number
scan_number-Fits c rest h =
    let (some_digit, within) = digits-Fits c rest h in
    let n = digits c rest in
    let behind = drop n (c ∷ rest) in
    elim (Bool-cases (starts_fraction behind)) [
      | inl float ↦ rw float (
        omega (arith, some_digit),
        omega (arith, fraction-le behind float, length-drop n (c ∷ rest), within),
      )
      | inr integer ↦ rw integer (some_digit, within)
    ]

scan_plain-Fits : (c : ℕ) (rest : Text) → Fits (suc (length rest)) (scan_plain c rest)
unfolding scan_plain
scan_plain-Fits c rest =
    elim (Bool-cases (is_ascii_digit c || c == b'-' && starts_with_digit rest)) [
      | inl number ↦ rw number (scan_number-Fits c rest number)
      | inr other ↦ rw other (scan_word-Fits c rest)
    ]

scan_uuid-Fits : (c : ℕ) (rest : Text) → Fits (suc (length rest)) (scan_uuid c rest)
unfolding scan_uuid
scan_uuid-Fits c rest =
    let n = prefix_length is_word (c ∷ rest) in
    elim (Bool-cases (is_ascii_hexdigit c && is_uuid_like (take n (c ∷ rest)))) [
      | inl uuid ↦
          rw uuid
            (prefix_length-pos is_word c rest (ground arith), prefix_length-le is_word (c ∷ rest))
      | inr other ↦ rw other (scan_plain-Fits c rest)
    ]

two_char-Fits :
    (c : ℕ) (rest : Text) (kind : TokenKind)
    → two_char c rest ≡ some kind
    → (0 < 2) × (2 ≤ suc (length rest))
two_char-Fits c [] kind h = cc
two_char-Fits c (d ∷ rest) kind h = (omega arith, omega arith)

scan-Fits : (c : ℕ) (rest : Text) → Fits (suc (length rest)) (scan c rest)
unfolding scan
scan-Fits c rest = elim (Bool-cases (c == b'"')) [
  | inl quote ↦ rw (quote, scan) (scan_string-Fits rest)
  | inr other ↦ elim (Bool-cases (two_boundary rest)) [
    | inr inside ↦ rw (other, inside, scan) tt
    | inl boundary ↦ elim (Option-cases (two_char c rest)) [
      | inr (kind, two) ↦ rw (other, boundary, two, scan) (two_char-Fits c rest kind two)
      | inl no_two ↦ elim (Option-cases (single_char c)) [
        | inr (kind, one) ↦ rw (other, boundary, no_two, one, scan) (omega arith, omega arith)
        | inl no_one ↦ rw (other, boundary, no_two, no_one, scan) (scan_uuid-Fits c rest)
      ]
    ]
  ]
]

take-drop : (n : ℕ) (cs : Text) → take n cs ++ drop n cs ≡ cs
take-drop zero cs = refl
take-drop (suc n) [] = refl
take-drop (suc n) (c ∷ cs) = ap (λ xs. c ∷ xs) (take-drop n cs)

ok_list : Outcome (List Token) → List Token
ok_list (ok ts) = ts
ok_list (err e) = []
ok_list panicked = []
ok_list out_of_fuel = []

ok_inj : {ts us : List Token} → ok ts ≡ ok us → ts ≡ us
unfolding ok_list
ok_inj h = ap ok_list h

emit-eq-ok :
    (t : Token) (o : Outcome (List Token)) (ts : List Token)
    → emit t o ≡ ok ts
    → (us : List Token) × (o ≡ ok us) × (t ∷ us ≡ ts)
emit-eq-ok t (ok us) ts h = (us, refl, ok_inj h)
emit-eq-ok t (err e) ts h = cc
emit-eq-ok t panicked ts h = cc
emit-eq-ok t out_of_fuel ts h = cc

emit-ne : (t : Token) (o : Outcome (List Token)) → o ≢ out_of_fuel → emit t o ≢ out_of_fuel
emit-ne t (ok us) ne h = cc
emit-ne t (err e) ne h = cc
emit-ne t panicked ne h = cc
emit-ne t out_of_fuel ne h = ne refl

Scanned-cases :
    (s : Scanned)
    → ((kind : TokenKind) × (n : ℕ) × (s ≡ token kind n))
      ⊎ ((s ≡ unterminated) ⊎ ((s ≡ unexpected) ⊎ (s ≡ not_a_boundary)))
Scanned-cases (token kind n) = inl (kind, n, refl)
Scanned-cases unterminated = inr (inl refl)
Scanned-cases unexpected = inr (inr (inl refl))
Scanned-cases not_a_boundary = inr (inr (inr refl))

tokenize_loop-Tiles :
    (fuel pos : ℕ) (cs : Text) (ts : List Token)
    → tokenize_loop fuel pos cs ≡ ok ts
    → Tiles pos cs ts
unfolding tokenize_loop
tokenize_loop-Tiles fuel pos [] ts h = subst (Tiles pos []) (ok_inj h) finish
tokenize_loop-Tiles zero pos (c ∷ rest) ts h = cc
tokenize_loop-Tiles (suc fuel) pos (c ∷ rest) ts h = elim (Bool-cases (is_ascii_whitespace c)) [
  | inl space ↦
      blank space (tokenize_loop-Tiles fuel (pos + 1) rest ts (rw (space, tokenize_loop) at h))
  | inr other ↦ elim (Scanned-cases (scan c rest)) [
    | inl (kind, n, found) ↦
        let fits = subst (Fits (suc (length rest))) found (scan-Fits c rest) in
        let (us, later, same) = emit-eq-ok _ _ ts (rw (other, found, tokenize_loop) at h) in
        let long : length (take n (c ∷ rest)) ≡ n = length-take n (c ∷ rest) fits.1 in
        let tail = tokenize_loop-Tiles fuel (pos + n) (drop n (c ∷ rest)) us later in
        subst (Tiles pos (c ∷ rest)) same (
          subst
            (λ cs.
              Tiles pos cs
                (record { kind = kind; lexeme = take n (c ∷ rest); position = pos } ∷ us))
            (take-drop n (c ∷ rest))
            (piece {lexeme = take n (c ∷ rest)} {rest = drop n (c ∷ rest)} {ts = us} kind
              (rw long fits.0) (rw long tail)))
    | inr (inl bad) ↦ absurd (cc (rw (other, bad, tokenize_loop) at h))
    | inr (inr (inl bad)) ↦ absurd (cc (rw (other, bad, tokenize_loop) at h))
    | inr (inr (inr bad)) ↦ absurd (cc (rw (other, bad, tokenize_loop) at h))
  ]
]

tokenize_loop_ends :
    (fuel pos : ℕ) (cs : Text) → length cs ≤ fuel → tokenize_loop fuel pos cs ≢ out_of_fuel
unfolding tokenize_loop
tokenize_loop_ends fuel pos [] le h = cc
tokenize_loop_ends zero pos (c ∷ rest) le h = omega arith
tokenize_loop_ends (suc fuel) pos (c ∷ rest) le h = elim (Bool-cases (is_ascii_whitespace c)) [
  | inl space ↦
      tokenize_loop_ends fuel (pos + 1) rest (omega arith) (rw (space, tokenize_loop) at h)
  | inr other ↦ elim (Scanned-cases (scan c rest)) [
    | inl (kind, n, found) ↦
        let fits = subst (Fits (suc (length rest))) found (scan-Fits c rest) in
        emit-ne _ _
          (tokenize_loop_ends fuel (pos + n) (drop n (c ∷ rest))
            (omega (arith, length-drop n (c ∷ rest), fits.0, fits.1)))
          (rw (other, found, tokenize_loop) at h)
    | inr (inl bad) ↦ cc (rw (other, bad, tokenize_loop) at h)
    | inr (inr (inl bad)) ↦ cc (rw (other, bad, tokenize_loop) at h)
    | inr (inr (inr bad)) ↦ cc (rw (other, bad, tokenize_loop) at h)
  ]
]

-- A text that is tokenized is its tokens' lexemes in order, with only white space between them, and
-- every position is the offset of its lexeme.
pub tokenize-Tiles : (input : Text) (ts : List Token) → tokenize input ≡ ok ts → Tiles 0 input ts
unfolding tokenize
tokenize-Tiles input ts h = tokenize_loop-Tiles (length input) 0 input ts h

-- The loop of `tokenize` ends on every text.
pub tokenize_ends : (input : Text) → tokenize input ≢ out_of_fuel
unfolding tokenize
tokenize_ends input h = tokenize_loop_ends (length input) 0 input (omega arith) h
