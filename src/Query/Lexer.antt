-- ===== src/Query/Lexer.antt =====
-- `tokenize` of crates/mentedb-query/src/lexer.rs. The bytes from `pos` on stand for the index
-- `pos`, and a token is scanned as its kind and its length: in every branch its lexeme is the slice
-- from its start to its end. The main loop takes fuel, a round for each byte.
pub mod Tiles
use grasp.Prelude.{
  ℕ, zero, suc, ◌+◌, Bool, true, false, not, ◌&&◌, ◌||◌, Option, none, some, List, [], ◌∷◌, map,
  ltb, leb, ◌==◌, if◌then◌else◌, length, take, drop, any, zip,
}
use grasp.Core.Edge.{Text}
use grasp.Query.Token.{
  TokenKind, Token, bytes, same_text, keywords, eq, neq, gt, lt, gte, lte, similar_to, arrow,
  l_paren, r_paren, l_bracket, r_bracket, comma, dot, colon, semicolon, string_lit, integer_lit,
  float_lit, identifier, uuid_lit, eof,
}
use grasp.Query.Result.{
  QueryError, unterminated_string, unexpected_character, Outcome, ok, err, panicked, out_of_fuel,
}

abbrev pub is_ascii_whitespace : ℕ → Bool
is_ascii_whitespace c = c == 32 || (c == 9 || (c == 10 || (c == 12 || c == 13)))

abbrev pub is_ascii_digit : ℕ → Bool
is_ascii_digit c = leb b'0' c && leb c b'9'

abbrev pub is_ascii_alphanumeric : ℕ → Bool
is_ascii_alphanumeric c = is_ascii_digit c || (leb b'a' c && leb c b'z' || leb b'A' c && leb c b'Z')

abbrev pub is_ascii_hexdigit : ℕ → Bool
is_ascii_hexdigit c = is_ascii_digit c || (leb b'a' c && leb c b'f' || leb b'A' c && leb c b'F')

-- A byte of an identifier behind the first one.
abbrev pub is_word : ℕ → Bool
is_word c = is_ascii_alphanumeric c || (c == b'_' || c == b'-')

-- `to_lowercase` on ASCII.
abbrev pub to_lowercase : Text → Text
to_lowercase = map (λ c. if leb b'A' c && leb c b'Z' then c + 32 else c)

-- How many bytes at the front a `while` loop with this condition passes.
unfoldable pub prefix_length : (ℕ → Bool) → Text → ℕ
prefix_length p [] = 0
prefix_length p (c ∷ rest) = if p c then suc (prefix_length p rest) else 0

-- What one token is.
pub data Scanned : Type 0 where
  token : TokenKind → (length : ℕ) → Scanned
  unterminated : Scanned
  unexpected : Scanned
  not_a_boundary : Scanned

-- The bytes that the loop over a string literal passes; a backslash passes one more, even behind
-- the end of the text.
unfoldable pub string_body : Text → ℕ
string_body [] = 0
string_body (c ∷ []) = elim (c == b'"') [ true ↦ 0 | false ↦ if c == b'\\' then 2 else 1 ]
string_body (c ∷ d ∷ rest) = elim (c == b'"') [
  | true ↦ 0
  | false ↦ elim (c == b'\\') [ true ↦ string_body rest + 2 | false ↦ suc (string_body (d ∷ rest)) ]
]

-- A string literal, from behind its opening quote.
unfoldable pub scan_string : Text → Scanned
scan_string rest =
    let body = string_body rest in
    if leb (length rest) body then unterminated else token string_lit (body + 2)

abbrev pub two_kind : ℕ → ℕ → Option TokenKind
two_kind c d =
    if c == b'!' && d == b'='
    then some neq
    else if c == b'>' && d == b'='
    then some gte
    else if c == b'<' && d == b'='
    then some lte
    else if c == b'~' && d == b'>'
    then some similar_to
    else if c == b'-' && d == b'>'
    then some arrow
    else none

abbrev pub two_char : ℕ → Text → Option TokenKind
two_char c [] = none
two_char c (d ∷ rest) = two_kind c d

-- Whether the slice of two bytes ends between two characters: a byte 10xxxxxx continues one.
abbrev pub two_boundary : Text → Bool
two_boundary [] = true
two_boundary (d ∷ []) = true
two_boundary (d ∷ e ∷ rest) = not (leb 128 e && ltb e 192)

abbrev pub single_char : ℕ → Option TokenKind
single_char c =
    if c == b'='
    then some TokenKind.eq
    else if c == b'>'
    then some TokenKind.gt
    else if c == b'<'
    then some TokenKind.lt
    else if c == b'('
    then some l_paren
    else if c == b')'
    then some r_paren
    else if c == b'['
    then some l_bracket
    else if c == b']'
    then some r_bracket
    else if c == b','
    then some comma
    else if c == b'.'
    then some dot
    else if c == b':'
    then some colon
    else if c == b';'
    then some semicolon
    else none

-- `s.split('-')`.
unfoldable pub split_dashes : Text → List Text
split_dashes [] = [] ∷ []
split_dashes (c ∷ rest) = elim (c == b'-') [
  | true ↦ [] ∷ split_dashes rest
  | false ↦ elim (split_dashes rest) [ [] ↦ (c ∷ []) ∷ [] | part ∷ parts ↦ (c ∷ part) ∷ parts ]
]

abbrev pub is_part : Text × ℕ → Bool
is_part p = length p.0 == p.1 && not (any (λ c. not (is_ascii_hexdigit c)) p.0)

unfoldable pub is_uuid_like : Text → Bool
unfolding split_dashes
is_uuid_like s =
    let parts = split_dashes s in
    (length s == 36 && length parts == 5)
    && not (any (λ p. not (is_part p)) (zip parts (8 ∷ 4 ∷ 4 ∷ 4 ∷ 12 ∷ [])))

-- The kind of a word.
abbrev pub keyword_in : List (Text × TokenKind) → Text → TokenKind
keyword_in [] lower = identifier
keyword_in ((word, kind) ∷ rest) lower =
    if same_text word lower then kind else keyword_in rest lower

abbrev pub starts_with_digit : Text → Bool
starts_with_digit [] = false
starts_with_digit (c ∷ rest) = is_ascii_digit c

-- A dot and a digit behind the integer part make a float.
abbrev pub starts_fraction : Text → Bool
starts_fraction [] = false
starts_fraction (c ∷ rest) = c == b'.' && starts_with_digit rest

unfoldable pub scan_number : ℕ → Text → Scanned
scan_number c rest =
    let sign = if c == b'-' then 1 else 0 in
    let digits = sign + prefix_length is_ascii_digit (drop sign (c ∷ rest)) in
    let behind = drop digits (c ∷ rest) in
    if starts_fraction behind
    then token float_lit (digits + 1 + prefix_length is_ascii_digit (drop 1 behind))
    else token integer_lit digits

unfoldable pub scan_word : ℕ → Text → Scanned
scan_word c rest =
    let n = prefix_length is_word (c ∷ rest) in
    if is_ascii_alphanumeric c || c == b'_'
    then token (keyword_in keywords (to_lowercase (take n (c ∷ rest)))) n
    else unexpected

-- A number or a word.
unfoldable pub scan_plain : ℕ → Text → Scanned
scan_plain c rest =
    if is_ascii_digit c || c == b'-' && starts_with_digit rest
    then scan_number c rest
    else scan_word c rest

unfoldable pub scan_uuid : ℕ → Text → Scanned
scan_uuid c rest =
    let n = prefix_length is_word (c ∷ rest) in
    if is_ascii_hexdigit c && is_uuid_like (take n (c ∷ rest))
    then token uuid_lit n
    else scan_plain c rest

-- The token at the front.
unfoldable pub scan : ℕ → Text → Scanned
scan c rest = elim (c == b'"') [
  | true ↦ scan_string rest
  | false ↦ elim (two_boundary rest) [
    | false ↦ not_a_boundary
    | true ↦ elim (two_char c rest) [
      | some kind ↦ token kind 2
      | none ↦ elim (single_char c) [ some kind ↦ token kind 1 | none ↦ scan_uuid c rest ]
    ]
  ]
]

abbrev pub emit : Token → Outcome (List Token) → Outcome (List Token)
emit t (ok ts) = ok (t ∷ ts)
emit t (err e) = err e
emit t panicked = panicked
emit t out_of_fuel = out_of_fuel

unfoldable pub tokenize_loop : ℕ → (pos : ℕ) → Text → Outcome (List Token)
tokenize_loop fuel pos [] = ok (record { kind = eof; lexeme = []; position = pos } ∷ [])
tokenize_loop zero pos (c ∷ rest) = out_of_fuel
tokenize_loop (suc fuel) pos (c ∷ rest) = elim (is_ascii_whitespace c) [
  | true ↦ tokenize_loop fuel (pos + 1) rest
  | false ↦ elim (scan c rest) [
    | token kind n ↦
        emit (record { kind = kind; lexeme = take n (c ∷ rest); position = pos })
          (tokenize_loop fuel (pos + n) (drop n (c ∷ rest)))
    | unterminated ↦ err unterminated_string
    | unexpected ↦ err (unexpected_character c pos)
    | not_a_boundary ↦ panicked
  ]
]

unfoldable pub tokenize : Text → Outcome (List Token)
tokenize input = tokenize_loop (length input) 0 input
