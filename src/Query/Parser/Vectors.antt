-- ===== src/Query/Parser/Vectors.antt =====
-- What the parser reads back from the tokens of a vector.
use grasp.Prelude.{
  Bool, true, false, ℕ, zero, suc, ◌+◌, ◌≤◌, ◌≡◌, refl, sym, ap, ◌∙◌, some, List, [], ◌∷◌, ◌++◌,
  map, append_assoc, arith, length, drop, length-append, length-drop,
}
use grasp.Query.Token.{
  Token, TokenKind, kind_number, same_kind, integer_lit, comma, l_bracket, r_bracket, float_lit,
}
use grasp.Query.Result.{ok}
use grasp.Query.Parser.{Parsers, vector_loop, parse_vector}
use grasp.Query.Parser.Here.{
  Spelling, tok, drop-drop, drop-append, advance-here, drop-here, at-here, expect-here,
}

-- A number as it is lexed, with or without a fraction, and its value.
pub record Number (F : Type 0) : Type 0 where
  pub spelling : Spelling
  pub whole : Bool
  pub value : F

abbrev number_kind : Bool → TokenKind
number_kind true = integer_lit
number_kind false = float_lit

abbrev pub number_token : {F : Type 0} → Number F → Token
number_token p = tok (number_kind p.whole) p.spelling

number-opens : (whole : Bool) → same_kind (number_kind whole) r_bracket ≡ false
unfolding kind_number
number-opens true = refl
number-opens false = refl

-- A number of a vector and the comma before it, which the first number has not.
abbrev pub Item : Type 0 → Type 0
Item F = Spelling × Number F

-- The lexemes stand for the values.
abbrev pub Reads : {F D : Type 0} → Parsers F D → List (Item F) → Type 0
Reads parsers [] = Unit
Reads parsers (p ∷ ps) = (parsers.f32 p.1.spelling.0 ≡ some p.1.value) × Reads parsers ps

module _ {F : Type 0} where
  abbrev pub more_tokens : List (Item F) → List Token
  more_tokens [] = []
  more_tokens (p ∷ ps) = tok comma p.0 ∷ number_token p.1 ∷ more_tokens ps

  -- The tokens of a vector between the given brackets.
  abbrev pub vector_tokens : (opening closing : Spelling) → List (Item F) → List Token
  vector_tokens opening closing [] = tok l_bracket opening ∷ tok r_bracket closing ∷ []
  vector_tokens opening closing (p ∷ ps) =
      tok l_bracket opening ∷ number_token p.1 ∷ more_tokens ps ++ tok r_bracket closing ∷ []

  abbrev pub values : List (Item F) → List F
  values = map (λ p. p.1.value)

  length-more_tokens : (ps : List (Item F)) → length ps ≤ length (more_tokens ps)
  length-more_tokens [] = omega arith
  length-more_tokens (p ∷ ps) = omega (arith, length-more_tokens ps)

module _ {F D : Type 0} (parsers : Parsers F D) (closing : Spelling) where
  vector_loop-more_tokens :
      (tokens : List Token) (pos fuel : ℕ) (ps : List (Item F)) (post : List Token)
      → length ps ≤ fuel
      → Reads parsers ps
      → drop pos tokens ≡ more_tokens ps ++ tok r_bracket closing ∷ post
      → vector_loop tokens parsers fuel pos ≡ ok (values ps, pos + length (more_tokens ps))
  unfolding vector_loop kind_number
  vector_loop-more_tokens tokens pos zero [] post le reads here =
      rw (at-here tokens pos (tok r_bracket closing) post here comma)
        (ap (λ n. ok ([], n)) (omega arith))
  vector_loop-more_tokens tokens pos (suc fuel) [] post le reads here =
      rw (at-here tokens pos (tok r_bracket closing) post here comma)
        (ap (λ n. ok ([], n)) (omega arith))
  vector_loop-more_tokens tokens pos zero (p ∷ ps) post le reads here = absurd (omega arith)
  vector_loop-more_tokens tokens pos (suc fuel) (p ∷ ps) post le reads here =
      let behind = more_tokens ps ++ tok r_bracket closing ∷ post in
      let number = number_token p.1 in
      let at_number = drop-here tokens pos (tok comma p.0) (number ∷ behind) here in
      let at_behind = drop-here tokens (pos + 1) number behind at_number in
      rw
        (
          at-here tokens pos (tok comma p.0) (number ∷ behind) here comma,
          advance-here tokens pos (tok comma p.0) (number ∷ behind) here,
          advance-here tokens (pos + 1) number behind at_number,
          reads.0,
          vector_loop-more_tokens tokens (pos + 1 + 1) fuel ps post (omega arith) reads.1 at_behind,
        )
        (ap (λ n. ok (p.1.value ∷ values ps, n)) (omega arith))

  -- The tokens of a bracketed list of numbers, whole or with a fraction, wherever they stand among
  -- the tokens and whatever their offsets, are read as the values of the numbers, if the lexemes
  -- parse as these, and the parser is then behind them.
  pub parse_vector-vector_tokens :
      (opening : Spelling) (tokens : List Token) (pos : ℕ) (ps : List (Item F)) (post : List Token)
      → Reads parsers ps
      → drop pos tokens ≡ vector_tokens opening closing ps ++ post
      → parse_vector tokens parsers pos
        ≡ ok (values ps, pos + length (vector_tokens opening closing ps))
  unfolding parse_vector kind_number
  parse_vector-vector_tokens opening tokens pos [] post reads here =
      let first = tok l_bracket opening in
      let last = tok r_bracket closing in
      let at_closing = drop-here tokens pos first (last ∷ post) here in
      rw
        (
          expect-here tokens pos first (last ∷ post) here refl,
          at-here tokens (pos + 1) last post at_closing r_bracket,
          expect-here tokens (pos + 1) last post at_closing refl,
        )
        (ap (λ n. ok ([], n)) (omega arith))
  parse_vector-vector_tokens opening tokens pos (p ∷ ps) post reads here =
      let first = tok l_bracket opening in
      let last = tok r_bracket closing in
      let number = number_token p.1 in
      let behind = more_tokens ps ++ last ∷ post in
      let start : drop pos tokens ≡ first ∷ number ∷ behind =
        here ∙ ap (λ ts. first ∷ number ∷ ts) (append_assoc (more_tokens ps) (last ∷ []) post) in
      let at_number = drop-here tokens pos first (number ∷ behind) start in
      let at_behind = drop-here tokens (pos + 1) number behind at_number in
      let end = pos + 1 + 1 + length (more_tokens ps) in
      let at_closing : drop end tokens ≡ last ∷ post =
        sym (drop-drop (pos + 1 + 1) (length (more_tokens ps)) tokens)
        ∙ (ap (drop (length (more_tokens ps))) at_behind
            ∙ drop-append (more_tokens ps) (last ∷ post)) in
      let enough : length ps ≤ length tokens = omega (
        arith,
        length-more_tokens ps,
        ap length at_behind,
        length-append (more_tokens ps) (last ∷ post),
        length-drop (pos + 1 + 1) tokens,
      ) in
      rw
        (
          expect-here tokens pos first (number ∷ behind) start refl,
          at-here tokens (pos + 1) number behind at_number r_bracket,
          number-opens p.1.whole,
          advance-here tokens (pos + 1) number behind at_number,
          reads.0,
          vector_loop-more_tokens tokens (pos + 1 + 1) (length tokens) ps post enough reads.1
              at_behind,
          expect-here tokens end last post at_closing refl,
        )
        (ap (λ n. ok (p.1.value ∷ values ps, n))
          (omega (arith, length-append (more_tokens ps) (last ∷ []))))
