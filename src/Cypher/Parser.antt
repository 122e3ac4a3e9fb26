-- ===== src/Cypher/Parser.antt =====
-- cypher_parser.go: the state of the parser is what is ahead of its position, and a `Parser A` reads
-- an `A` off it. Here are the errors, the steps of a parser and the helpers that every rule uses.
mod Tests
pub mod Expressions
pub mod Patterns
pub mod Clauses
pub mod Queries
pub mod Steps
pub mod Steady
pub mod Shrinking
pub mod Fuel
pub mod Shape
use goraphdb.Common.{
  ℕ, zero, suc, Bool, true, false, List, [], ◌∷◌, if◌then◌else◌, ltb, leb, ◌==◌, ◌+◌, ◌-◌, ◌*◌, ◌^◌,
  ◌&&◌, Option, none, some,
}
use goraphdb.Common.Results.{Error}
use goraphdb.Types.{Bytes}
use goraphdb.Cypher.Tokens.{TokenKind, Token, is_digit, tok_eof}
use goraphdb.Cypher.Kinds.{same_kind}

-- One constructor for each message, with the kinds, texts and positions that it prints.
pub data ParseError : Type 0 where
  expected : TokenKind → TokenKind → ℕ → ParseError
  unexpected_token unexpected_after_create unexpected_after_merge : TokenKind → ℕ → ParseError
  expected_match_after_optional skip_needs_integer limit_needs_integer : ParseError
  expected_label : ℕ → ParseError
  expected_property_key : TokenKind → ParseError
  invalid_integer invalid_float : Bytes → ParseError
  expected_literal : TokenKind → ℕ → ParseError
  expected_relationship expected_relationship_end : ℕ → ParseError
  expected_relationship_label expected_closing_dash : ParseError
  expected_alias expected_property_name : ParseError
  merge_needs_node : ParseError → ParseError
  merge_needs_label : ℕ → ParseError
  expected_set_after_on_create expected_set_after_on_match : ℕ → ParseError
  expected_create_or_match : ℕ → TokenKind → ParseError
  set_needs_variable : TokenKind → ℕ → ParseError
  set_needs_dot : ℕ → ParseError
  set_needs_property : TokenKind → ℕ → ParseError
  set_needs_equals : Bytes → Bytes → ℕ → ParseError
  set_value : ParseError → ParseError
  delete_needs_variable : TokenKind → ℕ → ParseError
  lexer_error : Error → ParseError

-- What was read with the tokens that are left, or the error. `out_of_fuel` has no counterpart in the
-- source.
pub data Outcome {ℓ} (A : Type ℓ) : Type ℓ where
  parsed : A → List Token → Outcome A
  refused : ParseError → Outcome A
  out_of_fuel : Outcome A

abbrev pub Parser {ℓ} : Type ℓ → Type ℓ
Parser A = List Token → Outcome A

abbrev pub bind {ℓ κ} : {A : Type ℓ} {B : Type κ} → Outcome A → (A → Parser B) → Outcome B
bind (parsed a ts) f = f a ts
bind (refused e) f = refused e
bind out_of_fuel f = out_of_fuel

infixl 1 ◌>>=◌ ◌>>◌
abbrev pub ◌>>=◌ {ℓ κ} : {A : Type ℓ} {B : Type κ} → Parser A → (A → Parser B) → Parser B
p >>= f = λ ts. bind (p ts) f

abbrev pub ◌>>◌ {ℓ κ} : {A : Type ℓ} {B : Type κ} → Parser A → Parser B → Parser B
p >> q = p >>= λ _. q

abbrev pub pure {ℓ} : {A : Type ℓ} → A → Parser A
pure a ts = parsed a ts

-- Another message for an error (`%w` wraps the first one).
abbrev pub reword {ℓ} : {A : Type ℓ} → (ParseError → ParseError) → Outcome A → Outcome A
reword f (parsed a ts) = parsed a ts
reword f (refused e) = refused (f e)
reword f out_of_fuel = out_of_fuel

unfoldable pub or_else {ℓ} : {A : Type ℓ} → (ParseError → ParseError) → Parser A → Parser A
or_else f p ts = reword f (p ts)

unfoldable pub cur : List Token → Token
cur [] = record { kind = tok_eof; text = []; pos = 0 }
cur (t ∷ ts) = t

unfoldable pub ahead : List Token → List Token
ahead [] = []
ahead (t ∷ ts) = ts

-- `is`.
unfoldable pub is_kind : TokenKind → List Token → Bool
unfolding cur
is_kind kind ts = same_kind (cur ts).kind kind

-- An error made from the current token.
unfoldable pub fail_at {ℓ} : {A : Type ℓ} → (Token → ParseError) → Parser A
unfolding cur
fail_at message ts = refused (message (cur ts))

-- `if test { … } else { … }`.
unfoldable pub if_ahead {ℓ} : {A : Type ℓ} → (List Token → Bool) → Parser A → Parser A → Parser A
if_ahead test p q ts = if test ts then p ts else q ts

-- `if p.is(kind) { p.advance() … } else { … }`, with the token that `advance` returns.
unfoldable pub when_kind {ℓ} : {A : Type ℓ} → TokenKind → (Token → Parser A) → Parser A → Parser A
unfolding is_kind cur ahead
when_kind kind p q ts = if is_kind kind ts then p (cur ts) (ahead ts) else q ts

-- `expect` where the caller has a message of its own for the error, made from the current token.
unfoldable pub expect_or : (Token → ParseError) → TokenKind → Parser Token
unfolding when_kind fail_at
expect_or message kind = when_kind kind (λ t. pure t) (fail_at message)

unfoldable pub expect : TokenKind → Parser Token
unfolding expect_or
expect kind = expect_or (λ t. expected kind t.kind t.pos) kind

unfoldable pub match_kind : TokenKind → Parser Bool
unfolding when_kind
match_kind kind = when_kind kind (λ t. pure true) (pure false)

-- The loop `for p.match(kind) { … }` around a parser, with what it appends.
unfoldable pub while_match {ℓ} : {A : Type ℓ} → TokenKind → Parser A → ℕ → Parser (List A)
unfolding when_kind
while_match kind item zero = λ ts. out_of_fuel
while_match kind item (suc fuel) =
    when_kind kind (λ t. do a ← item; rest ← while_match kind item fuel; pure (a ∷ rest)) (pure [])

-- The loop that reads an item and goes on as long as a comma follows.
unfoldable pub separated {ℓ} : {A : Type ℓ} → TokenKind → Parser A → ℕ → Parser (List A)
unfolding while_match
separated kind item fuel = do a ← item; rest ← while_match kind item fuel; pure (a ∷ rest)

-- The number that decimal digits stand for, on top of those read before.
unfoldable pub decimal : ℕ → Bytes → Option ℕ
unfolding is_digit
decimal n [] = some n
decimal n (c ∷ cs) = if is_digit c then decimal (n * 10 + (c - b'0')) cs else none

-- `strconv.ParseInt(text, 10, 64)` and `strconv.Atoi` on a text without a sign, as the lexer makes
-- them: the value, which is the largest int64 where the number is out of range, and whether there is
-- no error.
unfoldable pub parse_int : Bytes → ℕ × Bool
unfolding decimal
parse_int [] = (0, false)
parse_int (c ∷ cs) = elim (decimal 0 (c ∷ cs)) [
  | none ↦ (0, false)
  | some n ↦ if ltb n (2 ^ 63) then (n, true) else (2 ^ 63 - 1, false)
]
