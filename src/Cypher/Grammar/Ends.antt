-- ===== src/Cypher/Grammar/Ends.antt =====
-- cypher_parser.go: where an expression of each level ends, and the tests of the current token.
use goraphdb.Common.{
  ℕ, suc, ◌≤◌, ◌<◌, ◌≡◌, refl, ap, ◌∙◌, Bool, true, false, ◌||◌, Option, none, some, List, ◌∷◌,
  arith, length,
}
use goraphdb.Types.{Bytes}
use goraphdb.Cypher.Tokens.{TokenKind, Token}
use goraphdb.Cypher.Tokens.{tok_and, tok_dot, tok_lparen, tok_or}
use goraphdb.Cypher.Kinds.{same_kind, same_kind_iff}
use goraphdb.Cypher.Ast.{CompOp, Expression, Expressions}
use goraphdb.Cypher.Parser.{
  ParseError, Parser, parsed, cur, ahead, is_kind, when_kind, expect_or, expect, expected,
}
use goraphdb.Cypher.Parser.Expressions.{
  comparison_op, parse_primary, parse_comparison, parse_not_expr, parse_and_expr, parse_or_expr,
  parse_expr,
}
use goraphdb.Cypher.Grammar.{
  Level, Derives, More, Arguments, or_level, and_level, not_level, comparison_level, primary_level,
  literal, param, variable, property, call, alone, compares, plain, negated, one_and, ands, one_or,
  ors, no_other, another, no_arguments, arguments,
}

unfoldable pub is_operator : TokenKind → Bool
unfolding comparison_op
is_operator k = elim (comparison_op k) [ none ↦ false | some op ↦ true ]

-- Whether an expression of the level would go on at a token of the kind.
unfoldable pub goes_on : Level → TokenKind → Bool
unfolding is_operator same_kind
goes_on primary_level k = same_kind k tok_dot || same_kind k tok_lparen
goes_on comparison_level k = is_operator k || (same_kind k tok_dot || same_kind k tok_lparen)
goes_on not_level k = is_operator k || (same_kind k tok_dot || same_kind k tok_lparen)
goes_on and_level k =
    same_kind k tok_and || (is_operator k || (same_kind k tok_dot || same_kind k tok_lparen))
goes_on or_level k =
    same_kind k tok_or
    || (same_kind k tok_and || (is_operator k || (same_kind k tok_dot || same_kind k tok_lparen)))

abbrev pub Ends : Level → List Token → Type 0
Ends l ts = goes_on l (cur ts).kind ≡ false

module _ (parse_float : Bytes → ℕ × Bool) where
  -- The parser of each level, as `parse_expr` calls it with one unit more of fuel.
  abbrev pub parser_at : Level → ℕ → Parser Expression
  parser_at primary_level fuel = parse_primary parse_float (suc fuel) (parse_expr parse_float fuel)
  parser_at comparison_level fuel =
      parse_comparison parse_float (suc fuel) (parse_expr parse_float fuel)
  parser_at not_level fuel = parse_not_expr parse_float (suc fuel) (parse_expr parse_float fuel)
  parser_at and_level fuel = parse_and_expr parse_float (suc fuel) (parse_expr parse_float fuel)
  parser_at or_level fuel = parse_or_expr parse_float (suc fuel) (parse_expr parse_float fuel)

  mutual
    pub Derives-shorter :
        {l : Level} {e : Expression} {ts rest : List Token}
        → Derives parse_float l e ts rest
        → length rest < length ts
    Derives-shorter (literal h) = omega arith
    Derives-shorter (param h) = omega arith
    Derives-shorter (variable h) = omega arith
    Derives-shorter (property n d p) = omega arith
    Derives-shorter (call n o args c) = omega (arith, Arguments-shorter args)
    Derives-shorter (alone d) = Derives-shorter d
    Derives-shorter (compares d op d') = omega (arith, Derives-shorter d, Derives-shorter d')
    Derives-shorter (plain d) = Derives-shorter d
    Derives-shorter (negated n d) = omega (arith, Derives-shorter d)
    Derives-shorter (one_and d) = Derives-shorter d
    Derives-shorter (ands d more) = omega (arith, Derives-shorter d, More-shorter more)
    Derives-shorter (one_or d) = Derives-shorter d
    Derives-shorter (ors d more) = omega (arith, Derives-shorter d, More-shorter more)

    pub More-shorter :
        {k : TokenKind} {l : Level} {es : Expressions} {ts rest : List Token}
        → More parse_float k l es ts rest
        → length rest ≤ length ts
    More-shorter no_other = omega arith
    More-shorter (another h d more) = omega (arith, Derives-shorter d, More-shorter more)

    pub Arguments-shorter :
        {es : Expressions} {ts rest : List Token}
        → Arguments parse_float es ts rest
        → length rest ≤ length ts
    Arguments-shorter no_arguments = omega arith
    Arguments-shorter (arguments d more) = omega (arith, Derives-shorter d, More-shorter more)

pub is_kind-yes :
    (kind : TokenKind) (t : Token) (ts : List Token) → t.kind ≡ kind → is_kind kind (t ∷ ts) ≡ true
unfolding is_kind cur
is_kind-yes kind t ts h = (same_kind_iff t.kind kind).1 h

-- A token of another kind.
pub is_kind-no :
    (kind other : TokenKind) (t : Token) (ts : List Token)
    → t.kind ≡ other
    → same_kind other kind ≡ false
    → is_kind kind (t ∷ ts) ≡ false
unfolding is_kind cur
is_kind-no kind other t ts h n = ap (λ k. same_kind k kind) h ∙ n

pub expect_or-yes :
    (message : Token → ParseError) (kind : TokenKind) (t : Token) (ts : List Token)
    → t.kind ≡ kind
    → expect_or message kind (t ∷ ts) ≡ parsed t ts
unfolding expect_or when_kind cur ahead
expect_or-yes message kind t ts h = rw (is_kind-yes kind t ts h) refl

pub expect-yes :
    (kind : TokenKind) (t : Token) (ts : List Token)
    → t.kind ≡ kind
    → expect kind (t ∷ ts) ≡ parsed t ts
unfolding expect
expect-yes kind t ts h = expect_or-yes (λ u. expected kind u.kind u.pos) kind t ts h

pub no_operator : (k : TokenKind) → is_operator k ≡ false → comparison_op k ≡ none
unfolding is_operator
no_operator k = from (comparison_op k)
  where
    from : (o : Option CompOp) → elim o [ none ↦ false | some op ↦ true ] ≡ false → o ≡ none
    from none h = refl
    from (some op) h = cc

pub or_false : (a b : Bool) → (a || b) ≡ false → (a ≡ false) × (b ≡ false)
or_false false b h = (refl, h)
or_false true b h = cc
