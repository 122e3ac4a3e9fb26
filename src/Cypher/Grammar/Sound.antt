-- ===== src/Cypher/Grammar/Sound.antt =====
-- cypher_parser.go: what the parsers of expressions return, against the grammar.
use goraphdb.Common.{
  ℕ, zero, suc, ◌≡◌, inl, inr, refl, Bool, true, Option, none, some, List, [], ◌∷◌,
}
use goraphdb.Types.{Bytes, Value}
use goraphdb.Cypher.Tokens.{TokenKind, Token}
use goraphdb.Cypher.Tokens.{
  tok_and, tok_comma, tok_dot, tok_ident, tok_lparen, tok_not, tok_or, tok_param, tok_rparen,
  tok_type,
}
use goraphdb.Cypher.Ast.{
  CompOp, Expression, expr_literal, expr_prop_access, expr_comparison, expr_param, expr_not,
  expr_and, expr_or, operand,
}
use goraphdb.Cypher.Parser.{
  ParseError, Parser, parsed, refused, cur, ahead, is_kind, fail_at, expect_or, expect, while_match,
  separated, unexpected_token, expected_property_name,
}
use goraphdb.Cypher.Parser.Expressions.{
  operands_of, comparison_op, primary_literal, parse_arguments, parse_after_name,
  parse_literal_value, parse_primary, parse_right_side, parse_comparison_end, parse_comparison,
  parse_not_expr, parse_and_operands, parse_and_expr, parse_or_operands, parse_or_expr, parse_expr,
}
use goraphdb.Cypher.Parser.Steps.{IsProper}
use goraphdb.Cypher.Grammar.{
  Level, IsName, Derives, More, Arguments, or_level, and_level, not_level, comparison_level,
  primary_level, literal, param, variable, property, call, alone, compares, plain, negated, one_and,
  ands, one_or, ors, no_other, another, no_arguments, arguments,
}
use goraphdb.Cypher.Grammar.Yields.{
  Yields, Sound, Sound-when_kind, Sound-if_ahead, Yields-bind, Yields-weaken, Yields-both,
  Yields-parsed, spent, stops, while_match-first, yields,
}

-- A token of the kind is read.
abbrev One : TokenKind → List Token → Token → List Token → Type 0
One kind ts t rest = (ts ≡ t ∷ rest) × (t.kind ≡ kind)

expect_or-Sound :
    (message : Token → ParseError) (kind : TokenKind)
    → IsProper kind
    → Sound (One kind) (expect_or message kind)
unfolding expect_or fail_at
expect_or-Sound message kind proper =
    Sound-when_kind kind proper (λ t us e. yields (refl, e)) (record { sound = λ ts. stops })

expect-Sound : (kind : TokenKind) → IsProper kind → Sound (One kind) (expect kind)
unfolding expect
expect-Sound kind proper = search (expect_or-Sound, proper)

module _ (parse_float : Bytes → ℕ × Bool) where
  -- Expressions of a level are read.
  abbrev Reading : Level → List Token → Expression → List Token → Type 0
  Reading l ts e rest = Derives parse_float l e ts rest

  -- Expressions behind tokens of a kind are read.
  abbrev ReadingMore : TokenKind → Level → List Token → List Expression → List Token → Type 0
  ReadingMore k l ts es rest = More parse_float k l (operands_of es) ts rest

  while_match-Sound :
      (k : TokenKind) (l : Level) {item : Parser Expression} (fuel : ℕ)
      → IsProper k
      → Sound (Reading l) item
      → Sound (ReadingMore k l) (while_match k item fuel)
  unfolding while_match
  while_match-Sound k l zero proper h = record { sound = λ ts. spent }
  while_match-Sound k l (suc fuel) proper h =
      Sound-when_kind k proper
        (λ t ts is. Yields-bind (h.sound ts) λ e us d.
          Yields-bind ((while_match-Sound k l fuel proper h).sound us)
            λ es rest more. yields {a = e ∷ es} (another is d more))
        (record { sound = λ ts. yields {a = []} no_other })

  -- Where a token of the kind is ahead, an expression is read behind it.
  while_match-more :
      (k : TokenKind) (l : Level) {item : Parser Expression} (fuel : ℕ)
      → IsProper k
      → Sound (Reading l) item
      → (ts : List Token) → is_kind k ts ≡ true
      → Yields
          (λ es rest.
            (f : Expression) × (fs : List Expression) × (es ≡ f ∷ fs)
            × ReadingMore k l ts (f ∷ fs) rest)
          (while_match k item fuel ts)
  while_match-more k l {item} fuel proper h ts is =
      Yields-both ((while_match-Sound k l fuel proper h).sound ts)
        (while_match-first k item fuel ts is) λ es rest more (f, fs, p). (f, fs, p, rw p at more)

  separated-Sound :
      (k : TokenKind) (l : Level) {item : Parser Expression} (fuel : ℕ)
      → IsProper k
      → Sound (Reading l) item
      → (ts : List Token)
      → Yields
          (λ es rest.
            (e : Expression) × (fs : List Expression) × (us : List Token) × (es ≡ e ∷ fs)
            × Reading l ts e us
            × ReadingMore k l us fs rest)
          (separated k item fuel ts)
  unfolding separated
  separated-Sound k l fuel proper h ts = Yields-bind (h.sound ts) λ e us d.
      Yields-bind ((while_match-Sound k l fuel proper h).sound us)
        λ es rest more. yields {a = e ∷ es} (e, es, us, refl, d, more)

  module _ (fuel : ℕ) {expr : Parser Expression} (h : Sound (Reading or_level) expr) where
    parse_arguments-Sound :
        Sound
          (λ ts es rest. Arguments parse_float (operands_of es) ts rest)
          (parse_arguments parse_float fuel expr)
    unfolding parse_arguments
    parse_arguments-Sound =
        Sound-if_ahead (λ ts. is_kind tok_rparen ts) (λ ts _. yields {a = []} no_arguments)
          (record {
            sound = λ ts.
                Yields-weaken (separated-Sound tok_comma or_level fuel tt h ts)
                  λ es rest (e, fs, us, p, d, more). rw p (arguments d more);
          })

    parse_after_name-Sound :
        (t : Token)
        → IsName t.kind
        → Sound
            (λ us e rest. Reading primary_level (t ∷ us) e rest)
            (parse_after_name parse_float fuel expr t.text)
    unfolding parse_after_name
    parse_after_name-Sound t named =
        Sound-when_kind tok_dot tt
          (λ dot us is_dot.
            Yields-bind ((expect_or-Sound (λ _. expected_property_name) tok_ident tt).sound us)
              λ name rest found.
                yields {a = expr_prop_access t.text name.text} {ts = rest}
                  (rw found.0 (property named is_dot found.1)))
          (Sound-when_kind tok_lparen tt
            (λ paren us is_paren. Yields-bind (parse_arguments-Sound.sound us) λ args vs d.
              Yields-bind ((expect-Sound tok_rparen tt).sound vs)
                λ close rest found. yields (call named is_paren (rw found.0 at d) found.1))
            (record { sound = λ us. yields (variable named) }))

    parse_literal_value-Sound : Sound (Reading primary_level) (parse_literal_value parse_float)
    unfolding parse_literal_value cur ahead primary_literal
    parse_literal_value-Sound = record { sound = from }
      where
        taken :
            (t : Token) (ts : List Token) (o : Option Value)
            → primary_literal parse_float t.kind t.text ≡ o
            → Yields (Reading primary_level (t ∷ ts)) (elim o [
              | some value ↦ parsed (expr_literal value) ts
              | none ↦ refused (unexpected_token t.kind t.pos)
            ])
        taken t ts none e = stops
        taken t ts (some value) e = yields (literal e)

        from :
            (ts : List Token)
            → Yields (Reading primary_level ts) (parse_literal_value parse_float ts)
        from [] = stops
        from (t ∷ ts) = taken t ts (primary_literal parse_float t.kind t.text) refl

    parse_primary-Sound : Sound (Reading primary_level) (parse_primary parse_float fuel expr)
    unfolding parse_primary
    parse_primary-Sound =
        Sound-when_kind tok_ident tt (λ t us is. (parse_after_name-Sound t (inl is)).sound us)
          (Sound-when_kind tok_type tt (λ t us is. (parse_after_name-Sound t (inr is)).sound us)
            (Sound-when_kind tok_param tt (λ t us is. yields {a = expr_param t.text} (param is))
              parse_literal_value-Sound))

    -- Behind a first part that was read from `ts` on.
    abbrev Behind : Level → Expression → Level → List Token → Expression → List Token → Type 0
    Behind l left l' us e rest = (ts : List Token) → Reading l ts left us → Reading l' ts e rest

    parse_comparison_end-Sound :
        (left : Expression)
        → Sound
            (Behind primary_level left comparison_level)
            (parse_comparison_end parse_float fuel expr left)
    unfolding parse_comparison_end parse_right_side cur ahead comparison_op
    parse_comparison_end-Sound left = record { sound = from }
      where
        taken :
            (t : Token) (us : List Token) (o : Option CompOp)
            → comparison_op t.kind ≡ o
            → Yields (Behind primary_level left comparison_level (t ∷ us)) (elim o [
              | none ↦ parsed left (t ∷ us)
              | some op ↦ parse_right_side parse_float fuel expr left op us
            ])
        taken t us none e = yields (λ ts d. alone d)
        taken t us (some op) e =
            Yields-bind (parse_primary-Sound.sound us)
              λ right rest d'. yields {a = expr_comparison left op right} (λ ts d. compares d e d')

        from :
            (us : List Token)
            → Yields
                (Behind primary_level left comparison_level us)
                (parse_comparison_end parse_float fuel expr left us)
        from [] = yields (λ ts d. alone d)
        from (t ∷ us) = taken t us (comparison_op t.kind) refl

    parse_comparison-Sound :
        Sound (Reading comparison_level) (parse_comparison parse_float fuel expr)
    unfolding parse_comparison
    parse_comparison-Sound = record {
      sound = λ ts. Yields-bind (parse_primary-Sound.sound ts) λ left us d.
          Yields-weaken ((parse_comparison_end-Sound left).sound us) λ e rest k. k ts d;
    }

    parse_not_expr-Sound : Sound (Reading not_level) (parse_not_expr parse_float fuel expr)
    unfolding parse_not_expr
    parse_not_expr-Sound =
        Sound-when_kind tok_not tt
          (λ t us is.
            Yields-bind (parse_comparison-Sound.sound us)
              λ e rest d. yields {a = expr_not e} (negated is d))
          (record {
            sound = λ ts. Yields-weaken (parse_comparison-Sound.sound ts) λ e rest d. plain d;
          })

    parse_and_operands-Sound :
        (left : Expression)
        → Sound (Behind not_level left and_level) (parse_and_operands parse_float fuel expr left)
    unfolding parse_and_operands
    parse_and_operands-Sound left =
        Sound-if_ahead (λ ts. is_kind tok_and ts)
          (λ us is.
            Yields-bind (while_match-more tok_and not_level fuel tt parse_not_expr-Sound us is)
              λ es rest (f, fs, p, more).
                yields {a = expr_and (operand left (operands_of es))} λ ts d. rw p (ands d more))
          (record { sound = λ us. yields (λ ts d. one_and d) })

    parse_and_expr-Sound : Sound (Reading and_level) (parse_and_expr parse_float fuel expr)
    unfolding parse_and_expr
    parse_and_expr-Sound = record {
      sound = λ ts.
          Yields-bind (parse_not_expr-Sound.sound ts) λ left us d.
            Yields-weaken ((parse_and_operands-Sound left).sound us) λ e rest k. k ts d;
    }

    parse_or_operands-Sound :
        (left : Expression)
        → Sound (Behind and_level left or_level) (parse_or_operands parse_float fuel expr left)
    unfolding parse_or_operands
    parse_or_operands-Sound left =
        Sound-if_ahead (λ ts. is_kind tok_or ts)
          (λ us is.
            Yields-bind (while_match-more tok_or and_level fuel tt parse_and_expr-Sound us is)
              λ es rest (f, fs, p, more).
                yields {a = expr_or (operand left (operands_of es))} λ ts d. rw p (ors d more))
          (record { sound = λ us. yields (λ ts d. one_or d) })

    parse_or_expr-Sound : Sound (Reading or_level) (parse_or_expr parse_float fuel expr)
    unfolding parse_or_expr
    parse_or_expr-Sound = record {
      sound = λ ts.
          Yields-bind (parse_and_expr-Sound.sound ts)
            λ left us d. Yields-weaken ((parse_or_operands-Sound left).sound us) λ e rest k. k ts d;
    }

  parse_expr-Sound : (fuel : ℕ) → Sound (Reading or_level) (parse_expr parse_float fuel)
  unfolding parse_expr
  parse_expr-Sound zero = record { sound = λ ts. spent }
  parse_expr-Sound (suc fuel) = parse_or_expr-Sound (suc fuel) (parse_expr-Sound fuel)

  -- What the parser of expressions returns is derived by the grammar, from the tokens it took.
  pub Derives-parse_expr :
      (fuel : ℕ) (ts : List Token) (e : Expression) (rest : List Token)
      → parse_expr parse_float fuel ts ≡ parsed e rest
      → Derives parse_float or_level e ts rest
  Derives-parse_expr fuel ts e rest h = Yields-parsed ((parse_expr-Sound fuel).sound ts) h
