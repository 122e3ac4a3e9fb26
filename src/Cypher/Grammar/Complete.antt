-- ===== src/Cypher/Grammar/Complete.antt =====
-- cypher_parser.go: what the grammar of expressions derives, against the parsers.
use goraphdb.Common.{
  ℕ, zero, suc, ◌≤◌, ◌<◌, ◌≡◌, ◌↔◌, refl, sym, ap, ◌∙◌, Bool, true, false, some, List, [], ◌∷◌,
  arith, length,
}
use goraphdb.Types.{Bytes}
use goraphdb.Cypher.Tokens.{TokenKind, Token, tok_comma, tok_rparen}
use goraphdb.Cypher.Kinds.{same_kind}
use goraphdb.Cypher.Ast.{
  Expression, Expressions, CompOp, operand, expr_func_call, expr_and, expr_or,
}
use goraphdb.Cypher.Parser.{Parser, Outcome, parsed, cur, ahead, is_kind, while_match, when_kind}
use goraphdb.Cypher.Parser.Expressions.{operands_of, comparison_op, parse_arguments, parse_expr}
use goraphdb.Cypher.Grammar.{
  Level, Derives, More, Arguments, or_level, primary_level, literal, param, variable, property,
  call, alone, compares, plain, negated, one_and, ands, one_or, ors, no_other, another,
  no_arguments, arguments,
}
use goraphdb.Cypher.Grammar.Sound.{Derives-parse_expr}
use goraphdb.Cypher.Grammar.Ends.{
  Derives-shorter, Ends, goes_on, is_kind-no, is_kind-yes, is_operator, parser_at,
}
use goraphdb.Cypher.Grammar.Branches.{
  parse_after_name-call, parse_after_name-end, parse_after_name-property, parse_and_expr-ands,
  parse_and_expr-one, parse_arguments-none, parse_arguments-some, parse_comparison-alone,
  parse_comparison-compares, parse_not_expr-negated, parse_not_expr-plain, parse_or_expr-one,
  parse_or_expr-ors, parse_primary-literal, parse_primary-name, parse_primary-param,
}
use goraphdb.Cypher.Grammar.Follows.{
  Derives-no_paren, Ends-below, Ends-no_and, Ends-no_or, Ends-token, More-Ends, comparison-no_not,
  operator-Ends,
}

while_match-stop :
    {A : Type 0} (k : TokenKind) (item : Parser A) (n : ℕ) (ts : List Token)
    → is_kind k ts ≡ false
    → while_match k item (suc n) ts ≡ parsed [] ts
unfolding while_match when_kind
while_match-stop k item n ts h = rw h refl

while_match-next :
    {A : Type 0} (k : TokenKind) (item : Parser A) (n : ℕ) (t : Token) (a : A) (others : List A)
    (ts us rest : List Token)
    → t.kind ≡ k
    → item ts ≡ parsed a us
    → while_match k item n us ≡ parsed others rest
    → while_match k item (suc n) (t ∷ ts) ≡ parsed (a ∷ others) rest
unfolding while_match when_kind cur ahead
while_match-next k item n t a others ts us rest h e r = rw (is_kind-yes k t ts h, e, r) refl

Ends-operator :
    (t : Token) (us : List Token) (op : CompOp)
    → comparison_op t.kind ≡ some op
    → Ends primary_level (t ∷ us)
unfolding cur
Ends-operator t us op h = operator-Ends t.kind op h

module _ (parse_float : Bytes → ℕ × Bool) where
  -- A list that the parsers return, for the operands of a tree.
  record Listed (es : Expressions) (r : Outcome (List Expression)) (rest : List Token)
      : Type 0 where
    list : List Expression
    lists : operands_of list ≡ es
    returns : r ≡ parsed list rest

  More-starts :
      {k : TokenKind} {l : Level} {e : Expression} {es : Expressions} {ts rest : List Token}
      → More parse_float k l (operand e es) ts rest
      → is_kind k ts ≡ true
  More-starts (another {k} {t = t} {ts = ts} is d more) = is_kind-yes k t ts is

  mutual
    unfolding parse_expr goes_on same_kind is_operator

    parser_at-Derives :
        {l : Level} {e : Expression} {ts rest : List Token}
        → Derives parse_float l e ts rest
        → (fuel : ℕ) → length ts ≤ fuel
        → Ends l rest
        → parser_at parse_float l fuel ts ≡ parsed e rest
    parser_at-Derives (literal {t} {rest} {value = v} h) fuel enough ends =
        parse_primary-literal parse_float (suc fuel) (parse_expr parse_float fuel) t rest v h
    parser_at-Derives (param {t} {rest} h) fuel enough ends =
        parse_primary-param parse_float (suc fuel) (parse_expr parse_float fuel) t rest h
    parser_at-Derives (variable {t} {rest} n) fuel enough ends =
        parse_primary-name parse_float (suc fuel) (parse_expr parse_float fuel) t rest n
        ∙ parse_after_name-end parse_float (suc fuel) (parse_expr parse_float fuel) t.text rest ends
    parser_at-Derives (property {t} {dot} {name} {rest} n d p) fuel enough ends =
        parse_primary-name parse_float (suc fuel) (parse_expr parse_float fuel) t
          (dot ∷ name ∷ rest) n
        ∙ parse_after_name-property parse_float (suc fuel) (parse_expr parse_float fuel) t.text dot
            name rest d p
    parser_at-Derives (call n o args c) zero enough ends = absurd (omega arith)
    parser_at-Derives (call {t} {open_paren} {close_paren} {args = es} {ts} {rest} n o args c)
          (suc fuel) enough ends =
        let found =
          parse_arguments-Arguments args fuel (suc (suc fuel)) (omega arith) (omega arith) c in
        parse_primary-name parse_float (suc (suc fuel)) (parse_expr parse_float (suc fuel)) t
          (open_paren ∷ ts) n
        ∙ (parse_after_name-call parse_float (suc (suc fuel)) (parse_expr parse_float (suc fuel))
              t.text found.list open_paren close_paren ts rest o found.returns c
            ∙ ap (λ others. parsed (expr_func_call t.text others) rest) found.lists)
    parser_at-Derives (alone {e} {ts} {rest} d) fuel enough ends =
        parse_comparison-alone parse_float (suc fuel) (parse_expr parse_float fuel) e ts rest
          (parser_at-Derives d fuel enough ((Ends-below rest).2 ends)) ends
    parser_at-Derives (compares {left} {right} {op} {t} {ts} {us} {rest} d o d') fuel enough ends =
        parse_comparison-compares parse_float (suc fuel) (parse_expr parse_float fuel) left right op
          t ts us rest (parser_at-Derives d fuel enough (Ends-operator t us op o)) o
          (parser_at-Derives d' fuel (omega (arith, Derives-shorter parse_float d))
            ((Ends-below rest).2 ends))
    parser_at-Derives (plain {e} {ts} {rest} d) fuel enough ends =
        parse_not_expr-plain parse_float (suc fuel) (parse_expr parse_float fuel) e ts rest
          (comparison-no_not parse_float d) (parser_at-Derives d fuel enough ends)
    parser_at-Derives (negated {e} {t} {ts} {rest} n d) fuel enough ends =
        parse_not_expr-negated parse_float (suc fuel) (parse_expr parse_float fuel) e t ts rest n
          (parser_at-Derives d fuel (omega arith) ends)
    parser_at-Derives (one_and {e} {ts} {rest} d) fuel enough ends =
        parse_and_expr-one parse_float (suc fuel) (parse_expr parse_float fuel) e ts rest
          (parser_at-Derives d fuel enough ((Ends-below rest).1 ends)) (Ends-no_and rest ends)
    parser_at-Derives (ands {e} {f} {es} {ts} {us} {rest} d more) fuel enough ends =
        let less = Derives-shorter parse_float d in
        let ended = (Ends-below rest).1 ends in
        let found =
          while_match-More more fuel (suc fuel) (omega arith) (omega arith) refl ended
            (Ends-no_and rest ends) in
        parse_and_expr-ands parse_float (suc fuel) (parse_expr parse_float fuel) e found.list ts us
          rest (parser_at-Derives d fuel enough (More-Ends parse_float more refl ended))
          (More-starts more) found.returns
        ∙ ap (λ others. parsed (expr_and (operand e others)) rest) found.lists
    parser_at-Derives (one_or {e} {ts} {rest} d) fuel enough ends =
        parse_or_expr-one parse_float (suc fuel) (parse_expr parse_float fuel) e ts rest
          (parser_at-Derives d fuel enough ((Ends-below rest).0 ends)) (Ends-no_or rest ends)
    parser_at-Derives (ors {e} {f} {es} {ts} {us} {rest} d more) fuel enough ends =
        let less = Derives-shorter parse_float d in
        let ended = (Ends-below rest).0 ends in
        let found =
          while_match-More more fuel (suc fuel) (omega arith) (omega arith) refl ended
            (Ends-no_or rest ends) in
        parse_or_expr-ors parse_float (suc fuel) (parse_expr parse_float fuel) e found.list ts us
          rest (parser_at-Derives d fuel enough (More-Ends parse_float more refl ended))
          (More-starts more) found.returns
        ∙ ap (λ others. parsed (expr_or (operand e others)) rest) found.lists

    while_match-More :
        {k : TokenKind} {l : Level} {es : Expressions} {ts rest : List Token}
        → More parse_float k l es ts rest
        → (fuel n : ℕ) → length ts ≤ fuel
        → length ts < n
        → goes_on l k ≡ false
        → Ends l rest
        → is_kind k rest ≡ false
        → Listed es (while_match k (parser_at parse_float l fuel) n ts) rest
    while_match-More more fuel zero enough in_time h ends other = absurd (omega arith)
    while_match-More (no_other {k} {l} {rest}) fuel (suc n) enough in_time h ends other = record {
      list = [];
      lists = refl;
      returns = while_match-stop k (parser_at parse_float l fuel) n rest other;
    }
    while_match-More (another {k} {l} {e} {es} {t} {ts} {us} {rest} is d more) fuel (suc n) enough
          in_time h ends other =
        let less = Derives-shorter parse_float d in
        let found = while_match-More more fuel n (omega arith) (omega arith) h ends other in
        record {
          list = e ∷ found.list;
          lists = ap (λ others. operand e others) found.lists;
          returns =
              while_match-next k (parser_at parse_float l fuel) n t e found.list ts us rest is
                (parser_at-Derives d fuel (omega arith) (More-Ends parse_float more h ends))
                found.returns;
        }

    parse_arguments-Arguments :
        {es : Expressions} {ts rest : List Token} {close_paren : Token}
        → Arguments parse_float es ts (close_paren ∷ rest)
        → (fuel n : ℕ) → length ts ≤ fuel
        → length ts < n
        → close_paren.kind ≡ tok_rparen
        → Listed es
            (parse_arguments parse_float n (parse_expr parse_float (suc fuel)) ts)
            (close_paren ∷ rest)
    parse_arguments-Arguments {rest = rest} {close_paren} no_arguments fuel n enough in_time c =
        record {
          list = [];
          lists = refl;
          returns =
              parse_arguments-none parse_float n (parse_expr parse_float (suc fuel))
                (close_paren ∷ rest) (is_kind-yes tok_rparen close_paren rest c);
        }
    parse_arguments-Arguments {rest = rest} {close_paren} (arguments {e} {es} {ts} {us} d more) fuel
          n enough in_time c =
        let less = Derives-shorter parse_float d in
        let ended = Ends-token or_level tok_rparen close_paren rest refl c in
        let found =
          while_match-More more fuel n (omega arith) (omega arith) refl ended
            (is_kind-no tok_comma tok_rparen close_paren rest c refl) in
        record {
          list = e ∷ found.list;
          lists = ap (λ others. operand e others) found.lists;
          returns =
              parse_arguments-some parse_float n (parse_expr parse_float (suc fuel)) e found.list ts
                us (close_paren ∷ rest) (Derives-no_paren parse_float d)
                (parser_at-Derives d fuel enough (More-Ends parse_float more refl ended))
                found.returns;
        }

  -- What the grammar derives is what the parser returns, on any fuel above the number of tokens, if the
  -- expression cannot go on at the token behind it.
  pub parse_expr-Derives :
      (fuel : ℕ) (ts : List Token) (e : Expression) (rest : List Token)
      → length ts < fuel
      → Ends or_level rest
      → Derives parse_float or_level e ts rest
      → parse_expr parse_float fuel ts ≡ parsed e rest
  unfolding parse_expr
  parse_expr-Derives zero ts e rest enough ends d = absurd (omega arith)
  parse_expr-Derives (suc fuel) ts e rest enough ends d =
      parser_at-Derives d fuel (omega arith) ends

  -- Where the expression cannot go on at the token behind it and the fuel exceeds the tokens, the parser
  -- returns exactly what the grammar derives, which is that of the comment at the head of the file with
  -- TYPE as a name, calls of any number of arguments, and parameters.
  pub parse_expr_iff :
      (fuel : ℕ) (ts : List Token) (e : Expression) (rest : List Token)
      → length ts < fuel
      → Ends or_level rest
      → (parse_expr parse_float fuel ts ≡ parsed e rest) ↔ Derives parse_float or_level e ts rest
  parse_expr_iff fuel ts e rest enough ends =
      (Derives-parse_expr parse_float fuel ts e rest, parse_expr-Derives fuel ts e rest enough ends)

  -- Tokens that end where no expression can go on have one tree at most.
  pub Derives-unique :
      (ts : List Token) (e f : Expression) (rest : List Token)
      → Ends or_level rest
      → Derives parse_float or_level e ts rest
      → Derives parse_float or_level f ts rest
      → e ≡ f
  Derives-unique ts e f rest ends d d' = same (
      sym (parse_expr-Derives (suc (length ts)) ts e rest (omega arith) ends d)
      ∙ parse_expr-Derives (suc (length ts)) ts f rest (omega arith) ends d')
    where
      same : parsed e rest ≡ parsed f rest → e ≡ f
      same h = cc
