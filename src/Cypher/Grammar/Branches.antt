-- ===== src/Cypher/Grammar/Branches.antt =====
-- cypher_parser.go: the parsers of expressions, branch by branch.
use goraphdb.Common.{ℕ, ◌≡◌, inl, inr, refl, Bool, true, false, some, List, [], ◌∷◌}
use goraphdb.Types.{Bytes, Value}
use goraphdb.Cypher.Tokens.{TokenKind, Token}
use goraphdb.Cypher.Tokens.{
  tok_and, tok_comma, tok_dot, tok_ident, tok_lparen, tok_not, tok_or, tok_param, tok_rparen,
  tok_type, tok_string, tok_int, tok_float, tok_true, tok_false, tok_null,
}
use goraphdb.Cypher.Kinds.{same_kind}
use goraphdb.Cypher.Ast.{
  CompOp, Expression, expr_literal, expr_param, expr_var_ref, expr_prop_access, expr_func_call,
  expr_comparison, expr_not, expr_and, expr_or, operand,
}
use goraphdb.Cypher.Parser.{
  Parser, parsed, cur, ahead, is_kind, if_ahead, when_kind, while_match, separated,
  expected_property_name,
}
use goraphdb.Cypher.Parser.Expressions.{
  operands_of, comparison_op, primary_literal, parse_arguments, parse_after_name,
  parse_literal_value, parse_primary, parse_right_side, parse_comparison_end, parse_comparison,
  parse_not_expr, parse_and_operands, parse_and_expr, parse_or_operands, parse_or_expr,
}
use goraphdb.Cypher.Grammar.{IsName, comparison_level, primary_level}
use goraphdb.Cypher.Grammar.Ends.{
  Ends, expect-yes, expect_or-yes, no_operator, goes_on, is_kind-no, is_kind-yes, is_operator,
  or_false,
}

module _ (parse_float : Bytes → ℕ × Bool) where
  pub literal_kinds :
      (k : TokenKind) (text : Bytes) (v : Value)
      → primary_literal parse_float k text ≡ some v
      → (same_kind k tok_ident ≡ false)
        × (same_kind k tok_type ≡ false)
        × (same_kind k tok_param ≡ false)
        × (same_kind k tok_not ≡ false)
        × (same_kind k tok_rparen ≡ false)
  unfolding primary_literal same_kind
  literal_kinds tok_string text v h = (refl, refl, refl, refl, refl)
  literal_kinds tok_int text v h = (refl, refl, refl, refl, refl)
  literal_kinds tok_float text v h = (refl, refl, refl, refl, refl)
  literal_kinds tok_true text v h = (refl, refl, refl, refl, refl)
  literal_kinds tok_false text v h = (refl, refl, refl, refl, refl)
  literal_kinds tok_null text v h = (refl, refl, refl, refl, refl)
  literal_kinds _ text v h = cc

  module _ (fuel : ℕ) (expr : Parser Expression) where
    pub parse_primary-literal :
        (t : Token) (rest : List Token) (v : Value)
        → primary_literal parse_float t.kind t.text ≡ some v
        → parse_primary parse_float fuel expr (t ∷ rest) ≡ parsed (expr_literal v) rest
    unfolding parse_primary parse_literal_value when_kind is_kind cur ahead
    parse_primary-literal t rest v h =
        let (no_ident, no_type, no_param, no_not, no_paren) = literal_kinds t.kind t.text v h in
        rw (no_ident, no_type, no_param, parse_literal_value, h) refl

    pub parse_primary-param :
        (t : Token) (rest : List Token)
        → t.kind ≡ tok_param
        → parse_primary parse_float fuel expr (t ∷ rest) ≡ parsed (expr_param t.text) rest
    unfolding parse_primary same_kind when_kind cur ahead
    parse_primary-param t rest h =
        rw
          (
            is_kind-no tok_ident tok_param t rest h refl,
            is_kind-no tok_type tok_param t rest h refl,
            is_kind-yes tok_param t rest h,
          )
          refl

    pub parse_primary-name :
        (t : Token) (rest : List Token)
        → IsName t.kind
        → parse_primary parse_float fuel expr (t ∷ rest)
          ≡ parse_after_name parse_float fuel expr t.text rest
    unfolding parse_primary same_kind when_kind cur ahead
    parse_primary-name t rest (inl h) = rw (is_kind-yes tok_ident t rest h) refl
    parse_primary-name t rest (inr h) =
        rw (is_kind-no tok_ident tok_type t rest h refl, is_kind-yes tok_type t rest h) refl

    pub parse_after_name-end :
        (name : Bytes) (rest : List Token)
        → Ends primary_level rest
        → parse_after_name parse_float fuel expr name rest ≡ parsed (expr_var_ref name) rest
    unfolding parse_after_name when_kind goes_on is_kind
    parse_after_name-end name rest h =
        let (no_dot, no_paren) = or_false (is_kind tok_dot rest) (is_kind tok_lparen rest) h in
        rw (no_dot, no_paren) refl

    pub parse_after_name-property :
        (name : Bytes) (dot key : Token) (rest : List Token)
        → dot.kind ≡ tok_dot
        → key.kind ≡ tok_ident
        → parse_after_name parse_float fuel expr name (dot ∷ key ∷ rest)
          ≡ parsed (expr_prop_access name key.text) rest
    unfolding parse_after_name when_kind cur ahead
    parse_after_name-property name dot key rest h k =
        rw
          (
            is_kind-yes tok_dot dot (key ∷ rest) h,
            expect_or-yes (λ _. expected_property_name) tok_ident key rest k,
          )
          refl

    pub parse_after_name-call :
        (name : Bytes) (args : List Expression) (open_paren close_paren : Token)
        (ts rest : List Token)
        → open_paren.kind ≡ tok_lparen
        → parse_arguments parse_float fuel expr ts ≡ parsed args (close_paren ∷ rest)
        → close_paren.kind ≡ tok_rparen
        → parse_after_name parse_float fuel expr name (open_paren ∷ ts)
          ≡ parsed (expr_func_call name (operands_of args)) rest
    unfolding parse_after_name when_kind cur ahead same_kind
    parse_after_name-call name args open_paren close_paren ts rest h k c =
        rw
          (
            is_kind-no tok_dot tok_lparen open_paren ts h refl,
            is_kind-yes tok_lparen open_paren ts h,
            k,
            expect-yes tok_rparen close_paren rest c,
          )
          refl

    pub parse_arguments-none :
        (ts : List Token)
        → is_kind tok_rparen ts ≡ true
        → parse_arguments parse_float fuel expr ts ≡ parsed [] ts
    unfolding parse_arguments if_ahead
    parse_arguments-none ts h = rw h refl

    pub parse_arguments-some :
        (e : Expression) (es : List Expression) (ts us rest : List Token)
        → is_kind tok_rparen ts ≡ false
        → expr ts ≡ parsed e us
        → while_match tok_comma expr fuel us ≡ parsed es rest
        → parse_arguments parse_float fuel expr ts ≡ parsed (e ∷ es) rest
    unfolding parse_arguments if_ahead separated
    parse_arguments-some e es ts us rest h k more = rw (h, k, more) refl

    pub parse_comparison-alone :
        (e : Expression) (ts rest : List Token)
        → parse_primary parse_float fuel expr ts ≡ parsed e rest
        → Ends comparison_level rest
        → parse_comparison parse_float fuel expr ts ≡ parsed e rest
    unfolding parse_comparison parse_comparison_end goes_on is_operator
    parse_comparison-alone e ts rest h ends =
        rw
          (
            h,
            parse_comparison_end,
            no_operator (cur rest).kind
                (or_false (is_operator (cur rest).kind) (goes_on primary_level (cur rest).kind)
                  ends).0,
          )
          refl

    pub parse_comparison-compares :
        (left right : Expression) (op : CompOp) (t : Token) (ts us rest : List Token)
        → parse_primary parse_float fuel expr ts ≡ parsed left (t ∷ us)
        → comparison_op t.kind ≡ some op
        → parse_primary parse_float fuel expr us ≡ parsed right rest
        → parse_comparison parse_float fuel expr ts ≡ parsed (expr_comparison left op right) rest
    unfolding parse_comparison parse_comparison_end parse_right_side cur ahead
    parse_comparison-compares left right op t ts us rest h o k =
        rw (h, parse_comparison_end, o, k) refl

    pub parse_not_expr-negated :
        (e : Expression) (t : Token) (ts rest : List Token)
        → t.kind ≡ tok_not
        → parse_comparison parse_float fuel expr ts ≡ parsed e rest
        → parse_not_expr parse_float fuel expr (t ∷ ts) ≡ parsed (expr_not e) rest
    unfolding parse_not_expr when_kind cur ahead
    parse_not_expr-negated e t ts rest n h = rw (is_kind-yes tok_not t ts n, h) refl

    pub parse_not_expr-plain :
        (e : Expression) (ts rest : List Token)
        → is_kind tok_not ts ≡ false
        → parse_comparison parse_float fuel expr ts ≡ parsed e rest
        → parse_not_expr parse_float fuel expr ts ≡ parsed e rest
    unfolding parse_not_expr when_kind
    parse_not_expr-plain e ts rest n h = rw (n, h) refl

    pub parse_and_expr-one :
        (e : Expression) (ts rest : List Token)
        → parse_not_expr parse_float fuel expr ts ≡ parsed e rest
        → is_kind tok_and rest ≡ false
        → parse_and_expr parse_float fuel expr ts ≡ parsed e rest
    unfolding parse_and_expr parse_and_operands if_ahead
    parse_and_expr-one e ts rest h n = rw (h, n) refl

    pub parse_and_expr-ands :
        (e : Expression) (es : List Expression) (ts us rest : List Token)
        → parse_not_expr parse_float fuel expr ts ≡ parsed e us
        → is_kind tok_and us ≡ true
        → while_match tok_and (parse_not_expr parse_float fuel expr) fuel us ≡ parsed es rest
        → parse_and_expr parse_float fuel expr ts
          ≡ parsed (expr_and (operand e (operands_of es))) rest
    unfolding parse_and_expr parse_and_operands if_ahead
    parse_and_expr-ands e es ts us rest h is more = rw (h, is, more) refl

    pub parse_or_expr-one :
        (e : Expression) (ts rest : List Token)
        → parse_and_expr parse_float fuel expr ts ≡ parsed e rest
        → is_kind tok_or rest ≡ false
        → parse_or_expr parse_float fuel expr ts ≡ parsed e rest
    unfolding parse_or_expr parse_or_operands if_ahead
    parse_or_expr-one e ts rest h n = rw (h, n) refl

    pub parse_or_expr-ors :
        (e : Expression) (es : List Expression) (ts us rest : List Token)
        → parse_and_expr parse_float fuel expr ts ≡ parsed e us
        → is_kind tok_or us ≡ true
        → while_match tok_or (parse_and_expr parse_float fuel expr) fuel us ≡ parsed es rest
        → parse_or_expr parse_float fuel expr ts
          ≡ parsed (expr_or (operand e (operands_of es))) rest
    unfolding parse_or_expr parse_or_operands if_ahead
    parse_or_expr-ors e es ts us rest h is more = rw (h, is, more) refl
