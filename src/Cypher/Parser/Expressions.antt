-- ===== src/Cypher/Parser/Expressions.antt =====
-- cypher_parser.go: the expressions, from OR down to the primaries. A rule that comes back to whole
-- expressions takes their parser as an argument, and `parse_expr` closes the circle on fuel.
use goraphdb.Common.{ℕ, zero, suc, Bool, true, false, Option, none, some, List, [], ◌∷◌}
use goraphdb.Types.{Bytes, Value, null, bool, int, float, str}
use goraphdb.Cypher.Tokens.{TokenKind}
use goraphdb.Cypher.Tokens.{
  tok_and, tok_comma, tok_dot, tok_eq, tok_false, tok_float, tok_gt, tok_gte, tok_ident, tok_int,
  tok_lparen, tok_lt, tok_lte, tok_neq, tok_not, tok_null, tok_or, tok_param, tok_rparen,
  tok_string, tok_true, tok_type,
}
use goraphdb.Cypher.Ast.{
  CompOp, op_eq, op_neq, op_lt, op_gt, op_lte, op_gte, Expression, Expressions, expr_literal,
  expr_var_ref, expr_prop_access, expr_func_call, expr_comparison, expr_and, expr_or, expr_not,
  expr_param, no_more, operand,
}
use goraphdb.Cypher.Parser.{
  Parser, ◌>>=◌, ◌>>◌, pure, cur, ahead, is_kind, if_ahead, when_kind, expect, expect_or,
  while_match, separated, out_of_fuel, parsed, refused, unexpected_token, expected_property_name,
  parse_int,
}

abbrev pub operands_of : List Expression → Expressions
operands_of [] = no_more
operands_of (e ∷ es) = operand e (operands_of es)

unfoldable pub comparison_op : TokenKind → Option CompOp
comparison_op tok_eq = some op_eq
comparison_op tok_neq = some op_neq
comparison_op tok_lt = some op_lt
comparison_op tok_gt = some op_gt
comparison_op tok_lte = some op_lte
comparison_op tok_gte = some op_gte
comparison_op _ = none

-- `parse_float` is `strconv.ParseFloat(text, 64)`: the bits of the value, and whether there is no error.
module _ (parse_float : Bytes → ℕ × Bool) where
  -- The literals of `parsePrimary`, which drops the errors of the numbers.
  unfoldable pub primary_literal : TokenKind → Bytes → Option Value
  unfolding parse_int
  primary_literal tok_string text = some (str text)
  primary_literal tok_int text = some (int (parse_int text).0)
  primary_literal tok_float text = some (float (parse_float text).0)
  primary_literal tok_true text = some (bool true)
  primary_literal tok_false text = some (bool false)
  primary_literal tok_null text = some null
  primary_literal _ text = none

  -- The `switch` on literals.
  unfoldable pub parse_literal_value : Parser Expression
  unfolding primary_literal cur ahead
  parse_literal_value ts = elim (primary_literal (cur ts).kind (cur ts).text) [
    | some value ↦ parsed (expr_literal value) (ahead ts)
    | none ↦ refused (unexpected_token (cur ts).kind (cur ts).pos)
  ]

  -- `fuel` bounds the loops, `expr` is the parser of whole expressions.
  module _ (fuel : ℕ) (expr : Parser Expression) where
    -- The arguments of a call, up to the closing parenthesis.
    unfoldable pub parse_arguments : Parser (List Expression)
    unfolding is_kind if_ahead separated
    parse_arguments =
        if_ahead (λ ts. is_kind tok_rparen ts) (pure []) (separated tok_comma expr fuel)

    -- Behind an identifier: a property, a call or a variable.
    unfoldable pub parse_after_name : Bytes → Parser Expression
    unfolding when_kind expect expect_or parse_arguments
    parse_after_name name =
        when_kind tok_dot
          (λ dot. do
            property ← expect_or (λ _. expected_property_name) tok_ident
            pure (expr_prop_access name property.text))
          (when_kind tok_lparen
            (λ paren. do
              args ← parse_arguments
              expect tok_rparen
              pure (expr_func_call name (operands_of args)))
            (pure (expr_var_ref name)))

    unfoldable pub parse_primary : Parser Expression
    unfolding when_kind parse_after_name parse_literal_value
    parse_primary =
        when_kind tok_ident (λ t. parse_after_name t.text)
          (when_kind tok_type (λ t. parse_after_name t.text)
            (when_kind tok_param (λ t. pure (expr_param t.text)) parse_literal_value))

    -- Behind the left side and the operator.
    unfoldable pub parse_right_side : Expression → CompOp → Parser Expression
    unfolding parse_primary
    parse_right_side left op = do right ← parse_primary; pure (expr_comparison left op right)

    -- The `switch` on operators: one with a right side, or nothing.
    unfoldable pub parse_comparison_end : Expression → Parser Expression
    unfolding comparison_op cur ahead parse_right_side
    parse_comparison_end left ts = elim (comparison_op (cur ts).kind) [
      | none ↦ parsed left ts
      | some op ↦ parse_right_side left op (ahead ts)
    ]

    unfoldable pub parse_comparison : Parser Expression
    unfolding parse_primary parse_comparison_end
    parse_comparison = do left ← parse_primary; parse_comparison_end left

    unfoldable pub parse_not_expr : Parser Expression
    unfolding when_kind parse_comparison
    parse_not_expr =
        when_kind tok_not (λ t. do inner ← parse_comparison; pure (expr_not inner)) parse_comparison

    unfoldable pub parse_and_operands : Expression → Parser Expression
    unfolding is_kind if_ahead while_match parse_not_expr
    parse_and_operands left =
        if_ahead (λ ts. is_kind tok_and ts)
          (do
            rest ← while_match tok_and parse_not_expr fuel
            pure (expr_and (operand left (operands_of rest))))
          (pure left)

    unfoldable pub parse_and_expr : Parser Expression
    unfolding parse_not_expr parse_and_operands
    parse_and_expr = do left ← parse_not_expr; parse_and_operands left

    unfoldable pub parse_or_operands : Expression → Parser Expression
    unfolding is_kind if_ahead while_match parse_and_expr
    parse_or_operands left =
        if_ahead (λ ts. is_kind tok_or ts)
          (do
            rest ← while_match tok_or parse_and_expr fuel
            pure (expr_or (operand left (operands_of rest))))
          (pure left)

    unfoldable pub parse_or_expr : Parser Expression
    unfolding parse_and_expr parse_or_operands
    parse_or_expr = do left ← parse_and_expr; parse_or_operands left

  -- One unit of fuel for each call that is nested in another.
  unfoldable pub parse_expr : ℕ → Parser Expression
  unfolding parse_or_expr
  parse_expr zero = λ ts. out_of_fuel
  parse_expr (suc fuel) = parse_or_expr (suc fuel) (parse_expr fuel)
