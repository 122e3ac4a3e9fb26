-- ===== src/Cypher/Parser/Steady.antt =====
-- cypher_parser.go: how far the parsers of expressions move.
use goraphdb.Common.{[], ◌∷◌, ℕ, Bool, zero, suc, ◌≤◌, ◌<◌, List, Option, none, some, arith, length}
use goraphdb.Types.{Bytes, Value}
use goraphdb.Cypher.Tokens.{Token}
use goraphdb.Cypher.Tokens.{tok_and, tok_ident, tok_or, tok_param, tok_type}
use goraphdb.Cypher.Ast.{CompOp, Expression, expr_literal, expr_param}
use goraphdb.Cypher.Parser.{Parser, cur, ahead, parsed, refused, unexpected_token}
use goraphdb.Cypher.Parser.Expressions.{
  parse_arguments, parse_after_name, parse_primary, parse_right_side, parse_comparison_end,
  parse_comparison, parse_not_expr, parse_and_operands, parse_and_expr, parse_or_operands,
  parse_or_expr, parse_expr, primary_literal, parse_literal_value, comparison_op,
}
use goraphdb.Cypher.Parser.Steps.{
  Leaves, leaves, stops, Reads, Skips, Reads→Skips, Skips-pure, Skips-then, Skips-if_ahead,
  Reads-when_kind, while_match-Skips, reading, Skips-ahead, Reads-behind,
}

module _ (parse_float : Bytes → ℕ × Bool) where
  -- No literal starts with the mark of the end.
  parse_literal_value-Reads : {n : ℕ} → Reads n (parse_literal_value parse_float)
  unfolding parse_literal_value primary_literal cur ahead
  parse_literal_value-Reads = record { reads = from }
    where
      taken :
          (t : Token) (ts : List Token) (o : Option Value)
          → Leaves
              (λ m. m < suc (length ts))
              (elim o [
                | some value ↦ parsed (expr_literal value) ts
                | none ↦ refused (unexpected_token t.kind t.pos)
              ])
      taken t ts none = stops
      taken t ts (some value) = leaves (omega arith)

      from :
          {n : ℕ} (ts : List Token)
          → length ts < n
          → Leaves (λ m. m < length ts) (parse_literal_value parse_float ts)
      from [] few = stops
      from (t ∷ ts) few = taken t ts (primary_literal parse_float t.kind t.text)

  module _ {n : ℕ} (fuel : ℕ) {expr : Parser Expression} (enough : n < fuel)
      (h : Reads n expr) where
    earlier : n ≤ fuel
    earlier = omega arith

    in_time : suc n ≤ fuel
    in_time = omega arith

    parse_arguments-Skips : Skips n (parse_arguments parse_float fuel expr)
    unfolding parse_arguments
    parse_arguments-Skips = search (reading, tt, earlier) depth 12

    parse_after_name-Skips : (name : Bytes) → Skips n (parse_after_name parse_float fuel expr name)
    unfolding parse_after_name
    parse_after_name-Skips name = search (reading, tt, parse_arguments-Skips) depth 12

    pub parse_primary-Reads : Reads (suc n) (parse_primary parse_float fuel expr)
    unfolding parse_primary
    parse_primary-Reads =
        Reads-behind tok_ident tt (λ t. parse_after_name-Skips t.text)
          (Reads-behind tok_type tt (λ t. parse_after_name-Skips t.text)
            (Reads-when_kind tok_param tt (λ t. Skips-pure (expr_param t.text))
              parse_literal_value-Reads))

    parse_right_side-Reads :
        (left : Expression) (op : CompOp)
        → Reads (suc n) (parse_right_side parse_float fuel expr left op)
    unfolding parse_right_side
    parse_right_side-Reads left op = search (reading, parse_primary-Reads) depth 12

    parse_comparison_end-Skips :
        (left : Expression) → Skips (suc n) (parse_comparison_end parse_float fuel expr left)
    unfolding parse_comparison_end
    parse_comparison_end-Skips left = record {
      skips = λ ts few. from ts few (comparison_op (cur ts).kind);
    }
      where
        from :
            (ts : List Token)
            → length ts < suc n
            → (o : Option CompOp)
            → Leaves
                (λ m. m ≤ length ts)
                (elim o [
                  | none ↦ parsed left ts
                  | some op ↦ parse_right_side parse_float fuel expr left op (ahead ts)
                ])
        from ts few none = leaves (omega arith)
        from ts few (some op) =
            let behind = Skips-ahead (Reads→Skips (parse_right_side-Reads left op)) in
            behind.skips ts few

    parse_comparison-Reads : Reads (suc n) (parse_comparison parse_float fuel expr)
    unfolding parse_comparison
    parse_comparison-Reads =
        search (reading, parse_primary-Reads, parse_comparison_end-Skips) depth 12

    parse_not_expr-Reads : Reads (suc n) (parse_not_expr parse_float fuel expr)
    unfolding parse_not_expr
    parse_not_expr-Reads = search (reading, tt, parse_comparison-Reads) depth 12

    parse_and_operands-Skips :
        (left : Expression) → Skips (suc n) (parse_and_operands parse_float fuel expr left)
    unfolding parse_and_operands
    parse_and_operands-Skips left =
        Skips-if_ahead _
          (Skips-then (while_match-Skips tok_and tt fuel in_time (Reads→Skips parse_not_expr-Reads))
            λ rest. Skips-pure _)
          (Skips-pure left)

    parse_and_expr-Reads : Reads (suc n) (parse_and_expr parse_float fuel expr)
    unfolding parse_and_expr
    parse_and_expr-Reads = search (reading, parse_not_expr-Reads, parse_and_operands-Skips) depth 12

    parse_or_operands-Skips :
        (left : Expression) → Skips (suc n) (parse_or_operands parse_float fuel expr left)
    unfolding parse_or_operands
    parse_or_operands-Skips left =
        Skips-if_ahead _
          (Skips-then (while_match-Skips tok_or tt fuel in_time (Reads→Skips parse_and_expr-Reads))
            λ rest. Skips-pure _)
          (Skips-pure left)

    parse_or_expr-Reads : Reads (suc n) (parse_or_expr parse_float fuel expr)
    unfolding parse_or_expr
    parse_or_expr-Reads = search (reading, parse_and_expr-Reads, parse_or_operands-Skips) depth 12

  -- A call with `fuel` reads where fewer tokens than that are ahead.
  pub parse_expr-Reads : (fuel : ℕ) → Reads fuel (parse_expr parse_float fuel)
  unfolding parse_expr
  parse_expr-Reads zero = record { reads = λ ts few. absurd (omega arith) }
  parse_expr-Reads (suc fuel) = parse_or_expr-Reads (suc fuel) (omega arith) (parse_expr-Reads fuel)
