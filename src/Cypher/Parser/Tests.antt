-- ===== src/Cypher/Parser/Tests.antt =====
-- Runs of the parser (cypher_parser.go) on concrete queries, and the theorems on it at concrete inputs.
use goraphdb.Common.{ℕ, ◌≡◌, ◌≢◌, ◌↔◌, refl, Bool, false, none, some, List, [], ◌∷◌, arith}
use goraphdb.Types.{Bytes, int}
use goraphdb.Cypher.Tokens.{TokenKind, Token}
use goraphdb.Cypher.Tokens.{
  tok_and, tok_dot, tok_eof, tok_eq, tok_ident, tok_int, tok_lbrace, tok_rbrace, tok_colon,
  tok_lparen, tok_rparen, tok_merge, tok_not, tok_or,
}
use goraphdb.Cypher.Ast.{
  Expression, expr_and, expr_comparison, expr_literal, expr_not, expr_or, expr_prop_access,
  expr_var_ref, operand, no_more, op_eq, literal,
}
use goraphdb.Cypher.Kinds.{same_kind}
use goraphdb.Cypher.Parser.{cur, parsed, refused, out_of_fuel, merge_needs_label}
use goraphdb.Cypher.Parser.Expressions.{parse_expr}
use goraphdb.Cypher.Parser.Queries.{ParsedCypher, merge, parse_tokens, parse_cypher}
use goraphdb.Cypher.Parser.Fuel.{parse_cypher-ne-out_of_fuel}
use goraphdb.Cypher.Parser.Shape.Queries.{ParsedShape, ParsedShape-parse_tokens}
use goraphdb.Cypher.Grammar.{Derives, or_level}
use goraphdb.Cypher.Grammar.Ends.{goes_on}
use goraphdb.Cypher.Grammar.Complete.{parse_expr_iff}

-- No test reads a float.
abbrev no_floats : Bytes → ℕ × Bool
no_floats text = (0, false)

abbrev token : TokenKind → Bytes → Token
token kind text = record { kind = kind; text = text; pos = 0 }

-- NOT n.x = 1 AND m OR k
abbrev condition : List Token
condition =
    token tok_not []
    ∷ token tok_ident (b'n' ∷ [])
    ∷ token tok_dot []
    ∷ token tok_ident (b'x' ∷ [])
    ∷ token tok_eq []
    ∷ token tok_int (b'1' ∷ [])
    ∷ token tok_and []
    ∷ token tok_ident (b'm' ∷ [])
    ∷ token tok_or []
    ∷ token tok_ident (b'k' ∷ [])
    ∷ token tok_eof []
    ∷ []

-- OR holds AND, which holds NOT, which holds the comparison.
abbrev condition_tree : Expression
condition_tree = expr_or (
    operand
      (expr_and (
        operand
          (expr_not (
            expr_comparison (expr_prop_access (b'n' ∷ []) (b'x' ∷ [])) op_eq
              (expr_literal (int 1))))
          (operand (expr_var_ref (b'm' ∷ [])) no_more)))
      (operand (expr_var_ref (b'k' ∷ [])) no_more))

precedence : parse_expr no_floats 12 condition ≡ parsed condition_tree (token tok_eof [] ∷ [])
unfolding parse_expr same_kind
precedence = refl

parse_expr_iff_example :
    (parse_expr no_floats 12 condition ≡ parsed condition_tree (token tok_eof [] ∷ []))
    ↔ Derives no_floats or_level condition_tree condition (token tok_eof [] ∷ [])
unfolding goes_on same_kind cur
parse_expr_iff_example =
    parse_expr_iff no_floats 12 condition condition_tree (token tok_eof [] ∷ []) (omega arith) refl

-- MERGE (n:P {k:1 j:2,}), a property map without its comma and with one too many.
abbrev merge_node : List Token
merge_node =
    token tok_merge []
    ∷ token tok_lparen []
    ∷ token tok_ident (b'n' ∷ [])
    ∷ token tok_colon []
    ∷ token tok_ident (b'P' ∷ [])
    ∷ token tok_lbrace []
    ∷ token tok_ident (b'k' ∷ [])
    ∷ token tok_colon []
    ∷ token tok_int (b'1' ∷ [])
    ∷ token tok_ident (b'j' ∷ [])
    ∷ token tok_colon []
    ∷ token tok_int (b'2' ∷ [])
    ∷ token tok_rbrace []
    ∷ token tok_rparen []
    ∷ token tok_eof []
    ∷ []

abbrev merged : ParsedCypher
merged = merge (record {
  pattern = record {
    variable = b'n' ∷ [];
    labels = (b'P' ∷ []) ∷ [];
    props = some ((b'k' ∷ [], literal (int 1)) ∷ (b'j' ∷ [], literal (int 2)) ∷ []);
  };
  on_create_set = [];
  on_match_set = [];
  returns = none;
})

no_comma : parse_tokens no_floats merge_node ≡ parsed merged (token tok_eof [] ∷ [])
unfolding parse_tokens same_kind
no_comma = refl

ParsedShape-parse_tokens_example : ParsedShape merged
ParsedShape-parse_tokens_example =
    ParsedShape-parse_tokens no_floats merge_node merged (token tok_eof [] ∷ []) no_comma

-- MERGE (n)
unlabelled :
    parse_tokens no_floats (
      token tok_merge []
      ∷ token tok_lparen []
      ∷ token tok_ident (b'n' ∷ [])
      ∷ token tok_rparen []
      ∷ token tok_eof []
      ∷ [])
    ≡ refused (merge_needs_label 0)
unfolding parse_tokens same_kind
unlabelled = refl

-- MATCH (n)
parse_cypher-ne-out_of_fuel_example :
    parse_cypher no_floats (b'M' ∷ b'A' ∷ b'T' ∷ b'C' ∷ b'H' ∷ b' ' ∷ b'(' ∷ b'n' ∷ b')' ∷ [])
    ≢ out_of_fuel
parse_cypher-ne-out_of_fuel_example =
    parse_cypher-ne-out_of_fuel no_floats
      (b'M' ∷ b'A' ∷ b'T' ∷ b'C' ∷ b'H' ∷ b' ' ∷ b'(' ∷ b'n' ∷ b')' ∷ [])
