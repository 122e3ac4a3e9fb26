-- ===== src/Cypher/Parser/Queries.antt =====
-- cypher_parser.go: whole queries, and the entry point behind the lexer.
use goraphdb.Common.{ℕ, zero, suc, ◌+◌, Bool, Option, none, some, List, [], ◌∷◌, length}
use goraphdb.Common.Results.{ok, err}
use goraphdb.Types.{Bytes}
use goraphdb.Cypher.Tokens.{TokenKind, Token}
use goraphdb.Cypher.Tokens.{
  tok_comma, tok_create, tok_eof, tok_explain, tok_limit, tok_match, tok_merge, tok_on,
  tok_optional, tok_profile, tok_set, tok_skip,
}
use goraphdb.Cypher.Lexer.{tokenize}
use goraphdb.Cypher.Ast.{
  ExplainMode, explain_none, explain_only, explain_profile, Expression, Pattern, SetItem,
  CypherQuery, CypherWrite, CypherMerge,
}
use goraphdb.Cypher.Parser.{
  ParseError, Outcome, Parser, ◌>>=◌, ◌>>◌, pure, or_else, is_kind, fail_at, if_ahead, when_kind,
  expect, expect_or, separated, refused, out_of_fuel, unexpected_token, unexpected_after_create,
  unexpected_after_merge, expected_match_after_optional, skip_needs_integer, limit_needs_integer,
  merge_needs_node, merge_needs_label, expected_set_after_on_create, expected_set_after_on_match,
  expected_create_or_match, lexer_error,
}
use goraphdb.Cypher.Parser.Patterns.{parse_node_pattern, parse_pattern}
use goraphdb.Cypher.Parser.Clauses.{
  parse_count, parse_set_items, parse_return_clause, optional_where, optional_set, optional_delete,
  optional_return, optional_order,
}

-- The query of a `parsedCypher`.
pub data ParsedCypher : Type 0 where
  read : CypherQuery → ParsedCypher
  write : CypherWrite → ParsedCypher
  merge : CypherMerge → ParsedCypher

unfoldable pub parse_explain : Parser ExplainMode
unfolding when_kind
parse_explain =
    when_kind tok_explain (λ t. pure explain_only)
      (when_kind tok_profile (λ t. pure explain_profile) (pure explain_none))

-- The check that nothing is left.
unfoldable pub parse_end : (TokenKind → ℕ → ParseError) → Parser (Unit {0})
unfolding is_kind if_ahead fail_at
parse_end message =
    if_ahead (λ ts. is_kind tok_eof ts) (pure tt) (fail_at (λ t. message t.kind t.pos))

-- A MERGE pattern needs a label.
unfoldable pub require_label : List Bytes → Parser (Unit {0})
unfolding fail_at
require_label [] = fail_at (λ t. merge_needs_label t.pos)
require_label (l ∷ ls) = pure tt

module _ (parse_float : Bytes → ℕ × Bool) (fuel : ℕ) where
  unfoldable pub optional_match : Parser (Option Pattern × Option Expression)
  unfolding when_kind expect_or parse_pattern optional_where
  optional_match =
      when_kind tok_optional
        (λ t. do
          expect_or (λ _. expected_match_after_optional) tok_match
          pat ← parse_pattern parse_float fuel
          expr ← optional_where parse_float fuel
          pure (some pat, expr))
        (pure (none, none))

  unfoldable pub parse_query : Parser CypherQuery
  unfolding parse_explain expect parse_pattern optional_where optional_match optional_set
      optional_delete parse_return_clause optional_order parse_count parse_end
  parse_query = do
    explain ← parse_explain
    expect tok_match
    pat ← parse_pattern parse_float fuel
    expr ← optional_where parse_float fuel
    opt ← optional_match
    items ← optional_set parse_float fuel
    vars ← optional_delete parse_float fuel
    ret ← parse_return_clause parse_float fuel
    order ← optional_order parse_float fuel
    skip ← parse_count tok_skip skip_needs_integer
    limit ← parse_count tok_limit limit_needs_integer
    parse_end unexpected_token
    pure (record {
      explain = explain;
      match_pattern = pat;
      where_expr = expr;
      optional_match = opt.0;
      optional_where = opt.1;
      set_items = items;
      delete_vars = vars;
      returns = ret;
      order_by = order;
      skip = skip;
      limit = limit;
    })

  unfoldable pub parse_create_query : Parser CypherWrite
  unfolding expect separated parse_pattern optional_return parse_end
  parse_create_query = do
    expect tok_create
    creates ← separated tok_comma (parse_pattern parse_float fuel) fuel
    ret ← optional_return parse_float fuel
    parse_end unexpected_after_create
    pure (record { creates = creates; returns = ret })

  -- The SET items behind ON CREATE or ON MATCH.
  unfoldable pub parse_on_items : ParseError → Parser (List SetItem)
  unfolding expect_or parse_set_items
  parse_on_items message = do expect_or (λ _. message) tok_set; parse_set_items parse_float fuel

  -- Behind ON: the items of ON CREATE and of ON MATCH so far, one of them replaced.
  unfoldable pub parse_on_clause :
      List SetItem × List SetItem → Parser (List SetItem × List SetItem)
  unfolding when_kind fail_at parse_on_items
  parse_on_clause items =
      when_kind tok_create
        (λ t. do
          created ← parse_on_items (expected_set_after_on_create t.pos)
          pure (created, items.1))
        (when_kind tok_match
          (λ t. do
            matched ← parse_on_items (expected_set_after_on_match t.pos)
            pure (items.0, matched))
          (fail_at (λ t. expected_create_or_match t.pos t.kind)))

  -- The loop over ON clauses.
  unfoldable pub on_loop : ℕ → List SetItem × List SetItem → Parser (List SetItem × List SetItem)
  unfolding when_kind parse_on_clause
  on_loop zero items = λ ts. out_of_fuel
  on_loop (suc n) items =
      when_kind tok_on (λ t. do items' ← parse_on_clause items; on_loop n items') (pure items)

  unfoldable pub parse_merge_query : Parser CypherMerge
  unfolding expect or_else parse_node_pattern require_label on_loop optional_return parse_end
  parse_merge_query = do
    expect tok_merge
    node ← or_else merge_needs_node (parse_node_pattern parse_float fuel)
    require_label node.labels
    items ← on_loop fuel ([], [])
    ret ← optional_return parse_float fuel
    parse_end unexpected_after_merge
    pure (record {
      pattern = record { variable = node.variable; labels = node.labels; props = node.props };
      on_create_set = items.0;
      on_match_set = items.1;
      returns = ret;
    })

  unfoldable pub parse_any : Parser ParsedCypher
  unfolding is_kind if_ahead parse_query parse_create_query parse_merge_query
  parse_any =
      if_ahead (λ ts. is_kind tok_create ts) (do query ← parse_create_query; pure (write query))
        (if_ahead (λ ts. is_kind tok_merge ts) (do query ← parse_merge_query; pure (merge query))
          (do query ← parse_query; pure (read query)))

-- `parseCypher` behind the lexer.
unfoldable pub parse_tokens : (Bytes → ℕ × Bool) → List Token → Outcome ParsedCypher
unfolding parse_any
parse_tokens parse_float ts = parse_any parse_float (length ts + 2) ts

unfoldable pub parse_cypher : (Bytes → ℕ × Bool) → Bytes → Outcome ParsedCypher
unfolding tokenize parse_tokens
parse_cypher parse_float input = elim (tokenize input) [
  | none ↦ out_of_fuel
  | some (err e) ↦ refused (lexer_error e)
  | some (ok ts) ↦ parse_tokens parse_float ts
]
