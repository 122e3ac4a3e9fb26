-- ===== src/Cypher/Parser/Clauses.antt =====
-- cypher_parser.go: the clauses RETURN, ORDER BY, SET, DELETE, WHERE, SKIP and LIMIT.
use goraphdb.Common.{ℕ, Bool, true, false, Option, none, some, List, []}
use goraphdb.Types.{Bytes}
use goraphdb.Cypher.Tokens.{TokenKind}
use goraphdb.Cypher.Tokens.{
  tok_as, tok_asc, tok_by, tok_comma, tok_delete, tok_desc, tok_dot, tok_eq, tok_ident, tok_int,
  tok_order, tok_return, tok_set, tok_where,
}
use goraphdb.Cypher.Ast.{Expression, SetItem, ReturnItem, ReturnClause, OrderItem}
use goraphdb.Cypher.Parser.{
  ParseError, Parser, ◌>>=◌, ◌>>◌, pure, or_else, is_kind, if_ahead, when_kind, expect, expect_or,
  separated, expected_alias, set_needs_variable, set_needs_dot, set_needs_property,
  set_needs_equals, set_value, delete_needs_variable, parse_int,
}
use goraphdb.Cypher.Parser.Expressions.{parse_primary, parse_expr}

-- The name behind AS, if it is there.
unfoldable pub parse_alias : Parser Bytes
unfolding when_kind expect_or
parse_alias =
    when_kind tok_as (λ t. do alias ← expect_or (λ _. expected_alias) tok_ident; pure alias.text)
      (pure [])

-- Whether DESC is there; ASC is read over.
unfoldable pub parse_desc : Parser Bool
unfolding when_kind
parse_desc = when_kind tok_desc (λ t. pure true) (when_kind tok_asc (λ t. pure false) (pure false))

-- A variable behind DELETE.
unfoldable pub parse_deleted : Parser Bytes
unfolding expect_or
parse_deleted = do
  name ← expect_or (λ t. delete_needs_variable t.kind t.pos) tok_ident
  pure name.text

-- SKIP or LIMIT with its number, 0 without it.
unfoldable pub parse_count : TokenKind → ParseError → Parser ℕ
unfolding when_kind expect_or parse_int
parse_count kind message =
    when_kind kind (λ t. do count ← expect_or (λ _. message) tok_int; pure (parse_int count.text).0)
      (pure 0)

module _ (parse_float : Bytes → ℕ × Bool) (fuel : ℕ) where
  unfoldable pub parse_return_item : Parser ReturnItem
  unfolding parse_expr parse_alias
  parse_return_item = do
    expr ← parse_expr parse_float fuel
    alias ← parse_alias
    pure (record { expr = expr; alias = alias })

  unfoldable pub parse_return_clause : Parser ReturnClause
  unfolding expect separated parse_return_item
  parse_return_clause = do expect tok_return; separated tok_comma parse_return_item fuel

  unfoldable pub parse_order_item : Parser OrderItem
  unfolding parse_expr parse_desc
  parse_order_item = do
    expr ← parse_expr parse_float fuel
    desc ← parse_desc
    pure (record { expr = expr; desc = desc })

  unfoldable pub parse_order_items : Parser (List OrderItem)
  unfolding separated parse_order_item
  parse_order_items = separated tok_comma parse_order_item fuel

  -- The value of an assignment, which is a primary.
  unfoldable pub parse_set_value : Parser Expression
  unfolding parse_primary parse_expr or_else
  parse_set_value = or_else set_value (parse_primary parse_float fuel (parse_expr parse_float fuel))

  unfoldable pub parse_set_item : Parser SetItem
  unfolding expect_or parse_set_value
  parse_set_item = do
    variable ← expect_or (λ t. set_needs_variable t.kind t.pos) tok_ident
    expect_or (λ t. set_needs_dot t.pos) tok_dot
    property ← expect_or (λ t. set_needs_property t.kind t.pos) tok_ident
    expect_or (λ t. set_needs_equals variable.text property.text t.pos) tok_eq
    value ← parse_set_value
    pure (record { variable = variable.text; property = property.text; value = value })

  unfoldable pub parse_set_items : Parser (List SetItem)
  unfolding separated parse_set_item
  parse_set_items = separated tok_comma parse_set_item fuel

  unfoldable pub parse_set_clause : Parser (List SetItem)
  unfolding expect parse_set_items
  parse_set_clause = do expect tok_set; parse_set_items

  unfoldable pub parse_delete_clause : Parser (List Bytes)
  unfolding expect separated parse_deleted
  parse_delete_clause = do expect tok_delete; separated tok_comma parse_deleted fuel

  -- The clauses that may be missing.
  unfoldable pub optional_where : Parser (Option Expression)
  unfolding when_kind parse_expr
  optional_where =
      when_kind tok_where (λ t. do expr ← parse_expr parse_float fuel; pure (some expr)) (pure none)

  unfoldable pub optional_set : Parser (List SetItem)
  unfolding is_kind if_ahead parse_set_clause
  optional_set = if_ahead (λ ts. is_kind tok_set ts) parse_set_clause (pure [])

  unfoldable pub optional_delete : Parser (List Bytes)
  unfolding is_kind if_ahead parse_delete_clause
  optional_delete = if_ahead (λ ts. is_kind tok_delete ts) parse_delete_clause (pure [])

  unfoldable pub optional_return : Parser (Option ReturnClause)
  unfolding is_kind if_ahead parse_return_clause
  optional_return =
      if_ahead (λ ts. is_kind tok_return ts) (do ret ← parse_return_clause; pure (some ret))
        (pure none)

  unfoldable pub optional_order : Parser (List OrderItem)
  unfolding when_kind expect parse_order_items
  optional_order = when_kind tok_order (λ t. do expect tok_by; parse_order_items) (pure [])
