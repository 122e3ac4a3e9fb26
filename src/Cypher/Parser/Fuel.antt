-- ===== src/Cypher/Parser/Fuel.antt =====
-- cypher_parser.go: how far the clauses and the queries move, and the fuel of the entry point.
use goraphdb.Common.{
  Bool, ℕ, zero, suc, ◌+◌, ◌≤◌, ◌≢◌, List, [], ◌∷◌, Option, none, some, arith, length,
}
use goraphdb.Common.Results.{Result, ok, err}
use goraphdb.Types.{Bytes}
use goraphdb.Cypher.Tokens.{TokenKind, Token}
use goraphdb.Cypher.Tokens.{
  tok_comma, tok_create, tok_delete, tok_match, tok_merge, tok_on, tok_return, tok_set,
}
use goraphdb.Cypher.Lexer.{tokenize}
use goraphdb.Cypher.Streams.{IsLexed, tokenize-IsLexed}
use goraphdb.Cypher.Ast.{SetItem}
use goraphdb.Cypher.Parser.{
  ParseError, out_of_fuel, refused, lexer_error, unexpected_token, unexpected_after_create,
  unexpected_after_merge, merge_needs_node,
}
use goraphdb.Cypher.Parser.Expressions.{parse_expr}
use goraphdb.Cypher.Parser.Patterns.{parse_pattern}
use goraphdb.Cypher.Parser.Clauses.{
  parse_alias, parse_desc, parse_deleted, parse_count, parse_return_item, parse_return_clause,
  parse_order_item, parse_order_items, parse_set_value, parse_set_item, parse_set_items,
  parse_set_clause, parse_delete_clause, optional_where, optional_set, optional_delete,
  optional_return, optional_order,
}
use goraphdb.Cypher.Parser.Queries.{
  parse_explain, parse_end, require_label, optional_match, parse_query, parse_create_query,
  parse_on_items, parse_on_clause, on_loop, parse_merge_query, parse_any, parse_tokens,
  parse_cypher,
}
use goraphdb.Cypher.Parser.Steps.{
  Leaves-ne, Skips-behind, Reads, Skips, Reads→Skips, Skips-pure, Reads-then, Skips-then,
  Reads-mono, Skips-none, Skips-mono, Skips-if_ahead, reading, separated-Reads, expect-Reads,
  Reads-or_else,
}
use goraphdb.Cypher.Parser.Steady.{parse_primary-Reads, parse_expr-Reads}
use goraphdb.Cypher.Parser.Shrinking.{parse_node_pattern-Reads, parse_pattern-Reads}

parse_alias-Skips : {n : ℕ} → Skips n parse_alias
unfolding parse_alias
parse_alias-Skips = search (reading, tt) depth 12

parse_desc-Skips : {n : ℕ} → Skips n parse_desc
unfolding parse_desc
parse_desc-Skips = search (reading, tt) depth 12

parse_deleted-Reads : {n : ℕ} → Reads n parse_deleted
unfolding parse_deleted
parse_deleted-Reads = search (reading, tt) depth 12

parse_count-Skips :
    {n : ℕ} (kind : TokenKind) (message : ParseError) → Skips n (parse_count kind message)
unfolding parse_count
parse_count-Skips kind message = search (reading, tt) depth 12

parse_explain-Skips : {n : ℕ} → Skips n parse_explain
unfolding parse_explain
parse_explain-Skips = search (reading, tt) depth 12

parse_end-Skips : {n : ℕ} (message : TokenKind → ℕ → ParseError) → Skips n (parse_end message)
unfolding parse_end
parse_end-Skips message = search reading depth 12

require_label-Skips : {n : ℕ} (labels : List Bytes) → Skips n (require_label labels)
unfolding require_label
require_label-Skips [] = search reading
require_label-Skips (l ∷ ls) = search reading

module _ (parse_float : Bytes → ℕ × Bool) {n : ℕ} (fuel : ℕ) (enough : suc n ≤ fuel) where
  expr-Reads : Reads n (parse_expr parse_float fuel)
  expr-Reads = Reads-mono (omega arith) (parse_expr-Reads parse_float fuel)

  pattern-Reads : Reads n (parse_pattern parse_float fuel)
  pattern-Reads = Reads-mono (omega arith) (parse_pattern-Reads parse_float fuel)

  earlier : n ≤ fuel
  earlier = omega arith

  parse_return_item-Reads : Reads n (parse_return_item parse_float fuel)
  unfolding parse_return_item
  parse_return_item-Reads = search (reading, expr-Reads, parse_alias-Skips) depth 12

  parse_return_clause-Reads : Reads n (parse_return_clause parse_float fuel)
  unfolding parse_return_clause
  parse_return_clause-Reads =
      Reads-then (expect-Reads tok_return tt)
        λ t. Reads→Skips (separated-Reads tok_comma tt fuel earlier parse_return_item-Reads)

  parse_order_item-Reads : Reads n (parse_order_item parse_float fuel)
  unfolding parse_order_item
  parse_order_item-Reads = search (reading, expr-Reads, parse_desc-Skips) depth 12

  parse_order_items-Reads : Reads n (parse_order_items parse_float fuel)
  unfolding parse_order_items
  parse_order_items-Reads = separated-Reads tok_comma tt fuel earlier parse_order_item-Reads

  parse_set_value-Reads : Reads n (parse_set_value parse_float fuel)
  unfolding parse_set_value
  parse_set_value-Reads =
      Reads-or_else _
        (Reads-mono (omega arith) (parse_primary-Reads parse_float fuel enough expr-Reads))

  parse_set_item-Reads : Reads n (parse_set_item parse_float fuel)
  unfolding parse_set_item
  parse_set_item-Reads = search (reading, tt, parse_set_value-Reads) depth 20

  parse_set_items-Reads : Reads n (parse_set_items parse_float fuel)
  unfolding parse_set_items
  parse_set_items-Reads = separated-Reads tok_comma tt fuel earlier parse_set_item-Reads

  parse_set_clause-Reads : Reads n (parse_set_clause parse_float fuel)
  unfolding parse_set_clause
  parse_set_clause-Reads =
      Reads-then (expect-Reads tok_set tt) λ t. Reads→Skips parse_set_items-Reads

  parse_delete_clause-Reads : Reads n (parse_delete_clause parse_float fuel)
  unfolding parse_delete_clause
  parse_delete_clause-Reads =
      Reads-then (expect-Reads tok_delete tt)
        λ t. Reads→Skips (separated-Reads tok_comma tt fuel earlier parse_deleted-Reads)

  optional_where-Skips : Skips n (optional_where parse_float fuel)
  unfolding optional_where
  optional_where-Skips = search (reading, tt, expr-Reads) depth 12

  optional_set-Skips : Skips n (optional_set parse_float fuel)
  unfolding optional_set
  optional_set-Skips = search (reading, parse_set_clause-Reads) depth 12

  optional_delete-Skips : Skips n (optional_delete parse_float fuel)
  unfolding optional_delete
  optional_delete-Skips = search (reading, parse_delete_clause-Reads) depth 12

  optional_return-Skips : Skips n (optional_return parse_float fuel)
  unfolding optional_return
  optional_return-Skips = search (reading, parse_return_clause-Reads) depth 12

  optional_order-Skips : Skips n (optional_order parse_float fuel)
  unfolding optional_order
  optional_order-Skips = search (reading, tt, parse_order_items-Reads) depth 12

  optional_match-Skips : Skips n (optional_match parse_float fuel)
  unfolding optional_match
  optional_match-Skips = search (reading, tt, pattern-Reads, optional_where-Skips) depth 20

  parse_query-Skips : Skips n (parse_query parse_float fuel)
  unfolding parse_query
  parse_query-Skips = Skips-then parse_explain-Skips λ explain.
      Skips-then (Reads→Skips (expect-Reads tok_match tt)) λ t.
        Skips-then (Reads→Skips pattern-Reads) λ pat. Skips-then optional_where-Skips λ expr.
          Skips-then optional_match-Skips λ opt. Skips-then optional_set-Skips λ items.
            Skips-then optional_delete-Skips λ vars.
              Skips-then (Reads→Skips parse_return_clause-Reads) λ ret.
                Skips-then optional_order-Skips λ order. Skips-then (parse_count-Skips _ _) λ skip.
                  Skips-then (parse_count-Skips _ _)
                    λ limit. Skips-then (parse_end-Skips unexpected_token) λ end. Skips-pure _

  parse_create_query-Skips : Skips n (parse_create_query parse_float fuel)
  unfolding parse_create_query
  parse_create_query-Skips = Skips-then (Reads→Skips (expect-Reads tok_create tt)) λ t.
      Skips-then (Reads→Skips (separated-Reads tok_comma tt fuel earlier pattern-Reads)) λ creates.
        Skips-then optional_return-Skips
          λ ret. Skips-then (parse_end-Skips unexpected_after_create) λ end. Skips-pure _

  parse_on_items-Reads : (message : ParseError) → Reads n (parse_on_items parse_float fuel message)
  unfolding parse_on_items
  parse_on_items-Reads message = search (reading, tt, parse_set_items-Reads) depth 12

  parse_on_clause-Skips :
      (items : List SetItem × List SetItem) → Skips n (parse_on_clause parse_float fuel items)
  unfolding parse_on_clause
  parse_on_clause-Skips items = search (reading, tt, parse_on_items-Reads) depth 12

module _ (parse_float : Bytes → ℕ × Bool) (fuel : ℕ) where
  on_loop-Skips :
      (n : ℕ) (items : List SetItem × List SetItem)
      → n ≤ fuel
      → Skips n (on_loop parse_float fuel n items)
  unfolding on_loop
  on_loop-Skips zero items enough = Skips-none _
  on_loop-Skips (suc n) items enough =
      Skips-behind tok_on tt
        (λ t.
          Skips-then (parse_on_clause-Skips parse_float fuel enough items)
            λ items'. on_loop-Skips n items' (omega arith))
        (Skips-pure items)

  module _ {n : ℕ} (enough : suc n ≤ fuel) where
    parse_merge_query-Skips : Skips n (parse_merge_query parse_float fuel)
    unfolding parse_merge_query
    parse_merge_query-Skips = Skips-then (Reads→Skips (expect-Reads tok_merge tt)) λ t.
        Skips-then
          (Reads→Skips (
            Reads-or_else merge_needs_node
              (parse_node_pattern-Reads parse_float fuel (omega arith))))
          λ node. Skips-then (require_label-Skips node.labels) λ labelled.
            Skips-then (Skips-mono (omega arith) (on_loop-Skips fuel ([], []) (omega arith)))
              λ items.
                Skips-then (optional_return-Skips parse_float fuel enough)
                  λ ret. Skips-then (parse_end-Skips unexpected_after_merge) λ end. Skips-pure _

    parse_any-Skips : Skips n (parse_any parse_float fuel)
    unfolding parse_any
    parse_any-Skips =
        Skips-if_ahead _
          (Skips-then (parse_create_query-Skips parse_float fuel enough) λ query. Skips-pure _)
          (Skips-if_ahead _ (Skips-then parse_merge_query-Skips λ query. Skips-pure _)
            (Skips-then (parse_query-Skips parse_float fuel enough) λ query. Skips-pure _))

-- The fuel that the parser hands out is enough for every list of tokens: it reads a query or refuses.
pub parse_tokens-ne-out_of_fuel :
    (parse_float : Bytes → ℕ × Bool) (ts : List Token) → parse_tokens parse_float ts ≢ out_of_fuel
unfolding parse_tokens
parse_tokens-ne-out_of_fuel parse_float ts = Leaves-ne (
    (parse_any-Skips parse_float (length ts + 2) {n = length ts + 1} (omega arith)).skips ts
      (omega arith))

-- Every text is parsed into a query or refused, by the lexer or by the parser: neither runs out of fuel.
pub parse_cypher-ne-out_of_fuel :
    (parse_float : Bytes → ℕ × Bool) (input : Bytes) → parse_cypher parse_float input ≢ out_of_fuel
unfolding parse_cypher
parse_cypher-ne-out_of_fuel parse_float input = lexed (tokenize input) (tokenize-IsLexed input)
  where
    lexed :
        (o : Option (Result (List Token)))
        → IsLexed 0 (length input) o
        → (elim o [
          | none ↦ out_of_fuel
          | some (err e) ↦ refused (lexer_error e)
          | some (ok ts) ↦ parse_tokens parse_float ts
        ])
          ≢ out_of_fuel
    lexed none h = absurd h
    lexed (some (err e)) h = cc
    lexed (some (ok ts)) h = parse_tokens-ne-out_of_fuel parse_float ts
