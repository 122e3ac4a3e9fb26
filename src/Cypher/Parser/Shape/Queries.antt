-- ===== src/Cypher/Parser/Shape/Queries.antt =====
-- cypher_parser.go: the shape of the queries that the parser returns.
use goraphdb.Common.{
  ℕ, ◌^◌, ◌<◌, ◌≡◌, refl, Bool, Option, none, some, List, [], ◌∷◌, arith, length, ◌+◌,
}
use goraphdb.Types.{Bytes}
use goraphdb.Cypher.Tokens.{TokenKind, Token}
use goraphdb.Cypher.Tokens.{
  tok_comma, tok_create, tok_limit, tok_match, tok_merge, tok_optional, tok_return, tok_skip,
  tok_int,
}
use goraphdb.Cypher.Ast.{Pattern, CypherQuery, CypherWrite, CypherMerge, Expression}
use goraphdb.Cypher.Parser.{
  ParseError, parsed, expect, expect_or, unexpected_token, unexpected_after_create,
  unexpected_after_merge, expected_match_after_optional, skip_needs_integer, limit_needs_integer,
  merge_needs_node, merge_needs_label, parse_int,
}
use goraphdb.Cypher.Parser.Clauses.{
  parse_count, parse_return_clause, optional_where, optional_set, optional_delete, optional_return,
  optional_order,
}
use goraphdb.Cypher.Parser.Queries.{
  ParsedCypher, read, write, merge, parse_explain, parse_end, require_label, optional_match,
  parse_query, parse_create_query, on_loop, parse_merge_query, parse_any, parse_tokens,
}
use goraphdb.Cypher.Parser.Shape.{
  Gives-parsed, Shaped, Shaped-pure, Shaped-if_ahead, Shaped-when_kind, Shaped-fail_at,
  Shaped-or_else, Shaped-then, Shaped-after, Shaped-any, Shaped-weaken, All, NonEmpty,
  separated-Shaped,
}
use goraphdb.Cypher.Parser.Shape.Patterns.{
  DistinctKeys, PatternShape, parse_int-FitsInt, parse_node_pattern-Shaped, parse_pattern-Shaped,
}

-- Of something that may be missing.
abbrev pub Maybe : {A : Type 0} → (A → Type 0) → Option A → Type 0
Maybe P none = Unit
Maybe P (some a) = P a

pub record QueryShape (query : CypherQuery) : Type 0 where
  pub match_shape : PatternShape query.match_pattern
  pub optional_shape : Maybe PatternShape query.optional_match
  pub where_needs_match : query.optional_match ≡ none → query.optional_where ≡ none
  pub some_returns : NonEmpty query.returns
  pub skip_within : query.skip < 2 ^ 63
  pub limit_within : query.limit < 2 ^ 63

pub record WriteShape (query : CypherWrite) : Type 0 where
  pub some_creates : NonEmpty query.creates
  pub create_shapes : All PatternShape query.creates
  pub some_returns : Maybe NonEmpty query.returns

pub record MergeShape (query : CypherMerge) : Type 0 where
  pub some_labels : NonEmpty query.pattern.labels
  pub distinct_keys : DistinctKeys query.pattern.props
  pub some_returns : Maybe NonEmpty query.returns

abbrev pub ParsedShape : ParsedCypher → Type 0
ParsedShape (read query) = QueryShape query
ParsedShape (write query) = WriteShape query
ParsedShape (merge query) = MergeShape query

parse_count-Shaped :
    (kind : TokenKind) (message : ParseError) → Shaped (λ n. n < 2 ^ 63) (parse_count kind message)
unfolding parse_count
parse_count-Shaped kind message =
    Shaped-when_kind kind
      (λ t.
        Shaped-after (expect_or (λ _. message) tok_int)
          λ count. Shaped-pure (parse_int count.text).0 (parse_int-FitsInt count.text))
      (Shaped-pure 0 (omega arith))

require_label-Shaped : (labels : List Bytes) → Shaped (λ _. NonEmpty labels) (require_label labels)
unfolding require_label
require_label-Shaped [] = Shaped-fail_at (λ t. merge_needs_label t.pos)
require_label-Shaped (l ∷ ls) = Shaped-pure tt tt

module _ (parse_float : Bytes → ℕ × Bool) (fuel : ℕ) where
  parse_return_clause-Shaped : Shaped NonEmpty (parse_return_clause parse_float fuel)
  unfolding parse_return_clause
  parse_return_clause-Shaped = Shaped-after (expect tok_return) λ t.
      Shaped-weaken (separated-Shaped {P = λ _. Unit} tok_comma fuel (Shaped-any _)) λ items h. h.0

  optional_return-Shaped : Shaped (Maybe NonEmpty) (optional_return parse_float fuel)
  unfolding optional_return
  optional_return-Shaped =
      Shaped-if_ahead _ (Shaped-then parse_return_clause-Shaped λ ret h. Shaped-pure (some ret) h)
        (Shaped-pure none tt)

  abbrev OptionalShape : Option Pattern × Option Expression → Type 0
  OptionalShape (pat, expr) = Maybe PatternShape pat × (pat ≡ none → expr ≡ none)

  optional_match-Shaped : Shaped OptionalShape (optional_match parse_float fuel)
  unfolding optional_match
  optional_match-Shaped =
      Shaped-when_kind tok_optional
        (λ t. Shaped-after (expect_or (λ _. expected_match_after_optional) tok_match) λ m.
          Shaped-then (parse_pattern-Shaped parse_float fuel) λ pat h.
            Shaped-after (optional_where parse_float fuel)
              λ expr. Shaped-pure (some pat, expr) (h, λ e. cc))
        (Shaped-pure (none, none) (tt, λ e. refl))

  parse_query-Shaped : Shaped QueryShape (parse_query parse_float fuel)
  unfolding parse_query
  parse_query-Shaped = Shaped-after parse_explain λ explain. Shaped-after (expect tok_match) λ m.
      Shaped-then (parse_pattern-Shaped parse_float fuel) λ pat p.
        Shaped-after (optional_where parse_float fuel) λ expr.
          Shaped-then optional_match-Shaped λ opt o.
            Shaped-after (optional_set parse_float fuel) λ items.
              Shaped-after (optional_delete parse_float fuel) λ vars.
                Shaped-then parse_return_clause-Shaped λ ret r.
                  Shaped-after (optional_order parse_float fuel) λ order.
                    Shaped-then (parse_count-Shaped tok_skip skip_needs_integer) λ skip s.
                      Shaped-then (parse_count-Shaped tok_limit limit_needs_integer) λ limit l.
                        Shaped-after (parse_end unexpected_token) λ end. Shaped-pure _ (record {
                          match_shape = p;
                          optional_shape = o.0;
                          where_needs_match = o.1;
                          some_returns = r;
                          skip_within = s;
                          limit_within = l;
                        })

  parse_create_query-Shaped : Shaped WriteShape (parse_create_query parse_float fuel)
  unfolding parse_create_query
  parse_create_query-Shaped = Shaped-after (expect tok_create) λ t.
      Shaped-then (separated-Shaped tok_comma fuel (parse_pattern-Shaped parse_float fuel))
        λ creates c. Shaped-then optional_return-Shaped λ ret r.
          Shaped-after (parse_end unexpected_after_create) λ end.
            Shaped-pure _ (record { some_creates = c.0; create_shapes = c.1; some_returns = r })

  parse_merge_query-Shaped : Shaped MergeShape (parse_merge_query parse_float fuel)
  unfolding parse_merge_query
  parse_merge_query-Shaped = Shaped-after (expect tok_merge) λ t.
      Shaped-then (Shaped-or_else merge_needs_node (parse_node_pattern-Shaped parse_float fuel))
        λ node n. Shaped-then (require_label-Shaped node.labels) λ labelled l.
          Shaped-after (on_loop parse_float fuel fuel ([], [])) λ items.
            Shaped-then optional_return-Shaped λ ret r.
              Shaped-after (parse_end unexpected_after_merge) λ end.
                Shaped-pure _
                  (record { some_labels = l; distinct_keys = n.distinct_keys; some_returns = r })

  parse_any-Shaped : Shaped ParsedShape (parse_any parse_float fuel)
  unfolding parse_any
  parse_any-Shaped =
      Shaped-if_ahead _
        (Shaped-then parse_create_query-Shaped λ query h. Shaped-pure (write query) h)
        (Shaped-if_ahead _
          (Shaped-then parse_merge_query-Shaped λ query h. Shaped-pure (merge query) h)
          (Shaped-then parse_query-Shaped λ query h. Shaped-pure (read query) h))

-- Every query that the parser returns is well formed. In a read query the nodes of each pattern are one
-- more than its relationships, no property map has a key twice, the hops, SKIP and LIMIT are int64
-- numbers, a relationship without a star has one hop, a second WHERE stands only behind OPTIONAL MATCH,
-- and something is returned; a CREATE has a pattern, and all are of that shape; a MERGE has a label.
pub ParsedShape-parse_tokens :
    (parse_float : Bytes → ℕ × Bool) (ts : List Token) (query : ParsedCypher) (rest : List Token)
    → parse_tokens parse_float ts ≡ parsed query rest
    → ParsedShape query
unfolding parse_tokens
ParsedShape-parse_tokens parse_float ts query rest h =
    Gives-parsed ((parse_any-Shaped parse_float (length ts + 2)).shaped ts) h
