-- ===== src/Cypher/Parser/Shrinking.antt =====
-- cypher_parser.go: how far the parsers of patterns and clauses move.
use goraphdb.Common.{
  if◌then◌else◌, ℕ, zero, suc, Bool, true, false, ◌≤◌, ◌<◌, List, [], ◌∷◌, Option, arith, length,
}
use goraphdb.Types.{Bytes}
use goraphdb.Cypher.Tokens.{TokenKind, Token}
use goraphdb.Cypher.Tokens.{
  tok_comma, tok_colon, tok_lparen, tok_rparen, tok_lbracket, tok_rbracket, tok_ident, tok_rbrace,
  tok_int, tok_float, tok_param, tok_string, tok_true, tok_false, tok_null,
}
use goraphdb.Cypher.Ast.{PropValue, PatternProps, Pattern}
use goraphdb.Cypher.Parser.{cur, ahead, parsed, refused, ParseError, expected_property_key}
use goraphdb.Cypher.Parser.Patterns.{
  set_prop, optional_ident, parse_label, parse_literal_of, parse_literal, prop_loop, parse_prop_map,
  optional_props, parse_node_pattern, parse_rel_start, parse_rel_label, parse_max_hops,
  parse_hop_range, parse_hops, parse_rel_end, parse_rel_pattern, extend_pattern, pattern_loop,
  parse_pattern,
}
use goraphdb.Cypher.Parser.Steps.{
  Leaves, leaves, stops, Reads, Skips, Reads→Skips, Skips-pure, Reads-then, Skips-then, Reads-next,
  Skips-none, Skips-mono, Skips-if_ahead, reading, while_match-Skips, expect-Reads, expect_or-Reads,
  match_kind-Skips,
}

optional_ident-Skips : {n : ℕ} → Skips n optional_ident
unfolding optional_ident
optional_ident-Skips = search (reading, tt) depth 12

parse_label-Reads : {n : ℕ} → Reads n parse_label
unfolding parse_label
parse_label-Reads = search (reading, tt) depth 12

parse_rel_start-Reads : {n : ℕ} → Reads n parse_rel_start
unfolding parse_rel_start
parse_rel_start-Reads = search (reading, tt) depth 12

parse_rel_label-Skips : {n : ℕ} → Skips n parse_rel_label
unfolding parse_rel_label
parse_rel_label-Skips = search (reading, tt) depth 12

parse_max_hops-Skips : {n : ℕ} (max : Option ℕ) → Skips n (parse_max_hops max)
unfolding parse_max_hops
parse_max_hops-Skips max = search (reading, tt) depth 12

parse_hop_range-Skips : {n : ℕ} → Skips n parse_hop_range
unfolding parse_hop_range
parse_hop_range-Skips = search (reading, tt, parse_max_hops-Skips) depth 12

parse_hops-Skips : {n : ℕ} → Skips n parse_hops
unfolding parse_hops
parse_hops-Skips = search (reading, tt, parse_hop_range-Skips) depth 12

parse_rel_end-Reads : {n : ℕ} (left_arrow : Bool) → Reads n (parse_rel_end left_arrow)
unfolding parse_rel_end
parse_rel_end-Reads true = search (reading, tt) depth 12
parse_rel_end-Reads false = search (reading, tt) depth 12

parse_rel_pattern-Reads : {n : ℕ} → Reads n parse_rel_pattern
unfolding parse_rel_pattern
parse_rel_pattern-Reads = Reads-then parse_rel_start-Reads λ left_arrow.
    Skips-then (Reads→Skips (expect-Reads tok_lbracket tt)) λ bracket.
      Skips-then optional_ident-Skips λ variable. Skips-then parse_rel_label-Skips λ label.
        Skips-then parse_hops-Skips λ hops.
          Skips-then (Reads→Skips (expect-Reads tok_rbracket tt)) λ bracket'.
            Skips-then (Reads→Skips (parse_rel_end-Reads left_arrow)) λ dir. Skips-pure _

module _ (parse_float : Bytes → ℕ × Bool) where
  parse_literal-Reads : {n : ℕ} → Reads n (parse_literal parse_float)
  unfolding parse_literal parse_literal_of cur ahead
  parse_literal-Reads = record { reads = from }
    where
      fitting :
          (fits : Bool) (v : PropValue) (e : ParseError) (ts : List Token)
          → Leaves (λ m. m < suc (length ts)) (if fits then parsed v ts else refused e)
      fitting true v e ts = leaves (omega arith)
      fitting false v e ts = stops

      taken :
          (kind : TokenKind) (t : Token) (ts : List Token)
          → Leaves (λ m. m < suc (length ts)) (parse_literal_of parse_float kind t ts)
      taken tok_int t ts = fitting _ _ _ ts
      taken tok_float t ts = fitting _ _ _ ts
      taken tok_param t ts = leaves (omega arith)
      taken tok_string t ts = leaves (omega arith)
      taken tok_true t ts = leaves (omega arith)
      taken tok_false t ts = leaves (omega arith)
      taken tok_null t ts = leaves (omega arith)
      taken _ t ts = stops

      from :
          {n : ℕ} (ts : List Token)
          → length ts < n
          → Leaves (λ m. m < length ts) (parse_literal parse_float ts)
      from [] few = stops
      from (t ∷ ts) few = taken t.kind t ts

  prop_loop-Skips :
      (fuel : ℕ) (props : PatternProps) → Skips fuel (prop_loop parse_float fuel props)
  unfolding prop_loop
  prop_loop-Skips zero props = Skips-none _
  prop_loop-Skips (suc fuel) props =
      Skips-if_ahead _
        (Reads→Skips (
          Reads-next (expect_or-Reads (λ t. expected_property_key t.kind) tok_ident tt) λ key.
            Skips-then (Reads→Skips (expect-Reads tok_colon tt)) λ colon.
              Skips-then (Reads→Skips parse_literal-Reads) λ val.
                Skips-then (match_kind-Skips tok_comma)
                  λ comma. prop_loop-Skips fuel (set_prop key.text val props)))
        (Skips-pure props)

  module _ {n : ℕ} (fuel : ℕ) (enough : n ≤ fuel) where
    parse_prop_map-Skips : Skips n (parse_prop_map parse_float fuel)
    unfolding parse_prop_map
    parse_prop_map-Skips =
        Skips-then (Skips-mono enough (prop_loop-Skips fuel []))
          λ props. Reads→Skips (Reads-then (expect-Reads tok_rbrace tt) λ brace. Skips-pure props)

    optional_props-Skips : Skips n (optional_props parse_float fuel)
    unfolding optional_props
    optional_props-Skips = search (reading, tt, parse_prop_map-Skips) depth 12

    pub parse_node_pattern-Reads : Reads n (parse_node_pattern parse_float fuel)
    unfolding parse_node_pattern
    parse_node_pattern-Reads = Reads-then (expect-Reads tok_lparen tt) λ paren.
        Skips-then optional_ident-Skips λ variable.
          Skips-then (while_match-Skips tok_colon tt fuel enough (Reads→Skips parse_label-Reads))
            λ labels.
              Skips-then optional_props-Skips λ props.
                Reads→Skips (Reads-then (expect-Reads tok_rparen tt) λ paren'. Skips-pure _)

  pattern_loop-Skips :
      (fuel nodes_fuel : ℕ) (pat : Pattern)
      → fuel ≤ nodes_fuel
      → Skips fuel (pattern_loop parse_float fuel nodes_fuel pat)
  unfolding pattern_loop
  pattern_loop-Skips zero nodes_fuel pat enough = Skips-none _
  pattern_loop-Skips (suc fuel) nodes_fuel pat enough =
      Skips-if_ahead _
        (Reads→Skips (
          Reads-next parse_rel_pattern-Reads λ rel.
            Skips-then (Reads→Skips (parse_node_pattern-Reads nodes_fuel (omega arith))) λ node.
              pattern_loop-Skips fuel nodes_fuel (extend_pattern pat rel node) (omega arith)))
        (Skips-pure pat)

  pub parse_pattern-Reads : (fuel : ℕ) → Reads fuel (parse_pattern parse_float fuel)
  unfolding parse_pattern
  parse_pattern-Reads fuel =
      Reads-then (parse_node_pattern-Reads fuel (omega arith))
        λ node. pattern_loop-Skips fuel fuel _ (omega arith)
