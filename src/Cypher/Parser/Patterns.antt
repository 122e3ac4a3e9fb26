-- ===== src/Cypher/Parser/Patterns.antt =====
-- cypher_parser.go: the patterns of MATCH, CREATE and MERGE with their property maps.
use goraphdb.Common.{
  ℕ, zero, suc, Bool, true, false, not, ◌&&◌, ◌||◌, Option, none, some, List, [], ◌∷◌, ◌++◌,
  if◌then◌else◌, same_bytes,
}
use goraphdb.Types.{Bytes, null, bool, int, float, str, Direction, outgoing, incoming, both}
use goraphdb.Cypher.Tokens.{TokenKind, Token}
use goraphdb.Cypher.Tokens.{
  tok_arrow, tok_colon, tok_comma, tok_dash, tok_dotdot, tok_eof, tok_false, tok_float, tok_ident,
  tok_int, tok_larrow, tok_lbrace, tok_lbracket, tok_lparen, tok_null, tok_param, tok_rbrace,
  tok_rbracket, tok_rparen, tok_star, tok_string, tok_true,
}
use goraphdb.Cypher.Ast.{
  PropValue, literal, param_ref, PatternProps, NodePattern, RelPattern, Pattern,
}
use goraphdb.Cypher.Parser.{
  Parser, ◌>>=◌, ◌>>◌, pure, cur, ahead, is_kind, fail_at, if_ahead, when_kind, expect, expect_or,
  match_kind, while_match, out_of_fuel, parsed, refused, expected_label, expected_property_key,
  invalid_integer, invalid_float, expected_literal, expected_relationship,
  expected_relationship_end, expected_relationship_label, expected_closing_dash, parse_int,
}

-- `props[key] = val`.
unfoldable pub set_prop : Bytes → PropValue → PatternProps → PatternProps
set_prop key val [] = (key, val) ∷ []
set_prop key val ((k, v) ∷ props) =
    let rest = set_prop key val props in
    if same_bytes k key then (k, val) ∷ props else (k, v) ∷ rest

-- The name of a variable, if there is one.
unfoldable pub optional_ident : Parser Bytes
unfolding when_kind
optional_ident = when_kind tok_ident (λ t. pure t.text) (pure [])

-- Behind a colon of a node.
unfoldable pub parse_label : Parser Bytes
unfolding expect_or
parse_label = do label ← expect_or (λ t. expected_label t.pos) tok_ident; pure label.text

-- The test of the loop of `parsePropMap`.
unfoldable pub more_props : List Token → Bool
unfolding is_kind
more_props ts = not (is_kind tok_rbrace ts) && not (is_kind tok_eof ts)

module _ (parse_float : Bytes → ℕ × Bool) where
  -- `parseLiteral` behind the token.
  unfoldable pub parse_literal_of : TokenKind → Token → Parser PropValue
  unfolding parse_int
  parse_literal_of tok_param t ts = parsed (param_ref t.text) ts
  parse_literal_of tok_string t ts = parsed (literal (str t.text)) ts
  parse_literal_of tok_int t ts =
      let (n, fits) = parse_int t.text in
      if fits then parsed (literal (int n)) ts else refused (invalid_integer t.text)
  parse_literal_of tok_float t ts =
      let (f, fits) = parse_float t.text in
      if fits then parsed (literal (float f)) ts else refused (invalid_float t.text)
  parse_literal_of tok_true t ts = parsed (literal (bool true)) ts
  parse_literal_of tok_false t ts = parsed (literal (bool false)) ts
  parse_literal_of tok_null t ts = parsed (literal null) ts
  parse_literal_of kind t ts = refused (expected_literal kind t.pos)

  unfoldable pub parse_literal : Parser PropValue
  unfolding parse_literal_of cur ahead
  parse_literal ts = parse_literal_of (cur ts).kind (cur ts) (ahead ts)

  -- The loop of `parsePropMap`.
  unfoldable pub prop_loop : ℕ → PatternProps → Parser PatternProps
  unfolding more_props if_ahead expect expect_or parse_literal match_kind set_prop
  prop_loop zero props = λ ts. out_of_fuel
  prop_loop (suc fuel) props =
      if_ahead more_props
        (do
          key ← expect_or (λ t. expected_property_key t.kind) tok_ident
          expect tok_colon
          val ← parse_literal
          match_kind tok_comma
          prop_loop fuel (set_prop key.text val props))
        (pure props)

  module _ (fuel : ℕ) where
    unfoldable pub parse_prop_map : Parser PatternProps
    unfolding prop_loop expect
    parse_prop_map = do props ← prop_loop fuel []; expect tok_rbrace; pure props

    unfoldable pub optional_props : Parser (Option PatternProps)
    unfolding when_kind parse_prop_map
    optional_props =
        when_kind tok_lbrace (λ t. do props ← parse_prop_map; pure (some props)) (pure none)

    unfoldable pub parse_node_pattern : Parser NodePattern
    unfolding expect optional_ident while_match parse_label optional_props
    parse_node_pattern = do
      expect tok_lparen
      variable ← optional_ident
      labels ← while_match tok_colon parse_label fuel
      props ← optional_props
      expect tok_rparen
      pure (record { variable = variable; labels = labels; props = props })

-- Whether it starts with `<-`.
unfoldable pub parse_rel_start : Parser Bool
unfolding when_kind fail_at
parse_rel_start =
    when_kind tok_larrow (λ t. pure true)
      (when_kind tok_dash (λ t. pure false) (fail_at (λ t. expected_relationship t.pos)))

unfoldable pub parse_rel_label : Parser Bytes
unfolding when_kind expect_or
parse_rel_label =
    when_kind tok_colon
      (λ t. do label ← expect_or (λ _. expected_relationship_label) tok_ident; pure label.text)
      (pure [])

-- The maximum behind `..`; without it, the one given.
unfoldable pub parse_max_hops : Option ℕ → Parser (Option ℕ)
unfolding when_kind parse_int
parse_max_hops max =
    when_kind tok_dotdot
      (λ d. when_kind tok_int (λ t. pure (some (parse_int t.text).0)) (pure none)) (pure max)

-- Behind the star: `MinHops` and `MaxHops`.
unfoldable pub parse_hop_range : Parser (ℕ × Option ℕ)
unfolding when_kind parse_int parse_max_hops
parse_hop_range =
    when_kind tok_int
      (λ t. do max ← parse_max_hops (some (parse_int t.text).0); pure ((parse_int t.text).0, max))
      (do max ← parse_max_hops none; pure (1, max))

-- `VarLength`, `MinHops` and `MaxHops`.
unfoldable pub parse_hops : Parser (Bool × ℕ × Option ℕ)
unfolding when_kind parse_hop_range
parse_hops =
    when_kind tok_star (λ t. do hops ← parse_hop_range; pure (true, hops.0, hops.1))
      (pure (false, 1, some 1))

unfoldable pub parse_rel_end : Bool → Parser Direction
unfolding when_kind fail_at expect_or
parse_rel_end true = do expect_or (λ _. expected_closing_dash) tok_dash; pure incoming
parse_rel_end false =
    when_kind tok_arrow (λ t. pure outgoing)
      (when_kind tok_dash (λ t. pure both) (fail_at (λ t. expected_relationship_end t.pos)))

unfoldable pub parse_rel_pattern : Parser RelPattern
unfolding expect optional_ident parse_rel_start parse_rel_label parse_hops parse_rel_end
parse_rel_pattern = do
  left_arrow ← parse_rel_start
  expect tok_lbracket
  variable ← optional_ident
  label ← parse_rel_label
  hops ← parse_hops
  expect tok_rbracket
  dir ← parse_rel_end left_arrow
  pure (record {
    variable = variable;
    label = label;
    dir = dir;
    var_length = hops.0;
    min_hops = hops.1;
    max_hops = hops.2;
  })

-- The test of the loop of `parsePattern`.
unfoldable pub more_rels : List Token → Bool
unfolding is_kind
more_rels ts = is_kind tok_dash ts || is_kind tok_larrow ts

-- One more relationship with its node.
unfoldable pub extend_pattern : Pattern → RelPattern → NodePattern → Pattern
extend_pattern pat rel node = record { nodes = pat.nodes ++ node ∷ []; rels = pat.rels ++ rel ∷ [] }

module _ (parse_float : Bytes → ℕ × Bool) where
  -- The loop, on the pattern so far. `nodes_fuel` is the fuel of the nodes' own loops.
  unfoldable pub pattern_loop : ℕ → ℕ → Pattern → Parser Pattern
  unfolding more_rels if_ahead parse_rel_pattern parse_node_pattern extend_pattern
  pattern_loop zero nodes_fuel pat = λ ts. out_of_fuel
  pattern_loop (suc fuel) nodes_fuel pat =
      if_ahead more_rels
        (do
          rel ← parse_rel_pattern
          node ← parse_node_pattern parse_float nodes_fuel
          pattern_loop fuel nodes_fuel (extend_pattern pat rel node))
        (pure pat)

  -- Also `parseCreatePattern`, which has the same lines.
  unfoldable pub parse_pattern : ℕ → Parser Pattern
  unfolding parse_node_pattern pattern_loop
  parse_pattern fuel = do
    node ← parse_node_pattern parse_float fuel
    pattern_loop fuel fuel (record { nodes = node ∷ []; rels = [] })
