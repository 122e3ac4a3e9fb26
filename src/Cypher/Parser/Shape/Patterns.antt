-- ===== src/Cypher/Parser/Shape/Patterns.antt =====
-- cypher_parser.go: the shape of the patterns that the parser returns.
use goraphdb.Common.{
  ℕ, zero, suc, ◌^◌, ◌<◌, ◌≡◌, ◌≢◌, inl, inr, refl, ap, ◌-◌, Bool, true, false, Option, none, some,
  List, [], ◌∷◌, ◌++◌, if◌then◌else◌, arith, length, ltb, Bool-cases, ltb→lt, same_bytes,
  same_bytes_iff,
}
use goraphdb.Types.{Bytes}
use goraphdb.Cypher.Tokens.{
  tok_lparen, tok_rparen, tok_lbracket, tok_rbracket, tok_ident, tok_colon, tok_comma, tok_rbrace,
  tok_lbrace, tok_star, tok_dotdot, tok_int,
}
use goraphdb.Cypher.Ast.{PatternProps, PropValue, NodePattern, RelPattern, Pattern}
use goraphdb.Cypher.Parser.{
  expect, expect_or, match_kind, while_match, parse_int, decimal, expected_property_key,
}
use goraphdb.Cypher.Parser.Patterns.{
  set_prop, parse_literal, optional_ident, parse_label, prop_loop, parse_prop_map, optional_props,
  parse_node_pattern, parse_max_hops, parse_hop_range, parse_hops, parse_rel_start, parse_rel_label,
  parse_rel_end, parse_rel_pattern, extend_pattern, pattern_loop, parse_pattern,
}
use goraphdb.Cypher.Parser.Shape.{
  Shaped, Shaped-pure, Shaped-if_ahead, Shaped-when_kind, Shaped-spent, Shaped-then, Shaped-after,
  All,
}

-- No key stands twice.
abbrev pub Fresh : Bytes → PatternProps → Type 0
Fresh key props = All (λ p. key ≢ p.0) props

abbrev pub Distinct : PatternProps → Type 0
Distinct [] = Unit
Distinct ((k, v) ∷ props) = Fresh k props × Distinct props

set_prop-Fresh :
    (k key : Bytes) (val : PropValue) (props : PatternProps)
    → k ≢ key
    → Fresh k props
    → Fresh k (set_prop key val props)
unfolding set_prop
set_prop-Fresh k key val [] n h = (n, tt)
set_prop-Fresh k key val ((j, v) ∷ props) n h = elim (Bool-cases (same_bytes j key)) [
  | inl same ↦ rw same h
  | inr other ↦ rw other (h.0, set_prop-Fresh k key val props n h.1)
]

set_prop-Distinct :
    (key : Bytes) (val : PropValue) (props : PatternProps)
    → Distinct props
    → Distinct (set_prop key val props)
unfolding set_prop
set_prop-Distinct key val [] h = (tt, tt)
set_prop-Distinct key val ((j, v) ∷ props) h = elim (Bool-cases (same_bytes j key)) [
  | inl same ↦ rw same h
  | inr other ↦ rw other (
    set_prop-Fresh j key val props (λ e. cc ((same_bytes_iff j key).1 e, other)) h.0,
    set_prop-Distinct key val props h.1,
  )
]

abbrev FitsInt : ℕ × Bool → Type 0
FitsInt (n, fits) = n < 2 ^ 63

-- Every number that the parser reads is an int64.
pub parse_int-FitsInt : (text : Bytes) → FitsInt (parse_int text)
unfolding parse_int
parse_int-FitsInt [] = omega arith
parse_int-FitsInt (c ∷ cs) = from (decimal 0 (c ∷ cs))
  where
    fits :
        (n : ℕ) (b : Bool)
        → ltb n (2 ^ 63) ≡ b
        → FitsInt (if b then (n, true) else (2 ^ 63 - 1, false))
    fits n true h = ltb→lt n (2 ^ 63) h
    fits n false h = omega arith

    from :
        (o : Option ℕ)
        → FitsInt (elim o [
          | none ↦ (0, false)
          | some n ↦ if ltb n (2 ^ 63) then (n, true) else (2 ^ 63 - 1, false)
        ])
    from none = omega arith
    from (some n) = fits n (ltb n (2 ^ 63)) refl

abbrev pub WithinInt : Option ℕ → Type 0
WithinInt none = Unit
WithinInt (some n) = n < 2 ^ 63

abbrev pub DistinctKeys : Option PatternProps → Type 0
DistinctKeys none = Unit
DistinctKeys (some props) = Distinct props

pub record NodeShape (node : NodePattern) : Type 0 where
  pub distinct_keys : DistinctKeys node.props

-- Hops are int64 numbers, and exactly one where the pattern has no star.
pub record RelShape (rel : RelPattern) : Type 0 where
  pub min_within : rel.min_hops < 2 ^ 63
  pub max_within : WithinInt rel.max_hops
  pub one_hop : rel.var_length ≡ false → (rel.min_hops ≡ 1) × (rel.max_hops ≡ some 1)

-- Nodes and relationships alternate, a node at either end.
pub record PatternShape (pat : Pattern) : Type 0 where
  pub alternate : length pat.nodes ≡ suc (length pat.rels)
  pub all_nodes : All NodeShape pat.nodes
  pub all_rels : All RelShape pat.rels

parse_max_hops-Shaped : (max : Option ℕ) → WithinInt max → Shaped WithinInt (parse_max_hops max)
unfolding parse_max_hops
parse_max_hops-Shaped max h =
    Shaped-when_kind tok_dotdot
      (λ d.
        Shaped-when_kind tok_int
          (λ t. Shaped-pure (some (parse_int t.text).0) (parse_int-FitsInt t.text))
          (Shaped-pure none tt))
      (Shaped-pure max h)

abbrev HopShape : ℕ × Option ℕ → Type 0
HopShape (min, max) = (min < 2 ^ 63) × WithinInt max

parse_hop_range-Shaped : Shaped HopShape parse_hop_range
unfolding parse_hop_range
parse_hop_range-Shaped =
    Shaped-when_kind tok_int
      (λ t.
        Shaped-then (parse_max_hops-Shaped (some (parse_int t.text).0) (parse_int-FitsInt t.text))
          λ max h. Shaped-pure ((parse_int t.text).0, max) (parse_int-FitsInt t.text, h))
      (Shaped-then (parse_max_hops-Shaped none tt) λ max h. Shaped-pure (1, max) (omega arith, h))

abbrev HopsShape : Bool × ℕ × Option ℕ → Type 0
HopsShape (var_length, min, max) =
    (min < 2 ^ 63) × WithinInt max × (var_length ≡ false → (min ≡ 1) × (max ≡ some 1))

parse_hops-Shaped : Shaped HopsShape parse_hops
unfolding parse_hops
parse_hops-Shaped =
    Shaped-when_kind tok_star
      (λ t.
        Shaped-then parse_hop_range-Shaped
          λ hops h. Shaped-pure (true, hops.0, hops.1) (h.0, h.1, λ e. cc))
      (Shaped-pure (false, 1, some 1) (omega arith, omega arith, λ e. (refl, refl)))

parse_rel_pattern-Shaped : Shaped RelShape parse_rel_pattern
unfolding parse_rel_pattern
parse_rel_pattern-Shaped = Shaped-after parse_rel_start λ left_arrow.
    Shaped-after (expect tok_lbracket) λ bracket. Shaped-after optional_ident λ variable.
      Shaped-after parse_rel_label λ label. Shaped-then parse_hops-Shaped λ hops h.
        Shaped-after (expect tok_rbracket) λ bracket'.
          Shaped-after (parse_rel_end left_arrow)
            λ dir. Shaped-pure _ (record { min_within = h.0; max_within = h.1; one_hop = h.2 })

module _ (parse_float : Bytes → ℕ × Bool) where
  prop_loop-Shaped :
      (fuel : ℕ) (props : PatternProps)
      → Distinct props
      → Shaped Distinct (prop_loop parse_float fuel props)
  unfolding prop_loop
  prop_loop-Shaped zero props h = Shaped-spent
  prop_loop-Shaped (suc fuel) props h =
      Shaped-if_ahead _
        (Shaped-after (expect_or (λ t. expected_property_key t.kind) tok_ident) λ key.
          Shaped-after (expect tok_colon) λ colon. Shaped-after (parse_literal parse_float) λ val.
            Shaped-after (match_kind tok_comma) λ comma.
              prop_loop-Shaped fuel (set_prop key.text val props)
                (set_prop-Distinct key.text val props h))
        (Shaped-pure props h)

  module _ (fuel : ℕ) where
    parse_prop_map-Shaped : Shaped Distinct (parse_prop_map parse_float fuel)
    unfolding parse_prop_map
    parse_prop_map-Shaped =
        Shaped-then (prop_loop-Shaped fuel [] tt)
          λ props h. Shaped-after (expect tok_rbrace) λ brace. Shaped-pure props h

    optional_props-Shaped : Shaped DistinctKeys (optional_props parse_float fuel)
    unfolding optional_props
    optional_props-Shaped =
        Shaped-when_kind tok_lbrace
          (λ t. Shaped-then parse_prop_map-Shaped λ props h. Shaped-pure (some props) h)
          (Shaped-pure none tt)

    pub parse_node_pattern-Shaped : Shaped NodeShape (parse_node_pattern parse_float fuel)
    unfolding parse_node_pattern
    parse_node_pattern-Shaped = Shaped-after (expect tok_lparen) λ paren.
        Shaped-after optional_ident λ variable.
          Shaped-after (while_match tok_colon parse_label fuel) λ labels.
            Shaped-then optional_props-Shaped λ props h.
              Shaped-after (expect tok_rparen)
                λ paren'. Shaped-pure _ (record { distinct_keys = h })

All-append :
    {A : Type 0} (P : A → Type 0) (xs : List A) (x : A) → All P xs → P x → All P (xs ++ x ∷ [])
All-append P [] x h k = (k, tt)
All-append P (y ∷ xs) x h k = (h.0, All-append P xs x h.1 k)

length-snoc : {A : Type 0} (xs : List A) (x : A) → length (xs ++ x ∷ []) ≡ suc (length xs)
length-snoc [] x = refl
length-snoc (y ∷ xs) x = ap suc (length-snoc xs x)

extend_pattern-PatternShape :
    (pat : Pattern) (rel : RelPattern) (node : NodePattern)
    → PatternShape pat
    → RelShape rel
    → NodeShape node
    → PatternShape (extend_pattern pat rel node)
unfolding extend_pattern
extend_pattern-PatternShape pat rel node h r n = record {
  alternate = rw (length-snoc pat.nodes node, length-snoc pat.rels rel, h.alternate) refl;
  all_nodes = All-append NodeShape pat.nodes node h.all_nodes n;
  all_rels = All-append RelShape pat.rels rel h.all_rels r;
}

module _ (parse_float : Bytes → ℕ × Bool) where
  pattern_loop-Shaped :
      (fuel nodes_fuel : ℕ) (pat : Pattern)
      → PatternShape pat
      → Shaped PatternShape (pattern_loop parse_float fuel nodes_fuel pat)
  unfolding pattern_loop
  pattern_loop-Shaped zero nodes_fuel pat h = Shaped-spent
  pattern_loop-Shaped (suc fuel) nodes_fuel pat h =
      Shaped-if_ahead _
        (Shaped-then parse_rel_pattern-Shaped λ rel r.
          Shaped-then (parse_node_pattern-Shaped parse_float nodes_fuel) λ node n.
            pattern_loop-Shaped fuel nodes_fuel (extend_pattern pat rel node)
              (extend_pattern-PatternShape pat rel node h r n))
        (Shaped-pure pat h)

  pub parse_pattern-Shaped : (fuel : ℕ) → Shaped PatternShape (parse_pattern parse_float fuel)
  unfolding parse_pattern
  parse_pattern-Shaped fuel = Shaped-then (parse_node_pattern-Shaped parse_float fuel) λ node n.
      pattern_loop-Shaped fuel fuel _
        (record { alternate = refl; all_nodes = (n, tt); all_rels = tt })
