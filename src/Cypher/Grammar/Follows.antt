-- ===== src/Cypher/Grammar/Follows.antt =====
-- cypher_parser.go: what the grammar of expressions derives, against the parsers.
use goraphdb.Common.{ℕ, ◌≡◌, inl, inr, refl, ap, ◌∙◌, Bool, false, some, List, ◌∷◌}
use goraphdb.Types.{Bytes, Value}
use goraphdb.Cypher.Tokens.{TokenKind, Token, tok_eq, tok_neq, tok_lt, tok_gt, tok_lte, tok_gte}
use goraphdb.Cypher.Tokens.{tok_and, tok_ident, tok_not, tok_or, tok_param, tok_rparen, tok_type}
use goraphdb.Cypher.Kinds.{same_kind}
use goraphdb.Cypher.Ast.{CompOp, Expression, Expressions}
use goraphdb.Cypher.Parser.{cur, is_kind}
use goraphdb.Cypher.Parser.Expressions.{comparison_op, primary_literal}
use goraphdb.Cypher.Grammar.{
  Level, IsName, Derives, More, or_level, and_level, not_level, comparison_level, primary_level,
  literal, param, variable, property, call, alone, compares, plain, negated, one_and, ands, one_or,
  ors, no_other, another,
}
use goraphdb.Cypher.Grammar.Ends.{Ends, goes_on, is_kind-no, is_operator, or_false}
use goraphdb.Cypher.Grammar.Branches.{literal_kinds}

pub operator-Ends :
    (k : TokenKind) (op : CompOp) → comparison_op k ≡ some op → goes_on primary_level k ≡ false
unfolding comparison_op goes_on same_kind
operator-Ends tok_eq op h = refl
operator-Ends tok_neq op h = refl
operator-Ends tok_lt op h = refl
operator-Ends tok_gt op h = refl
operator-Ends tok_lte op h = refl
operator-Ends tok_gte op h = refl
operator-Ends _ op h = cc

-- What ends a level ends the levels below.
pub Ends-below :
    (ts : List Token)
    → (Ends or_level ts → Ends and_level ts)
      × (Ends and_level ts → Ends not_level ts)
      × (Ends not_level ts → Ends primary_level ts)
unfolding goes_on
Ends-below ts =
    let k = (cur ts).kind in
    (
      λ h. (or_false (same_kind k tok_or) (goes_on and_level k) h).1,
      λ h. (or_false (same_kind k tok_and) (goes_on not_level k) h).1,
      λ h. (or_false (is_operator k) (goes_on primary_level k) h).1,
    )

pub Ends-no_and : (ts : List Token) → Ends and_level ts → is_kind tok_and ts ≡ false
unfolding goes_on is_kind
Ends-no_and ts h =
    (or_false (same_kind (cur ts).kind tok_and) (goes_on not_level (cur ts).kind) h).0

pub Ends-no_or : (ts : List Token) → Ends or_level ts → is_kind tok_or ts ≡ false
unfolding goes_on is_kind
Ends-no_or ts h = (or_false (same_kind (cur ts).kind tok_or) (goes_on and_level (cur ts).kind) h).0

-- A token of a kind at which a level ends.
pub Ends-token :
    (l : Level) (k : TokenKind) (t : Token) (ts : List Token)
    → goes_on l k ≡ false
    → t.kind ≡ k
    → Ends l (t ∷ ts)
unfolding cur
Ends-token l k t ts h e = ap (λ j. goes_on l j) e ∙ h

name-starts :
    (k : TokenKind)
    → same_kind tok_ident k ≡ false
    → same_kind tok_type k ≡ false
    → (t : Token) (ts : List Token) → IsName t.kind
    → is_kind k (t ∷ ts) ≡ false
name-starts k i y t ts (inl h) = is_kind-no k tok_ident t ts h i
name-starts k i y t ts (inr h) = is_kind-no k tok_type t ts h y

module _ (parse_float : Bytes → ℕ × Bool) where
  -- The kinds at which no primary starts.
  abbrev NoStart : TokenKind → Type 0
  NoStart k =
      (same_kind tok_ident k ≡ false)
      × (same_kind tok_type k ≡ false)
      × (same_kind tok_param k ≡ false)
      × ((kind : TokenKind) (text : Bytes) (v : Value)
          → primary_literal parse_float kind text ≡ some v
          → same_kind kind k ≡ false)

  primary-starts :
      {e : Expression} {ts rest : List Token} (k : TokenKind)
      → NoStart k
      → Derives parse_float primary_level e ts rest
      → is_kind k ts ≡ false
  unfolding is_kind cur
  primary-starts k (i, y, p, l) (literal {t} {value = v} h) = l t.kind t.text v h
  primary-starts k (i, y, p, l) (param {t} {rest} h) = is_kind-no k tok_param t rest h p
  primary-starts k (i, y, p, l) (variable {t} {rest} n) = name-starts k i y t rest n
  primary-starts k (i, y, p, l) (property {t} {dot} {name} {rest} n d q) =
      name-starts k i y t (dot ∷ name ∷ rest) n
  primary-starts k (i, y, p, l) (call {t} {open_paren = o} {ts = ts} n q a c) =
      name-starts k i y t (o ∷ ts) n

  primary-no_not :
      {e : Expression} {ts rest : List Token}
      → Derives parse_float primary_level e ts rest
      → is_kind tok_not ts ≡ false
  unfolding same_kind
  primary-no_not =
      primary-starts tok_not (refl, refl, refl, λ k x v h. (literal_kinds parse_float k x v h).3)

  primary-no_paren :
      {e : Expression} {ts rest : List Token}
      → Derives parse_float primary_level e ts rest
      → is_kind tok_rparen ts ≡ false
  unfolding same_kind
  primary-no_paren =
      primary-starts tok_rparen (refl, refl, refl, λ k x v h. (literal_kinds parse_float k x v h).4)

  pub comparison-no_not :
      {e : Expression} {ts rest : List Token}
      → Derives parse_float comparison_level e ts rest
      → is_kind tok_not ts ≡ false
  comparison-no_not (alone d) = primary-no_not d
  comparison-no_not (compares d op d') = primary-no_not d

  -- No expression starts with a closing parenthesis.
  pub Derives-no_paren :
      {l : Level} {e : Expression} {ts rest : List Token}
      → Derives parse_float l e ts rest
      → is_kind tok_rparen ts ≡ false
  unfolding same_kind
  Derives-no_paren (alone d) = primary-no_paren d
  Derives-no_paren (compares d op d') = primary-no_paren d
  Derives-no_paren (plain d) = Derives-no_paren d
  Derives-no_paren (negated {t} {ts} n d) = is_kind-no tok_rparen tok_not t ts n refl
  Derives-no_paren (one_and d) = Derives-no_paren d
  Derives-no_paren (ands d more) = Derives-no_paren d
  Derives-no_paren (one_or d) = Derives-no_paren d
  Derives-no_paren (ors d more) = Derives-no_paren d
  Derives-no_paren (literal h) = primary-no_paren (literal h)
  Derives-no_paren (param h) = primary-no_paren (param h)
  Derives-no_paren (variable n) = primary-no_paren (variable n)
  Derives-no_paren (property n d p) = primary-no_paren (property n d p)
  Derives-no_paren (call n o a c) = primary-no_paren (call n o a c)

  -- What follows the first expression of a chain ends it.
  pub More-Ends :
      {k : TokenKind} {l : Level} {es : Expressions} {ts rest : List Token}
      → More parse_float k l es ts rest
      → goes_on l k ≡ false
      → Ends l rest
      → Ends l ts
  More-Ends no_other h ends = ends
  More-Ends {k} {l} (another {t = t} {ts = ts} is d more) h ends = Ends-token l k t ts h is
