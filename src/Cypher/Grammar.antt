-- ===== src/Cypher/Grammar.antt =====
-- cypher_parser.go: a grammar of expressions, as derivations. It is the one of the comment at the head of
-- that file, with what the parser takes beyond it: TYPE as a name, calls with no argument or with
-- several, and parameters. `Derives level e ts rest` says that the tokens from `ts` up to `rest` are an
-- expression of that level with the tree `e`. No rule looks at what follows it.
pub mod Sound
pub mod Ends
pub mod Branches
pub mod Follows
pub mod Yields
pub mod Complete
use goraphdb.Common.{ℕ, Bool, ◌≡◌, ◌⊎◌, Option, some, List, [], ◌∷◌}
use goraphdb.Types.{Bytes, Value}
use goraphdb.Cypher.Tokens.{TokenKind, Token}
use goraphdb.Cypher.Tokens.{
  tok_and, tok_comma, tok_dot, tok_ident, tok_lparen, tok_not, tok_or, tok_param, tok_rparen,
  tok_type,
}
use goraphdb.Cypher.Ast.{
  CompOp, Expression, Expressions, expr_literal, expr_var_ref, expr_prop_access, expr_func_call,
  expr_comparison, expr_and, expr_or, expr_not, expr_param, no_more, operand,
}
use goraphdb.Cypher.Parser.Expressions.{primary_literal, comparison_op}

-- OrExpr, AndExpr, NotExpr, Comparison and Primary.
pub data Level : Type 0 where
  or_level and_level not_level comparison_level primary_level : Level

-- TYPE is no name in the comment.
abbrev pub IsName : TokenKind → Type 0
IsName k = (k ≡ tok_ident) ⊎ (k ≡ tok_type)

module _ (parse_float : Bytes → ℕ × Bool) where
  mutual
    pub data Derives : Level → Expression → List Token → List Token → Type 0 where
      literal :
          {t : Token} {rest : List Token} {value : Value}
          → primary_literal parse_float t.kind t.text ≡ some value
          → Derives primary_level (expr_literal value) (t ∷ rest) rest
      -- Not in the comment.
      param :
          {t : Token} {rest : List Token}
          → t.kind ≡ tok_param
          → Derives primary_level (expr_param t.text) (t ∷ rest) rest
      variable :
          {t : Token} {rest : List Token}
          → IsName t.kind
          → Derives primary_level (expr_var_ref t.text) (t ∷ rest) rest
      property :
          {t dot name : Token} {rest : List Token}
          → IsName t.kind
          → dot.kind ≡ tok_dot
          → name.kind ≡ tok_ident
          → Derives primary_level (expr_prop_access t.text name.text) (t ∷ dot ∷ name ∷ rest) rest
      -- In the comment with one argument only.
      call :
          {t open_paren close_paren : Token} {args : Expressions} {ts rest : List Token}
          → IsName t.kind
          → open_paren.kind ≡ tok_lparen
          → Arguments args ts (close_paren ∷ rest)
          → close_paren.kind ≡ tok_rparen
          → Derives primary_level (expr_func_call t.text args) (t ∷ open_paren ∷ ts) rest
      alone :
          {e : Expression} {ts rest : List Token}
          → Derives primary_level e ts rest
          → Derives comparison_level e ts rest
      compares :
          {left right : Expression} {op : CompOp} {t : Token} {ts us rest : List Token}
          → Derives primary_level left ts (t ∷ us)
          → comparison_op t.kind ≡ some op
          → Derives primary_level right us rest
          → Derives comparison_level (expr_comparison left op right) ts rest
      plain :
          {e : Expression} {ts rest : List Token}
          → Derives comparison_level e ts rest
          → Derives not_level e ts rest
      negated :
          {e : Expression} {t : Token} {ts rest : List Token}
          → t.kind ≡ tok_not
          → Derives comparison_level e ts rest
          → Derives not_level (expr_not e) (t ∷ ts) rest
      one_and :
          {e : Expression} {ts rest : List Token}
          → Derives not_level e ts rest
          → Derives and_level e ts rest
      ands :
          {e f : Expression} {es : Expressions} {ts us rest : List Token}
          → Derives not_level e ts us
          → More tok_and not_level (operand f es) us rest
          → Derives and_level (expr_and (operand e (operand f es))) ts rest
      one_or :
          {e : Expression} {ts rest : List Token}
          → Derives and_level e ts rest
          → Derives or_level e ts rest
      ors :
          {e f : Expression} {es : Expressions} {ts us rest : List Token}
          → Derives and_level e ts us
          → More tok_or and_level (operand f es) us rest
          → Derives or_level (expr_or (operand e (operand f es))) ts rest

    -- Expressions of a level, each behind a token of the given kind.
    pub data More : TokenKind → Level → Expressions → List Token → List Token → Type 0 where
      no_other : {k : TokenKind} {l : Level} {rest : List Token} → More k l no_more rest rest
      another :
          {k : TokenKind} {l : Level} {e : Expression} {es : Expressions} {t : Token}
          {ts us rest : List Token}
          → t.kind ≡ k
          → Derives l e ts us
          → More k l es us rest
          → More k l (operand e es) (t ∷ ts) rest

    -- The arguments of a call.
    pub data Arguments : Expressions → List Token → List Token → Type 0 where
      no_arguments : {rest : List Token} → Arguments no_more rest rest
      arguments :
          {e : Expression} {es : Expressions} {ts us rest : List Token}
          → Derives or_level e ts us
          → More tok_comma or_level es us rest
          → Arguments (operand e es) ts rest
