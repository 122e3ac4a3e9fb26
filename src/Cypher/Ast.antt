-- ===== src/Cypher/Ast.antt =====
-- cypher_ast.go: the syntax trees. `none` stands for a nil pointer, slice or map, and for a `MaxHops`
-- of −1.
use goraphdb.Common.{ℕ, Bool, Option, List}
use goraphdb.Types.{Bytes, Value, Direction}

pub data ExplainMode : Type 0 where
  explain_none explain_only explain_profile : ExplainMode

pub data CompOp : Type 0 where
  op_eq op_neq op_lt op_gt op_lte op_gte : CompOp

-- An expression, with the fields that its `Kind` populates. `Expressions` are the `Args` of a call
-- and the `Operands` of AND and OR.
mutual
  pub data Expression : Type 0 where
    expr_literal : Value → Expression
    expr_var_ref : Bytes → Expression
    expr_prop_access : Bytes → Bytes → Expression
    expr_func_call : Bytes → Expressions → Expression
    expr_comparison : Expression → CompOp → Expression → Expression
    expr_and : Expressions → Expression
    expr_or : Expressions → Expression
    expr_not : Expression → Expression
    expr_param : Bytes → Expression

  pub data Expressions : Type 0 where
    no_more : Expressions
    operand : Expression → Expressions → Expressions

-- A value of a property map: a literal, or a reference to a parameter of the query.
pub data PropValue : Type 0 where
  literal : Value → PropValue
  param_ref : Bytes → PropValue

-- The property map of a node pattern: each key once, in the order of their first writing.
abbrev pub PatternProps : Type 0
PatternProps = List (Bytes × PropValue)

pub record NodePattern : Type 0 where
  pub variable : Bytes
  pub labels : List Bytes
  pub props : Option PatternProps

pub record RelPattern : Type 0 where
  pub variable : Bytes
  pub label : Bytes
  pub dir : Direction
  pub var_length : Bool
  pub min_hops : ℕ
  pub max_hops : Option ℕ

-- Also `MatchClause`, which holds a pattern and no more, and `CreatePattern`.
pub record Pattern : Type 0 where
  pub nodes : List NodePattern
  pub rels : List RelPattern

pub record SetItem : Type 0 where
  pub variable : Bytes
  pub property : Bytes
  pub value : Expression

pub record ReturnItem : Type 0 where
  pub expr : Expression
  pub alias : Bytes

-- The items of RETURN.
abbrev pub ReturnClause : Type 0
ReturnClause = List ReturnItem

pub record OrderItem : Type 0 where
  pub expr : Expression
  pub desc : Bool

pub record CypherQuery : Type 0 where
  pub explain : ExplainMode
  pub match_pattern : Pattern
  pub where_expr : Option Expression
  pub optional_match : Option Pattern
  pub optional_where : Option Expression
  pub set_items : List SetItem
  pub delete_vars : List Bytes
  pub returns : ReturnClause
  pub order_by : List OrderItem
  pub skip : ℕ
  pub limit : ℕ

pub record CypherWrite : Type 0 where
  pub creates : List Pattern
  pub returns : Option ReturnClause

pub record MergePattern : Type 0 where
  pub variable : Bytes
  pub labels : List Bytes
  pub props : Option PatternProps

pub record CypherMerge : Type 0 where
  pub pattern : MergePattern
  pub on_create_set : List SetItem
  pub on_match_set : List SetItem
  pub returns : Option ReturnClause
