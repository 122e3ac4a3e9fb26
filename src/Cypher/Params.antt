-- ===== src/Cypher/Params.antt =====
-- cypher_exec.go: `resolveParams` and `CypherWithParams`. `resolved := *ast` copies the fields of the
-- query, and what they point to is shared: the property maps, the expression of WHERE and the items
-- of RETURN that `resolveParams` writes are those of the cached query. So each function returns what
-- it leaves behind with the missing parameter, and a run writes that back into the cache.
mod Tests
pub mod Again
use goraphdb.Common.{
  Bool, true, false, Option, none, some, List, [], ◌∷◌, if◌then◌else◌, same_bytes, ℕ,
}
use goraphdb.Types.{Bytes, Value}
use goraphdb.Lru.Chain.{write_entry}
use goraphdb.Lru.Keys.{query_key}
use goraphdb.Lru.QueryCache.{QueryCache, query_get, query_put}
use goraphdb.Cypher.Ast.{
  PropValue, literal, param_ref, PatternProps, NodePattern, Pattern, ReturnItem, ReturnClause,
  CypherQuery, CompOp, Expression, Expressions, expr_literal, expr_var_ref, expr_prop_access,
  expr_func_call, expr_comparison, expr_and, expr_or, expr_not, expr_param, no_more, operand,
}
use goraphdb.Cypher.Parser.{ParseError, Outcome, parsed, refused, out_of_fuel}
use goraphdb.Cypher.Parser.Queries.{ParsedCypher, read, write, merge, parse_cypher}

-- The values given for the parameters.
abbrev pub Params : Type 0
Params = List (Bytes × Value)

unfoldable pub param_value : Bytes → Params → Option Value
param_value name [] = none
param_value name ((k, v) ∷ params) = if same_bytes k name then some v else param_value name params

-- What is left behind, and the parameter that was missing.
abbrev pub Resolved : Type 0 → Type 0
Resolved A = A × Option Bytes

abbrev pub through : {A B : Type 0} → (A → B) → Resolved A → Resolved B
through f (a, missing) = (f a, missing)

-- One part after another: the second stays as it was where the first has a parameter missing.
abbrev pub in_turn : {A B C : Type 0} → (A → B → C) → Resolved A → B → Resolved B → Resolved C
in_turn f (a, some name) b r = (f a b, some name)
in_turn f (a, none) b (b', missing) = (f a b', missing)

abbrev pub or_missing : {A : Type 0} → Bytes → A → (Value → A) → Option Value → Resolved A
or_missing name a f none = (a, some name)
or_missing name a f (some v) = (f v, none)

unfoldable mutual
  unfolding param_value

  pub resolve_expr : Params → Expression → Resolved Expression
  resolve_expr params (expr_param name) =
      or_missing name (expr_param name) (λ v. expr_literal v) (param_value name params)
  resolve_expr params (expr_comparison l op r) =
      in_turn (λ l' r'. expr_comparison l' op r') (resolve_expr params l) r (resolve_expr params r)
  resolve_expr params (expr_and es) = through (λ es'. expr_and es') (resolve_exprs params es)
  resolve_expr params (expr_or es) = through (λ es'. expr_or es') (resolve_exprs params es)
  resolve_expr params (expr_not e) = through (λ e'. expr_not e') (resolve_expr params e)
  resolve_expr params (expr_func_call f es) =
      through (λ es'. expr_func_call f es') (resolve_exprs params es)
  resolve_expr params (expr_literal v) = (expr_literal v, none)
  resolve_expr params (expr_var_ref x) = (expr_var_ref x, none)
  resolve_expr params (expr_prop_access x p) = (expr_prop_access x p, none)

  pub resolve_exprs : Params → Expressions → Resolved Expressions
  resolve_exprs params no_more = (no_more, none)
  resolve_exprs params (operand e es) =
      in_turn (λ e' es'. operand e' es') (resolve_expr params e) es (resolve_exprs params es)

-- A value of a property map.
unfoldable pub resolve_prop : Params → PropValue → Resolved PropValue
unfolding param_value
resolve_prop params (literal v) = (literal v, none)
resolve_prop params (param_ref name) =
    or_missing name (param_ref name) (λ v. literal v) (param_value name params)

-- The loop over a property map, in one of the orders in which it may run.
unfoldable pub resolve_props : Params → PatternProps → Resolved PatternProps
unfolding resolve_prop
resolve_props params [] = ([], none)
resolve_props params ((k, v) ∷ props) =
    in_turn (λ v' props'. (k, v') ∷ props') (resolve_prop params v) props
      (resolve_props params props)

unfoldable pub resolve_node : Params → NodePattern → Resolved NodePattern
unfolding resolve_props
resolve_node params node = elim node.props [
  | none ↦ (record node { props = none }, none)
  | some props ↦
      through (λ props'. record node { props = some props' }) (resolve_props params props)
]

unfoldable pub resolve_nodes : Params → List NodePattern → Resolved (List NodePattern)
unfolding resolve_node
resolve_nodes params [] = ([], none)
resolve_nodes params (node ∷ nodes) =
    in_turn (λ n ns. n ∷ ns) (resolve_node params node) nodes (resolve_nodes params nodes)

unfoldable pub resolve_where : Params → Option Expression → Resolved (Option Expression)
unfolding resolve_expr
resolve_where params none = (none, none)
resolve_where params (some e) = through (λ e'. some e') (resolve_expr params e)

unfoldable pub resolve_item : Params → ReturnItem → Resolved ReturnItem
unfolding resolve_expr
resolve_item params item = through (λ e. record item { expr = e }) (resolve_expr params item.expr)

unfoldable pub resolve_items : Params → ReturnClause → Resolved ReturnClause
unfolding resolve_item
resolve_items params [] = ([], none)
resolve_items params (item ∷ items) =
    in_turn (λ i others. i ∷ others) (resolve_item params item) items (resolve_items params items)

unfoldable pub with_parts :
    CypherQuery → List NodePattern → Option Expression → ReturnClause → CypherQuery
with_parts q nodes expr items = record q {
  match_pattern = record q.match_pattern { nodes = nodes };
  where_expr = expr;
  returns = items;
}

unfoldable pub resolve_params : Params → CypherQuery → Resolved CypherQuery
unfolding resolve_nodes resolve_where resolve_items with_parts
resolve_params params q =
    in_turn (λ nodes (expr, items). with_parts q nodes expr items)
      (resolve_nodes params q.match_pattern.nodes) (q.where_expr, q.returns)
      (in_turn (λ expr items. (expr, items)) (resolve_where params q.where_expr) q.returns
        (resolve_items params q.returns))

-- How a run ends before the query is executed: the query that `executeCypher` gets, or an error. A
-- MERGE has no read query, and `*ast` panics.
pub data Ran : Type 0 where
  closed : Ran
  cannot_parse : ParseError → Ran
  create_unsupported : Ran
  nil_query : Ran
  missing_parameter : Bytes → Ran
  executes : CypherQuery → Ran
  no_fuel : Ran

-- A cached pointer may be nil.
abbrev pub Plans : Type 0
Plans = QueryCache (Option CypherQuery)

-- The shared query is the cached one, whether a parameter was missing or not.
unfoldable pub write_back : Bytes → Plans → Resolved CypherQuery → Plans × Ran
unfolding write_entry
write_back query plans (ast, some name) =
    (record plans { items = write_entry query (some ast) plans.items }, missing_parameter name)
write_back query plans (ast, none) =
    (record plans { items = write_entry query (some ast) plans.items }, executes ast)

-- Behind the cache.
unfoldable pub run_plan : Bytes → Params → Plans → Option CypherQuery → Plans × Ran
unfolding resolve_params write_back
run_plan query params plans none = (plans, nil_query)
run_plan query params plans (some ast) = write_back query plans (resolve_params params ast)

-- A query that is not cached.
unfoldable pub run_parsed : Bytes → Params → Plans → Outcome ParsedCypher → Plans × Ran
unfolding run_plan query_put
run_parsed query params plans (parsed (write w) rest) = (plans, create_unsupported)
run_parsed query params plans (parsed (read ast) rest) =
    run_plan query params (query_put query (some ast) plans) (some ast)
run_parsed query params plans (parsed (merge m) rest) =
    run_plan query params (query_put query none plans) none
run_parsed query params plans (refused e) = (plans, cannot_parse e)
run_parsed query params plans out_of_fuel = (plans, no_fuel)

-- `ast == nil` holds of a missing entry and of a nil one.
unfoldable pub run_cached :
    (Bytes → ℕ × Bool) → Bytes → Params → Plans × Option (Option CypherQuery) → Plans × Ran
unfolding run_plan run_parsed parse_cypher
run_cached parse_float query params (plans, some (some ast)) =
    run_plan query params plans (some ast)
run_cached parse_float query params (plans, some none) =
    run_parsed query params plans (parse_cypher parse_float query)
run_cached parse_float query params (plans, none) =
    run_parsed query params plans (parse_cypher parse_float query)

unfoldable pub cypher_with_params : (Bytes → ℕ × Bool) → Bool → Bytes → Params → Plans → Plans × Ran
unfolding query_get run_cached
cypher_with_params parse_float is_closed query params plans =
    if is_closed
    then (plans, closed)
    else run_cached parse_float query params (query_get query plans)
