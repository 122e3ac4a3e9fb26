-- ===== src/Cypher/Params/Again.antt =====
-- cypher_exec.go: queries without parameters, and runs of a cached query one after another.
use goraphdb.Common.{◌≡◌, refl, ap, suc, ◌∙◌, Bool, false, Option, none, some, List, [], ◌∷◌, ℕ}
use goraphdb.Types.{Bytes, Value}
use goraphdb.Lru.Chain.{find, write_entry, remove_entry}
use goraphdb.Lru.Chain.Laws.{same_refl, move_to_front_hit}
use goraphdb.Lru.Keys.{query_key}
use goraphdb.Lru.QueryCache.{query_get}
use goraphdb.Cypher.Ast.{
  PropValue, literal, param_ref, PatternProps, NodePattern, ReturnItem, ReturnClause, CypherQuery,
  Expression, Expressions, expr_literal, expr_var_ref, expr_prop_access, expr_func_call,
  expr_comparison, expr_and, expr_or, expr_not, expr_param, no_more, operand,
}
use goraphdb.Cypher.Params.{
  Params, Resolved, param_value, through, in_turn, or_missing, resolve_expr, resolve_exprs,
  resolve_prop, resolve_props, resolve_node, resolve_nodes, resolve_where, resolve_item,
  resolve_items, with_parts, resolve_params, executes, Plans, write_back, run_plan, run_cached,
  cypher_with_params,
}

-- Where nothing was missing, resolving again with any values changes nothing and misses nothing.
Settled : {A : Type 0} → (Params → A → Resolved A) → Resolved A → Type 0
Settled step r = r.1 ≡ none → (others : Params) → step others r.0 ≡ (r.0, none)

through-Settled :
    {A B : Type 0} (f : A → B) (step : Params → A → Resolved A) (whole : Params → B → Resolved B)
    (r : Resolved A)
    → ((others : Params) (a : A) → whole others (f a) ≡ through f (step others a))
    → Settled step r
    → Settled whole (through f r)
unfolding Settled
through-Settled f step whole (a, missing) law h e others =
    law others a ∙ ap (λ r. through f r) (h e others)

in_turn-Settled :
    {A B C : Type 0} (f : A → B → C) (step : Params → A → Resolved A)
    (next : Params → B → Resolved B) (whole : Params → C → Resolved C) (r : Resolved A) (b : B)
    (s : Resolved B)
    → ((others : Params) (x : A) (y : B)
        → whole others (f x y) ≡ in_turn f (step others x) y (next others y))
    → Settled step r
    → Settled next s
    → Settled whole (in_turn f r b s)
unfolding Settled
in_turn-Settled f step next whole (a, some name) b s law h k e others = cc
in_turn-Settled f step next whole (a, none) b (b', missing) law h k e others =
    law others a b' ∙ rw (h refl others, k e others) refl

or_missing-Settled :
    {A : Type 0} (step : Params → A → Resolved A) (name : Bytes) (a : A) (f : Value → A)
    (o : Option Value)
    → ((others : Params) (v : Value) → step others (f v) ≡ (f v, none))
    → Settled step (or_missing name a f o)
unfolding Settled
or_missing-Settled step name a f none law e others = cc
or_missing-Settled step name a f (some v) law e others = law others v

mutual
  unfolding resolve_expr Settled

  resolve_expr-Settled :
      (params : Params) (e : Expression) → Settled resolve_expr (resolve_expr params e)
  resolve_expr-Settled params (expr_param name) =
      or_missing-Settled resolve_expr name (expr_param name) (λ v. expr_literal v)
        (param_value name params) λ others v. refl
  resolve_expr-Settled params (expr_comparison l op r) =
      in_turn-Settled (λ l' r'. expr_comparison l' op r') resolve_expr resolve_expr resolve_expr
        (resolve_expr params l) r (resolve_expr params r) (λ others x y. refl)
        (resolve_expr-Settled params l) (resolve_expr-Settled params r)
  resolve_expr-Settled params (expr_and es) =
      through-Settled (λ es'. expr_and es') resolve_exprs resolve_expr (resolve_exprs params es)
        (λ others x. refl) (resolve_exprs-Settled params es)
  resolve_expr-Settled params (expr_or es) =
      through-Settled (λ es'. expr_or es') resolve_exprs resolve_expr (resolve_exprs params es)
        (λ others x. refl) (resolve_exprs-Settled params es)
  resolve_expr-Settled params (expr_not e) =
      through-Settled (λ e'. expr_not e') resolve_expr resolve_expr (resolve_expr params e)
        (λ others x. refl) (resolve_expr-Settled params e)
  resolve_expr-Settled params (expr_func_call f es) =
      through-Settled (λ es'. expr_func_call f es') resolve_exprs resolve_expr
        (resolve_exprs params es) (λ others x. refl) (resolve_exprs-Settled params es)
  resolve_expr-Settled params (expr_literal v) = λ h others. refl
  resolve_expr-Settled params (expr_var_ref x) = λ h others. refl
  resolve_expr-Settled params (expr_prop_access x p) = λ h others. refl

  resolve_exprs-Settled :
      (params : Params) (es : Expressions) → Settled resolve_exprs (resolve_exprs params es)
  resolve_exprs-Settled params no_more = λ h others. refl
  resolve_exprs-Settled params (operand e es) =
      in_turn-Settled (λ e' es'. operand e' es') resolve_expr resolve_exprs resolve_exprs
        (resolve_expr params e) es (resolve_exprs params es) (λ others x y. refl)
        (resolve_expr-Settled params e) (resolve_exprs-Settled params es)

resolve_prop-Settled :
    (params : Params) (v : PropValue) → Settled resolve_prop (resolve_prop params v)
unfolding resolve_prop Settled
resolve_prop-Settled params (literal v) = λ h others. refl
resolve_prop-Settled params (param_ref name) =
    or_missing-Settled resolve_prop name (param_ref name) (λ v. literal v) (param_value name params)
      λ others v. refl

resolve_props-Settled :
    (params : Params) (props : PatternProps) → Settled resolve_props (resolve_props params props)
unfolding resolve_props Settled
resolve_props-Settled params [] = λ h others. refl
resolve_props-Settled params ((k, v) ∷ props) =
    in_turn-Settled (λ v' props'. (k, v') ∷ props') resolve_prop resolve_props resolve_props
      (resolve_prop params v) props (resolve_props params props) (λ others x y. refl)
      (resolve_prop-Settled params v) (resolve_props-Settled params props)

resolve_node-Settled :
    (params : Params) (node : NodePattern) → Settled resolve_node (resolve_node params node)
unfolding resolve_node Settled
resolve_node-Settled params node = from node.props
  where
    from :
        (props : Option PatternProps)
        → Settled resolve_node (elim props [
          | none ↦ (record node { props = none }, none)
          | some ps ↦ through (λ qs. record node { props = some qs }) (resolve_props params ps)
        ])
    from none = λ h others. refl
    from (some props) =
        through-Settled (λ qs. record node { props = some qs }) resolve_props resolve_node
          (resolve_props params props) (λ others x. refl) (resolve_props-Settled params props)

resolve_nodes-Settled :
    (params : Params) (nodes : List NodePattern)
    → Settled resolve_nodes (resolve_nodes params nodes)
unfolding resolve_nodes Settled
resolve_nodes-Settled params [] = λ h others. refl
resolve_nodes-Settled params (node ∷ nodes) =
    in_turn-Settled (λ n ns. n ∷ ns) resolve_node resolve_nodes resolve_nodes
      (resolve_node params node) nodes (resolve_nodes params nodes) (λ others x y. refl)
      (resolve_node-Settled params node) (resolve_nodes-Settled params nodes)

resolve_where-Settled :
    (params : Params) (expr : Option Expression) → Settled resolve_where (resolve_where params expr)
unfolding resolve_where Settled
resolve_where-Settled params none = λ h others. refl
resolve_where-Settled params (some e) =
    through-Settled (λ x. some x) resolve_expr resolve_where (resolve_expr params e)
      (λ others x. refl) (resolve_expr-Settled params e)

resolve_item-Settled :
    (params : Params) (item : ReturnItem) → Settled resolve_item (resolve_item params item)
unfolding resolve_item
resolve_item-Settled params item =
    through-Settled (λ e. record item { expr = e }) resolve_expr resolve_item
      (resolve_expr params item.expr) (λ others x. refl) (resolve_expr-Settled params item.expr)

resolve_items-Settled :
    (params : Params) (items : ReturnClause) → Settled resolve_items (resolve_items params items)
unfolding resolve_items Settled
resolve_items-Settled params [] = λ h others. refl
resolve_items-Settled params (item ∷ items) =
    in_turn-Settled (λ i others. i ∷ others) resolve_item resolve_items resolve_items
      (resolve_item params item) items (resolve_items params items) (λ others x y. refl)
      (resolve_item-Settled params item) (resolve_items-Settled params items)

resolve_params-Settled :
    (params : Params) (q : CypherQuery) → Settled resolve_params (resolve_params params q)
unfolding resolve_params with_parts
resolve_params-Settled params q =
    in_turn-Settled (λ nodes (expr, items). with_parts q nodes expr items) resolve_nodes later
      resolve_params (resolve_nodes params q.match_pattern.nodes) (q.where_expr, q.returns)
      (later params (q.where_expr, q.returns)) (λ others x y. refl)
      (resolve_nodes-Settled params q.match_pattern.nodes)
      (in_turn-Settled (λ expr items. (expr, items)) resolve_where resolve_items later
        (resolve_where params q.where_expr) q.returns (resolve_items params q.returns)
        (λ others x y. refl) (resolve_where-Settled params q.where_expr)
        (resolve_items-Settled params q.returns))
  where
    later : Params → Option Expression × ReturnClause → Resolved (Option Expression × ReturnClause)
    later others (expr, items) =
        in_turn (λ e i. (e, i)) (resolve_where others expr) items (resolve_items others items)

-- Once parameters were resolved, resolving with any others changes nothing and misses nothing.
pub resolve_params_again :
    (params others : Params) (q : CypherQuery)
    → (resolve_params params q).1 ≡ none
    → resolve_params others (resolve_params params q).0 ≡ ((resolve_params params q).0, none)
unfolding Settled
resolve_params_again params others q h = resolve_params-Settled params q h others

-- The plans when the query was looked up and found.
touched : Bytes → Option CypherQuery → Plans → Plans
touched query plan plans = record plans {
  items = (query, plan) ∷ remove_entry query plans.items;
  hits = suc plans.hits;
}

query_get-hit :
    (query : Bytes) (plan : Option CypherQuery) (plans : Plans)
    → find query plans.items ≡ some plan
    → query_get query plans ≡ (touched query plan plans, some plan)
unfolding query_get touched
query_get-hit query plan plans h =
    rw (query_get, h, move_to_front_hit query plan plans.items h) refl

-- A run of a cached query that misses no parameter: the resolved query is executed, and cached.
left_behind : Bytes → Params → CypherQuery → Plans → Plans
left_behind query params ast plans = record (touched query (some ast) plans) {
  items = (query, some (resolve_params params ast).0) ∷ remove_entry query plans.items;
}

module _ (parse_float : Bytes → ℕ × Bool) (query : Bytes) where
  write_back-hit :
      (old : CypherQuery) (plans : Plans) (r : Resolved CypherQuery)
      → r.1 ≡ none
      → write_back query (touched query (some old) plans) r ≡ (
        record (touched query (some old) plans) {
          items = (query, some r.0) ∷ remove_entry query plans.items;
        },
        executes r.0,
      )
  unfolding write_back touched write_entry
  write_back-hit old plans (ast, some name) h = cc
  write_back-hit old plans (ast, none) h = rw (same_refl query) refl

  run-hit :
      (params : Params) (ast : CypherQuery) (plans : Plans)
      → find query plans.items ≡ some (some ast)
      → (resolve_params params ast).1 ≡ none
      → cypher_with_params parse_float false query params plans
        ≡ (left_behind query params ast plans, executes (resolve_params params ast).0)
  unfolding cypher_with_params run_cached run_plan left_behind
  run-hit params ast plans h e =
      ap (λ got. run_cached parse_float query params got) (query_get-hit query (some ast) plans h)
      ∙ write_back-hit ast plans (resolve_params params ast) e

  left_behind_found :
      (params : Params) (ast : CypherQuery) (plans : Plans)
      → find query (left_behind query params ast plans).items
        ≡ some (some (resolve_params params ast).0)
  unfolding left_behind find
  left_behind_found params ast plans = rw (same_refl query) refl

  -- On an open database a cached query whose parameters all have values is executed with them. The
  -- next run of the same text executes that query again, with the first values, whichever values it
  -- is given.
  pub cypher_with_params_again :
      (params others : Params) (ast : CypherQuery) (plans : Plans)
      → find query plans.items ≡ some (some ast)
      → (resolve_params params ast).1 ≡ none
      → let (after, ran) = cypher_with_params parse_float false query params plans in
        (ran ≡ executes (resolve_params params ast).0)
        × ((cypher_with_params parse_float false query others after).1
            ≡ executes (resolve_params params ast).0)
  cypher_with_params_again params others ast plans h e =
      let first = run-hit params ast plans h e in
      let again = resolve_params_again params others ast e in
      let second =
        run-hit others (resolve_params params ast).0 (left_behind query params ast plans)
          (left_behind_found params ast plans) (ap (λ r. r.1) again) in
      rw first (refl, ap (λ r. r.1) second ∙ ap (λ r. executes r.0) again)
