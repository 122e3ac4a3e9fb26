-- ===== src/Cypher/Params/Tests.antt =====
-- A cached query with a parameter (cypher_exec.go), run twice with different values.
use goraphdb.Common.{ℕ, ◌≡◌, refl, Bool, false, none, some, [], ◌∷◌}
use goraphdb.Types.{Bytes, int}
use goraphdb.Lru.Chain.{find}
use goraphdb.Cypher.Ast.{Expression, CypherQuery, expr_literal, expr_param, explain_none}
use goraphdb.Cypher.Params.{
  Params, Plans, executes, missing_parameter, resolve_params, cypher_with_params,
}
use goraphdb.Cypher.Params.Again.{cypher_with_params_again}

-- No test reads a float.
abbrev no_floats : Bytes → ℕ × Bool
no_floats text = (0, false)

-- MATCH (n) RETURN $p
abbrev text : Bytes
text = b'q' ∷ []

abbrev returning : Expression → CypherQuery
returning e = record {
  explain = explain_none;
  match_pattern = record {
    nodes = record { variable = b'n' ∷ []; labels = []; props = none } ∷ [];
    rels = [];
  };
  where_expr = none;
  optional_match = none;
  optional_where = none;
  set_items = [];
  delete_vars = [];
  returns = record { expr = e; alias = [] } ∷ [];
  order_by = [];
  skip = 0;
  limit = 0;
}

abbrev plans : Plans
plans = record {
  items = (text, some (returning (expr_param (b'p' ∷ [])))) ∷ [];
  capacity = 10;
  hits = 0;
  misses = 0;
}

abbrev with_value : ℕ → Params
with_value n = (b'p' ∷ [], int n) ∷ []

missing : (cypher_with_params no_floats false text [] plans).1 ≡ missing_parameter (b'p' ∷ [])
unfolding cypher_with_params find
missing = refl

cypher_with_params_again_example :
    let (after, ran) = cypher_with_params no_floats false text (with_value 1) plans in
    (ran ≡ executes (returning (expr_literal (int 1))))
    × ((cypher_with_params no_floats false text (with_value 2) after).1
        ≡ executes (returning (expr_literal (int 1))))
unfolding resolve_params find
cypher_with_params_again_example =
    cypher_with_params_again no_floats text (with_value 1) (with_value 2)
      (returning (expr_param (b'p' ∷ []))) plans refl refl
