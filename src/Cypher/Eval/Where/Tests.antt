-- ===== src/Cypher/Eval/Where/Tests.antt =====
-- Evaluations of a WHERE (cypher_exec.go) on one node.
use goraphdb.Common.{◌≡◌, refl, true, some, [], ◌∷◌, ltb, ◌==◌}
use goraphdb.Types.{Node, null, int}
use goraphdb.Cypher.Ast.{
  Expression, expr_and, expr_comparison, expr_literal, expr_or, expr_prop_access, expr_var_ref,
  operand, no_more, op_eq, op_lt,
}
use goraphdb.Cypher.Eval.{
  node, Bindings, Machine, gives, fails, unbound_variable, lookup, eval_bool,
}
use goraphdb.Cypher.Eval.Where.{Found, extract_where_equality, extract_where_equality-Found}

-- Numbers below the exact range of the floats, and no value is printed.
abbrev machine : Machine
machine = record { of_int = λ n. n; less = ltb; is_zero = λ n. n == 0; sprint = λ v. [] }

abbrev town : Node
town = record { id = 7; labels = []; props = some ((b'x' ∷ [], int 1) ∷ []) }

abbrev bound : Bindings
bound = (b'n' ∷ [], node town) ∷ []

-- n.y < 5 AND 1 = n.x AND n: a property that is not there is below every number.
abbrev condition : Expression
condition = expr_and (
    operand
      (expr_comparison (expr_prop_access (b'n' ∷ []) (b'y' ∷ [])) op_lt (expr_literal (int 5)))
      (operand
        (expr_comparison (expr_literal (int 1)) op_eq (expr_prop_access (b'n' ∷ []) (b'x' ∷ [])))
        (operand (expr_var_ref (b'n' ∷ [])) no_more)))

-- m OR n stops at the unbound variable; n OR m does not get to it.
unbound_first :
    eval_bool machine bound
      (expr_or (operand (expr_var_ref (b'm' ∷ [])) (operand (expr_var_ref (b'n' ∷ [])) no_more)))
    ≡ fails (unbound_variable (b'm' ∷ []))
unfolding eval_bool
unbound_first = refl

unbound_last :
    eval_bool machine bound
      (expr_or (operand (expr_var_ref (b'n' ∷ [])) (operand (expr_var_ref (b'm' ∷ [])) no_more)))
    ≡ gives true
unfolding eval_bool
unbound_last = refl

-- n.z = NULL holds of a node without z.
missing_is_null :
    eval_bool machine bound
      (expr_comparison (expr_prop_access (b'n' ∷ []) (b'z' ∷ [])) op_eq (expr_literal null))
    ≡ gives true
unfolding eval_bool
missing_is_null = refl

extract_where_equality-Found_example : Found machine (b'n' ∷ []) town bound (b'x' ∷ [], int 1)
unfolding eval_bool extract_where_equality lookup
extract_where_equality-Found_example =
    extract_where_equality-Found machine (b'n' ∷ []) town bound condition (b'x' ∷ [], int 1) refl
      refl refl
