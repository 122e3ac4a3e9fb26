-- ===== src/Cypher/Eval.antt =====
-- cypher_exec.go: the evaluation of expressions on bindings. Of the numeric types there are int64 and
-- float64, the one read as the other for a comparison. Errors carry what their messages print.
pub mod Where
use goraphdb.Common.{
  ℕ, zero, suc, ◌+◌, Bool, true, false, not, ◌&&◌, ◌||◌, Option, none, some, List, [], ◌∷◌, leb,
  ◌==◌, ltb, if◌then◌else◌, same_bytes, map,
}
use goraphdb.Types.{Bytes, Value, null, bool, int, float, str, Node, Edge, PropMap, Props}
use goraphdb.Cypher.Ast.{
  CompOp, op_eq, op_neq, op_lt, op_gt, op_lte, op_gte, PropValue, literal, PatternProps, Expression,
  Expressions, expr_literal, expr_var_ref, expr_prop_access, expr_func_call, expr_comparison,
  expr_and, expr_or, expr_not, expr_param, no_more, operand,
}

-- What a variable is bound to, and what an expression evaluates to. The nil of Go is `value null`.
pub data Bound : Type 0 where
  value : Value → Bound
  node : Node → Bound
  edge : Edge → Bound

abbrev pub Bindings : Type 0
Bindings = List (Bytes × Bound)

-- Of the standard library: float64 values as their 64 bits, and `fmt.Sprint`.
pub record Machine : Type 0 where
  pub of_int : ℕ → ℕ
  pub less : ℕ → ℕ → Bool
  pub is_zero : ℕ → Bool
  pub sprint : Bound → Bytes

pub data EvalError : Type 0 where
  unbound_variable unknown_function : Bytes → EvalError
  type_needs_one id_needs_one unsupported_expression : EvalError

pub data Evaluated (A : Type 0) : Type 0 where
  gives : A → Evaluated A
  fails : EvalError → Evaluated A

abbrev pub and_so : {A B : Type 0} → Evaluated A → (A → Evaluated B) → Evaluated B
and_so (gives a) f = f a
and_so (fails e) f = fails e

-- `m[key]`, of a map.
unfoldable pub lookup {ℓ} : {A : Type ℓ} → Bytes → List (Bytes × A) → Option A
lookup key [] = none
lookup key ((k, v) ∷ l) = if same_bytes k key then some v else lookup key l

abbrev pub or_nil : Option Value → Value
or_nil none = null
or_nil (some v) = v

abbrev pub prop_of : Props → Bytes → Value
prop_of none prop = null
prop_of (some props) prop = or_nil (lookup prop props)

abbrev label_key : Bytes
label_key = b'l' ∷ b'a' ∷ b'b' ∷ b'e' ∷ b'l' ∷ []

abbrev type_key : Bytes
type_key = b't' ∷ b'y' ∷ b'p' ∷ b'e' ∷ []

abbrev id_key : Bytes
id_key = b'i' ∷ b'd' ∷ []

unfoldable pub get_property : Bound → Bytes → Value
unfolding lookup
get_property (node n) prop = prop_of n.props prop
get_property (edge e) prop =
    if same_bytes prop label_key || same_bytes prop type_key
    then str e.label
    else prop_of e.props prop
get_property (value v) prop = null

-- The results −1, 0 and 1 of a comparison.
pub data Sign : Type 0 where
  below equal above : Sign

-- `strings.Compare`.
unfoldable pub compare_bytes : Bytes → Bytes → Sign
compare_bytes [] [] = equal
compare_bytes [] (y ∷ ys) = below
compare_bytes (x ∷ xs) [] = above
compare_bytes (x ∷ xs) (y ∷ ys) =
    let rest = compare_bytes xs ys in if ltb x y then below else if ltb y x then above else rest

unfoldable pub compare_bools : Bool → Bool → Sign
compare_bools false true = below
compare_bools true false = above
compare_bools _ _ = equal

unfoldable pub is_nil : Bound → Bool
is_nil (value null) = true
is_nil _ = false

-- The type assertions `v.(string)` and `v.(bool)`.
unfoldable pub as_string : Bound → Option Bytes
as_string (value (str s)) = some s
as_string _ = none

unfoldable pub as_bool : Bound → Option Bool
as_bool (value (bool b)) = some b
as_bool _ = none

-- Two values that have this type are compared as such.
abbrev pub of_type : {A : Type 0} → (A → A → Sign) → Option A → Option A → Sign → Sign
of_type compare (some x) (some y) rest = compare x y
of_type compare x y rest = rest

unfoldable pub holds_of : CompOp → Sign → Bool
holds_of op_eq equal = true
holds_of op_neq below = true
holds_of op_neq above = true
holds_of op_lt below = true
holds_of op_gt above = true
holds_of op_lte below = true
holds_of op_lte equal = true
holds_of op_gte above = true
holds_of op_gte equal = true
holds_of _ _ = false

-- `strings.ToLower` on ASCII.
unfoldable pub to_lower : Bytes → Bytes
to_lower = map (λ c. if leb b'A' c && leb c b'Z' then c + 32 else c)

unfoldable pub type_of : Bound → Bound
type_of (edge e) = value (str e.label)
type_of _ = value null

unfoldable pub id_of : Bound → Bound
id_of (node n) = value (int n.id)
id_of (edge e) = value (int e.id)
id_of (value v) = value null

-- The functions of one argument: none where there is another number of them.
unfoldable pub apply_func : Bytes → Option (Evaluated Bound) → Evaluated Bound
unfolding to_lower type_of id_of
apply_func name none =
    if same_bytes (to_lower name) type_key
    then fails type_needs_one
    else if same_bytes (to_lower name) id_key
    then fails id_needs_one
    else fails (unknown_function name)
apply_func name (some arg) =
    if same_bytes (to_lower name) type_key
    then and_so arg (λ v. gives (type_of v))
    else if same_bytes (to_lower name) id_key
    then and_so arg (λ v. gives (id_of v))
    else fails (unknown_function name)

abbrev pub as_value : Evaluated Bool → Evaluated Bound
as_value r = and_so r (λ b. gives (value (bool b)))

-- A round of the loop of AND, and of OR.
abbrev pub all_of : Evaluated Bool → Evaluated Bool → Evaluated Bool
all_of (fails e) rest = fails e
all_of (gives false) rest = gives false
all_of (gives true) rest = rest

abbrev pub any_of : Evaluated Bool → Evaluated Bool → Evaluated Bool
any_of (fails e) rest = fails e
any_of (gives true) rest = gives true
any_of (gives false) rest = rest

unfoldable pub eval_var : Bytes → Option Bound → Evaluated Bound
eval_var name none = fails (unbound_variable name)
eval_var name (some v) = gives v

module _ (machine : Machine) where
  unfoldable pub to_float64 : Bound → Option ℕ
  to_float64 (value (int n)) = some (machine.of_int n)
  to_float64 (value (float f)) = some f
  to_float64 _ = none

  unfoldable pub compare_floats : ℕ → ℕ → Sign
  compare_floats a b = if machine.less a b then below else if machine.less b a then above else equal

  unfoldable pub compare_values : Bound → Bound → Sign
  unfolding is_nil to_float64 compare_floats as_string as_bool compare_bytes compare_bools
  compare_values a b =
      if is_nil a && is_nil b
      then equal
      else if is_nil a
      then below
      else if is_nil b
      then above
      else of_type compare_floats (to_float64 a) (to_float64 b) (
          of_type compare_bytes (as_string a) (as_string b) (
            of_type compare_bools (as_bool a) (as_bool b)
              (compare_bytes (machine.sprint a) (machine.sprint b))))

  unfoldable pub to_bool : Bound → Bool
  to_bool (value null) = false
  to_bool (value (bool b)) = b
  to_bool (value (int n)) = not (n == 0)
  to_bool (value (float f)) = not (machine.is_zero f)
  to_bool (value (str [])) = false
  to_bool _ = true

  abbrev pub truth : Evaluated Bound → Evaluated Bool
  truth r = and_so r (λ v. gives (to_bool v))

  unfoldable mutual
    unfolding lookup get_property compare_values to_bool holds_of apply_func eval_var

    pub eval_expr : Bindings → Expression → Evaluated Bound
    eval_expr bs (expr_literal v) = gives (value v)
    eval_expr bs (expr_var_ref x) = eval_var x (lookup x bs)
    eval_expr bs (expr_prop_access x prop) =
        and_so (eval_var x (lookup x bs)) (λ v. gives (value (get_property v prop)))
    eval_expr bs (expr_func_call f args) = apply_func f (eval_argument bs args)
    eval_expr bs (expr_comparison l op r) =
        let left = eval_expr bs l in
        let right = eval_expr bs r in
        and_so left λ a. and_so right λ b. gives (value (bool (holds_of op (compare_values a b))))
    eval_expr bs (expr_and es) = as_value (eval_all bs es)
    eval_expr bs (expr_or es) = as_value (eval_any bs es)
    eval_expr bs (expr_not e) = and_so (truth (eval_expr bs e)) (λ b. gives (value (bool (not b))))
    eval_expr bs (expr_param x) = fails unsupported_expression

    -- The only argument.
    pub eval_argument : Bindings → Expressions → Option (Evaluated Bound)
    eval_argument bs no_more = none
    eval_argument bs (operand e no_more) = some (eval_expr bs e)
    eval_argument bs (operand e (operand f es)) = none

    pub eval_all : Bindings → Expressions → Evaluated Bool
    eval_all bs no_more = gives true
    eval_all bs (operand e es) = all_of (truth (eval_expr bs e)) (eval_all bs es)

    pub eval_any : Bindings → Expressions → Evaluated Bool
    eval_any bs no_more = gives false
    eval_any bs (operand e es) = any_of (truth (eval_expr bs e)) (eval_any bs es)

  unfoldable pub eval_bool : Bindings → Expression → Evaluated Bool
  unfolding eval_expr to_bool
  eval_bool bs e = truth (eval_expr bs e)
