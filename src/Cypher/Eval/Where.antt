-- ===== src/Cypher/Eval/Where.antt =====
-- cypher_exec.go: the equality that `extractWhereEquality` finds in a WHERE, by which
-- `execNodeMatchWhereIndexed` asks an index for candidates.
mod Tests
use mathlib.Core.Option.{some-injective}
use goraphdb.Common.{
  subst, same_bytes_iff, ℕ, ◌≡◌, ◌≢◌, refl, sym, ap, ◌∙◌, Bool, true, false, ◌&&◌, Option, none,
  some, List, [], ◌∷◌, ltb, if◌then◌else◌, same_bytes,
}
use goraphdb.Types.{Node, Bytes, Value, null, bool, int, float, str}
use goraphdb.Cypher.Ast.{
  CompOp, op_eq, op_neq, op_lt, op_gt, op_lte, op_gte, expr_var_ref, expr_func_call, expr_or,
  expr_not, expr_param, Expression, Expressions, expr_literal, expr_prop_access, expr_comparison,
  expr_and, no_more, operand,
}
use goraphdb.Cypher.Eval.{
  Bound, value, node, Bindings, Machine, Evaluated, gives, fails, Sign, below, equal, above,
  compare_bytes, compare_bools, compare_floats, compare_values, is_nil, as_string, as_bool, of_type,
  to_bool, to_float64, holds_of, lookup, get_property, eval_expr, eval_all, eval_bool, truth,
  all_of, as_value,
}

-- `n.prop = literal`, of this variable.
unfoldable pub direct_equality : Bytes → Expression → Expression → Option (Bytes × Value)
direct_equality x (expr_prop_access y prop) (expr_literal v) =
    if same_bytes y x then some (prop, v) else none
direct_equality _ _ _ = none

abbrev pub first_of : {A : Type 0} → Option A → Option A → Option A
first_of (some a) rest = some a
first_of none rest = rest

unfoldable pub either_equality : Bytes → Expression → Expression → Option (Bytes × Value)
unfolding direct_equality
either_equality x l r = first_of (direct_equality x l r) (direct_equality x r l)

unfoldable mutual
  unfolding either_equality

  pub extract_where_equality : Bytes → Expression → Option (Bytes × Value)
  extract_where_equality x (expr_comparison l op_eq r) = either_equality x l r
  extract_where_equality x (expr_and es) = extract_from_operands x es
  extract_where_equality x _ = none

  pub extract_from_operands : Bytes → Expressions → Option (Bytes × Value)
  extract_from_operands x no_more = none
  extract_from_operands x (operand e es) =
      first_of (extract_where_equality x e) (extract_from_operands x es)

-- Where the results depend on the order of the arguments, but not whether they are equal.
Swaps : {A : Type 0} → (A → A → Sign) → Type 0
Swaps {A = A} compare = (a b : A) → compare a b ≡ equal → compare b a ≡ equal

compare_bytes-Swaps : Swaps compare_bytes
unfolding compare_bytes Swaps
compare_bytes-Swaps [] [] h = refl
compare_bytes-Swaps [] (y ∷ ys) h = cc
compare_bytes-Swaps (x ∷ xs) [] h = cc
compare_bytes-Swaps (x ∷ xs) (y ∷ ys) h = swap (ltb x y) (ltb y x) (compare_bytes-Swaps xs ys) h
  where
    swap :
        (less more : Bool) {s t : Sign}
        → (s ≡ equal → t ≡ equal)
        → (if less then below else if more then above else s) ≡ equal
        → (if more then below else if less then above else t) ≡ equal
    swap true more ih e = cc
    swap false true ih e = cc
    swap false false ih e = ih e

compare_bools-Swaps : Swaps compare_bools
unfolding compare_bools Swaps
compare_bools-Swaps true true h = refl
compare_bools-Swaps false false h = refl
compare_bools-Swaps true false h = cc
compare_bools-Swaps false true h = cc

of_type-Swaps :
    {A : Type 0} (compare : A → A → Sign) (x y : Option A) {s t : Sign}
    → Swaps compare
    → (s ≡ equal → t ≡ equal)
    → of_type compare x y s ≡ equal
    → of_type compare y x t ≡ equal
unfolding Swaps
of_type-Swaps compare (some x) (some y) swaps rest h = swaps x y h
of_type-Swaps compare (some x) none swaps rest h = rest h
of_type-Swaps compare none (some y) swaps rest h = rest h
of_type-Swaps compare none none swaps rest h = rest h

nils_swap :
    (p q : Bool) {s t : Sign}
    → (s ≡ equal → t ≡ equal)
    → (if p && q then equal else if p then below else if q then above else s) ≡ equal
    → (if q && p then equal else if q then below else if p then above else t) ≡ equal
nils_swap true true rest h = refl
nils_swap true false rest h = cc
nils_swap false true rest h = cc
nils_swap false false rest h = rest h

module _ (machine : Machine) where
  compare_floats-Swaps : Swaps (compare_floats machine)
  unfolding compare_floats Swaps
  compare_floats-Swaps a b = swap (machine.less a b) (machine.less b a)
    where
      swap :
          (less more : Bool)
          → (if less then below else if more then above else equal) ≡ equal
          → (if more then below else if less then above else equal) ≡ equal
      swap true more e = cc
      swap false true e = cc
      swap false false e = refl

  compare_values-Swaps : Swaps (compare_values machine)
  unfolding compare_values Swaps
  compare_values-Swaps a b = nils_swap (is_nil a) (is_nil b) (
      of_type-Swaps (compare_floats machine) (to_float64 machine a) (to_float64 machine b)
        compare_floats-Swaps
        (of_type-Swaps compare_bytes (as_string a) (as_string b) compare_bytes-Swaps (
          of_type-Swaps compare_bools (as_bool a) (as_bool b) compare_bools-Swaps
            (compare_bytes-Swaps (machine.sprint a) (machine.sprint b)))))

first_of_cases :
    {A P : Type 0} (here rest : Option A) {found : A}
    → (here ≡ some found → P)
    → (rest ≡ some found → P)
    → first_of here rest ≡ some found
    → P
first_of_cases (some a) rest f g h = f h
first_of_cases none rest f g h = g h

gives_injective : {A : Type 0} {a b : A} → gives a ≡ gives b → a ≡ b
gives_injective {a = a} = ap (elim [ gives x ↦ x | fails e ↦ a ])

holds_of-op_eq : (sign : Sign) → holds_of op_eq sign ≡ true → sign ≡ equal
unfolding holds_of
holds_of-op_eq below h = cc
holds_of-op_eq equal h = refl
holds_of-op_eq above h = cc

IsDirect : Bytes → Expression → Expression → Bytes × Value → Type 0
IsDirect x l r (prop, v) = (l ≡ expr_prop_access x prop) × (r ≡ expr_literal v)

direct_equality-IsDirect :
    (x : Bytes) (l r : Expression) (found : Bytes × Value)
    → direct_equality x l r ≡ some found
    → IsDirect x l r found
unfolding direct_equality IsDirect
direct_equality-IsDirect x (expr_prop_access y prop) (expr_literal v) found h =
    from (same_bytes y x) (same_bytes_iff y x).0 h
  where
    from :
        (same : Bool)
        → (same ≡ true → y ≡ x)
        → (if same then some (prop, v) else none) ≡ some found
        → IsDirect x (expr_prop_access y prop) (expr_literal v) found
    from true law e =
        subst (λ f. IsDirect x (expr_prop_access y prop) (expr_literal v) f) (some-injective _ _ e)
          (ap (λ z. expr_prop_access z prop) (law refl), refl)
    from false law e = cc
direct_equality-IsDirect x (expr_prop_access y prop) (expr_var_ref z) found h = cc
direct_equality-IsDirect x (expr_prop_access y prop) (expr_prop_access z p) found h = cc
direct_equality-IsDirect x (expr_prop_access y prop) (expr_func_call f es) found h = cc
direct_equality-IsDirect x (expr_prop_access y prop) (expr_comparison a op b) found h = cc
direct_equality-IsDirect x (expr_prop_access y prop) (expr_and es) found h = cc
direct_equality-IsDirect x (expr_prop_access y prop) (expr_or es) found h = cc
direct_equality-IsDirect x (expr_prop_access y prop) (expr_not e) found h = cc
direct_equality-IsDirect x (expr_prop_access y prop) (expr_param z) found h = cc
direct_equality-IsDirect x (expr_literal w) r found h = cc
direct_equality-IsDirect x (expr_var_ref z) r found h = cc
direct_equality-IsDirect x (expr_func_call f es) r found h = cc
direct_equality-IsDirect x (expr_comparison a op b) r found h = cc
direct_equality-IsDirect x (expr_and es) r found h = cc
direct_equality-IsDirect x (expr_or es) r found h = cc
direct_equality-IsDirect x (expr_not e) r found h = cc
direct_equality-IsDirect x (expr_param z) r found h = cc

module _ (machine : Machine) (x : Bytes) (n : Node) (bs : Bindings) where
  -- What the property reads as on the node, nil where the node does not have it, compares as equal.
  pub Found : Bytes × Value → Type 0
  Found (prop, v) = compare_values machine (value (get_property (node n) prop)) (value v) ≡ equal

  -- What a comparison of the two values says.
  compared : Bound → Bound → Evaluated Bool
  compared a b = gives (holds_of op_eq (compare_values machine a b))

  direct_equality_holds :
      (l r : Expression) (prop : Bytes) (v : Value)
      → lookup x bs ≡ some (node n)
      → direct_equality x l r ≡ some (prop, v)
      → (eval_bool machine bs (expr_comparison l op_eq r)
          ≡ compared (value (get_property (node n) prop)) (value v))
        × (eval_bool machine bs (expr_comparison r op_eq l)
            ≡ compared (value v) (value (get_property (node n) prop)))
  unfolding compared eval_bool to_bool IsDirect
  direct_equality_holds l r prop v bound h =
      let (is_access, is_literal) = direct_equality-IsDirect x l r (prop, v) h in
      (rw (is_access, is_literal, bound) refl, rw (is_access, is_literal, bound) refl)

  compared-Found :
      (prop : Bytes) (v : Value)
      → compared (value (get_property (node n) prop)) (value v) ≡ gives true
      → Found (prop, v)
  unfolding compared Found
  compared-Found prop v h = holds_of-op_eq _ (gives_injective h)

  compared-Found-reversed :
      (prop : Bytes) (v : Value)
      → compared (value v) (value (get_property (node n) prop)) ≡ gives true
      → Found (prop, v)
  unfolding compared Found Swaps
  compared-Found-reversed prop v h =
      compare_values-Swaps machine (value v) (value (get_property (node n) prop))
        (holds_of-op_eq _ (gives_injective h))

  either_equality-Found :
      (l r : Expression) (found : Bytes × Value)
      → lookup x bs ≡ some (node n)
      → either_equality x l r ≡ some found
      → eval_bool machine bs (expr_comparison l op_eq r) ≡ gives true
      → Found found
  unfolding either_equality
  either_equality-Found l r (prop, v) bound h holds =
      first_of_cases (direct_equality x l r) (direct_equality x r l)
        (λ k. compared-Found prop v (sym (direct_equality_holds l r prop v bound k).0 ∙ holds))
        (λ k.
          compared-Found-reversed prop v (sym (direct_equality_holds r l prop v bound k).1 ∙ holds))
        h

  all_of-gives :
      (first rest : Evaluated Bool)
      → all_of first rest ≡ gives true
      → (first ≡ gives true) × (rest ≡ gives true)
  all_of-gives (gives true) rest h = (refl, h)
  all_of-gives (gives false) rest h = cc
  all_of-gives (fails e) rest h = cc

  as_value-gives : (r : Evaluated Bool) → truth machine (as_value r) ≡ gives true → r ≡ gives true
  unfolding to_bool
  as_value-gives (gives b) h = h
  as_value-gives (fails e) h = cc

  mutual
    unfolding extract_where_equality eval_expr eval_bool

    where_holds :
        (e : Expression) (found : Bytes × Value)
        → lookup x bs ≡ some (node n)
        → extract_where_equality x e ≡ some found
        → eval_bool machine bs e ≡ gives true
        → Found found
    where_holds (expr_comparison l op_eq r) found bound h holds =
        either_equality-Found l r found bound h holds
    where_holds (expr_and es) found bound h holds =
        operands_hold es found bound h (as_value-gives (eval_all machine bs es) holds)
    where_holds (expr_comparison l op_neq r) found bound h holds = cc
    where_holds (expr_comparison l op_lt r) found bound h holds = cc
    where_holds (expr_comparison l op_gt r) found bound h holds = cc
    where_holds (expr_comparison l op_lte r) found bound h holds = cc
    where_holds (expr_comparison l op_gte r) found bound h holds = cc
    where_holds (expr_literal v) found bound h holds = cc
    where_holds (expr_var_ref y) found bound h holds = cc
    where_holds (expr_prop_access y prop) found bound h holds = cc
    where_holds (expr_func_call f es) found bound h holds = cc
    where_holds (expr_or es) found bound h holds = cc
    where_holds (expr_not e) found bound h holds = cc
    where_holds (expr_param y) found bound h holds = cc

    operands_hold :
        (es : Expressions) (found : Bytes × Value)
        → lookup x bs ≡ some (node n)
        → extract_from_operands x es ≡ some found
        → eval_all machine bs es ≡ gives true
        → Found found
    operands_hold no_more found bound h holds = cc
    operands_hold (operand e es) found bound h holds =
        let (first, rest) =
          all_of-gives (truth machine (eval_expr machine bs e)) (eval_all machine bs es) holds in
        first_of_cases (extract_where_equality x e) (extract_from_operands x es)
          (λ k. where_holds e found bound k first) (λ k. operands_hold es found bound k rest) h

  -- Where an equality of a property of the variable and a literal is found in a WHERE, and the
  -- WHERE evaluates to true with the variable bound to a node, what the property reads as on that
  -- node (nil where the node does not have it) compares as equal to the literal.
  pub extract_where_equality-Found :
      (e : Expression) (found : Bytes × Value)
      → lookup x bs ≡ some (node n)
      → extract_where_equality x e ≡ some found
      → eval_bool machine bs e ≡ gives true
      → Found found
  extract_where_equality-Found = where_holds
