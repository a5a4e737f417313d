-- ===== src/Basic/Expr/Eval.antt =====
-- The machine's evaluator (interp.go: `eval`, `evalNum`, `evalIndices`), which walks the expression.
-- No function is defined by DEF here.
use rsts_e_v7_2_lookalike.Prelude.{List, [], ◌∷◌}
use rsts_e_v7_2_lookalike.Prelude.Int.{ℤ}
use rsts_e_v7_2_lookalike.Basic.Image.{Value, text, num}
use rsts_e_v7_2_lookalike.Basic.Error.{Program, give, ◌>>=◌}
use rsts_e_v7_2_lookalike.Basic.Machine.{Arithmetic, Machine}
use rsts_e_v7_2_lookalike.Basic.Machine.Operators.{bin_op}
use rsts_e_v7_2_lookalike.Basic.Expr.{
  Expr, num_lit, str_lit, var_ref, call_expr, unary_expr, bin_expr, Exprs, none_left, and_then,
  Builtins, unary_op, subscript, variable,
}

module _ (ar : Arithmetic) (call : Builtins) where
  unfoldable mutual
    unfolding bin_op unary_op

    pub eval : Expr → Program Machine Value
    eval (num_lit v) = give (num v)
    eval (str_lit s) = give (text s)
    eval (var_ref name indices) = eval_indices indices >>= variable ar name
    eval (unary_expr op x) = eval x >>= unary_op ar op
    eval (bin_expr op l r) = eval l >>= λ a. eval r >>= λ b. bin_op ar op a b
    eval (call_expr name args) = eval_args args >>= call name

    pub eval_indices : Exprs → Program Machine (List ℤ)
    eval_indices none_left = give []
    eval_indices (and_then e es) =
        eval e >>= λ v. subscript ar v >>= λ i. eval_indices es >>= λ idxs. give (i ∷ idxs)

    pub eval_args : Exprs → Program Machine (List Value)
    eval_args none_left = give []
    eval_args (and_then e es) = eval e >>= λ v. eval_args es >>= λ vs. give (v ∷ vs)
