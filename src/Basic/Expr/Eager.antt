-- ===== src/Basic/Expr/Eager.antt =====
-- The order in which compiled expressions do their work: like the evaluator of interp.go, but all
-- subscripts of an element are evaluated before the first of them is taken as a number. The two agree
-- on every value; where both fail they may give different errors.
pub mod Agreement
use rsts_e_v7_2_lookalike.Prelude.{ℕ, ◌≡◌, refl, ap, sym, ◌∙◌, List, [], ◌∷◌}
use rsts_e_v7_2_lookalike.Prelude.Int.{ℤ}
use rsts_e_v7_2_lookalike.Bytes.Reader.{Bytes}
use rsts_e_v7_2_lookalike.Basic.Image.{Value, text, num}
use rsts_e_v7_2_lookalike.Basic.Error.{Outcome, done, raised, crashed, Program, give, after, ◌>>=◌}
use rsts_e_v7_2_lookalike.Basic.Machine.{Arithmetic, Machine, num_val, get_var}
use rsts_e_v7_2_lookalike.Basic.Machine.Operators.{bin_op}
use rsts_e_v7_2_lookalike.Basic.Machine.Arrays.{get_array}
use rsts_e_v7_2_lookalike.Basic.Expr.{
  Expr, num_lit, str_lit, var_ref, call_expr, unary_expr, bin_expr, Exprs, none_left, and_then,
  Builtins, unary_op, subscript, variable,
}
use rsts_e_v7_2_lookalike.Basic.Expr.Eval.{eval, eval_indices, eval_args}

-- The values in front of others, the last of them first.
unfoldable pub reverse_onto {ℓ} : {A : Type ℓ} → List A → List A → List A
reverse_onto [] ys = ys
reverse_onto (x ∷ xs) ys = reverse_onto xs (x ∷ ys)

module _ (ar : Arithmetic) where
  -- The subscripts of values that lie on a stack, in front of those taken already.
  unfoldable pub subscripts : List Value → List ℤ → Program Machine (List ℤ)
  subscripts [] idxs = give idxs
  subscripts (v ∷ vs) idxs = num_val v >>= λ n. subscripts vs (ar.to_int n ∷ idxs)

module _ (ar : Arithmetic) (call : Builtins) where
  unfoldable mutual
    unfolding bin_op unary_op get_array get_var subscripts reverse_onto

    pub eager : Expr → Program Machine Value
    eager (num_lit v) = give (num v)
    eager (str_lit s) = give (text s)
    eager (var_ref name none_left) = λ m. (done (get_var ar m name), m)
    eager (var_ref name (and_then e es)) =
        eager_args (and_then e es) [] >>= λ vs. subscripts ar vs [] >>= get_array ar name
    eager (unary_expr op x) = eager x >>= unary_op ar op
    eager (bin_expr op l r) = eager l >>= λ a. eager r >>= λ b. bin_op ar op a b
    eager (call_expr name args) = eager_args args [] >>= λ vs. call name (reverse_onto vs [])

    -- The values of the expressions in front of those that are there, the last one first.
    pub eager_args : Exprs → List Value → Program Machine (List Value)
    eager_args none_left vs = give vs
    eager_args (and_then e es) vs = eager e >>= λ v. eager_args es (v ∷ vs)
