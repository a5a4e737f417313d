-- ===== src/Basic/Expr.antt =====
-- The expressions of BASIC-PLUS (parser.go: `expr` and its nodes), and their values by the machine's
-- own evaluator (interp.go: `eval`, `evalNum`, `evalIndices`).
pub mod Eval
pub mod Eager
use rsts_e_v7_2_lookalike.Prelude.{
  ℕ, zero, suc, ◌+◌, Bool, true, false, List, [], ◌∷◌, if◌then◌else◌,
}
use rsts_e_v7_2_lookalike.Prelude.Int.{ℤ, pos, negsuc}
use rsts_e_v7_2_lookalike.Bytes.Reader.{Bytes}
use rsts_e_v7_2_lookalike.Basic.Image.{Value, text, num}
use rsts_e_v7_2_lookalike.Basic.Error.{Outcome, done, raised, crashed, Program, give, after, ◌>>=◌}
use rsts_e_v7_2_lookalike.Basic.Machine.{Arithmetic, Machine, num_val, number, get_var}
use rsts_e_v7_2_lookalike.Basic.Machine.Operators.{BinOp, bin_op, int16_bits, from_int16, flip16}
use rsts_e_v7_2_lookalike.Basic.Machine.Arrays.{get_array}

-- `-`, `+` and `NOT`.
pub data UnaryOp : Type 0 where
  minus plus complement : UnaryOp

mutual
  -- `numLit`, `strLit`, `varRef`, `callExpr`, `unaryExpr` and `binExpr`.
  pub data Expr : Type 0 where
    num_lit : ℕ → Expr
    str_lit : Bytes → Expr
    var_ref : Bytes → Exprs → Expr
    call_expr : Bytes → Exprs → Expr
    unary_expr : UnaryOp → Expr → Expr
    bin_expr : BinOp → Expr → Expr → Expr

  pub data Exprs : Type 0 where
    none_left : Exprs
    and_then : Expr → Exprs → Exprs

abbrev pub how_many : Exprs → ℕ
how_many none_left = 0
how_many (and_then e es) = suc (how_many es)

-- The functions built into the language, `m.call` on a name that no DEF has defined.
abbrev pub Builtins : Type 0
Builtins = Bytes → List Value → Program Machine Value

module _ (ar : Arithmetic) where
  unfoldable pub unary_op : UnaryOp → Value → Program Machine Value
  unfolding int16_bits from_int16 flip16
  unary_op minus v = num_val v >>= λ x. give (num (ar.neg x))
  unary_op plus v = num_val v >>= λ x. give (num x)
  unary_op complement v = num_val v >>= λ x. give (num (from_int16 ar (flip16 (int16_bits ar x))))

  -- `int(n)` of a subscript's value.
  abbrev pub subscript : Value → Program Machine ℤ
  subscript v = num_val v >>= λ n. give (ar.to_int n)

  -- A variable, or an element of an array.
  abbrev pub variable : Bytes → List ℤ → Program Machine Value
  variable name [] = λ m. (done (get_var ar m name), m)
  variable name (i ∷ idxs) = get_array ar name (i ∷ idxs)
