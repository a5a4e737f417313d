-- ===== src/Basic/Parser/Operators.antt =====
-- The operators of each level of precedence (parser.go: the tests of `parseOr`, `parseAnd`,
-- `parseRel`, `parseAdd`, `parseMul`, `parsePow`, `parseUnary` and `parseNot`).
use rsts_e_v7_2_lookalike.Prelude.{Bool, false, Option, none, some, List, [], ◌∷◌, if◌then◌else◌}
use rsts_e_v7_2_lookalike.Bytes.Reader.{Bytes}
use rsts_e_v7_2_lookalike.Bytes.Magic.{bytes_eq}
use rsts_e_v7_2_lookalike.Text.Ascii.{codes}
use rsts_e_v7_2_lookalike.Basic.Token.{TokKind, tok_keyword, tok_op, tok_backslash, Token}
use rsts_e_v7_2_lookalike.Basic.Machine.Operators.{
  BinOp, op_add, op_sub, op_mul, op_div, op_idiv, op_mod, op_eq, op_ne, op_lt, op_le, op_gt, op_ge,
  op_approx, op_and, op_or, op_xor, op_eqv, op_imp,
}
use rsts_e_v7_2_lookalike.Basic.Expr.{UnaryOp, minus, plus}
use rsts_e_v7_2_lookalike.Basic.Parser.Names.{backslash_starts_statement}

-- The operator that a token is, with the tokens behind it.
abbrev pub OperatorAt : Type 0
OperatorAt = TokKind → Bytes → List Token → Option BinOp

abbrev listed : {A : Type 0} → Bytes → List (Bytes × A) → Option A
listed text [] = none
listed text ((w, a) ∷ words) = if bytes_eq text w then some a else listed text words

unfoldable pub or_op : OperatorAt
unfolding bytes_eq
or_op tok_keyword text rest = listed text (
    (codes "OR", op_or)
    ∷ (codes "XOR", op_xor)
    ∷ (codes "EQV", op_eqv)
    ∷ (codes "IMP", op_imp)
    ∷ [])
or_op kind text rest = none

unfoldable pub and_op : OperatorAt
unfolding bytes_eq
and_op tok_keyword text rest = listed text ((codes "AND", op_and) ∷ [])
and_op kind text rest = none

unfoldable pub rel_op : OperatorAt
unfolding bytes_eq
rel_op tok_op text rest = listed text (
    (codes "=", op_eq)
    ∷ (codes "<>", op_ne)
    ∷ (codes "<", op_lt)
    ∷ (codes ">", op_gt)
    ∷ (codes "<=", op_le)
    ∷ (codes ">=", op_ge)
    ∷ (codes "==", op_approx)
    ∷ [])
rel_op kind text rest = none

unfoldable pub add_op : OperatorAt
unfolding bytes_eq
add_op tok_op text rest = listed text ((codes "+", op_add) ∷ (codes "-", op_sub) ∷ [])
add_op kind text rest = none

unfoldable pub mul_op : OperatorAt
unfolding bytes_eq backslash_starts_statement
mul_op tok_op text rest = listed text ((codes "*", op_mul) ∷ (codes "/", op_div) ∷ [])
mul_op tok_keyword text rest = listed text ((codes "MOD", op_mod) ∷ [])
mul_op tok_backslash text rest = if backslash_starts_statement rest then none else some op_idiv
mul_op kind text rest = none

unfoldable pub is_power : TokKind → Bytes → Bool
unfolding bytes_eq
is_power tok_op text = bytes_eq text (codes "^")
is_power kind text = false

unfoldable pub sign_op : TokKind → Bytes → Option UnaryOp
unfolding bytes_eq
sign_op tok_op text = listed text ((codes "+", plus) ∷ (codes "-", minus) ∷ [])
sign_op kind text = none

unfoldable pub is_not : TokKind → Bytes → Bool
unfolding bytes_eq
is_not tok_keyword text = bytes_eq text (codes "NOT")
is_not kind text = false
