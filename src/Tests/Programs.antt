-- ===== src/Tests/Programs.antt =====
-- Compiled expressions at concrete machines.
use rsts_e_v7_2_lookalike.Prelude.{◌+◌, ◌≡◌, refl, arith, length}
use rsts_e_v7_2_lookalike.Text.Ascii.{codes}
use rsts_e_v7_2_lookalike.Basic.Image.{num}
use rsts_e_v7_2_lookalike.Basic.Error.{done}
use rsts_e_v7_2_lookalike.Basic.Machine.{apply_scale, get_var}
use rsts_e_v7_2_lookalike.Basic.Machine.Operators.{op_add, op_mul}
use rsts_e_v7_2_lookalike.Basic.Expr.{
  Expr, num_lit, str_lit, var_ref, call_expr, bin_expr, none_left, and_then,
}
use rsts_e_v7_2_lookalike.Basic.Expr.Eval.{eval}
use rsts_e_v7_2_lookalike.Basic.Compiler.{Compiler, new_compiler, expr}
use rsts_e_v7_2_lookalike.Basic.Compiler.Growth.{IsPrefix-refl, Within}
use rsts_e_v7_2_lookalike.Basic.Compiler.Tables.{TablesFit}
use rsts_e_v7_2_lookalike.Basic.Vm.Run.{exec}
use rsts_e_v7_2_lookalike.Basic.Vm.Instructions.{value_at}
use rsts_e_v7_2_lookalike.Basic.Vm.Correct.{ops, IsSmall}
use rsts_e_v7_2_lookalike.Basic.Vm.Refines.{Stops, exec-expr, exec-expr-Fails}
use rsts_e_v7_2_lookalike.Tests.Plain.{
  plain, lens, no_devices, start, start_vm, image_of, plain-OneIsExact,
}

-- `X + A(2) * LEN('AB')`
abbrev sum_of_product : Expr
sum_of_product = bin_expr op_add (var_ref (codes "X") none_left) (
    bin_expr op_mul (var_ref (codes "A") (and_then (num_lit 2) none_left))
      (call_expr (codes "LEN") (and_then (str_lit (codes "AB")) none_left)))

-- `X * 'AB'`
abbrev product_of_text : Expr
product_of_text = bin_expr op_mul (var_ref (codes "X") none_left) (str_lit (codes "AB"))

abbrev compiled : Expr → Compiler
compiled e = expr plain e new_compiler

compiled-Within : (c : Compiler) → Within c (image_of c)
compiled-Within c = record {
  strings = IsPrefix-refl c.strings;
  nums = IsPrefix-refl c.nums;
  code = IsPrefix-refl c.code;
}

sum_of_product-TablesFit : TablesFit (image_of (compiled sum_of_product))
unfolding expr
sum_of_product-TablesFit = record { strings = omega arith; nums = omega arith }

product_of_text-TablesFit : TablesFit (image_of (compiled product_of_text))
unfolding expr
product_of_text-TablesFit = record { strings = omega arith; nums = omega arith }

sum_of_product-IsSmall : IsSmall sum_of_product
unfolding IsSmall
sum_of_product-IsSmall = ((omega arith, tt), ((omega arith, (tt, tt)), (omega arith, (tt, tt))))

exec-expr_example :
    exec plain lens no_devices
      (image_of (compiled sum_of_product))
      (ops sum_of_product + 0)
      start_vm
    ≡ (
      done tt,
      value_at start_vm
          (length (compiled sum_of_product).code)
          (num 5)
          (eval plain lens sum_of_product start).1,
    )
unfolding eval expr ops exec IsSmall apply_scale
exec-expr_example =
    exec-expr plain lens no_devices (image_of (compiled sum_of_product)) sum_of_product new_compiler
      start_vm (num 5) (eval plain lens sum_of_product start).1 0 sum_of_product-TablesFit
      plain-OneIsExact (λ name. refl) sum_of_product-IsSmall
      (compiled-Within (compiled sum_of_product)) refl refl

exec-expr-Fails_example : Stops (
    exec plain lens no_devices
      (image_of (compiled product_of_text))
      (ops product_of_text + 0)
      start_vm)
unfolding eval expr ops IsSmall get_var
exec-expr-Fails_example =
    exec-expr-Fails plain lens no_devices (image_of (compiled product_of_text)) product_of_text
      new_compiler start_vm 0 product_of_text-TablesFit plain-OneIsExact (λ name. refl)
      ((omega arith, tt), tt) (compiled-Within (compiled product_of_text)) refl tt
