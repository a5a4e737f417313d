-- ===== src/Tests/Machines.antt =====
-- Arrays, operators and functions of the program at concrete machines.
use rsts_e_v7_2_lookalike.Prelude.{◌*◌, ◌/◌, ◌≡◌, refl, false, Option, some, [], ◌∷◌, if◌then◌else◌}
use rsts_e_v7_2_lookalike.Prelude.Int.{pos, eq_ℤ}
use rsts_e_v7_2_lookalike.Bytes.Reader.{Bytes}
use rsts_e_v7_2_lookalike.Text.Ascii.{codes}
use rsts_e_v7_2_lookalike.Basic.Image.{Image, Value, num}
use rsts_e_v7_2_lookalike.Basic.Error.{done}
use rsts_e_v7_2_lookalike.Basic.Machine.{Arithmetic, ArrayInfo, Machine}
use rsts_e_v7_2_lookalike.Basic.Machine.Operators.{op_mod, bin_op}
use rsts_e_v7_2_lookalike.Basic.Compiler.{new_compiler}
use rsts_e_v7_2_lookalike.Basic.Machine.Operators.Panics.{IsFraction, bin_op_panics}
use rsts_e_v7_2_lookalike.Basic.Vm.{Vm, Function}
use rsts_e_v7_2_lookalike.Basic.Vm.Step.{step}
use rsts_e_v7_2_lookalike.Basic.Vm.Values.{apply, set_vars}
use rsts_e_v7_2_lookalike.Basic.Vm.Control.{is_named, Bound, call-fn_return}
use rsts_e_v7_2_lookalike.Tests.Plain.{
  size_or_zero, plain, lens, no_devices, start, start_vm, image_of,
}

abbrev array_a : Bytes
array_a = codes "A"

-- `DIM A(1,1)`
abbrev board : ArrayInfo
board = record { dims = 1 ∷ 1 ∷ []; items = num 1 ∷ num 2 ∷ num 3 ∷ num 4 ∷ [] }

abbrev with_board : Machine
with_board = record start { arrays = λ name. some board }

-- Floats in halves.
abbrev halves : Arithmetic
halves = record plain { from_int = λ z. 2 * size_or_zero z; to_int = λ n. pos (n / 2) }

bin_op_panics_example :
    (op_mod ≡ op_mod)
    × IsFraction halves (num 1)
    × ((bin_op halves op_mod (num 8) (num 1) start).1 ≡ start)
unfolding bin_op eq_ℤ
bin_op_panics_example = bin_op_panics halves start op_mod (num 8) (num 1) refl

-- A program with the lines 10 and 20.
abbrev two_lines : Image
two_lines = record (image_of new_compiler) {
  lines = record { num = pos 10; ip = pos 4 } ∷ record { num = pos 20; ip = pos 8 } ∷ [];
}

-- `DEF FNA(X)`
abbrev fn_a : Function
fn_a = record { params = codes "X" ∷ []; ip = 6 }

fn_a_distinct : is_named (codes "X") [] ≡ false
unfolding is_named
fn_a_distinct = refl

call-fn_return_example :
    (entered : Vm) × (apply plain lens two_lines (some fn_a) (codes "FNA") (num 3 ∷ []) start_vm
      ≡ (done tt, entered))
    × (entered.pc ≡ 6)
    × Bound entered.m.vars fn_a.params (num 3 ∷ [])
    × ((x : Bytes)
        → entered.m.vars x
          ≡ (if is_named x fn_a.params then entered.m.vars x else start_vm.m.vars x))
    × (vars : Bytes → Option Value) × (step plain lens two_lines no_devices 58
          (record start_vm { calls = entered.calls; stack = num 9 ∷ [] })
        ≡ (
          done tt,
          record start_vm { calls = []; m = set_vars start vars; pc = 0; stack = num 9 ∷ [] },
        ))
    × ((x : Bytes)
        → vars x
          ≡ (if is_named x (codes "X" ∷ codes "FNA" ∷ []) then start.vars x else start.vars x))
call-fn_return_example =
    call-fn_return plain lens no_devices two_lines start_vm start_vm fn_a (codes "FNA") (num 3 ∷ [])
      (num 9) [] refl (fn_a_distinct, tt)
