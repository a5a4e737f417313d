-- ===== src/Tests/Plain.antt =====
-- A machine at its start, whose floats are natural numbers, for the other tests.
use rsts_e_v7_2_lookalike.Prelude.{
  ℕ, ◌+◌, ◌-◌, ◌*◌, ◌/◌, true, false, none, some, [], ◌∷◌, arith, ltb, leb, ◌==◌, length,
}
use rsts_e_v7_2_lookalike.Prelude.Int.{ℤ, pos, negsuc}
use rsts_e_v7_2_lookalike.Text.Decimal.{itoa}
use rsts_e_v7_2_lookalike.Basic.Image.{Image, text, num}
use rsts_e_v7_2_lookalike.Basic.Error.{done, crashed}
use rsts_e_v7_2_lookalike.Basic.Machine.{Arithmetic, Machine}
use rsts_e_v7_2_lookalike.Basic.Expr.{Builtins}
use rsts_e_v7_2_lookalike.Basic.Compiler.{Compiler}
use rsts_e_v7_2_lookalike.Basic.Vm.{Vm}
use rsts_e_v7_2_lookalike.Basic.Vm.Step.{Devices}
use rsts_e_v7_2_lookalike.Basic.Vm.Single.{OneIsExact}

abbrev pub size_or_zero : ℤ → ℕ
size_or_zero (pos n) = n
size_or_zero (negsuc n) = 0

abbrev pub plain : Arithmetic
plain = record {
  add = λ a b. a + b;
  sub = λ a b. a - b;
  mul = λ a b. a * b;
  quo = λ a b. a / b;
  pow = λ a b. a;
  neg = λ a. a;
  abs = λ a. a;
  round = λ a. a;
  lt = ltb;
  le = leb;
  eq = λ a b. a == b;
  from_int = size_or_zero;
  to_int = pos;
  to_int32 = pos;
  remainder = λ a b. a;
  tiny = 1;
  format_general = itoa;
  makes = λ n. ltb n 10000000000000;
}

pub plain-OneIsExact : OneIsExact plain
plain-OneIsExact v h = ground arith

-- `LEN`, for every name.
abbrev pub lens : Builtins
lens name (text s ∷ []) = λ m. (done (num (length s)), m)
lens name args = λ m. (crashed, m)

abbrev pub no_devices : Devices
no_devices op = λ vm. (done tt, vm)

abbrev pub start : Machine
start = record {
  vars = λ name. some (num 5);
  arrays = λ name. none;
  scale = 0;
  has_line = false;
  current_line = pos 0;
  running = true;
  stopped = false;
  on_error_line = pos 0;
  err_num = 0;
  err_line = pos 0;
  resume_line = pos 0;
  in_handler = false;
}

abbrev pub start_vm : Vm
start_vm = record {
  m = start;
  pc = 0;
  stack = [];
  gosub = [];
  fors = [];
  fns = λ name. none;
  calls = [];
  immediate = false;
}

abbrev pub image_of : Compiler → Image
image_of c = record {
  strings = c.strings;
  nums = c.nums;
  items = [];
  data_lines = [];
  lines = [];
  fns = [];
  code = c.code;
  halt_ip = pos 0;
}
