-- ===== src/Basic/Vm.antt =====
-- The machine of compiled programs (pcode_vm.go: `pvm`): fetching, the stack, and the instructions
-- for values, variables, arrays, functions, jumps, loops and error handlers. What the instructions
-- for files, printing, input and the like do is the parameter `Devices`.
pub mod Values
pub mod Flow
pub mod Step
pub mod Run
pub mod Reach
pub mod Agree
pub mod Fetch
pub mod Instructions
pub mod Single
pub mod Correct
pub mod Refines
pub mod Control
use rsts_e_v7_2_lookalike.Prelude.{
  ℕ, zero, suc, ◌+◌, ◌*◌, Bool, true, false, not, ◌&&◌, Option, none, some, List, [], ◌∷◌, ◌++◌,
  leb, ltb, ◌==◌, if◌then◌else◌, length, drop, get_elem?,
}
use rsts_e_v7_2_lookalike.Prelude.Int.{ℤ, pos, negsuc, eq_ℤ}
use rsts_e_v7_2_lookalike.Bytes.Reader.{Bytes}
use rsts_e_v7_2_lookalike.Bytes.Magic.{bytes_eq}
use rsts_e_v7_2_lookalike.Text.Ascii.{codes}
use rsts_e_v7_2_lookalike.Basic.Image.{Value, text, num, Image}
use rsts_e_v7_2_lookalike.Basic.Image.Lines.{line_ip, next_line_ip}
use rsts_e_v7_2_lookalike.Basic.Error.{
  BasicError, basic_err, basic_err_at, Outcome, done, raised, crashed, Program, give, stop, after,
  ◌>>=◌, ◌>>◌,
}
use rsts_e_v7_2_lookalike.Basic.Machine.{
  Arithmetic, Machine, machine_err, complain, num_val, number, truth, get_var, set_var, set_key,
}
use rsts_e_v7_2_lookalike.Basic.Machine.Operators.{bin_op, bin_op_name}
use rsts_e_v7_2_lookalike.Basic.Machine.Arrays.{get_array, assign, dim_array}
use rsts_e_v7_2_lookalike.Basic.Expr.{Builtins, UnaryOp, minus, plus, complement, unary_op}

-- `pforFrame`
pub record ForFrame : Type 0 where
  pub name : Bytes
  pub end : ℕ
  pub step : ℕ
  pub body : ℕ

-- `pcodeFn` in the table `vm.fns`.
pub record Function : Type 0 where
  pub params : List Bytes
  pub ip : ℕ

-- `pfnFrame`: each name with the value that it had, if it had one.
pub record CallFrame : Type 0 where
  pub ret : ℕ
  pub saved : List (Bytes × Option Value)

-- `pvm`, with the machine that it changes.
pub record Vm : Type 0 where
  pub m : Machine
  pub pc : ℕ
  pub stack : List Value
  pub gosub : List ℕ
  pub fors : List ForFrame
  pub fns : Bytes → Option Function
  pub calls : List CallFrame
  pub immediate : Bool

abbrev lifted : {A : Type 0} → Vm → Outcome A × Machine → Outcome A × Vm
lifted vm (r, m) = (r, record vm { m = m })

-- A program of the machine `m`, run on the machine of `vm`.
abbrev pub on_machine : {A : Type 0} → Program Machine A → Program Vm A
on_machine p vm = lifted vm (p vm.m)

abbrev pub vm_err : {A : Type 0} → Bytes → Program Vm A
vm_err msg vm = (raised (machine_err vm.m msg), vm)

abbrev pub push : Value → Program Vm (Unit {0})
push v vm = (done tt, record vm { stack = v ∷ vm.stack })

abbrev pub popped : Vm → List Value → Outcome Value × Vm
popped vm [] = (raised (machine_err vm.m (codes "Syntax error")), vm)
popped vm (v ∷ stack) = (done v, record vm { stack = stack })

abbrev pub pop : Program Vm Value
pop vm = popped vm vm.stack

abbrev pub pop_num : Program Vm ℕ
pop_num = pop >>= λ v. on_machine (num_val v)

-- The `n` values on the top of the stack, the top one last.
unfoldable pub pop_values : ℕ → List Value → Program Vm (List Value)
pop_values zero vs = give vs
pop_values (suc n) vs = pop >>= λ v. pop_values n (v ∷ vs)

module _ (ar : Arithmetic) where
  -- `vm.popIdx(n)`, onto the subscripts that are popped already.
  unfoldable pub pop_idx : ℕ → List ℤ → Program Vm (List ℤ)
  pop_idx zero idxs = give idxs
  pop_idx (suc n) idxs = pop_num >>= λ v. pop_idx n (ar.to_int v ∷ idxs)

module _ (img : Image) where
  abbrev pub fetched_u8 : Vm → Bytes → Outcome ℕ × Vm
  fetched_u8 vm [] = (done 0, vm)
  fetched_u8 vm (b ∷ rest) = (done b, record vm { pc = vm.pc + 1 })

  abbrev pub u8 : Program Vm ℕ
  u8 vm = fetched_u8 vm (drop vm.pc img.code)

  abbrev pub fetched_u16 : Vm → Bytes → Outcome ℕ × Vm
  fetched_u16 vm (a ∷ b ∷ rest) = (done (a + 256 * b), record vm { pc = vm.pc + 2 })
  fetched_u16 vm _ = (done 0, record vm { pc = length img.code })

  abbrev pub u16 : Program Vm ℕ
  u16 vm = fetched_u16 vm (drop vm.pc img.code)

  abbrev pub fetched_u32 : Vm → Bytes → Outcome ℕ × Vm
  fetched_u32 vm (a ∷ b ∷ c ∷ d ∷ rest) =
      (done (a + 256 * (b + 256 * (c + 256 * d))), record vm { pc = vm.pc + 4 })
  fetched_u32 vm _ = (done 0, record vm { pc = length img.code })

  abbrev pub u32 : Program Vm ℕ
  u32 vm = fetched_u32 vm (drop vm.pc img.code)

  abbrev pub named : Option Bytes → Bytes
  named none = []
  named (some s) = s

  -- `vm.str()`
  abbrev pub string : Program Vm Bytes
  string = u16 >>= λ i. give (named (get_elem? img.strings i))
