-- ===== src/Basic/Vm/Run.antt =====
-- The loop of a compiled program (pcode_vm.go: `run`; plus.go: `trap`): it fetches and carries out
-- one instruction after the other, at most 10000000 of them, and goes to the program's error handler
-- when one fails. Interrupts of the terminal are not modelled.
use rsts_e_v7_2_lookalike.Prelude.{
  ℕ, zero, suc, ◌+◌, Bool, true, false, not, ◌&&◌, ◌||◌, Option, none, some, [], ◌∷◌, if◌then◌else◌,
  drop,
}
use rsts_e_v7_2_lookalike.Prelude.Int.{ℤ, pos, negsuc, eq_ℤ}
use rsts_e_v7_2_lookalike.Bytes.Reader.{Bytes}
use rsts_e_v7_2_lookalike.Text.Ascii.{codes}
use rsts_e_v7_2_lookalike.Basic.Image.{Image}
use rsts_e_v7_2_lookalike.Basic.Image.Lines.{line_ip}
use rsts_e_v7_2_lookalike.Basic.Error.{
  BasicError, basic_err_at, attach_line, Outcome, done, raised, crashed, Program, after,
}
use rsts_e_v7_2_lookalike.Basic.Machine.{Arithmetic, Machine, machine_err}
use rsts_e_v7_2_lookalike.Basic.Expr.{Builtins}
use rsts_e_v7_2_lookalike.Basic.Vm.{Vm}
use rsts_e_v7_2_lookalike.Basic.Vm.Step.{Devices, step}

-- `pcodeMaxOps`
abbrev pub pcode_max_ops : ℕ
pcode_max_ops = 10000000

module _ (ar : Arithmetic) (call : Builtins) (devices : Devices) (img : Image) where
  -- The instruction at the place that `pc` points to, or nothing behind the end of the code.
  abbrev pub carry_out : Vm → Bytes → Outcome (Unit {0}) × Vm
  carry_out vm [] = (done tt, vm)
  carry_out vm (op ∷ rest) = step ar call img devices op (record vm { pc = vm.pc + 1 })

  unfoldable pub fetch_step : Program Vm (Unit {0})
  unfolding step
  fetch_step vm = carry_out vm (drop vm.pc img.code)

  -- `n` instructions.
  unfoldable pub exec : ℕ → Program Vm (Unit {0})
  unfolding fetch_step
  exec zero vm = (done tt, vm)
  exec (suc n) vm = after (fetch_step vm) (λ _. exec n)

module _ (ar : Arithmetic) (call : Builtins) (devices : Devices) (error_code : BasicError → ℕ)
    (img : Image) where
  abbrev pub error_line : Machine → BasicError → ℤ
  error_line m e = if eq_ℤ e.line (pos 0) then m.current_line else e.line

  -- The machine in the error handler.
  abbrev pub handling : Machine → BasicError → Machine
  handling m e = record m {
    err_num = error_code e;
    err_line = error_line m e;
    resume_line = m.current_line;
    in_handler = true;
  }

  -- Whether the program handles errors, and is not handling one.
  abbrev pub traps : Machine → Bool
  traps m = not (eq_ℤ m.on_error_line (pos 0)) && not m.in_handler

  abbrev pub handler_at : Vm → Option ℤ → Outcome (Unit {0}) × Vm
  handler_at vm none = (raised (basic_err_at (codes "Undefined line number") vm.m.current_line), vm)
  handler_at vm (some (pos ip)) = (done tt, record vm { pc = ip })
  handler_at vm (some (negsuc n)) = (crashed, vm)

  abbrev pub caught : BasicError → Program Vm (Unit {0})
  caught e vm =
      if traps vm.m
      then handler_at (record vm { m = handling vm.m e }) (line_ip img vm.m.on_error_line)
      else (raised e, vm)

  -- The errors are those of the language: an interrupt, which is not trapped, is not among them.
  abbrev pub on_failure : Outcome (Unit {0}) × Vm → Outcome (Unit {0}) × Vm
  on_failure (done a, vm) = (done a, vm)
  on_failure (raised e, vm) = caught (attach_line e vm.m.current_line) vm
  on_failure (crashed, vm) = (crashed, vm)

  abbrev at_end : Bytes → Bool
  at_end [] = true
  at_end (b ∷ rest) = false

  -- The loop, with `fuel` instructions left of those allowed.
  unfoldable pub run : ℕ → Program Vm (Unit {0})
  unfolding fetch_step line_ip attach_line
  run zero vm =
      if vm.m.running
      then (raised (machine_err vm.m (codes "Too many iterations")), vm)
      else (done tt, vm)
  run (suc fuel) vm =
      if not vm.m.running || at_end (drop vm.pc img.code)
      then (done tt, vm)
      else after (on_failure (fetch_step ar call devices img vm)) (λ _. run fuel)
