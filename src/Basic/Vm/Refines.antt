-- ===== src/Basic/Vm/Refines.antt =====
-- Compiled expressions against the evaluator that walks them.
use rsts_e_v7_2_lookalike.Prelude.{ℕ, ◌+◌, ◌≡◌, length}
use mathlib.Core.Path.{subst}
use rsts_e_v7_2_lookalike.Basic.Image.{Image, Value}
use rsts_e_v7_2_lookalike.Basic.Error.{BasicError, Outcome, done, raised, crashed}
use rsts_e_v7_2_lookalike.Basic.Machine.{Arithmetic, Machine}
use rsts_e_v7_2_lookalike.Basic.Expr.{Expr, Builtins}
use rsts_e_v7_2_lookalike.Basic.Expr.Eval.{eval}
use rsts_e_v7_2_lookalike.Basic.Expr.Eager.{eager}
use rsts_e_v7_2_lookalike.Basic.Expr.Eager.Agreement.{Fails, Matches, eval-Alike}
use rsts_e_v7_2_lookalike.Basic.Compiler.{Compiler, expr}
use rsts_e_v7_2_lookalike.Basic.Compiler.Growth.{Within}
use rsts_e_v7_2_lookalike.Basic.Compiler.Tables.{TablesFit}
use rsts_e_v7_2_lookalike.Basic.Vm.{Vm}
use rsts_e_v7_2_lookalike.Basic.Vm.Step.{Devices}
use rsts_e_v7_2_lookalike.Basic.Vm.Run.{exec}
use rsts_e_v7_2_lookalike.Basic.Vm.Reach.{Reaches}
use rsts_e_v7_2_lookalike.Basic.Vm.Instructions.{value_at}
use rsts_e_v7_2_lookalike.Basic.Vm.Single.{OneIsExact, NoFunctions}
use rsts_e_v7_2_lookalike.Basic.Vm.Correct.{ops, IsSmall, expr-Does}

-- The machine of compiled programs ended without doing all its instructions.
abbrev pub Stops : Outcome (Unit {0}) × Vm → Type 0
Stops (done a, vm) = ⊥
Stops (raised e, vm) = Unit {0}
Stops (crashed, vm) = Unit {0}

Stops-raised : (r : Outcome (Unit {0}) × Vm) (e : BasicError) → r.0 ≡ raised e → Stops r
Stops-raised (done a, vm) e h = cc h
Stops-raised (raised x, vm) e h = tt
Stops-raised (crashed, vm) e h = tt

Stops-crashed : (r : Outcome (Unit {0}) × Vm) → r.0 ≡ crashed → Stops r
Stops-crashed (done a, vm) h = cc h
Stops-crashed (raised x, vm) h = tt
Stops-crashed (crashed, vm) h = tt

Fails-second : (r s : Outcome Value × Machine) → Fails r → Matches r s → Fails s
Fails-second (done v, m) s h k = absurd h
Fails-second (raised e, m) s h k = k
Fails-second (crashed, m) s h k = k

module _ (ar : Arithmetic) (call : Builtins) (devices : Devices) (img : Image) where
  Stops-failed :
      (n : ℕ) (vm : Vm) (r : Outcome Value × Machine) (f : Value → Machine → Vm) (k : ℕ)
      → Reaches ar call devices img n vm r f
      → Fails r
      → Stops (exec ar call devices img (n + k) vm)
  Stops-failed n vm (done v, m) f k h fails = absurd fails
  Stops-failed n vm (raised e, m) f k h fails = Stops-raised _ e (h k).0
  Stops-failed n vm (crashed, m) f k h fails = Stops-crashed _ (h k)

-- Compiled expressions refine the evaluator: where `eval` gives a value and a machine, the code of
-- the expression, started where the compiler put it, leaves after `ops e` instructions that value on
-- the stack and that machine, with the program counter behind the code, and goes on from there. It
-- asks that the tables of the image had room, no list of subscripts or arguments is longer than 255,
-- the program defines no functions, and that a float equal to 1 is the float 1.
pub exec-expr :
    (ar : Arithmetic) (call : Builtins) (devices : Devices) (img : Image) (e : Expr) (c : Compiler)
    (vm : Vm) (v : Value) (m : Machine) (k : ℕ)
    → TablesFit img
    → OneIsExact ar
    → NoFunctions vm
    → IsSmall e
    → Within (expr ar e c) img
    → vm.pc ≡ length c.code
    → eval ar call e vm.m ≡ (done v, m)
    → exec ar call devices img (ops e + k) vm
      ≡ exec ar call devices img k (value_at vm (length (expr ar e c).code) v m)
exec-expr ar call devices img e c vm v m k fit exact undefined small w here gives =
    let agree = (eval-Alike ar call e vm.m).same in
    let value : eager ar call e vm.m ≡ (done v, m) =
      subst (λ r. Matches r (eager ar call e vm.m)) gives agree in
    subst (λ r. Reaches ar call devices img (ops e) vm r (value_at vm (length (expr ar e c).code)))
      value (expr-Does ar call devices img fit exact e c vm undefined small w here) k

-- Where `eval` ends with an error or a panic, the code of the expression ends the machine of compiled
-- programs with an error or a panic as well, within `ops e` instructions. The conditions are those
-- under which it gives the value of `eval` otherwise.
pub exec-expr-Fails :
    (ar : Arithmetic) (call : Builtins) (devices : Devices) (img : Image) (e : Expr) (c : Compiler)
    (vm : Vm) (k : ℕ)
    → TablesFit img
    → OneIsExact ar
    → NoFunctions vm
    → IsSmall e
    → Within (expr ar e c) img
    → vm.pc ≡ length c.code
    → Fails (eval ar call e vm.m)
    → Stops (exec ar call devices img (ops e + k) vm)
exec-expr-Fails ar call devices img e c vm k fit exact undefined small w here fails =
    Stops-failed ar call devices img (ops e) vm (eager ar call e vm.m)
      (value_at vm (length (expr ar e c).code)) k
      (expr-Does ar call devices img fit exact e c vm undefined small w here)
      (Fails-second (eval ar call e vm.m) (eager ar call e vm.m) fails
        (eval-Alike ar call e vm.m).same)
