-- ===== src/Basic/Vm/Step.antt =====
-- One instruction of a compiled program (pcode_vm.go: `step`).
use rsts_e_v7_2_lookalike.Prelude.{ℕ}
use rsts_e_v7_2_lookalike.Basic.Image.{Image}
use rsts_e_v7_2_lookalike.Basic.Error.{Program}
use rsts_e_v7_2_lookalike.Basic.Machine.{Arithmetic}
use rsts_e_v7_2_lookalike.Basic.Expr.{Builtins}
use rsts_e_v7_2_lookalike.Basic.Vm.{Vm}
use rsts_e_v7_2_lookalike.Basic.Vm.Values.{step_value}
use rsts_e_v7_2_lookalike.Basic.Vm.Flow.{step_control}

-- The instructions that are not written out here, by their numbers.
abbrev pub Devices : Type 0
Devices = ℕ → Program Vm (Unit {0})

module _ (ar : Arithmetic) (call : Builtins) (img : Image) where
  unfoldable pub step : Devices → ℕ → Program Vm (Unit {0})
  unfolding step_value step_control
  step devices op = step_value ar call img (step_control ar call img (devices op) op) op
