-- ===== src/Basic/Vm/Control.antt =====
-- Functions that a compiled program defines: going there and coming back.
use rsts_e_v7_2_lookalike.Prelude.{
  arith, Bool-cases, inl, inr, ◌≡◌, refl, ap, sym, ◌∙◌, Bool, true, false, Option, some, List, [],
  ◌∷◌, ◌++◌, ◌==◌, if◌then◌else◌, length,
}
use rsts_e_v7_2_lookalike.Bytes.Reader.{Bytes}
use rsts_e_v7_2_lookalike.Bytes.Magic.{bytes_eq, bytes_eq_refl, bytes_eq_sound}
use rsts_e_v7_2_lookalike.Basic.Image.{Image, Value}
use rsts_e_v7_2_lookalike.Basic.Error.{done}
use rsts_e_v7_2_lookalike.Basic.Machine.{Arithmetic, set_key}
use rsts_e_v7_2_lookalike.Basic.Expr.{Builtins}
use rsts_e_v7_2_lookalike.Basic.Vm.{Function, Vm}
use rsts_e_v7_2_lookalike.Basic.Vm.Step.{Devices, step}
use rsts_e_v7_2_lookalike.Basic.Vm.Values.{
  step_value, saved_vars, restore_vars, bind_args, set_vars, apply, call_frame,
}
use rsts_e_v7_2_lookalike.Basic.Vm.Flow.{step_control}

-- Whether a name is among those of a call.
unfoldable pub is_named : Bytes → List Bytes → Bool
is_named x [] = false
is_named x (p ∷ names) = if bytes_eq x p then true else is_named x names

restore_vars-saved_vars :
    (names : List Bytes) (vars now : Bytes → Option Value) (x : Bytes)
    → restore_vars now (saved_vars vars names) x ≡ (if is_named x names then vars x else now x)
unfolding is_named
restore_vars-saved_vars [] vars now x = refl
restore_vars-saved_vars (p ∷ names) vars now x =
    restore_vars-saved_vars names vars (set_key now p (vars p)) x
    ∙ go (bytes_eq x p) (is_named x names) refl
  where
    go :
        (b c : Bool)
        → bytes_eq x p ≡ b
        → (if c then vars x else (if b then vars p else now x))
          ≡ (if (if b then true else c) then vars x else now x)
    go true true e = refl
    go true false e = ap vars (sym (bytes_eq_sound x p e))
    go false c e = refl

-- The names are different ones.
abbrev pub Distinct : List Bytes → Type 0
Distinct [] = Unit
Distinct (p ∷ names) = (is_named p names ≡ false) × Distinct names

-- Each parameter has its argument.
abbrev pub Bound : (Bytes → Option Value) → List Bytes → List Value → Type 0
Bound vars [] [] = Unit
Bound vars (p ∷ names) (v ∷ args) = (vars p ≡ some v) × Bound vars names args
Bound vars _ _ = ⊥

bind_args_other :
    (vars : Bytes → Option Value) (names : List Bytes) (args : List Value) (x : Bytes)
    → is_named x names ≡ false
    → bind_args vars names args x ≡ vars x
unfolding is_named
bind_args_other vars [] args x h = refl
bind_args_other vars (p ∷ names) [] x h = refl
bind_args_other vars (p ∷ names) (v ∷ args) x h = elim (Bool-cases (bytes_eq x p)) [
  | inl same ↦ cc (rw same at h)
  | inr other ↦
      bind_args_other (set_key vars p (some v)) names args x (rw other at h)
      ∙ ap (λ b. if b then some v else vars x) other
]

bind_args-Bound :
    (vars : Bytes → Option Value) (names : List Bytes) (args : List Value)
    → length args == length names ≡ true
    → Distinct names
    → Bound (bind_args vars names args) names args
bind_args-Bound vars [] [] counted d = tt
bind_args-Bound vars [] (v ∷ args) counted d = absurd (ground arith)
bind_args-Bound vars (p ∷ names) [] counted d = absurd (ground arith)
bind_args-Bound vars (p ∷ names) (v ∷ args) counted (new, d) = (
  bind_args_other (set_key vars p (some v)) names args p new
      ∙ ap (λ b. if b then some v else vars p) (bytes_eq_refl p),
  bind_args-Bound (set_key vars p (some v)) names args (ground arith) d,
)

-- Names that are not bound keep what they had.
bind_args_kept :
    (vars : Bytes → Option Value) (names : List Bytes) (args : List Value) (x : Bytes)
    → bind_args vars names args x
      ≡ (if is_named x names then bind_args vars names args x else vars x)
bind_args_kept vars names args x = elim (Bool-cases (is_named x names)) [
  | inl named ↦ sym (ap (λ b. if b then bind_args vars names args x else vars x) named)
  | inr other ↦
      bind_args_other vars names args x other
      ∙ sym (ap (λ b. if b then bind_args vars names args x else vars x) other)
]

module _ (ar : Arithmetic) (call : Builtins) (devices : Devices) (img : Image) where
  -- A call of a function that the program defines goes to the function with each argument in its
  -- parameter and every other variable as it was. When the function ends with a value, wherever the
  -- machine is by then and whatever happened to its variables, with the calls that were open in the
  -- function, the machine is back behind the call, with the calls that were open before it and the
  -- value on the stack; the parameters and the name of the function have the values that they had
  -- before, or none if they had none, and every other variable has what the function left in it. It
  -- asks for as many arguments as parameters, and for different parameters.
  pub call-fn_return :
      (vm back : Vm) (fn : Function) (name : Bytes) (args : List Value) (v : Value)
      (rest : List Value)
      → length args == length fn.params ≡ true
      → Distinct fn.params
      → (entered : Vm) × (apply ar call img (some fn) name args vm ≡ (done tt, entered))
        × (entered.pc ≡ fn.ip)
        × Bound entered.m.vars fn.params args
        × ((x : Bytes)
            → entered.m.vars x ≡ (if is_named x fn.params then entered.m.vars x else vm.m.vars x))
        × (vars : Bytes → Option Value) × (step ar call img devices 58
              (record back { calls = entered.calls; stack = v ∷ rest })
            ≡ (
              done tt,
              record back {
                calls = vm.calls;
                m = set_vars back.m vars;
                pc = vm.pc;
                stack = v ∷ rest;
              },
            ))
        × ((x : Bytes)
            → vars x ≡ (if is_named x (fn.params ++ name ∷ []) then vm.m.vars x else back.m.vars x))
  unfolding step step_value step_control
  call-fn_return vm back fn name args v rest counted distinct = (
    record vm {
      m = set_vars vm.m (bind_args vm.m.vars fn.params args);
      calls = call_frame ar call img vm name fn.params ∷ vm.calls;
      pc = fn.ip;
    },
    rw counted refl,
    refl,
    bind_args-Bound vm.m.vars fn.params args counted distinct,
    (λ x. bind_args_kept vm.m.vars fn.params args x),
    restore_vars back.m.vars (saved_vars vm.m.vars (fn.params ++ name ∷ [])),
    refl,
    λ x. restore_vars-saved_vars (fn.params ++ name ∷ []) vm.m.vars back.m.vars x,
  )
