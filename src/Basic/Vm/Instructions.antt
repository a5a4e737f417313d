-- ===== src/Basic/Vm/Instructions.antt =====
-- What the instructions of expressions do, each on a stack with its operands.
use rsts_e_v7_2_lookalike.Prelude.{
  ℕ, ◌+◌, ◌≡◌, refl, ap, ◌∙◌, none, some, List, [], ◌∷◌, ◌++◌, length, get_elem?,
}
use rsts_e_v7_2_lookalike.Prelude.Int.{pos}
use rsts_e_v7_2_lookalike.Bytes.Reader.{Bytes}
use rsts_e_v7_2_lookalike.Basic.Image.{Image, Value, text, num}
use rsts_e_v7_2_lookalike.Basic.Error.{Outcome, done, raised, crashed, Program, after, ◌>>=◌}
use rsts_e_v7_2_lookalike.Basic.Machine.{Arithmetic, Machine, get_var}
use rsts_e_v7_2_lookalike.Basic.Machine.Operators.{
  BinOp, op_add, op_sub, op_mul, op_div, op_idiv, op_mod, op_pow, op_eq, op_ne, op_lt, op_le, op_gt,
  op_ge, op_approx, op_and, op_or, op_xor, op_eqv, op_imp, bin_op, bin_op_code, bin_op_name,
}
use rsts_e_v7_2_lookalike.Basic.Machine.Arrays.{get_array}
use rsts_e_v7_2_lookalike.Basic.Compiler.{unary_code}
use rsts_e_v7_2_lookalike.Basic.Expr.{Builtins, UnaryOp, minus, plus, complement, unary_op}
use rsts_e_v7_2_lookalike.Basic.Expr.Eager.{reverse_onto, subscripts}
use rsts_e_v7_2_lookalike.Basic.Vm.{Vm, on_machine, push, pop_idx, pop_values, string, u8, u16}
use rsts_e_v7_2_lookalike.Basic.Vm.Step.{Devices, step}
use rsts_e_v7_2_lookalike.Basic.Vm.Values.{step_value, apply, number_at}
use rsts_e_v7_2_lookalike.Basic.Vm.Agree.{
  Agrees, Agrees-after, Agrees-first, pop_idx-Agrees, pop_values_lem,
}

-- The machine with a value pushed, at a place of the code.
abbrev pub value_at : Vm → ℕ → Value → Machine → Vm
value_at vm n v m = record vm { m = m; pc = n; stack = v ∷ vm.stack }

pub push-Agrees :
    (p : Program Machine Value) (vm : Vm) (n : ℕ)
    → vm.pc ≡ n
    → Agrees (after (on_machine p vm) push) (p vm.m) (λ v m. (tt, value_at vm n v m))
push-Agrees p vm n e = go (p vm.m)
  where
    go :
        (r : Outcome Value × Machine)
        → Agrees (after (on_machine (λ m. r) vm) push) r (λ v m. (tt, value_at vm n v m))
    go (done v, m) = record { same = ap (λ i. (done tt, value_at vm i v m)) e }
    go (raised x, m) = record { same = (refl, refl) }
    go (crashed, m) = record { same = refl }

module _ (ar : Arithmetic) (call : Builtins) (devices : Devices) (img : Image) where
  abbrev does : ℕ → Program Vm (Unit {0})
  does = step ar call img devices

  pub push_one_lem :
      (vm : Vm) → does 4 vm ≡ (done tt, value_at vm vm.pc (num (ar.from_int (pos 1))) vm.m)
  unfolding step step_value
  push_one_lem vm = refl

  pub push_num_lem :
      (vm : Vm) (i n : ℕ)
      → u16 img vm ≡ (done i, record vm { pc = vm.pc + 2 })
      → get_elem? img.nums i ≡ some n
      → does 2 vm ≡ (done tt, value_at vm (vm.pc + 2) (num n) vm.m)
  unfolding step step_value
  push_num_lem vm i n e entry =
      ap (λ r. after r (λ j. number_at ar call img (get_elem? img.nums j))) e
      ∙ ap (λ o. number_at ar call img o (record vm { pc = vm.pc + 2 })) entry

  pub push_str_lem :
      (vm : Vm) (s : Bytes)
      → string img vm ≡ (done s, record vm { pc = vm.pc + 2 })
      → does 3 vm ≡ (done tt, value_at vm (vm.pc + 2) (text s) vm.m)
  unfolding step step_value
  push_str_lem vm s e = ap (λ r. after r (λ t. push (text t))) e

  pub load_var_lem :
      (vm : Vm) (s : Bytes)
      → string img vm ≡ (done s, record vm { pc = vm.pc + 2 })
      → does 5 vm ≡ (done tt, value_at vm (vm.pc + 2) (get_var ar vm.m s) vm.m)
  unfolding step step_value
  load_var_lem vm s e = ap (λ r. after r (λ name vm. push (get_var ar vm.m name) vm)) e

  pub unary_lem :
      (op : UnaryOp) (vm : Vm) (v : Value) (stack : List Value)
      → does (unary_code op) (record vm { stack = v ∷ stack })
        ≡ after (on_machine (unary_op ar op v) (record vm { stack = stack })) push
  unfolding step step_value
  unary_lem minus vm v stack = refl
  unary_lem plus vm v stack = refl
  unary_lem complement vm v stack = refl

  pub binary_lem :
      (op : BinOp) (vm : Vm) (a b : Value) (stack : List Value)
      → does (bin_op_code op) (record vm { stack = b ∷ a ∷ stack })
        ≡ after (on_machine (bin_op ar op a b) (record vm { stack = stack })) push
  unfolding step step_value bin_op_code bin_op_name
  binary_lem op_add vm a b stack = refl
  binary_lem op_sub vm a b stack = refl
  binary_lem op_mul vm a b stack = refl
  binary_lem op_div vm a b stack = refl
  binary_lem op_idiv vm a b stack = refl
  binary_lem op_mod vm a b stack = refl
  binary_lem op_pow vm a b stack = refl
  binary_lem op_eq vm a b stack = refl
  binary_lem op_ne vm a b stack = refl
  binary_lem op_lt vm a b stack = refl
  binary_lem op_le vm a b stack = refl
  binary_lem op_gt vm a b stack = refl
  binary_lem op_ge vm a b stack = refl
  binary_lem op_approx vm a b stack = refl
  binary_lem op_and vm a b stack = refl
  binary_lem op_or vm a b stack = refl
  binary_lem op_xor vm a b stack = refl
  binary_lem op_eqv vm a b stack = refl
  binary_lem op_imp vm a b stack = refl

  -- An element of an array, with the subscripts on the stack.
  pub load_arr-Agrees :
      (vm : Vm) (name : Bytes) (vs stack : List Value)
      → string img (record vm { stack = vs ++ stack })
        ≡ (done name, record vm { pc = vm.pc + 2; stack = vs ++ stack })
      → u8 img (record vm { pc = vm.pc + 2; stack = vs ++ stack })
        ≡ (done (length vs), record vm { pc = vm.pc + 3; stack = vs ++ stack })
      → Agrees
          (does 7 (record vm { stack = vs ++ stack }))
          ((subscripts ar vs [] >>= get_array ar name) vm.m)
          (λ v m. (tt, value_at (record vm { stack = stack }) (vm.pc + 3) v m))
  unfolding step step_value
  load_arr-Agrees vm name vs stack e f =
      Agrees-first
        (ap
            (λ r. after r (λ name. u8 img >>= λ n.
              pop_idx ar n [] >>= λ idxs. on_machine (get_array ar name idxs) >>= push))
            e
          ∙ ap
              (λ r.
                after r
                  (λ n. pop_idx ar n [] >>= λ idxs. on_machine (get_array ar name idxs) >>= push))
              f)
        (Agrees-after (λ idxs. on_machine (get_array ar name idxs) >>= push) (get_array ar name)
          (pop_idx-Agrees ar vs [] (record vm { pc = vm.pc + 3 }) stack)
          λ idxs m.
            push-Agrees (get_array ar name idxs)
              (record vm { pc = vm.pc + 3; m = m; stack = stack }) (vm.pc + 3) refl)

  -- A function of the language, with the arguments on the stack.
  pub call_fn-Agrees :
      (vm : Vm) (name : Bytes) (vs stack : List Value)
      → ((f : Bytes) → vm.fns f ≡ none)
      → string img (record vm { stack = vs ++ stack })
        ≡ (done name, record vm { pc = vm.pc + 2; stack = vs ++ stack })
      → u8 img (record vm { pc = vm.pc + 2; stack = vs ++ stack })
        ≡ (done (length vs), record vm { pc = vm.pc + 3; stack = vs ++ stack })
      → Agrees
          (does 27 (record vm { stack = vs ++ stack }))
          (call name (reverse_onto vs []) vm.m)
          (λ v m. (tt, value_at (record vm { stack = stack }) (vm.pc + 3) v m))
  unfolding step step_value
  call_fn-Agrees vm name vs stack undefined e f =
      Agrees-first
        (ap
            (λ r. after r (λ name. u8 img >>= λ n.
              pop_values n [] >>= λ args vm. apply ar call img (vm.fns name) name args vm))
            e
          ∙ ap
              (λ r.
                after r (λ n.
                  pop_values n [] >>= λ args vm. apply ar call img (vm.fns name) name args vm))
              f
          ∙ ap (λ r. after r (λ args vm. apply ar call img (vm.fns name) name args vm))
              (pop_values_lem vs [] (record vm { pc = vm.pc + 3 }) stack)
          ∙ ap
              (λ o.
                apply ar call img o name (reverse_onto vs [])
                  (record vm { pc = vm.pc + 3; stack = stack }))
              (undefined name))
        (push-Agrees (call name (reverse_onto vs [])) (record vm { pc = vm.pc + 3; stack = stack })
          (vm.pc + 3) refl)
