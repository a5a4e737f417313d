-- ===== src/Basic/Vm/Values.antt =====
-- The instructions of a compiled program for values, variables, arrays and functions (pcode_vm.go:
-- `step`, `call`), by their numbers in pcode.go.
use rsts_e_v7_2_lookalike.Prelude.{
  ℕ, Bool, not, ◌&&◌, ◌||◌, Option, none, some, List, [], ◌∷◌, ◌++◌, leb, ◌==◌, if◌then◌else◌,
  length, get_elem?,
}
use rsts_e_v7_2_lookalike.Prelude.Int.{pos}
use rsts_e_v7_2_lookalike.Bytes.Reader.{Bytes}
use rsts_e_v7_2_lookalike.Text.Ascii.{codes}
use rsts_e_v7_2_lookalike.Basic.Image.{Value, text, num, Image}
use rsts_e_v7_2_lookalike.Basic.Error.{done, crashed, Program, give, ◌>>=◌}
use rsts_e_v7_2_lookalike.Basic.Machine.{Arithmetic, Machine, number, get_var, set_key}
use rsts_e_v7_2_lookalike.Basic.Machine.Operators.{bin_op, bin_op_name}
use rsts_e_v7_2_lookalike.Basic.Machine.Arrays.{get_array, assign, dim_array}
use rsts_e_v7_2_lookalike.Basic.Expr.{Builtins, UnaryOp, minus, plus, complement, unary_op}
use rsts_e_v7_2_lookalike.Basic.Vm.{
  Function, CallFrame, Vm, on_machine, vm_err, push, pop, pop_values, pop_idx, u8, u16, string,
}

abbrev pub is_binary : ℕ → Bool
is_binary op = (leb 9 op && leb op 23) || (leb 82 op && leb op 85)

-- `vm.m.vars[p]` of the names of a call.
abbrev pub saved_vars : (Bytes → Option Value) → List Bytes → List (Bytes × Option Value)
saved_vars vars [] = []
saved_vars vars (p ∷ names) = (p, vars p) ∷ saved_vars vars names

abbrev pub bind_args : (Bytes → Option Value) → List Bytes → List Value → Bytes → Option Value
bind_args vars (p ∷ names) (v ∷ args) = bind_args (set_key vars p (some v)) names args
bind_args vars names args = vars

abbrev pub restore_vars :
    (Bytes → Option Value) → List (Bytes × Option Value) → Bytes → Option Value
restore_vars vars [] = vars
restore_vars vars ((p, v) ∷ saved) = restore_vars (set_key vars p v) saved

abbrev pub set_vars : Machine → (Bytes → Option Value) → Machine
set_vars m vars = record m { vars = vars }

module _ (ar : Arithmetic) (call : Builtins) (img : Image) where
  abbrev pub count_of : Program Vm ℕ
  count_of = u8 img

  abbrev pub store_var : Program Vm (Unit {0})
  store_var = pop >>= λ v. string img >>= λ name. on_machine (assign ar name [] v)

  abbrev pub load_arr : Program Vm (Unit {0})
  load_arr = string img >>= λ name. count_of >>= λ n.
      pop_idx ar n [] >>= λ idxs. on_machine (get_array ar name idxs) >>= λ v. push v

  abbrev pub store_arr : Program Vm (Unit {0})
  store_arr = string img >>= λ name.
      count_of >>= λ n. pop_idx ar n [] >>= λ idxs. pop >>= λ v. on_machine (assign ar name idxs v)

  abbrev pub binary : ℕ → Program Vm (Unit {0})
  binary op = pop >>= λ r. pop >>= λ l. on_machine (bin_op ar (bin_op_name op) l r) >>= λ v. push v

  abbrev pub unary : UnaryOp → Program Vm (Unit {0})
  unary op = pop >>= λ v. on_machine (unary_op ar op v) >>= λ w. push w

  abbrev duplicate : List Value → Program Vm (Unit {0})
  duplicate [] = vm_err (codes "Syntax error")
  duplicate (v ∷ stack) = push v

  abbrev pub call_frame : Vm → Bytes → List Bytes → CallFrame
  call_frame vm name params = record {
    ret = vm.pc;
    saved = saved_vars vm.m.vars (params ++ name ∷ []);
  }

  abbrev pub enter : Bytes → Function → List Value → Program Vm (Unit {0})
  enter name fn args vm =
      if not (length args == length fn.params) then vm_err (codes "Argument count") vm else (
        done tt,
        record vm {
          m = set_vars vm.m (bind_args vm.m.vars fn.params args);
          calls = call_frame vm name fn.params ∷ vm.calls;
          pc = fn.ip;
        },
      )

  abbrev pub apply : Option Function → Bytes → List Value → Program Vm (Unit {0})
  apply none name args = on_machine (call name args) >>= λ v. push v
  apply (some fn) name args = enter name fn args

  abbrev pub call_fn : Program Vm (Unit {0})
  call_fn = string img >>= λ name.
      count_of >>= λ n. pop_values n [] >>= λ args vm. apply (vm.fns name) name args vm

  abbrev pub leave : Value → List CallFrame → Program Vm (Unit {0})
  leave v [] = vm_err (codes "Syntax error")
  leave v (fr ∷ calls) = λ vm. (
    done tt,
    record vm {
      calls = calls;
      m = set_vars vm.m (restore_vars vm.m.vars fr.saved);
      pc = fr.ret;
      stack = v ∷ vm.stack;
    },
  )

  abbrev pub fn_return : Program Vm (Unit {0})
  fn_return = pop >>= λ v vm. leave v vm.calls vm

  -- An index outside the table of numbers is a panic.
  abbrev pub number_at : Option ℕ → Program Vm (Unit {0})
  number_at none = λ vm. (crashed, vm)
  number_at (some n) = push (num n)

  abbrev pub push_num : Program Vm (Unit {0})
  push_num = u16 img >>= λ i. number_at (get_elem? img.nums i)

  abbrev dim : Program Vm (Unit {0})
  dim = string img >>= λ name.
      count_of >>= λ n. pop_idx ar n [] >>= λ bounds. on_machine (dim_array ar name bounds)

  -- The instructions for values and variables.
  unfoldable pub step_value : Program Vm (Unit {0}) → ℕ → Program Vm (Unit {0})
  unfolding pop_idx pop_values assign get_array bin_op bin_op_name unary_op get_var dim_array
  step_value other op =
      if op == 2
      then push_num
      else (if op == 3
          then (string img >>= λ s. push (text s))
          else (if op == 4
              then push (number ar (pos 1))
              else (if op == 5
                  then (string img >>= λ name vm. push (get_var ar vm.m name) vm)
                  else (if op == 6
                      then store_var
                      else (if op == 7
                          then load_arr
                          else (if op == 8
                              then store_arr
                              else (if is_binary op
                                  then binary op
                                  else (if op == 24
                                      then unary complement
                                      else (if op == 25
                                          then unary minus
                                          else (if op == 26
                                              then unary plus
                                              else (if op == 27
                                                  then call_fn
                                                  else (if op == 42
                                                      then dim
                                                      else (if op == 66
                                                          then (pop >>= λ v. give tt)
                                                          else (if op == 86
                                                            then (λ vm. duplicate vm.stack vm)
                                                            else other))))))))))))))
