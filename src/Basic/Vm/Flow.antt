-- ===== src/Basic/Vm/Flow.antt =====
-- The instructions of a compiled program for lines, jumps, loops, subroutines and error handlers
-- (pcode_vm.go: `step`, `forBegin`, `forNext`, `resume`, `gotoLine`), by their numbers in pcode.go. A
-- jump to a negative address, which only a damaged file can ask for, is the panic of the fetch that
-- follows it.
use rsts_e_v7_2_lookalike.Prelude.{
  ℕ, zero, suc, Bool, true, false, not, ◌&&◌, ◌||◌, Option, none, some, List, [], ◌∷◌, ltb, ◌==◌,
  if◌then◌else◌, get_elem?,
}
use rsts_e_v7_2_lookalike.Prelude.Int.{ℤ, pos, negsuc}
use rsts_e_v7_2_lookalike.Bytes.Reader.{Bytes}
use rsts_e_v7_2_lookalike.Bytes.Magic.{bytes_eq}
use rsts_e_v7_2_lookalike.Text.Ascii.{codes}
use rsts_e_v7_2_lookalike.Basic.Image.{num, Image}
use rsts_e_v7_2_lookalike.Basic.Image.Lines.{line_ip, next_line_ip}
use rsts_e_v7_2_lookalike.Basic.Error.{
  basic_err, basic_err_at, done, raised, crashed, Program, give, stop, ◌>>=◌,
}
use rsts_e_v7_2_lookalike.Basic.Machine.{
  Arithmetic, Machine, num_val, truth, get_var, set_var, set_key,
}
use rsts_e_v7_2_lookalike.Basic.Expr.{Builtins}
use rsts_e_v7_2_lookalike.Basic.Vm.{
  ForFrame, Vm, on_machine, vm_err, pop, pop_num, u8, u16, u32, string,
}
use rsts_e_v7_2_lookalike.Basic.Vm.Values.{count_of, fn_return}

abbrev pub no_name : ℕ
no_name = 65535

abbrev pub illegal : Program Vm (Unit {0})
illegal = stop (basic_err (codes "Illegal in immediate mode"))

-- `if vm.immediate { return basicErr("Illegal in immediate mode") }`
abbrev in_program : Program Vm (Unit {0}) → Program Vm (Unit {0})
in_program p vm = if vm.immediate then illegal vm else p vm

abbrev pub jump : ℕ → Program Vm (Unit {0})
jump ip vm = (done tt, record vm { pc = ip })

abbrev pub undefined_line : Program Vm (Unit {0})
undefined_line vm = (raised (basic_err_at (codes "Undefined line number") vm.m.current_line), vm)

abbrev pub jump_to : Option ℤ → Program Vm (Unit {0})
jump_to none = undefined_line
jump_to (some (pos ip)) = jump ip
jump_to (some (negsuc n)) = λ vm. (crashed, vm)

-- The frames from the innermost one with the name on.
abbrev frames_of : Bytes → List ForFrame → List ForFrame
frames_of name [] = []
frames_of name (fr ∷ fors) = if bytes_eq fr.name name then fr ∷ fors else frames_of name fors

abbrev is_empty : Bytes → Bool
is_empty [] = true
is_empty (c ∷ s) = false

module _ (ar : Arithmetic) (call : Builtins) (img : Image) where
  abbrev goto_line : ℤ → Program Vm (Unit {0})
  goto_line n = jump_to (line_ip img n)

  -- A jump where the value on the stack is true, or false, as `wanted` says.
  abbrev jump_if : Bool → Program Vm (Unit {0})
  jump_if wanted = u32 img >>= λ ip. pop >>= λ v vm.
      if (if wanted then truth ar v else not (truth ar v)) then jump ip vm else (done tt, vm)

  abbrev pub gosub_to : ℤ → Program Vm (Unit {0})
  gosub_to n vm = goto_line n (record vm { gosub = vm.pc ∷ vm.gosub })

  abbrev pub return_to : List ℕ → Program Vm (Unit {0})
  return_to [] = vm_err (codes "RETURN without GOSUB")
  return_to (ip ∷ gosub) = λ vm. (done tt, record vm { pc = ip; gosub = gosub })

  -- `start <= end`, or `start >= end` where the step is negative.
  abbrev in_bounds : ℕ → ℕ → ℕ → Bool
  in_bounds step here end =
      if ar.lt step (ar.from_int (pos 0)) then ar.le end here else ar.le here end

  abbrev loop_begin : Bytes → ℕ → ℕ → ℕ → ℕ → Program Vm (Unit {0})
  loop_begin name fail start end step vm =
      let set = record vm { m = set_var vm.m name (num start) } in
      if in_bounds step start end
      then (
        done tt,
        record set {
          fors = record { name = name; end = end; step = step; body = vm.pc } ∷ vm.fors;
        },
      )
      else (done tt, record set { pc = fail })

  abbrev for_begin : Program Vm (Unit {0})
  for_begin = string img >>= λ name. u32 img >>= λ fail. pop_num >>= λ step.
      pop_num >>= λ end. pop_num >>= λ start. loop_begin name fail start end step

  abbrev next_value : ForFrame → List ForFrame → ℕ → Program Vm (Unit {0})
  next_value fr fors cur vm =
      let moved = ar.add cur fr.step in
      let set = record vm { m = set_var vm.m fr.name (num moved); fors = fr ∷ fors } in
      if in_bounds fr.step moved fr.end
      then (done tt, record set { pc = fr.body })
      else (done tt, record set { fors = fors })

  abbrev next_loop : List ForFrame → Program Vm (Unit {0})
  next_loop [] = λ vm. vm_err (codes "NEXT without FOR") (record vm { fors = [] })
  next_loop (fr ∷ fors) = λ vm.
      (on_machine (num_val (get_var ar vm.m fr.name)) >>= next_value fr fors)
        (record vm { fors = fr ∷ fors })

  abbrev next_named : Option Bytes → Program Vm (Unit {0})
  next_named none = vm_err (codes "Compiled file")
  next_named (some name) =
      λ vm. next_loop (if is_empty name then vm.fors else frames_of name vm.fors) vm

  abbrev for_next : Program Vm (Unit {0})
  for_next = u16 img >>= λ want vm.
      if want == no_name then next_loop vm.fors vm else next_named (get_elem? img.strings want) vm

  abbrev pub not_in_handler : Vm → Vm
  not_in_handler vm = record vm { m = record vm.m { in_handler = false } }

  -- `resume` with the address that it finds.
  abbrev pub resume_at : (Machine → Option ℤ) → Program Vm (Unit {0})
  resume_at where_to vm =
      if not vm.m.in_handler && vm.m.err_num == 0
      then vm_err (codes "RESUME without error") vm
      else jump_to (where_to vm.m) (not_in_handler vm)

  abbrev resume_line : ℤ → Program Vm (Unit {0})
  resume_line (negsuc n) = resume_at λ m. next_line_ip img m.resume_line
  resume_line (pos zero) = resume_at λ m. line_ip img m.resume_line
  resume_line (pos (suc n)) = resume_at λ m. line_ip img (pos (suc n))

  abbrev halt : Vm → Vm
  halt vm = record vm { m = record vm.m { running = false } }

  abbrev stopped : Vm → Vm
  stopped vm = record vm { m = record vm.m { running = false; stopped = true } }

  abbrev set_line : Program Vm (Unit {0})
  set_line = u32 img >>= λ n vm.
      (done tt, record vm { m = record vm.m { current_line = pos n; has_line = true } })

  abbrev on_error : Program Vm (Unit {0})
  on_error =
      pop_num >>= λ n vm. (done tt, record vm { m = record vm.m { on_error_line = ar.to_int n } })

  abbrev set_scale : ℤ → Program Vm (Unit {0})
  set_scale (pos n) = if ltb 6 n then vm_err (codes "Illegal number") else λ vm.
      (done tt, record vm { m = record vm.m { scale = n } })
  set_scale (negsuc n) = vm_err (codes "Illegal number")

  abbrev parameters : ℕ → Program Vm (List Bytes)
  parameters zero = give []
  parameters (suc n) = string img >>= λ p. parameters n >>= λ names. give (p ∷ names)

  abbrev def_fn : Program Vm (Unit {0})
  def_fn = string img >>= λ name. count_of ar call img >>= λ n. parameters n >>= λ params.
      u32 img >>= λ ip vm. (
        done tt,
        record vm { fns = set_key vm.fns name (some (record { params = params; ip = ip })) },
      )

  -- The line of an ON GOTO or ON GOSUB, if the number picks one.
  abbrev picked : List ℕ → ℤ → Option ℕ
  picked lines (pos (suc i)) = get_elem? lines i
  picked lines _ = none

  abbrev pop_nums : ℕ → List ℕ → Program Vm (List ℕ)
  pop_nums zero ns = give ns
  pop_nums (suc n) ns = pop_num >>= λ v. pop_nums n (v ∷ ns)

  abbrev on_jump_to : Bool → Option ℕ → Program Vm (Unit {0})
  on_jump_to sub none = give tt
  on_jump_to false (some n) = goto_line (ar.to_int n)
  on_jump_to true (some n) = in_program (gosub_to (ar.to_int n))

  abbrev on_jump : Program Vm (Unit {0})
  on_jump = count_of ar call img >>= λ n. u8 img >>= λ sub. pop_nums n [] >>= λ lines.
      pop_num >>= λ i. on_jump_to (not (sub == 0)) (picked lines (ar.to_int i))

  -- The instructions for lines, jumps, loops, functions and error handlers.
  unfoldable pub step_control : Program Vm (Unit {0}) → ℕ → Program Vm (Unit {0})
  unfolding truth line_ip next_line_ip set_var bytes_eq get_var
  step_control other op =
      if op == 0 || op == 34
      then (λ vm. (done tt, halt vm))
      else (if op == 1
          then set_line
          else (if op == 28
              then (u32 img >>= jump)
              else (if op == 29
                  then jump_if false
                  else (if op == 30
                      then jump_if true
                      else (if op == 31
                          then in_program (pop_num >>= λ n. goto_line (ar.to_int n))
                          else (if op == 32
                              then in_program (pop_num >>= λ n. gosub_to (ar.to_int n))
                              else (if op == 33
                                  then in_program (λ vm. return_to vm.gosub vm)
                                  else (if op == 35
                                      then (λ vm. (done tt, stopped vm))
                                      else (if op == 36
                                          then for_begin
                                          else (if op == 37
                                              then for_next
                                              else (if op == 38
                                                  then on_error
                                                  else (if op == 39
                                                      then resume_line (negsuc 0)
                                                      else (if op == 40
                                                          then resume_line (pos 0)
                                                          else (if op == 41
                                                            then (pop_num >>= λ n.
                                                            resume_line (ar.to_int n))
                                                            else (if op == 56
                                                            then on_jump
                                                            else (if op == 57
                                                            then def_fn
                                                            else (if op == 58
                                                            then fn_return ar call img
                                                            else (if op == 80
                                                            then (pop_num >>= λ n.
                                                            set_scale (ar.to_int n))
                                                            else other))))))))))))))))))
