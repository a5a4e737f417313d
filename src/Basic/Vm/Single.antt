-- ===== src/Basic/Vm/Single.antt =====
-- What one instruction does where the compiler put it.
use rsts_e_v7_2_lookalike.Prelude.{
  ℕ, ◌+◌, ◌<◌, ◌≡◌, refl, ap, sym, ◌∙◌, Bool, true, false, none, List, [], ◌∷◌, ◌++◌, arith, drop,
  length, if◌then◌else◌,
}
use mathlib.Core.Path.{subst}
use rsts_e_v7_2_lookalike.Prelude.Int.{pos}
use rsts_e_v7_2_lookalike.Bytes.Reader.{Bytes}
use rsts_e_v7_2_lookalike.Basic.Image.{Image, Value, text, num}
use rsts_e_v7_2_lookalike.Basic.Error.{Outcome, done, Program, give, after, ◌>>=◌}
use rsts_e_v7_2_lookalike.Basic.Machine.{Arithmetic, Machine, get_var}
use rsts_e_v7_2_lookalike.Basic.Machine.Arrays.{get_array}
use rsts_e_v7_2_lookalike.Basic.Expr.{Builtins}
use rsts_e_v7_2_lookalike.Basic.Expr.Eager.{reverse_onto, subscripts}
use rsts_e_v7_2_lookalike.Basic.Compiler.{Compiler, emit, emit_string, emit_counted, emit_num}
use rsts_e_v7_2_lookalike.Basic.Compiler.Growth.{Within}
use rsts_e_v7_2_lookalike.Basic.Compiler.Tables.{TablesFit}
use rsts_e_v7_2_lookalike.Basic.Vm.{Vm, on_machine, push, string, u8}
use rsts_e_v7_2_lookalike.Basic.Vm.Step.{Devices, step}
use rsts_e_v7_2_lookalike.Basic.Vm.Reach.{Reaches}
use rsts_e_v7_2_lookalike.Basic.Vm.Agree.{Agrees, Agrees-first, Reaches-one}
use rsts_e_v7_2_lookalike.Basic.Vm.Fetch.{
  emit_at, emit_string_at, emit_counted_at, emit_num_at, length-emit, length-emit_string,
  length-emit_num, length-emit_counted,
}
use rsts_e_v7_2_lookalike.Basic.Vm.Instructions.{
  value_at, push-Agrees, push_one_lem, push_num_lem, push_str_lem, load_var_lem, load_arr-Agrees,
  call_fn-Agrees,
}

-- A float that equals 1 is the float 1.
abbrev pub OneIsExact : Arithmetic → Type 0
OneIsExact ar = (v : ℕ) → ar.eq v (ar.from_int (pos 1)) ≡ true → v ≡ ar.from_int (pos 1)

-- No function of the program is known under any name.
abbrev pub NoFunctions : Vm → Type 0
NoFunctions vm = (name : Bytes) → vm.fns name ≡ none

module _ (ar : Arithmetic) (call : Builtins) (devices : Devices) (img : Image) (fit : TablesFit img)
    (exact : OneIsExact ar) where
  abbrev Does : {A : Type 0} → ℕ → Vm → Outcome A × Machine → (A → Machine → Vm) → Type 0
  Does = Reaches ar call devices img

  -- An instruction that pushes a value, and changes nothing else.
  push-Does :
      (op : ℕ) (vm : Vm) (c n n' : ℕ) (v : Value)
      → (rest : Bytes) × (drop c img.code ≡ op ∷ rest)
      → vm.pc ≡ c
      → step ar call img devices op (record vm { pc = vm.pc + 1 }) ≡ (done tt, value_at vm n v vm.m)
      → n ≡ n'
      → Does 1 vm (give v vm.m) (value_at vm n')
  push-Does op vm c n n' v (rest, at) h does place =
      Reaches-one ar call devices img vm op rest (give v vm.m) (value_at vm n')
        (ap (λ i. drop i img.code) h ∙ at)
        (record { same = does ∙ ap (λ i. (done tt, value_at vm i v vm.m)) place })

  pub num_lit-Does :
      (v : ℕ) (c : Compiler) (vm : Vm) (one : Bool)
      → ar.eq v (ar.from_int (pos 1)) ≡ one
      → Within (if one then emit 4 c else emit_num v c) img
      → vm.pc ≡ length c.code
      → Does 1 vm
          (give (num v) vm.m)
          (value_at vm (length (if one then emit 4 c else emit_num v c).code))
  num_lit-Does v c vm true is_one w h =
      push-Does 4 vm (length c.code) _ _ (num v) (emit_at img fit 4 c w) h
        (push_one_lem ar call devices img (record vm { pc = vm.pc + 1 })
          ∙ ap (λ x. (done tt, value_at vm (vm.pc + 1) (num x) vm.m)) (sym (exact v is_one)))
        (ap (λ n. n + 1) h ∙ sym (length-emit 4 c))
  num_lit-Does v c vm false other w h =
      let (i, rest, at, entry, fetch) = emit_num_at img fit v c w in
      push-Does 2 vm (length c.code) _ _ (num v) (rest, at) h
        (push_num_lem ar call devices img (record vm { pc = vm.pc + 1 }) i v
          (fetch (record vm { pc = vm.pc + 1 }) (ap (λ n. n + 1) h)) entry)
        (omega (arith, h, length-emit_num v c))

  pub str_lit-Does :
      (s : Bytes) (c : Compiler) (vm : Vm)
      → Within (emit_string 3 s c) img
      → vm.pc ≡ length c.code
      → Does 1 vm (give (text s) vm.m) (value_at vm (length (emit_string 3 s c).code))
  str_lit-Does s c vm w h =
      let (rest, at, fetch) = emit_string_at img fit 3 s c w in
      push-Does 3 vm (length c.code) _ _ (text s) (rest, at) h
        (push_str_lem ar call devices img (record vm { pc = vm.pc + 1 }) s
          (fetch (record vm { pc = vm.pc + 1 }) (ap (λ n. n + 1) h)))
        (omega (arith, h, length-emit_string 3 s c))

  pub load_var-Does :
      (s : Bytes) (c : Compiler) (vm : Vm)
      → Within (emit_string 5 s c) img
      → vm.pc ≡ length c.code
      → Does 1 vm (give (get_var ar vm.m s) vm.m) (value_at vm (length (emit_string 5 s c).code))
  load_var-Does s c vm w h =
      let (rest, at, fetch) = emit_string_at img fit 5 s c w in
      push-Does 5 vm (length c.code) _ _ (get_var ar vm.m s) (rest, at) h
        (load_var_lem ar call devices img (record vm { pc = vm.pc + 1 }) s
          (fetch (record vm { pc = vm.pc + 1 }) (ap (λ n. n + 1) h)))
        (omega (arith, h, length-emit_string 5 s c))

  pub operator-Does :
      (op : ℕ) (p : Program Machine Value) (c : Compiler) (vm : Vm) (operands stack : List Value)
      → step ar call img devices op (record vm { pc = vm.pc + 1; stack = operands ++ stack })
        ≡ after (on_machine p (record vm { pc = vm.pc + 1; stack = stack })) push
      → Within (emit op c) img
      → vm.pc ≡ length c.code
      → Does 1
          (record vm { stack = operands ++ stack })
          (p vm.m)
          (value_at (record vm { stack = stack }) (length (emit op c).code))
  operator-Does op p c vm operands stack does w h =
      let (rest, at) = emit_at img fit op c w in
      let place : vm.pc + 1 ≡ length (emit op c).code =
        ap (λ n. n + 1) h ∙ sym (length-emit op c) in
      Reaches-one ar call devices img (record vm { stack = operands ++ stack }) op rest (p vm.m)
        (value_at (record vm { stack = stack }) (length (emit op c).code))
        (ap (λ n. drop n img.code) h ∙ at)
        (Agrees-first does (
          push-Agrees p (record vm { pc = vm.pc + 1; stack = stack }) (length (emit op c).code)
            place))

  -- The two instructions with a name and a count, with the values counted on the stack.
  counted-Does :
      (op : ℕ) (p : Program Machine Value) (name : Bytes) (vs stack : List Value) (c : Compiler)
      (vm : Vm)
      → ((at : Vm)
          → at ≡ record vm { pc = vm.pc + 1 }
          → string img (record at { stack = vs ++ stack })
            ≡ (done name, record at { pc = at.pc + 2; stack = vs ++ stack })
          → u8 img (record at { pc = at.pc + 2; stack = vs ++ stack })
            ≡ (done (length vs), record at { pc = at.pc + 3; stack = vs ++ stack })
          → Agrees
              (step ar call img devices op (record at { stack = vs ++ stack }))
              (p at.m)
              (λ v m. (tt, value_at (record at { stack = stack }) (at.pc + 3) v m)))
      → length vs < 256
      → Within (emit_counted op name (length vs) c) img
      → vm.pc ≡ length c.code
      → Does 1
          (record vm { stack = vs ++ stack })
          (p vm.m)
          (value_at
            (record vm { stack = stack })
            (length (emit_counted op name (length vs) c).code))
  counted-Does op p name vs stack c vm does small w h =
      let n = length (emit_counted op name (length vs) c).code in
      let (rest, at, fetch, count) = emit_counted_at img fit op name (length vs) c small w in
      let place : vm.pc + 1 + 3 ≡ n = omega (arith, h, length-emit_counted op name (length vs) c) in
      let at_name : vm.pc + 1 ≡ length c.code + 1 = omega (arith, h) in
      let at_count : vm.pc + 1 + 2 ≡ length c.code + 3 = omega (arith, h) in
      let after_count : vm.pc + 1 + 2 + 1 ≡ vm.pc + 1 + 3 = omega arith in
      Reaches-one ar call devices img (record vm { stack = vs ++ stack }) op rest (p vm.m)
        (value_at (record vm { stack = stack }) n) (ap (λ i. drop i img.code) h ∙ at)
        (subst
          (λ i.
            Agrees (step ar call img devices op (record vm { pc = vm.pc + 1; stack = vs ++ stack }))
              (p vm.m) (λ v m. (tt, value_at (record vm { stack = stack }) i v m)))
          place
          (does (record vm { pc = vm.pc + 1 }) refl
            (fetch (record vm { pc = vm.pc + 1; stack = vs ++ stack }) at_name)
            (count (record vm { pc = vm.pc + 1 + 2; stack = vs ++ stack }) at_count
              ∙ ap (λ i. (done (length vs), record vm { pc = i; stack = vs ++ stack }))
                  after_count)))

  pub load_arr-Does :
      (name : Bytes) (vs stack : List Value) (c : Compiler) (vm : Vm)
      → length vs < 256
      → Within (emit_counted 7 name (length vs) c) img
      → vm.pc ≡ length c.code
      → Does 1
          (record vm { stack = vs ++ stack })
          ((subscripts ar vs [] >>= get_array ar name) vm.m)
          (value_at (record vm { stack = stack }) (length (emit_counted 7 name (length vs) c).code))
  load_arr-Does name vs stack c vm =
      counted-Does 7 (subscripts ar vs [] >>= get_array ar name) name vs stack c vm
        λ at here. load_arr-Agrees ar call devices img at name vs stack

  pub call_fn-Does :
      (name : Bytes) (vs stack : List Value) (c : Compiler) (vm : Vm)
      → NoFunctions vm
      → length vs < 256
      → Within (emit_counted 27 name (length vs) c) img
      → vm.pc ≡ length c.code
      → Does 1
          (record vm { stack = vs ++ stack })
          (call name (reverse_onto vs []) vm.m)
          (value_at
            (record vm { stack = stack })
            (length (emit_counted 27 name (length vs) c).code))
  call_fn-Does name vs stack c vm undefined =
      counted-Does 27 (call name (reverse_onto vs [])) name vs stack c vm λ at here.
        call_fn-Agrees ar call devices img at name vs stack
          λ f. ap (λ w. w.fns f) here ∙ undefined f
