-- ===== src/Basic/Vm/Correct.antt =====
-- The code that the compiler makes of an expression does what the expression does, in the order of
-- Basic/Expr/Eager.
use rsts_e_v7_2_lookalike.Prelude.{
  ℕ, suc, ◌+◌, ◌<◌, ◌≡◌, refl, ap, ◌∙◌, List, [], ◌∷◌, ◌++◌, arith, length,
}
use mathlib.Core.Path.{subst}
use rsts_e_v7_2_lookalike.Prelude.Int.{pos}
use rsts_e_v7_2_lookalike.Basic.Image.{Image, Value}
use rsts_e_v7_2_lookalike.Basic.Error.{Outcome, done, raised, crashed, Program, after, ◌>>=◌}
use rsts_e_v7_2_lookalike.Basic.Machine.{Arithmetic, Machine}
use rsts_e_v7_2_lookalike.Basic.Machine.Operators.{bin_op, bin_op_code}
use rsts_e_v7_2_lookalike.Basic.Machine.Arrays.{get_array}
use rsts_e_v7_2_lookalike.Basic.Expr.{
  unary_op, Expr, num_lit, str_lit, var_ref, call_expr, unary_expr, bin_expr, Exprs, none_left,
  and_then, Builtins, how_many,
}
use rsts_e_v7_2_lookalike.Basic.Expr.Eager.{reverse_onto, subscripts, eager, eager_args}
use rsts_e_v7_2_lookalike.Basic.Compiler.{Compiler, emit, emit_counted, unary_code, expr, exprs}
use rsts_e_v7_2_lookalike.Basic.Compiler.Growth.{
  Within, Grows-Within, emit-Grows, emit_counted-Grows, expr-Grows, exprs-Grows,
}
use rsts_e_v7_2_lookalike.Basic.Compiler.Tables.{TablesFit}
use rsts_e_v7_2_lookalike.Basic.Vm.{Vm}
use rsts_e_v7_2_lookalike.Basic.Vm.Step.{Devices}
use rsts_e_v7_2_lookalike.Basic.Vm.Run.{exec}
use rsts_e_v7_2_lookalike.Basic.Vm.Reach.{Reaches, Reaches-after}
use rsts_e_v7_2_lookalike.Basic.Vm.Instructions.{value_at, unary_lem, binary_lem}
use rsts_e_v7_2_lookalike.Basic.Vm.Single.{
  OneIsExact, NoFunctions, num_lit-Does, str_lit-Does, load_var-Does, operator-Does, load_arr-Does,
  call_fn-Does,
}

-- How many instructions the code of an expression takes.
unfoldable mutual
  pub ops : Expr → ℕ
  ops (num_lit v) = 1
  ops (str_lit s) = 1
  ops (var_ref name none_left) = 1
  ops (var_ref name (and_then e es)) = ops_args (and_then e es) + 1
  ops (unary_expr op x) = ops x + 1
  ops (bin_expr op l r) = ops l + (ops r + 1)
  ops (call_expr name args) = ops_args args + 1

  pub ops_args : Exprs → ℕ
  ops_args none_left = 0
  ops_args (and_then e es) = ops e + ops_args es

-- No list of subscripts or arguments is longer than a byte can count.
unfoldable mutual
  pub IsSmall : Expr → Type 0
  IsSmall (num_lit v) = Unit {0}
  IsSmall (str_lit s) = Unit {0}
  IsSmall (var_ref name indices) = (how_many indices < 256) × AreSmall indices
  IsSmall (unary_expr op x) = IsSmall x
  IsSmall (bin_expr op l r) = IsSmall l × IsSmall r
  IsSmall (call_expr name args) = (how_many args < 256) × AreSmall args

  pub AreSmall : Exprs → Type 0
  AreSmall none_left = Unit {0}
  AreSmall (and_then e es) = IsSmall e × AreSmall es

-- The machine with values on its stack, at a place of the code.
abbrev pub values_at : Vm → ℕ → List Value → List Value → Machine → Vm
values_at vm n stack vs m = record vm { m = m; pc = n; stack = vs ++ stack }

length-eager_args_after :
    {A : Type 0} (r : Outcome A × Machine) (g : A → Program Machine (List Value)) (n : ℕ)
    (ws : List Value) (w : Machine)
    → ((a : A) (m : Machine) → g a m ≡ (done ws, w) → length ws ≡ n)
    → after r g ≡ (done ws, w)
    → length ws ≡ n
length-eager_args_after (done a, m) g n ws w h e = h a m e
length-eager_args_after (raised x, m) g n ws w h e = cc e
length-eager_args_after (crashed, m) g n ws w h e = cc e

module _ (ar : Arithmetic) (call : Builtins) where
  pub length-eager_args :
      (es : Exprs) (vs : List Value) (m : Machine) (ws : List Value) (w : Machine)
      → eager_args ar call es vs m ≡ (done ws, w)
      → length ws ≡ how_many es + length vs
  unfolding eager_args
  length-eager_args none_left vs m ws w e =
      let same : ws ≡ vs = cc e in ap length same ∙ omega arith
  length-eager_args (and_then x es) vs m ws w e =
      length-eager_args_after (eager ar call x m) (λ v. eager_args ar call es (v ∷ vs)) _ ws w
        (λ v n h. length-eager_args es (v ∷ vs) n ws w h ∙ omega arith) e

module _ (ar : Arithmetic) (call : Builtins) (devices : Devices) (img : Image) (fit : TablesFit img)
    (exact : OneIsExact ar) where
  mutual
    unfolding expr exprs eager eager_args ops ops_args IsSmall AreSmall

    pub expr-Does :
        (e : Expr) (c : Compiler) (vm : Vm)
        → NoFunctions vm
        → IsSmall e
        → Within (expr ar e c) img
        → vm.pc ≡ length c.code
        → Reaches ar call devices img
            (ops e)
            vm
            (eager ar call e vm.m)
            (value_at vm (length (expr ar e c).code))
    expr-Does (num_lit v) c vm undefined small w h =
        num_lit-Does ar call devices img fit exact v c vm (ar.eq v (ar.from_int (pos 1))) refl w h
    expr-Does (str_lit s) c vm undefined small w h =
        str_lit-Does ar call devices img fit exact s c vm w h
    expr-Does (var_ref name none_left) c vm undefined small w h =
        load_var-Does ar call devices img fit exact name c vm w h
    expr-Does (var_ref name (and_then e es)) c vm undefined (few, small) w h =
        let n = suc (how_many es) in
        let d = exprs ar (and_then e es) c in
        let inner =
          Grows-Within d (emit_counted 7 name n d) img (emit_counted-Grows 7 name n d) w in
        Reaches-after ar call devices img (ops_args (and_then e es)) 1 vm
          (eager_args ar call (and_then e es) [] vm.m)
          (λ vs. subscripts ar vs [] >>= get_array ar name) (values_at vm (length d.code) vm.stack)
          (value_at vm (length (emit_counted 7 name n d).code))
          (exprs-Does (and_then e es) [] c vm vm.stack undefined small inner h refl)
          λ vs m done_so.
            subst
              (λ k.
                k < 256
                → Within (emit_counted 7 name k d) img
                → Reaches ar call devices img 1 (values_at vm (length d.code) vm.stack vs m)
                    ((subscripts ar vs [] >>= get_array ar name) m)
                    (value_at vm (length (emit_counted 7 name k d).code)))
              (length-eager_args ar call (and_then e es) [] vm.m vs m done_so ∙ omega arith)
              (λ few w.
                load_arr-Does ar call devices img fit exact name vs vm.stack d
                  (record vm { m = m; pc = length d.code }) few w refl)
              few w
    expr-Does (unary_expr op x) c vm undefined small w h =
        let d = expr ar x c in
        let inner = Grows-Within d (emit (unary_code op) d) img (emit-Grows (unary_code op) d) w in
        Reaches-after ar call devices img (ops x) 1 vm (eager ar call x vm.m) (unary_op ar op)
          (value_at vm (length d.code)) (value_at vm (length (emit (unary_code op) d).code))
          (expr-Does x c vm undefined small inner h)
          λ v m done_so.
            operator-Does ar call devices img fit exact (unary_code op) (unary_op ar op v) d
              (record vm { m = m; pc = length d.code }) (v ∷ []) vm.stack
              (unary_lem ar call devices img op (record vm { m = m; pc = length d.code + 1 }) v
                vm.stack)
              w refl
    expr-Does (bin_expr op l r) c vm undefined (small_l, small_r) w h =
        let d = expr ar l c in
        let f = expr ar r d in
        let inner_r =
          Grows-Within f (emit (bin_op_code op) f) img (emit-Grows (bin_op_code op) f) w in
        let inner_l = Grows-Within d f img (expr-Grows ar r d) inner_r in
        let n = length (emit (bin_op_code op) f).code in
        Reaches-after ar call devices img (ops l) (ops r + 1) vm (eager ar call l vm.m)
          (λ a. eager ar call r >>= λ b. bin_op ar op a b) (value_at vm (length d.code))
          (value_at vm n) (expr-Does l c vm undefined small_l inner_l h)
          λ a m done_so.
            Reaches-after ar call devices img (ops r) 1 (value_at vm (length d.code) a m)
              (eager ar call r m) (bin_op ar op a)
              (value_at (value_at vm (length d.code) a m) (length f.code)) (value_at vm n)
              (expr-Does r d (value_at vm (length d.code) a m) undefined small_r inner_r refl)
              λ b m done_too.
                operator-Does ar call devices img fit exact (bin_op_code op) (bin_op ar op a b) f
                  (record vm { m = m; pc = length f.code }) (b ∷ a ∷ []) vm.stack
                  (binary_lem ar call devices img op (record vm { m = m; pc = length f.code + 1 }) a
                    b vm.stack)
                  w refl
    expr-Does (call_expr name args) c vm undefined (few, small) w h =
        let n = how_many args in
        let d = exprs ar args c in
        let inner =
          Grows-Within d (emit_counted 27 name n d) img (emit_counted-Grows 27 name n d) w in
        Reaches-after ar call devices img (ops_args args) 1 vm (eager_args ar call args [] vm.m)
          (λ vs. call name (reverse_onto vs [])) (values_at vm (length d.code) vm.stack)
          (value_at vm (length (emit_counted 27 name n d).code))
          (exprs-Does args [] c vm vm.stack undefined small inner h refl)
          λ vs m done_so.
            subst
              (λ k.
                k < 256
                → Within (emit_counted 27 name k d) img
                → Reaches ar call devices img 1 (values_at vm (length d.code) vm.stack vs m)
                    (call name (reverse_onto vs []) m)
                    (value_at vm (length (emit_counted 27 name k d).code)))
              (length-eager_args ar call args [] vm.m vs m done_so ∙ omega arith)
              (λ few w.
                call_fn-Does ar call devices img fit exact name vs vm.stack d
                  (record vm { m = m; pc = length d.code }) undefined few w refl)
              few w

    pub exprs-Does :
        (es : Exprs) (vs : List Value) (c : Compiler) (vm : Vm) (stack : List Value)
        → NoFunctions vm
        → AreSmall es
        → Within (exprs ar es c) img
        → vm.pc ≡ length c.code
        → vm.stack ≡ vs ++ stack
        → Reaches ar call devices img
            (ops_args es)
            vm
            (eager_args ar call es vs vm.m)
            (values_at vm (length (exprs ar es c).code) stack)
    exprs-Does none_left vs c vm stack undefined small w h on = λ k.
        (let more : 0 + k ≡ k = omega arith in ap (λ i. exec ar call devices img i vm) more)
        ∙ ap (λ n. exec ar call devices img k (record vm { pc = n })) h
        ∙ ap (λ l. exec ar call devices img k (record vm { pc = length c.code; stack = l })) on
    exprs-Does (and_then e es) vs c vm stack undefined (small_e, small_es) w h on =
        let d = expr ar e c in
        let inner = Grows-Within d (exprs ar es d) img (exprs-Grows ar es d) w in
        Reaches-after ar call devices img (ops e) (ops_args es) vm (eager ar call e vm.m)
          (λ v. eager_args ar call es (v ∷ vs)) (value_at vm (length d.code))
          (values_at vm (length (exprs ar es d).code) stack)
          (expr-Does e c vm undefined small_e inner h)
          λ v m done_so.
            exprs-Does es (v ∷ vs) d (value_at vm (length d.code) v m) stack undefined small_es w
              refl (ap (λ l. v ∷ l) on)
