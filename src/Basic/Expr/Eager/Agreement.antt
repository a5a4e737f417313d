-- ===== src/Basic/Expr/Eager/Agreement.antt =====
-- The evaluator of interp.go and the order of compiled expressions give the same values.
use rsts_e_v7_2_lookalike.Prelude.{◌≡◌, refl, ap, sym, ◌∙◌, List, [], ◌∷◌, ◌++◌, append-nil}
use rsts_e_v7_2_lookalike.Prelude.Int.{ℤ}
use rsts_e_v7_2_lookalike.Bytes.Reader.{Bytes}
use rsts_e_v7_2_lookalike.Basic.Image.{Value, text, num}
use rsts_e_v7_2_lookalike.Basic.Error.{
  Outcome, done, raised, crashed, Program, give, after, ◌>>=◌, after_assoc,
}
use rsts_e_v7_2_lookalike.Basic.Machine.{Arithmetic, Machine}
use rsts_e_v7_2_lookalike.Basic.Machine.Arrays.{get_array}
use rsts_e_v7_2_lookalike.Basic.Expr.{
  Expr, num_lit, str_lit, var_ref, call_expr, unary_expr, bin_expr, Exprs, none_left, and_then,
  Builtins, subscript, variable,
}
use rsts_e_v7_2_lookalike.Basic.Expr.Eval.{eval, eval_indices, eval_args}
use rsts_e_v7_2_lookalike.Basic.Expr.Eager.{reverse_onto, subscripts, eager, eager_args}

-- The program gave no value.
abbrev pub Fails : {A : Type 0} → Outcome A × Machine → Type 0
Fails (done a, m) = ⊥
Fails (raised e, m) = Unit {0}
Fails (crashed, m) = Unit {0}

abbrev pub Matches : {A : Type 0} → Outcome A × Machine → Outcome A × Machine → Type 0
Matches (done a, m) r = r ≡ (done a, m)
Matches (raised e, m) r = Fails r
Matches (crashed, m) r = Fails r

-- The same value and machine, or no value from either.
pub record Alike {A : Type 0} (r s : Outcome A × Machine) : Type 0 where
  pub same : Matches r s

Alike-refl : {A : Type 0} (r : Outcome A × Machine) → Alike r r
Alike-refl (done a, m) = record { same = refl }
Alike-refl (raised e, m) = record { same = tt }
Alike-refl (crashed, m) = record { same = tt }

Alike-first : {A : Type 0} {r s t : Outcome A × Machine} → r ≡ s → Alike s t → Alike r t
Alike-first e h = rw e h

Alike-last : {A : Type 0} {r s t : Outcome A × Machine} → t ≡ s → Alike r s → Alike r t
Alike-last e h = rw e h

Fails-after :
    {A B : Type 0} (r : Outcome A × Machine) (g : A → Program Machine B)
    → Fails r
    → Fails (after r g)
Fails-after (done a, m) g h = absurd h
Fails-after (raised e, m) g h = tt
Fails-after (crashed, m) g h = tt

Fails-then :
    {A B : Type 0} (r : Outcome A × Machine) (g : A → Program Machine B)
    → ((a : A) (m : Machine) → Fails (g a m))
    → Fails (after r g)
Fails-then (done a, m) g h = h a m
Fails-then (raised e, m) g h = tt
Fails-then (crashed, m) g h = tt

Matches-trans : {A : Type 0} (r s t : Outcome A × Machine) → Matches r s → Matches s t → Matches r t
Matches-trans (done a, m) s t h k = let here : Matches (done a, m) t = rw h at k in here
Matches-trans (raised e, m) (done a, n) t h k = absurd h
Matches-trans (raised e, m) (raised f, n) t h k = k
Matches-trans (raised e, m) (crashed, n) t h k = k
Matches-trans (crashed, m) (done a, n) t h k = absurd h
Matches-trans (crashed, m) (raised f, n) t h k = k
Matches-trans (crashed, m) (crashed, n) t h k = k

Alike-trans : {A : Type 0} {r s t : Outcome A × Machine} → Alike r s → Alike s t → Alike r t
Alike-trans {r = r} {s = s} {t = t} h k = record { same = Matches-trans r s t h.same k.same }

Matches-after :
    {A B : Type 0} (r s : Outcome A × Machine) (g h : A → Program Machine B)
    → Matches r s
    → ((a : A) (m : Machine) → Alike (g a m) (h a m))
    → Alike (after r g) (after s h)
Matches-after (done a, m) s g h same then = rw same (then a m)
Matches-after (raised e, m) s g h same then = record { same = Fails-after s h same }
Matches-after (crashed, m) s g h same then = record { same = Fails-after s h same }

Alike-after :
    {A B : Type 0} {r s : Outcome A × Machine} {g h : A → Program Machine B}
    → Alike r s
    → ((a : A) (m : Machine) → Alike (g a m) (h a m))
    → Alike (after r g) (after s h)
Alike-after {r = r} {s = s} {g = g} {h = h} both then = Matches-after r s g h both.same then

reverse_onto-reverse_onto {ℓ} :
    {A : Type ℓ} (xs ys zs : List A)
    → reverse_onto (reverse_onto xs ys) zs ≡ reverse_onto ys (xs ++ zs)
unfolding reverse_onto
reverse_onto-reverse_onto [] ys zs = refl
reverse_onto-reverse_onto (x ∷ xs) ys zs = reverse_onto-reverse_onto xs (x ∷ ys) zs

reverse_twice {ℓ} : {A : Type ℓ} (xs : List A) → reverse_onto (reverse_onto xs []) [] ≡ xs
unfolding reverse_onto
reverse_twice xs = reverse_onto-reverse_onto xs [] [] ∙ append-nil xs

module _ (ar : Arithmetic) (call : Builtins) where
  -- Taking the number of a value before the rest of the subscripts, or after them.
  early_late :
      (v : Value) (vs : List Value) (r : Program Machine (List ℤ)) (m : Machine)
      → Alike
          (after ((subscript ar v >>= λ i. r >>= λ idxs. give (i ∷ idxs)) m) (subscripts ar vs))
          (after (r m) (subscripts ar (v ∷ vs)))
  unfolding subscripts
  early_late (num n) vs r m =
      Alike-first (after_assoc (r m) (λ idxs. give (ar.to_int n ∷ idxs)) (subscripts ar vs))
        (Alike-refl _)
  early_late (text s) vs r m = record { same = Fails-then (r m) _ λ idxs m. tt }

  -- An element of an array has at least one subscript.
  element_indices :
      (r : Outcome Value × Machine) (p : Program Machine (List ℤ)) (name : Bytes)
      → after
          (after r (λ v. subscript ar v >>= λ i. p >>= λ idxs. give (i ∷ idxs)))
          (variable ar name)
        ≡ after
            (after r (λ v. subscript ar v >>= λ i. p >>= λ idxs. give (i ∷ idxs)))
            (get_array ar name)
  element_indices (done (num n), m) p name =
      after_assoc (p m) (λ idxs. give (ar.to_int n ∷ idxs)) (variable ar name)
      ∙ sym (after_assoc (p m) (λ idxs. give (ar.to_int n ∷ idxs)) (get_array ar name))
  element_indices (done (text s), m) p name = refl
  element_indices (raised e, m) p name = refl
  element_indices (crashed, m) p name = refl

  mutual
    unfolding subscripts eval eval_indices eval_args eager eager_args reverse_onto

    pub eval-Alike : (e : Expr) (m : Machine) → Alike (eval ar call e m) (eager ar call e m)
    eval-Alike (num_lit v) m = Alike-refl _
    eval-Alike (str_lit s) m = Alike-refl _
    eval-Alike (var_ref name none_left) m = Alike-refl _
    eval-Alike (var_ref name (and_then e es)) m =
        let idxs = eval_indices ar call (and_then e es) m in
        let values = eager_args ar call (and_then e es) [] m in
        Alike-first (element_indices (eval ar call e m) (eval_indices ar call es) name) (
          Alike-first (sym (after_assoc idxs (subscripts ar []) (get_array ar name))) (
            Alike-last (sym (after_assoc values (λ vs. subscripts ar vs []) (get_array ar name)))
              (Alike-after (indices-Alike (and_then e es) [] m) λ i m. Alike-refl _)))
    eval-Alike (unary_expr op x) m = Alike-after (eval-Alike x m) λ v m. Alike-refl _
    eval-Alike (bin_expr op l r) m =
        Alike-after (eval-Alike l m) λ a m. Alike-after (eval-Alike r m) λ b m. Alike-refl _
    eval-Alike (call_expr name args) m =
        Alike-trans
          (Alike-after {h = λ vs. call name (reverse_onto (reverse_onto vs []) [])}
            (Alike-refl (eval_args ar call args m))
            λ vs m. Alike-first (ap (λ l. call name l m) (sym (reverse_twice vs))) (Alike-refl _))
          (args-Alike args [] (λ vs. call name (reverse_onto vs [])) m)

    indices-Alike :
        (es : Exprs) (vs : List Value) (m : Machine)
        → Alike
            (after (eval_indices ar call es m) (subscripts ar vs))
            (after (eager_args ar call es vs m) (λ ws. subscripts ar ws []))
    indices-Alike none_left vs m = Alike-refl _
    indices-Alike (and_then e es) vs m =
        Alike-first
          (after_assoc (eval ar call e m)
            (λ v. subscript ar v >>= λ i. eval_indices ar call es >>= λ idxs. give (i ∷ idxs))
            (subscripts ar vs))
          (Alike-last
            (after_assoc (eager ar call e m) (λ v. eager_args ar call es (v ∷ vs))
              (λ ws. subscripts ar ws []))
            (Alike-after (eval-Alike e m) λ v m.
              Alike-trans (early_late v vs (eval_indices ar call es) m)
                (indices-Alike es (v ∷ vs) m)))

    args-Alike :
        (es : Exprs) (vs : List Value) (k : List Value → Program Machine Value) (m : Machine)
        → Alike
            (after (eval_args ar call es m) (λ ws. k (reverse_onto ws vs)))
            (after (eager_args ar call es vs m) k)
    args-Alike none_left vs k m = Alike-refl _
    args-Alike (and_then e es) vs k m =
        Alike-first
          (after_assoc (eval ar call e m) (λ v. eval_args ar call es >>= λ ws. give (v ∷ ws))
            (λ ws. k (reverse_onto ws vs)))
          (Alike-last (after_assoc (eager ar call e m) (λ v. eager_args ar call es (v ∷ vs)) k) (
            Alike-after (eval-Alike e m) λ v m.
              Alike-first
                (after_assoc (eval_args ar call es m) (λ ws. give (v ∷ ws))
                  (λ ws. k (reverse_onto ws vs)))
                (args-Alike es (v ∷ vs) k m)))
