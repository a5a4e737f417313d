-- ===== src/Basic/Machine/Operators/Panics.antt =====
-- When an operator panics: `int(a) % int(b)` of MOD, whose test for 0 is of the float.
use rsts_e_v7_2_lookalike.Prelude.{ℕ, ◌≡◌, refl, Bool, true, false, not, if◌then◌else◌}
use rsts_e_v7_2_lookalike.Prelude.Int.{pos, eq_ℤ, eq_ℤ_sound}
use rsts_e_v7_2_lookalike.Bytes.Reader.{Bytes}
use rsts_e_v7_2_lookalike.Bytes.Magic.{bytes_eq}
use rsts_e_v7_2_lookalike.Text.Ascii.{codes}
use rsts_e_v7_2_lookalike.Basic.Image.{Value, text, num}
use rsts_e_v7_2_lookalike.Basic.Error.{Outcome, done, crashed, Program}
use rsts_e_v7_2_lookalike.Basic.Machine.{Arithmetic, Machine, complain, number}
use rsts_e_v7_2_lookalike.Basic.Machine.Operators.{
  BinOp, op_add, op_sub, op_mul, op_div, op_idiv, op_mod, op_pow, op_eq, op_ne, op_lt, op_le, op_gt,
  op_ge, op_approx, op_and, op_or, op_xor, op_eqv, op_imp, bin_op, bytes_lt, approx_equal, numbers,
  is_zero, int_remainder, unless_zero, compare_values, concat_or_add,
}

-- The divisor is no 0, and less than 1 in size.
abbrev pub IsFraction : Arithmetic → Value → Type 0
IsFraction ar b =
    (y : ℕ) × (b ≡ num y) × (ar.eq y (ar.from_int (pos 0)) ≡ false) × (ar.to_int y ≡ pos 0)

-- No panic, and the machine is as it was.
abbrev Calm : Machine → Outcome Value × Machine → Type 0
Calm m r = ((r.0 ≡ crashed) → ⊥) × (r.1 ≡ m)

module _ (ar : Arithmetic) (m : Machine) where
  numbers-Calm :
      (k : ℕ → ℕ → Program Machine Value) (a b : Value)
      → ((x y : ℕ) → Calm m (k x y m))
      → Calm m (numbers ar k a b m)
  numbers-Calm k (num x) (num y) h = h x y
  numbers-Calm k (num x) (text t) h = (λ e. cc e, refl)
  numbers-Calm k (text s) b h = (λ e. cc e, refl)

  value-Calm : (v : Value) → Calm m (done v, m)
  value-Calm v = (λ e. cc e, refl)

  unless_zero-Calm :
      (msg : Bytes) (f : ℕ → ℕ → Machine → Value) (a b : Value)
      → Calm m (unless_zero ar msg f a b m)
  unless_zero-Calm msg f a b = numbers-Calm _ a b λ x y. go (is_zero ar y) x y
    where
      go : (z : Bool) (x y : ℕ) → Calm m (if z then complain msg m else (done (f x y m), m))
      go true x y = (λ e. cc e, refl)
      go false x y = (λ e. cc e, refl)

  compare-Calm :
      (on_strings : Bytes → Bytes → Bool) (on_numbers : ℕ → ℕ → Bool) (a b : Value)
      → Calm m (compare_values ar on_strings on_numbers a b m)
  unfolding compare_values
  compare-Calm on_strings on_numbers (num x) (num y) = value-Calm _
  compare-Calm on_strings on_numbers (num x) (text t) = value-Calm _
  compare-Calm on_strings on_numbers (text s) b = value-Calm _

  add-Calm : (a b : Value) → Calm m (concat_or_add ar a b m)
  unfolding concat_or_add
  add-Calm (num x) (num y) = value-Calm _
  add-Calm (num x) (text t) = value-Calm _
  add-Calm (text s) b = value-Calm _

  -- A panic only of MOD by a fraction, and the machine as it was.
  abbrev Limited : BinOp → Value → Outcome Value × Machine → Type 0
  Limited op b r = (r.0 ≡ crashed → (op ≡ op_mod) × IsFraction ar b) × (r.1 ≡ m)

  limited : (op : BinOp) (b : Value) (r : Outcome Value × Machine) → Calm m r → Limited op b r
  limited op b r calm = (λ e. absurd (calm.0 e), calm.1)

  mod-Limited :
      (x y : ℕ) (z : Bool)
      → is_zero ar y ≡ z
      → Limited op_mod (num y) (
          if z
          then complain (codes "Division by 0") m
          else (int_remainder ar (ar.to_int x) (ar.to_int y), m))
  mod-Limited x y true e = limited op_mod (num y) _ (λ no. cc no, refl)
  mod-Limited x y false e = (λ panics. go (eq_ℤ (ar.to_int y) (pos 0)) refl panics, refl)
    where
      go :
          (z : Bool)
          → eq_ℤ (ar.to_int y) (pos 0) ≡ z
          → (if z then crashed else done (number ar (ar.remainder (ar.to_int x) (ar.to_int y))))
            ≡ crashed
          → (op_mod ≡ op_mod) × IsFraction ar (num y)
      go true whole panics = (refl, (y, refl, e, eq_ℤ_sound (ar.to_int y) (pos 0) whole))
      go false other panics = cc panics

  bin_op-Limited : (op : BinOp) (a b : Value) → Limited op b (bin_op ar op a b m)
  unfolding bin_op
  bin_op-Limited op_add a b = limited op_add b _ (add-Calm a b)
  bin_op-Limited op_sub a b = limited op_sub b _ (numbers-Calm _ a b λ x y. value-Calm _)
  bin_op-Limited op_mul a b = limited op_mul b _ (numbers-Calm _ a b λ x y. value-Calm _)
  bin_op-Limited op_div a b = limited op_div b _ (unless_zero-Calm _ _ a b)
  bin_op-Limited op_idiv a b = limited op_idiv b _ (unless_zero-Calm _ _ a b)
  bin_op-Limited op_mod (num x) (num y) = mod-Limited x y (is_zero ar y) refl
  bin_op-Limited op_mod (num x) (text t) = limited op_mod (text t) _ (λ e. cc e, refl)
  bin_op-Limited op_mod (text s) b = limited op_mod b _ (λ e. cc e, refl)
  bin_op-Limited op_pow a b = limited op_pow b _ (numbers-Calm _ a b λ x y. value-Calm _)
  bin_op-Limited op_and a b = limited op_and b _ (numbers-Calm _ a b λ x y. value-Calm _)
  bin_op-Limited op_or a b = limited op_or b _ (numbers-Calm _ a b λ x y. value-Calm _)
  bin_op-Limited op_xor a b = limited op_xor b _ (numbers-Calm _ a b λ x y. value-Calm _)
  bin_op-Limited op_eqv a b = limited op_eqv b _ (numbers-Calm _ a b λ x y. value-Calm _)
  bin_op-Limited op_imp a b = limited op_imp b _ (numbers-Calm _ a b λ x y. value-Calm _)
  bin_op-Limited op_eq a b = limited op_eq b _ (compare-Calm bytes_eq ar.eq a b)
  bin_op-Limited op_approx a b = limited op_approx b _ (compare-Calm bytes_eq (approx_equal ar) a b)
  bin_op-Limited op_ne a b =
      limited op_ne b _ (compare-Calm (λ s t. not (bytes_eq s t)) (λ x y. not (ar.eq x y)) a b)
  bin_op-Limited op_lt a b = limited op_lt b _ (compare-Calm bytes_lt ar.lt a b)
  bin_op-Limited op_gt a b =
      limited op_gt b _ (compare-Calm (λ s t. bytes_lt t s) (λ x y. ar.lt y x) a b)
  bin_op-Limited op_le a b = limited op_le b _ (compare-Calm (λ s t. not (bytes_lt t s)) ar.le a b)
  bin_op-Limited op_ge a b =
      limited op_ge b _ (compare-Calm (λ s t. not (bytes_lt s t)) (λ x y. ar.le y x) a b)

  -- An operator that panics is MOD, by a divisor that is not 0 and whose integer part is 0, and leaves
  -- the machine as it was.
  pub bin_op_panics :
      (op : BinOp) (a b : Value)
      → (bin_op ar op a b m).0 ≡ crashed
      → (op ≡ op_mod) × IsFraction ar b × ((bin_op ar op a b m).1 ≡ m)
  bin_op_panics op a b e =
      let (which, divisor) = (bin_op-Limited op a b).0 e in
      (which, divisor, (bin_op-Limited op a b).1)
