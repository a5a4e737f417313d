-- ===== src/Basic/Machine/Operators.antt =====
-- The operators of BASIC-PLUS (interp.go: `binOp`, `int16Bits`, `fromInt16`, `approxEqual`, `nums`),
-- and their instructions (pcode_compile.go, `binOpCode`; pcode_vm.go, `binOpName`).
pub mod Panics
use rsts_e_v7_2_lookalike.Prelude.{
  ℕ, zero, suc, ◌+◌, ◌-◌, ◌*◌, ◌/◌, ◌%◌, ◌^◌, ◌≡◌, refl, Bool, true, false, ◌&&◌, ◌||◌, not, Option,
  none, some, List, [], ◌∷◌, ◌++◌, ltb, ◌==◌, if◌then◌else◌,
}
use rsts_e_v7_2_lookalike.Prelude.Int.{ℤ, pos, negsuc, to_u32, eq_ℤ}
use rsts_e_v7_2_lookalike.Bytes.Reader.{Bytes}
use rsts_e_v7_2_lookalike.Bytes.Magic.{bytes_eq}
use rsts_e_v7_2_lookalike.Text.Ascii.{codes, trim_space}
use rsts_e_v7_2_lookalike.Basic.Image.{Value, text, num}
use rsts_e_v7_2_lookalike.Basic.Error.{Outcome, done, raised, crashed, Program, give, after, ◌>>=◌}
use rsts_e_v7_2_lookalike.Basic.Machine.{
  Arithmetic, Machine, complain, num_val, number, num_scaled, apply_scale, fmt_num, str_val,
}

-- The operators, in the order of their names in the source.
pub data BinOp : Type 0 where
  op_add op_sub op_mul op_div op_idiv op_mod op_pow : BinOp
  op_eq op_ne op_lt op_le op_gt op_ge op_approx : BinOp
  op_and op_or op_xor op_eqv op_imp : BinOp

unfoldable pub bin_op_code : BinOp → ℕ
bin_op_code op_add = 9
bin_op_code op_sub = 10
bin_op_code op_mul = 11
bin_op_code op_div = 12
bin_op_code op_idiv = 13
bin_op_code op_mod = 14
bin_op_code op_pow = 15
bin_op_code op_eq = 16
bin_op_code op_ne = 17
bin_op_code op_lt = 18
bin_op_code op_le = 19
bin_op_code op_gt = 20
bin_op_code op_ge = 21
bin_op_code op_and = 22
bin_op_code op_or = 23
bin_op_code op_xor = 82
bin_op_code op_eqv = 83
bin_op_code op_imp = 84
bin_op_code op_approx = 85

unfoldable pub bin_op_name : ℕ → BinOp
bin_op_name code =
    if code == 10
    then op_sub
    else (if code == 11
        then op_mul
        else (if code == 12
            then op_div
            else (if code == 13
                then op_idiv
                else (if code == 14
                    then op_mod
                    else (if code == 15
                        then op_pow
                        else (if code == 16
                            then op_eq
                            else (if code == 17
                                then op_ne
                                else (if code == 18
                                    then op_lt
                                    else (if code == 19
                                        then op_le
                                        else (if code == 20
                                            then op_gt
                                            else (if code == 21
                                                then op_ge
                                                else (if code == 22
                                                    then op_and
                                                    else (if code == 23
                                                        then op_or
                                                        else (if code == 82
                                                            then op_xor
                                                            else (if code == 83
                                                            then op_eqv
                                                            else (if code == 84
                                                            then op_imp
                                                            else (if code == 85
                                                            then op_approx
                                                            else op_add)))))))))))))))))

pub bin_op_name-bin_op_code : (op : BinOp) → bin_op_name (bin_op_code op) ≡ op
unfolding bin_op_name bin_op_code
bin_op_name-bin_op_code op_add = refl
bin_op_name-bin_op_code op_sub = refl
bin_op_name-bin_op_code op_mul = refl
bin_op_name-bin_op_code op_div = refl
bin_op_name-bin_op_code op_idiv = refl
bin_op_name-bin_op_code op_mod = refl
bin_op_name-bin_op_code op_pow = refl
bin_op_name-bin_op_code op_eq = refl
bin_op_name-bin_op_code op_ne = refl
bin_op_name-bin_op_code op_lt = refl
bin_op_name-bin_op_code op_le = refl
bin_op_name-bin_op_code op_gt = refl
bin_op_name-bin_op_code op_ge = refl
bin_op_name-bin_op_code op_approx = refl
bin_op_name-bin_op_code op_and = refl
bin_op_name-bin_op_code op_or = refl
bin_op_name-bin_op_code op_xor = refl
bin_op_name-bin_op_code op_eqv = refl
bin_op_name-bin_op_code op_imp = refl

-- `ls < rs` of two strings.
unfoldable pub bytes_lt : Bytes → Bytes → Bool
bytes_lt s [] = false
bytes_lt [] (d ∷ t) = true
bytes_lt (c ∷ s) (d ∷ t) = ltb c d || (c == d && bytes_lt s t)

-- A truth table on bits, for the `k` low bits of two words.
unfoldable pub bits : (ℕ → ℕ → ℕ) → ℕ → ℕ → ℕ → ℕ
bits f zero a b = 0
bits f (suc k) a b = f (a % 2) (b % 2) + 2 * bits f k (a / 2) (b / 2)

abbrev both_bits : ℕ → ℕ → ℕ
both_bits a b = a * b

abbrev either_bit : ℕ → ℕ → ℕ
either_bit a b = if a == 1 then 1 else b

abbrev one_bit : ℕ → ℕ → ℕ
one_bit a b = if a == b then 0 else 1

-- `^v` of an `int16`, as its 16 bits.
unfoldable pub flip16 : ℕ → ℕ
flip16 v = 65535 - v

-- `float64(v)` of an `int16`.
abbrev signed16 : ℕ → ℤ
signed16 v = if ltb v 32768 then pos v else negsuc (65535 - v)

module _ (ar : Arithmetic) where
  -- `int16(int32(n))`, as its 16 bits.
  unfoldable pub int16_bits : ℕ → ℕ
  int16_bits n = to_u32 (ar.to_int32 n) % 65536

  unfoldable pub from_int16 : ℕ → ℕ
  from_int16 v = ar.from_int (signed16 v)

  unfoldable pub approx_equal : ℕ → ℕ → Bool
  approx_equal a b =
      if ar.eq a b then true else bytes_eq (trim_space (fmt_num ar a)) (trim_space (fmt_num ar b))

  -- `m.nums(left, right)`, and then what becomes of the two numbers.
  abbrev pub numbers : (ℕ → ℕ → Program Machine Value) → Value → Value → Program Machine Value
  numbers k left right = num_val left >>= λ a. num_val right >>= λ b. k a b

  abbrev pub is_zero : ℕ → Bool
  is_zero b = ar.eq b (ar.from_int (pos 0))

  -- `float64(a % b)` of two `int`s, which panics where `b` is 0.
  abbrev pub int_remainder : ℤ → ℤ → Outcome Value
  int_remainder a b = if eq_ℤ b (pos 0) then crashed else done (number ar (ar.remainder a b))

  abbrev pub scaled : (ℕ → ℕ → ℕ) → Value → Value → Program Machine Value
  scaled f = numbers λ a b m. (done (num_scaled ar m (f a b)), m)

  abbrev pub unless_zero : Bytes → (ℕ → ℕ → Machine → Value) → Value → Value → Program Machine Value
  unless_zero msg f = numbers λ a b m. if is_zero b then complain msg m else (done (f a b m), m)

  abbrev bitwise : (ℕ → ℕ → ℕ) → Value → Value → Program Machine Value
  bitwise f = numbers λ a b. give (num (from_int16 (f (int16_bits a) (int16_bits b))))

  -- True is -1.
  abbrev pub verdict : Bool → Value
  verdict ok = if ok then number ar (negsuc 0) else number ar (pos 0)

  -- A comparison of strings where one side is a string, and of numbers otherwise.
  unfoldable pub compare_values :
      (Bytes → Bytes → Bool) → (ℕ → ℕ → Bool) → Value → Value → Program Machine Value
  compare_values on_strings on_numbers (num a) (num b) = give (verdict (on_numbers a b))
  compare_values on_strings on_numbers left right =
      give (verdict (on_strings (str_val ar left) (str_val ar right)))

  unfoldable pub concat_or_add : Value → Value → Program Machine Value
  concat_or_add (num a) (num b) = λ m. (done (num_scaled ar m (ar.add a b)), m)
  concat_or_add left right = give (text (str_val ar left ++ str_val ar right))

  unfoldable pub bin_op : BinOp → Value → Value → Program Machine Value
  unfolding compare_values concat_or_add bytes_eq bytes_lt int16_bits from_int16 approx_equal
  bin_op op_add = concat_or_add
  bin_op op_sub = scaled ar.sub
  bin_op op_mul = scaled ar.mul
  bin_op op_div = unless_zero (codes "Floating point error") λ a b m. num_scaled ar m (ar.quo a b)
  bin_op op_idiv = unless_zero (codes "Division by 0") λ a b m. number ar (ar.to_int (ar.quo a b))
  bin_op op_mod = numbers λ a b m.
      if is_zero b
      then complain (codes "Division by 0") m
      else (int_remainder (ar.to_int a) (ar.to_int b), m)
  bin_op op_pow = numbers λ a b. give (num (ar.pow a b))
  bin_op op_and = bitwise (bits both_bits 16)
  bin_op op_or = bitwise (bits either_bit 16)
  bin_op op_xor = bitwise (bits one_bit 16)
  bin_op op_eqv = bitwise λ a b. flip16 (bits one_bit 16 a b)
  bin_op op_imp = bitwise λ a b. bits either_bit 16 (flip16 a) b
  bin_op op_eq = compare_values bytes_eq ar.eq
  bin_op op_approx = compare_values bytes_eq approx_equal
  bin_op op_ne = compare_values (λ s t. not (bytes_eq s t)) (λ a b. not (ar.eq a b))
  bin_op op_lt = compare_values bytes_lt ar.lt
  bin_op op_gt = compare_values (λ s t. bytes_lt t s) (λ a b. ar.lt b a)
  bin_op op_le = compare_values (λ s t. not (bytes_lt t s)) ar.le
  bin_op op_ge = compare_values (λ s t. not (bytes_lt s t)) (λ a b. ar.le b a)
