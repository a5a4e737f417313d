-- ===== src/Strings/Sum.antt =====
-- `strSum` gives one sum in either order, or one error.
use rsts_e_v7_2_lookalike.Prelude.{
  ℕ, ◌≡◌, refl, ap, ◌∙◌, Bool, true, false, Option, none, some, arith,
}
use rsts_e_v7_2_lookalike.Prelude.Int.{ℤ, pos}
use rsts_e_v7_2_lookalike.Bytes.Reader.{Bytes}
use rsts_e_v7_2_lookalike.Strings.Decimal.{
  Decimal, magnitude, is_negative, signed, rescale, parse_decimal, string, add_naturals, add,
  larger, aligned, both, str_sum,
}

larger_comm : (m n : ℕ) → larger m n ≡ larger n m
larger_comm m n = ground arith

add_naturals_comm :
    (a : Bool) (m : ℕ) (b : Bool) (n : ℕ) → add_naturals a m b n ≡ add_naturals b n a m
add_naturals_comm false m false n = ap pos (omega arith)
add_naturals_comm true m true n = ap (signed true) (omega arith)
add_naturals_comm false m true n = refl
add_naturals_comm true m false n = refl

add_comm : (x y : ℤ) → add x y ≡ add y x
add_comm x y = add_naturals_comm (is_negative x) (magnitude x) (is_negative y) (magnitude y)

abbrev number : ℕ → ℤ → Decimal
number scale m = record { mant = m; scale = scale }

aligned_comm :
    (x y : Decimal)
    → aligned add x y (larger x.scale y.scale) ≡ aligned add y x (larger y.scale x.scale)
aligned_comm x y =
    ap (aligned add x y) (larger_comm x.scale y.scale)
    ∙ ap (number (larger y.scale x.scale))
        (add_comm (rescale x (larger y.scale x.scale)) (rescale y (larger y.scale x.scale)))

-- The sum of two texts does not depend on their order, whatever the texts are, and neither does
-- whether there is one.
pub str_sum_comm : (a b : Bytes) → str_sum a b ≡ str_sum b a
unfolding str_sum
str_sum_comm a b = go (parse_decimal a) (parse_decimal b)
  where
    sum : Decimal → Decimal → Bytes
    sum x y = string (aligned add x y (larger x.scale y.scale))

    go : (o p : Option Decimal) → both sum o p ≡ both sum p o
    go none none = refl
    go none (some y) = refl
    go (some x) none = refl
    go (some x) (some y) = ap (λ d. some (string d)) (aligned_comm x y)
