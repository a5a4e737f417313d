-- ===== src/Tests/Sums.antt =====
-- Numbers held as characters.
use rsts_e_v7_2_lookalike.Strings.Round.{IsNearest, minus, rounded, rounded_near, str_place}
use rsts_e_v7_2_lookalike.Prelude.{ℕ, ◌≡◌, ◌^◌, refl, some}
use rsts_e_v7_2_lookalike.Prelude.Int.{pos, negsuc}
use rsts_e_v7_2_lookalike.Text.Ascii.{codes}
use rsts_e_v7_2_lookalike.Text.Decimal.{itoa}
use rsts_e_v7_2_lookalike.Strings.Decimal.{
  Decimal, parse_decimal, string, str_sum, str_dif, str_prod,
}
use rsts_e_v7_2_lookalike.Strings.RoundTrip.{parse_decimal-string}

-- -0.05
abbrev small : Decimal
small = record { mant = negsuc 4; scale = 2 }

small-string : string small ≡ codes "-0.05"
unfolding string itoa
small-string = refl

parse_decimal-string_example : parse_decimal (string small) ≡ some small
parse_decimal-string_example = parse_decimal-string small

sum_of_texts : str_sum (codes "12.34") (codes " -.4") ≡ some (codes "11.94")
unfolding str_sum itoa
sum_of_texts = refl

difference_of_texts : str_dif (codes "1") (codes "2.5") ≡ some (codes "-1.5")
unfolding str_dif itoa
difference_of_texts = refl

product_of_texts : str_prod (codes "-1.5") (codes "2.0") ≡ some (codes "-3.00")
unfolding str_prod itoa
product_of_texts = refl

-- `PLACE$('-2.345', 2)`
place_of_half : str_place (codes "-2.345") (pos 2) ≡ some (codes "-2.35")
unfolding str_place itoa
place_of_half = refl

rounded_near_example :
    (q : ℕ) × (rounded (pos 2345) 1 ≡ pos q)
    × (rounded (minus 2345) 1 ≡ minus q)
    × IsNearest (10 ^ 1) 2345 q
rounded_near_example = rounded_near 2345 0
