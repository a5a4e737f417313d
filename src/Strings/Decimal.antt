-- ===== src/Strings/Decimal.antt =====
-- Decimals (strarith.go): `decimal`, `parseDecimal`, `rescale`, `String`, `align`, `strSum`,
-- `strDif` and `strProd`. An error is `none`: all of them are the error `Illegal number`.
use rsts_e_v7_2_lookalike.Prelude.{
  ℕ, zero, suc, ◌+◌, ◌-◌, ◌*◌, ◌^◌, Bool, true, false, ◌&&◌, ◌||◌, not, Option, none, some, [], ◌∷◌,
  ◌++◌, ltb, ◌==◌, if◌then◌else◌, length, take, drop,
}
use rsts_e_v7_2_lookalike.Prelude.Int.{ℤ, pos, negsuc}
use rsts_e_v7_2_lookalike.Bytes.Reader.{Bytes}
use rsts_e_v7_2_lookalike.Text.Ascii.{is_digit, trim_space}
use rsts_e_v7_2_lookalike.Text.Decimal.{itoa}

pub record Decimal : Type 0 where
  pub mant : ℤ
  pub scale : ℕ

-- `m.Neg(m)`
abbrev pub negate : ℤ → ℤ
negate (pos zero) = pos zero
negate (pos (suc n)) = negsuc n
negate (negsuc n) = pos (suc n)

-- `m.Abs(m)`
abbrev pub magnitude : ℤ → ℕ
magnitude (pos n) = n
magnitude (negsuc n) = suc n

abbrev pub is_negative : ℤ → Bool
is_negative (pos n) = false
is_negative (negsuc n) = true

abbrev pub signed : Bool → ℕ → ℤ
signed neg n = if neg then negate (pos n) else pos n

-- `strings.Cut(t, ".")`
unfoldable pub cut_point : Bytes → Bytes × Bytes × Bool
cut_point [] = ([], [], false)
cut_point (c ∷ s) =
    let (before, after, has_point) = cut_point s in
    if c == b'.' then ([], s, true) else (c ∷ before, after, has_point)

unfoldable pub has_point_in : Bytes → Bool
has_point_in [] = false
has_point_in (c ∷ s) = c == b'.' || has_point_in s

unfoldable pub all_digits : Bytes → Bool
all_digits [] = true
all_digits (c ∷ s) = is_digit c && all_digits s

-- `SetString(digits, 10)` of digits, behind the digits with the value `acc`.
unfoldable pub digits_value : ℕ → Bytes → ℕ
digits_value acc [] = acc
digits_value acc (c ∷ s) = digits_value (10 * acc + (c - b'0')) s

abbrev pub is_nothing : Bytes → Bool
is_nothing [] = true
is_nothing (c ∷ s) = false

-- The digits in front of the point and behind it.
unfoldable pub from_parts : Bool → Bytes × Bytes × Bool → Option Decimal
unfolding has_point_in all_digits digits_value
from_parts neg (int_part, frac, has_point) =
    let digits = int_part ++ frac in
    if has_point && has_point_in frac
    then none
    else (if is_nothing digits
        then none
        else (if not (all_digits digits)
            then none
            else some (record { mant = signed neg (digits_value 0 digits); scale = length frac })))

-- The number without the blanks around it.
unfoldable pub from_text : Bytes → Option Decimal
unfolding cut_point from_parts
from_text [] = some (record { mant = pos 0; scale = 0 })
from_text (c ∷ s) =
    if c == b'+'
    then from_parts false (cut_point s)
    else (if c == b'-' then from_parts true (cut_point s) else from_parts false (cut_point (c ∷ s)))

unfoldable pub parse_decimal : Bytes → Option Decimal
unfolding from_text trim_space
parse_decimal s = from_text (trim_space s)

abbrev pub times : ℤ → ℕ → ℤ
times m n = signed (is_negative m) (magnitude m * n)

-- `d.rescale(scale)`
unfoldable pub rescale : Decimal → ℕ → ℤ
rescale d scale = if scale == d.scale then d.mant else times d.mant (10 ^ (scale - d.scale))

unfoldable pub zeros : ℕ → Bytes
zeros zero = []
zeros (suc n) = b'0' ∷ zeros n

abbrev pub with_point : Bytes → ℕ → Bytes
with_point digits cut = take cut digits ++ b'.' ∷ drop cut digits

-- The digits, filled up in front until there are more than `scale`.
abbrev pub filled : Bytes → ℕ → Bytes
filled digits scale = zeros (suc scale - length digits) ++ digits

abbrev pub pointed : Bytes → ℕ → Bytes
pointed digits scale = with_point digits (length digits - scale)

-- The digits alone where there are no places, `d.scale <= 0`, or else with the point.
abbrev pub unsigned_text : ℕ → ℕ → Bytes
unsigned_text n zero = itoa n
unsigned_text n (suc k) = pointed (filled (itoa n) (suc k)) (suc k)

-- `d.String()`
unfoldable pub string : Decimal → Bytes
unfolding zeros
string d =
    (if is_negative d.mant then b'-' ∷ [] else []) ++ unsigned_text (magnitude d.mant) d.scale

abbrev pub add_naturals : Bool → ℕ → Bool → ℕ → ℤ
add_naturals false m false n = pos (m + n)
add_naturals true m true n = signed true (m + n)
add_naturals false m true n = if ltb m n then signed true (n - m) else pos (m - n)
add_naturals true m false n = if ltb n m then signed true (m - n) else pos (n - m)

-- `new(big.Int).Add`
abbrev pub add : ℤ → ℤ → ℤ
add x y = add_naturals (is_negative x) (magnitude x) (is_negative y) (magnitude y)

-- `new(big.Int).Mul`
abbrev pub multiply : ℤ → ℤ → ℤ
multiply x y = if is_negative y then negate (times x (magnitude y)) else times x (magnitude y)

abbrev pub larger : ℕ → ℕ → ℕ
larger m n = if ltb m n then n else m

abbrev pub aligned : (ℤ → ℤ → ℤ) → Decimal → Decimal → ℕ → Decimal
aligned op x y scale = record { mant = op (rescale x scale) (rescale y scale); scale = scale }

-- Both numbers, or an error.
abbrev pub both : (Decimal → Decimal → Bytes) → Option Decimal → Option Decimal → Option Bytes
both f none y = none
both f (some x) none = none
both f (some x) (some y) = some (f x y)

unfoldable pub str_sum : Bytes → Bytes → Option Bytes
unfolding parse_decimal rescale string
str_sum a b =
    both (λ x y. string (aligned add x y (larger x.scale y.scale))) (parse_decimal a)
      (parse_decimal b)

unfoldable pub str_dif : Bytes → Bytes → Option Bytes
unfolding parse_decimal rescale string
str_dif a b =
    both (λ x y. string (aligned (λ m n. add m (negate n)) x y (larger x.scale y.scale)))
      (parse_decimal a) (parse_decimal b)

unfoldable pub str_prod : Bytes → Bytes → Option Bytes
unfolding parse_decimal string
str_prod a b =
    both (λ x y. string (record { mant = multiply x.mant y.mant; scale = x.scale + y.scale }))
      (parse_decimal a) (parse_decimal b)
