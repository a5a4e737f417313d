-- ===== src/Strings/Round.antt =====
-- Rounding and packed characters (strarith.go: `strPlace`, `trimDecimal`, `rad50String`).
use rsts_e_v7_2_lookalike.Prelude.{
  ℕ, zero, suc, ◌+◌, ◌-◌, ◌*◌, ◌/◌, ◌%◌, ◌^◌, ◌<◌, ◌≤◌, ◌≡◌, refl, ap, sym, ◌∙◌, Bool, true, false,
  Option, none, some, [], ◌∷◌, arith, leb, ◌==◌, if◌then◌else◌, get_elem?,
}
use mathlib.Core.Path.{subst}
use native.Mathlib.Nat.{div-eq_of_lt, div-add-mod, mod-lt, pow-suc, mul_assoc}
use rsts_e_v7_2_lookalike.Prelude.Int.{ℤ, pos, negsuc, to_u32}
use rsts_e_v7_2_lookalike.Bytes.Reader.{Bytes}
use rsts_e_v7_2_lookalike.Text.Ascii.{codes}
use rsts_e_v7_2_lookalike.Strings.Decimal.{
  Decimal, parse_decimal, string, magnitude, is_negative, signed, times,
}

-- Half away from zero, to whole multiples of the power of ten.
unfoldable pub rounded : ℤ → ℕ → ℤ
rounded m drop = signed (is_negative m) ((magnitude m + 10 ^ drop / 2) / 10 ^ drop)

unfoldable pub round_at : Decimal → ℤ → Decimal
unfolding rounded
round_at d (pos n) =
    if leb d.scale n then d else record { mant = rounded d.mant (d.scale - n); scale = n }
round_at d (negsuc n) = record {
  mant = times (rounded d.mant (d.scale + suc n)) (10 ^ suc n);
  scale = 0;
}

abbrev string_of : Option Decimal → (Decimal → Decimal) → Option Bytes
string_of none f = none
string_of (some d) f = some (string (f d))

unfoldable pub str_place : Bytes → ℤ → Option Bytes
unfolding parse_decimal string round_at
str_place a at = string_of (parse_decimal a) λ d. round_at d at

-- The digits without the zeros at the end of the fraction, of which there are `scale` digits.
unfoldable pub trim_zeros : ℕ → ℕ → ℕ × ℕ
trim_zeros m zero = (m, zero)
trim_zeros m (suc scale) =
    let rest = trim_zeros (m / 10) scale in if m % 10 == 0 then rest else (m, suc scale)

unfoldable pub trim_decimal : Decimal → Decimal
unfolding trim_zeros
trim_decimal d =
    let (m, scale) = trim_zeros (magnitude d.mant) d.scale in
    record { mant = signed (is_negative d.mant) m; scale = scale }

abbrev pub rad50_chars : Bytes
rad50_chars = codes " ABCDEFGHIJKLMNOPQRSTUVWXYZ$.?0123456789"

abbrev char_or_blank : Option ℕ → ℕ
char_or_blank none = 32
char_or_blank (some c) = c

abbrev pub rad50_char : ℕ → ℕ
rad50_char i = char_or_blank (get_elem? rad50_chars i)

abbrev rad50_of : ℕ → Bytes
rad50_of n = rad50_char (n / 40 / 40 % 40) ∷ rad50_char (n / 40 % 40) ∷ rad50_char (n % 40) ∷ []

-- Of the word that `int(math.Round(word))` is. Adding 2 ^ 16 to a negative one leaves its 16 low bits.
unfoldable pub rad50_string : ℤ → Bytes
unfolding to_u32
rad50_string word = rad50_of (to_u32 word % 65536)

-- The digits that are left of `m`, with the zeros put back.
abbrev IsTrimmed : ℕ → ℕ → ℕ × ℕ → Type 0
IsTrimmed m scale (n, left) = (left ≤ scale) × (m ≡ n * 10 ^ (scale - left))

trim_step :
    (m scale : ℕ) (b : Bool)
    → (m % 10 == 0) ≡ b
    → (r : ℕ × ℕ) → IsTrimmed (m / 10) scale r
    → IsTrimmed m (suc scale) (if b then r else (m, suc scale))
trim_step m scale true e (n, left) (le, value) =
    let more : suc scale - left ≡ suc (scale - left) = omega (arith, le) in
    let power : 10 ^ (suc scale - left) ≡ 10 ^ (scale - left) * 10 =
      ap (λ i. 10 ^ i) more ∙ pow-suc 10 (scale - left) in
    let whole : m ≡ m / 10 * 10 = ground arith in
    (
      omega (arith, le),
      whole
          ∙ ap (λ x. x * 10) value
          ∙ mul_assoc n (10 ^ (scale - left)) 10
          ∙ ap (λ x. n * x) (sym power),
    )
trim_step m scale false e r h =
    let none_left : suc scale - suc scale ≡ 0 = omega arith in
    (omega arith, sym (ap (λ i. m * 10 ^ i) none_left ∙ omega arith))

pub trim_zeros_value : (m scale : ℕ) → IsTrimmed m scale (trim_zeros m scale)
unfolding trim_zeros
trim_zeros_value m zero = trim_end m
  where
    trim_end : (m : ℕ) → IsTrimmed m zero (m, zero)
    trim_end m = (omega arith, omega arith)
trim_zeros_value m (suc scale) =
    trim_step m scale (m % 10 == 0) refl (trim_zeros (m / 10) scale)
      (trim_zeros_value (m / 10) scale)

pow_positive : (k : ℕ) → 0 < 10 ^ k
pow_positive zero = omega arith
pow_positive (suc k) =
    let rest = pow_positive k in let power = pow-suc 10 k in omega (arith, rest, power)

-- The number with the other sign.
abbrev pub minus : ℕ → ℤ
minus zero = pos 0
minus (suc n) = negsuc n

signed-minus : (q : ℕ) → signed true q ≡ minus q
signed-minus zero = refl
signed-minus (suc q) = refl

-- What rounding to the nearest whole multiple of `unit` is.
abbrev pub IsNearest : ℕ → ℕ → ℕ → Type 0
IsNearest unit n q = (2 * (q * unit) ≤ 2 * n + unit) × (2 * n < 2 * (q * unit) + unit)

nearest : (n k : ℕ) → IsNearest (10 ^ suc k) n ((n + 10 ^ suc k / 2) / 10 ^ suc k)
nearest n k =
    let unit = 10 ^ suc k in
    let power : 10 ^ suc k ≡ 10 ^ k * 10 = pow-suc 10 k in
    let some_unit : 0 < 10 ^ k = pow_positive k in
    let parts = div-add-mod (n + unit / 2) unit in
    let below : (n + unit / 2) % unit < unit =
      mod-lt (n + unit / 2) (omega (arith, power, some_unit)) in
    let half : 2 * (unit / 2) ≡ unit = omega (arith, power) in
    (omega (arith, parts, below, half), omega (arith, parts, below, half))

half_below : (k : ℕ) → (0 + 10 ^ suc k / 2) / 10 ^ suc k ≡ 0
half_below k =
    let power : 10 ^ suc k ≡ 10 ^ k * 10 = pow-suc 10 k in
    let some_unit = pow_positive k in div-eq_of_lt (omega (arith, power, some_unit))

-- Rounding to a place that a number has digits behind gives the nearest multiple of that place, off
-- by half a unit of it at most, and a half goes away from zero; a negative number is rounded as the
-- positive one is, and stays negative, or is 0.
pub rounded_near :
    (n k : ℕ)
    → (q : ℕ) × (rounded (pos n) (suc k) ≡ pos q)
      × (rounded (minus n) (suc k) ≡ minus q)
      × IsNearest (10 ^ suc k) n q
unfolding rounded
rounded_near zero k = (
  0,
  ap pos (half_below k),
  ap pos (half_below k),
  subst (IsNearest (10 ^ suc k) 0) (half_below k) (nearest 0 k),
)
rounded_near (suc n) k =
    (_, refl, signed-minus ((suc n + 10 ^ suc k / 2) / 10 ^ suc k), nearest (suc n) k)

pub rad50_string_packed :
    (a b c : ℕ)
    → a < 40
    → b < 40
    → c < 40
    → rad50_string (pos ((a * 40 + b) * 40 + c)) ≡ rad50_char a ∷ rad50_char b ∷ rad50_char c ∷ []
unfolding rad50_string to_u32
rad50_string_packed a b c ha hb hc =
    let n = ((a * 40 + b) * 40 + c) % 2 ^ 32 % 65536 in
    let first : n / 40 / 40 % 40 ≡ a = omega (arith, ha, hb, hc) in
    let second : n / 40 % 40 ≡ b = omega (arith, ha, hb, hc) in
    let third : n % 40 ≡ c = omega (arith, ha, hb, hc) in
    ap (λ i. rad50_char i ∷ rad50_char (n / 40 % 40) ∷ rad50_char (n % 40) ∷ []) first
    ∙ ap (λ i. rad50_char a ∷ rad50_char i ∷ rad50_char (n % 40) ∷ []) second
    ∙ ap (λ i. rad50_char a ∷ rad50_char b ∷ rad50_char i ∷ []) third
