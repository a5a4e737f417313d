-- ===== src/Strings/Print.antt =====
-- The texts of decimal numbers: their digits, their point, and the blanks that are not there.
use rsts_e_v7_2_lookalike.Prelude.{
  ℕ, zero, suc, ◌+◌, ◌-◌, ◌*◌, ◌≤◌, ◌<◌, ◌≡◌, ◌≢◌, refl, ap, sym, ◌∙◌, Bool, true, false, some, [],
  ◌∷◌, ◌++◌, arith, ◌==◌, length, take, drop,
}
use mathlib.Core.List.{reverse, reverse-cons, reverse-reverse}
use mathlib.Core.Path.{subst}
use rsts_e_v7_2_lookalike.Bytes.Reader.{Bytes}
use rsts_e_v7_2_lookalike.Bytes.Lists.{All}
use rsts_e_v7_2_lookalike.Text.Ascii.{trim_space, trim_left}
use rsts_e_v7_2_lookalike.Text.Decimal.{
  itoa, IsDigit, digits, digits-IsDigit, digits-nonempty, value_of, value_of-digits, reverse-itoa,
}
use rsts_e_v7_2_lookalike.Strings.Decimal.{
  signed, cut_point, has_point_in, all_digits, digits_value, is_nothing, from_parts, zeros,
}

-- A byte that is no blank.
abbrev pub NoBlank : ℕ → Type 0
NoBlank c = 32 < c

pub All-append : (P : ℕ → Type 0) (s t : Bytes) → All P s → All P t → All P (s ++ t)
All-append P [] t h k = k
All-append P (c ∷ s) t h k = (h.0, All-append P s t h.1 k)

All-reverse : (P : ℕ → Type 0) (s : Bytes) → All P s → All P (reverse s)
All-reverse P [] h = tt
All-reverse P (c ∷ s) h =
    subst (All P) (sym (reverse-cons c s))
      (All-append P (reverse s) (c ∷ []) (All-reverse P s h.1) (h.0, tt))

trim_left_plain : (s : Bytes) → All NoBlank s → trim_left s ≡ s
unfolding trim_left
trim_left_plain [] h = refl
trim_left_plain (c ∷ s) h = ground arith

pub trim_space_plain : (s : Bytes) → All NoBlank s → trim_space s ≡ s
unfolding trim_space
trim_space_plain s h =
    ap (λ t. reverse (trim_left (reverse t))) (trim_left_plain s h)
    ∙ ap reverse (trim_left_plain (reverse s) (All-reverse NoBlank s h))
    ∙ reverse-reverse s

-- The digits of a text, cut at its point.
pub cut_point-digits : (s : Bytes) → All IsDigit s → cut_point s ≡ (s, [], false)
unfolding cut_point
cut_point-digits [] h = refl
cut_point-digits (c ∷ s) h =
    let other : (c == b'.') ≡ false = ground arith in rw (other, cut_point-digits s h.1) refl

pub cut_point-pointed : (s t : Bytes) → All IsDigit s → cut_point (s ++ b'.' ∷ t) ≡ (s, t, true)
unfolding cut_point
cut_point-pointed [] t h = refl
cut_point-pointed (c ∷ s) t h =
    let other : (c == b'.') ≡ false = ground arith in rw (other, cut_point-pointed s t h.1) refl

has_point_in-digits : (s : Bytes) → All IsDigit s → has_point_in s ≡ false
unfolding has_point_in
has_point_in-digits [] h = refl
has_point_in-digits (c ∷ s) h = ground (arith, has_point_in-digits s h.1)

all_digits-IsDigit : (s : Bytes) → All IsDigit s → all_digits s ≡ true
unfolding all_digits
all_digits-IsDigit [] h = refl
all_digits-IsDigit (c ∷ s) h = ground (arith, all_digits-IsDigit s h.1)

digits_value-append :
    (acc d : ℕ) (s : Bytes) → digits_value acc (s ++ d ∷ []) ≡ 10 * digits_value acc s + (d - b'0')
unfolding digits_value
digits_value-append acc d [] = refl
digits_value-append acc d (c ∷ s) = digits_value-append (10 * acc + (c - b'0')) d s

pub digits_value-zeros : (k : ℕ) (s : Bytes) → digits_value 0 (zeros k ++ s) ≡ digits_value 0 s
unfolding digits_value zeros
digits_value-zeros zero s = refl
digits_value-zeros (suc k) s = digits_value-zeros k s

pub zeros-IsDigit : (k : ℕ) → All IsDigit (zeros k)
unfolding zeros
zeros-IsDigit zero = tt
zeros-IsDigit (suc k) = ((omega arith, omega arith), zeros-IsDigit k)

digits_value-reverse : (ds : Bytes) → digits_value 0 (reverse ds) ≡ value_of ds
unfolding value_of
digits_value-reverse [] = unfold digits_value in refl
digits_value-reverse (d ∷ ds) =
    ap (digits_value 0) (reverse-cons d ds)
    ∙ digits_value-append 0 d (reverse ds)
    ∙ (rw (digits_value-reverse ds) (omega arith))

itoa-reverse : (n : ℕ) → itoa n ≡ reverse (digits n)
itoa-reverse n = sym (reverse-reverse (itoa n)) ∙ ap reverse (reverse-itoa n)

pub digits_value-itoa : (n : ℕ) → digits_value 0 (itoa n) ≡ n
digits_value-itoa n =
    ap (digits_value 0) (itoa-reverse n) ∙ digits_value-reverse (digits n) ∙ value_of-digits n

pub itoa-IsDigit : (n : ℕ) → All IsDigit (itoa n)
itoa-IsDigit n =
    subst (All IsDigit) (sym (itoa-reverse n)) (All-reverse IsDigit (digits n) (digits-IsDigit n))

pub itoa-nonempty : (n : ℕ) → itoa n ≢ []
itoa-nonempty n e = digits-nonempty n (sym (reverse-itoa n) ∙ ap reverse e)

pub something : (s : Bytes) → s ≢ [] → is_nothing s ≡ false
something [] h = absurd (h refl)
something (c ∷ s) h = refl

pub from_parts_digits :
    (neg p : Bool) (a b : Bytes)
    → All IsDigit (a ++ b)
    → All IsDigit b
    → is_nothing (a ++ b) ≡ false
    → from_parts neg (a, b, p)
      ≡ some (record { mant = signed neg (digits_value 0 (a ++ b)); scale = length b })
unfolding from_parts
from_parts_digits neg true a b h k e =
    rw (has_point_in-digits b k, e, all_digits-IsDigit (a ++ b) h) refl
from_parts_digits neg false a b h k e = rw (e, all_digits-IsDigit (a ++ b) h) refl

pub take-drop : (n : ℕ) (s : Bytes) → take n s ++ drop n s ≡ s
take-drop zero s = refl
take-drop (suc n) [] = refl
take-drop (suc n) (c ∷ s) = ap (λ t. c ∷ t) (take-drop n s)

pub take-All : (P : ℕ → Type 0) (n : ℕ) (s : Bytes) → All P s → All P (take n s)
take-All P zero s h = tt
take-All P (suc n) [] h = tt
take-All P (suc n) (c ∷ s) h = (h.0, take-All P n s h.1)

pub drop-All : (P : ℕ → Type 0) (n : ℕ) (s : Bytes) → All P s → All P (drop n s)
drop-All P zero s h = h
drop-All P (suc n) [] h = tt
drop-All P (suc n) (c ∷ s) h = drop-All P n s h.1

pub length-drop : (n : ℕ) (s : Bytes) → n ≤ length s → length (drop n s) ≡ length s - n
length-drop zero s h = omega arith
length-drop (suc n) [] h = absurd (omega arith)
length-drop (suc n) (c ∷ s) h = omega (arith, length-drop n s (omega arith))

pub length-zeros : (k : ℕ) → length (zeros k) ≡ k
unfolding zeros
length-zeros zero = refl
length-zeros (suc k) = omega (arith, length-zeros k)
