-- ===== src/Strings/RoundTrip.antt =====
-- A decimal number that is printed reads back as the same number.
use rsts_e_v7_2_lookalike.Prelude.{
  ℕ, zero, suc, ◌-◌, ◌≤◌, ◌<◌, ◌≡◌, ◌≢◌, refl, ap, ap₂, sym, ◌∙◌, Bool, true, false, some, [], ◌∷◌,
  ◌++◌, arith, ◌==◌, if◌then◌else◌, length, take, drop, length-append, append-nil,
}
use mathlib.Core.Path.{subst}
use rsts_e_v7_2_lookalike.Prelude.Int.{ℤ, pos, negsuc}
use rsts_e_v7_2_lookalike.Bytes.Reader.{Bytes}
use rsts_e_v7_2_lookalike.Bytes.Lists.{All}
use rsts_e_v7_2_lookalike.Text.Decimal.{itoa, IsDigit}
use rsts_e_v7_2_lookalike.Strings.Decimal.{
  Decimal, magnitude, is_negative, signed, cut_point, digits_value, is_nothing, from_parts,
  from_text, parse_decimal, zeros, filled, pointed, unsigned_text, string,
}
use rsts_e_v7_2_lookalike.Strings.Print.{
  NoBlank, All-append, trim_space_plain, cut_point-digits, cut_point-pointed, digits_value-zeros,
  zeros-IsDigit, digits_value-itoa, itoa-IsDigit, itoa-nonempty, something, from_parts_digits,
  take-drop, take-All, drop-All, length-drop, length-zeros,
}

-- The characters of a number without its sign.
abbrev IsNumberChar : ℕ → Type 0
IsNumberChar c = (46 ≤ c) × (c ≤ 57)

longer : (s : Bytes) (n : ℕ) → n < length s → is_nothing s ≡ false
longer [] n h = absurd (omega arith)
longer (c ∷ s) n h = refl

parts-pointed :
    (neg : Bool) (ds : Bytes) (scale : ℕ)
    → All IsDigit ds
    → scale < length ds
    → from_parts neg (cut_point (pointed ds scale))
      ≡ some (record { mant = signed neg (digits_value 0 ds); scale = scale })
parts-pointed neg ds scale h short =
    let cut = length ds - scale in
    let whole = take-drop cut ds in
    let size : length (drop cut ds) ≡ scale = omega (arith, length-drop cut ds (omega arith)) in
    ap (from_parts neg) (cut_point-pointed (take cut ds) (drop cut ds) (take-All IsDigit cut ds h))
    ∙ from_parts_digits neg true (take cut ds) (drop cut ds) (subst (All IsDigit) (sym whole) h)
        (drop-All IsDigit cut ds h) (ap is_nothing whole ∙ longer ds scale short)
    ∙ ap₂ (λ s k. some (record { mant = signed neg (digits_value 0 s); scale = k })) whole size

parts-unsigned_text :
    (neg : Bool) (n scale : ℕ)
    → from_parts neg (cut_point (unsigned_text n scale))
      ≡ some (record { mant = signed neg n; scale = scale })
parts-unsigned_text neg n zero =
    ap (from_parts neg) (cut_point-digits (itoa n) (itoa-IsDigit n))
    ∙ from_parts_digits neg false (itoa n) []
        (subst (All IsDigit) (sym (append-nil (itoa n))) (itoa-IsDigit n)) tt
        (ap is_nothing (append-nil (itoa n)) ∙ something (itoa n) (itoa-nonempty n))
    ∙ ap (λ k. some (record { mant = signed neg k; scale = 0 }))
        (ap (digits_value 0) (append-nil (itoa n)) ∙ digits_value-itoa n)
parts-unsigned_text neg n (suc k) =
    let ds = filled (itoa n) (suc k) in
    let fill = suc (suc k) - length (itoa n) in
    parts-pointed neg ds (suc k)
      (All-append IsDigit (zeros fill) (itoa n) (zeros-IsDigit fill) (itoa-IsDigit n))
      (omega (arith, length-append (zeros fill) (itoa n), length-zeros fill))
    ∙ ap (λ m. some (record { mant = signed neg m; scale = suc k }))
        (digits_value-zeros fill (itoa n) ∙ digits_value-itoa n)

digits-NumberChar : (s : Bytes) → All IsDigit s → All IsNumberChar s
digits-NumberChar [] h = tt
digits-NumberChar (c ∷ s) h = ((omega arith, omega arith), digits-NumberChar s h.1)

NumberChar-NoBlank : (s : Bytes) → All IsNumberChar s → All NoBlank s
NumberChar-NoBlank [] h = tt
NumberChar-NoBlank (c ∷ s) h = (omega arith, NumberChar-NoBlank s h.1)

unsigned_text-NumberChar : (n scale : ℕ) → All IsNumberChar (unsigned_text n scale)
unsigned_text-NumberChar n zero = digits-NumberChar (itoa n) (itoa-IsDigit n)
unsigned_text-NumberChar n (suc k) =
    let fill = suc (suc k) - length (itoa n) in
    let ds = filled (itoa n) (suc k) in
    let cut = length ds - suc k in
    let plain =
      digits-NumberChar ds
        (All-append IsDigit (zeros fill) (itoa n) (zeros-IsDigit fill) (itoa-IsDigit n)) in
    All-append IsNumberChar (take cut ds) (b'.' ∷ drop cut ds) (take-All IsNumberChar cut ds plain)
      ((omega arith, omega arith), drop-All IsNumberChar cut ds plain)

-- Without a sign, the whole text is digits and a point.
from_text-plain :
    (s : Bytes) → All IsNumberChar s → s ≢ [] → from_text s ≡ from_parts false (cut_point s)
unfolding from_text
from_text-plain [] h e = absurd (e refl)
from_text-plain (c ∷ s) h e =
    let plus : (c == b'+') ≡ false = ground arith in
    let minus : (c == b'-') ≡ false = ground arith in rw (plus, minus) refl

unsigned_text-nonempty : (n scale : ℕ) → unsigned_text n scale ≢ []
unsigned_text-nonempty n zero = itoa-nonempty n
unsigned_text-nonempty n (suc k) = λ e.
    let ds = filled (itoa n) (suc k) in
    let cut = length ds - suc k in
    let size = length-append (take cut ds) (b'.' ∷ drop cut ds) in
    let none_left : length (take cut ds ++ b'.' ∷ drop cut ds) ≡ 0 = ap length e in
    omega (arith, size, none_left)

from_text-string : (d : Decimal) → from_text (string d) ≡ some d
unfolding string
from_text-string d = go d.mant d.scale
  where
    go :
        (m : ℤ) (scale : ℕ)
        → from_text ((if is_negative m then b'-' ∷ [] else []) ++ unsigned_text (magnitude m) scale)
          ≡ some (record { mant = m; scale = scale })
    go (pos n) scale =
        from_text-plain (unsigned_text n scale) (unsigned_text-NumberChar n scale)
          (unsigned_text-nonempty n scale)
        ∙ parts-unsigned_text false n scale
    go (negsuc n) scale = unfold from_text in parts-unsigned_text true (suc n) scale

string-NoBlank : (d : Decimal) → All NoBlank (string d)
unfolding string
string-NoBlank d = go d.mant
  where
    go :
        (m : ℤ)
        → All NoBlank
            ((if is_negative m then b'-' ∷ [] else []) ++ unsigned_text (magnitude m) d.scale)
    go (pos n) = NumberChar-NoBlank _ (unsigned_text-NumberChar n d.scale)
    go (negsuc n) = (omega arith, NumberChar-NoBlank _ (unsigned_text-NumberChar (suc n) d.scale))

-- A decimal number of any size, with any number of places, reads back from its text as it was, its
-- places included.
pub parse_decimal-string : (d : Decimal) → parse_decimal (string d) ≡ some d
unfolding parse_decimal
parse_decimal-string d =
    ap from_text (trim_space_plain (string d) (string-NoBlank d)) ∙ from_text-string d
