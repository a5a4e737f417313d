-- ===== src/Text/Decimal.antt =====
-- `strconv.Itoa` and the `%d` of `fmt.Sprintf`, on numbers that are not negative.
use rsts_e_v7_2_lookalike.Prelude.{
  ℕ, zero, suc, ◌+◌, ◌-◌, ◌*◌, ◌/◌, ◌%◌, ◌≤◌, ◌<◌, ◌≡◌, ◌≢◌, refl, ap, ◌∙◌, sym, [], ◌∷◌, ◌++◌,
  arith, leb, if◌then◌else◌, Bool-cases, inl, inr,
}
use rsts_e_v7_2_lookalike.Bytes.Reader.{Bytes}
use rsts_e_v7_2_lookalike.Bytes.Lists.{All}
use mathlib.Core.List.{reverse, reverse-reverse}

-- The digits of `n`, the last one first. Each round divides by ten, so `n + 1` rounds are enough.
last_digits : ℕ → ℕ → Bytes
last_digits zero n = []
last_digits (suc fuel) n =
    let more = last_digits fuel (n / 10) in (b'0' + n % 10) ∷ (if leb n 9 then [] else more)

unfoldable pub itoa : ℕ → Bytes
unfolding last_digits
itoa n = reverse (last_digits (n + 1) n)

-- The value of digits, the last one first.
unfoldable pub value_of : Bytes → ℕ
value_of [] = 0
value_of (d ∷ ds) = (d - b'0') + 10 * value_of ds

value_of-last_digits : (fuel n : ℕ) → n < fuel → value_of (last_digits fuel n) ≡ n
unfolding value_of last_digits
value_of-last_digits zero n h = absurd (omega arith)
value_of-last_digits (suc fuel) n h = elim (Bool-cases (leb n 9)) [
  | inl small ↦ rw small (ground arith)
  | inr big ↦
      let rest : value_of (last_digits fuel (n / 10)) ≡ n / 10 =
        value_of-last_digits fuel (n / 10) (ground arith) in
      rw big (omega (arith, rest))
]

-- A byte that is a decimal digit.
abbrev pub IsDigit : ℕ → Type 0
IsDigit d = (b'0' ≤ d) × (d ≤ b'9')

last_digits-IsDigit : (fuel n : ℕ) → All IsDigit (last_digits fuel n)
unfolding last_digits
last_digits-IsDigit zero n = tt
last_digits-IsDigit (suc fuel) n = elim (Bool-cases (leb n 9)) [
  | inl small ↦ rw small (omega arith)
  | inr big ↦ rw big (omega arith, last_digits-IsDigit fuel (n / 10))
]

-- The digits of a number, the last one first.
unfoldable pub digits : ℕ → Bytes
unfolding last_digits
digits n = last_digits (n + 1) n

pub reverse-itoa : (n : ℕ) → reverse (itoa n) ≡ digits n
unfolding itoa digits
reverse-itoa n = reverse-reverse (last_digits (n + 1) n)

pub digits-IsDigit : (n : ℕ) → All IsDigit (digits n)
unfolding digits
digits-IsDigit n = last_digits-IsDigit (n + 1) n

pub value_of-digits : (n : ℕ) → value_of (digits n) ≡ n
unfolding digits
value_of-digits n = value_of-last_digits (n + 1) n (omega arith)

some_digit : (fuel n : ℕ) → 0 < fuel → last_digits fuel n ≢ []
unfolding last_digits
some_digit zero n h = absurd (omega arith)
some_digit (suc fuel) n h = λ e. cc e

pub digits-nonempty : (n : ℕ) → digits n ≢ []
unfolding digits
digits-nonempty n = some_digit (n + 1) n (omega arith)

pub digits-injective : (m n : ℕ) → digits m ≡ digits n → m ≡ n
unfolding digits
digits-injective m n e =
    sym (value_of-last_digits (m + 1) m (omega arith))
    ∙ ap value_of e
    ∙ value_of-last_digits (n + 1) n (omega arith)

-- No two numbers print alike.
pub itoa-injective : (m n : ℕ) → itoa m ≡ itoa n → m ≡ n
itoa-injective m n e = digits-injective m n (sym (reverse-itoa m) ∙ ap reverse e ∙ reverse-itoa n)

-- Two texts that end at the first byte that is no digit, and agree, agree on both sides of it.
pub split_at_mark :
    (mark : ℕ) (xs ys us vs : Bytes)
    → ¬ (IsDigit mark)
    → All IsDigit xs
    → All IsDigit us
    → xs ++ mark ∷ ys ≡ us ++ mark ∷ vs
    → (xs ≡ us) × (ys ≡ vs)
split_at_mark mark [] ys [] vs no_digit hx hu e = (refl, cc e)
split_at_mark mark [] ys (u ∷ us) vs no_digit hx hu e =
    let first : mark ≡ u = cc e in absurd (no_digit (rw first hu.0))
split_at_mark mark (x ∷ xs) ys [] vs no_digit hx hu e =
    let first : x ≡ mark = cc e in absurd (no_digit (rw first at hx.0))
split_at_mark mark (x ∷ xs) ys (u ∷ us) vs no_digit hx hu e =
    let rest : xs ++ mark ∷ ys ≡ us ++ mark ∷ vs = cc e in
    let first : x ≡ u = cc e in
    let (same, behind) = split_at_mark mark xs ys us vs no_digit hx.1 hu.1 rest in
    (cc (first, same), behind)
