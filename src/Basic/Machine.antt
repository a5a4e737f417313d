-- ===== src/Basic/Machine.antt =====
-- The machine that runs BASIC-PLUS programs (interp.go, `Machine`), as far as expressions, variables
-- and control flow use it. A float is its bit pattern, and the arithmetic of the host's floats is the
-- parameter `Arithmetic`; so are the functions built into the language, `Builtins`.
pub mod Operators
pub mod Arrays
use rsts_e_v7_2_lookalike.Prelude.{
  ℕ, zero, suc, ◌+◌, ◌-◌, Bool, true, false, not, Option, none, some, List, [], ◌∷◌, ◌++◌, ltb,
  ◌==◌, if◌then◌else◌,
}
use rsts_e_v7_2_lookalike.Prelude.Int.{ℤ, pos, negsuc}
use rsts_e_v7_2_lookalike.Bytes.Reader.{Bytes}
use rsts_e_v7_2_lookalike.Bytes.Magic.{bytes_eq}
use rsts_e_v7_2_lookalike.Text.Ascii.{codes}
use rsts_e_v7_2_lookalike.Text.Decimal.{itoa}
use rsts_e_v7_2_lookalike.Basic.Image.{Value, text, num}
use rsts_e_v7_2_lookalike.Basic.Error.{
  BasicError, basic_err, basic_err_at, Outcome, done, raised, Program, give, stop, after, ◌>>=◌,
}

-- `float64` of the host, with its conversions to and from `int` and `int32`, and the printing of
-- `strconv.FormatFloat(v, 'g', 6, 64)`; and whether `make` gives a slice of a number of values (`makes`).
pub record Arithmetic : Type 0 where
  pub add : ℕ → ℕ → ℕ
  pub sub : ℕ → ℕ → ℕ
  pub mul : ℕ → ℕ → ℕ
  pub quo : ℕ → ℕ → ℕ
  pub pow : ℕ → ℕ → ℕ
  pub neg : ℕ → ℕ
  pub abs : ℕ → ℕ
  pub round : ℕ → ℕ
  pub lt : ℕ → ℕ → Bool
  pub le : ℕ → ℕ → Bool
  pub eq : ℕ → ℕ → Bool
  pub from_int : ℤ → ℕ
  pub to_int : ℕ → ℤ
  pub to_int32 : ℕ → ℤ
  pub remainder : ℤ → ℤ → ℤ
  pub tiny : ℕ
  pub format_general : ℕ → Bytes
  pub makes : ℕ → Bool

-- An array in memory; `dims` are the largest subscripts.
pub record ArrayInfo : Type 0 where
  pub dims : List ℕ
  pub items : List Value

pub record Machine : Type 0 where
  pub vars : Bytes → Option Value
  pub arrays : Bytes → Option ArrayInfo
  pub scale : ℕ
  pub has_line : Bool
  pub current_line : ℤ
  pub running : Bool
  pub stopped : Bool
  pub on_error_line : ℤ
  pub err_num : ℕ
  pub err_line : ℤ
  pub resume_line : ℤ
  pub in_handler : Bool

-- `m.err(msg)`
abbrev pub machine_err : Machine → Bytes → BasicError
machine_err m msg = if m.has_line then basic_err_at msg m.current_line else basic_err msg

abbrev pub complain : {A : Type 0} → Bytes → Program Machine A
complain msg m = (raised (machine_err m msg), m)

-- A map with one key set, or taken out.
abbrev pub set_key {ℓ} : {A : Type ℓ} → (Bytes → Option A) → Bytes → Option A → Bytes → Option A
set_key entries key entry other = if bytes_eq other key then entry else entries other

-- `m.numVal(v)`
abbrev pub num_val : Value → Program Machine ℕ
num_val (text s) = complain (codes "Type mismatch")
num_val (num n) = give n

-- `strings.HasSuffix(name, string(c))`
unfoldable pub ends_in : ℕ → Bytes → Bool
ends_in c [] = false
ends_in c (d ∷ []) = d == c
ends_in c (d ∷ e ∷ s) = ends_in c (e ∷ s)

abbrev is_empty : Bytes → Bool
is_empty [] = true
is_empty (c ∷ s) = false

abbrev value_or : Value → Option Value → Value
value_or v none = v
value_or v (some w) = w

unfoldable pub set_var : Machine → Bytes → Value → Machine
unfolding bytes_eq
set_var m name v = record m { vars = set_key m.vars name (some v) }

module _ (ar : Arithmetic) where
  -- `strconv.FormatInt(i, 10)`
  abbrev pub format_int : ℤ → Bytes
  format_int (pos n) = itoa n
  format_int (negsuc n) = b'-' ∷ itoa (suc n)

  unfoldable pub fmt_num : ℕ → Bytes
  fmt_num v =
      if ar.lt (ar.abs (ar.sub v (ar.round v))) ar.tiny
      then format_int (ar.to_int (ar.round v))
      else ar.format_general v

  unfoldable pub str_val : Value → Bytes
  unfolding fmt_num
  str_val (text s) = s
  str_val (num n) = fmt_num n

  abbrev pub number : ℤ → Value
  number z = num (ar.from_int z)

  unfoldable pub truth : Value → Bool
  truth (text s) = not (is_empty s)
  truth (num n) = not (ar.eq n (ar.from_int (pos 0)))

  -- `math.Round(n*p) / p` with `p` the power of ten, where the program has set a scale.
  unfoldable pub apply_scale : Machine → ℕ → ℕ
  apply_scale m n =
      let p = ar.pow (ar.from_int (pos 10)) (ar.from_int (pos m.scale)) in
      if m.scale == 0 then n else ar.quo (ar.round (ar.mul n p)) p

  abbrev pub num_scaled : Machine → ℕ → Value
  num_scaled m n = num (apply_scale m n)

  abbrev blank : Bytes → Value
  blank name = if ends_in b'$' name then text [] else number (pos 0)

  -- What an unset variable or element holds.
  unfoldable pub fill : Bytes → Value
  unfolding ends_in
  fill name = blank name

  unfoldable pub get_var : Machine → Bytes → Value
  unfolding fill
  get_var m name = value_or (fill name) (m.vars name)
