-- ===== src/Basic/Error.antt =====
-- The errors of BASIC-PLUS (token.go: `BasicError`, `attachLine`), and programs that change a state
-- and may stop with one. Where the source mutates a machine and returns an error, the model returns
-- the outcome and the machine as it then is.
use rsts_e_v7_2_lookalike.Prelude.{ℕ, zero, ◌≡◌, refl}
use rsts_e_v7_2_lookalike.Prelude.Int.{ℤ, pos}
use rsts_e_v7_2_lookalike.Bytes.Reader.{Bytes}

-- `Line` is 0 when the error is not tied to a line, and `Code` when it has no number.
pub record BasicError : Type 0 where
  pub msg : Bytes
  pub line : ℤ
  pub code : ℕ

abbrev pub basic_err : Bytes → BasicError
basic_err msg = record { msg = msg; line = pos 0; code = 0 }

abbrev pub basic_err_at : Bytes → ℤ → BasicError
basic_err_at msg line = record { msg = msg; line = line; code = 0 }

abbrev at_line : BasicError → ℤ → ℤ → BasicError
at_line e (pos zero) line = record e { line = line }
at_line e own line = e

-- An error that has no line of its own gets the line of the program.
unfoldable pub attach_line : BasicError → ℤ → BasicError
attach_line e line = at_line e e.line line

-- `crashed` is a panic of the host's runtime, which nothing in the source recovers from.
pub data Outcome {ℓ} (A : Type ℓ) : Type ℓ where
  done : A → Outcome A
  raised : BasicError → Outcome A
  crashed : Outcome A

-- A program over the state `S`.
abbrev pub Program {ℓ} : Type ℓ → Type ℓ → Type ℓ
Program S A = S → Outcome A × S

module _ {S : Type 0} {A : Type 0} where
  abbrev pub give : A → Program S A
  give a s = (done a, s)

  abbrev pub stop : BasicError → Program S A
  stop e s = (raised e, s)

module _ {S : Type 0} {A : Type 0} {B : Type 0} where
  abbrev pub after : Outcome A × S → (A → Program S B) → Outcome B × S
  after (done a, s) k = k a s
  after (raised e, s) k = (raised e, s)
  after (crashed, s) k = (crashed, s)

  infixl 1 ◌>>=◌
  abbrev pub ◌>>=◌ : Program S A → (A → Program S B) → Program S B
  (p >>= k) s = after (p s) k

infixl 1 ◌>>◌
abbrev pub ◌>>◌ : {S A B : Type 0} → Program S A → Program S B → Program S B
p >> q = p >>= λ a. q

module _ {S : Type 0} {A : Type 0} {B : Type 0} {C : Type 0} where
  pub after_assoc :
      (r : Outcome A × S) (f : A → Program S B) (g : B → Program S C)
      → after (after r f) g ≡ after r (λ a s. after (f a s) g)
  after_assoc (done a, s) f g = refl
  after_assoc (raised e, s) f g = refl
  after_assoc (crashed, s) f g = refl
