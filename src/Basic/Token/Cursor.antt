-- ===== src/Basic/Token/Cursor.antt =====
-- The place in the text that `tokenizer` keeps: the index `i`, and the text from there on.
use rsts_e_v7_2_lookalike.Prelude.{
  ℕ, ◌+◌, ◌-◌, ◌≤◌, ◌≡◌, refl, Bool, true, [], ◌∷◌, arith, if◌then◌else◌, length, take, Bool-cases,
  inl, inr,
}
use rsts_e_v7_2_lookalike.Bytes.Reader.{Bytes}

pub record Cursor : Type 0 where
  pub i : ℕ
  pub rest : Bytes

abbrev pub cursor : ℕ → Bytes → Cursor
cursor i rest = record { i = i; rest = rest }

-- `for t.i < n && p(t.text[t.i]) { t.i++ }`
unfoldable pub skip_while : (ℕ → Bool) → ℕ → Bytes → Cursor
skip_while p i [] = cursor i []
skip_while p i (ch ∷ rest) =
    let after = skip_while p (i + 1) rest in if p ch then after else cursor i (ch ∷ rest)

-- `if t.i < n && p(t.text[t.i]) { t.i++ }`
unfoldable pub skip_if : (ℕ → Bool) → ℕ → Bytes → Cursor
skip_if p i [] = cursor i []
skip_if p i (ch ∷ rest) = if p ch then cursor (i + 1) rest else cursor i (ch ∷ rest)

-- `t.text[start:t.i]`
abbrev pub slice : Cursor → Cursor → Bytes
slice from to = take (to.i - from.i) from.rest

-- The second cursor is the first, or further on in the same text.
pub record Later (c d : Cursor) : Type 0 where
  pub same : d.i + length d.rest ≡ c.i + length c.rest
  pub later : c.i ≤ d.i

pub Later-trans : (a b c : Cursor) → Later a b → Later b c → Later a c
Later-trans a b c h k = record {
  same = omega (arith, h.same, k.same);
  later = omega (arith, h.later, k.later);
}

pub Later-refl : (c : Cursor) → Later c c
Later-refl c = record { same = refl; later = omega arith }

pub skip_while-Later :
    (p : ℕ → Bool) (i : ℕ) (text : Bytes) → Later (cursor i text) (skip_while p i text)
unfolding skip_while
skip_while-Later p i [] = Later-refl (cursor i [])
skip_while-Later p i (ch ∷ rest) = elim (Bool-cases (p ch)) [
  | inl hit ↦
      let ih = skip_while-Later p (i + 1) rest in
      rw hit (record { same = omega (arith, ih.same); later = omega (arith, ih.later) })
  | inr miss ↦ rw miss (Later-refl (cursor i (ch ∷ rest)))
]

-- The first character goes if it is one of those to skip.
pub skip_while_first :
    (p : ℕ → Bool) (i ch : ℕ) (rest : Bytes)
    → p ch ≡ true
    → Later (cursor (i + 1) rest) (skip_while p i (ch ∷ rest))
unfolding skip_while
skip_while_first p i ch rest hit = rw hit (skip_while-Later p (i + 1) rest)

pub skip_if-Later : (p : ℕ → Bool) (i : ℕ) (text : Bytes) → Later (cursor i text) (skip_if p i text)
unfolding skip_if
skip_if-Later p i [] = Later-refl (cursor i [])
skip_if-Later p i (ch ∷ rest) = elim (Bool-cases (p ch)) [
  | inl hit ↦ rw hit (record { same = omega arith; later = omega arith })
  | inr miss ↦ rw miss (Later-refl (cursor i (ch ∷ rest)))
]
