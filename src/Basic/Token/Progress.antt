-- ===== src/Basic/Token/Progress.antt =====
-- What a round of the tokenizer consumes: each reader moves on in the text, past at least a character.
use rsts_e_v7_2_lookalike.Prelude.{
  ℕ, ◌+◌, ◌<◌, ◌≡◌, refl, Bool, true, false, Option, none, some, [], ◌∷◌, arith, ◌==◌,
  if◌then◌else◌, Bool-cases, inl, inr,
}
use rsts_e_v7_2_lookalike.Bytes.Reader.{Bytes}
use rsts_e_v7_2_lookalike.Text.Ascii.{is_digit}
use rsts_e_v7_2_lookalike.Basic.Token.{
  TokKind, tok_eof, tok_op, tok_ident, tok_keyword, tok_number, illegal_number, Floats, worded,
  is_number_char, is_keyword, is_ws,
}
use rsts_e_v7_2_lookalike.Basic.Token.Cursor.{
  Cursor, cursor, skip_while, skip_if, Later, Later-trans, Later-refl, skip_while-Later,
  skip_while_first, skip_if-Later,
}
use rsts_e_v7_2_lookalike.Basic.Token.Readers.{
  Round, skip, emit, fail, with_char, string_from, string_round, read_string, skip_exponent,
  finish_number, number_token, read_number, continuation, is_exponent_mark, is_sign, is_return,
  is_feed,
}
use rsts_e_v7_2_lookalike.Basic.Token.Tokenize.{is_op_char, single, is_pair, is_power, operator}

-- A token of the text's own: not the one that stands for its end. A keyword is in the table of
-- keywords, and an identifier is not.
abbrev pub KindFits : TokKind → Bytes → Type 0
KindFits tok_eof text = ⊥
KindFits tok_keyword text = is_keyword text ≡ true
KindFits tok_ident text = is_keyword text ≡ false
KindFits _ text = Unit

-- A round at a place moves on in the text, past at least one character; its token starts there.
abbrev pub Advances : Cursor → Round → Type 0
Advances start (skip c) = Later start c × (start.i < c.i)
Advances start (emit t c) =
    Later start c × (start.i < c.i) × (t.pos ≡ start.i) × KindFits t.kind t.text
Advances start (fail e) = Unit

pub choose :
    (start : Cursor) (b : Bool) (x y : Round)
    → (b ≡ true → Advances start x)
    → (b ≡ false → Advances start y)
    → Advances start (if b then x else y)
choose start true x y h k = h refl
choose start false x y h k = k refl

-- A place behind the first character.
pub past :
    (i ch : ℕ) (rest : Bytes) (end : Cursor)
    → Later (cursor (i + 1) rest) end
    → Later (cursor i (ch ∷ rest)) end × (i < end.i)
past i ch rest end h = (
  record { same = omega (arith, h.same); later = omega (arith, h.later) },
  omega (arith, h.later),
)

-- One character.
pub one_past :
    (i ch : ℕ) (rest : Bytes) → Later (cursor i (ch ∷ rest)) (cursor (i + 1) rest) × (i < i + 1)
one_past i ch rest = past i ch rest (cursor (i + 1) rest) (Later-refl (cursor (i + 1) rest))

pub two_past :
    (i ch next : ℕ) (rest : Bytes)
    → Later (cursor i (ch ∷ next ∷ rest)) (cursor (i + 2) rest) × (i < i + 2)
two_past i ch next rest = (record { same = omega arith; later = omega arith }, omega arith)

single-Advances : (i ch : ℕ) (rest : Bytes) → Advances (cursor i (ch ∷ rest)) (single i ch rest)
unfolding single
single-Advances i ch rest =
    choose _ (is_op_char ch) _ _ (λ h. token)
      λ h.
        choose _ (ch == 92) _ _ (λ h. token)
          λ h.
            choose _ (ch == b'(') _ _ (λ h. token)
              λ h.
                choose _ (ch == b')') _ _ (λ h. token)
                  λ h.
                    choose _ (ch == b',') _ _ (λ h. token)
                      λ h.
                        choose _ (ch == b';') _ _ (λ h. token)
                          λ h.
                            choose _ (ch == b'#') _ _ (λ h. token)
                              λ h. choose _ (ch == b':') _ _ (λ h. token) λ h. tt
  where
    token : Advances (cursor i (ch ∷ rest)) (emit (worded tok_op [] i) (cursor (i + 1) rest))
    token = ((one_past i ch rest).0, (one_past i ch rest).1, refl, tt)

pub operator-Advances :
    (i ch : ℕ) (rest : Bytes) → Advances (cursor i (ch ∷ rest)) (operator i ch rest)
unfolding operator
operator-Advances i ch [] = single-Advances i ch []
operator-Advances i ch (next ∷ rest) =
    choose _ (is_power ch next) _ _ (λ h. pair)
      λ h. choose _ (is_pair ch next) _ _ (λ h. pair) λ h. single-Advances i ch (next ∷ rest)
  where
    pair : Advances (cursor i (ch ∷ next ∷ rest)) (emit (worded tok_op [] i) (cursor (i + 2) rest))
    pair = ((two_past i ch next rest).0, (two_past i ch next rest).1, refl, tt)

-- Where a string ends, if it does.
abbrev EndsAfter : Cursor → Option (Bytes × Cursor) → Type 0
EndsAfter start none = Unit
EndsAfter start (some (s, end)) = Later start end

with_char-EndsAfter :
    (start : Cursor) (ch : ℕ) (o : Option (Bytes × Cursor))
    → EndsAfter start o
    → EndsAfter start (with_char ch o)
with_char-EndsAfter start ch none h = h
with_char-EndsAfter start ch (some (s, end)) h = h

EndsAfter-trans :
    (a b : Cursor) (o : Option (Bytes × Cursor)) → Later a b → EndsAfter b o → EndsAfter a o
EndsAfter-trans a b none h k = k
EndsAfter-trans a b (some (s, end)) h k = Later-trans a b end h k

string_from-EndsAfter :
    (quote i : ℕ) (text : Bytes) → EndsAfter (cursor i text) (string_from quote i text)
unfolding string_from
string_from-EndsAfter quote i [] = tt
string_from-EndsAfter quote i (ch ∷ []) = elim (Bool-cases (ch == quote)) [
  | inl hit ↦ rw hit (one_past i ch []).0
  | inr miss ↦ rw miss tt
]
string_from-EndsAfter quote i (ch ∷ next ∷ rest) = elim (Bool-cases (ch == quote)) [
  | inl hit ↦ elim (Bool-cases (next == quote)) [
    | inl twice ↦
        rw (hit, twice)
          (with_char-EndsAfter _ quote (string_from quote (i + 2) rest) (
            EndsAfter-trans _ (cursor (i + 2) rest) _ (two_past i ch next rest).0
              (string_from-EndsAfter quote (i + 2) rest)))
    | inr once ↦ rw (hit, once) (one_past i ch (next ∷ rest)).0
  ]
  | inr miss ↦ rw miss (
      with_char-EndsAfter _ ch (string_from quote (i + 1) (next ∷ rest)) (
        EndsAfter-trans _ (cursor (i + 1) (next ∷ rest)) _ (one_past i ch (next ∷ rest)).0
          (string_from-EndsAfter quote (i + 1) (next ∷ rest))))
]

pub read_string-Advances :
    (quote i : ℕ) (rest : Bytes) → Advances (cursor i (quote ∷ rest)) (read_string quote i rest)
unfolding read_string
read_string-Advances quote i rest =
    go (string_from quote (i + 1) rest) (string_from-EndsAfter quote (i + 1) rest)
  where
    go :
        (o : Option (Bytes × Cursor))
        → EndsAfter (cursor (i + 1) rest) o
        → Advances (cursor i (quote ∷ rest)) (string_round i o)
    go none h = tt
    go (some (s, end)) h = ((past i quote rest end h).0, (past i quote rest end h).1, refl, tt)

skip_exponent-Later : (i : ℕ) (text : Bytes) → Later (cursor i text) (skip_exponent i text)
unfolding skip_exponent
skip_exponent-Later i [] = Later-refl (cursor i [])
skip_exponent-Later i (ch ∷ rest) = elim (Bool-cases (is_exponent_mark ch)) [
  | inl hit ↦
      let signed = skip_if is_sign (i + 1) rest in
      rw hit (
        Later-trans _ (cursor (i + 1) rest) _ (one_past i ch rest).0 (
          Later-trans _ signed _ (skip_if-Later is_sign (i + 1) rest)
            (skip_while-Later is_digit signed.i signed.rest)))
  | inr miss ↦ rw miss (Later-refl (cursor i (ch ∷ rest)))
]

number_token-Advances :
    (floats : Floats) (i ch : ℕ) (rest raw : Bytes) (integer : Bool) (end : Cursor)
    → Later (cursor (i + 1) rest) end
    → Advances (cursor i (ch ∷ rest)) (number_token floats i raw integer end)
number_token-Advances floats i ch rest raw integer end h = go (floats.parse_float raw)
  where
    go :
        (o : Option ℕ)
        → Advances (cursor i (ch ∷ rest)) (elim o [
          | none ↦ fail illegal_number
          | some v ↦
              emit
                (record {
                  kind = tok_number;
                  num = if integer then floats.to_integer v else v;
                  text = [];
                  pos = i;
                })
                end
        ])
    go none = tt
    go (some v) = ((past i ch rest end h).0, (past i ch rest end h).1, refl, tt)

finish_number-Advances :
    (floats : Floats) (i ch : ℕ) (rest raw : Bytes) (j : ℕ) (text : Bytes)
    → Later (cursor (i + 1) rest) (cursor j text)
    → Advances (cursor i (ch ∷ rest)) (finish_number floats i raw j text)
unfolding finish_number
finish_number-Advances floats i ch rest raw j [] h =
    number_token-Advances floats i ch rest raw false _ h
finish_number-Advances floats i ch rest raw j (c ∷ text) h =
    choose _ (c == b'%') _ _
      (λ hit.
        number_token-Advances floats i ch rest raw true _
          (Later-trans _ _ _ h (one_past j c text).0))
      (λ miss. number_token-Advances floats i ch rest raw false _ h)

pub read_number-Advances :
    (floats : Floats) (i ch : ℕ) (rest : Bytes)
    → is_number_char ch ≡ true
    → Advances (cursor i (ch ∷ rest)) (read_number floats i (ch ∷ rest))
unfolding read_number
read_number-Advances floats i ch rest first =
    let whole = skip_while is_number_char i (ch ∷ rest) in
    finish_number-Advances floats i ch rest _ _ _ (
      Later-trans _ whole _ (skip_while_first is_number_char i ch rest first)
        (skip_exponent-Later whole.i whole.rest))

pub continuation-Later : (i : ℕ) (text : Bytes) → Later (cursor i text) (continuation i text)
unfolding continuation
continuation-Later i text =
    let blank = skip_while is_ws i text in
    let returned = skip_if is_return blank.i blank.rest in
    Later-trans _ blank _ (skip_while-Later is_ws i text) (
      Later-trans _ returned _ (skip_if-Later is_return blank.i blank.rest)
        (skip_if-Later is_feed returned.i returned.rest))
