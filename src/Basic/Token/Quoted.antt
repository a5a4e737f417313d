-- ===== src/Basic/Token/Quoted.antt =====
-- String literals: a text between quotes, its own quotes doubled, is read back.
use rsts_e_v7_2_lookalike.Prelude.{
  ℕ, suc, ◌+◌, ◌≡◌, refl, ap, ◌∙◌, ◌⊎◌, true, false, some, [], ◌∷◌, ◌++◌, arith, ◌==◌,
  if◌then◌else◌, length, inl, inr, Bool-cases,
}
use rsts_e_v7_2_lookalike.Bytes.Reader.{Bytes}
use rsts_e_v7_2_lookalike.Basic.Token.{tok_string, tok_eof, Token, Floats, worded}
use rsts_e_v7_2_lookalike.Basic.Token.Cursor.{cursor}
use rsts_e_v7_2_lookalike.Basic.Token.Readers.{
  emit, with_char, string_from, string_round, read_string,
}
use rsts_e_v7_2_lookalike.Basic.Token.Tokenize.{lexed, round, run, tokenize}

-- A text with its quotes doubled, as a literal holds it.
abbrev pub quoted : ℕ → Bytes → Bytes
quoted quote [] = []
quoted quote (c ∷ s) = if c == quote then quote ∷ quote ∷ quoted quote s else c ∷ quoted quote s

-- A literal of the text.
abbrev pub literal : ℕ → Bytes → Bytes
literal quote s = quote ∷ quoted quote s ++ quote ∷ []

self_eq : (n : ℕ) → (n == n) ≡ true
self_eq n = ground arith

string_from_other :
    (quote i c : ℕ) (text : Bytes)
    → (c == quote) ≡ false
    → string_from quote i (c ∷ text) ≡ with_char c (string_from quote (i + 1) text)
unfolding string_from
string_from_other quote i c [] miss = rw miss refl
string_from_other quote i c (next ∷ rest) miss = rw miss refl

string_from_doubled :
    (quote i : ℕ) (text : Bytes)
    → string_from quote i (quote ∷ quote ∷ text) ≡ with_char quote (string_from quote (i + 2) text)
unfolding string_from
string_from_doubled quote i text = rw (self_eq quote) refl

string_from_closed : (quote i : ℕ) → string_from quote i (quote ∷ []) ≡ some ([], cursor (i + 1) [])
unfolding string_from
string_from_closed quote i = rw (self_eq quote) refl

string_from-quoted :
    (quote i j : ℕ) (s : Bytes)
    → i + length (quoted quote s ++ quote ∷ []) ≡ j
    → string_from quote i (quoted quote s ++ quote ∷ []) ≡ some (s, cursor j [])
string_from-quoted quote i j [] e =
    string_from_closed quote i ∙ (let last : i + 1 ≡ j = omega arith in rw last refl)
string_from-quoted quote i j (c ∷ s) e = elim (Bool-cases (c == quote)) [
  | inl hit ↦
      let same : quote ≡ c = ground arith in
      let text = quoted quote s ++ quote ∷ [] in
      let size : i + 2 + length text ≡ j = (let e2 = rw hit at e in omega (arith, e2)) in
      rw hit (
        string_from_doubled quote i text
        ∙ ap (with_char quote) (string_from-quoted quote (i + 2) j s size)
        ∙ rw same refl)
  | inr miss ↦
      let text = quoted quote s ++ quote ∷ [] in
      let size : i + 1 + length text ≡ j = (let e2 = rw miss at e in omega (arith, e2)) in
      rw miss (
        string_from_other quote i c text miss
        ∙ ap (with_char c) (string_from-quoted quote (i + 1) j s size))
]

read_string-literal :
    (quote : ℕ) (s : Bytes)
    → read_string quote 0 (quoted quote s ++ quote ∷ [])
      ≡ emit (worded tok_string s 0) (cursor (length (literal quote s)) [])
unfolding read_string
read_string-literal quote s =
    ap (string_round 0) (string_from-quoted quote 1 (length (literal quote s)) s (omega arith))

round-quote :
    (floats : Floats) (quote : ℕ) (rest : Bytes)
    → (quote ≡ 34) ⊎ (quote ≡ 39)
    → round floats 0 quote rest ≡ read_string quote 0 rest
unfolding round
round-quote floats quote rest (inl e) = rw e refl
round-quote floats quote rest (inr e) = rw e refl

-- A round that reaches the end of the text is the last.
run_last :
    (floats : Floats) (fuel i ch j : ℕ) (rest : Bytes) (t : Token)
    → round floats i ch rest ≡ emit t (cursor j [])
    → run floats (suc fuel) i (ch ∷ rest) ≡ lexed (t ∷ worded tok_eof [] j ∷ [])
unfolding run
run_last floats fuel i ch j rest t e = rw (e, run) refl

-- Any text can be written as a string literal, with either quote: when its own quotes are doubled,
-- the tokenizer reads the text back from the literal as one token, behind which the text ends.
pub tokenize-literal :
    (floats : Floats) (quote : ℕ) (s : Bytes)
    → (quote ≡ 34) ⊎ (quote ≡ 39)
    → tokenize floats (literal quote s)
      ≡ lexed (worded tok_string s 0 ∷ worded tok_eof [] (length (literal quote s)) ∷ [])
unfolding tokenize
tokenize-literal floats quote s h =
    run_last floats _ 0 quote (length (literal quote s)) _ _
      (round-quote floats quote (quoted quote s ++ quote ∷ []) h ∙ read_string-literal quote s)
