-- ===== src/Basic/Token/Stream.antt =====
-- Every text of a program becomes tokens or an error, and the tokens lie in order in the text.
use rsts_e_v7_2_lookalike.Prelude.{
  ℕ, zero, suc, ◌+◌, ◌≤◌, ◌<◌, ◌≡◌, ◌≢◌, refl, ap, true, ◌&&◌, ◌||◌, List, [], ◌∷◌, arith, ◌==◌,
  length, take, drop,
}
use mathlib.Core.Path.{subst}
use rsts_e_v7_2_lookalike.Bytes.Reader.{Bytes}
use rsts_e_v7_2_lookalike.Bytes.Magic.{bytes_eq, bytes_eq_sound}
use rsts_e_v7_2_lookalike.Text.Ascii.{codes, is_digit, upper}
use rsts_e_v7_2_lookalike.Basic.Token.{
  tok_eof, Token, Floats, worded, is_letter, is_blank, is_ident_char, is_comment_char, is_keyword,
  is_ws,
}
use rsts_e_v7_2_lookalike.Basic.Token.Cursor.{
  Cursor, cursor, skip_while, slice, Later, Later-trans, skip_while-Later, skip_while_first,
}
use rsts_e_v7_2_lookalike.Basic.Token.Readers.{
  Round, skip, emit, fail, skip_ws, peek_word, step_two, word_token, read_ident,
}
use rsts_e_v7_2_lookalike.Basic.Token.Tokenize.{
  Lexed, lexed, failed, exhausted, digit_next, round, add_token, run, tokenize,
}
use rsts_e_v7_2_lookalike.Basic.Token.Progress.{
  KindFits, Advances, choose, past, one_past, read_string-Advances, operator-Advances,
  read_number-Advances, continuation-Later,
}

go_to-keyword : is_keyword (codes "GOTO") ≡ true
unfolding is_keyword
go_to-keyword = refl

length-upper : (s : Bytes) → length (upper s) ≡ length s
unfolding upper
length-upper [] = refl
length-upper (c ∷ s) = omega (arith, length-upper s)

length-take : (n : ℕ) (s : Bytes) → length (take n s) ≤ length s
length-take zero s = omega arith
length-take (suc n) [] = omega arith
length-take (suc n) (c ∷ s) = omega (arith, length-take n s)

length-drop_two : (s : Bytes) → 2 ≤ length s → length (drop 2 s) + 2 ≡ length s
length-drop_two [] h = absurd (omega arith)
length-drop_two (a ∷ []) h = absurd (omega arith)
length-drop_two (a ∷ b ∷ s) h = omega arith

-- Where the word `TO` is ahead, two characters are.
two_ahead : (c : Cursor) → bytes_eq (peek_word c) (codes "TO") ≡ true → 2 ≤ length (skip_ws c).rest
unfolding peek_word
two_ahead c h =
    let blank = skip_ws c in
    let word = slice blank (skip_while is_letter blank.i blank.rest) in
    let same = ap length (bytes_eq_sound (upper word) (codes "TO") h) in
    omega (arith, same, length-upper word, length-take _ blank.rest)

step_two-Later :
    (c : Cursor) → bytes_eq (peek_word c) (codes "TO") ≡ true → Later c (step_two (skip_ws c))
step_two-Later c h = Later-trans c (skip_ws c) _ (skip_while-Later is_ws c.i c.rest) (record {
  same = omega (arith, length-drop_two (skip_ws c).rest (two_ahead c h));
  later = omega arith;
})

word_token-Advances :
    (i ch : ℕ) (rest name : Bytes) (end : Cursor)
    → Later (cursor (i + 1) rest) end
    → Advances (cursor i (ch ∷ rest)) (word_token i name end)
unfolding word_token
word_token-Advances i ch rest name end h =
    choose _ (bytes_eq name (codes "GO") && bytes_eq (peek_word end) (codes "TO")) _ _
      (λ hit.
        let to : bytes_eq (peek_word end) (codes "TO") ≡ true = ground arith in
        let there =
          past i ch rest (step_two (skip_ws end)) (Later-trans _ end _ h (step_two-Later end to)) in
        (there.0, there.1, refl, go_to-keyword))
      (λ miss.
        let there = past i ch rest end h in
        choose _ (is_keyword name) _ _ (λ known. (there.0, there.1, refl, known))
          (λ unknown. (there.0, there.1, refl, unknown)))

read_ident-Advances :
    (i ch : ℕ) (rest : Bytes)
    → is_letter ch ≡ true
    → Advances (cursor i (ch ∷ rest)) (read_ident i (ch ∷ rest))
unfolding read_ident
read_ident-Advances i ch rest first =
    let end = skip_while is_ident_char i (ch ∷ rest) in
    word_token-Advances i ch rest (upper (slice (cursor i (ch ∷ rest)) end)) end
      (skip_while_first is_ident_char i ch rest (ground arith))

round-Advances :
    (floats : Floats) (i ch : ℕ) (rest : Bytes)
    → Advances (cursor i (ch ∷ rest)) (round floats i ch rest)
unfolding round
round-Advances floats i ch rest =
    choose _ (is_blank ch) _ _ (λ h. one_past i ch rest)
      λ h.
        choose _ (ch == b'&') _ _ (λ h. past i ch rest _ (continuation-Later (i + 1) rest))
          λ h.
            choose _ (ch == 10) _ _
              (λ h. ((one_past i ch rest).0, (one_past i ch rest).1, refl, tt))
              λ h.
                choose _ (ch == b'!') _ _
                  (λ h.
                    past i ch rest _ (skip_while_first is_comment_char i ch rest (ground arith)))
                  λ h.
                    choose _ (ch == 34 || ch == 39) _ _ (λ h. read_string-Advances ch i rest)
                      λ h.
                        choose _ (is_digit ch || (ch == b'.' && digit_next rest)) _ _
                          (λ h. read_number-Advances floats i ch rest (ground arith))
                          λ h.
                            choose _ (is_letter ch) _ _ (λ h. read_ident-Advances i ch rest h)
                              λ h. operator-Advances i ch rest

-- The tokens of a text of `n` characters, from the place `low` on: each starts in the text, behind
-- the one before it, and the last, and no other, stands for the end of the text.
abbrev pub IsStream : ℕ → ℕ → List Token → Type 0
IsStream n low [] = ⊥
IsStream n low (t ∷ []) = (low ≤ n) × (t ≡ worded tok_eof [] n)
IsStream n low (t ∷ u ∷ ts) =
    (low ≤ t.pos) × (t.pos < n) × KindFits t.kind t.text × IsStream n (suc t.pos) (u ∷ ts)

abbrev Complete : ℕ → ℕ → Lexed → Type 0
Complete n low (lexed ts) = IsStream n low ts
Complete n low (failed e) = Unit
Complete n low exhausted = ⊥

IsStream-weaken :
    (n low lower : ℕ) (ts : List Token) → lower ≤ low → IsStream n low ts → IsStream n lower ts
IsStream-weaken n low lower [] h r = r
IsStream-weaken n low lower (t ∷ []) h (a, b) = (omega arith, b)
IsStream-weaken n low lower (t ∷ u ∷ ts) h (a, b, k, r) = (omega arith, b, k, r)

Complete-weaken :
    (n low lower : ℕ) (l : Lexed) → lower ≤ low → Complete n low l → Complete n lower l
Complete-weaken n low lower (lexed ts) h r = IsStream-weaken n low lower ts h r
Complete-weaken n low lower (failed e) h r = r
Complete-weaken n low lower exhausted h r = elim r [ ]

add_token-Complete :
    (n low : ℕ) (t : Token) (l : Lexed)
    → low ≤ t.pos
    → t.pos < n
    → KindFits t.kind t.text
    → Complete n (suc t.pos) l
    → Complete n low (add_token t l)
add_token-Complete n low t (lexed (u ∷ ts)) a b k r = (a, b, k, r)
add_token-Complete n low t (lexed []) a b k r = elim r [ ]
add_token-Complete n low t (failed e) a b k r = tt
add_token-Complete n low t exhausted a b k r = elim r [ ]

run-Complete :
    (floats : Floats) (fuel i n : ℕ) (text : Bytes)
    → i + length text ≡ n
    → length text ≤ fuel
    → Complete n i (run floats fuel i text)
unfolding run
run-Complete floats fuel i n [] e h = let last : i ≡ n = omega arith in (omega arith, rw last refl)
run-Complete floats zero i n (ch ∷ rest) e h = absurd (omega arith)
run-Complete floats (suc fuel) i n (ch ∷ rest) e h =
    go (round floats i ch rest) (round-Advances floats i ch rest) (λ c same further.
      run-Complete floats fuel c.i n c.rest (omega (arith, same)) (omega (arith, same)))
  where
    go :
        (r : Round)
        → Advances (cursor i (ch ∷ rest)) r
        → ((c : Cursor)
            → c.i + length c.rest ≡ i + length (ch ∷ rest)
            → i < c.i
            → Complete n c.i (run floats fuel c.i c.rest))
        → Complete n i (elim r [
          | skip c ↦ run floats fuel c.i c.rest
          | emit t c ↦ add_token t (run floats fuel c.i c.rest)
          | fail e ↦ failed e
        ])
    go (skip c) (later, further) next =
        Complete-weaken n c.i i _ (omega arith) (next c later.same further)
    go (emit t c) (later, further, place, fits) next =
        add_token-Complete n i t _ (omega arith) (omega arith) fits
          (Complete-weaken n c.i (suc t.pos) _ (omega arith) (next c later.same further))
    go (fail e) h next = tt

tokenize-Complete :
    (floats : Floats) (text : Bytes) → Complete (length text) 0 (tokenize floats text)
unfolding tokenize
tokenize-Complete floats text =
    run-Complete floats (length text) 0 (length text) text (omega arith) (omega arith)

-- `tokenize` comes to an end on every text, with tokens or with an error.
pub tokenize_finishes : (floats : Floats) (text : Bytes) → tokenize floats text ≢ exhausted
tokenize_finishes floats text e = subst (Complete (length text) 0) e (tokenize-Complete floats text)

-- The tokens of a text stand in the order of the text, at places in it that rise from token to
-- token; the last one stands for the end of the text, and no other does; a keyword is in the table
-- of keywords, and an identifier is not.
pub tokenize-IsStream :
    (floats : Floats) (text : Bytes) (ts : List Token)
    → tokenize floats text ≡ lexed ts
    → IsStream (length text) 0 ts
tokenize-IsStream floats text ts e =
    subst (Complete (length text) 0) e (tokenize-Complete floats text)
