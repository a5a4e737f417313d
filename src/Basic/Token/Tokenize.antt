-- ===== src/Basic/Token/Tokenize.antt =====
-- `tokenize` and `run`: one round for each blank, comment, continuation or token. The rounds are
-- counted down, and a text has fewer rounds than `tokenize` allows.
use rsts_e_v7_2_lookalike.Prelude.{
  ℕ, zero, suc, ◌+◌, Bool, false, ◌&&◌, ◌||◌, List, [], ◌∷◌, ◌==◌, if◌then◌else◌, length,
}
use rsts_e_v7_2_lookalike.Bytes.Reader.{Bytes}
use rsts_e_v7_2_lookalike.Text.Ascii.{is_digit}
use rsts_e_v7_2_lookalike.Basic.Token.{
  TokKind, tok_eof, tok_eol, tok_op, tok_l_paren, tok_r_paren, tok_comma, tok_semi, tok_hash,
  tok_backslash, tok_colon, Token, LexError, illegal_character, Floats, worded, is_letter, is_blank,
  is_comment_char,
}
use rsts_e_v7_2_lookalike.Basic.Token.Cursor.{cursor, skip_while}
use rsts_e_v7_2_lookalike.Basic.Token.Readers.{
  Round, skip, emit, fail, read_string, read_number, read_ident, continuation,
}

-- What `run` returns; `exhausted` when the rounds allowed do not reach the end of the text.
pub data Lexed : Type 0 where
  lexed : List Token → Lexed
  failed : LexError → Lexed
  exhausted : Lexed

-- `t.i+1 < n && unicode.IsDigit(rune(t.text[t.i+1]))`
abbrev pub digit_next : Bytes → Bool
digit_next [] = false
digit_next (c ∷ rest) = is_digit c

-- The operators of one character.
abbrev pub is_op_char : ℕ → Bool
is_op_char c =
    c == b'='
    || c == b'+'
    || c == b'-'
    || c == b'*'
    || c == b'/'
    || c == b'^'
    || c == b'<'
    || c == b'>'

-- The last `switch` of `run`.
unfoldable pub single : ℕ → ℕ → Bytes → Round
single i ch rest =
    let token : TokKind → Round = λ kind. emit (worded kind (ch ∷ []) i) (cursor (i + 1) rest) in
    if is_op_char ch
    then token tok_op
    else (if ch == 92
        then token tok_backslash
        else (if ch == b'('
            then token tok_l_paren
            else (if ch == b')'
                then token tok_r_paren
                else (if ch == b','
                    then token tok_comma
                    else (if ch == b';'
                        then token tok_semi
                        else (if ch == b'#'
                            then token tok_hash
                            else (if ch == b':'
                                then token tok_colon
                                else fail (illegal_character ch))))))))

-- The operators of two characters but `**`.
abbrev pub is_pair : ℕ → ℕ → Bool
is_pair a b =
    (a == b'<' && (b == b'>' || b == b'=')) || (a == b'>' && b == b'=') || (a == b'=' && b == b'=')

abbrev pub is_power : ℕ → ℕ → Bool
is_power a b = a == b'*' && b == b'*'

unfoldable pub operator : ℕ → ℕ → Bytes → Round
unfolding single
operator i ch [] = single i ch []
operator i ch (next ∷ rest) =
    if is_power ch next
    then emit (worded tok_op (b'^' ∷ []) i) (cursor (i + 2) rest)
    else (if is_pair ch next
        then emit (worded tok_op (ch ∷ next ∷ []) i) (cursor (i + 2) rest)
        else single i ch (next ∷ rest))

-- The body of the loop of `run`, at the character `ch`.
unfoldable pub round : Floats → ℕ → ℕ → Bytes → Round
unfolding skip_while read_string read_number read_ident continuation operator
round floats i ch rest =
    if is_blank ch
    then skip (cursor (i + 1) rest)
    else (if ch == b'&'
        then skip (continuation (i + 1) rest)
        else (if ch == 10
            then emit (worded tok_eol (10 ∷ []) i) (cursor (i + 1) rest)
            else (if ch == b'!'
                then skip (skip_while is_comment_char i (ch ∷ rest))
                else (if ch == 34 || ch == 39
                    then read_string ch i rest
                    else (if is_digit ch || (ch == b'.' && digit_next rest)
                        then read_number floats i (ch ∷ rest)
                        else (if is_letter ch
                            then read_ident i (ch ∷ rest)
                            else operator i ch rest))))))

abbrev pub add_token : Token → Lexed → Lexed
add_token t (lexed ts) = lexed (t ∷ ts)
add_token t (failed e) = failed e
add_token t exhausted = exhausted

unfoldable pub run : Floats → ℕ → ℕ → Bytes → Lexed
unfolding round
run floats fuel i [] = lexed (worded tok_eof [] i ∷ [])
run floats zero i (ch ∷ rest) = exhausted
run floats (suc fuel) i (ch ∷ rest) = elim (round floats i ch rest) [
  | skip c ↦ run floats fuel c.i c.rest
  | emit t c ↦ add_token t (run floats fuel c.i c.rest)
  | fail e ↦ failed e
]

unfoldable pub tokenize : Floats → Bytes → Lexed
unfolding run
tokenize floats text = run floats (length text) 0 text
