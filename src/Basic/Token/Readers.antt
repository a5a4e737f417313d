-- ===== src/Basic/Token/Readers.antt =====
-- `readString`, `readNumber`, `readIdent`, `skipWS`, `peekWord`, and the line continuation of `run`.
use rsts_e_v7_2_lookalike.Prelude.{
  ℕ, ◌+◌, Bool, true, false, ◌&&◌, ◌||◌, Option, none, some, [], ◌∷◌, ◌==◌, if◌then◌else◌, drop,
}
use rsts_e_v7_2_lookalike.Bytes.Reader.{Bytes}
use rsts_e_v7_2_lookalike.Bytes.Magic.{bytes_eq}
use rsts_e_v7_2_lookalike.Text.Ascii.{codes, is_digit, upper}
use rsts_e_v7_2_lookalike.Basic.Token.{
  tok_string, tok_number, tok_ident, tok_keyword, Token, LexError, unclosed_string, illegal_number,
  Floats, worded, is_letter, is_ws, is_number_char, is_ident_char, is_keyword,
}
use rsts_e_v7_2_lookalike.Basic.Token.Cursor.{Cursor, cursor, skip_while, skip_if, slice}

-- What one round of `run` does: skip text, or add a token, or give up.
pub data Round : Type 0 where
  skip : Cursor → Round
  emit : Token → Cursor → Round
  fail : LexError → Round

-- `b.WriteByte(ch)` in front of what the loop writes from there on.
abbrev pub with_char : ℕ → Option (Bytes × Cursor) → Option (Bytes × Cursor)
with_char ch none = none
with_char ch (some (s, end)) = some (ch ∷ s, end)

-- The loop of `readString` behind the opening quote: the string, and the place behind it.
unfoldable pub string_from : ℕ → ℕ → Bytes → Option (Bytes × Cursor)
string_from quote i [] = none
string_from quote i (ch ∷ []) = if ch == quote then some ([], cursor (i + 1) []) else none
string_from quote i (ch ∷ next ∷ rest) =
    let doubled = with_char quote (string_from quote (i + 2) rest) in
    let other = with_char ch (string_from quote (i + 1) (next ∷ rest)) in
    if ch == quote
    then (if next == quote then doubled else some ([], cursor (i + 1) (next ∷ rest)))
    else other

abbrev pub string_round : ℕ → Option (Bytes × Cursor) → Round
string_round pos none = fail unclosed_string
string_round pos (some (s, end)) = emit (worded tok_string s pos) end

-- `readString` at the opening quote.
unfoldable pub read_string : ℕ → ℕ → Bytes → Round
unfolding string_from
read_string quote i rest = string_round i (string_from quote (i + 1) rest)

-- Behind the digits and points of a number: an exponent, if there is one.
abbrev pub is_exponent_mark : ℕ → Bool
is_exponent_mark c = c == b'e' || c == b'E'

abbrev pub is_sign : ℕ → Bool
is_sign c = c == b'+' || c == b'-'

abbrev pub skip_exponent_digits : Cursor → Cursor
skip_exponent_digits c = skip_while is_digit c.i c.rest

unfoldable pub skip_exponent : ℕ → Bytes → Cursor
unfolding skip_while skip_if
skip_exponent i [] = cursor i []
skip_exponent i (ch ∷ rest) =
    if is_exponent_mark ch
    then skip_exponent_digits (skip_if is_sign (i + 1) rest)
    else cursor i (ch ∷ rest)

abbrev pub number_token : Floats → ℕ → Bytes → Bool → Cursor → Round
number_token floats pos raw integer after = elim (floats.parse_float raw) [
  | none ↦ fail illegal_number
  | some v ↦
      emit
        (record {
          kind = tok_number;
          num = if integer then floats.to_integer v else v;
          text = [];
          pos = pos;
        })
        after
]

-- With the text `raw` of the number, and the place behind it: a `%` makes an integer of it.
unfoldable pub finish_number : Floats → ℕ → Bytes → ℕ → Bytes → Round
finish_number floats pos raw i [] = number_token floats pos raw false (cursor i [])
finish_number floats pos raw i (ch ∷ rest) =
    if ch == b'%'
    then number_token floats pos raw true (cursor (i + 1) rest)
    else number_token floats pos raw false (cursor i (ch ∷ rest))

abbrev number_behind : Floats → Cursor → Cursor → Round
number_behind floats start end = finish_number floats start.i (slice start end) end.i end.rest

abbrev exponent_behind : Cursor → Cursor
exponent_behind c = skip_exponent c.i c.rest

unfoldable pub read_number : Floats → ℕ → Bytes → Round
unfolding skip_while skip_exponent finish_number
read_number floats i text =
    number_behind floats (cursor i text) (exponent_behind (skip_while is_number_char i text))

-- `t.skipWS()`
abbrev pub skip_ws : Cursor → Cursor
skip_ws c = skip_while is_ws c.i c.rest

abbrev letters_behind : Cursor → Bytes
letters_behind c = upper (slice c (skip_while is_letter c.i c.rest))

-- `t.peekWord()`
unfoldable pub peek_word : Cursor → Bytes
unfolding skip_while upper
peek_word c = letters_behind (skip_ws c)

-- `t.i += 2`
abbrev pub step_two : Cursor → Cursor
step_two c = cursor (c.i + 2) (drop 2 c.rest)

-- The token that a word is, with the place behind the word.
unfoldable pub word_token : ℕ → Bytes → Cursor → Round
unfolding skip_while bytes_eq peek_word is_keyword
word_token pos name end =
    if bytes_eq name (codes "GO") && bytes_eq (peek_word end) (codes "TO")
    then emit (worded tok_keyword (codes "GOTO") pos) (step_two (skip_ws end))
    else (if is_keyword name
        then emit (worded tok_keyword name pos) end
        else emit (worded tok_ident name pos) end)

abbrev word_behind : Cursor → Cursor → Round
word_behind start end = word_token start.i (upper (slice start end)) end

unfoldable pub read_ident : ℕ → Bytes → Round
unfolding skip_while upper word_token
read_ident i text = word_behind (cursor i text) (skip_while is_ident_char i text)

-- Behind a `&`: blanks, a carriage return and a line feed.
abbrev pub is_return : ℕ → Bool
is_return c = c == 13

abbrev pub is_feed : ℕ → Bool
is_feed c = c == 10

abbrev skip_return : Cursor → Cursor
skip_return c = skip_if is_return c.i c.rest

abbrev skip_feed : Cursor → Cursor
skip_feed c = skip_if is_feed c.i c.rest

unfoldable pub continuation : ℕ → Bytes → Cursor
unfolding skip_while skip_if
continuation i text = skip_feed (skip_return (skip_while is_ws i text))
