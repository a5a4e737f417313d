-- ===== src/Basic/Token.antt =====
-- The tokens of BASIC-PLUS (token.go): `token`, `tokKind`, the keyword table, and the classes of
-- characters. A byte that is no ASCII character stands for the Latin-1 letter or sign that
-- `rune(ch)` makes of it. `strconv.ParseFloat` and the rounding `float64(int(v))` are parameters.
pub mod Cursor
pub mod Readers
pub mod Tokenize
pub mod Progress
pub mod Stream
pub mod Quoted
use rsts_e_v7_2_lookalike.Prelude.{
  ℕ, Bool, true, false, ◌&&◌, ◌||◌, not, Option, List, [], ◌∷◌, leb, ◌==◌,
}
use rsts_e_v7_2_lookalike.Bytes.Reader.{Bytes}
use rsts_e_v7_2_lookalike.Bytes.Magic.{bytes_eq}
use rsts_e_v7_2_lookalike.Text.Ascii.{codes, is_upper, is_lower, is_digit}

pub data TokKind : Type 0 where
  tok_eof : TokKind
  tok_eol : TokKind
  tok_number : TokKind
  tok_string : TokKind
  tok_ident : TokKind
  tok_keyword : TokKind
  tok_op : TokKind
  tok_l_paren : TokKind
  tok_r_paren : TokKind
  tok_comma : TokKind
  tok_semi : TokKind
  tok_hash : TokKind
  tok_backslash : TokKind
  tok_colon : TokKind

-- The field `num` is the bit pattern of the float.
pub record Token : Type 0 where
  pub kind : TokKind
  pub num : ℕ
  pub text : Bytes
  pub pos : ℕ

pub data LexError : Type 0 where
  illegal_character : ℕ → LexError
  unclosed_string : LexError
  illegal_number : LexError

-- The floating-point numbers of the host: `strconv.ParseFloat(raw, 64)` and `float64(int(v))`.
pub record Floats : Type 0 where
  pub parse_float : Bytes → Option ℕ
  pub to_integer : ℕ → ℕ

-- A token that carries no number.
abbrev pub worded : TokKind → Bytes → ℕ → Token
worded kind text pos = record { kind = kind; num = 0; text = text; pos = pos }

-- `unicode.IsLetter(rune(ch))`
abbrev pub is_letter : ℕ → Bool
is_letter c =
    is_upper c
    || is_lower c
    || c == 170
    || c == 181
    || c == 186
    || (leb 192 c && leb c 255 && not (c == 215) && not (c == 247))

-- `ch == ' ' || ch == '\t'`
abbrev pub is_ws : ℕ → Bool
is_ws c = c == 32 || c == 9

abbrev pub is_blank : ℕ → Bool
is_blank c = c == 32 || c == 9 || c == 13

abbrev pub is_number_char : ℕ → Bool
is_number_char c = is_digit c || c == b'.'

abbrev pub is_ident_char : ℕ → Bool
is_ident_char c = is_letter c || is_digit c || c == b'_' || c == b'$' || c == b'%'

-- What a comment that `!` begins goes on over: not `\` and not a line feed.
abbrev pub is_comment_char : ℕ → Bool
is_comment_char c = not (c == 92) && not (c == 10)

unfoldable pub among : Bytes → List Bytes → Bool
unfolding bytes_eq
among name [] = false
among name (word ∷ words) = bytes_eq name word || among name words

abbrev keywords : List Bytes
keywords =
    codes "PRINT"
    ∷ codes "INPUT"
    ∷ codes "LET"
    ∷ codes "GOTO"
    ∷ codes "GOSUB"
    ∷ codes "RETURN"
    ∷ codes "IF"
    ∷ codes "THEN"
    ∷ codes "ELSE"
    ∷ codes "FOR"
    ∷ codes "TO"
    ∷ codes "STEP"
    ∷ codes "NEXT"
    ∷ codes "WHILE"
    ∷ codes "UNTIL"
    ∷ codes "DIM"
    ∷ codes "DATA"
    ∷ codes "READ"
    ∷ codes "RESTORE"
    ∷ codes "END"
    ∷ codes "STOP"
    ∷ codes "REM"
    ∷ codes "RUN"
    ∷ codes "LIST"
    ∷ codes "NEW"
    ∷ codes "OLD"
    ∷ codes "SAVE"
    ∷ codes "DELETE"
    ∷ codes "OPEN"
    ∷ codes "CLOSE"
    ∷ codes "AS"
    ∷ codes "FILE"
    ∷ codes "OUTPUT"
    ∷ codes "APPEND"
    ∷ codes "RANDOMIZE"
    ∷ codes "ON"
    ∷ codes "DEF"
    ∷ codes "AND"
    ∷ codes "OR"
    ∷ codes "NOT"
    ∷ codes "MOD"
    ∷ codes "GO"
    ∷ codes "TAB"
    ∷ codes "SPC"
    ∷ codes "LINE"
    ∷ codes "REPLACE"
    ∷ codes "CLEAR"
    ∷ codes "CHAIN"
    ∷ codes "NAME"
    ∷ codes "KILL"
    ∷ codes "SLEEP"
    ∷ codes "ERROR"
    ∷ codes "RESUME"
    ∷ codes "CHANGE"
    ∷ codes "USING"
    ∷ codes "GET"
    ∷ codes "PUT"
    ∷ codes "FIELD"
    ∷ codes "LSET"
    ∷ codes "RSET"
    ∷ codes "RECORD"
    ∷ codes "RECORDSIZE"
    ∷ codes "UNLESS"
    ∷ codes "MAT"
    ∷ codes "MAP"
    ∷ codes "ORGANIZATION"
    ∷ codes "VIRTUAL"
    ∷ codes "FNEND"
    ∷ codes "FNEXIT"
    ∷ codes "EXTEND"
    ∷ codes "NOEXTEND"
    ∷ codes "COMMON"
    ∷ codes "WAIT"
    ∷ codes "UNLOCK"
    ∷ codes "SCALE"
    ∷ codes "XOR"
    ∷ codes "EQV"
    ∷ codes "IMP"
    ∷ []

-- `keywords[name]`
unfoldable pub is_keyword : Bytes → Bool
unfolding among
is_keyword name = among name keywords
