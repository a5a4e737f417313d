-- ===== src/Basic/Parser/Names.antt =====
-- The names of BASIC-PLUS (token.go: `builtins`, `statementStarters`; parser.go: `checkIdent`,
-- `backslashStartsStatement`).
use rsts_e_v7_2_lookalike.Prelude.{
  ℕ, zero, suc, Bool, true, false, not, ◌&&◌, ◌||◌, Option, none, some, List, [], ◌∷◌, ltb, ◌==◌,
  if◌then◌else◌, length,
}
use rsts_e_v7_2_lookalike.Bytes.Reader.{Bytes}
use rsts_e_v7_2_lookalike.Bytes.Magic.{bytes_eq}
use rsts_e_v7_2_lookalike.Text.Ascii.{codes, is_upper}
use rsts_e_v7_2_lookalike.Basic.Token.{
  TokKind, tok_eof, tok_eol, tok_ident, tok_keyword, tok_op, tok_l_paren, tok_r_paren, Token, among,
}
use rsts_e_v7_2_lookalike.Basic.Machine.{ends_in}

abbrev pub builtins : List Bytes
builtins =
    codes "ABS"
    ∷ codes "INT"
    ∷ codes "SGN"
    ∷ codes "SQR"
    ∷ codes "SIN"
    ∷ codes "COS"
    ∷ codes "TAN"
    ∷ codes "ATN"
    ∷ codes "LOG"
    ∷ codes "EXP"
    ∷ codes "RND"
    ∷ codes "LEN"
    ∷ codes "LEFT$"
    ∷ codes "RIGHT$"
    ∷ codes "MID$"
    ∷ codes "INSTR"
    ∷ codes "CHR$"
    ∷ codes "ASC"
    ∷ codes "ASCII"
    ∷ codes "STR$"
    ∷ codes "VAL"
    ∷ codes "TAB"
    ∷ codes "SPC"
    ∷ codes "DATE$"
    ∷ codes "TIME$"
    ∷ codes "SPACE$"
    ∷ codes "STRING$"
    ∷ codes "POS"
    ∷ codes "FIX"
    ∷ codes "LOG10"
    ∷ codes "PI"
    ∷ codes "SYS"
    ∷ codes "ERR"
    ∷ codes "ERL"
    ∷ codes "CVT%$"
    ∷ codes "CVT$%"
    ∷ codes "CVTF$"
    ∷ codes "CVT$F"
    ∷ codes "CVT$$"
    ∷ codes "XLATE"
    ∷ codes "XLATE$"
    ∷ codes "SPEC%"
    ∷ codes "PEEK"
    ∷ codes "SWAP%"
    ∷ codes "TIME"
    ∷ codes "DATE"
    ∷ codes "NUM1$"
    ∷ codes "NUM$"
    ∷ codes "SUM$"
    ∷ codes "DIF$"
    ∷ codes "PROD$"
    ∷ codes "QUO$"
    ∷ codes "COMP%"
    ∷ codes "PLACE$"
    ∷ codes "RAD$"
    ∷ codes "RECOUNT"
    ∷ codes "STATUS"
    ∷ codes "DET"
    ∷ codes "NUM"
    ∷ codes "NUM2"
    ∷ []

abbrev pub statement_starters : List Bytes
statement_starters =
    codes "PRINT"
    ∷ codes "INPUT"
    ∷ codes "LET"
    ∷ codes "GOTO"
    ∷ codes "GOSUB"
    ∷ codes "RETURN"
    ∷ codes "IF"
    ∷ codes "FOR"
    ∷ codes "NEXT"
    ∷ codes "WHILE"
    ∷ codes "DIM"
    ∷ codes "DATA"
    ∷ codes "READ"
    ∷ codes "RESTORE"
    ∷ codes "END"
    ∷ codes "STOP"
    ∷ codes "REM"
    ∷ codes "OPEN"
    ∷ codes "CLOSE"
    ∷ codes "RANDOMIZE"
    ∷ codes "ON"
    ∷ codes "DEF"
    ∷ codes "CHANGE"
    ∷ codes "LINE"
    ∷ codes "UNTIL"
    ∷ codes "GET"
    ∷ codes "PUT"
    ∷ codes "FIELD"
    ∷ codes "LSET"
    ∷ codes "RSET"
    ∷ codes "RESUME"
    ∷ codes "MAT"
    ∷ codes "MAP"
    ∷ codes "CHAIN"
    ∷ codes "SLEEP"
    ∷ codes "KILL"
    ∷ codes "NAME"
    ∷ codes "FNEND"
    ∷ codes "FNEXIT"
    ∷ codes "EXTEND"
    ∷ codes "NOEXTEND"
    ∷ codes "COMMON"
    ∷ codes "WAIT"
    ∷ codes "UNLOCK"
    ∷ codes "SCALE"
    ∷ []

-- `n[:len(n)-1]`
abbrev without_last : Bytes → Bytes
without_last [] = []
without_last (c ∷ []) = []
without_last (c ∷ d ∷ s) = c ∷ without_last (d ∷ s)

abbrev pub is_fn : Bytes → Bool
is_fn (c ∷ d ∷ s) = c == b'F' && d == b'N'
is_fn s = false

abbrev without_fn : Bytes → Bytes
without_fn (c ∷ d ∷ s) = if c == b'F' && d == b'N' then s else c ∷ d ∷ s
without_fn s = s

abbrev is_letter_name : Bytes → Bool
is_letter_name (c ∷ []) = is_upper c
is_letter_name s = false

-- Whether `checkIdent` takes the name.
unfoldable pub check_ident : Bool → Bytes → Bool
unfolding among ends_in
check_ident extend name =
    let n = if ends_in b'$' name || ends_in b'%' name then without_last name else name in
    if extend
    then not (length n == 0) && not (ltb 29 (length n))
    else (among name builtins || is_letter_name (without_fn n))

abbrev is_equals_op : TokKind → Bytes → Bool
is_equals_op tok_op text = bytes_eq text (codes "=")
is_equals_op kind text = false

abbrev is_equals : List Token → Bool
is_equals [] = false
is_equals (t ∷ rest) = is_equals_op t.kind t.text

-- The depth of the parentheses behind a token, where it was `suc d`, or none at the end of a line.
abbrev depth_after : TokKind → ℕ → Option ℕ
depth_after tok_l_paren d = some (suc (suc d))
depth_after tok_r_paren d = some d
depth_after tok_eof d = none
depth_after tok_eol d = none
depth_after kind d = some (suc d)

-- What follows the parenthesis that closes the `depth` open ones.
abbrev behind_parens : List Token → ℕ → Option (List Token)
behind_parens [] depth = some []
behind_parens (t ∷ rest) zero = some (t ∷ rest)
behind_parens (t ∷ rest) (suc d) = elim (depth_after t.kind d) [
  | none ↦ none
  | some depth ↦ behind_parens rest depth
]

abbrev equals_behind : Option (List Token) → Bool
equals_behind none = false
equals_behind (some rest) = is_equals rest

abbrev behind_name : TokKind → Bool → List Token → Bool
behind_name tok_l_paren equals rest = equals_behind (behind_parens rest 1)
behind_name kind equals rest = equals

abbrev assigns : List Token → Bool
assigns [] = false
assigns (t ∷ rest) = behind_name t.kind (is_equals (t ∷ rest)) rest

abbrev starts : TokKind → Bytes → List Token → Bool
starts tok_eof text rest = true
starts tok_eol text rest = true
starts tok_keyword text rest = among text statement_starters || bytes_eq text (codes "ELSE")
starts tok_ident text rest = assigns rest
starts kind text rest = false

-- Of the tokens behind the backslash.
unfoldable pub backslash_starts_statement : List Token → Bool
unfolding among bytes_eq
backslash_starts_statement [] = true
backslash_starts_statement (t ∷ rest) = starts t.kind t.text rest
