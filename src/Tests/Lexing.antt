-- ===== src/Tests/Lexing.antt =====
-- A line of BASIC-PLUS, with its tokens.
use rsts_e_v7_2_lookalike.Prelude.{◌≡◌, ◌≢◌, refl, some, List, [], ◌∷◌, inl, length}
use rsts_e_v7_2_lookalike.Bytes.Reader.{Bytes}
use rsts_e_v7_2_lookalike.Text.Ascii.{codes}
use rsts_e_v7_2_lookalike.Basic.Token.{
  tok_keyword, tok_number, tok_string, tok_eof, Token, Floats, worded,
}
use rsts_e_v7_2_lookalike.Basic.Token.Tokenize.{lexed, exhausted, tokenize}
use rsts_e_v7_2_lookalike.Basic.Token.Stream.{IsStream, tokenize_finishes, tokenize-IsStream}
use rsts_e_v7_2_lookalike.Basic.Token.Quoted.{literal, tokenize-literal}

-- Numbers that are known by their length.
abbrev by_length : Floats
by_length = record { parse_float = λ raw. some (length raw); to_integer = λ v. v }

abbrev statement : Bytes
statement = codes "go  to 100 ! again"

abbrev statement_tokens : List Token
statement_tokens =
    worded tok_keyword (codes "GOTO") 0
    ∷ record { kind = tok_number; num = 3; text = []; pos = 7 }
    ∷ worded tok_eof [] 18
    ∷ []

tokenize-statement : tokenize by_length statement ≡ lexed statement_tokens
unfolding tokenize
tokenize-statement = refl

tokenize_finishes_example : tokenize by_length statement ≢ exhausted
tokenize_finishes_example = tokenize_finishes by_length statement

tokenize-IsStream_example : IsStream (length statement) 0 statement_tokens
tokenize-IsStream_example =
    tokenize-IsStream by_length statement statement_tokens tokenize-statement

tokenize-literal_example :
    tokenize by_length (literal 34 (codes "A\"B'C"))
    ≡ lexed (
        worded tok_string (codes "A\"B'C") 0
        ∷ worded tok_eof [] (length (literal 34 (codes "A\"B'C")))
        ∷ [])
tokenize-literal_example = tokenize-literal by_length 34 (codes "A\"B'C") (inl refl)
