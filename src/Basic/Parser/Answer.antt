-- ===== src/Basic/Parser/Answer.antt =====
-- What a part of the parser makes of the tokens from its place on: a value and the tokens behind it, or
-- the error `Syntax error`. `panicked` is an index behind the last token, and `starved` that the
-- fuel of the model was not enough; neither happens.
use rsts_e_v7_2_lookalike.Prelude.{Bool, true, false, List, [], ◌∷◌, if◌then◌else◌}
use rsts_e_v7_2_lookalike.Basic.Token.{TokKind, tok_comma, tok_l_paren, tok_r_paren, Token}

pub data Answer (A : Type 0) : Type 0 where
  found : A → List Token → Answer A
  refused : Answer A
  panicked : Answer A
  starved : Answer A

abbrev pub Parser : Type 0 → Type 0
Parser A = List Token → Answer A

abbrev pub next : {A B : Type 0} → Answer A → (A → Parser B) → Answer B
next (found a rest) k = k a rest
next refused k = refused
next panicked k = panicked
next starved k = starved

infixl 1 ◌>>=◌
abbrev pub ◌>>=◌ : {A B : Type 0} → Parser A → (A → Parser B) → Parser B
(p >>= k) toks = next (p toks) k

abbrev pub succeed : {A : Type 0} → A → Parser A
succeed a toks = found a toks

abbrev pub refuse : {A : Type 0} → Parser A
refuse toks = refused

abbrev pub is_l_paren : TokKind → Bool
is_l_paren tok_l_paren = true
is_l_paren kind = false

abbrev pub is_r_paren : TokKind → Bool
is_r_paren tok_r_paren = true
is_r_paren kind = false

abbrev pub is_comma : TokKind → Bool
is_comma tok_comma = true
is_comma kind = false

-- `p.expectKind(k)`
unfoldable pub expect : (TokKind → Bool) → Parser (Unit {0})
expect wanted [] = panicked
expect wanted (t ∷ rest) = if wanted t.kind then found tt rest else refused
