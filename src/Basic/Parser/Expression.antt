-- ===== src/Basic/Parser/Expression.antt =====
-- The parser of expressions (parser.go: `parseExpr` and the levels of precedence below it). Each level
-- takes the parser of whole expressions for what stands in parentheses, `sub`, and fuel for its own
-- loop; both are counted from the number of tokens.
use rsts_e_v7_2_lookalike.Prelude.{
  ℕ, zero, suc, Bool, not, ◌&&◌, ◌||◌, Option, none, some, List, [], ◌∷◌, if◌then◌else◌, length,
}
use rsts_e_v7_2_lookalike.Bytes.Reader.{Bytes}
use rsts_e_v7_2_lookalike.Bytes.Magic.{bytes_eq}
use rsts_e_v7_2_lookalike.Text.Ascii.{codes}
use rsts_e_v7_2_lookalike.Basic.Token.{
  TokKind, tok_number, tok_string, tok_ident, tok_keyword, tok_l_paren, Token, among,
}
use rsts_e_v7_2_lookalike.Basic.Expr.{
  UnaryOp, complement, Expr, num_lit, str_lit, var_ref, call_expr, unary_expr, bin_expr, Exprs,
  none_left, and_then,
}
use rsts_e_v7_2_lookalike.Basic.Machine.Operators.{BinOp, op_pow}
use rsts_e_v7_2_lookalike.Basic.Parser.Names.{builtins, is_fn, check_ident}
use rsts_e_v7_2_lookalike.Basic.Parser.Answer.{
  Answer, found, panicked, starved, Parser, ◌>>=◌, succeed, refuse, is_l_paren, is_r_paren,
  is_comma, expect,
}
use rsts_e_v7_2_lookalike.Basic.Parser.Operators.{
  OperatorAt, or_op, and_op, rel_op, add_op, mul_op, is_power, sign_op, is_not,
}

-- The functions that need no parentheses. Those that the source lists by name are in the table too.
abbrev pub is_constant : Bytes → Bool
is_constant name = among name builtins

-- A name with what stands in its parentheses.
abbrev pub named_call : Bool → Bytes → Exprs → Parser Expr
named_call extend name args =
    if among name builtins || is_fn name
    then (if is_fn name && not (check_ident extend name)
        then refuse
        else succeed (call_expr name args))
    else (if check_ident extend name then succeed (var_ref name args) else refuse)

abbrev pub bare_name : Bool → Bytes → Parser Expr
bare_name extend name =
    if is_constant name
    then succeed (call_expr name none_left)
    else (if check_ident extend name then succeed (var_ref name none_left) else refuse)

abbrev pub is_tab : Bytes → Bool
is_tab text = bytes_eq text (codes "TAB") || bytes_eq text (codes "SPC")

module _ (extend : Bool) (sub : Parser Expr) where
  -- `for p.acceptKind(tokComma) { … }`
  unfoldable pub arg_loop : ℕ → Parser Exprs
  arg_loop zero toks = starved
  arg_loop (suc k) [] = panicked
  arg_loop (suc k) (t ∷ rest) =
      let more = arg_loop k in
      if is_comma t.kind
      then (sub >>= λ a. more >>= λ args. succeed (and_then a args)) rest
      else found none_left (t ∷ rest)

  -- What stands behind the opening parenthesis of a name.
  unfoldable pub arguments : ℕ → Parser Exprs
  unfolding arg_loop
  arguments k [] = panicked
  arguments k (t ∷ rest) =
      if is_r_paren t.kind
      then found none_left (t ∷ rest)
      else (sub >>= λ a. arg_loop k >>= λ args. succeed (and_then a args)) (t ∷ rest)

  unfoldable pub named : ℕ → Bytes → Parser Expr
  unfolding arguments expect among check_ident
  named k name [] = panicked
  named k name (t ∷ rest) =
      if is_l_paren t.kind
      then (arguments k >>= λ args. expect is_r_paren >>= λ _. named_call extend name args) rest
      else bare_name extend name (t ∷ rest)

  abbrev pub in_parens : Parser Expr
  in_parens = sub >>= λ e. expect is_r_paren >>= λ _. succeed e

  abbrev pub tab_call : Bytes → Parser Expr
  tab_call name =
      expect is_l_paren >>= λ _. in_parens >>= λ a. succeed (call_expr name (and_then a none_left))

  abbrev pub primary_of : ℕ → TokKind → ℕ → Bytes → Parser Expr
  primary_of k tok_l_paren n text = in_parens
  primary_of k tok_number n text = succeed (num_lit n)
  primary_of k tok_string n text = succeed (str_lit text)
  primary_of k tok_keyword n text = if is_tab text then tab_call text else refuse
  primary_of k tok_ident n text = named k text
  primary_of k kind n text = refuse

  unfoldable pub parse_primary : ℕ → Parser Expr
  unfolding named expect bytes_eq
  parse_primary k [] = panicked
  parse_primary k (t ∷ rest) = primary_of k t.kind t.num t.text rest

  abbrev pub signed_by :
      Option UnaryOp → Parser Expr → Parser Expr → List Token → List Token → Answer Expr
  signed_by none operand other rest toks = other toks
  signed_by (some op) operand other rest toks = (operand >>= λ x. succeed (unary_expr op x)) rest

  unfoldable pub parse_unary : ℕ → Parser Expr
  unfolding sign_op parse_primary
  parse_unary zero toks = starved
  parse_unary (suc k) [] = panicked
  parse_unary (suc k) (t ∷ rest) =
      signed_by (sign_op t.kind t.text) (parse_unary k) (parse_primary (suc k)) rest (t ∷ rest)

  abbrev pub powered : Parser Expr → Expr → Parser Expr
  powered operand left [] = panicked
  powered operand left (t ∷ rest) =
      if is_power t.kind t.text
      then (operand >>= λ right. succeed (bin_expr op_pow left right)) rest
      else found left (t ∷ rest)

  unfoldable pub parse_pow : ℕ → Parser Expr
  unfolding parse_unary is_power
  parse_pow zero toks = starved
  parse_pow (suc k) toks = (parse_unary (suc k) >>= powered (parse_pow k)) toks

  abbrev pub combined :
      Option BinOp
      → Parser Expr
      → (Expr → Parser Expr)
      → Expr
      → List Token
      → List Token
      → Answer Expr
  combined none operand loop left rest toks = found left toks
  combined (some op) operand loop left rest toks =
      (operand >>= λ right. loop (bin_expr op left right)) rest

  -- The loop of a level: operators of the level with operands of the next one, from the left.
  unfoldable pub chain : OperatorAt → Parser Expr → ℕ → Expr → Parser Expr
  chain op operand zero left toks = starved
  chain op operand (suc k) left [] = panicked
  chain op operand (suc k) left (t ∷ rest) =
      combined (op t.kind t.text rest) operand (chain op operand k) left rest (t ∷ rest)

  abbrev pub level : OperatorAt → Parser Expr → ℕ → Parser Expr
  level op operand k = operand >>= λ left. chain op operand k left

  unfoldable pub parse_mul : ℕ → Parser Expr
  unfolding parse_pow chain mul_op
  parse_mul k = level mul_op (parse_pow k) k

  unfoldable pub parse_add : ℕ → Parser Expr
  unfolding parse_mul chain add_op
  parse_add k = level add_op (parse_mul k) k

  unfoldable pub parse_rel : ℕ → Parser Expr
  unfolding parse_add chain rel_op
  parse_rel k = level rel_op (parse_add k) k

  unfoldable pub parse_not : ℕ → Parser Expr
  unfolding parse_rel is_not
  parse_not zero toks = starved
  parse_not (suc k) [] = panicked
  parse_not (suc k) (t ∷ rest) =
      let inner = parse_not k in
      if is_not t.kind t.text
      then (inner >>= λ x. succeed (unary_expr complement x)) rest
      else parse_rel (suc k) (t ∷ rest)

  unfoldable pub parse_and : ℕ → Parser Expr
  unfolding parse_not chain and_op
  parse_and k = level and_op (parse_not k) k

  unfoldable pub parse_or : ℕ → Parser Expr
  unfolding parse_and chain or_op
  parse_or k = level or_op (parse_and k) k

unfoldable pub parse_expr : Bool → ℕ → Parser Expr
unfolding parse_or
parse_expr extend zero toks = starved
parse_expr extend (suc d) toks = parse_or extend (parse_expr extend d) (suc d) toks

-- `p.parseExpr()`, on the tokens from the place of the parser on.
unfoldable pub parse_expression : Bool → Parser Expr
unfolding parse_expr
parse_expression extend toks = parse_expr extend (length toks) toks
