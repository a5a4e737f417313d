-- ===== src/Basic/Parser/Total.antt =====
-- The parser of expressions comes to an end, inside its tokens.
use rsts_e_v7_2_lookalike.Prelude.{
  ℕ, zero, suc, ◌≤◌, ◌≡◌, refl, ap, sym, ◌∙◌, ◌⊎◌, Bool, false, Option, none, some, List, [], ◌∷◌,
  arith, length,
}
use rsts_e_v7_2_lookalike.Bytes.Reader.{Bytes}
use rsts_e_v7_2_lookalike.Basic.Token.{
  TokKind, tok_eof, tok_eol, tok_number, tok_string, tok_ident, tok_keyword, tok_op, tok_l_paren,
  tok_r_paren, tok_comma, tok_semi, tok_hash, tok_backslash, tok_colon, Token,
}
use rsts_e_v7_2_lookalike.Basic.Expr.{UnaryOp, Expr}
use rsts_e_v7_2_lookalike.Basic.Parser.Answer.{Parser, is_l_paren, is_r_paren, is_comma, expect}
use rsts_e_v7_2_lookalike.Basic.Parser.Operators.{
  or_op, and_op, rel_op, add_op, mul_op, is_power, sign_op, is_not,
}
use rsts_e_v7_2_lookalike.Basic.Parser.Expression.{
  named_call, is_tab, arg_loop, arguments, named, in_parens, tab_call, primary_of, parse_primary,
  signed_by, parse_unary, powered, parse_pow, parse_mul, parse_add, parse_rel, parse_not, parse_and,
  parse_or, parse_expr, parse_expression,
}
use rsts_e_v7_2_lookalike.Basic.Parser.Progress.{
  HasEnd, Good, Sound, Good-next, Good-wider, Good-either, Good-choice, HasEnd-past, not_end,
  expect-Good, named_call-Good, bare_name-Good, level-Sound,
}

module _ (extend : Bool) (sub : Parser Expr) (n : ℕ) (sub_sound : Sound n sub) where
  arg_loop-Good :
      (k : ℕ) (toks : List Token)
      → HasEnd toks
      → length toks ≤ k
      → length toks ≤ n
      → Good (suc (length toks)) (arg_loop extend sub k toks)
  unfolding arg_loop
  arg_loop-Good k [] h fuel size = absurd h
  arg_loop-Good zero (t ∷ rest) h fuel size = absurd (omega (arith, fuel))
  arg_loop-Good (suc k) (t ∷ rest) h fuel size =
      Good-either _ (is_comma t.kind) _ _
        (λ hit.
          Good-next (length rest) _ (sub rest) _
            (sub_sound rest (HasEnd-past t.kind rest h (not_end is_comma t.kind refl hit))
              (omega (arith, size)))
            λ a after_it ends fewer.
              Good-next (suc (length after_it)) _ (arg_loop extend sub k after_it) _
                (arg_loop-Good k after_it ends (omega (arith, fewer, fuel))
                  (omega (arith, fewer, size)))
                λ args last ended less. (ended, omega (arith, less, fewer)))
        λ other. (h, omega arith)

  arguments-Good :
      (k : ℕ) (toks : List Token)
      → HasEnd toks
      → length toks ≤ k
      → length toks ≤ n
      → Good (suc (length toks)) (arguments extend sub k toks)
  unfolding arguments
  arguments-Good k [] h fuel size = absurd h
  arguments-Good k (t ∷ rest) h fuel size =
      Good-either _ (is_r_paren t.kind) _ _ (λ hit. (h, omega arith))
        λ other.
          Good-next (length (t ∷ rest)) _ (sub (t ∷ rest)) _ (sub_sound (t ∷ rest) h size)
            λ a after_it ends fewer.
              Good-next (suc (length after_it)) _ (arg_loop extend sub k after_it) _
                (arg_loop-Good k after_it ends (omega (arith, fewer, fuel))
                  (omega (arith, fewer, size)))
                λ args last ended less. (ended, omega (arith, less, fewer))

  in_parens-Sound : Sound n (in_parens extend sub)
  in_parens-Sound toks h size =
      Good-next (length toks) _ (sub toks) _ (sub_sound toks h size) λ e rest ends fewer.
        Good-next (length rest) _ (expect is_r_paren rest) _ (expect-Good is_r_paren rest refl ends)
          λ u last ended less. (ended, omega (arith, fewer, less))

  named-Good :
      (k : ℕ) (name : Bytes) (toks : List Token)
      → HasEnd toks
      → length toks ≤ k
      → length toks ≤ n
      → Good (suc (length toks)) (named extend sub k name toks)
  unfolding named
  named-Good k name [] h fuel size = absurd h
  named-Good k name (t ∷ rest) h fuel size =
      Good-either _ (is_l_paren t.kind) _ _
        (λ hit.
          Good-next (suc (length rest)) _ (arguments extend sub k rest) _
            (arguments-Good k rest (HasEnd-past t.kind rest h (not_end is_l_paren t.kind refl hit))
              (omega (arith, fuel)) (omega (arith, size)))
            λ args after_it ends fewer.
              Good-next (length after_it) _ (expect is_r_paren after_it) _
                (expect-Good is_r_paren after_it refl ends)
                λ u last ended less.
                  Good-wider _ _ (named_call extend name args last) (omega (arith, fewer, less))
                    (named_call-Good extend name args last ended))
        λ other. bare_name-Good extend name (t ∷ rest) h

  tab_call-Good :
      (name : Bytes) (toks : List Token)
      → HasEnd toks
      → length toks ≤ n
      → Good (suc (length toks)) (tab_call extend sub name toks)
  tab_call-Good name toks h size =
      Good-next (length toks) _ (expect is_l_paren toks) _ (expect-Good is_l_paren toks refl h)
        λ u rest ends fewer.
          Good-next (length rest) _ (in_parens extend sub rest) _
            (in_parens-Sound rest ends (omega (arith, fewer, size)))
            λ a last ended less. (ended, omega (arith, fewer, less))

  primary_of-Good :
      (k : ℕ) (kind : TokKind) (num : ℕ) (text : Bytes) (rest : List Token)
      → (kind ≡ tok_eof) ⊎ HasEnd rest
      → length rest ≤ k
      → length rest ≤ n
      → Good (suc (length rest)) (primary_of extend sub k kind num text rest)
  primary_of-Good k tok_l_paren num text rest h fuel size =
      Good-wider _ _ (in_parens extend sub rest) (omega arith)
        (in_parens-Sound rest (HasEnd-past tok_l_paren rest h λ e. cc e) size)
  primary_of-Good k tok_number num text rest h fuel size =
      (HasEnd-past tok_number rest h (λ e. cc e), omega arith)
  primary_of-Good k tok_string num text rest h fuel size =
      (HasEnd-past tok_string rest h (λ e. cc e), omega arith)
  primary_of-Good k tok_keyword num text rest h fuel size =
      Good-choice _ (is_tab text) _ _ rest
        (tab_call-Good text rest (HasEnd-past tok_keyword rest h λ e. cc e) size) tt
  primary_of-Good k tok_ident num text rest h fuel size =
      named-Good k text rest (HasEnd-past tok_ident rest h λ e. cc e) fuel size
  primary_of-Good k tok_eof num text rest h fuel size = tt
  primary_of-Good k tok_eol num text rest h fuel size = tt
  primary_of-Good k tok_op num text rest h fuel size = tt
  primary_of-Good k tok_r_paren num text rest h fuel size = tt
  primary_of-Good k tok_comma num text rest h fuel size = tt
  primary_of-Good k tok_semi num text rest h fuel size = tt
  primary_of-Good k tok_hash num text rest h fuel size = tt
  primary_of-Good k tok_backslash num text rest h fuel size = tt
  primary_of-Good k tok_colon num text rest h fuel size = tt

  primary-Sound : (k : ℕ) → k ≤ suc n → Sound k (parse_primary extend sub k)
  unfolding parse_primary
  primary-Sound k le [] h size = absurd h
  primary-Sound k le (t ∷ rest) h size =
      primary_of-Good k t.kind t.num t.text rest h (omega (arith, size)) (omega (arith, size, le))

  signed_by-Good :
      (k : ℕ) (o : Option UnaryOp) (t : Token) (rest : List Token)
      → suc k ≤ suc n
      → Sound k (parse_unary extend sub k)
      → sign_op t.kind t.text ≡ o
      → HasEnd (t ∷ rest)
      → length (t ∷ rest) ≤ suc k
      → Good (suc (length rest)) (
          signed_by extend sub o
            (parse_unary extend sub k)
            (parse_primary extend sub (suc k))
            rest
            (t ∷ rest))
  unfolding sign_op
  signed_by-Good k none t rest le sound e h size = primary-Sound (suc k) le (t ∷ rest) h size
  signed_by-Good k (some op) t rest le sound e h size =
      let past = HasEnd-past t.kind rest h λ at_end.
        let no_op : some op ≡ none = sym e ∙ ap (λ i. sign_op i t.text) at_end in cc no_op in
      Good-next (length rest) _ (parse_unary extend sub k rest) _
        (sound rest past (omega (arith, size))) λ x last ended less. (ended, omega (arith, less))

  unary-Sound : (k : ℕ) → k ≤ suc n → Sound k (parse_unary extend sub k)
  unfolding parse_unary
  unary-Sound k le [] h size = absurd h
  unary-Sound zero le (t ∷ rest) h size = absurd (omega (arith, size))
  unary-Sound (suc k) le (t ∷ rest) h size =
      signed_by-Good k (sign_op t.kind t.text) t rest le (unary-Sound k (omega (arith, le))) refl h
        size

  is_power_end : (text : Bytes) → is_power tok_eof text ≡ false
  unfolding is_power
  is_power_end text = refl

  powered-Good :
      (k : ℕ) (left : Expr) (toks : List Token)
      → Sound k (parse_pow extend sub k)
      → HasEnd toks
      → length toks ≤ k
      → Good (suc (length toks)) (powered extend sub (parse_pow extend sub k) left toks)
  powered-Good k left [] sound h size = absurd h
  powered-Good k left (t ∷ rest) sound h size =
      Good-either _ (is_power t.kind t.text) _ _
        (λ hit.
          Good-next (length rest) _ (parse_pow extend sub k rest) _
            (sound rest
              (HasEnd-past t.kind rest h
                (not_end (λ i. is_power i t.text) t.kind (is_power_end t.text) hit))
              (omega (arith, size)))
            λ right last ended less. (ended, omega (arith, less)))
        λ other. (h, omega arith)

  pow-Sound : (k : ℕ) → k ≤ suc n → Sound k (parse_pow extend sub k)
  unfolding parse_pow
  pow-Sound zero le [] h size = absurd h
  pow-Sound zero le (t ∷ rest) h size = absurd (omega (arith, size))
  pow-Sound (suc k) le toks h size =
      Good-next (length toks) _ (parse_unary extend sub (suc k) toks) _
        (unary-Sound (suc k) le toks h size)
        λ left rest ends fewer.
          Good-wider _ _ (powered extend sub (parse_pow extend sub k) left rest)
            (omega (arith, fewer))
            (powered-Good k left rest (pow-Sound k (omega (arith, le))) ends
              (omega (arith, fewer, size)))

  mul-Sound : (k : ℕ) → k ≤ suc n → Sound k (parse_mul extend sub k)
  unfolding parse_mul mul_op
  mul-Sound k le =
      level-Sound extend sub mul_op (parse_pow extend sub k) k (λ text rest. refl) (pow-Sound k le)

  add-Sound : (k : ℕ) → k ≤ suc n → Sound k (parse_add extend sub k)
  unfolding parse_add add_op
  add-Sound k le =
      level-Sound extend sub add_op (parse_mul extend sub k) k (λ text rest. refl) (mul-Sound k le)

  rel-Sound : (k : ℕ) → k ≤ suc n → Sound k (parse_rel extend sub k)
  unfolding parse_rel rel_op
  rel-Sound k le =
      level-Sound extend sub rel_op (parse_add extend sub k) k (λ text rest. refl) (add-Sound k le)

  is_not_end : (text : Bytes) → is_not tok_eof text ≡ false
  unfolding is_not
  is_not_end text = refl

  not-Sound : (k : ℕ) → k ≤ suc n → Sound k (parse_not extend sub k)
  unfolding parse_not
  not-Sound k le [] h size = absurd h
  not-Sound zero le (t ∷ rest) h size = absurd (omega (arith, size))
  not-Sound (suc k) le (t ∷ rest) h size =
      Good-either _ (is_not t.kind t.text) _ _
        (λ hit.
          Good-next (length rest) _ (parse_not extend sub k rest) _
            (not-Sound k (omega (arith, le)) rest
              (HasEnd-past t.kind rest h
                (not_end (λ i. is_not i t.text) t.kind (is_not_end t.text) hit))
              (omega (arith, size)))
            λ x last ended less. (ended, omega (arith, less)))
        λ other. rel-Sound (suc k) le (t ∷ rest) h size

  and-Sound : (k : ℕ) → k ≤ suc n → Sound k (parse_and extend sub k)
  unfolding parse_and and_op
  and-Sound k le =
      level-Sound extend sub and_op (parse_not extend sub k) k (λ text rest. refl) (not-Sound k le)

  or-Sound : (k : ℕ) → k ≤ suc n → Sound k (parse_or extend sub k)
  unfolding parse_or or_op
  or-Sound k le =
      level-Sound extend sub or_op (parse_and extend sub k) k (λ text rest. refl) (and-Sound k le)

expr-Sound : (extend : Bool) (d : ℕ) → Sound d (parse_expr extend d)
unfolding parse_expr
expr-Sound extend zero [] h size = absurd h
expr-Sound extend zero (t ∷ rest) h size = absurd (omega (arith, size))
expr-Sound extend (suc d) toks h size =
    or-Sound extend (parse_expr extend d) d (expr-Sound extend d) (suc d) (omega arith) toks h size

-- On tokens with an end, the parser of expressions comes to an end itself, never looks behind the last
-- token, and either refuses them or gives an expression with fewer tokens left, the end still among
-- them; as many rounds as there are tokens are enough, for every level and every loop.
pub parse_expression-Good :
    (extend : Bool) (toks : List Token)
    → HasEnd toks
    → Good (length toks) (parse_expression extend toks)
unfolding parse_expression
parse_expression-Good extend toks h = expr-Sound extend (length toks) toks h (omega arith)
