-- ===== src/Tests/Parsing.antt =====
-- Expressions from their tokens.
use rsts_e_v7_2_lookalike.Prelude.{ℕ, ◌≡◌, refl, inl, inr, false, List, [], ◌∷◌, length}
use rsts_e_v7_2_lookalike.Text.Ascii.{codes}
use rsts_e_v7_2_lookalike.Basic.Token.{
  tok_eof, tok_number, tok_ident, tok_op, tok_l_paren, tok_r_paren, Token, worded,
}
use rsts_e_v7_2_lookalike.Basic.Expr.{num_lit, var_ref, bin_expr, none_left, and_then}
use rsts_e_v7_2_lookalike.Basic.Machine.Operators.{op_mul, op_sub}
use rsts_e_v7_2_lookalike.Basic.Parser.Answer.{found}
use rsts_e_v7_2_lookalike.Basic.Parser.Expression.{parse_expression}
use rsts_e_v7_2_lookalike.Basic.Parser.Progress.{Good}
use rsts_e_v7_2_lookalike.Basic.Parser.Total.{parse_expression-Good}

abbrev number_token : ℕ → Token
number_token n = record { kind = tok_number; num = n; text = []; pos = 0 }

abbrev the_end : List Token
the_end = worded tok_eof [] 9 ∷ []

-- `1-A(2)*3-4`
abbrev difference : List Token
difference =
    number_token 1
    ∷ worded tok_op (codes "-") 1
    ∷ worded tok_ident (codes "A") 2
    ∷ worded tok_l_paren [] 3
    ∷ number_token 2
    ∷ worded tok_r_paren [] 5
    ∷ worded tok_op (codes "*") 6
    ∷ number_token 3
    ∷ worded tok_op (codes "-") 8
    ∷ number_token 4
    ∷ the_end

-- Products bind closer than differences, and differences group to the left.
difference_parses :
    parse_expression false difference
    ≡ found
        (bin_expr op_sub
          (bin_expr op_sub
            (num_lit 1)
            (bin_expr op_mul (var_ref (codes "A") (and_then (num_lit 2) none_left)) (num_lit 3)))
          (num_lit 4))
        the_end
unfolding parse_expression
difference_parses = refl

parse_expression-Good_example : Good (length difference) (parse_expression false difference)
parse_expression-Good_example =
    parse_expression-Good false difference
      (inr (inr (inr (inr (inr (inr (inr (inr (inr (inr (inl refl)))))))))))
