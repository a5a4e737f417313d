-- ===== src/Basic/Parser/Progress.antt =====
-- Parts of the parser that take at least one token and stay inside the tokens, and the loop of a level
-- of precedence.
use rsts_e_v7_2_lookalike.Prelude.{
  ℕ, zero, suc, ◌<◌, ◌≤◌, ◌≡◌, refl, ap, sym, ◌∙◌, ◌⊎◌, inl, inr, Bool, true, false, not, ◌&&◌,
  ◌||◌, Option, none, some, List, [], ◌∷◌, arith, if◌then◌else◌, length,
}
use rsts_e_v7_2_lookalike.Bytes.Reader.{Bytes}
use rsts_e_v7_2_lookalike.Basic.Token.{TokKind, tok_eof, Token, among}
use rsts_e_v7_2_lookalike.Basic.Expr.{Expr, var_ref, call_expr, bin_expr, Exprs, none_left}
use rsts_e_v7_2_lookalike.Basic.Machine.Operators.{BinOp}
use rsts_e_v7_2_lookalike.Basic.Parser.Names.{builtins, is_fn, check_ident}
use rsts_e_v7_2_lookalike.Basic.Parser.Answer.{
  Answer, found, refused, panicked, starved, Parser, next, expect,
}
use rsts_e_v7_2_lookalike.Basic.Parser.Operators.{OperatorAt}
use rsts_e_v7_2_lookalike.Basic.Parser.Expression.{
  is_constant, named_call, bare_name, combined, chain, level,
}

-- A token of the end is among the tokens.
abbrev pub HasEnd : List Token → Type 0
HasEnd [] = ⊥
HasEnd (t ∷ rest) = (t.kind ≡ tok_eof) ⊎ HasEnd rest

-- A value with fewer than `bound` tokens left, the end among them, or the error of the parser.
abbrev pub Good : {A : Type 0} → ℕ → Answer A → Type 0
Good bound (found a rest) = HasEnd rest × (length rest < bound)
Good bound refused = Unit {0}
Good bound panicked = ⊥
Good bound starved = ⊥

-- The parser takes at least one token, where there are at most `n`.
abbrev pub Sound : {A : Type 0} → ℕ → Parser A → Type 0
Sound n p = (toks : List Token) → HasEnd toks → length toks ≤ n → Good (length toks) (p toks)

pub Good-next :
    {A B : Type 0} (b c : ℕ) (r : Answer A) (k : A → Parser B)
    → Good b r
    → ((a : A) (rest : List Token) → HasEnd rest → length rest < b → Good c (k a rest))
    → Good c (next r k)
Good-next b c (found a rest) k h f = f a rest h.0 h.1
Good-next b c refused k h f = tt
Good-next b c panicked k h f = absurd h
Good-next b c starved k h f = absurd h

pub Good-wider : {A : Type 0} (b c : ℕ) (r : Answer A) → b ≤ c → Good b r → Good c r
Good-wider b c (found a rest) le h = (h.0, (let low = h.1 in omega (arith, le, low)))
Good-wider b c refused le h = tt
Good-wider b c panicked le h = h
Good-wider b c starved le h = h

pub Good-either :
    {A : Type 0} (c : ℕ) (b : Bool) (x y : Answer A)
    → (b ≡ true → Good c x)
    → (b ≡ false → Good c y)
    → Good c (if b then x else y)
Good-either c true x y f g = f refl
Good-either c false x y f g = g refl

pub HasEnd-past :
    (kind : TokKind) (rest : List Token)
    → (kind ≡ tok_eof) ⊎ HasEnd rest
    → (kind ≡ tok_eof → ⊥)
    → HasEnd rest
HasEnd-past kind rest (inl e) h = absurd (h e)
HasEnd-past kind rest (inr e) h = e

pub Good-choice :
    {A : Type 0} (c : ℕ) (b : Bool) (p q : Parser A) (toks : List Token)
    → Good c (p toks)
    → Good c (q toks)
    → Good c ((if b then p else q) toks)
Good-choice c true p q toks f g = f
Good-choice c false p q toks f g = g

-- A token that a test takes is no end, if the test does not take the end.
pub not_end :
    (test : TokKind → Bool) (kind : TokKind)
    → test tok_eof ≡ false
    → test kind ≡ true
    → kind ≡ tok_eof
    → ⊥
not_end test kind never hit e = let both : true ≡ false = sym hit ∙ ap test e ∙ never in cc both

pub expect-Good :
    (wanted : TokKind → Bool) (toks : List Token)
    → wanted tok_eof ≡ false
    → HasEnd toks
    → Good (length toks) (expect wanted toks)
unfolding expect
expect-Good wanted [] never h = absurd h
expect-Good wanted (t ∷ rest) never h =
    Good-either _ (wanted t.kind) (found tt rest) refused
      (λ hit. (HasEnd-past t.kind rest h (not_end wanted t.kind never hit), omega arith))
      λ other. tt

pub named_call-Good :
    (extend : Bool) (name : Bytes) (args : Exprs) (toks : List Token)
    → HasEnd toks
    → Good (suc (length toks)) (named_call extend name args toks)
named_call-Good extend name args toks h =
    let here : Good {A = Expr} (suc (length toks)) (found (call_expr name args) toks) =
      (h, omega arith) in
    let there : Good {A = Expr} (suc (length toks)) (found (var_ref name args) toks) =
      (h, omega arith) in
    Good-choice _ (among name builtins || is_fn name) _ _ toks
      (Good-choice _ (is_fn name && not (check_ident extend name)) _ _ toks tt here)
      (Good-choice _ (check_ident extend name) _ _ toks there tt)

pub bare_name-Good :
    (extend : Bool) (name : Bytes) (toks : List Token)
    → HasEnd toks
    → Good (suc (length toks)) (bare_name extend name toks)
bare_name-Good extend name toks h =
    let here : Good {A = Expr} (suc (length toks)) (found (call_expr name none_left) toks) =
      (h, omega arith) in
    let there : Good {A = Expr} (suc (length toks)) (found (var_ref name none_left) toks) =
      (h, omega arith) in
    Good-choice _ (is_constant name) _ _ toks here
      (Good-choice _ (check_ident extend name) _ _ toks there tt)

-- What a level of precedence asks of its operators: the end is none.
abbrev pub NotAtEnd : OperatorAt → Type 0
NotAtEnd op = (text : Bytes) (rest : List Token) → op tok_eof text rest ≡ none

-- Operators of a level with operands of the next.
module _ (extend : Bool) (sub : Parser Expr) (op : OperatorAt) (operand : Parser Expr) (n : ℕ)
    (never : NotAtEnd op) (sound : Sound n operand) where
  combined-Good :
      (o : Option BinOp) (loop : Expr → Parser Expr) (left : Expr) (t : Token) (rest : List Token)
      → op t.kind t.text rest ≡ o
      → HasEnd (t ∷ rest)
      → length rest < n
      → ((e : Expr) (toks : List Token)
          → HasEnd toks
          → length toks < length rest
          → Good (suc (length toks)) (loop e toks))
      → Good (suc (suc (length rest))) (combined extend sub o operand loop left rest (t ∷ rest))
  combined-Good none loop left t rest e h size next_one = (h, omega arith)
  combined-Good (some o) loop left t rest e h size next_one =
      let past = HasEnd-past t.kind rest h λ at_end.
        let no_op : some o ≡ none = sym e ∙ ap (λ i. op i t.text rest) at_end ∙ never t.text rest in
        cc no_op in
      Good-next (length rest) _ (operand rest) (λ right. loop (bin_expr o left right))
        (sound rest past (omega (arith, size)))
        λ right after_it ends fewer.
          Good-wider _ _ (loop (bin_expr o left right) after_it) (omega (arith, fewer))
            (next_one (bin_expr o left right) after_it ends fewer)

  chain-Good :
      (k : ℕ) (left : Expr) (toks : List Token)
      → HasEnd toks
      → length toks ≤ k
      → length toks ≤ n
      → Good (suc (length toks)) (chain extend sub op operand k left toks)
  unfolding chain
  chain-Good k left [] h fuel size = absurd h
  chain-Good zero left (t ∷ rest) h fuel size = absurd (omega (arith, fuel))
  chain-Good (suc k) left (t ∷ rest) h fuel size =
      combined-Good (op t.kind t.text rest) (chain extend sub op operand k) left t rest refl h
        (omega (arith, size))
        λ e toks ends fewer.
          chain-Good k e toks ends (omega (arith, fewer, fuel)) (omega (arith, fewer, size))

  pub level-Sound : Sound n (level extend sub op operand n)
  level-Sound toks h size =
      Good-next (length toks) _ (operand toks) _ (sound toks h size) λ left rest ends fewer.
        Good-wider _ _ (chain extend sub op operand n left rest) (omega (arith, fewer))
          (chain-Good n left rest ends (omega (arith, fewer, size)) (omega (arith, fewer, size)))
