-- ===== src/Basic/Compiler/Growth.antt =====
-- The compiler only adds to its tables and its code, so that what an instruction refers to is still
-- there in the finished image.
use rsts_e_v7_2_lookalike.Prelude.{
  ℕ, ◌≡◌, refl, ap, sym, ◌∙◌, Option, none, some, List, [], ◌∷◌, ◌++◌, leb, length, append_assoc,
  append-nil, Bool-cases, inl, inr,
}
use rsts_e_v7_2_lookalike.Prelude.Int.{pos}
use rsts_e_v7_2_lookalike.Bytes.Reader.{Bytes}
use rsts_e_v7_2_lookalike.Basic.Image.{Image}
use rsts_e_v7_2_lookalike.Basic.Machine.{Arithmetic}
use rsts_e_v7_2_lookalike.Basic.Expr.{
  Expr, num_lit, str_lit, var_ref, call_expr, unary_expr, bin_expr, Exprs, none_left, and_then,
}
use rsts_e_v7_2_lookalike.Basic.Compiler.{
  Compiler, string_index, num_index, interned, intern, interned_num, intern_num, emit, emit_string,
  emit_counted, emit_num, expr, exprs,
}

-- The second list is the first with more behind it.
abbrev pub IsPrefix {ℓ} : {A : Type ℓ} → List A → List A → Type ℓ
IsPrefix {A = A} xs ys = (more : List A) × (ys ≡ xs ++ more)

pub IsPrefix-refl {ℓ} : {A : Type ℓ} (xs : List A) → IsPrefix xs xs
IsPrefix-refl xs = ([], sym (append-nil xs))

pub IsPrefix-trans {ℓ} :
    {A : Type ℓ} (xs ys zs : List A) → IsPrefix xs ys → IsPrefix ys zs → IsPrefix xs zs
IsPrefix-trans xs ys zs (s, e) (t, f) = (s ++ t, f ∙ ap (λ z. z ++ t) e ∙ append_assoc xs s t)

pub record Grows (c d : Compiler) : Type 0 where
  pub strings : IsPrefix c.strings d.strings
  pub nums : IsPrefix c.nums d.nums
  pub code : IsPrefix c.code d.code

-- The image is the compiler's, or will be when more has been compiled.
pub record Within (c : Compiler) (img : Image) : Type 0 where
  pub strings : IsPrefix c.strings img.strings
  pub nums : IsPrefix c.nums img.nums
  pub code : IsPrefix c.code img.code

pub Grows-refl : (c : Compiler) → Grows c c
Grows-refl c = record {
  strings = IsPrefix-refl c.strings;
  nums = IsPrefix-refl c.nums;
  code = IsPrefix-refl c.code;
}

pub Grows-trans : (a b c : Compiler) → Grows a b → Grows b c → Grows a c
Grows-trans a b c g h = record {
  strings = IsPrefix-trans a.strings b.strings c.strings g.strings h.strings;
  nums = IsPrefix-trans a.nums b.nums c.nums g.nums h.nums;
  code = IsPrefix-trans a.code b.code c.code g.code h.code;
}

pub Grows-Within : (c d : Compiler) (img : Image) → Grows c d → Within d img → Within c img
Grows-Within c d img g h = record {
  strings = IsPrefix-trans c.strings d.strings img.strings g.strings h.strings;
  nums = IsPrefix-trans c.nums d.nums img.nums g.nums h.nums;
  code = IsPrefix-trans c.code d.code img.code g.code h.code;
}

intern-IsPrefix : (strings : List Bytes) (s : Bytes) → IsPrefix strings (intern strings s).1
unfolding intern
intern-IsPrefix strings s = go (string_index 0 strings s)
  where
    go : (o : Option ℕ) → IsPrefix strings (interned strings s o).1
    go (some i) = IsPrefix-refl strings
    go none = elim (Bool-cases (leb 65534 (length strings))) [
      | inl full ↦ rw full (IsPrefix-refl strings)
      | inr room ↦ rw room (s ∷ [], refl)
    ]

intern_num-IsPrefix : (nums : List ℕ) (n : ℕ) → IsPrefix nums (intern_num nums n).1
unfolding intern_num
intern_num-IsPrefix nums n = go (num_index 0 nums n)
  where
    go : (o : Option ℕ) → IsPrefix nums (interned_num nums n o).1
    go (some i) = IsPrefix-refl nums
    go none = (n ∷ [], refl)

pub emit-Grows : (op : ℕ) (c : Compiler) → Grows c (emit op c)
unfolding emit
emit-Grows op c = record {
  strings = IsPrefix-refl c.strings;
  nums = IsPrefix-refl c.nums;
  code = (op ∷ [], refl);
}

pub emit_string-Grows : (op : ℕ) (s : Bytes) (c : Compiler) → Grows c (emit_string op s c)
unfolding emit_string
emit_string-Grows op s c = record {
  strings = intern-IsPrefix c.strings s;
  nums = IsPrefix-refl c.nums;
  code = (_, refl);
}

pub emit_counted-Grows :
    (op : ℕ) (s : Bytes) (n : ℕ) (c : Compiler) → Grows c (emit_counted op s n c)
unfolding emit_counted
emit_counted-Grows op s n c = record {
  strings = intern-IsPrefix c.strings s;
  nums = IsPrefix-refl c.nums;
  code = (_, refl);
}

pub emit_num-Grows : (n : ℕ) (c : Compiler) → Grows c (emit_num n c)
unfolding emit_num
emit_num-Grows n c = record {
  strings = IsPrefix-refl c.strings;
  nums = intern_num-IsPrefix c.nums n;
  code = (_, refl);
}

module _ (ar : Arithmetic) where
  mutual
    unfolding expr exprs

    pub expr-Grows : (e : Expr) (c : Compiler) → Grows c (expr ar e c)
    expr-Grows (num_lit v) c = elim (Bool-cases (ar.eq v (ar.from_int (pos 1)))) [
      | inl one ↦ rw one (emit-Grows 4 c)
      | inr other ↦ rw other (emit_num-Grows v c)
    ]
    expr-Grows (str_lit s) c = emit_string-Grows 3 s c
    expr-Grows (var_ref name none_left) c = emit_string-Grows 5 name c
    expr-Grows (var_ref name (and_then e es)) c =
        Grows-trans _ _ _ (expr-Grows e c)
          (Grows-trans _ _ _ (exprs-Grows es (expr ar e c)) (emit_counted-Grows 7 name _ _))
    expr-Grows (unary_expr op x) c = Grows-trans _ _ _ (expr-Grows x c) (emit-Grows _ _)
    expr-Grows (bin_expr op l r) c =
        Grows-trans _ _ _ (expr-Grows l c)
          (Grows-trans _ _ _ (expr-Grows r (expr ar l c)) (emit-Grows _ _))
    expr-Grows (call_expr name args) c =
        Grows-trans _ _ _ (exprs-Grows args c) (emit_counted-Grows 27 name _ _)

    pub exprs-Grows : (es : Exprs) (c : Compiler) → Grows c (exprs ar es c)
    exprs-Grows none_left c = Grows-refl c
    exprs-Grows (and_then e es) c =
        Grows-trans _ _ _ (expr-Grows e c) (exprs-Grows es (expr ar e c))
