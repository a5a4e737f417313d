-- ===== src/Basic/Compiler.antt =====
-- The compiler of BASIC-PLUS (pcode_compile.go): the tables of strings and numbers, the writing of
-- code, and expressions. The map `strMap` of the source is the search in the table of strings, of
-- which it is the index.
pub mod Growth
pub mod Tables
use rsts_e_v7_2_lookalike.Prelude.{
  ℕ, zero, suc, ◌+◌, ◌*◌, ◌/◌, ◌%◌, Bool, true, false, Option, none, some, List, [], ◌∷◌, ◌++◌, leb,
  ltb, ◌==◌, if◌then◌else◌, length,
}
use rsts_e_v7_2_lookalike.Prelude.Int.{ℤ, pos}
use rsts_e_v7_2_lookalike.Bytes.Reader.{Bytes}
use rsts_e_v7_2_lookalike.Bytes.Magic.{bytes_eq}
use rsts_e_v7_2_lookalike.Basic.Machine.{Arithmetic}
use rsts_e_v7_2_lookalike.Basic.Machine.Operators.{BinOp, bin_op_code}
use rsts_e_v7_2_lookalike.Basic.Expr.{
  UnaryOp, minus, plus, complement, Expr, num_lit, str_lit, var_ref, call_expr, unary_expr,
  bin_expr, Exprs, none_left, and_then, how_many,
}

-- `c.img`, as far as expressions are concerned.
pub record Compiler : Type 0 where
  pub strings : List Bytes
  pub nums : List ℕ
  pub code : Bytes

abbrev pub new_compiler : Compiler
new_compiler = record { strings = []; nums = []; code = [] }

-- The place of a string in a table, counted from `i` on.
unfoldable pub string_index : ℕ → List Bytes → Bytes → Option ℕ
string_index i [] s = none
string_index i (t ∷ strings) s = if bytes_eq t s then some i else string_index (i + 1) strings s

-- The place of a number, by its bits.
unfoldable pub num_index : ℕ → List ℕ → ℕ → Option ℕ
num_index i [] n = none
num_index i (m ∷ nums) n = if m == n then some i else num_index (i + 1) nums n

-- The index of the string, and the table with it. A table of 65534 strings takes no more, and the
-- index is then 0.
abbrev pub interned : List Bytes → Bytes → Option ℕ → ℕ × List Bytes
interned strings s (some i) = (i, strings)
interned strings s none =
    if leb 65534 (length strings) then (0, strings) else (length strings, strings ++ s ∷ [])

unfoldable pub intern : List Bytes → Bytes → ℕ × List Bytes
unfolding string_index bytes_eq
intern strings s = interned strings s (string_index 0 strings s)

abbrev pub interned_num : List ℕ → ℕ → Option ℕ → ℕ × List ℕ
interned_num nums n (some i) = (i % 65536, nums)
interned_num nums n none = (length nums % 65536, nums ++ n ∷ [])

unfoldable pub intern_num : List ℕ → ℕ → ℕ × List ℕ
unfolding num_index
intern_num nums n = interned_num nums n (num_index 0 nums n)

unfoldable pub emit : ℕ → Compiler → Compiler
emit op c = record c { code = c.code ++ op ∷ [] }

abbrev pub u16_bytes : ℕ → Bytes
u16_bytes v = v % 256 ∷ v / 256 % 256 ∷ []

-- `c.emit(op)`, then `c.emitU16(c.intern(s))`.
unfoldable pub emit_string : ℕ → Bytes → Compiler → Compiler
unfolding intern
emit_string op s c =
    let (i, strings) = intern c.strings s in
    record c { strings = strings; code = c.code ++ op ∷ u16_bytes i }

-- The same, and then `c.emitU8(byte(n))`.
unfoldable pub emit_counted : ℕ → Bytes → ℕ → Compiler → Compiler
unfolding intern
emit_counted op s n c =
    let (i, strings) = intern c.strings s in
    record c { strings = strings; code = c.code ++ op ∷ (u16_bytes i ++ n % 256 ∷ []) }

unfoldable pub emit_num : ℕ → Compiler → Compiler
unfolding intern_num
emit_num n c =
    let (i, nums) = intern_num c.nums n in
    record c { nums = nums; code = c.code ++ 2 ∷ u16_bytes i }

abbrev pub unary_code : UnaryOp → ℕ
unary_code minus = 25
unary_code plus = 26
unary_code complement = 24

module _ (ar : Arithmetic) where
  unfoldable mutual
    unfolding emit emit_string emit_counted emit_num bin_op_code

    -- `c.expr(e)`. Every operator of the grammar has an instruction, so there is no error.
    pub expr : Expr → Compiler → Compiler
    expr (num_lit v) c = if ar.eq v (ar.from_int (pos 1)) then emit 4 c else emit_num v c
    expr (str_lit s) c = emit_string 3 s c
    expr (var_ref name none_left) c = emit_string 5 name c
    expr (var_ref name (and_then e es)) c =
        emit_counted 7 name (suc (how_many es)) (exprs es (expr e c))
    expr (unary_expr op x) c = emit (unary_code op) (expr x c)
    expr (bin_expr op l r) c = emit (bin_op_code op) (expr r (expr l c))
    expr (call_expr name args) c = emit_counted 27 name (how_many args) (exprs args c)

    pub exprs : Exprs → Compiler → Compiler
    exprs none_left c = c
    exprs (and_then e es) c = exprs es (expr e c)
