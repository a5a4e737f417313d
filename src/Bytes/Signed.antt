-- ===== src/Bytes/Signed.antt =====
-- Signed fields of the images: a word is read by `u32` or `u64`, and converted by `int32(x)`,
-- `int(x)` or `int64(x)`.
use rsts_e_v7_2_lookalike.Prelude.Int.{
  ℤ, pos, to_u32, to_i32, to_u64, to_i64, IsI32, IsI64, FitsU32, to_i32-to_u32, to_i64-to_u64,
  pos-to_u32, to_u32-lt, to_u64-lt,
}
use rsts_e_v7_2_lookalike.Bytes.Reader.{
  Bytes, Reader, pure, ◌>>=◌, Reads, Reads-end, Extends, Extends-bind, Extends-pure,
}
use rsts_e_v7_2_lookalike.Bytes.Words.{
  put_u32, put_u64, u32, u64, Reads-u32, Reads-u64, Extends-u32, Extends-u64,
}
use mathlib.Core.Path.{subst}

unfoldable pub put_int : ℤ → Bytes
put_int z = put_u32 (to_u32 z)

unfoldable pub put_i64 : ℤ → Bytes
put_i64 z = put_u64 (to_u64 z)

-- `int32(x)` of the next word.
unfoldable pub i32 : Reader ℤ
i32 = do v ← u32; pure (to_i32 v)

-- `int(x)` of the next word: `int` has 64 bits, so it is never negative.
unfoldable pub int : Reader ℤ
int = do v ← u32; pure (pos v)

-- `int64(x)` of the next two words.
unfoldable pub i64 : Reader ℤ
i64 = do v ← u64; pure (to_i64 v)

pub Reads-i32 : (z : ℤ) → IsI32 z → Reads i32 (put_int z) z
unfolding i32 put_int
Reads-i32 z h =
    subst (λ y. Reads i32 (put_int z) y) (to_i32-to_u32 z h)
      (Reads-end to_i32 (Reads-u32 (to_u32 z) (to_u32-lt z)))

pub Reads-int : (z : ℤ) → FitsU32 z → Reads int (put_int z) z
unfolding int put_int
Reads-int z h =
    subst (λ y. Reads int (put_int z) y) (pos-to_u32 z h)
      (Reads-end pos (Reads-u32 (to_u32 z) (to_u32-lt z)))

pub Reads-i64 : (z : ℤ) → IsI64 z → Reads i64 (put_i64 z) z
unfolding i64 put_i64
Reads-i64 z h =
    subst (λ y. Reads i64 (put_i64 z) y) (to_i64-to_u64 z h)
      (Reads-end to_i64 (Reads-u64 (to_u64 z) (to_u64-lt z)))

pub Extends-i32 : Extends i32
unfolding i32
Extends-i32 = Extends-bind Extends-u32 (λ v. Extends-pure (to_i32 v))

pub Extends-int : Extends int
unfolding int
Extends-int = Extends-bind Extends-u32 (λ v. Extends-pure (pos v))

pub Extends-i64 : Extends i64
unfolding i64
Extends-i64 = Extends-bind Extends-u64 (λ v. Extends-pure (to_i64 v))
