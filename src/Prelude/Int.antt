-- ===== src/Prelude/Int.antt =====
-- Go's signed integers, and the two's complement bit patterns that the image codecs write.
use Prim.Native.Nat.{ℕ, ◌-◌, ◌%◌, ◌^◌, ◌<◌}
use mathlib.Core.Path.{◌≡◌, refl}
use mathlib.Core.Bool.{Bool, true, false}
use native.Mathlib.Omega.{arith}
use rsts_e_v7_2_lookalike.Prelude.Tests.{ltb, ◌==◌, if◌then◌else◌}

-- `negsuc n` is -(n + 1).
pub data ℤ : Type 0 where
  pos : ℕ → ℤ
  negsuc : ℕ → ℤ

-- `uint32(x)`: the low 32 bits of an `int` or an `int32`.
unfoldable pub to_u32 : ℤ → ℕ
to_u32 (pos n) = n % 2 ^ 32
to_u32 (negsuc n) = 2 ^ 32 - 1 - n % 2 ^ 32

-- `int32(x)` of an `uint32`.
unfoldable pub to_i32 : ℕ → ℤ
to_i32 n = if ltb n (2 ^ 31) then pos n else negsuc (2 ^ 32 - 1 - n)

-- `uint64(x)` of an `int64`.
unfoldable pub to_u64 : ℤ → ℕ
to_u64 (pos n) = n % 2 ^ 64
to_u64 (negsuc n) = 2 ^ 64 - 1 - n % 2 ^ 64

-- `int64(x)` of an `uint64`.
unfoldable pub to_i64 : ℕ → ℤ
to_i64 n = if ltb n (2 ^ 63) then pos n else negsuc (2 ^ 64 - 1 - n)

-- The range of an `int32`.
abbrev pub IsI32 : ℤ → Type 0
IsI32 (pos n) = n < 2 ^ 31
IsI32 (negsuc n) = n < 2 ^ 31

-- The range of an `int64`.
abbrev pub IsI64 : ℤ → Type 0
IsI64 (pos n) = n < 2 ^ 63
IsI64 (negsuc n) = n < 2 ^ 63

-- An `int` that an `uint32` holds.
abbrev pub FitsU32 : ℤ → Type 0
FitsU32 (pos n) = n < 2 ^ 32
FitsU32 (negsuc n) = ⊥

pub to_i32-to_u32 : (z : ℤ) → IsI32 z → to_i32 (to_u32 z) ≡ z
unfolding to_i32 to_u32
to_i32-to_u32 (pos n) h = ground arith
to_i32-to_u32 (negsuc n) h = ground arith

pub to_i64-to_u64 : (z : ℤ) → IsI64 z → to_i64 (to_u64 z) ≡ z
unfolding to_i64 to_u64
to_i64-to_u64 (pos n) h = ground arith
to_i64-to_u64 (negsuc n) h = ground arith

pub pos-to_u32 : (z : ℤ) → FitsU32 z → pos (to_u32 z) ≡ z
unfolding to_u32
pos-to_u32 (pos n) h = ground arith
pos-to_u32 (negsuc n) h = absurd h

pub to_u32-lt : (z : ℤ) → to_u32 z < 2 ^ 32
unfolding to_u32
to_u32-lt (pos n) = omega arith
to_u32-lt (negsuc n) = omega arith

pub to_u64-lt : (z : ℤ) → to_u64 z < 2 ^ 64
unfolding to_u64
to_u64-lt (pos n) = omega arith
to_u64-lt (negsuc n) = omega arith

-- `==` of two `int`s.
unfoldable pub eq_ℤ : ℤ → ℤ → Bool
eq_ℤ (pos a) (pos b) = a == b
eq_ℤ (negsuc a) (negsuc b) = a == b
eq_ℤ _ _ = false

pub eq_ℤ-refl : (a : ℤ) → eq_ℤ a a ≡ true
unfolding eq_ℤ
eq_ℤ-refl (pos a) = ground arith
eq_ℤ-refl (negsuc a) = ground arith

pub eq_ℤ_sound : (a b : ℤ) → eq_ℤ a b ≡ true → a ≡ b
unfolding eq_ℤ
eq_ℤ_sound (pos a) (pos b) h = ground arith
eq_ℤ_sound (pos a) (negsuc b) h = cc
eq_ℤ_sound (negsuc a) (pos b) h = cc
eq_ℤ_sound (negsuc a) (negsuc b) h = ground arith

pub eq_ℤ-sym : (a b : ℤ) → eq_ℤ a b ≡ eq_ℤ b a
unfolding eq_ℤ
eq_ℤ-sym (pos a) (pos b) = ground arith
eq_ℤ-sym (pos a) (negsuc b) = refl
eq_ℤ-sym (negsuc a) (pos b) = refl
eq_ℤ-sym (negsuc a) (negsuc b) = ground arith
