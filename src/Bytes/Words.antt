-- ===== src/Bytes/Words.antt =====
-- `putU32`, `putU64`, the closures `u32`, `u64` and `str`, and the one-byte reads of the image
-- codecs (pcode.go, pascal_pcode.go).
use rsts_e_v7_2_lookalike.Prelude.{
  ℕ, zero, suc, ◌+◌, ◌*◌, ◌/◌, ◌%◌, ◌^◌, ◌<◌, ◌≡◌, refl, ap, Bool, true, false, not, none, some, [],
  ◌∷◌, ◌++◌, arith, ◌==◌, if◌then◌else◌, length,
}
use mathlib.Core.Path.{subst}
use native.Mathlib.Nat.{pow-suc, mod-eq_of_lt}
use rsts_e_v7_2_lookalike.Bytes.Reader.{
  Bytes, Reader, pure, ◌>>=◌, chunk, Reads, Reads-bind, Reads-end, with_more, Reads-chunk, Extends,
  Extends-bind, Extends-pure, Extends-chunk,
}

-- The `k` low bytes of a word, the lowest first.
put_le : ℕ → ℕ → Bytes
put_le zero v = []
put_le (suc k) v = v % 256 ∷ put_le k (v / 256)

from_le : Bytes → ℕ
from_le [] = 0
from_le (b ∷ bs) = b + 256 * from_le bs

unfoldable pub put_u32 : ℕ → Bytes
unfolding put_le
put_u32 v = put_le 4 v

unfoldable pub put_u64 : ℕ → Bytes
unfolding put_le
put_u64 v = put_le 8 v

unfoldable pub u32 : Reader ℕ
unfolding chunk from_le
u32 = do bs ← chunk 4; pure (from_le bs)

unfoldable pub u64 : Reader ℕ
unfolding chunk from_le
u64 = do bs ← chunk 8; pure (from_le bs)

-- A string is its length and its bytes.
unfoldable pub put_str : Bytes → Bytes
unfolding put_u32
put_str s = put_u32 (length s % 2 ^ 32) ++ s

unfoldable pub str : Reader Bytes
unfolding u32
str = do n ← u32; chunk n

-- `boolByte`
unfoldable pub bool_byte : Bool → ℕ
bool_byte v = if v then 1 else 0

-- `if off >= len(p) { return err }`, then `p[off]` and `off++`.
unfoldable pub byte : Reader ℕ
byte [] = none
byte (b ∷ bs) = some (b, bs)

-- `p[off] != 0`
unfoldable pub flag : Reader Bool
unfolding byte
flag = do b ← byte; pure (not (b == 0))

-- `if off+2 > len(p) { return err }`, then `p[off] != 0, p[off+1] != 0` and `off += 2`.
unfoldable pub flags : Reader (Bool × Bool)
flags (a ∷ b ∷ bs) = some ((not (a == 0), not (b == 0)), bs)
flags _ = none

length-put_le : (k v : ℕ) → length (put_le k v) ≡ k
unfolding put_le
length-put_le zero v = refl
length-put_le (suc k) v = ap suc (length-put_le k (v / 256))

pub length-put_u32 : (v : ℕ) → length (put_u32 v) ≡ 4
unfolding put_u32
length-put_u32 v = length-put_le 4 v

from_le-put_le : (k v : ℕ) → v < 256 ^ k → from_le (put_le k v) ≡ v
unfolding put_le from_le
from_le-put_le zero v h = omega arith
from_le-put_le (suc k) v h =
    let room : v < 256 ^ k * 256 = rw pow-suc at h in
    omega (arith, from_le-put_le k (v / 256) (omega arith))

-- A word of `k` bytes, read back.
Reads-word : (k v : ℕ) → v < 256 ^ k → Reads (chunk k >>= λ bs. pure (from_le bs)) (put_le k v) v
Reads-word k v h =
    subst (λ w. Reads (chunk k >>= λ bs. pure (from_le bs)) (put_le k v) w) (from_le-put_le k v h)
      (Reads-end from_le (
        subst (λ n. Reads (chunk n) (put_le k v) (put_le k v)) (length-put_le k v)
          (Reads-chunk (put_le k v))))

pub Reads-u32 : (v : ℕ) → v < 2 ^ 32 → Reads u32 (put_u32 v) v
unfolding u32 put_u32
Reads-u32 v h = Reads-word 4 v h

pub Reads-u64 : (v : ℕ) → v < 2 ^ 64 → Reads u64 (put_u64 v) v
unfolding u64 put_u64
Reads-u64 v h = Reads-word 8 v h

pub Extends-u32 : Extends u32
unfolding u32
Extends-u32 = Extends-bind (Extends-chunk 4) (λ bs. Extends-pure (from_le bs))

pub Extends-u64 : Extends u64
unfolding u64
Extends-u64 = Extends-bind (Extends-chunk 8) (λ bs. Extends-pure (from_le bs))

-- A string shorter than 4 GB reads back.
pub Reads-str : (s : Bytes) → length s < 2 ^ 32 → Reads str (put_str s) s
unfolding str put_str
Reads-str s h = rw (mod-eq_of_lt h) (Reads-bind _ (Reads-u32 (length s) h) (Reads-chunk s))

pub Extends-str : Extends str
unfolding str
Extends-str = Extends-bind Extends-u32 Extends-chunk

byte_extends :
    (bs more : Bytes) (a : ℕ) (rest : Bytes)
    → byte bs ≡ some (a, rest)
    → byte (bs ++ more) ≡ some (a, rest ++ more)
unfolding byte
byte_extends [] more a rest h = cc
byte_extends (b ∷ bs) more a rest h = ap (with_more more) h

flags_extends :
    (bs more : Bytes) (a : Bool × Bool) (rest : Bytes)
    → flags bs ≡ some (a, rest)
    → flags (bs ++ more) ≡ some (a, rest ++ more)
unfolding flags
flags_extends [] more a rest h = cc
flags_extends (b ∷ []) more a rest h = cc
flags_extends (b ∷ c ∷ bs) more a rest h = ap (with_more more) h

pub Reads-byte : (b : ℕ) → Reads byte (b ∷ []) b
unfolding byte
Reads-byte b = record { run = λ rest. refl }

pub Extends-byte : Extends byte
Extends-byte = record { run = byte_extends }

pub Reads-flag : (v : Bool) → Reads flag (bool_byte v ∷ []) v
unfolding flag bool_byte
Reads-flag true = record { run = λ rest. refl }
Reads-flag false = record { run = λ rest. refl }

pub Extends-flag : Extends flag
unfolding flag
Extends-flag = Extends-bind Extends-byte (λ b. Extends-pure (not (b == 0)))

pub Reads-flags : (u v : Bool) → Reads flags (bool_byte u ∷ bool_byte v ∷ []) (u, v)
unfolding flags bool_byte
Reads-flags true true = record { run = λ rest. refl }
Reads-flags true false = record { run = λ rest. refl }
Reads-flags false true = record { run = λ rest. refl }
Reads-flags false false = record { run = λ rest. refl }

pub Extends-flags : Extends flags
Extends-flags = record { run = flags_extends }
