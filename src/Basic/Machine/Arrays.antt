-- ===== src/Basic/Machine/Arrays.antt =====
-- Arrays in memory (interp.go: `ensureArray`, `dimArray`, `offset`, `getArray`, `setArray`), and
-- assignment (`assign`, `coerceVar`). Virtual arrays, which live in a file, are not modelled. An
-- access outside the slice of an array's elements is a panic of the host.
pub mod Offsets
pub mod Elements
pub mod Access
pub mod Bounds
pub mod Laws
use rsts_e_v7_2_lookalike.Prelude.{
  ℕ, zero, suc, ◌+◌, ◌*◌, ◌%◌, ◌^◌, ◌&&◌, Bool, true, false, Option, none, some, List, [], ◌∷◌, leb,
  ltb, ◌==◌, if◌then◌else◌, length, get_elem?,
}
use rsts_e_v7_2_lookalike.Prelude.Int.{ℤ, pos, negsuc}
use rsts_e_v7_2_lookalike.Bytes.Reader.{Bytes}
use rsts_e_v7_2_lookalike.Bytes.Magic.{bytes_eq}
use rsts_e_v7_2_lookalike.Text.Ascii.{codes}
use rsts_e_v7_2_lookalike.Basic.Image.{Value, text, num}
use rsts_e_v7_2_lookalike.Basic.Error.{Outcome, done, raised, crashed, Program, give, after, ◌>>=◌}
use rsts_e_v7_2_lookalike.Basic.Machine.{
  Arithmetic, ArrayInfo, Machine, complain, num_val, number, num_scaled, apply_scale, str_val,
  set_key, ends_in, fill, set_var,
}

-- `make([]value, size)`, filled.
unfoldable pub replicate : ℕ → Value → List Value
replicate zero v = []
replicate (suc n) v = v ∷ replicate n v

-- The bounds as natural numbers, if none is negative.
unfoldable pub naturals : List ℤ → Option (List ℕ)
naturals [] = some []
naturals (negsuc n ∷ bounds) = none
naturals (pos n ∷ bounds) = elim (naturals bounds) [ none ↦ none | some ns ↦ some (n ∷ ns) ]

-- `size *= b + 1` for each bound, before it wraps at 64 bits.
unfoldable pub size_of : List ℕ → ℕ
size_of [] = 1
size_of (d ∷ dims) = (d + 1) * size_of dims

abbrev out_of_range : {A : Type 0} → Program Machine A
out_of_range = complain (codes "Subscript out of range")

-- `info.dims` against the subscripts: the offset with its stride so far, before it wraps.
unfoldable pub offset_from : ℕ → ℕ → List ℕ → List ℤ → Option ℕ
offset_from off stride [] [] = some off
offset_from off stride (d ∷ dims) (pos i ∷ idxs) =
    let rest = offset_from (off + i * stride) (stride * (d + 1)) dims idxs in
    if ltb d i then none else rest
offset_from off stride _ _ = none

-- The element at an index, with another in its place.
unfoldable pub set_elem : List Value → ℕ → Value → Option (List Value)
set_elem [] i v = none
set_elem (w ∷ items) zero v = some (v ∷ items)
set_elem (w ∷ items) (suc i) v = elim (set_elem items i v) [
  | none ↦ none
  | some after ↦ some (w ∷ after)
]

module _ (ar : Arithmetic) where
  abbrev pub fresh_array : Bytes → List ℕ → ℕ → ArrayInfo
  fresh_array name dims size = record { dims = dims; items = replicate size (fill ar name) }

  abbrev pub put_array : Machine → Bytes → ArrayInfo → Machine
  put_array m name info = record m { arrays = set_key m.arrays name (some info) }

  -- `make([]value, size)` panics where the size wrapped to a negative one, or is more than the host
  -- makes.
  abbrev pub made : Bytes → List ℕ → ℕ → Program Machine (Unit {0})
  made name dims size m =
      if ltb size (2 ^ 63) && ar.makes size
      then (done tt, put_array m name (fresh_array name dims size))
      else (crashed, m)

  abbrev pub with_dims : Bytes → Option (List ℕ) → Program Machine (Unit {0})
  with_dims name none = out_of_range
  with_dims name (some dims) = made name dims (size_of dims % 2 ^ 64)

  unfoldable pub dim_array : Bytes → List ℤ → Program Machine (Unit {0})
  unfolding naturals size_of replicate bytes_eq fill
  dim_array name bounds = with_dims name (naturals bounds)

  -- A subscript of 10 for each of the subscripts used, or for one if there is none.
  unfoldable pub default_bounds : List ℤ → List ℤ
  default_bounds [] = pos 10 ∷ []
  default_bounds (i ∷ []) = pos 10 ∷ []
  default_bounds (i ∷ j ∷ idxs) = pos 10 ∷ default_bounds (j ∷ idxs)

  abbrev pub ensured : Bytes → List ℤ → Option ArrayInfo → Program Machine (Unit {0})
  ensured name idxs none = dim_array name (default_bounds idxs)
  ensured name idxs (some info) = give tt

  unfoldable pub ensure_array : Bytes → List ℤ → Program Machine (Unit {0})
  unfolding dim_array default_bounds
  ensure_array name idxs m = ensured name idxs (m.arrays name) m

  -- The offset wraps at 64 bits; a negative one is outside every slice, as are those from 2 ^ 63 on.
  abbrev pub found_offset : Option ℕ → Program Machine ℕ
  found_offset none = out_of_range
  found_offset (some off) = give (off % 2 ^ 64)

  abbrev pub info_offset : List ℤ → Option ArrayInfo → Program Machine ℕ
  info_offset idxs none = λ m. (crashed, m)
  info_offset idxs (some info) = found_offset (offset_from 0 1 info.dims idxs)

  unfoldable pub offset : Bytes → List ℤ → Program Machine ℕ
  unfolding ensure_array offset_from
  offset name idxs = ensure_array name idxs >>= λ _ m. info_offset idxs (m.arrays name) m

  abbrev pub element : Option Value → Outcome Value
  element none = crashed
  element (some v) = done v

  abbrev pub element_of : ℕ → Option ArrayInfo → Outcome Value
  element_of off none = crashed
  element_of off (some info) = element (get_elem? info.items off)

  unfoldable pub get_array : Bytes → List ℤ → Program Machine Value
  unfolding offset
  get_array name idxs = offset name idxs >>= λ off m. (element_of off (m.arrays name), m)

  abbrev pub with_items :
      Machine → Bytes → ArrayInfo → Option (List Value) → Outcome (Unit {0}) × Machine
  with_items m name info none = (crashed, m)
  with_items m name info (some items) = (done tt, put_array m name (record info { items = items }))

  abbrev pub change : Machine → Bytes → ℕ → Value → Option ArrayInfo → Outcome (Unit {0}) × Machine
  change m name off v none = (crashed, m)
  change m name off v (some info) = with_items m name info (set_elem info.items off v)

  unfoldable pub set_array : Bytes → List ℤ → Value → Program Machine (Unit {0})
  unfolding offset set_elem
  set_array name idxs v = offset name idxs >>= λ off m. change m name off v (m.arrays name)

  unfoldable pub coerce_var : Bytes → Value → Program Machine Value
  unfolding ends_in str_val
  coerce_var name v =
      if ends_in b'$' name
      then give (text (str_val ar v))
      else (if ends_in b'%' name
          then (num_val v >>= λ n. give (number ar (ar.to_int (ar.round n))))
          else (num_val v >>= λ n m. (done (num_scaled ar m n), m)))

  abbrev pub store : Bytes → List ℤ → Value → Program Machine (Unit {0})
  store name [] v = λ m. (done tt, set_var m name v)
  store name (i ∷ idxs) v = set_array name (i ∷ idxs) v

  -- `m.assign` with the subscripts as integers, as the compiled program gives them.
  unfoldable pub assign : Bytes → List ℤ → Value → Program Machine (Unit {0})
  unfolding coerce_var set_array
  assign name idxs v = coerce_var name v >>= λ w. store name idxs w
