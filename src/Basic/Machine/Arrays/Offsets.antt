-- ===== src/Basic/Machine/Arrays/Offsets.antt =====
-- Offsets of the elements of an array: they lie inside the slice, and different subscripts have
-- different ones.
use rsts_e_v7_2_lookalike.Prelude.{
  ℕ, ◌+◌, ◌*◌, ◌%◌, ◌<◌, ◌≤◌, ◌≡◌, refl, ap, sym, ◌∙◌, none, some, List, [], ◌∷◌, arith, ltb,
  Bool-cases, inl, inr,
}
use native.Mathlib.Nat.{
  mul-le-mul_left, mul_assoc, eq_of_mul-eq-mul_left, add-mul-mod_self_left, mod-eq_of_lt,
}
use rsts_e_v7_2_lookalike.Prelude.Int.{ℤ, pos, negsuc}
use rsts_e_v7_2_lookalike.Basic.Machine.Arrays.{offset_from, size_of}

-- One subscript of those that have an offset.
one_subscript :
    (off stride d i : ℕ) (dims : List ℕ) (idxs : List ℤ) (o : ℕ)
    → offset_from off stride (d ∷ dims) (pos i ∷ idxs) ≡ some o
    → (i ≤ d) × (offset_from (off + i * stride) (stride * (d + 1)) dims idxs ≡ some o)
unfolding offset_from
one_subscript off stride d i dims idxs o e = elim (Bool-cases (ltb d i)) [
  | inl above ↦ let no : none ≡ some o = rw above at e in cc no
  | inr within ↦ (ground arith, rw within at e)
]

pub offset_from_bound :
    (off stride : ℕ) (dims : List ℕ) (idxs : List ℤ) (o : ℕ)
    → offset_from off stride dims idxs ≡ some o
    → o + stride ≤ off + stride * size_of dims
unfolding offset_from size_of
offset_from_bound off stride [] [] o e = let same : off ≡ o = cc e in omega (arith, same)
offset_from_bound off stride [] (i ∷ idxs) o e = cc e
offset_from_bound off stride (d ∷ dims) [] o e = cc e
offset_from_bound off stride (d ∷ dims) (negsuc i ∷ idxs) o e = cc e
offset_from_bound off stride (d ∷ dims) (pos i ∷ idxs) o e =
    let (low, rest) = one_subscript off stride d i dims idxs o e in
    let bound = offset_from_bound (off + i * stride) (stride * (d + 1)) dims idxs o rest in
    let size = mul_assoc stride (d + 1) (size_of dims) in
    let below = mul-le-mul_left stride low in omega (arith, bound, size, below, low)

-- Past its first subscript an offset moves by whole strides.
offset_from_strides :
    (off stride : ℕ) (dims : List ℕ) (idxs : List ℤ) (o : ℕ)
    → offset_from off stride dims idxs ≡ some o
    → (q : ℕ) × (o ≡ off + stride * q)
unfolding offset_from
offset_from_strides off stride [] [] o e = let same : off ≡ o = cc e in (0, omega (arith, same))
offset_from_strides off stride [] (i ∷ idxs) o e = cc e
offset_from_strides off stride (d ∷ dims) [] o e = cc e
offset_from_strides off stride (d ∷ dims) (negsuc i ∷ idxs) o e = cc e
offset_from_strides off stride (d ∷ dims) (pos i ∷ idxs) o e =
    let (low, rest) = one_subscript off stride d i dims idxs o e in
    let (q, at) = offset_from_strides (off + i * stride) (stride * (d + 1)) dims idxs o rest in
    let moved = mul_assoc stride (d + 1) q in (i + (d + 1) * q, omega (arith, at, moved))

same_first :
    (stride d i j q r : ℕ)
    → 0 < stride
    → i ≤ d
    → j ≤ d
    → stride * (i + (d + 1) * q) ≡ stride * (j + (d + 1) * r)
    → i ≡ j
same_first stride d i j q r positive low_i low_j e =
    let same = eq_of_mul-eq-mul_left stride positive (i + (d + 1) * q) (j + (d + 1) * r) e in
    sym (mod-eq_of_lt (omega (arith, low_i)))
    ∙ sym (add-mul-mod_self_left i (d + 1) q)
    ∙ ap (λ n. n % (d + 1)) same
    ∙ add-mul-mod_self_left j (d + 1) r
    ∙ mod-eq_of_lt (omega (arith, low_j))

-- Two subscripts with the same offset are the same.
pub offset_from-injective :
    (off stride : ℕ) (dims : List ℕ) (idxs jdxs : List ℤ) (o : ℕ)
    → 0 < stride
    → offset_from off stride dims idxs ≡ some o
    → offset_from off stride dims jdxs ≡ some o
    → idxs ≡ jdxs
unfolding offset_from
offset_from-injective off stride [] [] [] o positive e f = refl
offset_from-injective off stride [] (i ∷ idxs) jdxs o positive e f = cc e
offset_from-injective off stride [] [] (j ∷ jdxs) o positive e f = cc f
offset_from-injective off stride (d ∷ dims) [] jdxs o positive e f = cc e
offset_from-injective off stride (d ∷ dims) (negsuc i ∷ idxs) jdxs o positive e f = cc e
offset_from-injective off stride (d ∷ dims) (pos i ∷ idxs) [] o positive e f = cc f
offset_from-injective off stride (d ∷ dims) (pos i ∷ idxs) (negsuc j ∷ jdxs) o positive e f = cc f
offset_from-injective off stride (d ∷ dims) (pos i ∷ idxs) (pos j ∷ jdxs) o positive e f =
    let (low_i, rest_i) = one_subscript off stride d i dims idxs o e in
    let (low_j, rest_j) = one_subscript off stride d j dims jdxs o f in
    let (q, at_i) = offset_from_strides (off + i * stride) (stride * (d + 1)) dims idxs o rest_i in
    let (r, at_j) = offset_from_strides (off + j * stride) (stride * (d + 1)) dims jdxs o rest_j in
    let moved_i = mul_assoc stride (d + 1) q in
    let moved_j = mul_assoc stride (d + 1) r in
    let first : i ≡ j =
      same_first stride d i j q r positive low_i low_j
        (omega (arith, at_i, at_j, moved_i, moved_j)) in
    let rest_i' : offset_from (off + j * stride) (stride * (d + 1)) dims idxs ≡ some o =
      ap (λ n. offset_from (off + n * stride) (stride * (d + 1)) dims idxs) (sym first) ∙ rest_i in
    let rest : idxs ≡ jdxs =
      offset_from-injective (off + j * stride) (stride * (d + 1)) dims idxs jdxs o
        (omega (arith, positive)) rest_i' rest_j in
    ap (λ n. pos n ∷ idxs) first ∙ ap (λ l. pos j ∷ l) rest
