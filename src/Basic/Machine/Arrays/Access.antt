-- ===== src/Basic/Machine/Arrays/Access.antt =====
-- Access to arrays whose slices have the sizes that their bounds say.
use rsts_e_v7_2_lookalike.Prelude.{
  ℕ, ◌<◌, ◌%◌, ◌^◌, ◌&&◌, Bool, true, ltb, lt→ltb, ◌≡◌, refl, ap, sym, ◌∙◌, Option, none, some,
  List, [], ◌∷◌, arith, if◌then◌else◌, length, Bool-cases, Option-cases, inl, inr,
}
use mathlib.Core.Path.{subst}
use native.Mathlib.Nat.{mod-eq_of_lt}
use rsts_e_v7_2_lookalike.Prelude.Int.{ℤ}
use rsts_e_v7_2_lookalike.Bytes.Reader.{Bytes}
use rsts_e_v7_2_lookalike.Bytes.Magic.{bytes_eq, bytes_eq_refl}
use rsts_e_v7_2_lookalike.Basic.Image.{Value}
use rsts_e_v7_2_lookalike.Basic.Error.{Outcome, done, raised, crashed, after}
use rsts_e_v7_2_lookalike.Basic.Machine.{Arithmetic, ArrayInfo, Machine, fill}
use rsts_e_v7_2_lookalike.Basic.Machine.Arrays.{
  naturals, size_of, offset_from, fresh_array, put_array, made, with_dims, dim_array,
  default_bounds, ensured, ensure_array, found_offset, info_offset, offset, element, element_of,
  get_array, with_items, change, set_array,
}
use rsts_e_v7_2_lookalike.Basic.Machine.Arrays.Offsets.{offset_from_bound}
use rsts_e_v7_2_lookalike.Basic.Machine.Arrays.Elements.{
  length-replicate, get_elem?_in, set_elem_in,
}

-- An array whose slice has the size that its bounds say, which did not wrap.
abbrev pub Sized : ArrayInfo → Type 0
Sized info = (length info.items ≡ size_of info.dims) × (size_of info.dims < 2 ^ 63)

-- There is room for an array with the bounds: its size does not wrap, and the host makes the slice.
abbrev pub HasRoom : Arithmetic → List ℤ → Type 0
HasRoom ar bounds =
    (dims : List ℕ)
    → naturals bounds ≡ some dims
    → (size_of dims < 2 ^ 63) × (ar.makes (size_of dims) ≡ true)

-- Every array has as many elements as its bounds ask for, and they are no more than a slice can have.
abbrev pub ArraysFit : Machine → Type 0
ArraysFit m = (name : Bytes) (info : ArrayInfo) → m.arrays name ≡ some info → Sized info

-- A result without a panic, and the arrays still fit.
abbrev pub Safely : {A : Type 0} → Outcome A × Machine → Type 0
Safely (done a, m) = ArraysFit m
Safely (raised e, m) = ArraysFit m
Safely (crashed, m) = ⊥

module _ (ar : Arithmetic) where
  put_array-ArraysFit :
      (m : Machine) (name : Bytes) (info : ArrayInfo)
      → ArraysFit m
      → Sized info
      → ArraysFit (put_array ar m name info)
  put_array-ArraysFit m name info fit new other old e = elim (Bool-cases (bytes_eq other name)) [
    | inl same ↦
        let here : some info ≡ some old = rw same at e in
        let one : info ≡ old = cc here in subst Sized one new
    | inr different ↦ fit other old (rw different at e)
  ]

  pub put_array_here :
      (m : Machine) (name : Bytes) (info : ArrayInfo)
      → (put_array ar m name info).arrays name ≡ some info
  put_array_here m name info = ap (λ b. if b then some info else m.arrays name) (bytes_eq_refl name)

  -- Where there is room, the slice is made in full.
  made_lem :
      (m : Machine) (name : Bytes) (dims : List ℕ)
      → size_of dims < 2 ^ 63
      → ar.makes (size_of dims) ≡ true
      → made ar name dims (size_of dims % 2 ^ 64) m
        ≡ (done tt, put_array ar m name (fresh_array ar name dims (size_of dims)))
  made_lem m name dims small makes =
      let whole : size_of dims % 2 ^ 64 ≡ size_of dims = mod-eq_of_lt (omega (arith, small)) in
      ap (λ n. made ar name dims n m) whole
      ∙ ap
          (λ b.
            if b
            then (done tt, put_array ar m name (fresh_array ar name dims (size_of dims)))
            else (crashed, m))
          (le_and (ltb (size_of dims) (2 ^ 63)) (ar.makes (size_of dims)) (lt→ltb _ _ small) makes)
    where
      le_and : (a b : Bool) → a ≡ true → b ≡ true → (a && b) ≡ true
      le_and a b e f = rw (e, f) refl

  fresh_array-Sized :
      (name : Bytes) (dims : List ℕ)
      → size_of dims < 2 ^ 63
      → Sized (fresh_array ar name dims (size_of dims))
  fresh_array-Sized name dims small = (length-replicate (size_of dims) (fill ar name), small)

  with_dims-Safely :
      (m : Machine) (name : Bytes) (dims : Option (List ℕ))
      → ArraysFit m
      → ((ns : List ℕ) → dims ≡ some ns → (size_of ns < 2 ^ 63) × (ar.makes (size_of ns) ≡ true))
      → Safely (with_dims ar name dims m)
  with_dims-Safely m name none fit room = fit
  with_dims-Safely m name (some dims) fit room =
      let (small, makes) = room dims refl in
      subst Safely (sym (made_lem m name dims small makes)) (
        put_array-ArraysFit m name (fresh_array ar name dims (size_of dims)) fit
          (fresh_array-Sized name dims small))

  pub dim_array-Safely :
      (name : Bytes) (bounds : List ℤ) (m : Machine)
      → ArraysFit m
      → HasRoom ar bounds
      → Safely (dim_array ar name bounds m)
  unfolding dim_array
  dim_array-Safely name bounds m fit room = with_dims-Safely m name (naturals bounds) fit room

  -- The bounds of an array that was never declared.
  naturals-default_bounds :
      (idxs : List ℤ) → (dims : List ℕ) × (naturals (default_bounds ar idxs) ≡ some dims)
  unfolding naturals default_bounds
  naturals-default_bounds [] = (10 ∷ [], refl)
  naturals-default_bounds (i ∷ []) = (10 ∷ [], refl)
  naturals-default_bounds (i ∷ j ∷ idxs) =
      let (dims, e) = naturals-default_bounds (j ∷ idxs) in (10 ∷ dims, rw e refl)

  -- The array is there, and what was there before it still is.
  pub ensure_array_lem :
      (name : Bytes) (idxs : List ℤ) (m : Machine)
      → ArraysFit m
      → HasRoom ar (default_bounds ar idxs)
      → (now : Machine) × (info : ArrayInfo) × (ensure_array ar name idxs m ≡ (done tt, now))
        × (now.arrays name ≡ some info)
        × ArraysFit now
  unfolding ensure_array dim_array
  ensure_array_lem name idxs m fit room = elim (Option-cases (m.arrays name)) [
    | inl absent ↦
        let (dims, e) = naturals-default_bounds idxs in
        let (small, makes) = room dims e in
        let info = fresh_array ar name dims (size_of dims) in
        (
          put_array ar m name info,
          info,
          ap (λ o. ensured ar name idxs o m) absent
              ∙ ap (λ o. with_dims ar name o m) e
              ∙ made_lem m name dims small makes,
          put_array_here m name info,
          put_array-ArraysFit m name info fit (fresh_array-Sized name dims small),
        )
    | inr (info, there) ↦ (m, info, ap (λ o. ensured ar name idxs o m) there, there, fit)
  ]

  pub get_array_at :
      (name : Bytes) (idxs : List ℤ) (m now : Machine) (info : ArrayInfo)
      → ensure_array ar name idxs m ≡ (done tt, now)
      → now.arrays name ≡ some info
      → get_array ar name idxs m
        ≡ after
            (found_offset ar (offset_from 0 1 info.dims idxs) now)
            (λ off w. (element_of ar off (w.arrays name), w))
  unfolding get_array offset
  get_array_at name idxs m now info e there =
      ap
        (λ r.
          after (after r (λ _ w. info_offset ar idxs (w.arrays name) w))
            (λ off w. (element_of ar off (w.arrays name), w)))
        e
      ∙ ap
          (λ o. after (info_offset ar idxs o now) (λ off w. (element_of ar off (w.arrays name), w)))
          there

  pub set_array_at :
      (name : Bytes) (idxs : List ℤ) (v : Value) (m now : Machine) (info : ArrayInfo)
      → ensure_array ar name idxs m ≡ (done tt, now)
      → now.arrays name ≡ some info
      → set_array ar name idxs v m
        ≡ after
            (found_offset ar (offset_from 0 1 info.dims idxs) now)
            (λ off w. change ar w name off v (w.arrays name))
  unfolding set_array offset
  set_array_at name idxs v m now info e there =
      ap
        (λ r.
          after (after r (λ _ w. info_offset ar idxs (w.arrays name) w))
            (λ off w. change ar w name off v (w.arrays name)))
        e
      ∙ ap
          (λ o. after (info_offset ar idxs o now) (λ off w. change ar w name off v (w.arrays name)))
          there

  -- An offset lies inside the slice, and does not wrap.
  pub offset_in :
      (name : Bytes) (m : Machine) (info : ArrayInfo) (idxs : List ℤ) (o : ℕ)
      → ArraysFit m
      → m.arrays name ≡ some info
      → offset_from 0 1 info.dims idxs ≡ some o
      → (o < length info.items) × (o % 2 ^ 64 ≡ o)
  offset_in name m info idxs o fit there e =
      let bound = offset_from_bound 0 1 info.dims idxs o e in
      let (size, small) = fit name info there in
      (omega (arith, bound, size), mod-eq_of_lt (omega (arith, bound, small)))

  pub get_array-Safely :
      (name : Bytes) (idxs : List ℤ) (m : Machine)
      → ArraysFit m
      → HasRoom ar (default_bounds ar idxs)
      → Safely (get_array ar name idxs m)
  get_array-Safely name idxs m fit room =
      let (now, info, e, there, fits) = ensure_array_lem name idxs m fit room in
      subst Safely (sym (get_array_at name idxs m now info e there))
        (elim (Option-cases (offset_from 0 1 info.dims idxs)) [
          | inl out ↦
              subst
                (λ o.
                  Safely (
                    after (found_offset ar o now)
                      (λ off w. (element_of ar off (w.arrays name), w))))
                (sym out) fits
          | inr (o, at) ↦
              let (inside, whole) = offset_in name now info idxs o fits there at in
              let (v, entry) = get_elem?_in info.items o inside in
              subst
                (λ o.
                  Safely (
                    after (found_offset ar o now)
                      (λ off w. (element_of ar off (w.arrays name), w))))
                (sym at)
                (subst (λ n. Safely (element_of ar n (now.arrays name), now)) (sym whole)
                  (subst (λ i. Safely (element_of ar o i, now)) (sym there)
                    (subst (λ x. Safely (element ar x, now)) (sym entry) fits)))
        ])

  pub set_array-Safely :
      (name : Bytes) (idxs : List ℤ) (v : Value) (m : Machine)
      → ArraysFit m
      → HasRoom ar (default_bounds ar idxs)
      → Safely (set_array ar name idxs v m)
  set_array-Safely name idxs v m fit room =
      let (now, info, e, there, fits) = ensure_array_lem name idxs m fit room in
      subst Safely (sym (set_array_at name idxs v m now info e there))
        (elim (Option-cases (offset_from 0 1 info.dims idxs)) [
          | inl out ↦
              subst
                (λ o.
                  Safely (
                    after (found_offset ar o now)
                      (λ off w. change ar w name off v (w.arrays name))))
                (sym out) fits
          | inr (o, at) ↦
              let (inside, whole) = offset_in name now info idxs o fits there at in
              let (changed, set, is) = set_elem_in info.items o v inside in
              subst
                (λ o.
                  Safely (
                    after (found_offset ar o now)
                      (λ off w. change ar w name off v (w.arrays name))))
                (sym at)
                (subst (λ n. Safely (change ar now name n v (now.arrays name))) (sym whole)
                  (subst (λ i. Safely (change ar now name o v i)) (sym there)
                    (subst (λ x. Safely (with_items ar now name info x)) (sym set)
                      (put_array-ArraysFit now name (record info { items = changed }) fits
                        (kept info changed is.size (fits name info there))))))
        ])
    where
      kept :
          (info : ArrayInfo) (changed : List Value)
          → length changed ≡ length info.items
          → Sized info
          → Sized (record info { items = changed })
      kept info changed same (size, small) = (same ∙ size, small)
