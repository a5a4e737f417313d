-- ===== src/Basic/Machine/Arrays/Elements.antt =====
-- The slice of an array's elements.
use rsts_e_v7_2_lookalike.Prelude.{
  ℕ, zero, suc, ◌<◌, ◌≡◌, ◌≢◌, refl, ap, Option, none, some, List, [], ◌∷◌, arith, length,
  get_elem?,
}
use rsts_e_v7_2_lookalike.Basic.Image.{Value}
use rsts_e_v7_2_lookalike.Basic.Machine.Arrays.{replicate, set_elem}

pub length-replicate : (n : ℕ) (v : Value) → length (replicate n v) ≡ n
unfolding replicate
length-replicate zero v = refl
length-replicate (suc n) v = let rest = length-replicate n v in omega (arith, rest)

pub get_elem?_in :
    (items : List Value) (i : ℕ) → i < length items → (v : Value) × (get_elem? items i ≡ some v)
get_elem?_in [] i h = absurd (omega (arith, h))
get_elem?_in (v ∷ items) zero h = (v, refl)
get_elem?_in (v ∷ items) (suc i) h = get_elem?_in items i (omega (arith, h))

-- The slice `changed` is `items` with `v` at `i`.
pub record SetAt (items : List Value) (i : ℕ) (v : Value) (changed : List Value) : Type 0 where
  pub size : length changed ≡ length items
  pub here : get_elem? changed i ≡ some v
  pub others : (j : ℕ) → j ≢ i → get_elem? changed j ≡ get_elem? items j

pub set_elem_in :
    (items : List Value) (i : ℕ) (v : Value)
    → i < length items
    → (changed : List Value) × (set_elem items i v ≡ some changed) × SetAt items i v changed
unfolding set_elem
set_elem_in [] i v h = absurd (omega (arith, h))
set_elem_in (w ∷ items) zero v h =
    (v ∷ items, refl, record { size = refl; here = refl; others = others })
  where
    others : (j : ℕ) → j ≢ zero → get_elem? (v ∷ items) j ≡ get_elem? (w ∷ items) j
    others zero ne = absurd (ne refl)
    others (suc j) ne = refl
set_elem_in (w ∷ items) (suc i) v h =
    let (changed, set, at) = set_elem_in items i v (omega (arith, h)) in
    (
      w ∷ changed,
      kept (set_elem items i v) changed set,
      record {
        size = let same = at.size in omega (arith, same);
        here = at.here;
        others = others changed at.others;
      },
    )
  where
    kept :
        (o : Option (List Value)) (changed : List Value)
        → o ≡ some changed
        → (elim o as (λ _. Option (List Value)) [ none ↦ none | some after ↦ some (w ∷ after) ])
          ≡ some (w ∷ changed)
    kept o changed e = rw e refl

    others :
        (changed : List Value)
        → ((j : ℕ) → j ≢ i → get_elem? changed j ≡ get_elem? items j)
        → (j : ℕ) → j ≢ suc i
        → get_elem? (w ∷ changed) j ≡ get_elem? (w ∷ items) j
    others changed rest zero ne = refl
    others changed rest (suc j) ne = rest j λ same. ne (ap suc same)
