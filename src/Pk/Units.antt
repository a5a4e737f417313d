-- ===== src/Pk/Units.antt =====
-- The units of the pseudo keyboards (pk.go): `parsePKName`, `allocPK` and `freePK`.
use rsts_e_v7_2_lookalike.Prelude.{
  ℕ, zero, suc, ◌+◌, ◌-◌, ◌*◌, ◌≤◌, ◌<◌, ◌≡◌, ◌≢◌, refl, Bool, true, false, ◌&&◌, ◌||◌, not, Option,
  none, some, List, [], ◌∷◌, arith, ltb, ◌==◌, if◌then◌else◌, drop, Bool-cases, inl, inr,
}
use rsts_e_v7_2_lookalike.Bytes.Reader.{Bytes}
use rsts_e_v7_2_lookalike.Bytes.Magic.{has_prefix, bytes_eq}
use rsts_e_v7_2_lookalike.Text.Ascii.{codes, is_digit, trim_space, upper}

-- The units in use, `sys.pkInUse`.
abbrev pub in_use : List ℕ → ℕ → Bool
in_use [] u = false
in_use (v ∷ units) u = (v == u) || in_use units u

-- `for i := 0; i < sys.Config.MaxUsers; i++`, with `left` units to try from `i` on.
unfoldable pub first_free : List ℕ → ℕ → ℕ → Option ℕ
first_free units zero i = none
first_free units (suc left) i =
    let later = first_free units left (i + 1) in if in_use units i then later else some i

-- Any unit, `want < 0`, or one of the caller's choice.
pub data Want : Type 0 where
  any_unit : Want
  unit : ℕ → Want

pub data Alloc : Type 0 where
  allotted : ℕ → Alloc
  device_hung : Alloc
  busy : Alloc

abbrev pub taken : List ℕ → Option ℕ → Alloc × List ℕ
taken units none = (busy, units)
taken units (some i) = (allotted i, i ∷ units)

unfoldable pub alloc_pk : ℕ → List ℕ → Want → Alloc × List ℕ
unfolding first_free
alloc_pk max_users units (unit want) =
    if in_use units want then (device_hung, units) else (allotted want, want ∷ units)
alloc_pk max_users units any_unit = taken units (first_free units max_users 0)

unfoldable pub free_pk : List ℕ → ℕ → List ℕ
free_pk [] u = []
free_pk (v ∷ units) u = if v == u then free_pk units u else v ∷ free_pk units u

-- `strings.Contains(s, ":")`
unfoldable pub has_colon : Bytes → Bool
has_colon [] = false
has_colon (c ∷ s) = c == b':' || has_colon s

-- The value of the digits in front, behind a value so far, how many they are, and the rest.
unfoldable pub number_from : ℕ → ℕ → Bytes → ℕ × ℕ × Bytes
number_from value n [] = (value, n, [])
number_from value n (c ∷ s) =
    let rest = number_from (10 * value + (c - b'0')) (n + 1) s in
    if is_digit c then rest else (value, n, c ∷ s)

-- The unit that the number is, if a colon and nothing else but blanks come behind its digits and it
-- is at most 63. A number too large for `strconv.Atoi` is larger than that, too.
unfoldable pub unit_of : ℕ × ℕ × Bytes → Option Want
unfolding trim_space
unit_of (value, n, []) = none
unit_of (value, n, c ∷ rest) =
    if n == 0 || not (c == b':')
    then none
    else (if not (bytes_eq (trim_space rest) [])
        then none
        else (if ltb 63 value then none else some (unit value)))

abbrev any_or_none : Bytes → Option Want
any_or_none rest = if bytes_eq rest [] || bytes_eq rest (codes "*") then some any_unit else none

unfoldable pub parse_upper : Bytes → Option Want
unfolding has_colon number_from unit_of has_prefix bytes_eq
parse_upper s =
    if not (has_colon s)
    then none
    else (if has_prefix s (codes "PK:")
        then any_or_none (drop 3 s)
        else (if not (has_prefix s (codes "PK"))
            then none
            else unit_of (number_from 0 0 (drop 2 s))))

unfoldable pub parse_pk_name : Bytes → Option Want
unfolding parse_upper trim_space upper
parse_pk_name path = parse_upper (upper (trim_space path))

-- What the search over the units from `i` on finds.
abbrev Found : List ℕ → ℕ → ℕ → Option ℕ → Type 0
Found units left i none = (u : ℕ) → i ≤ u → u < i + left → in_use units u ≡ true
Found units left i (some u) = (i ≤ u) × (u < i + left) × (in_use units u ≡ false)

Found-more :
    (units : List ℕ) (left i : ℕ) (o : Option ℕ)
    → in_use units i ≡ true
    → Found units left (i + 1) o
    → Found units (suc left) i o
Found-more units left i none here h = λ u low high. elim (Bool-cases (u == i)) [
  | inl same ↦ let at : u ≡ i = ground arith in rw at here
  | inr other ↦ let apart : u ≢ i = ground arith in h u (omega arith) (omega arith)
]
Found-more units left i (some u) here (low, high, free) = (omega arith, omega arith, free)

first_free-Found : (units : List ℕ) (left i : ℕ) → Found units left i (first_free units left i)
unfolding first_free
first_free-Found units zero i = λ u low high. absurd (omega arith)
first_free-Found units (suc left) i = elim (Bool-cases (in_use units i)) [
  | inl hit ↦ rw hit (Found-more units left i _ hit (first_free-Found units left (i + 1)))
  | inr free ↦ rw free (omega arith, omega arith, free)
]

-- What `allocPK` may do.
abbrev pub Allots : ℕ → List ℕ → Want → Alloc × List ℕ → Type 0
Allots max_users units (unit want) (allotted u, after) =
    (u ≡ want) × (in_use units u ≡ false) × (after ≡ u ∷ units)
Allots max_users units any_unit (allotted u, after) =
    (u < max_users) × (in_use units u ≡ false) × (after ≡ u ∷ units)
Allots max_users units (unit want) (device_hung, after) =
    (in_use units want ≡ true) × (after ≡ units)
Allots max_users units any_unit (device_hung, after) = ⊥
Allots max_users units (unit want) (busy, after) = ⊥
Allots max_users units any_unit (busy, after) =
    ((u : ℕ) → u < max_users → in_use units u ≡ true) × (after ≡ units)

-- `allocPK` allots a unit that was not in use, the one that is asked for, or, if any will do, one
-- below the limit on users, and marks no other as used; it refuses the unit asked for just when that
-- is in use, and any unit just when all below the limit are, and then changes nothing.
pub alloc_pk-Allots :
    (max_users : ℕ) (units : List ℕ) (want : Want)
    → Allots max_users units want (alloc_pk max_users units want)
unfolding alloc_pk
alloc_pk-Allots max_users units (unit want) = elim (Bool-cases (in_use units want)) [
  | inl hit ↦ rw hit (hit, refl)
  | inr free ↦ rw free (refl, free, refl)
]
alloc_pk-Allots max_users units any_unit =
    go (first_free units max_users 0) (first_free-Found units max_users 0)
  where
    go :
        (o : Option ℕ) → Found units max_users 0 o → Allots max_users units any_unit (taken units o)
    go none h = ((λ u below. h u (omega arith) (omega arith)), refl)
    go (some u) (low, high, free) = (omega arith, free, refl)

in_use-free_pk :
    (units : List ℕ) (u v : ℕ) → in_use (free_pk units u) v ≡ (in_use units v && not (u == v))
unfolding free_pk
in_use-free_pk [] u v = refl
in_use-free_pk (w ∷ units) u v = ground (arith, in_use-free_pk units u v)

-- A unit is given back by `freePK`, and the use of all other units stays as it was, so that the unit
-- can be had at once by asking for it.
pub free_pk-alloc_pk :
    (max_users : ℕ) (units : List ℕ) (u : ℕ)
    → ((v : ℕ) → in_use (free_pk units u) v ≡ (in_use units v && not (u == v)))
      × ((alloc_pk max_users (free_pk units u) (unit u)).0 ≡ allotted u)
unfolding alloc_pk
free_pk-alloc_pk max_users units u = (
  in_use-free_pk units u,
  (let free : in_use (free_pk units u) u ≡ false = ground (arith, in_use-free_pk units u u) in
      rw free refl),
)
