-- ===== src/Basic/Compiler/Tables.antt =====
-- An index that the compiler wrote leads back to its string or number in the finished image.
use rsts_e_v7_2_lookalike.Prelude.{
  ℕ, zero, suc, ◌+◌, ◌≤◌, ◌<◌, ◌≡◌, refl, ap, ◌∙◌, Option, none, some, List, [], ◌∷◌, ◌++◌, arith,
  leb, leb→le, ◌==◌, length, length-append, get_elem?, Bool-cases, inl, inr,
}
use native.Mathlib.Nat.{mod-eq_of_lt}
use rsts_e_v7_2_lookalike.Bytes.Reader.{Bytes}
use rsts_e_v7_2_lookalike.Bytes.Magic.{bytes_eq, bytes_eq_sound}
use rsts_e_v7_2_lookalike.Basic.Image.{Image}
use rsts_e_v7_2_lookalike.Basic.Compiler.{
  string_index, num_index, interned, intern, interned_num, intern_num,
}
use rsts_e_v7_2_lookalike.Basic.Compiler.Growth.{IsPrefix}

-- The tables have room: the compiler never turned a string away, and every index fits 16 bits.
pub record TablesFit (img : Image) : Type 0 where
  pub strings : length img.strings < 65534
  pub nums : length img.nums ≤ 65536

get_elem?-append {ℓ} :
    {A : Type ℓ} (xs ys : List A) (i : ℕ) (a : A)
    → get_elem? xs i ≡ some a
    → (get_elem? (xs ++ ys) i ≡ some a) × (i < length xs)
get_elem?-append [] ys i a e = cc e
get_elem?-append (x ∷ xs) ys zero a e = (e, omega arith)
get_elem?-append (x ∷ xs) ys (suc i) a e =
    let (there, below) = get_elem?-append xs ys i a e in (there, omega arith)

get_elem?-length {ℓ} :
    {A : Type ℓ} (xs : List A) (a : A) (ys : List A) → get_elem? (xs ++ a ∷ ys) (length xs) ≡ some a
get_elem?-length [] a ys = refl
get_elem?-length (x ∷ xs) a ys = get_elem?-length xs a ys

string_index_sound :
    (i : ℕ) (strings : List Bytes) (s : Bytes) (k : ℕ)
    → string_index i strings s ≡ some k
    → (j : ℕ) × (k ≡ i + j) × (get_elem? strings j ≡ some s)
unfolding string_index
string_index_sound i [] s k e = cc e
string_index_sound i (t ∷ strings) s k e = elim (Bool-cases (bytes_eq t s)) [
  | inl hit ↦
      let same : some i ≡ some k = rw hit at e in
      (0, ground arith, ap some (bytes_eq_sound t s hit))
  | inr miss ↦
      let (j, at, entry) = string_index_sound (i + 1) strings s k (rw miss at e) in
      (suc j, omega (arith, at), entry)
]

num_index_sound :
    (i : ℕ) (nums : List ℕ) (n k : ℕ)
    → num_index i nums n ≡ some k
    → (j : ℕ) × (k ≡ i + j) × (get_elem? nums j ≡ some n)
unfolding num_index
num_index_sound i [] n k e = cc e
num_index_sound i (m ∷ nums) n k e = elim (Bool-cases (m == n)) [
  | inl hit ↦ let same : some i ≡ some k = rw hit at e in (0, ground arith, ap some (ground arith))
  | inr miss ↦
      let (j, at, entry) = num_index_sound (i + 1) nums n k (rw miss at e) in
      (suc j, omega (arith, at), entry)
]

-- The entry at an index of a table that more follows.
abbrev pub EntryAt {ℓ} : {A : Type ℓ} → List A → ℕ → A → Type ℓ
EntryAt entries i a = (get_elem? entries i ≡ some a) × (i < 65536)

found_entry {ℓ} :
    {A : Type ℓ} (xs all : List A) (i : ℕ) (a : A)
    → IsPrefix xs all
    → length all ≤ 65536
    → get_elem? xs i ≡ some a
    → EntryAt all i a
found_entry xs all i a (more, e) short entry =
    let (there, below) = get_elem?-append xs more i a entry in
    let size : length all ≡ length xs + length more = ap length e ∙ length-append xs more in
    (ap (λ l. get_elem? l i) e ∙ there, omega (arith, size))

no_room :
    (strings all : List Bytes)
    → 65534 ≤ length strings
    → length all < 65534
    → IsPrefix strings all
    → ⊥
no_room strings all many short (more, h) =
    let size : length all ≡ length strings + length more =
      ap length h ∙ length-append strings more in
    omega (arith, size)

pub intern_sound :
    (strings all : List Bytes) (s : Bytes)
    → length all < 65534
    → IsPrefix (intern strings s).1 all
    → EntryAt all (intern strings s).0 s
unfolding intern
intern_sound strings all s short = go (string_index 0 strings s) refl
  where
    go :
        (o : Option ℕ)
        → string_index 0 strings s ≡ o
        → IsPrefix (interned strings s o).1 all
        → EntryAt all (interned strings s o).0 s
    go (some i) e h =
        let (j, at, entry) = string_index_sound 0 strings s i e in
        let same : i ≡ j = omega (arith, at) in
        found_entry strings all i s h (omega arith) (ap (get_elem? strings) same ∙ entry)
    go none e h = elim (Bool-cases (leb 65534 (length strings))) [
      | inl full ↦
          let many = leb→le 65534 (length strings) full in
          absurd (no_room strings all many short (rw full at h))
      | inr room ↦ rw room (
          found_entry (strings ++ s ∷ []) all (length strings) s (rw room at h) (omega arith)
            (get_elem?-length strings s []))
    ]

pub intern_num_sound :
    (nums all : List ℕ) (n : ℕ)
    → length all ≤ 65536
    → IsPrefix (intern_num nums n).1 all
    → EntryAt all (intern_num nums n).0 n
unfolding intern_num
intern_num_sound nums all n short = go (num_index 0 nums n) refl
  where
    go :
        (o : Option ℕ)
        → num_index 0 nums n ≡ o
        → IsPrefix (interned_num nums n o).1 all
        → EntryAt all (interned_num nums n o).0 n
    go (some i) e h =
        let (j, at, entry) = num_index_sound 0 nums n i e in
        let same : i ≡ j = omega (arith, at) in
        let found = found_entry nums all i n h short (ap (get_elem? nums) same ∙ entry) in
        rw (mod-eq_of_lt found.1) found
    go none e h =
        let found =
          found_entry (nums ++ n ∷ []) all (length nums) n h short (get_elem?-length nums n []) in
        rw (mod-eq_of_lt found.1) found
