-- ===== src/Basic/Image/RoundTrip.antt =====
-- What `Marshal` wrote, `unmarshalPcode` reads back.
use rsts_e_v7_2_lookalike.Prelude.{
  ℕ, suc, ◌+◌, ◌≤◌, ◌<◌, ◌^◌, ◌≡◌, refl, ap, Option, none, some, List, [], ◌∷◌, ◌++◌, append_assoc,
  ◌⊎◌, append-nil, arith, le→ltb, lt→ltb, length, length-append, get_elem?, Bool-cases, inl, inr,
}
use mathlib.Core.Path.{subst}
use rsts_e_v7_2_lookalike.Prelude.Int.{ℤ, FitsU32}
use rsts_e_v7_2_lookalike.Bytes.Reader.{
  Bytes, ◌>>=◌, Reads, Reads-bind, Reads-end, Reads-refuse_if, loaded,
}
use rsts_e_v7_2_lookalike.Bytes.Words.{
  put_u32, u32, Reads-u32, Reads-u64, Reads-str, Reads-byte, length-put_u32,
}
use rsts_e_v7_2_lookalike.Bytes.Signed.{put_int, Reads-int}
use rsts_e_v7_2_lookalike.Bytes.Lists.{All, Reads-list, put_list}
use rsts_e_v7_2_lookalike.Bytes.Magic.{
  unwrap, unwrap-append, bytes_eq, bytes_eq_refl, bytes_eq_sound,
}
use rsts_e_v7_2_lookalike.Basic.Image.{Value, text, num, Line, Image}
use rsts_e_v7_2_lookalike.Basic.Image.Codec.{
  pcode_magic, pcode_version, intern_from, must_intern_lookup, put_value, put_line, put_body,
  marshal, string_at, value, line, data_lines, body, payload, unmarshal_pcode,
}

-- The string is in the table.
abbrev pub IsInterned : List Bytes → Bytes → Type 0
IsInterned [] s = ⊥
IsInterned (t ∷ strings) s = (t ≡ s) ⊎ IsInterned strings s

-- A value that the file can hold: a string of the table, or 64 bits.
abbrev pub ValueFits : List Bytes → Value → Type 0
ValueFits strings (text s) = IsInterned strings s
ValueFits strings (num n) = n < 2 ^ 64

pub record LineFits (l : Line) : Type 0 where
  pub num : FitsU32 l.num
  pub ip : FitsU32 l.ip

-- The images that a file can hold: lengths below 2 ^ 32, and every string of the DATA statements
-- in the table of strings.
pub record ImageFits (img : Image) : Type 0 where
  pub strings_length : length img.strings < 2 ^ 32
  pub strings : All (λ s. length s < 2 ^ 32) img.strings
  pub nums_length : length img.nums < 2 ^ 32
  pub nums : All (λ n. n < 2 ^ 64) img.nums
  pub items_length : length img.items < 2 ^ 32
  pub items : All (ValueFits img.strings) img.items
  pub lines_length : length img.lines < 2 ^ 32
  pub lines : All LineFits img.lines
  pub halt_ip : FitsU32 img.halt_ip
  pub code : length img.code < 2 ^ 32
  pub data_lines_length : length img.data_lines < 2 ^ 32
  pub data_lines : All FitsU32 img.data_lines

-- The index that `mustInternLookup` finds for a string of the table leads back to that string.
intern_from_sound :
    (i : ℕ) (strings : List Bytes) (s : Bytes)
    → IsInterned strings s
    → (k : ℕ) × (intern_from i strings s ≡ i + k)
      × (k < length strings)
      × (get_elem? strings k ≡ some s)
unfolding intern_from
intern_from_sound i [] s h = absurd h
intern_from_sound i (t ∷ strings) s h = elim (Bool-cases (bytes_eq t s)) [
  | inl same ↦ (0, rw same (omega arith), omega arith, ap some (bytes_eq_sound t s same))
  | inr other ↦
      let later : IsInterned strings s = elim h [
        | inl e ↦ cc (other, bytes_eq_refl s, e)
        | inr rest ↦ rest
      ] in
      let (k, at, below, entry) = intern_from_sound (i + 1) strings s later in
      (suc k, rw other (omega (arith, at)), omega (arith, below), entry)
]

module _ (strings : List Bytes) (short : length strings < 2 ^ 32) where
  Reads-string_at :
      (s : Bytes) (k : ℕ) → get_elem? strings k ≡ some s → Reads (string_at strings k) [] (text s)
  unfolding string_at
  Reads-string_at s k e = record { run = λ rest. rw (e, string_at) }

  Reads-value : (v : Value) → ValueFits strings v → Reads (value strings) (put_value strings v) v
  unfolding value put_value
  Reads-value (num n) h = Reads-bind _ (Reads-byte 0) (Reads-end _ (Reads-u64 n h))
  Reads-value (text s) h =
      let (k, at, below, entry) = intern_from_sound 0 strings s h in
      let index : intern_from 0 strings s ≡ k = omega (arith, at) in
      Reads-bind _ (Reads-byte 1) (
        subst (λ bs. Reads (u32 >>= string_at strings) bs (text s)) (append-nil _)
          (Reads-bind _ (Reads-u32 (must_intern_lookup strings s) (rw index (omega arith)))
            (rw index (Reads-string_at s k entry))))

Reads-line : (l : Line) → LineFits l → Reads line (put_line l) l
unfolding line put_line
Reads-line l h = Reads-bind _ (Reads-int l.num h.num) (Reads-end _ (Reads-int l.ip h.ip))

-- The image without what the file does not hold: the table of functions, and here the data lines.
abbrev pub without_lines : Image → Image
without_lines img = record img { data_lines = []; fns = [] }

pub Reads-body : (img : Image) → ImageFits img → Reads body (put_body img) (without_lines img)
unfolding body put_body
Reads-body img h = Reads-bind _ (Reads-u32 pcode_version (omega arith)) (
    Reads-refuse_if refl (
      Reads-bind _
        (Reads-list (λ s. length s < 2 ^ 32) Reads-str img.strings h.strings_length h.strings)
        (Reads-bind _ (Reads-list (λ n. n < 2 ^ 64) Reads-u64 img.nums h.nums_length h.nums) (
          Reads-bind _
            (Reads-list (ValueFits img.strings) (Reads-value img.strings h.strings_length) img.items
              h.items_length h.items)
            (Reads-bind _ (Reads-list LineFits Reads-line img.lines h.lines_length h.lines) (
              Reads-bind _ (Reads-int img.halt_ip h.halt_ip)
                (Reads-end _ (Reads-str img.code h.code))))))))

length-put_list : (zs : List ℤ) → 4 ≤ length (put_list put_int zs)
unfolding put_list
length-put_list zs = rw (length-append (put_u32 _) _, length-put_u32 _) (omega arith)

Reads-data_lines :
    (zs : List ℤ) → length zs < 2 ^ 32 → All FitsU32 zs → Reads data_lines (put_list put_int zs) zs
unfolding data_lines
Reads-data_lines zs short all = record {
  run = λ rest.
      rw
        (le→ltb (length (put_list put_int zs ++ rest)) 4
          (omega (arith, length-append (put_list put_int zs) rest, length-put_list zs)))
        ((Reads-list FitsU32 Reads-int zs short all).run rest);
}

unmarshal_pcode-unwrap :
    (raw p : Bytes) {r : Option (Image × Bytes)}
    → unwrap pcode_magic raw ≡ some p
    → payload p ≡ r
    → unmarshal_pcode raw ≡ loaded r
unfolding unmarshal_pcode
unmarshal_pcode-unwrap raw p {r = none} e f = rw (e, unmarshal_pcode) (rw f)
unmarshal_pcode-unwrap raw p {r = some (img, rest)} e f = rw (e, unmarshal_pcode) (rw f)

-- A compiled program that a file can hold loads as it was compiled, but for the table of functions,
-- which the file does not hold, whatever bytes follow it in the file.
pub unmarshal_pcode-marshal :
    (img : Image) (rest : Bytes)
    → ImageFits img
    → unmarshal_pcode (marshal img ++ rest) ≡ some (record img { fns = [] })
unfolding marshal
unmarshal_pcode-marshal img rest h =
    let written = put_body img ++ put_list put_int img.data_lines in
    rw (append_assoc pcode_magic written rest) (
      unmarshal_pcode-unwrap (pcode_magic ++ (written ++ rest)) (written ++ rest)
        (unwrap-append pcode_magic (written ++ rest)) (read.run rest))
  where
    read : Reads payload (put_body img ++ put_list put_int img.data_lines) (record img { fns = [] })
    read =
        unfold payload in
        Reads-bind _ (Reads-body img h)
          (Reads-end _ (Reads-data_lines img.data_lines h.data_lines_length h.data_lines))

-- A file that ends after the code, or at most three bytes behind it, loads with no data lines.
pub unmarshal_pcode-put_body :
    (img : Image) (rest : Bytes)
    → ImageFits img
    → length rest < 4
    → unmarshal_pcode (pcode_magic ++ (put_body img ++ rest)) ≡ some (without_lines img)
unfolding payload data_lines
unmarshal_pcode-put_body img rest h short =
    unmarshal_pcode-unwrap (pcode_magic ++ (put_body img ++ rest)) (put_body img ++ rest)
      {r = some (without_lines img, rest)} (unwrap-append pcode_magic (put_body img ++ rest))
      (rw ((Reads-body img h).run rest, ◌>>=◌)
        (rw (lt→ltb (length rest) 4 short, ◌>>=◌, data_lines)))
