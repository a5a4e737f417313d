-- ===== src/Basic/Vm/Fetch.antt =====
-- What the machine fetches from code that the compiler wrote.
use rsts_e_v7_2_lookalike.Prelude.{
  ℕ, ◌+◌, ◌%◌, ◌<◌, ◌≡◌, refl, ap, ◌∙◌, [], ◌∷◌, ◌++◌, arith, some, drop, length, length-append,
  append_assoc, get_elem?,
}
use native.Mathlib.Nat.{mod-eq_of_lt}
use rsts_e_v7_2_lookalike.Bytes.Reader.{Bytes}
use rsts_e_v7_2_lookalike.Basic.Image.{Image}
use rsts_e_v7_2_lookalike.Basic.Error.{done}
use rsts_e_v7_2_lookalike.Basic.Compiler.{
  Compiler, intern, intern_num, emit, u16_bytes, emit_string, emit_counted, emit_num,
}
use rsts_e_v7_2_lookalike.Basic.Compiler.Growth.{IsPrefix, Within}
use rsts_e_v7_2_lookalike.Basic.Compiler.Tables.{TablesFit, EntryAt, intern_sound, intern_num_sound}
use rsts_e_v7_2_lookalike.Basic.Vm.{Vm, u8, u16, string, named, fetched_u8, fetched_u16}
use rsts_e_v7_2_lookalike.Basic.Vm.Reach.{drop-IsPrefix, drop-next, u16_bytes_value}

-- The code at the place where the compiler put it.
pub code_at :
    (c new all : Bytes)
    → IsPrefix (c ++ new) all
    → (rest : Bytes) × (drop (length c) all ≡ new ++ rest)
code_at c new all (rest, e) =
    (rest, drop-IsPrefix c all (new ++ rest) (length c) (e ∙ append_assoc c new rest) refl)

module _ (img : Image) where
  pub u8_lem :
      (vm : Vm) (b : ℕ) (rest : Bytes)
      → drop vm.pc img.code ≡ b ∷ rest
      → u8 img vm ≡ (done b, record vm { pc = vm.pc + 1 })
  u8_lem vm b rest e = ap (fetched_u8 img vm) e

  pub u16_lem :
      (vm : Vm) (i : ℕ) (rest : Bytes)
      → i < 65536
      → drop vm.pc img.code ≡ u16_bytes i ++ rest
      → u16 img vm ≡ (done i, record vm { pc = vm.pc + 2 })
  u16_lem vm i rest h e =
      ap (fetched_u16 img vm) e
      ∙ ap (λ j. (done j, record vm { pc = vm.pc + 2 })) (u16_bytes_value i h)

  pub string_lem :
      (vm : Vm) (i : ℕ) (s rest : Bytes)
      → EntryAt img.strings i s
      → drop vm.pc img.code ≡ u16_bytes i ++ rest
      → string img vm ≡ (done s, record vm { pc = vm.pc + 2 })
  string_lem vm i s rest (entry, small) e =
      rw (u16_lem vm i rest small e)
        (ap (λ t. (done (named img t), record vm { pc = vm.pc + 2 })) entry)

  -- Behind the two bytes of an index.
  pub drop-u16_bytes :
      (n i : ℕ) (rest : Bytes)
      → drop n img.code ≡ u16_bytes i ++ rest
      → drop (n + 2) img.code ≡ rest
  drop-u16_bytes n i rest e =
      (let more : n + 2 ≡ n + 1 + 1 = omega arith in ap (λ j. drop j img.code) more)
      ∙ drop-next (n + 1) img.code rest _ (drop-next n img.code _ _ e)

pub length-emit : (op : ℕ) (c : Compiler) → length (emit op c).code ≡ length c.code + 1
unfolding emit
length-emit op c = length-append c.code (op ∷ []) ∙ omega arith

pub length-emit_string :
    (op : ℕ) (s : Bytes) (c : Compiler) → length (emit_string op s c).code ≡ length c.code + 3
unfolding emit_string
length-emit_string op s c =
    let i = (intern c.strings s).0 in length-append c.code (op ∷ u16_bytes i) ∙ omega arith

pub length-emit_num : (n : ℕ) (c : Compiler) → length (emit_num n c).code ≡ length c.code + 3
unfolding emit_num
length-emit_num n c =
    let i = (intern_num c.nums n).0 in length-append c.code (2 ∷ u16_bytes i) ∙ omega arith

pub length-emit_counted :
    (op : ℕ) (s : Bytes) (n : ℕ) (c : Compiler)
    → length (emit_counted op s n c).code ≡ length c.code + 4
unfolding emit_counted
length-emit_counted op s n c =
    let i = (intern c.strings s).0 in
    length-append c.code (op ∷ (u16_bytes i ++ n % 256 ∷ [])) ∙ omega arith

module _ (img : Image) (fit : TablesFit img) where
  pub emit_at :
      (op : ℕ) (c : Compiler)
      → Within (emit op c) img
      → (rest : Bytes) × (drop (length c.code) img.code ≡ op ∷ rest)
  unfolding emit
  emit_at op c w = code_at c.code (op ∷ []) img.code w.code

  -- An instruction with a string, and the string behind it.
  pub emit_string_at :
      (op : ℕ) (s : Bytes) (c : Compiler)
      → Within (emit_string op s c) img
      → (rest : Bytes) × (drop (length c.code) img.code ≡ op ∷ rest)
        × ((vm : Vm)
            → vm.pc ≡ length c.code + 1
            → string img vm ≡ (done s, record vm { pc = vm.pc + 2 }))
  unfolding emit_string
  emit_string_at op s c w =
      let i = (intern c.strings s).0 in
      let (rest, e) = code_at c.code (op ∷ u16_bytes i) img.code w.code in
      let entry = intern_sound c.strings img.strings s fit.strings w.strings in
      (
        u16_bytes i ++ rest,
        e,
        λ vm h.
            string_lem img vm i s rest entry
              (ap (λ n. drop n img.code) h ∙ drop-next (length c.code) img.code _ op e),
      )

  pub emit_counted_at :
      (op : ℕ) (s : Bytes) (n : ℕ) (c : Compiler)
      → n < 256
      → Within (emit_counted op s n c) img
      → (rest : Bytes) × (drop (length c.code) img.code ≡ op ∷ rest)
        × ((vm : Vm)
            → vm.pc ≡ length c.code + 1
            → string img vm ≡ (done s, record vm { pc = vm.pc + 2 }))
        × ((vm : Vm)
            → vm.pc ≡ length c.code + 3
            → u8 img vm ≡ (done n, record vm { pc = vm.pc + 1 }))
  unfolding emit_counted
  emit_counted_at op s n c small w =
      let i = (intern c.strings s).0 in
      let (rest, e) = code_at c.code (op ∷ (u16_bytes i ++ n % 256 ∷ [])) img.code w.code in
      let entry = intern_sound c.strings img.strings s fit.strings w.strings in
      let next = drop-next (length c.code) img.code _ op e in
      let last = drop-u16_bytes img (length c.code + 1) i (n % 256 ∷ rest) next in
      (
        _,
        e,
        (λ vm h. string_lem img vm i s (n % 256 ∷ rest) entry (ap (λ j. drop j img.code) h ∙ next)),
        λ vm h. u8_lem img vm n rest (
            ap (λ j. drop j img.code) h
            ∙ (let more : length c.code + 3 ≡ length c.code + 1 + 2 = omega arith in
                ap (λ j. drop j img.code) more)
            ∙ last
            ∙ ap (λ b. b ∷ rest) (mod-eq_of_lt small)),
      )

  pub emit_num_at :
      (n : ℕ) (c : Compiler)
      → Within (emit_num n c) img
      → (i : ℕ) × (rest : Bytes) × (drop (length c.code) img.code ≡ 2 ∷ rest)
        × (get_elem? img.nums i ≡ some n)
        × ((vm : Vm)
            → vm.pc ≡ length c.code + 1
            → u16 img vm ≡ (done i, record vm { pc = vm.pc + 2 }))
  unfolding emit_num
  emit_num_at n c w =
      let i = (intern_num c.nums n).0 in
      let (rest, e) = code_at c.code (2 ∷ u16_bytes i) img.code w.code in
      let (entry, small) = intern_num_sound c.nums img.nums n fit.nums w.nums in
      (
        i,
        u16_bytes i ++ rest,
        e,
        entry,
        λ vm h.
            u16_lem img vm i rest small
              (ap (λ j. drop j img.code) h ∙ drop-next (length c.code) img.code _ 2 e),
      )
