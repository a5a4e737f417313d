-- ===== src/Pascal/Image/Types.antt =====
-- `rebuildTypes`, `typ` and `str` of pascal_pcode.go: the descriptors of an image become a table of
-- types that point to one another.
use rsts_e_v7_2_lookalike.Prelude.{
  ℕ, zero, suc, ◌+◌, ◌≤◌, ◌<◌, ◌≡◌, ◌≢◌, refl, ap, Option, none, some, List, [], ◌∷◌, map, arith,
  leb, if◌then◌else◌, length, get_elem?, Bool-cases, inl, inr, leb→le, leb-false→lt, ◌∙◌,
}
use rsts_e_v7_2_lookalike.Prelude.Int.{ℤ, pos, negsuc}
use rsts_e_v7_2_lookalike.Bytes.Reader.{Bytes}
use mathlib.Core.Option
use rsts_e_v7_2_lookalike.Pascal.Image.{Image, PType, TypeInfo, FieldInfo}

-- The closure `link`, over a table of `count` entries: an id that is 0 or less is nil.
link : ℕ → ℤ → Option ℕ
link count (pos zero) = none
link count (pos (suc n)) = if leb count (suc n) then none else some (suc n)
link count (negsuc n) = none

rebuild_field : ℕ → FieldInfo → Bytes × Option ℕ
unfolding link
rebuild_field count f = (f.name, link count f.typ)

pub rebuild_type : ℕ → TypeInfo → PType
unfolding rebuild_field
rebuild_type count ti = record {
  kind = ti.kind;
  lo = ti.lo;
  hi = ti.hi;
  name = ti.name;
  packed = ti.packed;
  conf = ti.conf;
  enums = ti.enums;
  tag_name = ti.tag_name;
  ptr_name = ti.ptr_name;
  conf_lo = [];
  conf_hi = [];
  elem = link count ti.elem;
  index = link count ti.index;
  ptr_to = link count ti.ptr_to;
  base = link count ti.base;
  tag_type = link count ti.tag_type;
  fields = map (rebuild_field count) ti.fields;
}

rebuild_each : ℕ → List TypeInfo → List (Option PType)
rebuild_each count [] = []
rebuild_each count (ti ∷ rest) = some (rebuild_type count ti) ∷ rebuild_each count rest

unfoldable pub rebuild_types : List TypeInfo → List (Option PType)
unfolding rebuild_type rebuild_each
rebuild_types infos = none ∷ rebuild_each (length infos + 1) infos

abbrev entry_at : List (Option PType) → ℕ → Option PType
entry_at [] n = none
entry_at (t ∷ ts) zero = t
entry_at (t ∷ ts) (suc n) = entry_at ts n

-- `img.typ(id)`
pub typ : List (Option PType) → ℤ → Option PType
typ types (pos zero) = none
typ types (pos (suc n)) = if leb (length types) (suc n) then none else entry_at types (suc n)
typ types (negsuc n) = none

-- `img.str(id)`
pub str : Image → ℤ → Bytes
str img (pos n) = elim (get_elem? img.strings n) [ none ↦ [] | some s ↦ s ]
str img (negsuc n) = []

-- A pointer that was rebuilt from an id is nil where no descriptor has the id, and else it leads to
-- the type of the table that has it.
abbrev pub LinksTo : List TypeInfo → ℤ → Option ℕ → Type 0
LinksTo infos id none = (n : ℕ) → n < length infos → id ≢ pos (suc n)
LinksTo infos id (some k) = (id ≡ pos k) × (t : PType) × (typ (rebuild_types infos) id ≡ some t)

abbrev pub FieldsLinked : List TypeInfo → List FieldInfo → List (Bytes × Option ℕ) → Type 0
FieldsLinked infos [] [] = Unit
FieldsLinked infos (f ∷ fields) (g ∷ rebuilt) =
    (g.0 ≡ f.name) × LinksTo infos f.typ g.1 × FieldsLinked infos fields rebuilt
FieldsLinked infos _ _ = ⊥

-- The kind and the bounds of one type are those of its descriptor, and all its pointers are those that its descriptor asks for, those of its fields too.
pub record IsLinked (infos : List TypeInfo) (ti : TypeInfo) (t : PType) : Type 0 where
  pub shape : (t.kind ≡ ti.kind) × (t.lo ≡ ti.lo) × (t.hi ≡ ti.hi)
  pub elem : LinksTo infos ti.elem t.elem
  pub index : LinksTo infos ti.index t.index
  pub ptr_to : LinksTo infos ti.ptr_to t.ptr_to
  pub base : LinksTo infos ti.base t.base
  pub tag_type : LinksTo infos ti.tag_type t.tag_type
  pub fields : FieldsLinked infos ti.fields t.fields

length-rebuild_each :
    (count : ℕ) (infos : List TypeInfo) → length (rebuild_each count infos) ≡ length infos
unfolding rebuild_each
length-rebuild_each count [] = refl
length-rebuild_each count (ti ∷ rest) = omega (arith, length-rebuild_each count rest)

entry_at-rebuild_each :
    (count : ℕ) (infos : List TypeInfo) (n : ℕ)
    → entry_at (rebuild_each count infos) n ≡ Option.map (rebuild_type count) (get_elem? infos n)
unfolding rebuild_each
entry_at-rebuild_each count [] n = refl
entry_at-rebuild_each count (ti ∷ rest) zero = refl
entry_at-rebuild_each count (ti ∷ rest) (suc n) = entry_at-rebuild_each count rest n

get_elem?-some :
    {A : Type 0} (xs : List A) (n : ℕ) → n < length xs → (a : A) × (get_elem? xs n ≡ some a)
get_elem?-some [] n h = absurd (omega arith)
get_elem?-some (x ∷ xs) zero h = (x, refl)
get_elem?-some (x ∷ xs) (suc n) h = get_elem?-some xs n (omega arith)

get_elem?-none : {A : Type 0} (xs : List A) (n : ℕ) → length xs ≤ n → get_elem? xs n ≡ none
get_elem?-none [] n h = refl
get_elem?-none (x ∷ xs) zero h = absurd (omega arith)
get_elem?-none (x ∷ xs) (suc n) h = get_elem?-none xs n (omega arith)

-- The type with id `n + 1` is the one that descriptor `n` describes.
pub typ-rebuild_types :
    (infos : List TypeInfo) (n : ℕ)
    → typ (rebuild_types infos) (pos (suc n))
      ≡ Option.map (rebuild_type (length infos + 1)) (get_elem? infos n)
unfolding typ rebuild_types
typ-rebuild_types infos n = elim (Bool-cases (leb (length (rebuild_types infos)) (suc n))) [
  | inl past ↦ rw past (
      rw (
        get_elem?-none infos n
          (omega (arith, leb→le _ _ past, length-rebuild_each (length infos + 1) infos))))
  | inr within ↦ rw within (entry_at-rebuild_each (length infos + 1) infos n)
]

link-LinksTo : (infos : List TypeInfo) (id : ℤ) → LinksTo infos id (link (length infos + 1) id)
unfolding link
link-LinksTo infos (negsuc n) = λ m small same. cc same
link-LinksTo infos (pos zero) = λ m small same. cc same
link-LinksTo infos (pos (suc n)) = elim (Bool-cases (leb (length infos + 1) (suc n))) [
  | inl past ↦ rw past λ m small same.
      (let equal : suc n ≡ suc m = cc same in omega (arith, leb→le _ _ past, small, equal))
  | inr within ↦
      let (ti, there) = get_elem?-some infos n (omega (arith, leb-false→lt _ _ within)) in
      rw within (
        refl,
        rebuild_type (length infos + 1) ti,
        typ-rebuild_types infos n ∙ ap (Option.map (rebuild_type (length infos + 1))) there,
      )
]

rebuild_fields-FieldsLinked :
    (infos : List TypeInfo) (fields : List FieldInfo)
    → FieldsLinked infos fields (map (rebuild_field (length infos + 1)) fields)
unfolding rebuild_field
rebuild_fields-FieldsLinked infos [] = tt
rebuild_fields-FieldsLinked infos (f ∷ fields) =
    (refl, link-LinksTo infos f.typ, rebuild_fields-FieldsLinked infos fields)

rebuild_type-IsLinked :
    (infos : List TypeInfo) (ti : TypeInfo) → IsLinked infos ti (rebuild_type (length infos + 1) ti)
unfolding rebuild_type
rebuild_type-IsLinked infos ti = record {
  shape = (refl, refl, refl);
  elem = link-LinksTo infos ti.elem;
  index = link-LinksTo infos ti.index;
  ptr_to = link-LinksTo infos ti.ptr_to;
  base = link-LinksTo infos ti.base;
  tag_type = link-LinksTo infos ti.tag_type;
  fields = rebuild_fields-FieldsLinked infos ti.fields;
}

-- The type that `typ` finds in the rebuilt table under the id of a descriptor has the kind, the
-- bounds and the fields' names of the descriptor, and the base types that it asks for, each in its place: a pointer is nil where no descriptor has the id that
-- stands for it, and else leads to the type with that id, which the table holds. That is so whatever
-- ids the descriptors of a file hold.
pub typ-IsLinked :
    (infos : List TypeInfo) (n : ℕ) (ti : TypeInfo)
    → get_elem? infos n ≡ some ti
    → (t : PType) × (typ (rebuild_types infos) (pos (suc n)) ≡ some t) × IsLinked infos ti t
typ-IsLinked infos n ti there = (
  rebuild_type (length infos + 1) ti,
  typ-rebuild_types infos n ∙ ap (Option.map (rebuild_type (length infos + 1))) there,
  rebuild_type-IsLinked infos ti,
)
