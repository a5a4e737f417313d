-- ===== src/Bytes/Reader.antt =====
-- The readers of pcode.go and pascal_pcode.go. A closure there reads at `off` and moves it on, and
-- every error is `Compiled file`; here a reader takes the bytes from `off` on and returns those
-- that are left, and `none` is that error.
use rsts_e_v7_2_lookalike.Prelude.{
  ℕ, ◌≡◌, refl, ◌≤◌, Bool, true, false, Option, none, some, List, ◌++◌, append_assoc, arith, ltb,
  if◌then◌else◌, length, length-append, take, drop, take-append, drop-append, take-length,
  drop-length, le→ltb, Bool-cases, ltb-false→le, inl, inr, ap, ◌∙◌,
}

abbrev pub Bytes : Type 0
Bytes = List ℕ

abbrev pub Reader : Type 0 → Type 0
Reader A = Bytes → Option (A × Bytes)

abbrev pub pure : {A : Type 0} → A → Reader A
pure a bs = some (a, bs)

-- `return nil, err`
abbrev pub bad_image : {A : Type 0} → Reader A
bad_image bs = none

infixl 5 ◌>>=◌ ◌>>◌
abbrev pub ◌>>=◌ : {A B : Type 0} → Reader A → (A → Reader B) → Reader B
◌>>=◌ m f bs = elim (m bs) [ none ↦ none | some (a, rest) ↦ f a rest ]

abbrev pub ◌>>◌ : {A B : Type 0} → Reader A → Reader B → Reader B
m >> k = m >>= λ _. k

-- `if bad { return nil, err }`
abbrev pub refuse_if : Bool → Reader (Unit {0})
refuse_if true = bad_image
refuse_if false = pure tt

-- `if off+n > len(p) { return err }`, then `p[off:off+n]` and `off += n`.
unfoldable pub chunk : ℕ → Reader Bytes
chunk n bs = if ltb (length bs) n then none else some (take n bs, drop n bs)

-- `p` reads `a` off the front of `printed` and leaves what follows.
pub record Reads {A : Type 0} (p : Reader A) (printed : Bytes) (a : A) : Type 0 where
  pub run : (rest : Bytes) → p (printed ++ rest) ≡ some (a, rest)

-- What follows the bytes that `p` reads does not change what it reads.
pub record Extends {A : Type 0} (p : Reader A) : Type 0 where
  pub run :
      (bs more : Bytes) (a : A) (rest : Bytes)
      → p bs ≡ some (a, rest)
      → p (bs ++ more) ≡ some (a, rest ++ more)

-- A result, with more bytes left.
abbrev pub with_more : {A : Type 0} → Bytes → Option (A × Bytes) → Option (A × Bytes)
with_more more none = none
with_more more (some (a, rest)) = some (a, rest ++ more)

-- The value of a whole file that has been read: what is left of it is not looked at.
abbrev pub loaded : {A : Type 0} → Option (A × Bytes) → Option A
loaded none = none
loaded (some (a, rest)) = some a

module _ {A B : Type 0} where
  pub Reads-bind :
      {p : Reader A} (f : A → Reader B) {xs ys : Bytes} {a : A} {b : B}
      → Reads p xs a
      → Reads (f a) ys b
      → Reads (p >>= f) (xs ++ ys) b
  Reads-bind {p} f {xs} {ys} hp hf = record {
    run = λ rest. rw (append_assoc, hp.run (ys ++ rest), ◌>>=◌) (hf.run rest);
  }

  pub Extends-bind :
      {p : Reader A} {f : A → Reader B} → Extends p → ((a : A) → Extends (f a)) → Extends (p >>= f)
  Extends-bind {p} {f} hp hf = record { run = λ bs more b rest. step bs more b rest (p bs) refl }
    where
      step :
          (bs more : Bytes) (b : B) (rest : Bytes) (r : Option (A × Bytes))
          → p bs ≡ r
          → (elim r [ none ↦ none | some (a, left) ↦ f a left ]) ≡ some (b, rest)
          → (p >>= f) (bs ++ more) ≡ some (b, rest ++ more)
      step bs more b rest none e h = cc
      step bs more b rest (some (a, left)) e h =
          rw (hp.run bs more a left e, ◌>>=◌) ((hf a).run left more b rest h)

  pub Reads-end :
      {p : Reader A} {xs : Bytes} {a : A} (g : A → B)
      → Reads p xs a
      → Reads (p >>= λ a. pure (g a)) xs (g a)
  Reads-end g hp = record { run = λ rest. rw (hp.run rest, ◌>>=◌) }

pub Reads-refuse_if :
    {B : Type 0} {t : Bool} {p : Reader B} {xs : Bytes} {b : B}
    → t ≡ false
    → Reads p xs b
    → Reads (refuse_if t >> p) xs b
Reads-refuse_if e hp = record { run = λ rest. rw (e, ◌>>◌, ◌>>=◌, refuse_if) (hp.run rest) }

pub Extends-pure : {A : Type 0} (a : A) → Extends (pure a)
Extends-pure a = record { run = λ bs more b rest h. cc }

pub Extends-refuse_if : (t : Bool) → Extends (refuse_if t)
Extends-refuse_if true = record { run = λ bs more a rest h. cc }
Extends-refuse_if false = record { run = λ bs more a rest h. cc }

pub Reads-chunk : (xs : Bytes) → Reads (chunk (length xs)) xs xs
unfolding chunk
Reads-chunk xs = record {
  run = λ rest. rw (
    le→ltb (length (xs ++ rest)) (length xs) (omega (arith, length-append xs rest)),
    take-append (length xs) xs rest (omega arith),
    drop-append (length xs) xs rest (omega arith),
    take-length xs,
    drop-length xs,
  );
}

chunk_enough : (n : ℕ) (bs : Bytes) → n ≤ length bs → chunk n bs ≡ some (take n bs, drop n bs)
unfolding chunk
chunk_enough n bs h = rw (le→ltb (length bs) n h)

chunk_extends :
    (n : ℕ) (bs more a rest : Bytes)
    → chunk n bs ≡ some (a, rest)
    → chunk n (bs ++ more) ≡ some (a, rest ++ more)
unfolding chunk
chunk_extends n bs more a rest h = elim (Bool-cases (ltb (length bs) n)) [
  | inl short ↦ cc (rw short at h)
  | inr enough ↦
      let fits : n ≤ length bs = ltb-false→le (length bs) n enough in
      let still : n ≤ length (bs ++ more) = omega (arith, length-append bs more) in
      chunk_enough n (bs ++ more) still
      ∙ rw (take-append n bs more fits, drop-append n bs more fits)
          (ap (with_more more) (rw enough at h))
]

pub Extends-chunk : (n : ℕ) → Extends (chunk n)
Extends-chunk n = record { run = chunk_extends n }
