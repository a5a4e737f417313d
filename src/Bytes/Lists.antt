-- ===== src/Bytes/Lists.antt =====
-- Counted sequences: the loops `for i := uint32(0); i < n; i++` of the image readers, and the loops
-- that wrote them.
use rsts_e_v7_2_lookalike.Prelude.{ℕ, zero, suc, ◌%◌, ◌^◌, ◌<◌, List, [], ◌∷◌, ◌++◌, length, refl}
use rsts_e_v7_2_lookalike.Bytes.Reader.{
  Bytes, Reader, pure, ◌>>=◌, Reads, Reads-bind, Reads-end, Extends, Extends-bind, Extends-pure,
}
use rsts_e_v7_2_lookalike.Bytes.Words.{put_u32, u32, Reads-u32, Extends-u32}
use native.Mathlib.Nat.{mod-eq_of_lt}

module _ {A : Type 0} where
  unfoldable pub put_each : (A → Bytes) → List A → Bytes
  put_each put [] = []
  put_each put (a ∷ items) = put a ++ put_each put items

  unfoldable pub put_list : (A → Bytes) → List A → Bytes
  unfolding put_each
  put_list put items = put_u32 (length items % 2 ^ 32) ++ put_each put items

  unfoldable pub read_n : ℕ → Reader A → Reader (List A)
  read_n zero p = pure []
  read_n (suc n) p = do a ← p; items ← read_n n p; pure (a ∷ items)

  unfoldable pub read_list : Reader A → Reader (List A)
  unfolding read_n
  read_list p = do n ← u32; read_n n p

-- `P` holds of every element.
abbrev pub All {ℓ κ} : {A : Type ℓ} → (A → Type κ) → List A → Type κ
All P [] = Unit
All P (a ∷ items) = P a × All P items

module _ {A : Type 0} where
  pub Reads-read_n :
      (P : A → Type 0) (p : Reader A) (put : A → Bytes)
      → ((a : A) → P a → Reads p (put a) a)
      → (items : List A) → All P items
      → Reads (read_n (length items) p) (put_each put items) items
  unfolding read_n put_each
  Reads-read_n P p put h [] all = record { run = λ rest. refl }
  Reads-read_n P p put h (a ∷ items) all =
      Reads-bind _ (h a all.0) (Reads-end (λ t. a ∷ t) (Reads-read_n P p put h items all.1))

  -- A list shorter than 2 ^ 32 whose elements read back reads back.
  pub Reads-list :
      (P : A → Type 0) {p : Reader A} {put : A → Bytes}
      → ((a : A) → P a → Reads p (put a) a)
      → (items : List A) → length items < 2 ^ 32
      → All P items
      → Reads (read_list p) (put_list put items) items
  unfolding read_list put_list
  Reads-list P {p} {put} h items short all =
      rw (mod-eq_of_lt short)
        (Reads-bind _ (Reads-u32 (length items) short) (Reads-read_n P p put h items all))

  pub Extends-read_n : (n : ℕ) (p : Reader A) → Extends p → Extends (read_n n p)
  unfolding read_n
  Extends-read_n zero p h = Extends-pure []
  Extends-read_n (suc n) p h =
      Extends-bind h (λ a. Extends-bind (Extends-read_n n p h) (λ items. Extends-pure (a ∷ items)))

  pub Extends-list : {p : Reader A} → Extends p → Extends (read_list p)
  unfolding read_list
  Extends-list {p} h = Extends-bind Extends-u32 (λ n. Extends-read_n n p h)
