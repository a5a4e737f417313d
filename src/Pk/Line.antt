-- ===== src/Pk/Line.antt =====
-- The lines that the line editor of a pseudo keyboard returns.
use rsts_e_v7_2_lookalike.Prelude.{
  ℕ, zero, suc, ◌+◌, ◌-◌, ◌≤◌, ◌<◌, ◌≡◌, ◌≢◌, refl, ap, sym, ◌∙◌, Bool, true, false, ◌||◌, List, [],
  ◌∷◌, ◌++◌, arith, ltb, ◌==◌, if◌then◌else◌, lt→ltb, le→ltb, ltb→lt, ltb-false→le, length, take,
  length-append, append_assoc, append-nil, Bool-cases, inl, inr,
}
use mathlib.Core.Path.{subst}
use rsts_e_v7_2_lookalike.Bytes.Reader.{Bytes}
use rsts_e_v7_2_lookalike.Bytes.Lists.{All}
use rsts_e_v7_2_lookalike.Pk.Terminal.{
  Input, typed, forced, hung_up, Edit, line, rubout, is_nothing, goes_on, Key, goes, ends, echoed,
  is_rubout, edit_key, edit_byte, after_key, edit_from, read_edit,
}

-- A byte that stays in a line: no control character, and not the rubout.
abbrev pub IsPlain : ℕ → Type 0
IsPlain b = (32 ≤ b) × (b ≢ 127)

-- At most 255 bytes, all plain.
abbrev pub IsLine : Bytes → Type 0
IsLine s = (length s ≤ 255) × All IsPlain s

abbrev LineOf : Edit → Type 0
LineOf (line s) = IsLine s
LineOf _ = Unit

abbrev KeyOf : Key → Type 0
KeyOf (goes buf esc out) = IsLine buf
KeyOf (ends e out) = LineOf e

choose :
    (b : Bool) (x y : Key)
    → (b ≡ true → KeyOf x)
    → (b ≡ false → KeyOf y)
    → KeyOf (if b then x else y)
choose true x y h k = h refl
choose false x y h k = k refl

All-snoc : (s : Bytes) (b : ℕ) → All IsPlain s → IsPlain b → All IsPlain (s ++ b ∷ [])
All-snoc [] b h k = (k, tt)
All-snoc (c ∷ s) b h k = (h.0, All-snoc s b h.1 k)

length-rubout : (s : Bytes) → length (rubout s) ≤ length s
unfolding rubout
length-rubout [] = omega arith
length-rubout (c ∷ []) = omega arith
length-rubout (c ∷ d ∷ s) = omega (arith, length-rubout (d ∷ s))

All-rubout : (s : Bytes) → All IsPlain s → All IsPlain (rubout s)
unfolding rubout
All-rubout [] h = tt
All-rubout (c ∷ []) h = tt
All-rubout (c ∷ d ∷ s) h = (h.0, All-rubout (d ∷ s) h.1)

rubout-IsLine : (s : Bytes) → IsLine s → IsLine (rubout s)
rubout-IsLine s (short, plain) = (omega (arith, length-rubout s), All-rubout s plain)

snoc-IsLine : (s : Bytes) (b : ℕ) → length s < 255 → IsPlain b → IsLine s → IsLine (s ++ b ∷ [])
snoc-IsLine s b room k (short, plain) =
    (omega (arith, length-append s (b ∷ [])), All-snoc s b plain k)

edit_key-KeyOf :
    (echo : Bool) (prompt buf : Bytes) (b : ℕ) → IsLine buf → KeyOf (edit_key echo prompt buf b)
unfolding edit_key
edit_key-KeyOf echo prompt buf b h =
    choose (b == 0) _ _ (λ e. h)
      λ e.
        choose (b == 27) _ _ (λ e. h)
          λ e.
            choose (b == 13 || b == 10) _ _ (λ e. h)
              λ e.
                choose (b == 3) _ _ (λ e. tt)
                  λ e.
                    choose (b == 4 || b == 26) _ _
                      (λ e. choose (is_nothing buf) _ _ (λ f. tt) λ f. h)
                      λ e.
                        choose (b == 21 || b == 24) _ _ (λ e. (omega arith, tt))
                          λ e.
                            choose (is_rubout b) _ _
                              (λ e. choose (is_nothing buf) _ _ (λ f. h) λ f. rubout-IsLine buf h)
                              λ rubs.
                                choose (ltb b 32) _ _ (λ e. h)
                                  λ control.
                                    choose (ltb (length buf) 255) _ _
                                      (λ room.
                                        snoc-IsLine buf b (ground arith)
                                          (ground arith, ground arith) h)
                                      λ e. h

edit_byte-KeyOf :
    (echo : Bool) (prompt buf : Bytes) (esc b : ℕ)
    → IsLine buf
    → KeyOf (edit_byte echo prompt buf esc b)
unfolding edit_byte
edit_byte-KeyOf echo prompt buf esc b h =
    choose (ltb 0 esc) _ _ (λ e. choose (goes_on b) _ _ (λ f. h) λ f. h)
      λ e. edit_key-KeyOf echo prompt buf b h

edit_from-LineOf :
    (echo : Bool) (prompt buf : Bytes) (esc : ℕ) (inputs : List Input)
    → IsLine buf
    → LineOf (edit_from echo prompt buf esc inputs).0
unfolding edit_from
edit_from-LineOf echo prompt buf esc [] h = tt
edit_from-LineOf echo prompt buf esc (forced ∷ inputs) h = tt
edit_from-LineOf echo prompt [] esc (hung_up ∷ inputs) h = tt
edit_from-LineOf echo prompt (c ∷ buf) esc (hung_up ∷ inputs) h = h
edit_from-LineOf echo prompt buf esc (typed b ∷ inputs) h =
    go (edit_byte echo prompt buf esc b) (edit_byte-KeyOf echo prompt buf esc b h)
      (λ after esc2 k. edit_from-LineOf echo prompt after esc2 inputs k)
  where
    go :
        (k : Key)
        → KeyOf k
        → ((after : Bytes) (esc2 : ℕ)
            → IsLine after
            → LineOf (edit_from echo prompt after esc2 inputs).0)
        → LineOf (after_key k (λ after esc2. edit_from echo prompt after esc2 inputs)).0
    go (goes after esc2 out) k next = next after esc2 k
    go (ends e out) k next = k

read_edit-LineOf :
    (echo : Bool) (prompt : Bytes) (inputs : List Input) → LineOf (read_edit echo prompt inputs).0
unfolding read_edit
read_edit-LineOf echo prompt inputs = edit_from-LineOf echo prompt [] 0 inputs (omega arith, tt)

-- Whatever is typed, a line that the editor returns has at most 255 bytes, with no control character
-- and no rubout among them.
pub read_edit-IsLine :
    (echo : Bool) (prompt : Bytes) (inputs : List Input) (s : Bytes)
    → (read_edit echo prompt inputs).0 ≡ line s
    → IsLine s
read_edit-IsLine echo prompt inputs s e = subst LineOf e (read_edit-LineOf echo prompt inputs)

-- The inputs of a text and a return.
abbrev pub typing : Bytes → List Input
typing [] = typed 13 ∷ []
typing (b ∷ s) = typed b ∷ typing s

edit_key_return :
    (echo : Bool) (prompt buf : Bytes)
    → edit_key echo prompt buf 13 ≡ ends (line buf) (echoed echo (13 ∷ 10 ∷ []))
unfolding edit_key
edit_key_return echo prompt buf = refl

edit_key_plain :
    (echo : Bool) (prompt buf : Bytes) (b : ℕ)
    → IsPlain b
    → edit_key echo prompt buf b ≡ (
        if ltb (length buf) 255
        then goes (buf ++ b ∷ []) 0 (echoed echo (b ∷ []))
        else goes buf 0 [])
unfolding edit_key
edit_key_plain echo prompt buf b (high, other) = ground arith

take_nil : (n : ℕ) → take {A = ℕ} n [] ≡ []
take_nil zero = refl
take_nil (suc n) = refl

take_one : (n m b : ℕ) (s : Bytes) → n ≡ suc m → take n (b ∷ s) ≡ b ∷ take m s
take_one n m b s e = rw e refl

-- One plain byte, and one that finds no room.
edit_byte_room :
    (echo : Bool) (prompt buf : Bytes) (b : ℕ)
    → IsPlain b
    → length buf < 255
    → edit_byte echo prompt buf 0 b ≡ goes (buf ++ b ∷ []) 0 (echoed echo (b ∷ []))
unfolding edit_byte
edit_byte_room echo prompt buf b h room =
    edit_key_plain echo prompt buf b h ∙ (rw (lt→ltb (length buf) 255 room) refl)

edit_byte_full :
    (echo : Bool) (prompt buf : Bytes) (b : ℕ)
    → IsPlain b
    → 255 ≤ length buf
    → edit_byte echo prompt buf 0 b ≡ goes buf 0 []
unfolding edit_byte
edit_byte_full echo prompt buf b h full =
    edit_key_plain echo prompt buf b h ∙ (rw (le→ltb (length buf) 255 full) refl)

edit_byte_return :
    (echo : Bool) (prompt buf : Bytes)
    → edit_byte echo prompt buf 0 13 ≡ ends (line buf) (echoed echo (13 ∷ 10 ∷ []))
unfolding edit_byte
edit_byte_return echo prompt buf = edit_key_return echo prompt buf

edit_from-typing :
    (echo : Bool) (prompt buf s : Bytes)
    → All IsPlain s
    → length buf ≤ 255
    → (edit_from echo prompt buf 0 (typing s)).0 ≡ line (buf ++ take (255 - length buf) s)
unfolding edit_from
edit_from-typing echo prompt buf [] h short =
    ap (λ k. (after_key k (λ after esc2. edit_from echo prompt after esc2 [])).0)
      (edit_byte_return echo prompt buf)
    ∙ ap line (sym (ap (λ x. buf ++ x) (take_nil (255 - length buf)) ∙ append-nil buf))
edit_from-typing echo prompt buf (b ∷ s) (plain, h) short =
    elim (Bool-cases (ltb (length buf) 255)) [
      | inl room ↦
          let has_room : length buf < 255 = ltb→lt (length buf) 255 room in
          let longer : length (buf ++ b ∷ []) ≡ length buf + 1 =
            omega (arith, length-append buf (b ∷ [])) in
          let ih = edit_from-typing echo prompt (buf ++ b ∷ []) s h (omega arith) in
          rw (edit_byte_room echo prompt buf b plain has_room) (
            ih
            ∙ ap line (append_assoc buf (b ∷ []) (take (255 - length (buf ++ b ∷ [])) s))
            ∙ ap (λ x. line (buf ++ x))
                (sym
                  (take_one (255 - length buf) (255 - length (buf ++ b ∷ [])) b s (omega arith))))
      | inr miss ↦
          let full : 255 ≤ length buf = ltb-false→le (length buf) 255 miss in
          let none_left : 255 - length buf ≡ 0 = omega arith in
          let ih = edit_from-typing echo prompt buf s h short in
          rw (edit_byte_full echo prompt buf b plain full) (
            ih
            ∙ ap (λ n. line (buf ++ take n s)) none_left
            ∙ sym (ap (λ n. line (buf ++ take n (b ∷ s))) none_left))
    ]

-- A plain text that is typed with a return behind it comes back as typed, cut off after 255 bytes,
-- with echo or without, whatever the prompt.
pub read_edit-typing :
    (echo : Bool) (prompt s : Bytes)
    → All IsPlain s
    → (read_edit echo prompt (typing s)).0 ≡ line (take 255 s)
unfolding read_edit
read_edit-typing echo prompt s h = edit_from-typing echo prompt [] s h (omega arith)
