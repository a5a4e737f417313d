-- ===== src/Pk/Conduit/Returned.antt =====
-- What a line that `ctrlReadLine` returns is of the text in the link.
use rsts_e_v7_2_lookalike.Prelude.{
  ℕ, ◌≡◌, ◌≢◌, ◌⊎◌, refl, ap, sym, ◌∙◌, Bool, true, false, Option, none, some, [], ◌∷◌, ◌++◌, arith,
  ◌==◌, if◌then◌else◌, append-nil, Bool-cases, inl, inr,
}
use mathlib.Core.Path.{subst}
use rsts_e_v7_2_lookalike.Bytes.Reader.{Bytes}
use rsts_e_v7_2_lookalike.Bytes.Lists.{All}
use rsts_e_v7_2_lookalike.Pk.{
  split_line, more_line, is_line_end, trim_line_end, line_read, last_line, LineRead, line, no_line,
  interrupted, waits, ctrl_read_line, Link,
}

-- A return or a line feed.
abbrev pub IsEnd : ℕ → Type 0
IsEnd b = (b ≡ 13) ⊎ (b ≡ 10)

-- The last byte, if there is one, is no return and no line feed.
abbrev pub EndsPlain : Bytes → Type 0
EndsPlain [] = Unit
EndsPlain (b ∷ []) = ¬ (IsEnd b)
EndsPlain (b ∷ c ∷ s) = EndsPlain (c ∷ s)

-- No byte but the last is a line feed.
abbrev FeedsLast : Bytes → Type 0
FeedsLast [] = Unit
FeedsLast (b ∷ []) = Unit
FeedsLast (b ∷ c ∷ s) = (b ≢ 10) × FeedsLast (c ∷ s)

-- A line that is returned stood first in the link, with returns and line feeds behind it that go
-- too; it holds no line feed and does not end in a return. With no line, nothing goes, and no line
-- feed was there.
abbrev pub LineTaken : LineRead → Bytes → Bytes → Type 0
LineTaken (line l) before left =
    (ends : Bytes) × (before ≡ (l ++ ends) ++ left)
    × All IsEnd ends
    × EndsPlain l
    × All (λ b. b ≢ 10) l
LineTaken (no_line t) before left = (left ≡ before) × All (λ b. b ≢ 10) before

abbrev Trimmed : Bytes → Bytes → Type 0
Trimmed s l = (ends : Bytes) × (s ≡ l ++ ends) × All IsEnd ends × EndsPlain l

is_line_end-IsEnd : (b : ℕ) → is_line_end b ≡ true → IsEnd b
is_line_end-IsEnd b h = ground arith

IsEnd-is_line_end : (b : ℕ) → is_line_end b ≡ false → ¬ (IsEnd b)
IsEnd-is_line_end b h = ground arith

trim_line_end-Trimmed : (s : Bytes) → Trimmed s (trim_line_end s)
unfolding trim_line_end
trim_line_end-Trimmed [] = ([], refl, tt, tt)
trim_line_end-Trimmed (b ∷ s) = go (trim_line_end s) (trim_line_end-Trimmed s)
  where
    go :
        (l : Bytes)
        → Trimmed s l
        → Trimmed (b ∷ s) (elim l as (λ _. Bytes) [
          | [] ↦ if is_line_end b then [] else b ∷ []
          | c ∷ left ↦ b ∷ c ∷ left
        ])
    go [] (ends, at, all, plain) = elim (Bool-cases (is_line_end b)) [
      | inl end ↦ rw end (b ∷ ends, ap (λ t. b ∷ t) at, (is_line_end-IsEnd b end, all), tt)
      | inr other ↦ rw other (ends, ap (λ t. b ∷ t) at, all, IsEnd-is_line_end b other)
    ]
    go (c ∷ left) (ends, at, all, plain) = (ends, ap (λ t. b ∷ t) at, all, plain)

feed_free : (l ends : Bytes) → FeedsLast (l ++ ends) → EndsPlain l → All (λ b. b ≢ 10) l
feed_free [] ends f plain = tt
feed_free (b ∷ []) ends f plain = ((λ h. plain (inr h)), tt)
feed_free (b ∷ c ∷ l) ends f plain = (f.0, feed_free (c ∷ l) ends f.1 plain)

All-FeedsLast : (s : Bytes) → All (λ b. b ≢ 10) s → FeedsLast s
All-FeedsLast [] h = tt
All-FeedsLast (b ∷ []) h = tt
All-FeedsLast (b ∷ c ∷ s) h = (h.0, All-FeedsLast (c ∷ s) h.1)

abbrev Parted : Bytes → Option (Bytes × Bytes) → Type 0
Parted s none = All (λ b. b ≢ 10) s
Parted s (some (text, rest)) = (s ≡ text ++ rest) × FeedsLast text

split_line-Parted : (s : Bytes) → Parted s (split_line s)
unfolding split_line
split_line-Parted [] = tt
split_line-Parted (b ∷ s) = elim (Bool-cases (b == 10)) [
  | inl hit ↦ rw hit (refl, tt)
  | inr miss ↦ rw miss (go (ground arith) (split_line s) (split_line-Parted s))
]
  where
    longer : b ≢ 10 → (text : Bytes) → FeedsLast text → FeedsLast (b ∷ text)
    longer ne [] f = tt
    longer ne (c ∷ text) f = (ne, f)

    go : b ≢ 10 → (o : Option (Bytes × Bytes)) → Parted s o → Parted (b ∷ s) (more_line b o)
    go ne none h = (ne, h)
    go ne (some (text, rest)) (at, f) = (ap (λ t. b ∷ t) at, longer ne text f)

-- A text of one line, and what is left behind it.
trimmed-LineTaken :
    (s text rest : Bytes)
    → s ≡ text ++ rest
    → FeedsLast text
    → LineTaken (line (trim_line_end text)) s rest
trimmed-LineTaken s text rest at f =
    let (ends, is, all, plain) = trim_line_end-Trimmed text in
    (
      ends,
      at ∙ ap (λ t. t ++ rest) is,
      all,
      plain,
      feed_free (trim_line_end text) ends (subst FeedsLast is f) plain,
    )

last_line-LineTaken :
    (p : Link) (text : Bytes)
    → p.to_ctrl ≡ text
    → All (λ b. b ≢ 10) text
    → LineTaken (last_line p text).0 p.to_ctrl (last_line p text).1.to_ctrl
last_line-LineTaken p [] at free = (refl, subst (All (λ b. b ≢ 10)) (sym at) free)
last_line-LineTaken p (b ∷ text) at free =
    trimmed-LineTaken p.to_ctrl (b ∷ text) [] (at ∙ sym (append-nil (b ∷ text)))
      (All-FeedsLast (b ∷ text) free)

pub ctrl_read_line-LineTaken :
    (p : Link) (interrupt : Bool)
    → LineTaken (ctrl_read_line p interrupt).0 p.to_ctrl (ctrl_read_line p interrupt).1.to_ctrl
unfolding ctrl_read_line
ctrl_read_line-LineTaken p interrupt = go (split_line p.to_ctrl) (split_line-Parted p.to_ctrl)
  where
    go :
        (o : Option (Bytes × Bytes))
        → Parted p.to_ctrl o
        → LineTaken (line_read p interrupt o).0 p.to_ctrl (line_read p interrupt o).1.to_ctrl
    go (some (text, rest)) (at, f) = trimmed-LineTaken p.to_ctrl text rest at f
    go none free = no_whole p.dead interrupt
      where
        no_whole :
            (dead up : Bool)
            → LineTaken
                (if dead
                  then last_line p p.to_ctrl
                  else if up
                  then (no_line interrupted, p)
                  else (no_line waits, p)).0
                p.to_ctrl
                (if dead
                  then last_line p p.to_ctrl
                  else if up
                  then (no_line interrupted, p)
                  else (no_line waits, p)).1.to_ctrl
        no_whole true up = last_line-LineTaken p p.to_ctrl refl free
        no_whole false true = (refl, free)
        no_whole false false = (refl, free)
