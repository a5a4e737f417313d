-- ===== src/Pk/Conduit/Lines.antt =====
-- What `ctrlReadLine` takes out of a link.
use rsts_e_v7_2_lookalike.Prelude.{
  ◌≡◌, refl, ap, sym, ◌∙◌, Bool, true, false, Option, none, some, [], ◌∷◌, ◌++◌, ◌==◌,
  if◌then◌else◌, append_assoc, append-nil, Bool-cases, inl, inr,
}
use rsts_e_v7_2_lookalike.Bytes.Reader.{Bytes}
use rsts_e_v7_2_lookalike.Pk.{
  split_line, more_line, line_read, last_line, LineRead, no_line, interrupted, waits,
  ctrl_read_line, Link,
}
use rsts_e_v7_2_lookalike.Pk.Conduit.{ToCtrl}

-- The two parts of a text that is split at its first line feed.
abbrev Split : Bytes → Option (Bytes × Bytes) → Type 0
Split s none = Unit
Split s (some (text, rest)) = s ≡ text ++ rest

split_line-Split : (s : Bytes) → Split s (split_line s)
unfolding split_line
split_line-Split [] = tt
split_line-Split (b ∷ s) = elim (Bool-cases (b == 10)) [
  | inl hit ↦ rw hit refl
  | inr miss ↦ rw miss (go (split_line s) (split_line-Split s))
]
  where
    go : (o : Option (Bytes × Bytes)) → Split s o → Split (b ∷ s) (more_line b o)
    go none h = tt
    go (some (text, rest)) h = ap (λ t. b ∷ t) h

-- What `ctrlReadLine` takes out of the link, the line's end included.
abbrev pub line_text : Link → Option (Bytes × Bytes) → Bytes
line_text p (some (text, rest)) = text
line_text p none = if p.dead then p.to_ctrl else []

-- What `ctrlReadLine` does where there is no whole line.
abbrev no_whole_line : Link → Bool → Bool → LineRead × Link
no_whole_line p interrupt dead =
    if dead
    then last_line p p.to_ctrl
    else if interrupt
    then (no_line interrupted, p)
    else (no_line waits, p)

last_line_empties : (p : Link) (text : Bytes) → p.to_ctrl ≡ text → (last_line p text).1.to_ctrl ≡ []
last_line_empties p [] at = at
last_line_empties p (b ∷ text) at = refl

no_whole_line-ToCtrl :
    (p : Link) (interrupt dead : Bool) (c d : Bytes)
    → ToCtrl p c d
    → ToCtrl (no_whole_line p interrupt dead).1 c (d ++ (if dead then p.to_ctrl else []))
no_whole_line-ToCtrl p interrupt true c d e =
    e
    ∙ sym (append-nil (d ++ p.to_ctrl))
    ∙ ap (λ x. (d ++ p.to_ctrl) ++ x) (sym (last_line_empties p p.to_ctrl refl))
no_whole_line-ToCtrl p true false c d e = e ∙ ap (λ x. x ++ p.to_ctrl) (sym (append-nil d))
no_whole_line-ToCtrl p false false c d e = e ∙ ap (λ x. x ++ p.to_ctrl) (sym (append-nil d))

last_line-to_job : (p : Link) (text : Bytes) → (last_line p text).1.to_job ≡ p.to_job
last_line-to_job p [] = refl
last_line-to_job p (b ∷ text) = refl

no_whole_line-to_job :
    (p : Link) (interrupt dead : Bool) → (no_whole_line p interrupt dead).1.to_job ≡ p.to_job
no_whole_line-to_job p interrupt true = last_line-to_job p p.to_ctrl
no_whole_line-to_job p true false = refl
no_whole_line-to_job p false false = refl

pub ctrl_read_line-ToCtrl :
    (p : Link) (interrupt : Bool) (c d : Bytes)
    → ToCtrl p c d
    → ToCtrl (ctrl_read_line p interrupt).1 c (d ++ line_text p (split_line p.to_ctrl))
unfolding ctrl_read_line
ctrl_read_line-ToCtrl p interrupt c d e = go (split_line p.to_ctrl) (split_line-Split p.to_ctrl)
  where
    go :
        (o : Option (Bytes × Bytes))
        → Split p.to_ctrl o
        → ToCtrl (line_read p interrupt o).1 c (d ++ line_text p o)
    go (some (text, rest)) h = e ∙ ap (λ x. d ++ x) h ∙ sym (append_assoc d text rest)
    go none h = no_whole_line-ToCtrl p interrupt p.dead c d e

pub ctrl_read_line-to_job :
    (p : Link) (interrupt : Bool) → (ctrl_read_line p interrupt).1.to_job ≡ p.to_job
unfolding ctrl_read_line
ctrl_read_line-to_job p interrupt = go (split_line p.to_ctrl)
  where
    go : (o : Option (Bytes × Bytes)) → (line_read p interrupt o).1.to_job ≡ p.to_job
    go (some (text, rest)) = refl
    go none = no_whole_line-to_job p interrupt p.dead
