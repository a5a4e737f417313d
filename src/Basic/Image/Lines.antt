-- ===== src/Basic/Image/Lines.antt =====
-- `lineIP` and `nextLineIP` of pcode.go: the address of a line, and that of the line behind it.
use rsts_e_v7_2_lookalike.Prelude.{
  Option, none, some, List, [], ◌∷◌, ◌≡◌, refl, ◌++◌, arith, if◌then◌else◌, false, ◌↔◌,
}
use rsts_e_v7_2_lookalike.Prelude.Int.{ℤ, eq_ℤ, eq_ℤ-refl}
use rsts_e_v7_2_lookalike.Basic.Image.{Line, Image}

-- `none` is the result `0, false`.
line_in : List Line → ℤ → Option ℤ
line_in [] n = none
line_in (l ∷ rest) n = if eq_ℤ l.num n then some l.ip else line_in rest n

unfoldable pub line_ip : Image → ℤ → Option ℤ
unfolding line_in
line_ip img n = line_in img.lines n

-- `img.Lines[i+1].IP`, or `img.HaltIP` behind the last line.
abbrev pub first_or : ℤ → List Line → ℤ
first_or halt [] = halt
first_or halt (l ∷ rest) = l.ip

next_in : ℤ → List Line → ℤ → Option ℤ
next_in halt [] n = none
next_in halt (l ∷ rest) n = if eq_ℤ l.num n then some (first_or halt rest) else next_in halt rest n

unfoldable pub next_line_ip : Image → ℤ → Option ℤ
unfolding next_in
next_line_ip img n = next_in img.halt_ip img.lines n

-- No line in front has the number.
abbrev pub Lacks : List Line → ℤ → Type 0
Lacks [] n = Unit
Lacks (l ∷ rest) n = (eq_ℤ l.num n ≡ false) × Lacks rest n

-- For the first line with a number, `lineIP` gives its address and `nextLineIP` the address of the
-- line listed behind it, or that of the halt behind the last line.
pub line_ip-next_line_ip :
    (img : Image) (front behind : List Line) (l : Line)
    → img.lines ≡ front ++ l ∷ behind
    → Lacks front l.num
    → (line_ip img l.num ≡ some l.ip)
      × (next_line_ip img l.num ≡ some (first_or img.halt_ip behind))
unfolding line_ip next_line_ip
line_ip-next_line_ip img front behind l e h = rw e (found front h)
  where
    found :
        (front : List Line)
        → Lacks front l.num
        → (line_in (front ++ l ∷ behind) l.num ≡ some l.ip)
          × (next_in img.halt_ip (front ++ l ∷ behind) l.num ≡ some (first_or img.halt_ip behind))
    found [] h = rw (eq_ℤ-refl l.num) (refl, refl)
    found (m ∷ front) h = rw h.0 (found front h.1)

-- The two agree on which lines there are.
pub line_ip-eq-none_iff :
    (img : Image) (n : ℤ) → (line_ip img n ≡ none) ↔ (next_line_ip img n ≡ none)
unfolding line_ip next_line_ip
line_ip-eq-none_iff img n = same img.lines
  where
    same : (ls : List Line) → (line_in ls n ≡ none) ↔ (next_in img.halt_ip ls n ≡ none)
    same [] = (λ e. refl, λ e. refl)
    same (l ∷ ls) = ground (arith, same ls)
