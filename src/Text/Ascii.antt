-- ===== src/Text/Ascii.antt =====
-- `strings.ToUpper`, `strings.ToLower`, `strings.TrimSpace` and `strings.ReplaceAll(s, c, "")`, over
-- ASCII: bytes beyond it are left as they are, where the host folds and trims letters and blanks of
-- Unicode too.
use rsts_e_v7_2_lookalike.Prelude.{
  ℕ, ◌+◌, ◌-◌, ◌≡◌, refl, ap₂, Bool, ◌&&◌, ◌||◌, [], ◌∷◌, map, arith, leb, ◌==◌, if◌then◌else◌,
}
use rsts_e_v7_2_lookalike.Bytes.Reader.{Bytes}
use mathlib.Core.List.{reverse}
use Prim.Native.Char.{code}
use Prim.Native.String.{String}

abbrev pub is_upper : ℕ → Bool
is_upper c = leb b'A' c && leb c b'Z'

abbrev pub is_lower : ℕ → Bool
is_lower c = leb b'a' c && leb c b'z'

abbrev pub is_digit : ℕ → Bool
is_digit c = leb b'0' c && leb c b'9'

unfoldable pub to_upper : ℕ → ℕ
to_upper c = if is_lower c then c - 32 else c

unfoldable pub to_lower : ℕ → ℕ
to_lower c = if is_upper c then c + 32 else c

unfoldable pub upper : Bytes → Bytes
unfolding to_upper
upper s = map to_upper s

unfoldable pub lower : Bytes → Bytes
unfolding to_lower
lower s = map to_lower s

-- White space: tab, line feed, vertical tab, form feed, carriage return, space.
abbrev pub is_space : ℕ → Bool
is_space c = (leb 9 c && leb c 13) || c == 32

unfoldable pub trim_left : Bytes → Bytes
trim_left [] = []
trim_left (c ∷ s) = if is_space c then trim_left s else c ∷ s

unfoldable pub trim_space : Bytes → Bytes
unfolding trim_left
trim_space s = reverse (trim_left (reverse (trim_left s)))

-- `strings.ReplaceAll(s, string(c), "")`
unfoldable pub remove_all : ℕ → Bytes → Bytes
remove_all c [] = []
remove_all c (d ∷ s) = if d == c then remove_all c s else d ∷ remove_all c s

to_upper_idem : (c : ℕ) → to_upper (to_upper c) ≡ to_upper c
unfolding to_upper
to_upper_idem c = ground arith

pub upper_idem : (s : Bytes) → upper (upper s) ≡ upper s
unfolding upper
upper_idem [] = refl
upper_idem (c ∷ s) = ap₂ (λ d t. d ∷ t) (to_upper_idem c) (upper_idem s)

-- The bytes of a literal.
abbrev pub codes : String → Bytes
codes String.[] = []
codes (String.◌∷◌ c s) = code c ∷ codes s
