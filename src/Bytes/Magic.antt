-- ===== src/Bytes/Magic.antt =====
-- `strings.HasPrefix`, and the magic line in front of an image file.
use rsts_e_v7_2_lookalike.Prelude.{
  ◌≡◌, refl, Bool, true, false, [], ◌∷◌, ◌++◌, Option, none, some, arith, ◌==◌, if◌then◌else◌,
  length, drop,
}
use rsts_e_v7_2_lookalike.Bytes.Reader.{Bytes}

unfoldable pub has_prefix : Bytes → Bytes → Bool
has_prefix text [] = true
has_prefix [] (c ∷ magic) = false
has_prefix (d ∷ text) (c ∷ magic) = if d == c then has_prefix text magic else false

-- The text behind its magic line, if it has one.
unfoldable pub unwrap : Bytes → Bytes → Option Bytes
unfolding has_prefix
unwrap magic text = if has_prefix text magic then some (drop (length magic) text) else none

has_prefix-append : (magic payload : Bytes) → has_prefix (magic ++ payload) magic ≡ true
unfolding has_prefix
has_prefix-append [] payload = refl
has_prefix-append (c ∷ magic) payload = ground (arith, has_prefix-append magic payload)

drop-append_self : (magic payload : Bytes) → drop (length magic) (magic ++ payload) ≡ payload
drop-append_self [] payload = refl
drop-append_self (c ∷ magic) payload = drop-append_self magic payload

pub unwrap-append : (magic payload : Bytes) → unwrap magic (magic ++ payload) ≡ some payload
unfolding unwrap
unwrap-append magic payload = rw (has_prefix-append magic payload, drop-append_self magic payload)

-- A text that has the magic line is that line and the payload.
pub unwrap_sound :
    (magic text payload : Bytes) → unwrap magic text ≡ some payload → text ≡ magic ++ payload
unfolding unwrap
unwrap_sound [] text payload h = ground arith
unwrap_sound (c ∷ magic) [] payload h = ground arith
unwrap_sound (c ∷ magic) (d ∷ text) payload h = ground (arith, unwrap_sound magic text payload)

-- `==` of two strings.
unfoldable pub bytes_eq : Bytes → Bytes → Bool
bytes_eq [] [] = true
bytes_eq (b ∷ bs) (c ∷ cs) = if b == c then bytes_eq bs cs else false
bytes_eq _ _ = false

pub bytes_eq_refl : (s : Bytes) → bytes_eq s s ≡ true
unfolding bytes_eq
bytes_eq_refl [] = refl
bytes_eq_refl (b ∷ bs) = ground (arith, bytes_eq_refl bs)

pub bytes_eq_sound : (s t : Bytes) → bytes_eq s t ≡ true → s ≡ t
unfolding bytes_eq
bytes_eq_sound [] [] h = refl
bytes_eq_sound [] (c ∷ cs) h = cc
bytes_eq_sound (b ∷ bs) [] h = cc
bytes_eq_sound (b ∷ bs) (c ∷ cs) h = ground (arith, bytes_eq_sound bs cs)
