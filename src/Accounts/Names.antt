-- ===== src/Accounts/Names.antt =====
-- `normalizeAccountName` and `normalizePassword` of accounts.go, for texts of ASCII.
use rsts_e_v7_2_lookalike.Prelude.{
  ℕ, Bool, true, false, ◌&&◌, ◌||◌, Option, none, some, [], ◌∷◌, ltb, ◌==◌, if◌then◌else◌, length,
}
use rsts_e_v7_2_lookalike.Bytes.Reader.{Bytes}
use rsts_e_v7_2_lookalike.Text.Ascii.{upper, trim_space, is_upper, is_digit}

-- A letter A to Z, a digit or `$`.
abbrev pub name_byte : ℕ → Bool
name_byte c = is_upper c || is_digit c || c == b'$'

unfoldable pub all_name_bytes : Bytes → Bool
all_name_bytes [] = true
all_name_bytes (c ∷ s) = name_byte c && all_name_bytes s

abbrev is_empty : Bytes → Bool
is_empty [] = true
is_empty (c ∷ s) = false

abbrev checked : ℕ → Bytes → Option Bytes
checked longest s =
    if is_empty s
    then none
    else if ltb longest (length s)
    then none
    else if all_name_bytes s
    then some s
    else none

unfoldable pub normalize_account_name : Bytes → Option Bytes
unfolding all_name_bytes
normalize_account_name name = checked 9 (upper (trim_space name))

unfoldable pub normalize_password : Bytes → Option Bytes
unfolding all_name_bytes
normalize_password password = checked 16 (upper (trim_space password))
