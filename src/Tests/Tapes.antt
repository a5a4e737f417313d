-- ===== src/Tests/Tapes.antt =====
-- A backup tape with two files.
use rsts_e_v7_2_lookalike.Prelude.{◌≡◌, refl, Bool, true, List, [], ◌∷◌, ◌++◌, arith}
use rsts_e_v7_2_lookalike.Bytes.Reader.{Bytes}
use rsts_e_v7_2_lookalike.Text.Ascii.{codes, upper}
use rsts_e_v7_2_lookalike.Tape.{padded, trim_right, backup, restore_backup}
use rsts_e_v7_2_lookalike.Tape.RoundTrip.{AllFit, restore_backup-backup}

abbrev takes_all : Bytes → Bytes → Bool
takes_all name body = true

abbrev two_files : List (Bytes × Bytes)
two_files = (codes "hello.bas", 49 ∷ 48 ∷ 0 ∷ []) ∷ (codes "EMPTY.TXT", []) ∷ []

two_files-AllFit : AllFit takes_all two_files
unfolding padded trim_right upper
two_files-AllFit = ((λ e. cc e), omega arith, refl, ((λ e. cc e), omega arith, refl, tt))

restore_backup-backup_example :
    restore_backup takes_all (backup two_files ++ 7 ∷ [])
    ≡ ((codes "HELLO.BAS", 49 ∷ 48 ∷ 0 ∷ []) ∷ (codes "EMPTY.TXT", []) ∷ [], true)
unfolding padded trim_right upper
restore_backup-backup_example = restore_backup-backup takes_all two_files (7 ∷ []) two_files-AllFit
