-- ===== src/Tape.antt =====
-- Backup tapes (magtape.go: `cmdBackup`, `writeBckFile`, `restoreBackup`). A tape is its bytes; what
-- the disk says to a restored file, whose name it parses first, is the parameter `accepts`. The
-- listing of the directory, and files of it that cannot be read, are left to the caller.
pub mod Blocks
pub mod RoundTrip
use rsts_e_v7_2_lookalike.Prelude.{
  ℕ, zero, suc, ◌+◌, ◌-◌, ◌%◌, ◌^◌, ◌≡◌, refl, Bool, true, false, not, ◌||◌, Option, none, some,
  List, [], ◌∷◌, ◌++◌, ◌==◌, if◌then◌else◌, length, take, drop,
}
use rsts_e_v7_2_lookalike.Bytes.Reader.{Bytes, Reader, pure, ◌>>=◌, chunk}
use rsts_e_v7_2_lookalike.Bytes.Words.{put_u32, u32}
use rsts_e_v7_2_lookalike.Bytes.Magic.{bytes_eq}
use rsts_e_v7_2_lookalike.Text.Ascii.{codes, upper}

-- `copy` into `n` bytes of zero.
unfoldable pub padded : ℕ → Bytes → Bytes
padded zero xs = []
padded (suc n) [] = 0 ∷ padded n []
padded (suc n) (x ∷ xs) = x ∷ padded n xs

abbrev pub block_size : ℕ
block_size = 512

abbrev pub bck_magic : Bytes
bck_magic = codes "BCK1"

-- The record in front of a file.
unfoldable pub header : Bytes → ℕ → Bytes
unfolding padded upper put_u32
header name size =
    bck_magic ++ (padded 16 (upper name) ++ (put_u32 (size % 2 ^ 32) ++ padded 488 []))

-- The blocks of a body, the last one filled up with zeros. A body has no more blocks than bytes.
unfoldable pub put_blocks : ℕ → ℕ → Bytes → Bytes
unfolding padded
put_blocks block zero body = []
put_blocks block (suc fuel) [] = []
put_blocks block (suc fuel) (b ∷ body) =
    padded block (b ∷ body) ++ put_blocks block fuel (drop block (b ∷ body))

unfoldable pub write_bck_file : Bytes → Bytes → Bytes
unfolding header put_blocks
write_bck_file [] body = header [] (length body)
write_bck_file (c ∷ name) body =
    header (c ∷ name) (length body) ++ put_blocks block_size (length body) body

-- The tape of the files, which a record without a name ends.
unfoldable pub backup : List (Bytes × Bytes) → Bytes
unfolding write_bck_file
backup [] = write_bck_file [] []
backup ((name, body) ∷ files) = write_bck_file name body ++ backup files

-- `strings.TrimRight(s, "\x00 ")`
abbrev with_trimmed : ℕ → Bytes → Bytes
with_trimmed c [] = if c == 0 || c == 32 then [] else c ∷ []
with_trimmed c (d ∷ s) = c ∷ d ∷ s

unfoldable pub trim_right : Bytes → Bytes
trim_right [] = []
trim_right (c ∷ s) = with_trimmed c (trim_right s)

-- The loop over the blocks of a body, of which `left` bytes are to come.
unfoldable pub read_body : ℕ → ℕ → ℕ → Reader Bytes
unfolding chunk
read_body block zero left = pure []
read_body block (suc fuel) left =
    let rest = read_body block fuel (left - block) in
    if left == 0
    then pure []
    else (chunk block >>= λ c. rest >>= λ body. pure (take left c ++ body))

abbrev pub word_or_zero : Option (ℕ × Bytes) → ℕ
word_or_zero none = 0
word_or_zero (some (v, rest)) = v

abbrev pub name_in : Bytes → Bytes
name_in record_bytes = trim_right (take 16 (drop 4 record_bytes))

abbrev pub size_in : Bytes → ℕ
size_in record_bytes = word_or_zero (u32 (drop 20 record_bytes))

-- The files that were restored, and whether there was no error.
abbrev pub Restored : Type 0
Restored = List (Bytes × Bytes) × Bool

abbrev pub and_restored : Bytes → Bytes → Restored → Restored
and_restored name body (files, ok) = ((name, body) ∷ files, ok)

abbrev pub keep_file : (Bytes → Bytes → Bool) → Bytes → Bytes → Restored → Restored
keep_file accepts name body rest =
    if accepts name body then and_restored name body rest else ([], false)

abbrev pub with_body :
    (Bytes → Bytes → Bool) → Bytes → (Bytes → Restored) → Option (Bytes × Bytes) → Restored
with_body accepts name rest none = ([], false)
with_body accepts name rest (some (body, tape)) = keep_file accepts name body (rest tape)

abbrev pub with_name :
    (Bytes → Bytes → Bool) → Bytes → (Bytes → Restored) → Option (Bytes × Bytes) → Restored
with_name accepts [] rest found = ([], true)
with_name accepts (c ∷ name) rest found = with_body accepts (c ∷ name) rest found

abbrev pub with_record :
    (Bytes → Bytes → Bool) → (Bytes → Restored) → Option (Bytes × Bytes) → Restored
with_record accepts rest none = ([], true)
with_record accepts rest (some (rec, tape)) =
    if not (bytes_eq (take 4 rec) bck_magic)
    then ([], false)
    else with_name accepts (name_in rec) rest
        (read_body block_size (size_in rec) (size_in rec) tape)

-- The loop of `restoreBackup`, with `fuel` records at most.
unfoldable pub restore : (Bytes → Bytes → Bool) → ℕ → Bytes → Restored
unfolding chunk read_body u32 trim_right bytes_eq
restore accepts zero tape = ([], true)
restore accepts (suc fuel) tape = with_record accepts (restore accepts fuel) (chunk block_size tape)

-- Every record takes at least a byte of the tape.
abbrev pub restore_backup : (Bytes → Bytes → Bool) → Bytes → Restored
restore_backup accepts tape = restore accepts (suc (length tape)) tape
