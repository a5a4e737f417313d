-- ===== src/Tape/RoundTrip.antt =====
-- What a backup tape gives back.
use rsts_e_v7_2_lookalike.Prelude.{
  ℕ, zero, suc, ◌%◌, ◌^◌, ◌<◌, ◌≤◌, ◌≡◌, ◌≢◌, refl, ap, ◌∙◌, Bool, true, false, some, List, [], ◌∷◌,
  ◌++◌, arith, if◌then◌else◌, length, length-append, take, drop, append_assoc,
}
use mathlib.Core.Path.{subst}
use native.Mathlib.Nat.{mod-eq_of_lt}
use rsts_e_v7_2_lookalike.Bytes.Reader.{Bytes, chunk, Reads, Reads-chunk}
use rsts_e_v7_2_lookalike.Bytes.Words.{put_u32, u32, Reads-u32}
use rsts_e_v7_2_lookalike.Text.Ascii.{upper}
use rsts_e_v7_2_lookalike.Tape.{
  padded, block_size, header, put_blocks, write_bck_file, backup, trim_right, read_body, name_in,
  size_in, word_or_zero, Restored, keep_file, with_name, with_record, restore, restore_backup,
}
use rsts_e_v7_2_lookalike.Tape.Blocks.{length-padded, Reads-put_blocks}

-- What the record in front of a file says.
abbrev pub tape_name : Bytes → Bytes
tape_name name = trim_right (padded 16 (upper name))

length-put_u32 : (v : ℕ) → length (put_u32 v) ≡ 4
unfolding put_u32
length-put_u32 v = refl

length-header : (name : Bytes) (size : ℕ) → length (header name size) ≡ 512
unfolding header
length-header name size =
    let text = length-padded 16 (upper name) in
    let word = length-put_u32 (size % 2 ^ 32) in
    let fill = length-padded 488 [] in
    let all = length-append (padded 16 (upper name)) (put_u32 (size % 2 ^ 32) ++ padded 488 []) in
    let tail = length-append (put_u32 (size % 2 ^ 32)) (padded 488 []) in
    omega (arith, text, word, fill, all, tail)

take-padded : (n : ℕ) (xs ys : Bytes) → take n (padded n xs ++ ys) ≡ padded n xs
unfolding padded
take-padded zero xs ys = refl
take-padded (suc n) [] ys = ap (λ l. 0 ∷ l) (take-padded n [] ys)
take-padded (suc n) (x ∷ xs) ys = ap (λ l. x ∷ l) (take-padded n xs ys)

drop-padded : (n : ℕ) (xs ys : Bytes) → drop n (padded n xs ++ ys) ≡ ys
unfolding padded
drop-padded zero xs ys = refl
drop-padded (suc n) [] ys = drop-padded n [] ys
drop-padded (suc n) (x ∷ xs) ys = drop-padded n xs ys

name_in-header : (name : Bytes) (size : ℕ) → name_in (header name size) ≡ tape_name name
unfolding header
name_in-header name size =
    ap trim_right (take-padded 16 (upper name) (put_u32 (size % 2 ^ 32) ++ padded 488 []))

size_in-header : (name : Bytes) (size : ℕ) → size < 2 ^ 32 → size_in (header name size) ≡ size
unfolding header
size_in-header name size h =
    ap (λ l. word_or_zero (u32 l))
      (drop-padded 16 (upper name) (put_u32 (size % 2 ^ 32) ++ padded 488 []))
    ∙ ap word_or_zero ((Reads-u32 (size % 2 ^ 32) (omega arith)).run (padded 488 []))
    ∙ mod-eq_of_lt h

chunk-header :
    (name : Bytes) (size : ℕ) (tape : Bytes)
    → chunk block_size (header name size ++ tape) ≡ some (header name size, tape)
chunk-header name size tape =
    (subst (λ n. Reads (chunk n) (header name size) (header name size)) (length-header name size)
        (Reads-chunk (header name size))).run
      tape

with_name_full :
    (accepts : Bytes → Bytes → Bool) (name body tape : Bytes) (rest : Bytes → Restored)
    → name ≢ []
    → with_name accepts name rest (some (body, tape)) ≡ keep_file accepts name body (rest tape)
with_name_full accepts [] body tape rest h = absurd (h refl)
with_name_full accepts (c ∷ name) body tape rest h = refl

module _ (accepts : Bytes → Bytes → Bool) where
  -- A record whose magic is right.
  after_header :
      (name : Bytes) (size : ℕ) (fuel : ℕ) (tape : Bytes)
      → size < 2 ^ 32
      → restore accepts (suc fuel) (header name size ++ tape)
        ≡ with_name accepts
            (tape_name name)
            (restore accepts fuel)
            (read_body block_size size size tape)
  unfolding restore header
  after_header name size fuel tape h =
      ap (with_record accepts (restore accepts fuel)) (chunk-header name size tape)
      ∙ ap
          (λ n.
            with_name accepts n (restore accepts fuel)
              (read_body block_size (size_in (header name size)) (size_in (header name size)) tape))
          (name_in-header name size)
      ∙ ap
          (λ n.
            with_name accepts (tape_name name) (restore accepts fuel)
              (read_body block_size n n tape))
          (size_in-header name size h)

  after_file :
      (c : ℕ) (name body : Bytes) (fuel : ℕ) (tape : Bytes)
      → tape_name (c ∷ name) ≢ []
      → length body < 2 ^ 32
      → restore accepts (suc fuel) (write_bck_file (c ∷ name) body ++ tape)
        ≡ keep_file accepts (tape_name (c ∷ name)) body (restore accepts fuel tape)
  unfolding write_bck_file
  after_file c name body fuel tape named short =
      let blocks = put_blocks block_size (length body) body in
      ap (restore accepts (suc fuel)) (append_assoc (header (c ∷ name) (length body)) blocks tape)
      ∙ after_header (c ∷ name) (length body) fuel (blocks ++ tape) short
      ∙ ap (with_name accepts (tape_name (c ∷ name)) (restore accepts fuel)) (
          (Reads-put_blocks block_size (length body) (length body) body (omega arith) (omega arith)
              (omega arith)).run
            tape)
      ∙ with_name_full accepts (tape_name (c ∷ name)) body tape (restore accepts fuel) named

  -- The files have names that are not blank on tape, sizes of 32 bits, and the disk takes them.
  abbrev pub AllFit : List (Bytes × Bytes) → Type 0
  AllFit [] = Unit {0}
  AllFit ((name, body) ∷ files) =
      (tape_name name ≢ [])
      × (length body < 2 ^ 32)
      × (accepts (tape_name name) body ≡ true)
      × AllFit files

  -- The files under the names that the tape has for them.
  abbrev pub on_tape : List (Bytes × Bytes) → List (Bytes × Bytes)
  on_tape [] = []
  on_tape ((name, body) ∷ files) = (tape_name name, body) ∷ on_tape files

  no_name : tape_name [] ≡ []
  unfolding trim_right padded upper
  no_name = refl

  restore-backup :
      (fuel : ℕ) (files : List (Bytes × Bytes)) (rest : Bytes)
      → length files < fuel
      → AllFit files
      → restore accepts fuel (backup files ++ rest) ≡ (on_tape files, true)
  unfolding backup
  restore-backup zero files rest h fit = absurd (omega (arith, h))
  restore-backup (suc fuel) [] rest h fit = after_end
    where
      after_end : restore accepts (suc fuel) (header [] 0 ++ rest) ≡ ([], true)
      after_end =
          after_header [] 0 fuel rest (omega arith)
          ∙ ap (λ n. with_name accepts n (restore accepts fuel) (read_body block_size 0 0 rest))
              no_name
  restore-backup (suc fuel) (([], body) ∷ files) rest h (named, short, taken, fit) =
      absurd (named no_name)
  restore-backup (suc fuel) ((c ∷ name, body) ∷ files) rest h (named, short, taken, fit) =
      ap (restore accepts (suc fuel))
        (append_assoc (write_bck_file (c ∷ name) body) (backup files) rest)
      ∙ after_file c name body fuel (backup files ++ rest) named short
      ∙ ap (keep_file accepts (tape_name (c ∷ name)) body)
          (restore-backup fuel files rest (omega (arith, h)) fit)
      ∙ ap (λ b. if b then ((tape_name (c ∷ name), body) ∷ on_tape files, true) else ([], false))
          taken

length-write_bck_file : (name body : Bytes) → 0 < length (write_bck_file name body)
unfolding write_bck_file
length-write_bck_file [] body = let size = length-header [] (length body) in omega (arith, size)
length-write_bck_file (c ∷ name) body =
    let size = length-header (c ∷ name) (length body) in
    let blocks = put_blocks block_size (length body) body in
    let all = length-append (header (c ∷ name) (length body)) blocks in omega (arith, size, all)

length-backup : (files : List (Bytes × Bytes)) → length files ≤ length (backup files)
unfolding backup
length-backup [] = omega arith
length-backup ((name, body) ∷ files) =
    let one = length-write_bck_file name body in
    let rest = length-backup files in
    let all = length-append (write_bck_file name body) (backup files) in
    omega (arith, one, rest, all)

-- A backup tape restores all its files, in their order and with their whole contents, without an
-- error, whatever stands behind its end; their names come back in upper case, cut to 16 characters and without
-- blanks at their end. It asks that no name is blank on tape, that no file has 2 ^ 32 bytes or
-- more, and that the disk takes each file.
pub restore_backup-backup :
    (accepts : Bytes → Bytes → Bool) (files : List (Bytes × Bytes)) (rest : Bytes)
    → AllFit accepts files
    → restore_backup accepts (backup files ++ rest) ≡ (on_tape accepts files, true)
restore_backup-backup accepts files rest fit =
    let some_room = length-backup files in
    let all = length-append (backup files) rest in
    restore-backup accepts (suc (length (backup files ++ rest))) files rest
      (omega (arith, some_room, all)) fit
