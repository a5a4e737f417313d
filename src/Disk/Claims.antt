-- ===== src/Disk/Claims.antt =====
-- The claims of the jobs on a file that they have open: `claimFile` and `releaseFile` of
-- filesystem.go. One file is modelled: both functions work on the entries of one key,
-- `strings.ToLower(path)`, and a disk is the map from keys to claims.
pub mod Exclusion
use rsts_e_v7_2_lookalike.Prelude.{
  ℕ, ◌+◌, ◌-◌, Bool, true, false, ◌&&◌, ◌||◌, not, Option, none, some, List, [], ◌∷◌, ltb, leb,
  ◌==◌, if◌then◌else◌,
}
use rsts_e_v7_2_lookalike.Bytes.Reader.{Bytes}
use rsts_e_v7_2_lookalike.Bytes.Magic.{bytes_eq}
use rsts_e_v7_2_lookalike.Text.Ascii.{lower}

-- `fileJobs[key]`, how often each job has the file open, and `fileExcl[key]`.
pub record Claims : Type 0 where
  pub jobs : List (ℕ × ℕ)
  pub excl : Option ℕ

abbrev pub Disk : Type 0
Disk = Bytes → Claims

pub data ClaimResult {ℓ} (A : Type ℓ) : Type ℓ where
  ok : A → ClaimResult A
  in_use : ClaimResult A

-- `jobs[job]`, 0 for a job with no entry.
abbrev pub count : List (ℕ × ℕ) → ℕ → ℕ
count [] job = 0
count ((j, n) ∷ jobs) job = if j == job then n else count jobs job

-- `jobs[job] = n`
set_count : List (ℕ × ℕ) → ℕ → ℕ → List (ℕ × ℕ)
set_count [] job n = (job, n) ∷ []
set_count ((j, m) ∷ jobs) job n = if j == job then (j, n) ∷ jobs else (j, m) ∷ set_count jobs job n

-- `delete(jobs, job)`
delete_job : List (ℕ × ℕ) → ℕ → List (ℕ × ℕ)
delete_job [] job = []
delete_job ((j, n) ∷ jobs) job = if j == job then jobs else (j, n) ∷ delete_job jobs job

-- The loop over `fileJobs[key]`: some job but `job` has the file open.
open_elsewhere : List (ℕ × ℕ) → ℕ → Bool
open_elsewhere [] job = false
open_elsewhere ((j, n) ∷ jobs) job = not (j == job) && ltb 0 n || open_elsewhere jobs job

-- `ok && held != job`
abbrev pub held_by_other : Option ℕ → ℕ → Bool
held_by_other none job = false
held_by_other (some holder) job = not (holder == job)

-- The claims of a job that may have the file.
abbrev claimed : Claims → ℕ → Bool → Claims
claimed c job exclusive = record {
  jobs = set_count c.jobs job (count c.jobs job + 1);
  excl = if exclusive then some job else c.excl;
}

unfoldable pub claim : Claims → ℕ → Bool → ClaimResult Claims
unfolding open_elsewhere set_count
claim c job exclusive =
    if held_by_other c.excl job
    then in_use
    else if exclusive && open_elsewhere c.jobs job
    then in_use
    else ok (claimed c job exclusive)

-- `jobs[job]--`, and the entry goes when the count is 0 or less.
abbrev decrement : List (ℕ × ℕ) → ℕ → List (ℕ × ℕ)
decrement jobs job =
    if leb (count jobs job) 1 then delete_job jobs job else set_count jobs job (count jobs job - 1)

-- `if d.fileExcl[key] == job`: a missing entry reads as 0.
abbrev drop_excl : Option ℕ → ℕ → Option ℕ
drop_excl none job = none
drop_excl (some holder) job = if holder == job then none else some holder

unfoldable pub release : Claims → ℕ → Claims
unfolding set_count delete_job
release c job = record { jobs = decrement c.jobs job; excl = drop_excl c.excl job }

abbrev set_claims : Disk → Bytes → Claims → Disk
set_claims d key c = λ other. if bytes_eq other key then c else d other

abbrev is_empty : Bytes → Bool
is_empty [] = true
is_empty (c ∷ s) = false

abbrev set_claimed : Disk → Bytes → ClaimResult Claims → ClaimResult Disk
set_claimed d key in_use = in_use
set_claimed d key (ok c) = ok (set_claims d key c)

unfoldable pub claim_file : Disk → Bytes → ℕ → Bool → ClaimResult Disk
unfolding claim
claim_file d path job exclusive =
    if is_empty path
    then ok d
    else set_claimed d (lower path) (claim (d (lower path)) job exclusive)

unfoldable pub release_file : Disk → Bytes → ℕ → Disk
unfolding release
release_file d path job =
    if is_empty path then d else set_claims d (lower path) (release (d (lower path)) job)
