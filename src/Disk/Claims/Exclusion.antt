-- ===== src/Disk/Claims/Exclusion.antt =====
-- While one job has a file open for itself alone, no other job has it open.
use rsts_e_v7_2_lookalike.Prelude.{
  ℕ, ◌+◌, ◌-◌, ◌≤◌, ◌≡◌, ◌≢◌, refl, ap, Bool, true, false, none, some, List, [], ◌∷◌, arith, ◌==◌,
  if◌then◌else◌, Bool-cases, inl, inr,
}
use rsts_e_v7_2_lookalike.Bytes.Reader.{Bytes}
use rsts_e_v7_2_lookalike.Bytes.Magic.{bytes_eq, bytes_eq_sound}
use rsts_e_v7_2_lookalike.Text.Ascii.{lower}
use rsts_e_v7_2_lookalike.Disk.Claims.{
  Claims, Disk, ClaimResult, ok, in_use, count, set_count, delete_job, open_elsewhere, claim,
  release, claim_file, release_file,
}

count-set_count :
    (jobs : List (ℕ × ℕ)) (job n other : ℕ)
    → count (set_count jobs job n) other ≡ (if job == other then n else count jobs other)
unfolding set_count
count-set_count [] job n other = refl
count-set_count ((j, m) ∷ jobs) job n other = ground (arith, count-set_count jobs job n other)

-- Each job is listed once.
abbrev pub IsUnique : List (ℕ × ℕ) → Type 0
IsUnique [] = Unit
IsUnique ((j, n) ∷ jobs) = (count jobs j ≡ 0) × IsUnique jobs

set_count-IsUnique :
    (jobs : List (ℕ × ℕ)) (job n : ℕ) → IsUnique jobs → IsUnique (set_count jobs job n)
unfolding set_count
set_count-IsUnique [] job n h = (refl, tt)
set_count-IsUnique ((j, m) ∷ jobs) job n h =
    ground (arith, set_count-IsUnique jobs job n h.1, count-set_count jobs job n j)

count-delete_job :
    (jobs : List (ℕ × ℕ)) (job other : ℕ)
    → IsUnique jobs
    → count (delete_job jobs job) other ≡ (if job == other then 0 else count jobs other)
unfolding delete_job
count-delete_job [] job other h = ground arith
count-delete_job ((j, m) ∷ jobs) job other h = ground (arith, count-delete_job jobs job other h.1)

delete_job-IsUnique :
    (jobs : List (ℕ × ℕ)) (job : ℕ) → IsUnique jobs → IsUnique (delete_job jobs job)
unfolding delete_job
delete_job-IsUnique [] job h = tt
delete_job-IsUnique ((j, m) ∷ jobs) job h =
    ground (arith, delete_job-IsUnique jobs job h.1, count-delete_job jobs job j h.1)

open_elsewhere_sound :
    (jobs : List (ℕ × ℕ)) (job other : ℕ)
    → open_elsewhere jobs job ≡ false
    → other ≢ job
    → count jobs other ≡ 0
unfolding open_elsewhere
open_elsewhere_sound [] job other h ne = refl
open_elsewhere_sound ((j, n) ∷ jobs) job other h ne =
    ground (arith, open_elsewhere_sound jobs job other)

-- What the claims on one file always satisfy: each job is listed once, and where a job holds the
-- file for itself, no other job has it open.
pub record IsExclusive (c : Claims) : Type 0 where
  pub unique : IsUnique c.jobs
  pub alone : (holder other : ℕ) → c.excl ≡ some holder → other ≢ holder → count c.jobs other ≡ 0

module _ (c after : Claims) (job : ℕ) (exclusive : Bool)
    (made : claim c job exclusive ≡ ok after) where
  pub count-claim :
      (other : ℕ)
      → count after.jobs other ≡ (if job == other then count c.jobs job + 1 else count c.jobs other)
  unfolding claim
  count-claim other = ground (arith, count-set_count c.jobs job (count c.jobs job + 1) other)

  claim-IsUnique : IsUnique c.jobs → IsUnique after.jobs
  unfolding claim
  claim-IsUnique u = ground (arith, set_count-IsUnique c.jobs job (count c.jobs job + 1) u)

  claim_alone :
      ((holder other : ℕ) → c.excl ≡ some holder → other ≢ holder → count c.jobs other ≡ 0)
      → (holder other : ℕ) → after.excl ≡ some holder
      → other ≢ holder
      → count after.jobs other ≡ 0
  unfolding claim
  claim_alone alone holder other held ne =
      ground (arith, alone holder other, open_elsewhere_sound c.jobs job other, count-claim other)

  claim-IsExclusive : IsExclusive c → IsExclusive after
  claim-IsExclusive h = record { unique = claim-IsUnique h.unique; alone = claim_alone h.alone }

module _ (c : Claims) (job : ℕ) (h : IsExclusive c) where
  pub count-release :
      (other : ℕ)
      → count (release c job).jobs other
        ≡ (if job == other then count c.jobs job - 1 else count c.jobs other)
  unfolding release
  count-release other = ground (
    arith,
    count-delete_job c.jobs job other h.unique,
    count-set_count c.jobs job (count c.jobs job - 1) other,
  )

  release-IsUnique : IsUnique (release c job).jobs
  unfolding release
  release-IsUnique = ground (
    arith,
    delete_job-IsUnique c.jobs job h.unique,
    set_count-IsUnique c.jobs job (count c.jobs job - 1) h.unique,
  )

  release_excl : (holder : ℕ) → (release c job).excl ≡ some holder → c.excl ≡ some holder
  unfolding release
  release_excl holder held = ground arith

  release-IsExclusive : IsExclusive (release c job)
  release-IsExclusive = record {
    unique = release-IsUnique;
    alone = λ holder other held ne.
        ground (arith, h.alone holder other (release_excl holder held) ne, count-release other);
  }

-- What jobs do with one file, one after the other, from a file that nobody has open.
pub data Reach : Claims → Type 0 where
  start : Reach (record { jobs = []; excl = none })
  claimed :
      {c after : Claims} (job : ℕ) (exclusive : Bool)
      → claim c job exclusive ≡ ok after
      → Reach c
      → Reach after
  released : {c : Claims} (job : ℕ) → Reach c → Reach (release c job)

Reach-IsExclusive : {c : Claims} → Reach c → IsExclusive c
Reach-IsExclusive start = record { unique = tt; alone = λ holder other held ne. refl }
Reach-IsExclusive (claimed {c} {after} job exclusive made r) =
    claim-IsExclusive c after job exclusive made (Reach-IsExclusive r)
Reach-IsExclusive (released {c} job r) = release-IsExclusive c job (Reach-IsExclusive r)

-- What follows a claim: jobs claim the file, or try to, and all but the holder may close it.
pub data Meanwhile (holder : ℕ) (from : Claims) : Claims → Type 0 where
  at_once : Meanwhile holder from from
  claims :
      {c after : Claims} (job : ℕ) (exclusive : Bool)
      → claim c job exclusive ≡ ok after
      → Meanwhile holder from c
      → Meanwhile holder from after
  closes :
      {c : Claims} (job : ℕ)
      → job ≢ holder
      → Meanwhile holder from c
      → Meanwhile holder from (release c job)

-- The holder has the file for itself.
abbrev Holds : ℕ → Claims → Type 0
Holds holder c = IsExclusive c × (c.excl ≡ some holder)

claim-Holds :
    (c after : Claims) (holder job : ℕ) (exclusive : Bool)
    → claim c job exclusive ≡ ok after
    → c.excl ≡ some holder
    → after.excl ≡ some holder
unfolding claim
claim-Holds c after holder job exclusive made held = ground arith

release-Holds :
    (c : Claims) (holder job : ℕ)
    → job ≢ holder
    → c.excl ≡ some holder
    → (release c job).excl ≡ some holder
unfolding release
release-Holds c holder job ne held = ground arith

Meanwhile-Holds :
    {holder : ℕ} {from now : Claims}
    → Holds holder from
    → Meanwhile holder from now
    → Holds holder now
Meanwhile-Holds h at_once = h
Meanwhile-Holds {holder} h (claims {c} {after} job exclusive made m) =
    let (alone, held) = Meanwhile-Holds h m in
    (
      claim-IsExclusive c after job exclusive made alone,
      claim-Holds c after holder job exclusive made held,
    )
Meanwhile-Holds {holder} h (closes {c} job ne m) =
    let (alone, held) = Meanwhile-Holds h m in
    (release-IsExclusive c job alone, release-Holds c holder job ne held)

-- Whatever jobs opened and closed a file before, once one of them has claimed it for itself alone,
-- and until that job closes it for the first time, no other job has it open, and every claim of
-- another job is refused, whatever jobs claim or close it meanwhile.
pub claim_exclusive :
    (c after now : Claims) (job other : ℕ) (shared : Bool)
    → Reach c
    → claim c job true ≡ ok after
    → Meanwhile job after now
    → other ≢ job
    → (count now.jobs other ≡ 0) × (claim now other shared ≡ in_use)
claim_exclusive c after now job other shared r made meanwhile ne =
    let excl : after.excl ≡ some job = unfold claim in ground arith in
    let (h, held) =
      Meanwhile-Holds (claim-IsExclusive c after job true made (Reach-IsExclusive r), excl)
        meanwhile in
    (h.alone job other held ne, unfold claim in ground arith)

-- A claim counts one more use by its job, and a release one less, and neither changes what any
-- other job has open.
pub release-claim :
    (c after : Claims) (job : ℕ) (exclusive : Bool) (other : ℕ)
    → Reach c
    → claim c job exclusive ≡ ok after
    → count (release after job).jobs other ≡ count c.jobs other
release-claim c after job exclusive other r made =
    let h = claim-IsExclusive c after job exclusive made (Reach-IsExclusive r) in
    ground (
      arith,
      count-release after job h other,
      count-claim c after job exclusive made other,
      count-claim c after job exclusive made job,
    )

-- The exclusive claim ends with the job's first close: a job that opens a file alone and then once
-- more has it open still when it closes one of the two, and any other job may then open it too.
pub release_drops_exclusive :
    (c alone twice : Claims) (job other : ℕ)
    → Reach c
    → claim c job true ≡ ok alone
    → claim alone job false ≡ ok twice
    → (1 ≤ count (release twice job).jobs job) × (claim (release twice job) other false ≢ in_use)
release_drops_exclusive c alone twice job other r first second =
    let h =
      claim-IsExclusive alone twice job false second
        (claim-IsExclusive c alone job true first (Reach-IsExclusive r)) in
    let held : alone.excl ≡ some job = unfold claim in ground arith in
    let still : twice.excl ≡ some job = unfold claim in ground arith in
    let dropped : (release twice job).excl ≡ none = unfold release in ground arith in
    (
      ground (
        arith,
        count-release twice job h job,
        count-claim alone twice job false second job,
        count-claim c alone job true first job,
      ),
      unfold claim in ground arith,
    )

-- On a disk, a claim of one path and then a release of it leave every file but that one as it was,
-- and the letters' case does not tell paths apart.
pub claim_file_others :
    (d after : Disk) (path other : Bytes) (job : ℕ) (exclusive : Bool)
    → claim_file d path job exclusive ≡ ok after
    → lower other ≢ lower path
    → (after (lower other) ≡ d (lower other))
      × (release_file after path job (lower other) ≡ d (lower other))
unfolding claim_file release_file
claim_file_others d after path other job exclusive made ne =
    elim (Bool-cases (bytes_eq (lower other) (lower path))) [
      | inl same ↦ absurd (ne (bytes_eq_sound (lower other) (lower path) same))
      | inr apart ↦
          let at_other = ap (claims_of (lower other)) made in
          let kept : after (lower other) ≡ d (lower other) = ground arith in (kept, ground arith)
    ]
  where
    claims_of : Bytes → ClaimResult Disk → Claims
    claims_of key (ok e) = e key
    claims_of key in_use = d key
