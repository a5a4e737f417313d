-- ===== src/Jobs.antt =====
-- The job table (system.go): `Attach`, `Detach`, `SetJob`, `JobList` and `JobCount`, each of which
-- holds the system's lock. The limit on users is `max_users` of the configuration; the time that a
-- job ran is an argument of `job_list`, which reads it from the job's session. `Detach` is modelled
-- less the keyboards that it gives back.
pub mod Attach
use rsts_e_v7_2_lookalike.Prelude.{
  ℕ, zero, suc, ◌+◌, ◌-◌, Bool, true, false, Option, none, some, List, [], ◌∷◌, ◌++◌, leb, ◌==◌,
  if◌then◌else◌, length,
}
use rsts_e_v7_2_lookalike.Prelude.Int.{ℤ, pos, negsuc}
use rsts_e_v7_2_lookalike.Bytes.Reader.{Bytes}
use rsts_e_v7_2_lookalike.Text.Ascii.{codes}
use rsts_e_v7_2_lookalike.Text.Decimal.{itoa}

-- `Job`, less the link of a pseudo keyboard.
pub record Job : Type 0 where
  pub num : ℕ
  pub kb : Bytes
  pub place : Bytes
  pub remote : Bytes
  pub who : Bytes
  pub what : Bytes
  pub size_k : ℕ
  pub cpu : ℕ
  pub state : Bytes
  pub started : ℕ
  pub detached : Bool
  pub pk : ℤ
  pub owner_job : ℕ
  pub owner_ppn : Bytes
  pub rts : Bytes

-- `sys.jobs`
abbrev pub Table : Type 0
Table = List (ℕ × Job)

unfoldable pub find_job : Table → ℕ → Option Job
find_job [] n = none
find_job ((m, j) ∷ table) n = if m == n then some j else find_job table n

abbrev pub is_taken : Option Job → Bool
is_taken none = false
is_taken (some j) = true

-- `for i := 1; i <= sys.Config.MaxUsers; i++`, with `left` numbers to try from `i` on.
unfoldable pub first_number : Table → ℕ → ℕ → Option ℕ
unfolding find_job
first_number table zero i = none
first_number table (suc left) i =
    let later = first_number table left (i + 1) in
    if is_taken (find_job table i) then later else some i

-- `fmt.Sprintf("KB%d:", n-1)`
abbrev keyboard : ℕ → Bytes
keyboard n = codes "KB" ++ (itoa (n - 1) ++ codes ":")

abbrev pub new_job : ℕ → ℕ → Bytes → Job
new_job now n remote = record {
  num = n;
  kb = keyboard n;
  place = keyboard n;
  remote = remote;
  who = codes "*****";
  what = codes "LOGINS";
  size_k = 8;
  cpu = 0;
  state = codes "KB";
  started = now;
  detached = false;
  pk = negsuc 0;
  owner_job = 0;
  owner_ppn = [];
  rts = codes "BASIC";
}

pub data Attached : Type 0 where
  attached : Job → Attached
  busy : Attached

abbrev pub seated : ℕ → Table → Bytes → Option ℕ → Attached × Table
seated now table remote none = (busy, table)
seated now table remote (some n) =
    (attached (new_job now n remote), (n, new_job now n remote) ∷ table)

unfoldable pub attach : ℕ → ℕ → Table → Bytes → Attached × Table
unfolding first_number
attach max_users now table remote =
    if leb max_users (length table)
    then (busy, table)
    else seated now table remote (first_number table max_users 1)

-- `delete(sys.jobs, num)`
unfoldable pub detach : Table → ℕ → Table
detach [] n = []
detach ((m, j) ∷ table) n = if m == n then detach table n else (m, j) ∷ detach table n

unfoldable pub set_job : Table → ℕ → Bytes → Bytes → Table
set_job [] n who what = []
set_job ((m, j) ∷ table) n who what =
    if m == n
    then (m, record j { who = who; what = what }) ∷ table
    else (m, j) ∷ set_job table n who what

abbrev listed : (ℕ → Option ℕ) → ℕ → Option Job → List Job
listed cpu i none = []
listed cpu i (some j) = elim (cpu i) [ none ↦ j ∷ [] | some t ↦ record j { cpu = t } ∷ [] ]

-- The jobs of the `left` numbers from `i` on.
unfoldable pub list_from : (ℕ → Option ℕ) → Table → ℕ → ℕ → List Job
unfolding find_job
list_from cpu table zero i = []
list_from cpu table (suc left) i =
    listed cpu i (find_job table i) ++ list_from cpu table left (i + 1)

unfoldable pub job_list : ℕ → (ℕ → Option ℕ) → Table → List Job
unfolding list_from
job_list max_users cpu table = list_from cpu table max_users 1

unfoldable pub job_count : Table → ℕ
job_count table = length table
