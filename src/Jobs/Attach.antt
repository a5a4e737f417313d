-- ===== src/Jobs/Attach.antt =====
-- Who gets a job number, and how many jobs there are.
use rsts_e_v7_2_lookalike.Prelude.{
  ℕ, zero, suc, ◌+◌, ◌≤◌, ◌<◌, ◌≡◌, ◌≢◌, refl, ◌∙◌, Bool, true, false, Option, none, some, [], ◌∷◌,
  arith, leb, leb→le, leb-false→lt, ◌==◌, length, Bool-cases, inl, inr,
}
use rsts_e_v7_2_lookalike.Bytes.Reader.{Bytes}
use rsts_e_v7_2_lookalike.Jobs.{
  Table, find_job, is_taken, first_number, new_job, Attached, attached, busy, seated, attach,
  detach, set_job, job_count,
}

abbrev pub taken : Table → ℕ → Bool
taken table n = is_taken (find_job table n)

-- The search over the numbers from `i` on: it finds the first that is free, or all are taken.
abbrev Found : Table → ℕ → ℕ → Option ℕ → Type 0
Found table left i none = (n : ℕ) → i ≤ n → n < i + left → taken table n ≡ true
Found table left i (some n) =
    (i ≤ n)
    × (n < i + left)
    × (taken table n ≡ false)
    × ((m : ℕ) → i ≤ m → m < n → taken table m ≡ true)

taken_here : (table : Table) (i m : ℕ) → taken table i ≡ true → m ≡ i → taken table m ≡ true
taken_here table i m h e = rw e h

Found-more :
    (table : Table) (left i : ℕ) (o : Option ℕ)
    → taken table i ≡ true
    → Found table left (i + 1) o
    → Found table (suc left) i o
Found-more table left i none here h = λ n low high. elim (Bool-cases (n == i)) [
  | inl same ↦ taken_here table i n here (ground arith)
  | inr other ↦ let apart : n ≢ i = ground arith in h n (omega arith) (omega arith)
]
Found-more table left i (some n) here (low, high, free, below) = (
  omega arith,
  omega arith,
  free,
  λ m from to. elim (Bool-cases (m == i)) [
    | inl same ↦ taken_here table i m here (ground arith)
    | inr other ↦ let apart : m ≢ i = ground arith in below m (omega arith) to
  ],
)

first_number-Found : (table : Table) (left i : ℕ) → Found table left i (first_number table left i)
unfolding first_number
first_number-Found table zero i = λ n low high. absurd (omega arith)
first_number-Found table (suc left) i = elim (Bool-cases (taken table i)) [
  | inl hit ↦ rw hit (Found-more table left i _ hit (first_number-Found table left (i + 1)))
  | inr free ↦ rw free (omega arith, omega arith, free, λ m from to. absurd (omega arith))
]

-- A job that leaves makes room.
length-detach : (table : Table) (n : ℕ) → length (detach table n) ≤ length table
unfolding detach
length-detach [] n = omega arith
length-detach ((m, j) ∷ table) n = ground (arith, length-detach table n)

detach_shortens :
    (table : Table) (n : ℕ) → taken table n ≡ true → length (detach table n) < length table
unfolding detach find_job
detach_shortens [] n h = absurd (cc h)
detach_shortens ((m, j) ∷ table) n h = elim (Bool-cases (m == n)) [
  | inl hit ↦ rw hit (omega (arith, length-detach table n))
  | inr miss ↦ rw miss (omega (arith, detach_shortens table n (rw miss at h)))
]

taken-detach : (table : Table) (n i : ℕ) → i ≢ n → taken (detach table n) i ≡ taken table i
unfolding detach find_job
taken-detach [] n i h = refl
taken-detach ((m, j) ∷ table) n i h = elim (Bool-cases (m == n)) [
  | inl hit ↦
      let other : (m == i) ≡ false = ground arith in rw (hit, other) (taken-detach table n i h)
  | inr miss ↦ elim (Bool-cases (m == i)) [
    | inl found ↦ rw (miss, found) refl
    | inr apart ↦ rw (miss, apart) (taken-detach table n i h)
  ]
]

-- As many numbers, as many jobs at least.
pigeons :
    (n : ℕ) (table : Table) → ((i : ℕ) → 1 ≤ i → i ≤ n → taken table i ≡ true) → n ≤ length table
pigeons zero table h = omega arith
pigeons (suc n) table h =
    let fewer = detach_shortens table (suc n) (h (suc n) (omega arith) (omega arith)) in
    let rest =
      pigeons n (detach table (suc n))
        (λ i low high. taken-detach table (suc n) i (omega arith) ∙ h i low (omega arith)) in
    omega (arith, fewer, rest)

-- What `Attach` may do.
abbrev pub Attaches : ℕ → ℕ → Table → Bytes → Attached × Table → Type 0
Attaches max_users now table remote (busy, after) = (max_users ≤ length table) × (after ≡ table)
Attaches max_users now table remote (attached j, after) =
    (length table < max_users)
    × (j ≡ new_job now j.num remote)
    × (1 ≤ j.num)
    × (j.num ≤ max_users)
    × (taken table j.num ≡ false)
    × ((m : ℕ) → 1 ≤ m → m < j.num → taken table m ≡ true)
    × (after ≡ (j.num, j) ∷ table)

-- `Attach` turns a user away just when the limit on users is reached, and then changes nothing;
-- otherwise the new job gets the least number from 1 on that no job has, which is within the limit,
-- and stands in the table under it.
pub attach-Attaches :
    (max_users now : ℕ) (table : Table) (remote : Bytes)
    → Attaches max_users now table remote (attach max_users now table remote)
unfolding attach
attach-Attaches max_users now table remote = elim (Bool-cases (leb max_users (length table))) [
  | inl full ↦ rw full (leb→le max_users (length table) full, refl)
  | inr room ↦ rw room (
      go (leb-false→lt max_users (length table) room) (first_number table max_users 1)
        (first_number-Found table max_users 1))
]
  where
    go :
        length table < max_users
        → (o : Option ℕ) → Found table max_users 1 o
        → Attaches max_users now table remote (seated now table remote o)
    go room none h = absurd (
        let many = pigeons max_users table (λ i low high. h i low (omega arith)) in
        omega (arith, many))
    go room (some n) (low, high, free, below) = (room, refl, low, omega arith, free, below, refl)

length-set_job :
    (table : Table) (n : ℕ) (who what : Bytes) → length (set_job table n who what) ≡ length table
unfolding set_job
length-set_job [] n who what = refl
length-set_job ((m, j) ∷ table) n who what = ground (arith, length-set_job table n who what)

-- What happens to the table of a system that starts with no job.
pub data Steps (max_users : ℕ) : Table → Type 0 where
  start : Steps max_users []
  attaches :
      {table : Table} (now : ℕ) (remote : Bytes)
      → Steps max_users table
      → Steps max_users (attach max_users now table remote).1
  detaches : {table : Table} (n : ℕ) → Steps max_users table → Steps max_users (detach table n)
  sets :
      {table : Table} (n : ℕ) (who what : Bytes)
      → Steps max_users table
      → Steps max_users (set_job table n who what)

Attaches-bounded :
    (max_users now : ℕ) (table : Table) (remote : Bytes) (r : Attached × Table)
    → length table ≤ max_users
    → Attaches max_users now table remote r
    → length r.1 ≤ max_users
Attaches-bounded max_users now table remote (busy, after) h (full, same) = rw same h
Attaches-bounded max_users now table remote (attached j, after) h (room, a, b, c, d, e, same) =
    rw same (omega arith)

-- However users come and go, there are never more jobs than the limit on users.
pub job_count_bounded :
    (max_users : ℕ) (table : Table) → Steps max_users table → job_count table ≤ max_users
unfolding job_count
job_count_bounded max_users _ start = omega arith
job_count_bounded max_users _ (attaches {table} now remote steps) =
    Attaches-bounded max_users now table remote _ (job_count_bounded max_users table steps)
      (attach-Attaches max_users now table remote)
job_count_bounded max_users _ (detaches {table} n steps) =
    let before = job_count_bounded max_users table steps in
    omega (arith, before, length-detach table n)
job_count_bounded max_users _ (sets {table} n who what steps) =
    let before = job_count_bounded max_users table steps in
    omega (arith, before, length-set_job table n who what)
