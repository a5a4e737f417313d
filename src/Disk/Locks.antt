-- ===== src/Disk/Locks.antt =====
-- Record locks: `lockKey`, `lockRecord` and `unlockRecord` of filesystem.go.
use rsts_e_v7_2_lookalike.Prelude.{
  ℕ, ◌≤◌, ◌≡◌, ◌≢◌, ap, ◌∙◌, sym, Bool, true, false, ◌||◌, Option, none, some, [], ◌∷◌, ◌++◌, arith,
  ltb, ◌==◌, if◌then◌else◌, Bool-cases, inl, inr, append_assoc,
}
use mathlib.Core.List.{reverse, reverse-append, reverse-reverse}
use rsts_e_v7_2_lookalike.Bytes.Reader.{Bytes}
use rsts_e_v7_2_lookalike.Bytes.Magic.{bytes_eq, bytes_eq_refl, bytes_eq_sound}
use rsts_e_v7_2_lookalike.Text.Ascii.{lower}
use rsts_e_v7_2_lookalike.Text.Decimal.{
  itoa, digits, reverse-itoa, digits-IsDigit, digits-injective, IsDigit, split_at_mark,
}

-- The map of locks: the job that holds a key.
abbrev pub Locks : Type 0
Locks = Bytes → Option ℕ

pub data LockResult : Type 0 where
  ok : Locks → LockResult
  interlocked : LockResult

unfoldable pub lock_key : Bytes → ℕ → Bytes
lock_key path rec = lower path ++ (b'#' ∷ itoa rec)

-- `d.locks[key] = recLock{job}` and `delete(d.locks, key)`
abbrev pub set_lock : Locks → Bytes → Option ℕ → Locks
set_lock locks key held = λ other. if bytes_eq other key then held else locks other

-- `ok && held.job != job`
abbrev pub held_by_other : Option ℕ → ℕ → Bool
held_by_other none job = false
held_by_other (some holder) job = if holder == job then false else true

-- `ok && (job == 0 || held.job == job)`
abbrev pub may_unlock : Option ℕ → ℕ → Bool
may_unlock none job = false
may_unlock (some holder) job = job == 0 || holder == job

abbrev pub is_empty : Bytes → Bool
is_empty [] = true
is_empty (c ∷ s) = false

unfoldable pub lock_record : Locks → Bytes → ℕ → ℕ → LockResult
unfolding lock_key
lock_record locks path rec job =
    if is_empty path || ltb rec 1
    then ok locks
    else if held_by_other (locks (lock_key path rec)) job
    then interlocked
    else ok (set_lock locks (lock_key path rec) (some job))

unfoldable pub unlock_record : Locks → Bytes → ℕ → ℕ → Locks
unfolding lock_key
unlock_record locks path rec job =
    if is_empty path
    then locks
    else if may_unlock (locks (lock_key path rec)) job
    then set_lock locks (lock_key path rec) none
    else locks

mark_no-IsDigit : ¬ (IsDigit b'#')
mark_no-IsDigit h = absurd (omega arith)

reverse-lock_key :
    (path : Bytes) (rec : ℕ)
    → reverse (lock_key path rec) ≡ digits rec ++ b'#' ∷ reverse (lower path)
unfolding lock_key
reverse-lock_key path rec =
    reverse-append (lower path) (b'#' ∷ itoa rec)
    ∙ ap (λ t. t ++ reverse (lower path)) (reverse-append (b'#' ∷ []) (itoa rec))
    ∙ append_assoc (reverse (itoa rec)) (b'#' ∷ []) (reverse (lower path))
    ∙ ap (λ t. t ++ b'#' ∷ reverse (lower path)) (reverse-itoa rec)

-- Two keys are the same only for the same record of the same path, up to the case of its letters.
pub lock_key-injective :
    (path other : Bytes) (rec n : ℕ)
    → lock_key path rec ≡ lock_key other n
    → (lower path ≡ lower other) × (rec ≡ n)
lock_key-injective path other rec n e =
    let (numbers, texts) =
      split_at_mark b'#' (digits rec) (reverse (lower path)) (digits n) (reverse (lower other))
        mark_no-IsDigit (digits-IsDigit rec) (digits-IsDigit n)
        (sym (reverse-lock_key path rec) ∙ ap reverse e ∙ reverse-lock_key other n) in
    (
      sym (reverse-reverse (lower path)) ∙ ap reverse texts ∙ reverse-reverse (lower other),
      digits-injective rec n numbers,
    )

-- What jobs other than `holder` do with the locks. Job 0, which releases whoever's lock it is, is
-- not among them.
pub data Others (holder : ℕ) : Locks → Locks → Type 0 where
  done : {locks : Locks} → Others holder locks locks
  lock :
      {locks next last : Locks} (path : Bytes) (rec job : ℕ)
      → job ≢ holder
      → lock_record locks path rec job ≡ ok next
      → Others holder next last
      → Others holder locks last
  unlock :
      {locks last : Locks} (path : Bytes) (rec job : ℕ)
      → job ≢ holder
      → job ≢ 0
      → Others holder (unlock_record locks path rec job) last
      → Others holder locks last

-- What a result says of one key.
abbrev entry_of : Bytes → LockResult → Option ℕ
entry_of key (ok locks) = locks key
entry_of key interlocked = none

lock_record_keeps :
    (locks next : Locks) (path : Bytes) (rec job holder : ℕ) (key : Bytes)
    → job ≢ holder
    → lock_record locks path rec job ≡ ok next
    → locks key ≡ some holder
    → next key ≡ some holder
unfolding lock_record
lock_record_keeps locks next path rec job holder key other e held =
    let at_key = ap (entry_of key) e in
    elim (Bool-cases (bytes_eq key (lock_key path rec))) [
      | inl same ↦
          let here : locks (lock_key path rec) ≡ some holder =
            rw (bytes_eq_sound key (lock_key path rec) same) at held in
          ground arith
      | inr apart ↦ ground arith
    ]

unlock_record_keeps :
    (locks : Locks) (path : Bytes) (rec job holder : ℕ) (key : Bytes)
    → job ≢ holder
    → job ≢ 0
    → locks key ≡ some holder
    → unlock_record locks path rec job key ≡ some holder
unfolding unlock_record
unlock_record_keeps locks path rec job holder key other real held =
    elim (Bool-cases (bytes_eq key (lock_key path rec))) [
      | inl same ↦
          let here : locks (lock_key path rec) ≡ some holder =
            rw (bytes_eq_sound key (lock_key path rec) same) at held in
          ground arith
      | inr apart ↦ ground arith
    ]

Others-keep :
    {holder : ℕ} {locks last : Locks} (key : Bytes)
    → Others holder locks last
    → locks key ≡ some holder
    → last key ≡ some holder
Others-keep key done held = held
Others-keep {holder} {locks} key (lock {next} path rec job other e rest) held =
    Others-keep key rest (lock_record_keeps locks next path rec job holder key other e held)
Others-keep {holder} {locks} key (unlock path rec job other real rest) held =
    Others-keep key rest (unlock_record_keeps locks path rec job holder key other real held)

lock_record_holds :
    (locks next : Locks) (path : Bytes) (rec job : ℕ)
    → is_empty path ≡ false
    → 1 ≤ rec
    → lock_record locks path rec job ≡ ok next
    → next (lock_key path rec) ≡ some job
unfolding lock_record
lock_record_holds locks next path rec job named real e =
    let at_key = ap (entry_of (lock_key path rec)) e in
    ground (arith, bytes_eq_refl (lock_key path rec))

-- Once a job has locked a record of a named file, every other job's attempt to lock that record is
-- refused, whatever locks and unlocks the other jobs make in between, until the job itself or a
-- release on behalf of job 0 unlocks it.
pub lock_record_exclusive :
    (locks mine last : Locks) (path : Bytes) (rec holder job : ℕ)
    → is_empty path ≡ false
    → 1 ≤ rec
    → job ≢ holder
    → lock_record locks path rec holder ≡ ok mine
    → Others holder mine last
    → lock_record last path rec job ≡ interlocked
unfolding lock_record
lock_record_exclusive locks mine last path rec holder job named real other e rest =
    let held : last (lock_key path rec) ≡ some holder =
      Others-keep (lock_key path rec) rest
        (lock_record_holds locks mine path rec holder named real e) in
    ground arith

-- A record of a named file that its holder unlocks can be locked by any job.
pub unlock_record_frees :
    (locks : Locks) (path : Bytes) (rec holder job : ℕ)
    → is_empty path ≡ false
    → locks (lock_key path rec) ≡ some holder
    → lock_record (unlock_record locks path rec holder) path rec job ≢ interlocked
unfolding lock_record unlock_record
unlock_record_frees locks path rec holder job named held =
    ground (arith, bytes_eq_refl (lock_key path rec))
