-- ===== src/Accounts/Loading.antt =====
-- What `Load` leaves of the accounts of a file.
use rsts_e_v7_2_lookalike.Prelude.{
  ◌≡◌, ◌≢◌, refl, ap, ap₂, sym, ◌∙◌, map, append-nil, Bool, true, false, ◌&&◌, ◌||◌, not, List, [],
  ◌∷◌, ◌++◌, arith, if◌then◌else◌, Bool-cases, inl, inr,
}
use rsts_e_v7_2_lookalike.Prelude.Int.{ℤ, pos, eq_ℤ}
use rsts_e_v7_2_lookalike.Accounts.{Account, Db, is_project_one, system_account, library_account}
use rsts_e_v7_2_lookalike.Accounts.Store.{
  AccountsFile, parsed, absent, garbled, unreadable, find_ppn, save, ensure_system,
  normalize_privilege, load_parsed, load,
}
use rsts_e_v7_2_lookalike.Accounts.Invariant.Lists.{IsFlagged, present, present-snoc}

normalize_privilege-IsFlagged :
    (accounts : List Account) → IsFlagged (normalize_privilege accounts).0
unfolding normalize_privilege
normalize_privilege-IsFlagged [] = tt
normalize_privilege-IsFlagged (a ∷ accounts) =
    ground (arith, normalize_privilege-IsFlagged accounts)

normalize_privilege_unchanged :
    (accounts : List Account) → (normalize_privilege accounts).1 ≡ false → IsFlagged accounts
unfolding normalize_privilege
normalize_privilege_unchanged [] h = tt
normalize_privilege_unchanged (a ∷ accounts) h =
    ground (arith, normalize_privilege_unchanged accounts)

present-normalize_privilege :
    (accounts : List Account) (p q : ℤ)
    → present (normalize_privilege accounts).0 p q ≡ present accounts p q
unfolding normalize_privilege find_ppn
present-normalize_privilege [] p q = refl
present-normalize_privilege (a ∷ accounts) p q =
    ground (arith, present-normalize_privilege accounts p q)

ensure_system-present :
    (accounts : List Account)
    → (present (ensure_system accounts).0 (pos 1) (pos 2) ≡ true)
      × (present (ensure_system accounts).0 (pos 1) (pos 9) ≡ true)
unfolding ensure_system find_ppn eq_ℤ
ensure_system-present accounts = ground (
  arith,
  present-snoc accounts library_account (pos 1) (pos 2),
  present-snoc accounts library_account (pos 1) (pos 9),
  present-snoc (system_account ∷ accounts) library_account (pos 1) (pos 2),
  present-snoc (system_account ∷ accounts) library_account (pos 1) (pos 9),
)

-- The accounts that `Load` leaves of those that were in the file.
abbrev settled : List Account → List Account
settled accounts =
    let (ensured, grown) = ensure_system accounts in
    let (flagged, changed) = normalize_privilege ensured in
    if grown then ensured else if changed then flagged else ensured

load_parsed_accounts :
    (io : Bool) (db : Db) (accounts : List Account)
    → (load_parsed io db accounts).1.accounts ≡ settled accounts
unfolding load_parsed save
load_parsed_accounts io db accounts = ground arith

settled-present :
    (accounts : List Account) (p q : ℤ)
    → present (ensure_system accounts).0 p q ≡ true
    → present (settled accounts) p q ≡ true
settled-present accounts p q h =
    ground (arith, present-normalize_privilege (ensure_system accounts).0 p q)

-- Whatever `accounts.json` holds, if it can be read at all, and whether or not the write that
-- follows succeeds, the library accounts [1,2] and [1,9] are there after `Load`.
pub load_library :
    (io : Bool) (db : Db) (file : AccountsFile)
    → file ≢ unreadable
    → (present (load io db file).1.accounts (pos 1) (pos 2) ≡ true)
      × (present (load io db file).1.accounts (pos 1) (pos 9) ≡ true)
unfolding load save find_ppn eq_ℤ
load_library io db unreadable h = absurd (h refl)
load_library true db absent h = (refl, refl)
load_library false db absent h = (refl, refl)
load_library true db garbled h = (refl, refl)
load_library false db garbled h = (refl, refl)
load_library true db (parsed []) h = (refl, refl)
load_library false db (parsed []) h = (refl, refl)
load_library io db (parsed (a ∷ accounts)) h =
    let (system, library) = ensure_system-present (a ∷ accounts) in
    rw (load_parsed_accounts io db (a ∷ accounts))
      (settled-present (a ∷ accounts) _ _ system, settled-present (a ∷ accounts) _ _ library)

ensure_system_complete :
    (accounts : List Account)
    → present accounts (pos 1) (pos 2) ≡ true
    → present accounts (pos 1) (pos 9) ≡ true
    → ensure_system accounts ≡ (accounts, false)
unfolding ensure_system
ensure_system_complete accounts system library = rw (system, library)

-- The account as it is, but privileged if it is of project 1.
abbrev pub flagged : Account → Account
flagged a = record a { privileged = a.privileged || is_project_one a.proj }

normalized-flagged :
    (a : Account) (first set : Bool)
    → a.privileged ≡ set
    → (if first && not set then record a { privileged = true } else a)
      ≡ record a { privileged = set || first }
normalized-flagged a true true e = ap (λ b. record a { privileged = b }) e
normalized-flagged a true false e = refl
normalized-flagged a false true e = ap (λ b. record a { privileged = b }) e
normalized-flagged a false false e = ap (λ b. record a { privileged = b }) e

normalize_privilege-flagged :
    (accounts : List Account) → (normalize_privilege accounts).0 ≡ map flagged accounts
unfolding normalize_privilege
normalize_privilege-flagged [] = refl
normalize_privilege-flagged (a ∷ accounts) =
    ap₂ (λ x l. x ∷ l) (normalized-flagged a (is_project_one a.proj) a.privileged refl)
      (normalize_privilege-flagged accounts)

flagged-IsFlagged : (accounts : List Account) → IsFlagged accounts → map flagged accounts ≡ accounts
flagged-IsFlagged [] h = refl
flagged-IsFlagged (a ∷ accounts) h =
    ap₂ (λ b l. record a { privileged = b } ∷ l) (same (is_project_one a.proj) a.privileged h.0)
      (flagged-IsFlagged accounts h.1)
  where
    same : (first set : Bool) → (first && not set) ≡ false → (set || first) ≡ set
    same first set e = ground arith

settled-flagged :
    (accounts : List Account)
    → present accounts (pos 1) (pos 2) ≡ true
    → present accounts (pos 1) (pos 9) ≡ true
    → settled accounts ≡ map flagged accounts
settled-flagged accounts system library =
    rw (ensure_system_complete accounts system library)
      (elim (Bool-cases (normalize_privilege accounts).1) [
        | inl changed ↦ rw changed (normalize_privilege-flagged accounts)
        | inr same ↦
            rw same (sym (flagged-IsFlagged accounts (normalize_privilege_unchanged accounts same)))
      ])

-- The accounts of a file, with the library accounts that it lacks.
abbrev pub completed : Bool → Bool → List Account → List Account
completed system library accounts =
    (if system then [] else system_account ∷ [])
    ++ accounts
    ++ (if library then [] else library_account ∷ [])

settled-completed :
    (accounts : List Account)
    → present accounts (pos 1) (pos 2) && present accounts (pos 1) (pos 9) ≡ false
    → settled accounts
      ≡ completed (present accounts (pos 1) (pos 2)) (present accounts (pos 1) (pos 9)) accounts
unfolding ensure_system find_ppn eq_ℤ
settled-completed accounts some_missing = elim (Bool-cases (present accounts (pos 1) (pos 2))) [
  | inl system ↦ elim (Bool-cases (present accounts (pos 1) (pos 9))) [
    | inl library ↦ cc (rw (system, library) at some_missing)
    | inr none_there ↦ rw (system, none_there) refl
  ]
  | inr no_system ↦ elim (Bool-cases (present accounts (pos 1) (pos 9))) [
    | inl library ↦
        rw (no_system, library) (ap (λ l. system_account ∷ l) (sym (append-nil accounts)))
    | inr no_library ↦ rw (no_system, no_library) refl
  ]
]

-- `Load` of a file with accounts keeps all of them, in their order. Where both library accounts are
-- among them, it changes nothing but the privilege flags of project 1, which it sets; where one is
-- missing, it puts [1,2] in front or [1,9] behind, whichever are missing, and leaves every account of
-- the file as it was, with its flag. Whether the write that follows succeeds does not matter.
pub load_accounts :
    (io : Bool) (db : Db) (a : Account) (accounts : List Account)
    → let file = a ∷ accounts in
      let system = present file (pos 1) (pos 2) in
      let library = present file (pos 1) (pos 9) in
      (load io db (parsed file)).1.accounts
      ≡ (if system && library then map flagged file else completed system library file)
unfolding load
load_accounts io db a accounts =
    load_parsed_accounts io db (a ∷ accounts)
    ∙ elim (Bool-cases
        (present (a ∷ accounts) (pos 1) (pos 2) && present (a ∷ accounts) (pos 1) (pos 9))) [
          | inl both ↦ rw both (settled-flagged (a ∷ accounts) (ground arith) (ground arith))
          | inr missing ↦ rw missing (settled-completed (a ∷ accounts) missing)
        ]
