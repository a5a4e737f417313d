-- ===== src/Accounts/Store.antt =====
-- The look-ups and the loading of the account database: `findPPNLocked`, `saveLocked`,
-- `ensureSystemLocked`, `normalizePrivilegeLocked`, `Load` and `List` of accounts.go.
use rsts_e_v7_2_lookalike.Prelude.{
  Bool, true, false, ◌&&◌, ◌||◌, not, Option, none, some, List, [], ◌∷◌, ◌++◌, if◌then◌else◌,
}
use rsts_e_v7_2_lookalike.Prelude.Int.{ℤ, pos}
use rsts_e_v7_2_lookalike.Accounts.{
  Account, io_error, Result, ok, err, Db, has_ppn, is_project_one, system_account, library_account,
  default_accounts,
}

unfoldable pub find_ppn : List Account → ℤ → ℤ → Option Account
find_ppn [] proj prog = none
find_ppn (a ∷ accounts) proj prog =
    if has_ppn a proj prog then some a else find_ppn accounts proj prog

abbrev pub is_some {ℓ} : {A : Type ℓ} → Option A → Bool
is_some none = false
is_some (some a) = true

-- `saveLocked`: the file gets a snapshot, or the write fails.
unfoldable pub save : Bool → Db → Result (Unit {0}) × Db
save true db = (ok tt, record db { saved = some db.accounts })
save false db = (err io_error, db)

abbrev missing : List Account → ℤ → ℤ → Bool
missing accounts proj prog = not (is_some (find_ppn accounts proj prog))

-- `ensureSystemLocked`: [1,2] goes to the front and [1,9] to the end. Of the default accounts only
-- these two are library accounts.
unfoldable pub ensure_system : List Account → List Account × Bool
unfolding find_ppn
ensure_system accounts =
    let no_system = missing accounts (pos 1) (pos 2) in
    let front = if no_system then system_account ∷ accounts else accounts in
    let no_library = missing front (pos 1) (pos 9) in
    (if no_library then front ++ library_account ∷ [] else front, no_system || no_library)

abbrev normalized : Account → Account
normalized a =
    if is_project_one a.proj && not a.privileged then record a { privileged = true } else a

abbrev pub needs_flag : Account → Bool
needs_flag a = is_project_one a.proj && not a.privileged

unfoldable pub normalize_privilege : List Account → List Account × Bool
normalize_privilege [] = ([], false)
normalize_privilege (a ∷ accounts) =
    let (rest, changed) = normalize_privilege accounts in
    (normalized a ∷ rest, needs_flag a || changed)

-- The state of `accounts.json`.
pub data AccountsFile : Type 0 where
  absent unreadable garbled : AccountsFile
  parsed : List Account → AccountsFile

-- `if ensureSystemLocked() || normalizePrivilegeLocked() { return saveLocked() }`: the second runs
-- only where the first changed nothing.
unfoldable pub load_parsed : Bool → Db → List Account → Result (Unit {0}) × Db
unfolding ensure_system normalize_privilege save
load_parsed io db accounts =
    let (ensured, grown) = ensure_system accounts in
    let (flagged, changed) = normalize_privilege ensured in
    if grown
    then save io (record db { accounts = ensured })
    else if changed
    then save io (record db { accounts = flagged })
    else (ok tt, record db { accounts = ensured })

unfoldable pub load : Bool → Db → AccountsFile → Result (Unit {0}) × Db
unfolding load_parsed
load io db unreadable = (err io_error, db)
load io db absent = save io (record db { accounts = default_accounts })
load io db garbled = save io (record db { accounts = default_accounts })
load io db (parsed []) = save io (record db { accounts = default_accounts })
load io db (parsed (a ∷ accounts)) = load_parsed io db (a ∷ accounts)
