-- ===== src/Accounts/Update.antt =====
-- The operations that change the account database: `Create`, `SetPassword`, `Delete` and `SetQuota`
-- of accounts.go.
use rsts_e_v7_2_lookalike.Prelude.{
  ℕ, Bool, true, false, ◌||◌, Option, none, some, List, [], ◌∷◌, ◌++◌, ltb, if◌then◌else◌,
}
use rsts_e_v7_2_lookalike.Prelude.Int.{ℤ, pos, negsuc}
use rsts_e_v7_2_lookalike.Bytes.Reader.{Bytes}
use rsts_e_v7_2_lookalike.Bytes.Magic.{bytes_eq}
use rsts_e_v7_2_lookalike.Text.Ascii.{upper}
use rsts_e_v7_2_lookalike.Accounts.{
  Account, illegal_ppn, account_exists, illegal_name, illegal_password, name_in_use, no_account,
  not_found, protection_violation, Result, ok, err, Db, has_ppn, is_project_one, is_library_ppn,
}
use rsts_e_v7_2_lookalike.Accounts.Names.{normalize_account_name, normalize_password}
use rsts_e_v7_2_lookalike.Accounts.Store.{find_ppn, is_some, save}

-- `n < 0 || n > max`
abbrev pub outside : ℕ → ℤ → Bool
outside max (negsuc n) = true
outside max (pos n) = ltb max n

-- `strings.EqualFold` with the name of some account, over ASCII.
unfoldable pub name_used : List Account → Bytes → Bool
name_used [] name = false
name_used (a ∷ accounts) name = bytes_eq (upper a.name) (upper name) || name_used accounts name

-- `if err := db.saveLocked(); err != nil { return nil, err }`, then the value.
abbrev pub saved_as {ℓ} : {A : Type ℓ} → A → Result (Unit {0}) × Db → Result A × Db
saved_as a (ok u, db) = (ok a, db)
saved_as a (err e, db) = (err e, db)

-- `Create` behind the checks of its arguments.
abbrev pub add_account : Bool → Db → Account → Result Account × Db
add_account io db a =
    if name_used db.accounts a.name
    then (err name_in_use, db)
    else saved_as a (save io (record db { accounts = db.accounts ++ a ∷ [] }))

abbrev pub new_account : ℤ → ℤ → Bytes → Bytes → Bool → Account
new_account proj prog name password privileged = record {
  proj = proj;
  prog = prog;
  name = name;
  password = password;
  privileged = privileged || is_project_one proj;
  quota = pos 0;
  job_quota = pos 0;
}

abbrev pub with_password : Bool → Db → ℤ → ℤ → Bytes → Bool → Option Bytes → Result Account × Db
with_password io db proj prog name privileged none = (err illegal_password, db)
with_password io db proj prog name privileged (some password) =
    add_account io db (new_account proj prog name password privileged)

abbrev pub with_name : Bool → Db → ℤ → ℤ → Bytes → Bool → Option Bytes → Result Account × Db
with_name io db proj prog password privileged none = (err illegal_name, db)
with_name io db proj prog password privileged (some name) =
    with_password io db proj prog name privileged (normalize_password password)

unfoldable pub create : Bool → Db → ℤ → ℤ → Bytes → Bytes → Bool → Result Account × Db
unfolding save name_used
create io db proj prog name password privileged =
    if outside 254 proj || outside 255 prog
    then (err illegal_ppn, db)
    else if is_some (find_ppn db.accounts proj prog)
    then (err account_exists, db)
    else with_name io db proj prog password privileged (normalize_account_name name)

-- A write through the pointer that `findPPNLocked` returns: the first account with the PPN changes.
unfoldable pub change_first : (Account → Account) → List Account → ℤ → ℤ → List Account
change_first f [] proj prog = []
change_first f (a ∷ accounts) proj prog =
    if has_ppn a proj prog then f a ∷ accounts else a ∷ change_first f accounts proj prog

abbrev pub change_password : Bool → Db → Account → Option Bytes → Result (Unit {0}) × Db
change_password io db acct none = (err illegal_password, db)
change_password io db acct (some password) =
    if is_some (find_ppn db.accounts acct.proj acct.prog)
    then save io (record db {
      accounts =
          change_first (λ a. record a { password = password }) db.accounts acct.proj acct.prog;
    })
    else (err not_found, db)

-- `SetPassword` of an account, or of nil. The caller's copy of the account gets the password too,
-- which is not part of the database.
unfoldable pub set_password : Bool → Db → Option Account → Bytes → Result (Unit {0}) × Db
unfolding save change_first
set_password io db none password = (err no_account, db)
set_password io db (some acct) password = change_password io db acct (normalize_password password)

-- The first account with the PPN goes.
unfoldable pub remove_first : List Account → ℤ → ℤ → List Account
remove_first [] proj prog = []
remove_first (a ∷ accounts) proj prog =
    if has_ppn a proj prog then accounts else a ∷ remove_first accounts proj prog

unfoldable pub delete : Bool → Db → ℤ → ℤ → Result (Unit {0}) × Db
unfolding save remove_first is_library_ppn
delete io db proj prog =
    if is_library_ppn proj prog
    then (err protection_violation, db)
    else if is_some (find_ppn db.accounts proj prog)
    then save io (record db { accounts = remove_first db.accounts proj prog })
    else (err not_found, db)

-- `if n < 0 { n = 0 }`
abbrev pub at_least_zero : ℤ → ℤ
at_least_zero (pos n) = pos n
at_least_zero (negsuc n) = pos 0

abbrev pub with_quota : ℤ → ℤ → Bool → Bool → Account → Account
with_quota quota job_quota set_it set_job a = record a {
  quota = if set_it then at_least_zero quota else a.quota;
  job_quota = if set_job then at_least_zero job_quota else a.job_quota;
}

abbrev pub quota_of : Bool → Db → ℤ → ℤ → ℤ → ℤ → Bool → Bool → Option Account → Result Account × Db
quota_of io db proj prog quota job_quota set_it set_job none = (err not_found, db)
quota_of io db proj prog quota job_quota set_it set_job (some a) =
    saved_as (with_quota quota job_quota set_it set_job a) (
      save io (record db {
        accounts = change_first (with_quota quota job_quota set_it set_job) db.accounts proj prog;
      }))

unfoldable pub set_quota : Bool → Db → ℤ → ℤ → ℤ → ℤ → Bool → Bool → Result Account × Db
unfolding save change_first
set_quota io db proj prog quota job_quota set_it set_job =
    quota_of io db proj prog quota job_quota set_it set_job (find_ppn db.accounts proj prog)
