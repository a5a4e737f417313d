-- ===== src/Accounts/Invariant.antt =====
-- The invariant of the account database, and that every operation keeps it.
pub mod Lists
use rsts_e_v7_2_lookalike.Prelude.{
  ℕ, ◌≡◌, refl, ◌∙◌, Bool, true, false, ◌&&◌, ◌||◌, not, Option, none, some, List, [], ◌∷◌, ◌++◌,
  arith, if◌then◌else◌, Bool-cases, Option-cases, inl, inr,
}
use rsts_e_v7_2_lookalike.Prelude.Int.{ℤ, pos, eq_ℤ}
use rsts_e_v7_2_lookalike.Bytes.Reader.{Bytes}
use rsts_e_v7_2_lookalike.Bytes.Lists.{All}
use rsts_e_v7_2_lookalike.Accounts.{
  Account, Db, Result, ok, err, is_library_ppn, has_ppn, has_privilege, is_project_one,
}
use rsts_e_v7_2_lookalike.Accounts.Names.{normalize_account_name, normalize_password}
use rsts_e_v7_2_lookalike.Accounts.Store.{find_ppn, is_some, save}
use rsts_e_v7_2_lookalike.Accounts.Update.{
  add_account, new_account, with_password, with_name, saved_as, outside, change_password, quota_of,
  with_quota, create, set_password, delete, set_quota, name_used, change_first, remove_first,
}
use rsts_e_v7_2_lookalike.Accounts.Invariant.Lists.{
  IsUnique, present, IsFlagged, KeepsPpn, present-snoc, snoc-IsUnique, snoc-IsFlagged,
  change_first-IsUnique, present-change_first, change_first-IsFlagged, remove_first-IsUnique,
  present-remove_first, remove_first-IsFlagged,
}

-- No two accounts have one PPN, the library accounts [1,2] and [1,9] are there, and the accounts of
-- project 1 have their privilege flag set.
pub record IsValid (accounts : List Account) : Type 0 where
  pub unique : IsUnique accounts
  pub system : present accounts (pos 1) (pos 2) ≡ true
  pub library : present accounts (pos 1) (pos 9) ≡ true
  pub flagged : IsFlagged accounts

save_accounts : (io : Bool) (db : Db) → (save io db).1.accounts ≡ db.accounts
unfolding save
save_accounts true db = refl
save_accounts false db = refl

saved_as_db {ℓ} : {A : Type ℓ} (a : A) (r : Result (Unit {0}) × Db) → (saved_as a r).1 ≡ r.1
saved_as_db a (ok u, db) = refl
saved_as_db a (err e, db) = refl

snoc-IsValid :
    (accounts : List Account) (a : Account)
    → IsValid accounts
    → present accounts a.proj a.prog ≡ false
    → (is_project_one a.proj && not a.privileged ≡ false)
    → IsValid (accounts ++ a ∷ [])
snoc-IsValid accounts a v fresh flag = record {
  unique = snoc-IsUnique accounts a v.unique fresh;
  system = rw (present-snoc accounts a (pos 1) (pos 2), v.system);
  library = rw (present-snoc accounts a (pos 1) (pos 9), v.library);
  flagged = snoc-IsFlagged accounts a v.flagged flag;
}

add_account-IsValid :
    (io : Bool) (db : Db) (a : Account)
    → IsValid db.accounts
    → present db.accounts a.proj a.prog ≡ false
    → (is_project_one a.proj && not a.privileged ≡ false)
    → IsValid (add_account io db a).1.accounts
add_account-IsValid io db a v fresh flag = elim (Bool-cases (name_used db.accounts a.name)) [
  | inl used ↦ rw used v
  | inr free ↦
      rw
        (
          free,
          saved_as_db a (save io (record db { accounts = db.accounts ++ a ∷ [] })),
          save_accounts io (record db { accounts = db.accounts ++ a ∷ [] }),
        )
        (snoc-IsValid db.accounts a v fresh flag)
]

new_account_flag :
    (proj : ℤ) (privileged : Bool)
    → (is_project_one proj && not (privileged || is_project_one proj) ≡ false)
new_account_flag proj privileged = ground arith

with_password-IsValid :
    (io : Bool) (db : Db) (proj prog : ℤ) (name : Bytes) (privileged : Bool)
    (password : Option Bytes)
    → IsValid db.accounts
    → present db.accounts proj prog ≡ false
    → IsValid (with_password io db proj prog name privileged password).1.accounts
with_password-IsValid io db proj prog name privileged none v fresh = v
with_password-IsValid io db proj prog name privileged (some password) v fresh =
    add_account-IsValid io db (new_account proj prog name password privileged) v fresh
      (new_account_flag proj privileged)

with_name-IsValid :
    (io : Bool) (db : Db) (proj prog : ℤ) (password : Bytes) (privileged : Bool)
    (name : Option Bytes)
    → IsValid db.accounts
    → present db.accounts proj prog ≡ false
    → IsValid (with_name io db proj prog password privileged name).1.accounts
with_name-IsValid io db proj prog password privileged none v fresh = v
with_name-IsValid io db proj prog password privileged (some name) v fresh =
    with_password-IsValid io db proj prog name privileged (normalize_password password) v fresh

-- `Create` keeps the invariant, whether it succeeds or not.
create-IsValid :
    (io : Bool) (db : Db) (proj prog : ℤ) (name password : Bytes) (privileged : Bool)
    → IsValid db.accounts
    → IsValid (create io db proj prog name password privileged).1.accounts
unfolding create
create-IsValid io db proj prog name password privileged v =
    elim (Bool-cases (outside 254 proj || outside 255 prog)) [
      | inl bad ↦ rw bad v
      | inr good ↦ elim (Bool-cases (present db.accounts proj prog)) [
        | inl old ↦ rw (good, old) v
        | inr fresh ↦
            rw (good, fresh)
              (with_name-IsValid io db proj prog password privileged (normalize_account_name name) v
                fresh)
      ]
    ]

change_first-IsValid :
    (f : Account → Account) (accounts : List Account) (proj prog : ℤ)
    → KeepsPpn f
    → IsValid accounts
    → IsValid (change_first f accounts proj prog)
change_first-IsValid f accounts proj prog keeps v = record {
  unique = change_first-IsUnique f keeps accounts proj prog v.unique;
  system = present-change_first f keeps accounts proj prog (pos 1) (pos 2) ∙ v.system;
  library = present-change_first f keeps accounts proj prog (pos 1) (pos 9) ∙ v.library;
  flagged = change_first-IsFlagged f keeps accounts proj prog v.flagged;
}

save-IsValid : (io : Bool) (db : Db) → IsValid db.accounts → IsValid (save io db).1.accounts
save-IsValid io db v = rw (save_accounts io db) v

change_password-IsValid :
    (io : Bool) (db : Db) (acct : Account) (password : Option Bytes)
    → IsValid db.accounts
    → IsValid (change_password io db acct password).1.accounts
change_password-IsValid io db acct none v = v
change_password-IsValid io db acct (some password) v =
    elim (Bool-cases (present db.accounts acct.proj acct.prog)) [
      | inl there ↦ rw there (
          save-IsValid io
            (record db {
              accounts =
                  change_first (λ a. record a { password = password }) db.accounts acct.proj
                    acct.prog;
            })
            (change_first-IsValid (λ a. record a { password = password }) db.accounts acct.proj
              acct.prog (λ a. (refl, refl, refl)) v))
      | inr gone ↦ rw gone v
    ]

set_password-IsValid :
    (io : Bool) (db : Db) (acct : Option Account) (password : Bytes)
    → IsValid db.accounts
    → IsValid (set_password io db acct password).1.accounts
unfolding set_password
set_password-IsValid io db none password v = v
set_password-IsValid io db (some acct) password v =
    change_password-IsValid io db acct (normalize_password password) v

quota_of-IsValid :
    (io : Bool) (db : Db) (proj prog quota job_quota : ℤ) (set_it set_job : Bool)
    (target : Option Account)
    → IsValid db.accounts
    → IsValid (quota_of io db proj prog quota job_quota set_it set_job target).1.accounts
quota_of-IsValid io db proj prog quota job_quota set_it set_job none v = v
quota_of-IsValid io db proj prog quota job_quota set_it set_job (some a) v =
    let change = with_quota quota job_quota set_it set_job in
    let after = record db { accounts = change_first change db.accounts proj prog } in
    rw (saved_as_db (change a) (save io after)) (
      save-IsValid io after
        (change_first-IsValid change db.accounts proj prog (λ b. (refl, refl, refl)) v))

set_quota-IsValid :
    (io : Bool) (db : Db) (proj prog quota job_quota : ℤ) (set_it set_job : Bool)
    → IsValid db.accounts
    → IsValid (set_quota io db proj prog quota job_quota set_it set_job).1.accounts
unfolding set_quota
set_quota-IsValid io db proj prog quota job_quota set_it set_job v =
    quota_of-IsValid io db proj prog quota job_quota set_it set_job (find_ppn db.accounts proj prog)
      v

remove_first-IsValid :
    (accounts : List Account) (proj prog : ℤ)
    → is_library_ppn proj prog ≡ false
    → IsValid accounts
    → IsValid (remove_first accounts proj prog)
unfolding is_library_ppn
remove_first-IsValid accounts proj prog other v = record {
  unique = remove_first-IsUnique accounts proj prog v.unique;
  system = present-remove_first accounts proj prog (pos 1) (pos 2) (ground arith) ∙ v.system;
  library = present-remove_first accounts proj prog (pos 1) (pos 9) (ground arith) ∙ v.library;
  flagged = remove_first-IsFlagged accounts proj prog v.flagged;
}

-- `Delete` keeps the invariant: the library accounts cannot go.
delete-IsValid :
    (io : Bool) (db : Db) (proj prog : ℤ)
    → IsValid db.accounts
    → IsValid (delete io db proj prog).1.accounts
unfolding delete
delete-IsValid io db proj prog v = elim (Bool-cases (is_library_ppn proj prog)) [
  | inl stock ↦ rw stock v
  | inr other ↦ elim (Bool-cases (present db.accounts proj prog)) [
    | inl there ↦
        rw (other, there)
          (save-IsValid io (record db { accounts = remove_first db.accounts proj prog })
            (remove_first-IsValid db.accounts proj prog other v))
    | inr gone ↦ rw (other, gone) v
  ]
]

-- What the program does to the database while it runs; each write of the file may succeed or fail.
pub data Step (db : Db) : Db → Type 0 where
  creates :
      (io : Bool) (proj prog : ℤ) (name password : Bytes) (privileged : Bool)
      → Step db (create io db proj prog name password privileged).1
  sets_password :
      (io : Bool) (acct : Option Account) (password : Bytes)
      → Step db (set_password io db acct password).1
  deletes : (io : Bool) (proj prog : ℤ) → Step db (delete io db proj prog).1
  sets_quota :
      (io : Bool) (proj prog quota job_quota : ℤ) (set_it set_job : Bool)
      → Step db (set_quota io db proj prog quota job_quota set_it set_job).1

pub data Steps (db : Db) : Db → Type 0 where
  here : Steps db db
  next : {mid last : Db} → Steps db mid → Step mid last → Steps db last

Step-IsValid : {db last : Db} → Step db last → IsValid db.accounts → IsValid last.accounts
Step-IsValid {db} (creates io proj prog name password privileged) v =
    create-IsValid io db proj prog name password privileged v
Step-IsValid {db} (sets_password io acct password) v = set_password-IsValid io db acct password v
Step-IsValid {db} (deletes io proj prog) v = delete-IsValid io db proj prog v
Step-IsValid {db} (sets_quota io proj prog quota job_quota set_it set_job) v =
    set_quota-IsValid io db proj prog quota job_quota set_it set_job v

-- From a database in which no two accounts have one PPN, both library accounts are there and project
-- 1 is privileged: however accounts are created, changed and deleted, and whichever writes of the file
-- fail, no two accounts have one PPN, the library accounts stay, and project 1 stays privileged.
pub Steps-IsValid : {db last : Db} → Steps db last → IsValid db.accounts → IsValid last.accounts
Steps-IsValid here v = v
Steps-IsValid (next steps s) v = Step-IsValid s (Steps-IsValid steps v)
