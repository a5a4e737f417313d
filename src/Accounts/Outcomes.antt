-- ===== src/Accounts/Outcomes.antt =====
-- What creating and deleting leave behind, on success and on every error.
use rsts_e_v7_2_lookalike.Prelude.{
  ℕ, ◌≤◌, ◌⊎◌, ◌↔◌, none, ◌≡◌, ◌≢◌, Bool, true, false, some, List, [], ◌∷◌, ◌++◌, arith,
}
use rsts_e_v7_2_lookalike.Prelude.Int.{ℤ, pos}
use rsts_e_v7_2_lookalike.Bytes.Reader.{Bytes}
use rsts_e_v7_2_lookalike.Bytes.Lists.{All}
use rsts_e_v7_2_lookalike.Text.Ascii.{upper}
use rsts_e_v7_2_lookalike.Accounts.{
  Account, Db, Result, ok, err, io_error, illegal_ppn, account_exists, illegal_name,
  illegal_password, name_in_use, no_account, not_found, protection_violation, is_library_ppn,
}
use rsts_e_v7_2_lookalike.Accounts.Names.{normalize_account_name, normalize_password}
use rsts_e_v7_2_lookalike.Accounts.Store.{save}
use rsts_e_v7_2_lookalike.Accounts.Update.{delete}
use rsts_e_v7_2_lookalike.Accounts.Invariant.{IsValid}
use rsts_e_v7_2_lookalike.Accounts.Invariant.Lists.{present, remove_first_removes}

-- A PPN that an account can have.
abbrev pub InRange : ℤ → ℤ → Type 0
InRange proj prog = (p q : ℕ) × (proj ≡ pos p) × (p ≤ 254) × (prog ≡ pos q) × (q ≤ 255)

-- The account that a request asks for, where nothing stands against it.
pub record IsNew (accounts : List Account) (proj prog : ℤ) (name password : Bytes)
    (privileged : Bool) (a : Account) : Type 0 where
  pub in_range : InRange proj prog
  pub fresh : present accounts proj prog ≡ false
  pub at_proj : a.proj ≡ proj
  pub at_prog : a.prog ≡ prog
  pub named : normalize_account_name name ≡ some a.name
  pub worded : normalize_password password ≡ some a.password
  pub unused : All (λ b. upper b.name ≢ upper a.name) accounts
  pub flag : (a.privileged ≡ true) ↔ (privileged ≡ true) ⊎ (proj ≡ pos 1)
  pub no_quota : (a.quota ≡ pos 0) × (a.job_quota ≡ pos 0)

-- What a request may end with, and what it leaves of the database.
abbrev pub Created : Bool → Db → ℤ → ℤ → Bytes → Bytes → Bool → Result Account → Db → Type 0
Created io db proj prog name password privileged (ok a) after =
    (io ≡ true)
    × IsNew db.accounts proj prog name password privileged a
    × (after ≡ record { accounts = db.accounts ++ a ∷ []; saved = some (db.accounts ++ a ∷ []) })
Created io db proj prog name password privileged (err io_error) after =
    (a : Account) × (io ≡ false)
    × IsNew db.accounts proj prog name password privileged a
    × (after ≡ record { accounts = db.accounts ++ a ∷ []; saved = db.saved })
Created io db proj prog name password privileged (err illegal_ppn) after =
    (after ≡ db) × (¬ (InRange proj prog))
Created io db proj prog name password privileged (err account_exists) after =
    (after ≡ db) × (present db.accounts proj prog ≡ true)
Created io db proj prog name password privileged (err illegal_name) after =
    (after ≡ db) × (normalize_account_name name ≡ none)
Created io db proj prog name password privileged (err illegal_password) after =
    (after ≡ db) × (normalize_password password ≡ none)
Created io db proj prog name password privileged (err name_in_use) after =
    (n : Bytes) × (after ≡ db)
    × (normalize_account_name name ≡ some n)
    × (¬ (All (λ b. upper b.name ≢ upper n) db.accounts))
Created io db proj prog name password privileged (err no_account) after = ⊥
Created io db proj prog name password privileged (err not_found) after = ⊥
Created io db proj prog name password privileged (err protection_violation) after = ⊥

module _ (io : Bool) (db : Db) (proj prog : ℤ) (name password : Bytes) (privileged : Bool) where
  abbrev Ends : Result Account × Db → Type 0
  Ends (result, after) = Created io db proj prog name password privileged result after

-- An account that `Delete` removes is gone from memory, and a deleted PPN is free again, also where
-- the write of the file fails.
pub delete_removes :
    (io : Bool) (db : Db) (proj prog : ℤ)
    → IsValid db.accounts
    → is_library_ppn proj prog ≡ false
    → present (delete io db proj prog).1.accounts proj prog ≡ false
unfolding delete save
delete_removes true db proj prog v other =
    ground (arith, remove_first_removes db.accounts proj prog v.unique)
delete_removes false db proj prog v other =
    ground (arith, remove_first_removes db.accounts proj prog v.unique)
