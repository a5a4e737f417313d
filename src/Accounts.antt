-- ===== src/Accounts.antt =====
-- The account database (accounts.go). The accounts in memory are a list in the order of the slice,
-- whose pointers are never nil; the file `accounts.json` is the list that the last write left.
-- Whether a write of that file succeeds is the argument `io`.
pub mod Names
pub mod Store
pub mod Update
pub mod Invariant
pub mod Loading
pub mod Outcomes
use rsts_e_v7_2_lookalike.Prelude.{
  ℕ, ◌||◌, ◌&&◌, Bool, true, false, Option, none, some, List, [], ◌∷◌, ◌==◌,
}
use rsts_e_v7_2_lookalike.Prelude.Int.{ℤ, pos, negsuc, eq_ℤ}
use rsts_e_v7_2_lookalike.Bytes.Reader.{Bytes}
use rsts_e_v7_2_lookalike.Text.Ascii.{codes}

pub record Account : Type 0 where
  pub proj : ℤ
  pub prog : ℤ
  pub name : Bytes
  pub password : Bytes
  pub privileged : Bool
  pub quota : ℤ
  pub job_quota : ℤ

pub data AccountError : Type 0 where
  illegal_ppn account_exists illegal_name illegal_password name_in_use no_account : AccountError
  not_found protection_violation io_error : AccountError

pub data Result {ℓ} (A : Type ℓ) : Type ℓ where
  ok : A → Result A
  err : AccountError → Result A

-- `AccountDB`, with the contents of its file.
pub record Db : Type 0 where
  pub accounts : List Account
  pub saved : Option (List Account)

abbrev pub is_project_one : ℤ → Bool
is_project_one proj = eq_ℤ proj (pos 1)

-- `HasPrivilege` of an account that is there, or of nil.
unfoldable pub has_privilege : Option Account → Bool
has_privilege none = false
has_privilege (some a) = is_project_one a.proj || a.privileged

unfoldable pub is_library_ppn : ℤ → ℤ → Bool
is_library_ppn proj prog = is_project_one proj && (eq_ℤ prog (pos 2) || eq_ℤ prog (pos 9))

abbrev pub has_ppn : Account → ℤ → ℤ → Bool
has_ppn a proj prog = eq_ℤ a.proj proj && eq_ℤ a.prog prog

abbrev stock : ℕ → ℕ → Bytes → Bool → Account
stock proj prog name privileged = record {
  proj = pos proj;
  prog = pos prog;
  name = name;
  password = name;
  privileged = privileged;
  quota = pos 0;
  job_quota = pos 0;
}

abbrev pub system_account : Account
system_account = stock 1 2 (codes "SYSTEM") true

abbrev pub library_account : Account
library_account = stock 1 9 (codes "LIBRARY") true

abbrev pub default_accounts : List Account
default_accounts =
    system_account
    ∷ library_account
    ∷ stock 100 100 (codes "GUEST") false
    ∷ stock 200 200 (codes "DEMO") false
    ∷ []
