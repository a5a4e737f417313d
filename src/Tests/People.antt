-- ===== src/Tests/People.antt =====
-- A database with the stock accounts and one more.
use rsts_e_v7_2_lookalike.Prelude.{◌≡◌, true, false, none, ◌∷◌, arith, map}
use rsts_e_v7_2_lookalike.Prelude.Int.{pos, eq_ℤ}
use rsts_e_v7_2_lookalike.Text.Ascii.{codes}
use rsts_e_v7_2_lookalike.Accounts.{Account, Db, default_accounts}
use rsts_e_v7_2_lookalike.Accounts.Store.{parsed, find_ppn, load}
use rsts_e_v7_2_lookalike.Accounts.Update.{create, delete}
use rsts_e_v7_2_lookalike.Accounts.Invariant.{IsValid, Step, Steps, Steps-IsValid}
use rsts_e_v7_2_lookalike.Accounts.Loading.{flagged, load_accounts}

abbrev booted : Db
booted = record { accounts = default_accounts; saved = none }

booted-IsValid : IsValid booted.accounts
unfolding find_ppn eq_ℤ
booted-IsValid = ground arith

Steps-IsValid_example :
    IsValid
      (delete false
        (create true booted (pos 1) (pos 5) (codes "OPS") (codes "PW") false).1
        (pos 1)
        (pos 2)).1.accounts
Steps-IsValid_example =
    Steps-IsValid
      (Steps.next
        (Steps.next Steps.here (Step.creates true (pos 1) (pos 5) (codes "OPS") (codes "PW") false))
        (Step.deletes false (pos 1) (pos 2)))
      booted-IsValid

-- An account of project 1 whose flag the file does not set.
abbrev clerk : Account
clerk = record {
  proj = pos 1;
  prog = pos 7;
  name = codes "CLERK";
  password = codes "C";
  privileged = false;
  quota = pos 0;
  job_quota = pos 0;
}

load_accounts_example :
    (load true booted (parsed (clerk ∷ default_accounts))).1.accounts
    ≡ flagged clerk ∷ map flagged default_accounts
unfolding find_ppn eq_ℤ
load_accounts_example = load_accounts true booted clerk default_accounts
