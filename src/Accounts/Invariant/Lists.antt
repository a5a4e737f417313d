-- ===== src/Accounts/Invariant/Lists.antt =====
-- Lists of accounts under the changes that the operations make to them.
use rsts_e_v7_2_lookalike.Prelude.{
  ◌≡◌, refl, Bool, true, false, ◌&&◌, not, List, [], ◌∷◌, ◌++◌, arith, if◌then◌else◌,
}
use rsts_e_v7_2_lookalike.Prelude.Int.{ℤ, eq_ℤ, eq_ℤ_sound, eq_ℤ-sym}
use rsts_e_v7_2_lookalike.Bytes.Lists.{All}
use rsts_e_v7_2_lookalike.Accounts.{Account, has_ppn, is_project_one}
use rsts_e_v7_2_lookalike.Accounts.Store.{find_ppn, is_some}
use rsts_e_v7_2_lookalike.Accounts.Update.{change_first, remove_first}

-- Some account has the PPN.
abbrev pub present : List Account → ℤ → ℤ → Bool
present accounts proj prog = is_some (find_ppn accounts proj prog)

-- No two accounts have one PPN.
abbrev pub IsUnique : List Account → Type 0
IsUnique [] = Unit
IsUnique (a ∷ accounts) = (present accounts a.proj a.prog ≡ false) × IsUnique accounts

-- Every account of project 1 has its privilege flag set.
abbrev pub IsFlagged : List Account → Type 0
IsFlagged = All (λ a. is_project_one a.proj && not a.privileged ≡ false)

pub present-snoc :
    (accounts : List Account) (a : Account) (proj prog : ℤ)
    → present (accounts ++ a ∷ []) proj prog
      ≡ (if present accounts proj prog then true else has_ppn a proj prog)
unfolding find_ppn
present-snoc [] a proj prog = ground arith
present-snoc (x ∷ accounts) a proj prog = ground (arith, present-snoc accounts a proj prog)

has_ppn-sym : (a b : Account) → has_ppn a b.proj b.prog ≡ has_ppn b a.proj a.prog
has_ppn-sym a b = ground (arith, eq_ℤ-sym a.proj b.proj, eq_ℤ-sym a.prog b.prog)

pub snoc-IsUnique :
    (accounts : List Account) (a : Account)
    → IsUnique accounts
    → present accounts a.proj a.prog ≡ false
    → IsUnique (accounts ++ a ∷ [])
unfolding find_ppn
snoc-IsUnique [] a u fresh = (refl, tt)
snoc-IsUnique (x ∷ accounts) a u fresh =
    ground
      (arith, snoc-IsUnique accounts a u.1, present-snoc accounts a x.proj x.prog, has_ppn-sym a x)

pub snoc-IsFlagged :
    (accounts : List Account) (a : Account)
    → IsFlagged accounts
    → (is_project_one a.proj && not a.privileged ≡ false)
    → IsFlagged (accounts ++ a ∷ [])
snoc-IsFlagged [] a h flag = (flag, tt)
snoc-IsFlagged (x ∷ accounts) a h flag = (h.0, snoc-IsFlagged accounts a h.1 flag)

-- A change that keeps the PPN and the privilege flag.
abbrev pub KeepsPpn : (Account → Account) → Type 0
KeepsPpn f =
    (a : Account)
    → ((f a).proj ≡ a.proj) × ((f a).prog ≡ a.prog) × ((f a).privileged ≡ a.privileged)

module _ (f : Account → Account) (keeps : KeepsPpn f) where
  pub present-change_first :
      (accounts : List Account) (proj prog p q : ℤ)
      → present (change_first f accounts proj prog) p q ≡ present accounts p q
  unfolding find_ppn change_first
  present-change_first [] proj prog p q = refl
  present-change_first (x ∷ accounts) proj prog p q =
      ground (arith, keeps x, present-change_first accounts proj prog p q)

  pub change_first-IsUnique :
      (accounts : List Account) (proj prog : ℤ)
      → IsUnique accounts
      → IsUnique (change_first f accounts proj prog)
  unfolding find_ppn change_first
  change_first-IsUnique [] proj prog u = tt
  change_first-IsUnique (x ∷ accounts) proj prog u = ground (
    arith,
    keeps x,
    change_first-IsUnique accounts proj prog u.1,
    present-change_first accounts proj prog x.proj x.prog,
  )

  pub change_first-IsFlagged :
      (accounts : List Account) (proj prog : ℤ)
      → IsFlagged accounts
      → IsFlagged (change_first f accounts proj prog)
  unfolding change_first
  change_first-IsFlagged [] proj prog h = tt
  change_first-IsFlagged (x ∷ accounts) proj prog h =
      ground (arith, keeps x, change_first-IsFlagged accounts proj prog h.1)

pub present-remove_first :
    (accounts : List Account) (proj prog p q : ℤ)
    → (eq_ℤ proj p && eq_ℤ prog q ≡ false)
    → present (remove_first accounts proj prog) p q ≡ present accounts p q
unfolding find_ppn remove_first
present-remove_first [] proj prog p q ne = refl
present-remove_first (x ∷ accounts) proj prog p q ne = ground (
  arith,
  eq_ℤ_sound x.proj proj,
  eq_ℤ_sound x.prog prog,
  present-remove_first accounts proj prog p q ne,
)

-- Removing accounts adds none.
remove_first_absent :
    (accounts : List Account) (proj prog p q : ℤ)
    → present accounts p q ≡ false
    → present (remove_first accounts proj prog) p q ≡ false
unfolding find_ppn remove_first
remove_first_absent [] proj prog p q h = refl
remove_first_absent (x ∷ accounts) proj prog p q h =
    ground (arith, remove_first_absent accounts proj prog p q)

pub remove_first-IsUnique :
    (accounts : List Account) (proj prog : ℤ)
    → IsUnique accounts
    → IsUnique (remove_first accounts proj prog)
unfolding remove_first
remove_first-IsUnique [] proj prog u = tt
remove_first-IsUnique (x ∷ accounts) proj prog u = ground (
  arith,
  remove_first-IsUnique accounts proj prog u.1,
  remove_first_absent accounts proj prog x.proj x.prog u.0,
)

pub remove_first_removes :
    (accounts : List Account) (proj prog : ℤ)
    → IsUnique accounts
    → present (remove_first accounts proj prog) proj prog ≡ false
unfolding find_ppn remove_first
remove_first_removes [] proj prog u = refl
remove_first_removes (x ∷ accounts) proj prog u = ground (
  arith,
  eq_ℤ_sound x.proj proj,
  eq_ℤ_sound x.prog prog,
  remove_first_removes accounts proj prog u.1,
)

pub remove_first-IsFlagged :
    (accounts : List Account) (proj prog : ℤ)
    → IsFlagged accounts
    → IsFlagged (remove_first accounts proj prog)
unfolding remove_first
remove_first-IsFlagged [] proj prog h = tt
remove_first-IsFlagged (x ∷ accounts) proj prog h =
    ground (arith, remove_first-IsFlagged accounts proj prog h.1)
