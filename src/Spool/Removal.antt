-- ===== src/Spool/Removal.antt =====
-- What removing a job does to the queue (queue.go: `deleteQueue`).
use rsts_e_v7_2_lookalike.Prelude.{◌≡◌, Bool, true, false, List, ◌∷◌, ◌++◌, ◌⊎◌}
use rsts_e_v7_2_lookalike.Prelude.Int.{ℤ}
use rsts_e_v7_2_lookalike.Bytes.Reader.{Bytes}
use rsts_e_v7_2_lookalike.Bytes.Lists.{All}
use rsts_e_v7_2_lookalike.Spool.{SpoolJob}

-- The job that a user may remove under an id: it has the id, and is the user's own unless the user
-- has privilege.
abbrev pub IsRemovable : ℤ → Bytes → Bool → SpoolJob → Type 0
IsRemovable id who priv j = (j.id ≡ id) × ((priv ≡ true) ⊎ (j.who ≡ who))

-- What removing it does to a list of jobs: nothing where no job is one, or one job goes.
abbrev pub Removes : ℤ → Bytes → Bool → List SpoolJob → Bool → List SpoolJob → Type 0
Removes id who priv jobs false rest = All (λ j. ¬ (IsRemovable id who priv j)) jobs × (rest ≡ jobs)
Removes id who priv jobs true rest =
    (before later : List SpoolJob) × (j : SpoolJob) × (jobs ≡ before ++ j ∷ later)
    × IsRemovable id who priv j
    × (rest ≡ before ++ later)
