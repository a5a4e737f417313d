-- ===== src/Tests/Files.antt =====
-- Two jobs and the files that they share.
use rsts_e_v7_2_lookalike.Prelude.{
  ℕ, ◌≡◌, ◌≢◌, ◌≤◌, ◌↔◌, ◌⊎◌, refl, Bool, true, false, none, some, [], ◌∷◌, arith, if◌then◌else◌,
}
use rsts_e_v7_2_lookalike.Prelude.Int.{pos}
use rsts_e_v7_2_lookalike.Bytes.Magic.{bytes_eq}
use rsts_e_v7_2_lookalike.Text.Ascii.{codes, lower}
use rsts_e_v7_2_lookalike.Disk.Locks.{
  Locks, interlocked, lock_key, lock_record, unlock_record, Others, lock_record_exclusive,
}
use rsts_e_v7_2_lookalike.Disk.Claims.{Claims, in_use, count, claim, release}
use rsts_e_v7_2_lookalike.Disk.Claims.Exclusion.{
  Meanwhile, Reach, claim_exclusive, release_drops_exclusive,
}
use rsts_e_v7_2_lookalike.Disk.Protection.{
  check_priv_prot, is_priv_compiled, has_bit, check_priv_prot_iff,
}

abbrev closed : Claims
closed = record { jobs = []; excl = none }

abbrev mine : Claims
mine = record { jobs = (4, 1) ∷ []; excl = some 4 }

abbrev twice : Claims
twice = record { jobs = (4, 2) ∷ []; excl = some 4 }

claim_exclusive_example :
    (count (release mine 5).jobs 5 ≡ 0) × (claim (release mine 5) 5 false ≡ in_use)
unfolding claim
claim_exclusive_example =
    claim_exclusive closed mine (release mine 5) 4 5 false Reach.start refl
      (Meanwhile.closes 5 (omega arith) Meanwhile.at_once) (omega arith)

release_drops_exclusive_example :
    (1 ≤ count (release twice 4).jobs 4) × (claim (release twice 4) 5 false ≢ in_use)
unfolding claim
release_drops_exclusive_example =
    release_drops_exclusive closed mine twice 4 5 Reach.start refl refl

abbrev no_locks : Locks
no_locks = λ key. none

abbrev one_lock : Locks
one_lock = λ key. if bytes_eq key (lock_key (codes "DB.DAT") 3) then some 4 else none

-- Job 5 unlocks a record of another file in between.
lock_record_exclusive_example : lock_record one_lock (codes "db.dat") 3 5 ≡ interlocked
unfolding lock_record unlock_record lower bytes_eq
lock_record_exclusive_example =
    lock_record_exclusive no_locks one_lock one_lock (codes "db.dat") 3 4 5 refl (omega arith)
      (omega arith) refl (Others.unlock (codes "X") 3 5 (omega arith) (omega arith) Others.done)

check_priv_prot_iff_example :
    (check_priv_prot (pos 232) true ≡ none)
    ↔ (prot : ℕ) × (pos 232 ≡ pos prot)
      × (prot ≤ 255)
      × ((has_bit prot 128 ≡ false) ⊎ (◌≡◌ {A = Bool} true true) × (is_priv_compiled prot ≡ true))
check_priv_prot_iff_example = check_priv_prot_iff (pos 232) true
