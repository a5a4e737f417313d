-- ===== src/Disk/Protection.antt =====
-- Protection codes: `isPrivCompiled`, `checkPrivProt` and `protAllows` of filesystem.go.
use rsts_e_v7_2_lookalike.Prelude.{
  ℕ, ◌/◌, ◌%◌, ◌≤◌, ◌≡◌, ◌≢◌, ◌⊎◌, inl, inr, ◌↔◌, refl, sym, Bool, true, false, ◌&&◌, not, Option,
  none, some, arith, ltb, ◌==◌, if◌then◌else◌,
}
use mathlib.Core.Path.{subst}
use rsts_e_v7_2_lookalike.Prelude.Int.{ℤ, pos, negsuc}

abbrev pub default_prot : ℕ
default_prot = 60

abbrev pub compiled_prot : ℕ
compiled_prot = 124

abbrev pub prot_owner_read : ℕ
prot_owner_read = 1

abbrev pub prot_owner_write : ℕ
prot_owner_write = 2

abbrev pub prot_group_read : ℕ
prot_group_read = 4

abbrev pub prot_group_write : ℕ
prot_group_write = 8

abbrev pub prot_world_read : ℕ
prot_world_read = 16

abbrev pub prot_world_write : ℕ
prot_world_write = 32

abbrev pub prot_executable : ℕ
prot_executable = 64

abbrev pub prot_privileged : ℕ
prot_privileged = 128

-- `prot&bit != 0`, where `bit` is a power of two.
abbrev pub has_bit : ℕ → ℕ → Bool
has_bit prot bit = not (prot / bit % 2 == 0)

-- `prot&bit == 0`
abbrev pub lacks_bit : ℕ → ℕ → Bool
lacks_bit prot bit = prot / bit % 2 == 0

pub data AccessOp : Type 0 where
  lookup read write execute delete : AccessOp

pub data ProtError : Type 0 where
  illegal_code protection_violation : ProtError

unfoldable pub is_priv_compiled : ℕ → Bool
is_priv_compiled prot = has_bit prot prot_executable && has_bit prot prot_privileged

-- `none` is the result nil.
unfoldable pub check_priv_prot : ℤ → Bool → Option ProtError
check_priv_prot (negsuc n) privileged = some illegal_code
check_priv_prot (pos prot) privileged =
    if ltb 255 prot
    then some illegal_code
    else if has_bit prot prot_privileged
    then if not privileged
      then some protection_violation
      else if lacks_bit prot prot_executable
      then some protection_violation
      else none
    else none

-- The owner's, the group's or the world's bit, whichever applies.
abbrev pub class_lacks : ℕ → Bool → Bool → ℕ → ℕ → ℕ → Bool
class_lacks prot owner group owner_bit group_bit world_bit =
    if owner
    then lacks_bit prot owner_bit
    else if group
    then lacks_bit prot group_bit
    else lacks_bit prot world_bit

-- `protAllows` behind its test for privilege.
prot_allows_op : ℕ → Bool → Bool → AccessOp → Bool
prot_allows_op prot owner group lookup = true
prot_allows_op prot owner group read =
    if has_bit prot prot_executable && not owner
    then false
    else class_lacks prot owner group prot_owner_read prot_group_read prot_world_read
prot_allows_op prot owner group write =
    class_lacks prot owner group prot_owner_write prot_group_write prot_world_write
prot_allows_op prot owner group delete =
    class_lacks prot owner group prot_owner_write prot_group_write prot_world_write
prot_allows_op prot owner group execute =
    if lacks_bit prot prot_executable
    then false
    else class_lacks prot owner group prot_owner_read prot_group_read prot_world_read

unfoldable pub prot_allows : ℕ → Bool → Bool → Bool → AccessOp → Bool
unfolding prot_allows_op
prot_allows prot owner group privileged op =
    if privileged then true else prot_allows_op prot owner group op

-- A job without privilege that does not own a file may not both read and execute it, whatever its
-- code: a compiled program can be run by others, and its text stays closed to them.
pub execute_not_read :
    (prot : ℕ) (group : Bool)
    → prot_allows prot false group false execute ≡ true
    → prot_allows prot false group false read ≡ false
unfolding prot_allows
execute_not_read prot group h = ground arith

-- Under the default codes of source files and of compiled programs, a job that is not the owner and
-- has no privilege may only look a file up, and the owner may read, write and delete it.
pub default_codes_private :
    (prot : ℕ) (group : Bool) (op : AccessOp)
    → (prot ≡ default_prot) ⊎ (prot ≡ compiled_prot)
    → op ≢ lookup
    → (prot_allows prot false group false op ≡ false)
      × (prot_allows prot true group false read ≡ true)
      × (prot_allows prot true group false write ≡ true)
      × (prot_allows prot true group false delete ≡ true)
unfolding prot_allows
default_codes_private prot group lookup h other = absurd (other refl)
default_codes_private prot group op (inl e) other = rw e (ground arith)
default_codes_private prot group op (inr e) other = rw e (ground arith)

abbrev Acceptable : Bool → ℕ → Type 0
Acceptable privileged prot =
    (prot ≤ 255)
    × ((has_bit prot prot_privileged ≡ false)
        ⊎ (privileged ≡ true) × (is_priv_compiled prot ≡ true))

natural_codes :
    (prot : ℕ) (privileged : Bool)
    → (check_priv_prot (pos prot) privileged ≡ none) ↔ Acceptable privileged prot
unfolding check_priv_prot is_priv_compiled
natural_codes prot privileged = ground arith

-- The codes that a job may set are 0 to 255, none below and none above, and those under which a
-- program runs with privilege are for a job that has privilege: the privileged bit is accepted only
-- together with the executable bit, from such a job.
pub check_priv_prot_iff :
    (code : ℤ) (privileged : Bool)
    → (check_priv_prot code privileged ≡ none)
      ↔ (prot : ℕ) × (code ≡ pos prot)
        × (prot ≤ 255)
        × ((has_bit prot prot_privileged ≡ false)
            ⊎ (privileged ≡ true) × (is_priv_compiled prot ≡ true))
unfolding check_priv_prot
check_priv_prot_iff (negsuc n) privileged = ((λ h. cc h), λ (prot, same, low, who). cc same)
check_priv_prot_iff (pos code) privileged =
    let natural = natural_codes code privileged in
    (
      (λ h. let (low, who) = natural.0 h in (code, refl, low, who)),
      λ (prot, same, low, who).
          let equal : code ≡ prot = cc same in
          natural.1 (subst (Acceptable privileged) (sym equal) (low, who)),
    )
