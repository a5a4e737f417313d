-- ===== src/Spool.antt =====
-- The print queue (queue.go): `loadQueue`, `saveQueue`, `enqueuePrint`, `listQueue`, `deleteQueue`
-- and the part of `drainOne` that works on the queue. Each runs under the system's lock, so a step
-- is a whole function. Whether a write of `queue.json` succeeds is the argument `io`: a failed write
-- is not reported.
pub mod Order
pub mod Removal
use rsts_e_v7_2_lookalike.Prelude.{
  ℕ, zero, suc, ◌+◌, Bool, true, false, ◌&&◌, ◌||◌, Option, none, some, List, [], ◌∷◌, ◌++◌, ltb,
  ◌==◌, if◌then◌else◌,
}
use rsts_e_v7_2_lookalike.Prelude.Int.{ℤ, pos, negsuc, eq_ℤ}
use rsts_e_v7_2_lookalike.Bytes.Reader.{Bytes}
use rsts_e_v7_2_lookalike.Bytes.Magic.{bytes_eq}

pub record SpoolJob : Type 0 where
  pub id : ℤ
  pub who : Bytes
  pub job : ℤ
  pub file : Bytes
  pub at : ℕ

pub record SpoolFile : Type 0 where
  pub next : ℤ
  pub jobs : List SpoolJob

-- What `queue.json` holds: nothing that can be read as a queue, or a queue.
pub data Disk : Type 0 where
  unreadable : Disk
  holds : SpoolFile → Disk

-- `if x < 1 { x = 1 }`
abbrev pub at_least_one : ℤ → ℤ
at_least_one (negsuc n) = pos 1
at_least_one (pos n) = if ltb n 1 then pos 1 else pos n

abbrev pub succ : ℤ → ℤ
succ (pos n) = pos (n + 1)
succ (negsuc zero) = pos 0
succ (negsuc (suc n)) = negsuc n

unfoldable pub load_queue : Disk → SpoolFile
load_queue unreadable = record { next = pos 1; jobs = [] }
load_queue (holds q) = record q { next = at_least_one q.next }

unfoldable pub save_queue : Bool → Disk → SpoolFile → Disk
save_queue true disk q = holds q
save_queue false disk q = disk

-- The id of the new job, and the disk.
unfoldable pub enqueue_print : Bool → ℕ → Disk → Bytes → ℤ → Bytes → ℤ × Disk
unfolding load_queue save_queue
enqueue_print io now disk who job file =
    let q = load_queue disk in
    let id = at_least_one q.next in
    let entry : SpoolJob = record { id = id; who = who; job = job; file = file; at = now } in
    (id, save_queue io disk (record { next = succ id; jobs = q.jobs ++ entry ∷ [] }))

unfoldable pub list_queue : Disk → List SpoolJob
unfolding load_queue
list_queue disk = (load_queue disk).jobs

-- `j.ID == id && (priv || j.Who == who)`
abbrev pub may_delete : ℤ → Bytes → Bool → SpoolJob → Bool
may_delete id who priv j = eq_ℤ j.id id && (priv || bytes_eq j.who who)

unfoldable pub kept : ℤ → Bytes → Bool → List SpoolJob → List SpoolJob × Bool
kept id who priv [] = ([], false)
kept id who priv (j ∷ jobs) =
    let (rest, found) = kept id who priv jobs in
    if may_delete id who priv j then (rest, true) else (j ∷ rest, found)

unfoldable pub delete_queue : Bool → Disk → ℤ → Bytes → Bool → Bool × Disk
unfolding load_queue save_queue kept
delete_queue io disk id who priv =
    let q = load_queue disk in
    let (rest, found) = kept id who priv q.jobs in
    (found, save_queue io disk (record q { jobs = rest }))

abbrev drained : Bool → Disk → SpoolFile → Option SpoolJob × Disk
drained io disk q = elim q.jobs [
  | [] ↦ (none, disk)
  | j ∷ rest ↦ (some j, save_queue io disk (record q { jobs = rest }))
]

-- The job that `drainOne` takes off the queue and prints, if there is one.
unfoldable pub drain_one : Bool → Disk → Option SpoolJob × Disk
unfolding load_queue save_queue
drain_one io disk = drained io disk (load_queue disk)
