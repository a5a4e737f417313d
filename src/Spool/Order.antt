-- ===== src/Spool/Order.antt =====
-- Job ids are never used twice, and jobs are printed in the order in which they were queued.
use rsts_e_v7_2_lookalike.Prelude.{
  ℕ, suc, ◌+◌, ◌≤◌, ◌<◌, ◌≡◌, ◌≢◌, refl, sym, ◌∙◌, Bool, true, false, Option, none, some, List, [],
  ◌∷◌, ◌++◌, arith, le→ltb, ◌⊎◌, Bool-cases, inl, inr,
}
use rsts_e_v7_2_lookalike.Prelude.Int.{ℤ, pos}
use rsts_e_v7_2_lookalike.Bytes.Reader.{Bytes}
use rsts_e_v7_2_lookalike.Bytes.Lists.{All}
use rsts_e_v7_2_lookalike.Spool.{
  SpoolJob, Disk, unreadable, holds, enqueue_print, list_queue, may_delete, kept, delete_queue,
  drain_one,
}

-- The ids rise along the queue, from `low` on, and stay below `next`.
abbrev pub Rising : ℕ → ℕ → List SpoolJob → Type 0
Rising low next [] = low ≤ next
Rising low next (j ∷ jobs) =
    (n : ℕ) × (j.id ≡ pos n) × (low ≤ n) × (n < next) × Rising (suc n) next jobs

-- A queue that the program wrote: it holds no job yet, or its ids rise from 1 to below `next`.
pub data IsOrdered : Disk → Type 0 where
  empty : IsOrdered unreadable
  rising :
      (n : ℕ) (jobs : List SpoolJob)
      → 1 ≤ n
      → Rising 1 n jobs
      → IsOrdered (holds (record { next = pos n; jobs = jobs }))

Rising-weaken :
    (low lower next : ℕ) (jobs : List SpoolJob)
    → lower ≤ low
    → Rising low next jobs
    → Rising lower next jobs
Rising-weaken low lower next [] h r = omega arith
Rising-weaken low lower next (j ∷ jobs) h (n, e, a, b, rest) = (n, e, omega arith, b, rest)

Rising-snoc :
    (low next : ℕ) (jobs : List SpoolJob) (j : SpoolJob)
    → j.id ≡ pos next
    → Rising low next jobs
    → Rising low (next + 1) (jobs ++ j ∷ [])
Rising-snoc low next [] j e r = (next, e, r, omega arith, omega arith)
Rising-snoc low next (x ∷ jobs) j e (n, f, a, b, rest) =
    (n, f, a, omega arith, Rising-snoc (suc n) next jobs j e rest)

Rising-kept :
    (low next : ℕ) (jobs : List SpoolJob) (id : ℤ) (who : Bytes) (priv : Bool)
    → Rising low next jobs
    → Rising low next (kept id who priv jobs).0
unfolding kept
Rising-kept low next [] id who priv r = r
Rising-kept low next (j ∷ jobs) id who priv (n, e, a, b, rest) =
    elim (Bool-cases (may_delete id who priv j)) [
      | inl goes ↦ rw goes (
          Rising-weaken (suc n) low next _ (omega arith)
            (Rising-kept (suc n) next jobs id who priv rest))
      | inr stays ↦ rw stays (n, e, a, b, Rising-kept (suc n) next jobs id who priv rest)
    ]

-- What users and the spooler do with the queue; each write may fail.
pub data Steps : Disk → Type 0 where
  start : Steps unreadable
  enqueue :
      {disk : Disk} (io : Bool) (now : ℕ) (who : Bytes) (job : ℤ) (file : Bytes)
      → Steps disk
      → Steps (enqueue_print io now disk who job file).1
  delete :
      {disk : Disk} (io : Bool) (id : ℤ) (who : Bytes) (priv : Bool)
      → Steps disk
      → Steps (delete_queue io disk id who priv).1
  drain : {disk : Disk} (io : Bool) → Steps disk → Steps (drain_one io disk).1

enqueue-IsOrdered :
    (io : Bool) (now : ℕ) (disk : Disk) (who : Bytes) (job : ℤ) (file : Bytes)
    → IsOrdered disk
    → IsOrdered (enqueue_print io now disk who job file).1
unfolding enqueue_print
enqueue-IsOrdered false now disk who job file h = h
enqueue-IsOrdered true now unreadable who job file h =
    rising 2 _ (omega arith) (1, refl, omega arith, omega arith, omega arith)
enqueue-IsOrdered true now (holds q) who job file (rising n jobs positive r) =
    rw (le→ltb n 1 positive, le→ltb n 1 positive)
      (rising (n + 1) _ (omega arith) (Rising-snoc 1 n jobs _ refl r))

delete-IsOrdered :
    (io : Bool) (disk : Disk) (id : ℤ) (who : Bytes) (priv : Bool)
    → IsOrdered disk
    → IsOrdered (delete_queue io disk id who priv).1
unfolding delete_queue
delete-IsOrdered false disk id who priv h = h
delete-IsOrdered true unreadable id who priv h = rising 1 [] (omega arith) (omega arith)
delete-IsOrdered true (holds q) id who priv (rising n jobs positive r) =
    rw (le→ltb n 1 positive) (rising n _ positive (Rising-kept 1 n jobs id who priv r))

drain-IsOrdered : (io : Bool) (disk : Disk) → IsOrdered disk → IsOrdered (drain_one io disk).1
unfolding drain_one
drain-IsOrdered io unreadable h = h
drain-IsOrdered io (holds q) (rising n [] positive r) = rising n [] positive r
drain-IsOrdered false (holds q) (rising n (j ∷ jobs) positive r) = rising n (j ∷ jobs) positive r
drain-IsOrdered true (holds q) (rising n (j ∷ jobs) positive (m, e, a, b, rest)) =
    rw (le→ltb n 1 positive)
      (rising n jobs positive (Rising-weaken (suc m) 1 n jobs (omega arith) rest))

pub Steps-IsOrdered : {disk : Disk} → Steps disk → IsOrdered disk
Steps-IsOrdered start = empty
Steps-IsOrdered (enqueue {disk} io now who job file steps) =
    enqueue-IsOrdered io now disk who job file (Steps-IsOrdered steps)
Steps-IsOrdered (delete {disk} io id who priv steps) =
    delete-IsOrdered io disk id who priv (Steps-IsOrdered steps)
Steps-IsOrdered (drain {disk} io steps) = drain-IsOrdered io disk (Steps-IsOrdered steps)

-- No job of the list has the id.
abbrev pub NoneHas : ℤ → List SpoolJob → Type 0
NoneHas id = All (λ j. j.id ≢ id)

pub Rising-NoneHas :
    (low next m : ℕ) (jobs : List SpoolJob)
    → Rising low next jobs
    → (m < low) ⊎ (next ≤ m)
    → NoneHas (pos m) jobs
Rising-NoneHas low next m [] r out = tt
Rising-NoneHas low next m (j ∷ jobs) (n, e, a, b, rest) out = (
  (λ same. let clash : pos m ≡ pos n = sym same ∙ e in let equal : m ≡ n = cc clash in omega arith),
  Rising-NoneHas (suc n) next m jobs rest
      (elim out [ inl below ↦ inl (omega arith) | inr above ↦ inr above ]),
)

-- However the queue was used before, and whichever writes failed, the id that `enqueuePrint` gives
-- belongs to no job that is in the queue.
pub enqueue_print_fresh :
    (io : Bool) (now : ℕ) (disk : Disk) (who : Bytes) (job : ℤ) (file : Bytes)
    → Steps disk
    → NoneHas (enqueue_print io now disk who job file).0 (list_queue disk)
unfolding enqueue_print list_queue
enqueue_print_fresh io now disk who job file steps = go disk (Steps-IsOrdered steps)
  where
    go : (d : Disk) → IsOrdered d → NoneHas (enqueue_print io now d who job file).0 (list_queue d)
    go unreadable empty = tt
    go (holds q) (rising n jobs positive r) =
        rw (le→ltb n 1 positive, le→ltb n 1 positive)
          (Rising-NoneHas 1 n n jobs r (inr (omega arith)))

abbrev pub first_of_queue : List SpoolJob → Option SpoolJob
first_of_queue [] = none
first_of_queue (j ∷ jobs) = some j

abbrev pub rest_of_queue : List SpoolJob → List SpoolJob
rest_of_queue [] = []
rest_of_queue (j ∷ jobs) = jobs

drain_one_first :
    (disk : Disk)
    → ((drain_one true disk).0 ≡ first_of_queue (list_queue disk))
      × (list_queue (drain_one true disk).1 ≡ rest_of_queue (list_queue disk))
unfolding drain_one list_queue
drain_one_first unreadable = (refl, refl)
drain_one_first (holds q) = go q.jobs refl
  where
    go :
        (jobs : List SpoolJob)
        → q.jobs ≡ jobs
        → ((drain_one true (holds q)).0 ≡ first_of_queue q.jobs)
          × (list_queue (drain_one true (holds q)).1 ≡ rest_of_queue q.jobs)
    go [] e = ground arith
    go (j ∷ jobs) e = ground arith

-- As long as the writes succeed, the queue is a first-in first-out list, whatever the disk holds: a
-- job is queued at its end, under the id that the user is told, and what the spooler takes off to
-- print is the first job, if there is one, and leaves the rest.
pub queue_fifo :
    (now : ℕ) (disk : Disk) (who : Bytes) (job : ℤ) (file : Bytes)
    → let (id, after) = enqueue_print true now disk who job file in
      let entry : SpoolJob = record { id = id; who = who; job = job; file = file; at = now } in
      (list_queue after ≡ list_queue disk ++ entry ∷ [])
      × ((drain_one true disk).0 ≡ first_of_queue (list_queue disk))
      × (list_queue (drain_one true disk).1 ≡ rest_of_queue (list_queue disk))
unfolding enqueue_print
queue_fifo now disk who job file =
    (unfold list_queue in refl, (drain_one_first disk).0, (drain_one_first disk).1)
