-- ===== src/Tests/Queues.antt =====
-- A print queue with a job in it, and a table of two commands.
use rsts_e_v7_2_lookalike.Prelude.{◌≡◌, true, false, none, some, List, [], ◌∷◌, ◌++◌}
use rsts_e_v7_2_lookalike.Prelude.Int.{pos}
use rsts_e_v7_2_lookalike.Text.Ascii.{codes}
use rsts_e_v7_2_lookalike.Spool.{SpoolJob, Disk, unreadable, enqueue_print, list_queue, drain_one}
use rsts_e_v7_2_lookalike.Spool.Order.{
  Steps, NoneHas, first_of_queue, rest_of_queue, enqueue_print_fresh, queue_fifo,
}
use rsts_e_v7_2_lookalike.Ccl.{CclEntry, lookup_ccl, define_ccl, delete_ccl}
use rsts_e_v7_2_lookalike.Ccl.Lookup.{
  resolved, first_exact, lookup_ccl-resolved, lookup_ccl-define_ccl, first_exact-delete_ccl,
}
use rsts_e_v7_2_lookalike.Text.Ascii.{upper}

abbrev queued : Disk
queued = (enqueue_print true 5 unreadable (codes "[1,2]") (pos 3) (codes "A.LST")).1

queued-Steps : Steps queued
queued-Steps = Steps.enqueue true 5 (codes "[1,2]") (pos 3) (codes "A.LST") Steps.start

enqueue_print_fresh_example :
    NoneHas
      (enqueue_print false 6 queued (codes "[1,2]") (pos 3) (codes "B.LST")).0
      (list_queue queued)
enqueue_print_fresh_example =
    enqueue_print_fresh false 6 queued (codes "[1,2]") (pos 3) (codes "B.LST") queued-Steps

queue_fifo_example :
    let (id, after) = enqueue_print true 6 queued (codes "[1,2]") (pos 3) (codes "B.LST") in
    let entry : SpoolJob = record {
      id = id;
      who = codes "[1,2]";
      job = pos 3;
      file = codes "B.LST";
      at = 6;
    } in
    (list_queue after ≡ list_queue queued ++ entry ∷ [])
    × ((drain_one true queued).0 ≡ first_of_queue (list_queue queued))
    × (list_queue (drain_one true queued).1 ≡ rest_of_queue (list_queue queued))
queue_fifo_example = queue_fifo 6 queued (codes "[1,2]") (pos 3) (codes "B.LST")

abbrev commands : List CclEntry
commands =
    record { name = codes "DIR"; spec = codes "$DIRECT"; priv = false }
    ∷ record { name = codes "DIRECTORY"; spec = codes "$DIRECT"; priv = false }
    ∷ []

lookup_ccl-resolved_example :
    lookup_ccl commands (codes "dire") ≡ resolved (upper (codes "dire")) commands
lookup_ccl-resolved_example = lookup_ccl-resolved commands (codes "dire")

lookup_ccl-define_ccl_example :
    lookup_ccl (define_ccl commands (codes "dire") (codes "$DIRE")) (codes "dire")
    ≡ some (record { name = codes "dire"; spec = codes "$DIRE"; priv = false })
lookup_ccl-define_ccl_example = lookup_ccl-define_ccl commands (codes "dire") (codes "$DIRE")

first_exact-delete_ccl_example :
    first_exact (upper (codes "dir")) (delete_ccl commands (upper (codes "dir"))) ≡ none
first_exact-delete_ccl_example = first_exact-delete_ccl commands (codes "dir")
