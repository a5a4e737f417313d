-- ===== src/Tests/Seats.antt =====
-- A system for two users.
use rsts_e_v7_2_lookalike.Prelude.{◌≤◌, []}
use rsts_e_v7_2_lookalike.Text.Ascii.{codes}
use rsts_e_v7_2_lookalike.Jobs.{Table, attach, job_count}
use rsts_e_v7_2_lookalike.Jobs.Attach.{Steps, Attaches, attach-Attaches, job_count_bounded}

abbrev one_user : Table
one_user = (attach 2 7 [] (codes "telnet")).1

attach-Attaches_example :
    Attaches 2 8 one_user (codes "serial") (attach 2 8 one_user (codes "serial"))
attach-Attaches_example = attach-Attaches 2 8 one_user (codes "serial")

job_count_bounded_example : job_count one_user ≤ 2
job_count_bounded_example =
    job_count_bounded 2 one_user (Steps.attaches 7 (codes "telnet") Steps.start)
