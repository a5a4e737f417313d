-- ===== src/Tests/Keyboards.antt =====
-- A pseudo keyboard: a link with some traffic, a line typed at it, and its unit.
use rsts_e_v7_2_lookalike.Prelude.{◌≡◌, refl, true, false, some, List, [], ◌∷◌, ◌++◌, arith, take}
use rsts_e_v7_2_lookalike.Bytes.Lists.{All}
use rsts_e_v7_2_lookalike.Text.Ascii.{codes, remove_all}
use rsts_e_v7_2_lookalike.Pk.{
  Link, ctrl_write, job_write, take_for_job, poll_ctrl_c, feeds_to_returns, ctrl_read_line,
}
use rsts_e_v7_2_lookalike.Pk.History.{History, to_job_in_order, to_ctrl_in_order}
use rsts_e_v7_2_lookalike.Pk.Conduit.Returned.{LineTaken}
use rsts_e_v7_2_lookalike.Pk.Terminal.{line, Input, typed, read_edit}
use rsts_e_v7_2_lookalike.Pk.Line.{IsPlain, IsLine, typing, read_edit-IsLine, read_edit-typing}
use rsts_e_v7_2_lookalike.Pk.Units.{
  any_unit, unit, alloc_pk, parse_pk_name, Allots, alloc_pk-Allots,
}

abbrev busy_link : Link
busy_link = record { to_job = codes "I"; to_ctrl = codes "ok"; dead = false; kicked = false }

busy-History : History busy_link (codes "H" ++ (3 ∷ codes "I")) (codes "H") (codes "ok") []
unfolding ctrl_write job_write take_for_job poll_ctrl_c feeds_to_returns
busy-History = History.polls (
    History.job_takes false false (
      History.job_writes (codes "ok")
        (History.writes (codes "H" ++ (3 ∷ codes "I")) History.opened)))

to_job_in_order_example :
    remove_all 3 (codes "H" ++ (3 ∷ codes "I")) ≡ remove_all 3 (codes "H" ++ codes "I")
to_job_in_order_example =
    to_job_in_order busy_link (codes "H" ++ (3 ∷ codes "I")) (codes "H") (codes "ok") []
      busy-History

to_ctrl_in_order_example :
    (codes "ok" ≡ [] ++ codes "ok")
    × LineTaken
        (ctrl_read_line busy_link true).0
        (codes "ok")
        (ctrl_read_line busy_link true).1.to_ctrl
to_ctrl_in_order_example =
    to_ctrl_in_order busy_link (codes "H" ++ (3 ∷ codes "I")) (codes "H") (codes "ok") [] true
      busy-History

-- An X, rubbed out, then `RUN` and a return.
abbrev keys : List Input
keys = typed b'X' ∷ typed 127 ∷ typed b'R' ∷ typed b'U' ∷ typed b'N' ∷ typed 13 ∷ []

keys-line : (read_edit true [] keys).0 ≡ line (codes "RUN")
unfolding read_edit
keys-line = refl

read_edit-IsLine_example : IsLine (codes "RUN")
read_edit-IsLine_example = read_edit-IsLine true [] keys (codes "RUN") keys-line

run-IsPlain : All IsPlain (codes "RUN")
run-IsPlain =
    ((omega arith, omega arith), ((omega arith, omega arith), ((omega arith, omega arith), tt)))

read_edit-typing_example :
    (read_edit true (codes ">") (typing (codes "RUN"))).0 ≡ line (take 255 (codes "RUN"))
read_edit-typing_example = read_edit-typing true (codes ">") (codes "RUN") run-IsPlain

alloc_pk-Allots_example : Allots 3 (0 ∷ []) any_unit (alloc_pk 3 (0 ∷ []) any_unit)
alloc_pk-Allots_example = alloc_pk-Allots 3 (0 ∷ []) any_unit

parsed_name : parse_pk_name (codes " pk12: ") ≡ some (unit 12)
unfolding parse_pk_name
parsed_name = refl
