-- ===== src/Pk/History.antt =====
-- Whatever happens on the link of a pseudo keyboard, and the texts that have gone through it.
use rsts_e_v7_2_lookalike.Prelude.{◌≡◌, refl, ap, sym, ◌∙◌, Bool, [], ◌++◌}
use rsts_e_v7_2_lookalike.Bytes.Reader.{Bytes}
use rsts_e_v7_2_lookalike.Text.Ascii.{remove_all}
use rsts_e_v7_2_lookalike.Pk.{
  split_line, ctrl_read_line, Link, new_pk_link, hangup, kick, ctrl_write, ctrl_write_bytes,
  job_write, take_for_job, take_for_ctrl, poll_ctrl_c,
}
use rsts_e_v7_2_lookalike.Pk.Conduit.Lines.{line_text, ctrl_read_line-ToCtrl, ctrl_read_line-to_job}
use rsts_e_v7_2_lookalike.Pk.Conduit.Returned.{LineTaken, ctrl_read_line-LineTaken}
use rsts_e_v7_2_lookalike.Pk.Conduit.{
  heard, as_typed, given, ctrl_write_bytes-ToJob, ctrl_write_bytes-to_ctrl, ctrl_write-ToJob,
  job_write-ToCtrl, poll_ctrl_c-ToJob, take_for_job-ToJob, take_for_ctrl-ToCtrl,
  take_for_job-to_ctrl, take_for_ctrl-to_job, ctrl_write-to_ctrl, job_write-to_job,
  poll_ctrl_c-to_ctrl,
}

-- What happens on a link, with all that went in for the job, all that came out to it, all that went
-- in for the controlling job, and all that came out to that.
pub data History : Link → Bytes → Bytes → Bytes → Bytes → Type 0 where
  opened : History new_pk_link [] [] [] []
  hangs_up : {p : Link} {a b c d : Bytes} → History p a b c d → History (hangup p) a b c d
  kicks : {p : Link} {a b c d : Bytes} → History p a b c d → History (kick p) a b c d
  writes :
      {p : Link} {a b c d : Bytes} (s : Bytes)
      → History p a b c d
      → History (ctrl_write p s).1 (a ++ heard p (as_typed s)) b c d
  writes_bytes :
      {p : Link} {a b c d : Bytes} (s : Bytes)
      → History p a b c d
      → History (ctrl_write_bytes p s).1 (a ++ heard p s) b c d
  job_writes :
      {p : Link} {a b c d : Bytes} (s : Bytes)
      → History p a b c d
      → History (job_write p s).1 a b (c ++ heard p s) d
  job_takes :
      {p : Link} {a b c d : Bytes} (interrupt expired : Bool)
      → History p a b c d
      → History
          (take_for_job p interrupt expired).1
          a
          (b ++ given (take_for_job p interrupt expired).0)
          c
          d
  ctrl_takes :
      {p : Link} {a b c d : Bytes} (interrupt expired : Bool)
      → History p a b c d
      → History
          (take_for_ctrl p interrupt expired).1
          a
          b
          c
          (d ++ given (take_for_ctrl p interrupt expired).0)
  polls : {p : Link} {a b c d : Bytes} → History p a b c d → History (poll_ctrl_c p).1 a b c d
  reads_line :
      {p : Link} {a b c d : Bytes} (interrupt : Bool)
      → History p a b c d
      → History (ctrl_read_line p interrupt).1 a b c (d ++ line_text p (split_line p.to_ctrl))

-- Whatever happens on a link, and in whatever order: but for the bytes 3, which a poll may take out,
-- the job gets what was written for it, in order and each byte once, up to what is still in the
-- link. A text that is typed reaches it with a return in place of each line feed, and bytes that are
-- put reach it as they are; what is written to a dead link is no part of it.
pub to_job_in_order :
    (p : Link) (a b c d : Bytes) → History p a b c d → remove_all 3 a ≡ remove_all 3 (b ++ p.to_job)
to_job_in_order _ _ _ _ _ opened = refl
to_job_in_order _ a b c d (hangs_up {p} h) = to_job_in_order p a b c d h
to_job_in_order _ a b c d (kicks {p} h) = to_job_in_order p a b c d h
to_job_in_order _ _ b c d (writes {p} {a} s h) =
    ctrl_write-ToJob p s a b (to_job_in_order p a b c d h)
to_job_in_order _ _ b c d (writes_bytes {p} {a} s h) =
    ctrl_write_bytes-ToJob p s a b (to_job_in_order p a b c d h)
to_job_in_order _ a b _ d (job_writes {p} {c} s h) =
    to_job_in_order p a b c d h ∙ ap (λ x. remove_all 3 (b ++ x)) (sym (job_write-to_job p s))
to_job_in_order _ a _ c d (job_takes {p} {b} interrupt expired h) =
    take_for_job-ToJob p interrupt expired a b (to_job_in_order p a b c d h)
to_job_in_order _ a b c _ (ctrl_takes {p} {d} interrupt expired h) =
    to_job_in_order p a b c d h
    ∙ ap (λ x. remove_all 3 (b ++ x)) (sym (take_for_ctrl-to_job p interrupt expired))
to_job_in_order _ a b c _ (reads_line {p} {d} interrupt h) =
    to_job_in_order p a b c d h
    ∙ ap (λ x. remove_all 3 (b ++ x)) (sym (ctrl_read_line-to_job p interrupt))
to_job_in_order _ a b c d (polls {p} h) = poll_ctrl_c-ToJob p a b (to_job_in_order p a b c d h)

-- What went in is what came out, and what is still in the link.
to_ctrl_taken : (p : Link) (a b c d : Bytes) → History p a b c d → c ≡ d ++ p.to_ctrl
to_ctrl_taken _ _ _ _ _ opened = refl
to_ctrl_taken _ a b c d (hangs_up {p} h) = to_ctrl_taken p a b c d h
to_ctrl_taken _ a b c d (kicks {p} h) = to_ctrl_taken p a b c d h
to_ctrl_taken _ _ b c d (writes {p} {a} s h) =
    to_ctrl_taken p a b c d h ∙ ap (λ x. d ++ x) (sym (ctrl_write-to_ctrl p s))
to_ctrl_taken _ _ b c d (writes_bytes {p} {a} s h) =
    to_ctrl_taken p a b c d h ∙ ap (λ x. d ++ x) (sym (ctrl_write_bytes-to_ctrl p s))
to_ctrl_taken _ a b _ d (job_writes {p} {c} s h) =
    job_write-ToCtrl p s c d (to_ctrl_taken p a b c d h)
to_ctrl_taken _ a _ c d (job_takes {p} {b} interrupt expired h) =
    to_ctrl_taken p a b c d h ∙ ap (λ x. d ++ x) (sym (take_for_job-to_ctrl p interrupt expired))
to_ctrl_taken _ a b c _ (ctrl_takes {p} {d} interrupt expired h) =
    take_for_ctrl-ToCtrl p interrupt expired c d (to_ctrl_taken p a b c d h)
to_ctrl_taken _ a b c _ (reads_line {p} {d} interrupt h) =
    ctrl_read_line-ToCtrl p interrupt c d (to_ctrl_taken p a b c d h)
to_ctrl_taken _ a b c d (polls {p} h) =
    to_ctrl_taken p a b c d h ∙ ap (λ x. d ++ x) (sym (poll_ctrl_c-to_ctrl p))

-- Whatever happens on a link, and in whatever order: the bytes that are taken out for the controlling
-- job, one by one or by the line, are just what the job wrote, in order, up to what is still in the
-- link. A line that `ctrlReadLine` returns stood first in the link, holds no line feed and ends in
-- no return, and only returns and line feeds behind it go with it; where it returns none, nothing
-- goes, and there was no line feed.
pub to_ctrl_in_order :
    (p : Link) (a b c d : Bytes) (interrupt : Bool)
    → History p a b c d
    → (c ≡ d ++ p.to_ctrl)
      × LineTaken (ctrl_read_line p interrupt).0 p.to_ctrl (ctrl_read_line p interrupt).1.to_ctrl
to_ctrl_in_order p a b c d interrupt h =
    (to_ctrl_taken p a b c d h, ctrl_read_line-LineTaken p interrupt)
