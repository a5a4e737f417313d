-- ===== src/Pk/Conduit.antt =====
-- What goes into a link comes out of it, in order, once.
pub mod Lines
pub mod Returned
use rsts_e_v7_2_lookalike.Prelude.{
  ℕ, ◌≡◌, refl, ap, sym, ◌∙◌, Bool, true, false, Option, none, some, [], ◌∷◌, ◌++◌, arith, ◌==◌,
  if◌then◌else◌, append_assoc, append-nil, map, Bool-cases, inl, inr,
}
use mathlib.Core.Path.{subst}
use rsts_e_v7_2_lookalike.Bytes.Reader.{Bytes}
use rsts_e_v7_2_lookalike.Text.Ascii.{remove_all}
use rsts_e_v7_2_lookalike.Pk.{
  split_line, more_line, line_read, last_line, LineRead, no_line, interrupted, waits,
  ctrl_read_line, Link, new_pk_link, hangup, kick, Write, written, end_of_file, ctrl_write,
  ctrl_write_bytes, feeds_to_returns, job_write, Taken, got, forced, nothing_there, take_for_job,
  take_for_ctrl, read_for_job, read_for_ctrl, without_ctrl_c, polled, poll_ctrl_c,
}

-- What a text written to a link adds to it: all of it, or on a dead link nothing.
abbrev pub heard : Link → Bytes → Bytes
heard p s = if p.dead then [] else s

-- The text as the job hears it: with a return in place of each line feed.
abbrev pub as_typed : Bytes → Bytes
as_typed s = map (λ b. if b == 10 then 13 else b) s

feeds_to_returns-as_typed : (s : Bytes) → feeds_to_returns s ≡ as_typed s
unfolding feeds_to_returns
feeds_to_returns-as_typed [] = refl
feeds_to_returns-as_typed (b ∷ s) =
    ap (λ t. (if b == 10 then 13 else b) ∷ t) (feeds_to_returns-as_typed s)

-- The byte that a pass gave its reader, if it gave one.
abbrev pub given : Taken → Bytes
given (got b) = b ∷ []
given _ = []

given-nothing_there :
    (p : Link) (interrupt expired : Bool) → given (nothing_there p interrupt expired) ≡ []
given-nothing_there p interrupt expired = ground arith

remove_all-append : (c : ℕ) (s t : Bytes) → remove_all c (s ++ t) ≡ remove_all c s ++ remove_all c t
unfolding remove_all
remove_all-append c [] t = refl
remove_all-append c (d ∷ s) t = ground (arith, remove_all-append c s t)

-- What a poll leaves of a text.
abbrev Polled : Bytes → Option Bytes → Type 0
Polled s none = Unit
Polled s (some t) = remove_all 3 t ≡ remove_all 3 s

without_ctrl_c-Polled : (s : Bytes) → Polled s (without_ctrl_c s)
unfolding remove_all without_ctrl_c
without_ctrl_c-Polled [] = tt
without_ctrl_c-Polled (b ∷ s) = elim (Bool-cases (b == 3)) [
  | inl hit ↦ rw (hit, hit) refl
  | inr miss ↦ rw miss (go (without_ctrl_c s) (without_ctrl_c-Polled s) miss)
]
  where
    go :
        (o : Option Bytes)
        → Polled s o
        → (b == 3) ≡ false
        → Polled (b ∷ s) (elim o [ none ↦ none | some left ↦ some (b ∷ left) ])
    go none h miss = tt
    go (some t) h miss = rw miss (ap (λ x. b ∷ x) h)

-- To the job.
abbrev pub ToJob : Link → Bytes → Bytes → Type 0
ToJob p a b = remove_all 3 a ≡ remove_all 3 (b ++ p.to_job)

-- To the controlling job.
abbrev pub ToCtrl : Link → Bytes → Bytes → Type 0
ToCtrl p c d = c ≡ d ++ p.to_ctrl

-- More at the end of both.
ToJob-append :
    (a b s t : Bytes)
    → remove_all 3 a ≡ remove_all 3 (b ++ t)
    → remove_all 3 (a ++ s) ≡ remove_all 3 (b ++ (t ++ s))
ToJob-append a b s t e =
    remove_all-append 3 a s
    ∙ ap (λ x. x ++ remove_all 3 s) e
    ∙ sym (remove_all-append 3 (b ++ t) s)
    ∙ ap (remove_all 3) (append_assoc b t s)

pub ctrl_write_bytes-ToJob :
    (p : Link) (s a b : Bytes) → ToJob p a b → ToJob (ctrl_write_bytes p s).1 (a ++ heard p s) b
unfolding ctrl_write_bytes
ctrl_write_bytes-ToJob p s a b e = go p.dead
  where
    put : Bool → Write × Link
    put dead = if dead then (end_of_file, p) else (written, record p { to_job = p.to_job ++ s })

    go : (dead : Bool) → ToJob (put dead).1 (a ++ (if dead then [] else s)) b
    go true = ap (remove_all 3) (append-nil a) ∙ e
    go false = ToJob-append a b s p.to_job e

pub ctrl_write-ToJob :
    (p : Link) (s a b : Bytes)
    → ToJob p a b
    → ToJob (ctrl_write p s).1 (a ++ heard p (as_typed s)) b
unfolding ctrl_write
ctrl_write-ToJob p s a b e =
    subst (λ t. ToJob (ctrl_write_bytes p (feeds_to_returns s)).1 (a ++ heard p t) b)
      (feeds_to_returns-as_typed s) (ctrl_write_bytes-ToJob p (feeds_to_returns s) a b e)

pub job_write-ToCtrl :
    (p : Link) (s c d : Bytes) → ToCtrl p c d → ToCtrl (job_write p s).1 (c ++ heard p s) d
unfolding job_write
job_write-ToCtrl p s c d e = go p.dead
  where
    put : Bool → Write × Link
    put dead = if dead then (end_of_file, p) else (written, record p { to_ctrl = p.to_ctrl ++ s })

    go : (dead : Bool) → ToCtrl (put dead).1 (c ++ (if dead then [] else s)) d
    go true = append-nil c ∙ e
    go false = ap (λ x. x ++ s) e ∙ append_assoc d p.to_ctrl s

pub poll_ctrl_c-ToJob : (p : Link) (a b : Bytes) → ToJob p a b → ToJob (poll_ctrl_c p).1 a b
unfolding poll_ctrl_c
poll_ctrl_c-ToJob p a b e = go (without_ctrl_c p.to_job) (without_ctrl_c-Polled p.to_job)
  where
    go : (o : Option Bytes) → Polled p.to_job o → ToJob (polled p o).1 a b
    go none h = e
    go (some t) h =
        e
        ∙ remove_all-append 3 b p.to_job
        ∙ ap (λ x. remove_all 3 b ++ x) (sym h)
        ∙ sym (remove_all-append 3 b t)

-- A reader that finds nothing leaves all as it is.
given_none :
    (p : Link) (interrupt expired : Bool) (x : Bytes)
    → x ++ given (nothing_there p interrupt expired) ≡ x
given_none p interrupt expired x =
    ap (λ y. x ++ y) (given-nothing_there p interrupt expired) ∙ append-nil x

read_for_job-ToJob :
    (p : Link) (interrupt expired : Bool) (text a b : Bytes)
    → p.to_job ≡ text
    → ToJob p a b
    → ToJob
        (read_for_job p interrupt expired text).1
        a
        (b ++ given (read_for_job p interrupt expired text).0)
read_for_job-ToJob p interrupt expired [] a b at e =
    e ∙ ap (λ x. remove_all 3 (x ++ p.to_job)) (sym (given_none p interrupt expired b))
read_for_job-ToJob p interrupt expired (c ∷ text) a b at e =
    e ∙ ap (λ x. remove_all 3 (b ++ x)) at ∙ sym (ap (remove_all 3) (append_assoc b (c ∷ []) text))

pub take_for_job-ToJob :
    (p : Link) (interrupt expired : Bool) (a b : Bytes)
    → ToJob p a b
    → ToJob (take_for_job p interrupt expired).1 a (b ++ given (take_for_job p interrupt expired).0)
unfolding take_for_job
take_for_job-ToJob p interrupt expired a b e = go p.kicked
  where
    pass : Bool → Taken × Link
    pass k =
        if k
        then (forced, record p { kicked = false })
        else read_for_job p interrupt expired p.to_job

    go : (k : Bool) → ToJob (pass k).1 a (b ++ given (pass k).0)
    go true = e ∙ ap (λ x. remove_all 3 (x ++ p.to_job)) (sym (append-nil b))
    go false = read_for_job-ToJob p interrupt expired p.to_job a b refl e

read_for_ctrl-ToCtrl :
    (p : Link) (interrupt expired : Bool) (text c d : Bytes)
    → p.to_ctrl ≡ text
    → ToCtrl p c d
    → ToCtrl
        (read_for_ctrl p interrupt expired text).1
        c
        (d ++ given (read_for_ctrl p interrupt expired text).0)
read_for_ctrl-ToCtrl p interrupt expired [] c d at e =
    e ∙ ap (λ x. x ++ p.to_ctrl) (sym (given_none p interrupt expired d))
read_for_ctrl-ToCtrl p interrupt expired (b ∷ text) c d at e =
    e ∙ ap (λ x. d ++ x) at ∙ sym (append_assoc d (b ∷ []) text)

pub take_for_ctrl-ToCtrl :
    (p : Link) (interrupt expired : Bool) (c d : Bytes)
    → ToCtrl p c d
    → ToCtrl
        (take_for_ctrl p interrupt expired).1
        c
        (d ++ given (take_for_ctrl p interrupt expired).0)
unfolding take_for_ctrl
take_for_ctrl-ToCtrl p interrupt expired c d e =
    read_for_ctrl-ToCtrl p interrupt expired p.to_ctrl c d refl e

pub take_for_job-to_ctrl :
    (p : Link) (interrupt expired : Bool) → (take_for_job p interrupt expired).1.to_ctrl ≡ p.to_ctrl
unfolding take_for_job
take_for_job-to_ctrl p interrupt expired = go p.to_job
  where
    go :
        (text : Bytes)
        → (if p.kicked
            then (forced, record p { kicked = false })
            else read_for_job p interrupt expired text).1.to_ctrl
          ≡ p.to_ctrl
    go [] = ground arith
    go (b ∷ text) = ground arith

pub take_for_ctrl-to_job :
    (p : Link) (interrupt expired : Bool) → (take_for_ctrl p interrupt expired).1.to_job ≡ p.to_job
unfolding take_for_ctrl
take_for_ctrl-to_job p interrupt expired = go p.to_ctrl
  where
    go : (text : Bytes) → (read_for_ctrl p interrupt expired text).1.to_job ≡ p.to_job
    go [] = refl
    go (b ∷ text) = refl

pub ctrl_write_bytes-to_ctrl : (p : Link) (s : Bytes) → (ctrl_write_bytes p s).1.to_ctrl ≡ p.to_ctrl
unfolding ctrl_write_bytes
ctrl_write_bytes-to_ctrl p s = elim (Bool-cases p.dead) [
  | inl gone ↦ rw gone refl
  | inr alive ↦ rw alive refl
]

pub ctrl_write-to_ctrl : (p : Link) (s : Bytes) → (ctrl_write p s).1.to_ctrl ≡ p.to_ctrl
unfolding ctrl_write
ctrl_write-to_ctrl p s = ctrl_write_bytes-to_ctrl p (feeds_to_returns s)

pub job_write-to_job : (p : Link) (s : Bytes) → (job_write p s).1.to_job ≡ p.to_job
unfolding job_write
job_write-to_job p s = elim (Bool-cases p.dead) [
  | inl gone ↦ rw gone refl
  | inr alive ↦ rw alive refl
]

pub poll_ctrl_c-to_ctrl : (p : Link) → (poll_ctrl_c p).1.to_ctrl ≡ p.to_ctrl
unfolding poll_ctrl_c
poll_ctrl_c-to_ctrl p = go (without_ctrl_c p.to_job)
  where
    go : (o : Option Bytes) → (polled p o).1.to_ctrl ≡ p.to_ctrl
    go none = refl
    go (some t) = refl
