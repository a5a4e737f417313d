-- ===== src/Pk.antt =====
-- Pseudo keyboards (pk.go): the link between a job's terminal and the job that controls it. Every
-- operation holds the link's lock, so it is one step; an operation that waits is the pass that it
-- makes each time it wakes, and `waits` is its going back to sleep.
pub mod Conduit
pub mod History
pub mod Terminal
pub mod Line
pub mod Units
use rsts_e_v7_2_lookalike.Prelude.{
  ℕ, Bool, true, false, ◌&&◌, ◌||◌, Option, none, some, List, [], ◌∷◌, ◌++◌, ◌==◌, if◌then◌else◌,
  not,
}
use rsts_e_v7_2_lookalike.Bytes.Reader.{Bytes}

-- `pkLink`, less the lock and the channel that wakes a reader.
pub record Link : Type 0 where
  pub to_job : Bytes
  pub to_ctrl : Bytes
  pub dead : Bool
  pub kicked : Bool

abbrev pub new_pk_link : Link
new_pk_link = record { to_job = []; to_ctrl = []; dead = false; kicked = false }

abbrev pub hangup : Link → Link
hangup p = record p { dead = true }

abbrev pub kick : Link → Link
kick p = record p { kicked = true }

-- `io.EOF`, or nothing wrong.
pub data Write : Type 0 where
  written : Write
  end_of_file : Write

unfoldable pub ctrl_write_bytes : Link → Bytes → Write × Link
ctrl_write_bytes p b =
    if p.dead then (end_of_file, p) else (written, record p { to_job = p.to_job ++ b })

-- `strings.ReplaceAll(s, "\n", "\r")`
unfoldable pub feeds_to_returns : Bytes → Bytes
feeds_to_returns [] = []
feeds_to_returns (c ∷ s) = (if c == 10 then 13 else c) ∷ feeds_to_returns s

unfoldable pub ctrl_write : Link → Bytes → Write × Link
unfolding ctrl_write_bytes feeds_to_returns
ctrl_write p s = ctrl_write_bytes p (feeds_to_returns s)

unfoldable pub job_write : Link → Bytes → Write × Link
job_write p b =
    if p.dead then (end_of_file, p) else (written, record p { to_ctrl = p.to_ctrl ++ b })

unfoldable pub at_end : Link → Bool
at_end p = p.dead && (elim p.to_ctrl [ [] ↦ true | b ∷ rest ↦ false ])

-- What a pass of a reader gives.
pub data Taken : Type 0 where
  got : ℕ → Taken
  forced : Taken
  hung_up : Taken
  interrupted : Taken
  timed_out : Taken
  waits : Taken

-- What a reader finds with its buffer empty.
abbrev pub nothing_there : Link → Bool → Bool → Taken
nothing_there p interrupt expired =
    if p.dead
    then hung_up
    else (if interrupt then interrupted else (if expired then timed_out else waits))

abbrev pub read_for_job : Link → Bool → Bool → Bytes → Taken × Link
read_for_job p interrupt expired (b ∷ rest) = (got b, record p { to_job = rest })
read_for_job p interrupt expired [] = (nothing_there p interrupt expired, p)

-- A pass of `takeByte` for the job. Whether the interrupt is up and whether the deadline, if there
-- is one, is over are the arguments `interrupt` and `expired`.
unfoldable pub take_for_job : Link → Bool → Bool → Taken × Link
take_for_job p interrupt expired =
    if p.kicked
    then (forced, record p { kicked = false })
    else read_for_job p interrupt expired p.to_job

abbrev pub read_for_ctrl : Link → Bool → Bool → Bytes → Taken × Link
read_for_ctrl p interrupt expired (b ∷ rest) = (got b, record p { to_ctrl = rest })
read_for_ctrl p interrupt expired [] = (nothing_there p interrupt expired, p)

-- A pass of `takeByte` for the controlling job.
unfoldable pub take_for_ctrl : Link → Bool → Bool → Taken × Link
take_for_ctrl p interrupt expired = read_for_ctrl p interrupt expired p.to_ctrl

-- The text without its first byte 3, if it has one.
unfoldable pub without_ctrl_c : Bytes → Option Bytes
without_ctrl_c [] = none
without_ctrl_c (b ∷ rest) =
    if b == 3
    then some rest
    else (elim (without_ctrl_c rest) [ none ↦ none | some left ↦ some (b ∷ left) ])

abbrev pub polled : Link → Option Bytes → Bool × Link
polled p none = (false, p)
polled p (some rest) = (true, record p { to_job = rest })

unfoldable pub poll_ctrl_c : Link → Bool × Link
unfolding without_ctrl_c
poll_ctrl_c p = polled p (without_ctrl_c p.to_job)

abbrev pub more_line : ℕ → Option (Bytes × Bytes) → Option (Bytes × Bytes)
more_line b none = none
more_line b (some (text, rest)) = some (b ∷ text, rest)

-- Up to the first line feed, the line feed included, and the rest.
unfoldable pub split_line : Bytes → Option (Bytes × Bytes)
split_line [] = none
split_line (b ∷ rest) = if b == 10 then some (b ∷ [], rest) else more_line b (split_line rest)

abbrev pub is_line_end : ℕ → Bool
is_line_end b = b == 13 || b == 10

-- `strings.TrimRight(line, "\r\n")`
unfoldable pub trim_line_end : Bytes → Bytes
trim_line_end [] = []
trim_line_end (b ∷ rest) = elim (trim_line_end rest) [
  | [] ↦ if is_line_end b then [] else b ∷ []
  | c ∷ left ↦ b ∷ c ∷ left
]

pub data LineRead : Type 0 where
  line : Bytes → LineRead
  no_line : Taken → LineRead

-- The last text of a link that is dead.
abbrev pub last_line : Link → Bytes → LineRead × Link
last_line p [] = (no_line hung_up, p)
last_line p (b ∷ rest) = (line (trim_line_end (b ∷ rest)), record p { to_ctrl = [] })

abbrev pub line_read : Link → Bool → Option (Bytes × Bytes) → LineRead × Link
line_read p interrupt (some (text, rest)) = (line (trim_line_end text), record p { to_ctrl = rest })
line_read p interrupt none =
    if p.dead
    then last_line p p.to_ctrl
    else if interrupt
    then (no_line interrupted, p)
    else (no_line waits, p)

-- A pass of `ctrlReadLine`.
unfoldable pub ctrl_read_line : Link → Bool → LineRead × Link
unfolding split_line trim_line_end
ctrl_read_line p interrupt = line_read p interrupt (split_line p.to_ctrl)
