-- ===== src/Pk/Terminal.antt =====
-- The terminal of a job that a pseudo keyboard controls (pk.go, `pkTerm`): what it writes, and the
-- line editor `readEdit`.
use rsts_e_v7_2_lookalike.Prelude.{
  ℕ, ◌+◌, Bool, true, false, ◌&&◌, ◌||◌, List, [], ◌∷◌, ◌++◌, ltb, ◌==◌, if◌then◌else◌, not, length,
}
use rsts_e_v7_2_lookalike.Bytes.Reader.{Bytes}

-- `p[i] == '\n' && (i == 0 || p[i-1] != '\r')`, with the byte before, 0 at the start.
unfoldable pub expand_from : ℕ → Bytes → Bytes
expand_from before [] = []
expand_from before (c ∷ s) =
    let rest = expand_from c s in if c == 10 && not (before == 13) then 13 ∷ 10 ∷ rest else c ∷ rest

-- What `pkTerm.Write` passes to the link.
unfoldable pub expand : Bytes → Bytes
unfolding expand_from
expand s = expand_from 0 s

-- What `jobReadByte` returns to `readEdit`.
pub data Input : Type 0 where
  typed : ℕ → Input
  forced : Input
  hung_up : Input

-- How `readEdit` ends; `still_waiting` while there is no more input.
pub data Edit : Type 0 where
  line : Bytes → Edit
  was_forced : Edit
  interrupted : Edit
  end_of_file : Edit
  still_waiting : Edit

-- `buf[:len(buf)-1]`, if there is a last byte.
unfoldable pub rubout : Bytes → Bytes
rubout [] = []
rubout (c ∷ []) = []
rubout (c ∷ d ∷ s) = c ∷ rubout (d ∷ s)

abbrev pub is_nothing : Bytes → Bool
is_nothing [] = true
is_nothing (c ∷ s) = false

-- `b == '[' || b == 'O' || b == 'Y'`
abbrev pub goes_on : ℕ → Bool
goes_on b = b == b'[' || b == b'O' || b == b'Y'

abbrev pub next_esc : ℕ → ℕ
next_esc esc = if ltb 3 (esc + 1) then 0 else esc + 1

-- What one byte does: it goes on with a buffer and `esc`, after some output, or it ends the line.
pub data Key : Type 0 where
  goes : Bytes → ℕ → List Bytes → Key
  ends : Edit → List Bytes → Key

abbrev pub echoed : Bool → Bytes → List Bytes
echoed echo s = if echo then s ∷ [] else []

-- The echo of ^U: `^U`, and the prompt again, if there is one.
abbrev pub echo_discard : Bool → Bytes → List Bytes
echo_discard echo prompt =
    if echo
    then (b'^' ∷ b'U' ∷ 13 ∷ 10 ∷ []) ∷ (if is_nothing prompt then [] else prompt ∷ [])
    else []

abbrev pub is_rubout : ℕ → Bool
is_rubout b = b == 8 || b == 127

-- The `switch` of `readEdit`.
unfoldable pub edit_key : Bool → Bytes → Bytes → ℕ → Key
unfolding rubout
edit_key echo prompt buf b =
    if b == 0
    then goes buf 0 []
    else (if b == 27
        then goes buf 1 []
        else (if b == 13 || b == 10
            then ends (line buf) (echoed echo (13 ∷ 10 ∷ []))
            else (if b == 3
                then ends interrupted []
                else (if b == 4 || b == 26
                    then (if is_nothing buf then ends end_of_file [] else goes buf 0 [])
                    else (if b == 21 || b == 24
                        then goes [] 0 (echo_discard echo prompt)
                        else (if is_rubout b
                            then (if is_nothing buf
                                then goes buf 0 []
                                else goes (rubout buf) 0 (echoed echo (8 ∷ 32 ∷ 8 ∷ [])))
                            else (if ltb b 32
                                then goes buf 0 []
                                else (if ltb (length buf) 255
                                    then goes (buf ++ b ∷ []) 0 (echoed echo (b ∷ []))
                                    else goes buf 0 []))))))))

-- A byte inside an escape sequence, or another.
unfoldable pub edit_byte : Bool → Bytes → Bytes → ℕ → ℕ → Key
unfolding edit_key
edit_byte echo prompt buf esc b =
    if ltb 0 esc
    then (if goes_on b then goes buf (next_esc esc) [] else goes buf 0 [])
    else edit_key echo prompt buf b

abbrev pub with_output : List Bytes → Edit × List Bytes → Edit × List Bytes
with_output out (e, rest) = (e, out ++ rest)

abbrev pub after_key : Key → (Bytes → ℕ → Edit × List Bytes) → Edit × List Bytes
after_key (goes buf esc out) next = with_output out (next buf esc)
after_key (ends e out) next = (e, out)

-- The loop of `readEdit`, with all that it writes.
unfoldable pub edit_from : Bool → Bytes → Bytes → ℕ → List Input → Edit × List Bytes
unfolding edit_byte
edit_from echo prompt buf esc [] = (still_waiting, [])
edit_from echo prompt buf esc (forced ∷ inputs) = (was_forced, [])
edit_from echo prompt buf esc (hung_up ∷ inputs) =
    (if is_nothing buf then end_of_file else line buf, [])
edit_from echo prompt buf esc (typed b ∷ inputs) =
    after_key (edit_byte echo prompt buf esc b)
      (λ after esc2. edit_from echo prompt after esc2 inputs)

unfoldable pub read_edit : Bool → Bytes → List Input → Edit × List Bytes
unfolding edit_from
read_edit echo prompt inputs =
    with_output (if is_nothing prompt then [] else prompt ∷ []) (edit_from echo prompt [] 0 inputs)
