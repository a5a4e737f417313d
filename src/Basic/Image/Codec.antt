-- ===== src/Basic/Image/Codec.antt =====
-- `Marshal`, `mustInternLookup` and `unmarshalPcode` of pcode.go.
use rsts_e_v7_2_lookalike.Prelude.{
  ℕ, zero, suc, ◌+◌, not, Option, none, some, List, [], ◌∷◌, ◌++◌, ◌==◌, ltb, if◌then◌else◌, length,
  get_elem?,
}
use rsts_e_v7_2_lookalike.Prelude.Int.{ℤ}
use rsts_e_v7_2_lookalike.Bytes.Reader.{Bytes, Reader, pure, bad_image, refuse_if, ◌>>=◌, ◌>>◌}
use rsts_e_v7_2_lookalike.Bytes.Words.{put_u32, put_u64, put_str, u32, u64, str, byte}
use rsts_e_v7_2_lookalike.Bytes.Signed.{put_int, int}
use rsts_e_v7_2_lookalike.Bytes.Lists.{put_list, read_list}
use rsts_e_v7_2_lookalike.Bytes.Magic.{unwrap, bytes_eq}
use rsts_e_v7_2_lookalike.Basic.Image.{Value, text, num, Line, Image}

-- "PBAC1\n"
abbrev pub pcode_magic : Bytes
pcode_magic = b'P' ∷ b'B' ∷ b'A' ∷ b'C' ∷ b'1' ∷ 10 ∷ []

abbrev pub pcode_version : ℕ
pcode_version = 1

-- The loop of `mustInternLookup` from index `i` on.
unfoldable pub intern_from : ℕ → List Bytes → Bytes → ℕ
intern_from i [] s = 0
intern_from i (t ∷ strings) s = if bytes_eq t s then i else intern_from (i + 1) strings s

unfoldable pub must_intern_lookup : List Bytes → Bytes → ℕ
unfolding intern_from
must_intern_lookup strings s = intern_from 0 strings s

unfoldable pub put_value : List Bytes → Value → Bytes
unfolding must_intern_lookup
put_value strings (text s) = (1 ∷ []) ++ put_u32 (must_intern_lookup strings s)
put_value strings (num n) = (0 ∷ []) ++ put_u64 n

unfoldable pub put_line : Line → Bytes
put_line l = put_int l.num ++ put_int l.ip

-- All but the data lines, which stand last.
unfoldable pub put_body : Image → Bytes
unfolding put_value put_line
put_body img =
    put_u32 pcode_version
    ++ (put_list put_str img.strings
        ++ (put_list put_u64 img.nums
            ++ (put_list (put_value img.strings) img.items
                ++ (put_list put_line img.lines ++ (put_int img.halt_ip ++ put_str img.code)))))

unfoldable pub marshal : Image → Bytes
unfolding put_body
marshal img = pcode_magic ++ (put_body img ++ put_list put_int img.data_lines)

-- `if int(idx) >= len(img.Strings) { return err }`
unfoldable pub string_at : List Bytes → ℕ → Reader Value
string_at strings n = elim (get_elem? strings n) [ none ↦ bad_image | some s ↦ pure (text s) ]

unfoldable pub value_of_tag : List Bytes → ℕ → Reader Value
unfolding string_at
value_of_tag strings zero = do bits ← u64; pure (num bits)
value_of_tag strings (suc tag) = do n ← u32; string_at strings n

unfoldable pub value : List Bytes → Reader Value
unfolding value_of_tag
value strings = do tag ← byte; value_of_tag strings tag

unfoldable pub line : Reader Line
line = do n ← int; ip ← int; pure (record { num = n; ip = ip })

-- `if off+4 <= len(p)`: an older file ends with its code.
unfoldable pub data_lines : Reader (List ℤ)
data_lines bs = if ltb (length bs) 4 then some ([], bs) else read_list int bs

unfoldable pub body : Reader Image
unfolding value line
body = do
  version ← u32
  refuse_if (not (version == pcode_version))
  strings ← read_list str
  nums ← read_list u64
  items ← read_list (value strings)
  lines ← read_list line
  halt_ip ← int
  code ← str
  pure (record {
    strings = strings;
    nums = nums;
    items = items;
    data_lines = [];
    lines = lines;
    fns = [];
    code = code;
    halt_ip = halt_ip;
  })

unfoldable pub payload : Reader Image
unfolding body data_lines
payload = do img ← body; numbers ← data_lines; pure (record img { data_lines = numbers })

-- `none` is the error `Compiled file`.
unfoldable pub unmarshal_pcode : Bytes → Option Image
unfolding payload
unmarshal_pcode raw = elim (unwrap pcode_magic raw) [
  | none ↦ none
  | some p ↦ elim (payload p) [ none ↦ none | some (img, rest) ↦ some img ]
]
