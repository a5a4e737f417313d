-- ===== src/Pascal/Image/Codec.antt =====
-- `marshal`, `wrapPAC` and `unmarshalPAC` of pascal_pcode.go. What Go appends to one slice is the
-- concatenation of the parts; each counted loop is `put_list` and `read_list`.
use rsts_e_v7_2_lookalike.Prelude.{ℕ, not, Option, none, some, List, [], ◌∷◌, ◌++◌, ◌==◌}
use rsts_e_v7_2_lookalike.Prelude.Int.{pos}
use rsts_e_v7_2_lookalike.Bytes.Reader.{Bytes, Reader, pure, refuse_if, ◌>>=◌, ◌>>◌}
use rsts_e_v7_2_lookalike.Bytes.Words.{
  put_u32, put_u64, put_str, bool_byte, u32, u64, str, byte, flag, flags,
}
use rsts_e_v7_2_lookalike.Bytes.Signed.{put_int, put_i64, i32, int, i64}
use rsts_e_v7_2_lookalike.Bytes.Lists.{put_list, read_list}
use rsts_e_v7_2_lookalike.Bytes.Magic.{unwrap}
use rsts_e_v7_2_lookalike.Pascal.Image.{Inst, ParamInfo, ProcInfo, FieldInfo, TypeInfo, Image}
use rsts_e_v7_2_lookalike.Pascal.Image.Types.{rebuild_types}

-- "RSTS/E PAC V7\n"
abbrev pub pac_magic : Bytes
pac_magic =
    b'R' ∷ b'S' ∷ b'T' ∷ b'S' ∷ b'/' ∷ b'E' ∷ b' ' ∷ b'P' ∷ b'A' ∷ b'C' ∷ b' ' ∷ b'V' ∷ b'7' ∷ 10
    ∷ []

abbrev pub pac_version : ℕ
pac_version = 1

unfoldable pub put_inst : Inst → Bytes
put_inst c = (c.op ∷ []) ++ (put_int c.a ++ (put_int c.b ++ (put_i64 c.i ++ put_u64 c.f)))

unfoldable pub put_param : ParamInfo → Bytes
put_param pm =
    put_int pm.off
    ++ ((bool_byte pm.by_ref ∷ bool_byte pm.proc ∷ [])
        ++ (put_int pm.typ ++ put_list put_int pm.conf))

unfoldable pub put_proc : ProcInfo → Bytes
unfolding put_param
put_proc p =
    put_str p.name
    ++ (put_int p.ip
        ++ (put_int p.level
            ++ (put_int p.n_slot
                ++ (put_int p.ret_off
                    ++ ((bool_byte p.is_func ∷ [])
                        ++ (put_int p.ret_type ++ put_list put_param p.params))))))

unfoldable pub put_field : FieldInfo → Bytes
put_field f = put_str f.name ++ put_int f.typ

unfoldable pub put_type : TypeInfo → Bytes
unfolding put_field
put_type t =
    put_int t.kind
    ++ (put_i64 t.lo
        ++ (put_i64 t.hi
            ++ (put_str t.name
                ++ ((bool_byte t.packed ∷ bool_byte t.conf ∷ [])
                    ++ (put_int t.elem
                        ++ (put_int t.index
                            ++ (put_int t.ptr_to
                                ++ (put_int t.base
                                    ++ (put_list put_str t.enums
                                        ++ (put_list put_field t.fields
                                            ++ (put_str t.tag_name
                                                ++ (put_int t.tag_type
                                                    ++ put_str t.ptr_name))))))))))))

-- The eight words at the end of the image.
unfoldable pub put_trailer : Image → Bytes
put_trailer img =
    put_int img.entry
    ++ (put_int img.main_n_slot
        ++ (put_int img.int_type
            ++ (put_int img.real_type
                ++ (put_int img.bool_type
                    ++ (put_int img.char_type
                        ++ (put_int img.text_type ++ put_int img.nil_type))))))

unfoldable pub marshal : Image → Bytes
unfolding put_inst put_proc put_type put_trailer
marshal img =
    put_u32 pac_version
    ++ (put_list put_str img.strings
        ++ (put_list put_inst img.code
            ++ (put_list put_proc img.procs
                ++ (put_list put_type img.type_info ++ put_trailer img))))

unfoldable pub wrap_pac : Image → Bytes
wrap_pac img = pac_magic ++ marshal img

unfoldable pub inst : Reader Inst
inst = do
  op ← byte
  a ← i32
  b ← i32
  i ← i64
  f ← u64
  pure (record { op = op; a = a; b = b; i = i; f = f })

-- `ConfN` is not in the file, and stays 0.
unfoldable pub param : Reader ParamInfo
param = do
  off ← i32
  two ← flags
  typ ← i32
  conf ← read_list i32
  pure (record { off = off; by_ref = two.0; proc = two.1; typ = typ; conf_n = pos 0; conf = conf })

unfoldable pub proc : Reader ProcInfo
unfolding param
proc = do
  name ← str
  ip ← int
  level ← i32
  n_slot ← i32
  ret_off ← i32
  is_func ← flag
  ret_type ← i32
  params ← read_list param
  pure (record {
    name = name;
    ip = ip;
    level = level;
    n_slot = n_slot;
    ret_off = ret_off;
    is_func = is_func;
    params = params;
    ret_type = ret_type;
  })

unfoldable pub field : Reader FieldInfo
field = do name ← str; typ ← i32; pure (record { name = name; typ = typ })

unfoldable pub type_info : Reader TypeInfo
unfolding field
type_info = do
  kind ← i32
  lo ← i64
  hi ← i64
  name ← str
  two ← flags
  elem ← i32
  index ← i32
  ptr_to ← i32
  base ← i32
  enums ← read_list str
  fields ← read_list field
  tag_name ← str
  tag_type ← i32
  ptr_name ← str
  pure (record {
    kind = kind;
    lo = lo;
    hi = hi;
    name = name;
    packed = two.0;
    conf = two.1;
    elem = elem;
    index = index;
    ptr_to = ptr_to;
    base = base;
    enums = enums;
    fields = fields;
    tag_name = tag_name;
    tag_type = tag_type;
    ptr_name = ptr_name;
  })

-- The image as it stands before the trailer is read.
abbrev pub tables : List Bytes → List Inst → List ProcInfo → List TypeInfo → Image
tables strings code procs infos = record {
  strings = strings;
  code = code;
  procs = procs;
  type_info = infos;
  types = rebuild_types infos;
  entry = pos 0;
  main_n_slot = pos 0;
  int_type = pos 0;
  real_type = pos 0;
  bool_type = pos 0;
  char_type = pos 0;
  text_type = pos 0;
  nil_type = pos 0;
}

unfoldable pub trailer : Image → Reader Image
trailer img = do
  entry ← int
  main_n_slot ← int
  int_type ← i32
  real_type ← i32
  bool_type ← i32
  char_type ← i32
  text_type ← i32
  nil_type ← i32
  pure (record img {
    entry = entry;
    main_n_slot = main_n_slot;
    int_type = int_type;
    real_type = real_type;
    bool_type = bool_type;
    char_type = char_type;
    text_type = text_type;
    nil_type = nil_type;
  })

unfoldable pub payload : Reader Image
unfolding inst proc type_info trailer
payload = do
  version ← u32
  refuse_if (not (version == pac_version))
  strings ← read_list str
  code ← read_list inst
  procs ← read_list proc
  infos ← read_list type_info
  trailer (tables strings code procs infos)

-- `none` is the error `Compiled file`. Bytes behind the image are not looked at.
unfoldable pub unmarshal_pac : Bytes → Option Image
unfolding payload
unmarshal_pac raw = elim (unwrap pac_magic raw) [
  | none ↦ none
  | some p ↦ elim (payload p) [ none ↦ none | some (img, rest) ↦ some img ]
]
