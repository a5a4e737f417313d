-- ===== src/Tests/Images.antt =====
-- A small compiled Pascal program and a small compiled BASIC-PLUS program.
use rsts_e_v7_2_lookalike.Prelude.{◌≡◌, refl, true, false, none, some, [], ◌∷◌, ◌++◌, arith}
use rsts_e_v7_2_lookalike.Prelude.Int.{pos, negsuc, to_u32, to_u64}
use rsts_e_v7_2_lookalike.Bytes.Reader.{Bytes}
use rsts_e_v7_2_lookalike.Bytes.Words.{put_u32, put_u64, put_str}
use rsts_e_v7_2_lookalike.Bytes.Lists.{put_list}
use rsts_e_v7_2_lookalike.Bytes.Signed.{put_int, put_i64}
use rsts_e_v7_2_lookalike.Text.Ascii.{codes}
use rsts_e_v7_2_lookalike.Pascal.Image.{PType, TypeInfo, Inst, ProcInfo, Image}
use rsts_e_v7_2_lookalike.Pascal.Image.Bounds.{ImageFits}
use rsts_e_v7_2_lookalike.Pascal.Image.Types.{rebuild_types, typ, IsLinked, typ-IsLinked}
use rsts_e_v7_2_lookalike.Pascal.Image.Codec.{marshal, wrap_pac, unmarshal_pac}
use rsts_e_v7_2_lookalike.Pascal.Image.RoundTrip.{reloaded, unmarshal_pac-wrap_pac}
use rsts_e_v7_2_lookalike.Pascal.Image.Truncated.{unmarshal_pac_truncated}
use rsts_e_v7_2_lookalike.Basic
use rsts_e_v7_2_lookalike.Basic.Image.{Value, Line}
use rsts_e_v7_2_lookalike.Basic.Image.Codec.{pcode_magic, put_body, unmarshal_pcode}
use rsts_e_v7_2_lookalike.Basic.Image.RoundTrip.{
  without_lines, unmarshal_pcode-marshal, unmarshal_pcode-put_body,
}

-- A subrange type that names itself as its element, a missing index and an id below 0.
abbrev small : TypeInfo
small = record {
  kind = pos 1;
  lo = negsuc 4;
  hi = pos 9;
  name = codes "SMALL";
  packed = false;
  conf = true;
  elem = pos 1;
  index = pos 7;
  ptr_to = negsuc 0;
  base = pos 0;
  enums = codes "A" ∷ [];
  fields = record { name = codes "X"; typ = pos 1 } ∷ [];
  tag_name = [];
  tag_type = pos 0;
  ptr_name = [];
}

abbrev halt : Inst
halt = record { op = 0; a = negsuc 0; b = pos 3; i = negsuc 41; f = 7 }

abbrev main_proc : ProcInfo
main_proc = record {
  name = codes "P";
  ip = pos 12;
  level = pos 1;
  n_slot = pos 2;
  ret_off = negsuc 0;
  is_func = true;
  params =
      record {
        off = pos 0;
        by_ref = true;
        proc = false;
        typ = pos 1;
        conf_n = pos 0;
        conf = pos 4 ∷ negsuc 1 ∷ [];
      }
      ∷ [];
  ret_type = pos 1;
}

abbrev program : Image
program = record {
  strings = codes "HI" ∷ [] ∷ [];
  code = halt ∷ [];
  procs = main_proc ∷ [];
  type_info = small ∷ [];
  types = [];
  entry = pos 0;
  main_n_slot = pos 5;
  int_type = pos 1;
  real_type = pos 0;
  bool_type = pos 0;
  char_type = pos 0;
  text_type = pos 0;
  nil_type = negsuc 0;
}

program-ImageFits : ImageFits program
program-ImageFits = ground arith

unmarshal_pac-wrap_pac_example :
    unmarshal_pac (wrap_pac program ++ 1 ∷ 2 ∷ []) ≡ some (reloaded program)
unmarshal_pac-wrap_pac_example = unmarshal_pac-wrap_pac program (1 ∷ 2 ∷ []) program-ImageFits

typ-IsLinked_example :
    (t : PType) × (typ (rebuild_types (small ∷ [])) (pos 1) ≡ some t)
    × IsLinked (small ∷ []) small t
typ-IsLinked_example = typ-IsLinked (small ∷ []) 0 small refl

-- All bytes but the last.
abbrev init : Bytes → Bytes
init [] = []
init (b ∷ []) = []
init (b ∷ c ∷ bs) = b ∷ init (c ∷ bs)

-- The image without its last byte.
abbrev cut_program : Bytes
cut_program = init (wrap_pac program)

unmarshal_pac_truncated_example : unmarshal_pac cut_program ≡ none
unfolding wrap_pac marshal put_int put_i64 to_u32 to_u64 put_list put_u32 put_str put_u64
unmarshal_pac_truncated_example =
    unmarshal_pac_truncated program cut_program (255 ∷ []) program-ImageFits refl (cc)

-- 10 PRINT and 20 END, with one DATA string.
abbrev listing : Basic.Image.Image
listing = record {
  strings = codes "A" ∷ codes "DATUM" ∷ [];
  nums = 5 ∷ [];
  items = Value.text (codes "DATUM") ∷ Value.num 5 ∷ [];
  data_lines = pos 10 ∷ pos 10 ∷ [];
  lines = record { num = pos 10; ip = pos 0 } ∷ record { num = pos 20; ip = pos 4 } ∷ [];
  fns = [];
  code = 1 ∷ 0 ∷ 10 ∷ 0 ∷ 34 ∷ [];
  halt_ip = pos 5;
}

listing-ImageFits : Basic.Image.RoundTrip.ImageFits listing
listing-ImageFits = ground arith

unmarshal_pcode-marshal_example :
    unmarshal_pcode (Basic.Image.Codec.marshal listing ++ 9 ∷ []) ≡ some listing
unmarshal_pcode-marshal_example = unmarshal_pcode-marshal listing (9 ∷ []) listing-ImageFits
