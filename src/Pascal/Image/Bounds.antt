-- ===== src/Pascal/Image/Bounds.antt =====
-- The images that a file can hold: lengths below 2 ^ 32, and numbers in the range of their Go type.
use rsts_e_v7_2_lookalike.Prelude.{◌^◌, ◌<◌, ◌≡◌, length}
use rsts_e_v7_2_lookalike.Prelude.Int.{pos, IsI32, IsI64, FitsU32}
use rsts_e_v7_2_lookalike.Bytes.Reader.{Bytes}
use rsts_e_v7_2_lookalike.Bytes.Lists.{All}
use rsts_e_v7_2_lookalike.Pascal.Image.{Inst, ParamInfo, ProcInfo, FieldInfo, TypeInfo, Image}

abbrev pub IsShort : Bytes → Type 0
IsShort s = length s < 2 ^ 32

pub record InstFits (c : Inst) : Type 0 where
  pub a : IsI32 c.a
  pub b : IsI32 c.b
  pub i : IsI64 c.i
  pub f : c.f < 2 ^ 64

-- `conf_n` is a field that no code of the program sets.
pub record ParamFits (pm : ParamInfo) : Type 0 where
  pub off : IsI32 pm.off
  pub typ : IsI32 pm.typ
  pub conf_n : pm.conf_n ≡ pos 0
  pub conf_length : length pm.conf < 2 ^ 32
  pub conf : All IsI32 pm.conf

pub record ProcFits (p : ProcInfo) : Type 0 where
  pub name : IsShort p.name
  pub ip : FitsU32 p.ip
  pub level : IsI32 p.level
  pub n_slot : IsI32 p.n_slot
  pub ret_off : IsI32 p.ret_off
  pub params_length : length p.params < 2 ^ 32
  pub params : All ParamFits p.params
  pub ret_type : IsI32 p.ret_type

pub record FieldFits (f : FieldInfo) : Type 0 where
  pub name : IsShort f.name
  pub typ : IsI32 f.typ

pub record TypeFits (t : TypeInfo) : Type 0 where
  pub kind : IsI32 t.kind
  pub lo : IsI64 t.lo
  pub hi : IsI64 t.hi
  pub name : IsShort t.name
  pub elem : IsI32 t.elem
  pub index : IsI32 t.index
  pub ptr_to : IsI32 t.ptr_to
  pub base : IsI32 t.base
  pub enums_length : length t.enums < 2 ^ 32
  pub enums : All IsShort t.enums
  pub fields_length : length t.fields < 2 ^ 32
  pub fields : All FieldFits t.fields
  pub tag_name : IsShort t.tag_name
  pub tag_type : IsI32 t.tag_type
  pub ptr_name : IsShort t.ptr_name

pub record ImageFits (img : Image) : Type 0 where
  pub strings_length : length img.strings < 2 ^ 32
  pub strings : All IsShort img.strings
  pub code_length : length img.code < 2 ^ 32
  pub code : All InstFits img.code
  pub procs_length : length img.procs < 2 ^ 32
  pub procs : All ProcFits img.procs
  pub types_length : length img.type_info < 2 ^ 32
  pub types : All TypeFits img.type_info
  pub entry : FitsU32 img.entry
  pub main_n_slot : FitsU32 img.main_n_slot
  pub int_type : IsI32 img.int_type
  pub real_type : IsI32 img.real_type
  pub bool_type : IsI32 img.bool_type
  pub char_type : IsI32 img.char_type
  pub text_type : IsI32 img.text_type
  pub nil_type : IsI32 img.nil_type
