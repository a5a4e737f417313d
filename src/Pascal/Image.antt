-- ===== src/Pascal/Image.antt =====
-- The data of a compiled Pascal program: instructions, procedures and type descriptors
-- (pascal_pcode.go). A Go string is its bytes, an `int`, `int32` or `int64` is a signed integer,
-- and a `float64` is its bit pattern, which `math.Float64bits` and `Float64frombits` pass through.
pub mod Codec
pub mod Bounds
pub mod RoundTrip
pub mod Truncated
pub mod Types
use rsts_e_v7_2_lookalike.Prelude.{ℕ, Bool, List, Option}
use rsts_e_v7_2_lookalike.Prelude.Int.{ℤ}
use rsts_e_v7_2_lookalike.Bytes.Reader.{Bytes}

pub record Inst : Type 0 where
  pub op : ℕ
  pub a : ℤ
  pub b : ℤ
  pub i : ℤ
  pub f : ℕ

pub record ParamInfo : Type 0 where
  pub off : ℤ
  pub by_ref : Bool
  pub proc : Bool
  pub typ : ℤ
  pub conf_n : ℤ
  pub conf : List ℤ

pub record ProcInfo : Type 0 where
  pub name : Bytes
  pub ip : ℤ
  pub level : ℤ
  pub n_slot : ℤ
  pub ret_off : ℤ
  pub is_func : Bool
  pub params : List ParamInfo
  pub ret_type : ℤ

pub record FieldInfo : Type 0 where
  pub name : Bytes
  pub typ : ℤ

pub record TypeInfo : Type 0 where
  pub kind : ℤ
  pub lo : ℤ
  pub hi : ℤ
  pub name : Bytes
  pub packed : Bool
  pub conf : Bool
  pub elem : ℤ
  pub index : ℤ
  pub ptr_to : ℤ
  pub base : ℤ
  pub enums : List Bytes
  pub fields : List FieldInfo
  pub tag_name : Bytes
  pub tag_type : ℤ
  pub ptr_name : Bytes

-- A `*pType` of the image is `none` for nil, and otherwise an index of its `Types`.
pub record PType : Type 0 where
  pub kind : ℤ
  pub lo : ℤ
  pub hi : ℤ
  pub name : Bytes
  pub packed : Bool
  pub conf : Bool
  pub enums : List Bytes
  pub tag_name : Bytes
  pub ptr_name : Bytes
  pub conf_lo : Bytes
  pub conf_hi : Bytes
  pub elem : Option ℕ
  pub index : Option ℕ
  pub ptr_to : Option ℕ
  pub base : Option ℕ
  pub tag_type : Option ℕ
  pub fields : List (Bytes × Option ℕ)

pub record Image : Type 0 where
  pub strings : List Bytes
  pub code : List Inst
  pub procs : List ProcInfo
  pub type_info : List TypeInfo
  pub types : List (Option PType)
  pub entry : ℤ
  pub main_n_slot : ℤ
  pub int_type : ℤ
  pub real_type : ℤ
  pub bool_type : ℤ
  pub char_type : ℤ
  pub text_type : ℤ
  pub nil_type : ℤ
