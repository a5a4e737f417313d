-- ===== src/Basic/Image.antt =====
-- The data of a compiled BASIC-PLUS program (pcode.go). A Go string is its bytes, an `int` a signed
-- integer, and a `float64` its bit pattern.
pub mod Codec
pub mod Lines
pub mod RoundTrip
use rsts_e_v7_2_lookalike.Prelude.{ℕ, List}
use rsts_e_v7_2_lookalike.Prelude.Int.{ℤ}
use rsts_e_v7_2_lookalike.Bytes.Reader.{Bytes}

-- `strValue(s)` and `numValue(n)`.
pub data Value : Type 0 where
  text : Bytes → Value
  num : ℕ → Value

pub record Line : Type 0 where
  pub num : ℤ
  pub ip : ℤ

pub record Fn : Type 0 where
  pub name : Bytes
  pub params : List Bytes
  pub ip : ℤ

pub record Image : Type 0 where
  pub strings : List Bytes
  pub nums : List ℕ
  pub items : List Value
  pub data_lines : List ℤ
  pub lines : List Line
  pub fns : List Fn
  pub code : Bytes
  pub halt_ip : ℤ
