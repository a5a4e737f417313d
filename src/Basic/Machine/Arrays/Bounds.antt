-- ===== src/Basic/Machine/Arrays/Bounds.antt =====
-- Arrays whose slices have the sizes that their bounds say, and accesses to them.
use rsts_e_v7_2_lookalike.Bytes.Reader.{Bytes}
use rsts_e_v7_2_lookalike.Basic.Machine.{Machine}
