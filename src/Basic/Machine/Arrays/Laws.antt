-- ===== src/Basic/Machine/Arrays/Laws.antt =====
-- What an assignment to an element changes.
use rsts_e_v7_2_lookalike.Bytes.Reader.{Bytes}
use rsts_e_v7_2_lookalike.Basic.Machine.{Machine}
