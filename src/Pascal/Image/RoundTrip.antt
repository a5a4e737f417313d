-- ===== src/Pascal/Image/RoundTrip.antt =====
-- What `marshal` wrote, `unmarshalPAC` reads back.
use rsts_e_v7_2_lookalike.Prelude.{
  ◌≡◌, refl, ap, some, none, Option, [], ◌++◌, append_assoc, sym, arith,
}
use mathlib.Core.Path.{subst}
use rsts_e_v7_2_lookalike.Prelude.Int.{pos, IsI32}
use rsts_e_v7_2_lookalike.Bytes.Reader.{
  Bytes, Reads, Reads-bind, Reads-end, Reads-refuse_if, loaded,
}
use rsts_e_v7_2_lookalike.Bytes.Words.{
  Reads-u32, Reads-u64, Reads-str, Reads-byte, Reads-flag, Reads-flags,
}
use rsts_e_v7_2_lookalike.Bytes.Signed.{Reads-i32, Reads-int, Reads-i64}
use rsts_e_v7_2_lookalike.Bytes.Lists.{Reads-list}
use rsts_e_v7_2_lookalike.Bytes.Magic.{unwrap, unwrap-append}
use rsts_e_v7_2_lookalike.Pascal.Image.{Inst, ParamInfo, ProcInfo, FieldInfo, TypeInfo, Image}
use rsts_e_v7_2_lookalike.Pascal.Image.Types.{rebuild_types}
use rsts_e_v7_2_lookalike.Pascal.Image.Bounds.{
  IsShort, InstFits, ParamFits, ProcFits, FieldFits, TypeFits, ImageFits,
}
use rsts_e_v7_2_lookalike.Pascal.Image.Codec.{
  pac_magic, pac_version, put_inst, put_param, put_proc, put_field, put_type, put_trailer, marshal,
  wrap_pac, inst, param, proc, field, type_info, tables, trailer, payload, unmarshal_pac,
}

Reads-inst : (c : Inst) → InstFits c → Reads inst (put_inst c) c
unfolding inst put_inst
Reads-inst c h = Reads-bind _ (Reads-byte c.op) (
    Reads-bind _ (Reads-i32 c.a h.a) (
      Reads-bind _ (Reads-i32 c.b h.b)
        (Reads-bind _ (Reads-i64 c.i h.i) (Reads-end _ (Reads-u64 c.f h.f)))))

Reads-param_conf :
    (pm : ParamInfo) → ParamFits pm → Reads param (put_param pm) (record pm { conf_n = pos 0 })
unfolding param put_param
Reads-param_conf pm h = Reads-bind _ (Reads-i32 pm.off h.off) (
    Reads-bind _ (Reads-flags pm.by_ref pm.proc) (
      Reads-bind _ (Reads-i32 pm.typ h.typ)
        (Reads-end _ (Reads-list IsI32 Reads-i32 pm.conf h.conf_length h.conf))))

Reads-param : (pm : ParamInfo) → ParamFits pm → Reads param (put_param pm) pm
Reads-param pm h =
    subst (Reads param (put_param pm)) (ap (λ z. record pm { conf_n = z }) (sym h.conf_n))
      (Reads-param_conf pm h)

Reads-proc : (p : ProcInfo) → ProcFits p → Reads proc (put_proc p) p
unfolding proc put_proc
Reads-proc p h = Reads-bind _ (Reads-str p.name h.name) (
    Reads-bind _ (Reads-int p.ip h.ip) (
      Reads-bind _ (Reads-i32 p.level h.level) (
        Reads-bind _ (Reads-i32 p.n_slot h.n_slot) (
          Reads-bind _ (Reads-i32 p.ret_off h.ret_off) (
            Reads-bind _ (Reads-flag p.is_func) (
              Reads-bind _ (Reads-i32 p.ret_type h.ret_type) (
                Reads-end _
                  (Reads-list ParamFits Reads-param p.params h.params_length h.params))))))))

Reads-field : (f : FieldInfo) → FieldFits f → Reads field (put_field f) f
unfolding field put_field
Reads-field f h = Reads-bind _ (Reads-str f.name h.name) (Reads-end _ (Reads-i32 f.typ h.typ))

Reads-type_info : (t : TypeInfo) → TypeFits t → Reads type_info (put_type t) t
unfolding type_info put_type
Reads-type_info t h = Reads-bind _ (Reads-i32 t.kind h.kind) (
    Reads-bind _ (Reads-i64 t.lo h.lo) (
      Reads-bind _ (Reads-i64 t.hi h.hi) (
        Reads-bind _ (Reads-str t.name h.name) (
          Reads-bind _ (Reads-flags t.packed t.conf) (
            Reads-bind _ (Reads-i32 t.elem h.elem) (
              Reads-bind _ (Reads-i32 t.index h.index) (
                Reads-bind _ (Reads-i32 t.ptr_to h.ptr_to) (
                  Reads-bind _ (Reads-i32 t.base h.base) (
                    Reads-bind _ (Reads-list IsShort Reads-str t.enums h.enums_length h.enums) (
                      Reads-bind _
                        (Reads-list FieldFits Reads-field t.fields h.fields_length h.fields)
                        (Reads-bind _ (Reads-str t.tag_name h.tag_name) (
                          Reads-bind _ (Reads-i32 t.tag_type h.tag_type)
                            (Reads-end _ (Reads-str t.ptr_name h.ptr_name))))))))))))))

-- The image as it is loaded: the table of types is built anew.
abbrev pub reloaded : Image → Image
reloaded img = record img { types = rebuild_types img.type_info }

Reads-trailer :
    (img : Image)
    → ImageFits img
    → Reads
        (trailer (tables img.strings img.code img.procs img.type_info))
        (put_trailer img)
        (reloaded img)
unfolding trailer put_trailer
Reads-trailer img h = Reads-bind _ (Reads-int img.entry h.entry) (
    Reads-bind _ (Reads-int img.main_n_slot h.main_n_slot) (
      Reads-bind _ (Reads-i32 img.int_type h.int_type) (
        Reads-bind _ (Reads-i32 img.real_type h.real_type) (
          Reads-bind _ (Reads-i32 img.bool_type h.bool_type) (
            Reads-bind _ (Reads-i32 img.char_type h.char_type) (
              Reads-bind _ (Reads-i32 img.text_type h.text_type)
                (Reads-end _ (Reads-i32 img.nil_type h.nil_type))))))))

pub Reads-payload : (img : Image) → ImageFits img → Reads payload (marshal img) (reloaded img)
unfolding payload marshal
Reads-payload img h = Reads-bind _ (Reads-u32 pac_version (omega arith)) (
    Reads-refuse_if refl (
      Reads-bind _ (Reads-list IsShort Reads-str img.strings h.strings_length h.strings) (
        Reads-bind _ (Reads-list InstFits Reads-inst img.code h.code_length h.code) (
          Reads-bind _ (Reads-list ProcFits Reads-proc img.procs h.procs_length h.procs) (
            Reads-bind _ (Reads-list TypeFits Reads-type_info img.type_info h.types_length h.types)
              (Reads-trailer img h))))))

pub unmarshal_pac-unwrap :
    (raw p : Bytes) {r : Option (Image × Bytes)}
    → unwrap pac_magic raw ≡ some p
    → payload p ≡ r
    → unmarshal_pac raw ≡ loaded r
unfolding unmarshal_pac
unmarshal_pac-unwrap raw p {r = none} e f = rw (e, unmarshal_pac) (rw f)
unmarshal_pac-unwrap raw p {r = some (img, rest)} e f = rw (e, unmarshal_pac) (rw f)

-- A compiled program that a file can hold loads as it was compiled, with its table of types built
-- from its descriptors, whatever bytes follow it in the file.
pub unmarshal_pac-wrap_pac :
    (img : Image) (rest : Bytes)
    → ImageFits img
    → unmarshal_pac (wrap_pac img ++ rest) ≡ some (reloaded img)
unfolding wrap_pac
unmarshal_pac-wrap_pac img rest h = rw (append_assoc pac_magic (marshal img) rest) (
    unmarshal_pac-unwrap (pac_magic ++ (marshal img ++ rest)) (marshal img ++ rest)
      (unwrap-append pac_magic (marshal img ++ rest)) ((Reads-payload img h).run rest))

-- Two programs that a file can hold and that give the same file agree in all that is loaded.
pub wrap_pac-injective :
    (img other : Image)
    → ImageFits img
    → ImageFits other
    → wrap_pac img ≡ wrap_pac other
    → reloaded img ≡ reloaded other
wrap_pac-injective img other h k e =
    let same : wrap_pac img ++ [] ≡ wrap_pac other ++ [] = ap (λ b. b ++ []) e in
    cc (unmarshal_pac-wrap_pac img [] h, unmarshal_pac-wrap_pac other [] k, ap unmarshal_pac same)
