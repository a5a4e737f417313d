-- ===== src/Pascal/Image/Truncated.antt =====
-- A compiled program that was cut short is refused.
use rsts_e_v7_2_lookalike.Prelude.{
  ◌≡◌, ◌≢◌, refl, ◌∙◌, some, none, Option, List, [], ◌∷◌, ◌++◌, append-nil, append_assoc,
}
use rsts_e_v7_2_lookalike.Bytes.Reader.{
  Bytes, Extends, Extends-bind, Extends-pure, Extends-refuse_if,
}
use rsts_e_v7_2_lookalike.Bytes.Words.{
  Extends-u32, Extends-u64, Extends-str, Extends-byte, Extends-flag, Extends-flags,
}
use rsts_e_v7_2_lookalike.Bytes.Signed.{Extends-i32, Extends-int, Extends-i64}
use rsts_e_v7_2_lookalike.Bytes.Lists.{Extends-list}
use rsts_e_v7_2_lookalike.Bytes.Magic.{unwrap, unwrap_sound, unwrap-append}
use rsts_e_v7_2_lookalike.Pascal.Image.{Image}
use rsts_e_v7_2_lookalike.Pascal.Image.Bounds.{ImageFits}
use rsts_e_v7_2_lookalike.Pascal.Image.RoundTrip.{Reads-payload, reloaded, unmarshal_pac-unwrap}
use rsts_e_v7_2_lookalike.Pascal.Image.Codec.{
  pac_magic, marshal, wrap_pac, inst, param, proc, field, type_info, trailer, payload,
  unmarshal_pac,
}

ruleset words = (
  Extends-u32, Extends-u64, Extends-str, Extends-byte, Extends-flag, Extends-flags, Extends-i32,
  Extends-int, Extends-i64, Extends-list, Extends-bind, Extends-pure, Extends-refuse_if,
)

Extends-inst : Extends inst
unfolding inst
Extends-inst = search words depth 12

Extends-param : Extends param
unfolding param
Extends-param = search words depth 12

Extends-proc : Extends proc
unfolding proc
Extends-proc = search (words, Extends-param) depth 16

Extends-field : Extends field
unfolding field
Extends-field = search words depth 12

Extends-type_info : Extends type_info
unfolding type_info
Extends-type_info = search (words, Extends-field) depth 20

Extends-trailer : (img : Image) → Extends (trailer img)
unfolding trailer
Extends-trailer img = search words depth 16

Extends-payload : Extends payload
unfolding payload
Extends-payload =
    search (words, Extends-inst, Extends-proc, Extends-type_info, Extends-trailer) depth 12

append-eq-nil : {A : Type 0} (xs ys : List A) → xs ++ ys ≡ [] → ys ≡ []
append-eq-nil [] ys h = h
append-eq-nil (x ∷ xs) ys h = cc

-- The reader accepts no image whose bytes end before those that `marshal` wrote.
payload_cut :
    (img : Image) (cut lost : Bytes)
    → ImageFits img
    → marshal img ≡ cut ++ lost
    → lost ≢ []
    → payload cut ≡ none
payload_cut img cut lost h e some_lost = go (payload cut) refl
  where
    go : (r : Option (Image × Bytes)) → payload cut ≡ r → payload cut ≡ none
    go none found = found
    go (some (other, rest)) found =
        let whole : payload (marshal img) ≡ some (reloaded img, []) =
          rw append-nil at ((Reads-payload img h).run []) in
        let longer : payload (cut ++ lost) ≡ some (other, rest ++ lost) =
          Extends-payload.run cut lost other rest found in
        let left : rest ++ lost ≡ [] = cc (whole, longer, e) in
        absurd (some_lost (append-eq-nil rest lost left))

-- A file that was cut short, by however much, is refused: a compiled program never loads in part.
pub unmarshal_pac_truncated :
    (img : Image) (cut lost : Bytes)
    → ImageFits img
    → wrap_pac img ≡ cut ++ lost
    → lost ≢ []
    → unmarshal_pac cut ≡ none
unfolding unmarshal_pac wrap_pac
unmarshal_pac_truncated img cut lost h e some_lost = go (unwrap pac_magic cut) refl
  where
    go : (r : Option Bytes) → unwrap pac_magic cut ≡ r → unmarshal_pac cut ≡ none
    go none no_magic = rw (no_magic, unmarshal_pac)
    go (some p) has_magic =
        let here : unwrap pac_magic (pac_magic ++ marshal img) ≡ some (marshal img) =
          unwrap-append pac_magic (marshal img) in
        let there : unwrap pac_magic (pac_magic ++ (p ++ lost)) ≡ some (p ++ lost) =
          unwrap-append pac_magic (p ++ lost) in
        let split : cut ≡ pac_magic ++ p = unwrap_sound pac_magic cut p has_magic in
        let same : pac_magic ++ marshal img ≡ pac_magic ++ (p ++ lost) =
          e ∙ rw split (append_assoc pac_magic p lost) in
        let tail : marshal img ≡ p ++ lost = cc (here, there, same) in
        unmarshal_pac-unwrap cut p has_magic (payload_cut img p lost h tail some_lost)
