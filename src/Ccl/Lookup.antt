-- ===== src/Ccl/Lookup.antt =====
-- A command is found by its whole name before any abbreviation, and by an abbreviation only if it
-- is unambiguous.
use rsts_e_v7_2_lookalike.Prelude.{
  ℕ, ◌+◌, ◌≡◌, refl, ◌∙◌, false, Option, none, some, List, [], ◌∷◌, arith, if◌then◌else◌, length,
}
use rsts_e_v7_2_lookalike.Bytes.Reader.{Bytes}
use rsts_e_v7_2_lookalike.Bytes.Magic.{bytes_eq_refl}
use rsts_e_v7_2_lookalike.Text.Ascii.{upper}
use rsts_e_v7_2_lookalike.Ccl.{
  CclEntry, is_exact, is_hit, only_hit, lookup_from, lookup_ccl, delete_ccl, define_ccl,
}

-- The first entry whose name is the verb.
abbrev pub first_exact : Bytes → List CclEntry → Option CclEntry
first_exact verb [] = none
first_exact verb (e ∷ entries) = if is_exact verb e then some e else first_exact verb entries

-- The entries whose name begins with the verb.
abbrev pub hits : Bytes → List CclEntry → List CclEntry
hits verb [] = []
hits verb (e ∷ entries) = if is_hit verb e then e ∷ hits verb entries else hits verb entries

-- The entry of a list of one.
abbrev pub the_only : List CclEntry → Option CclEntry
the_only [] = none
the_only (e ∷ []) = some e
the_only (e ∷ f ∷ entries) = none

-- The first exact entry, or else the one entry that the verb abbreviates.
abbrev pub resolved : Bytes → List CclEntry → Option CclEntry
resolved verb entries = elim (first_exact verb entries) [
  | some e ↦ some e
  | none ↦ the_only (hits verb entries)
]

-- The loop with hits behind it: the last of them and their number.
abbrev last_hit : Option CclEntry → List CclEntry → Option CclEntry
last_hit hit [] = hit
last_hit hit (e ∷ entries) = last_hit (some e) entries

lookup_from_eq :
    (verb : Bytes) (entries : List CclEntry) (hit : Option CclEntry) (n : ℕ)
    → lookup_from verb entries hit n ≡ (elim (first_exact verb entries) [
      | some e ↦ some e
      | none ↦ only_hit (last_hit hit (hits verb entries)) (n + length (hits verb entries))
    ])
unfolding lookup_from
lookup_from_eq verb [] hit n = ground arith
lookup_from_eq verb (e ∷ entries) hit n =
    ground (arith, lookup_from_eq verb entries (some e) (n + 1), lookup_from_eq verb entries hit n)

only_last_hit : (es : List CclEntry) → only_hit (last_hit none es) (0 + length es) ≡ the_only es
only_last_hit [] = refl
only_last_hit (e ∷ []) = refl
only_last_hit (e ∷ f ∷ es) = ground arith

-- `lookupCCL` finds the first entry whose name is the verb, in either case of letters; if there is
-- none, the entry whose name begins with the verb, provided that there is exactly one.
pub lookup_ccl-resolved :
    (entries : List CclEntry) (verb : Bytes)
    → lookup_ccl entries verb ≡ resolved (upper verb) entries
unfolding lookup_ccl
lookup_ccl-resolved entries verb =
    lookup_from_eq (upper verb) entries none 0 ∙ choose (first_exact (upper verb) entries)
  where
    choose :
        (o : Option CclEntry)
        → (elim o [
          | some e ↦ some e
          | none ↦
              only_hit
                (last_hit none (hits (upper verb) entries))
                (0 + length (hits (upper verb) entries))
        ])
          ≡ (elim o [ some e ↦ some e | none ↦ the_only (hits (upper verb) entries) ])
    choose (some e) = refl
    choose none = only_last_hit (hits (upper verb) entries)

first_exact-define_ccl :
    (entries : List CclEntry) (name spec : Bytes)
    → first_exact (upper name) (define_ccl entries name spec)
      ≡ some (record { name = name; spec = spec; priv = false })
unfolding define_ccl
first_exact-define_ccl [] name spec = ground (arith, bytes_eq_refl (upper name))
first_exact-define_ccl (e ∷ entries) name spec =
    ground (arith, bytes_eq_refl (upper name), first_exact-define_ccl entries name spec)

-- A command that has been defined is found by its name at once, whatever other commands it
-- abbreviates or is abbreviated by.
pub lookup_ccl-define_ccl :
    (entries : List CclEntry) (name spec : Bytes)
    → lookup_ccl (define_ccl entries name spec) name
      ≡ some (record { name = name; spec = spec; priv = false })
lookup_ccl-define_ccl entries name spec =
    lookup_ccl-resolved (define_ccl entries name spec) name
    ∙ rw (first_exact-define_ccl entries name spec, resolved)

-- Every entry with the name goes, so that only an abbreviation of a longer name can find anything.
pub first_exact-delete_ccl :
    (entries : List CclEntry) (name : Bytes)
    → first_exact (upper name) (delete_ccl entries (upper name)) ≡ none
unfolding delete_ccl
first_exact-delete_ccl [] name = refl
first_exact-delete_ccl (e ∷ entries) name = ground (arith, first_exact-delete_ccl entries name)
