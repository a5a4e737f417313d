-- ===== src/Ccl.antt =====
-- The concise command language (ccl.go): `lookupCCL`, and the changes that `cmdCCL` makes to the
-- table of commands.
pub mod Lookup
use rsts_e_v7_2_lookalike.Prelude.{
  Bool, true, false, Option, none, some, List, [], ◌∷◌, ◌+◌, ◌==◌, ◌||◌, ℕ, if◌then◌else◌, not,
}
use rsts_e_v7_2_lookalike.Bytes.Reader.{Bytes}
use rsts_e_v7_2_lookalike.Bytes.Magic.{bytes_eq, has_prefix}
use rsts_e_v7_2_lookalike.Text.Ascii.{upper}

pub record CclEntry : Type 0 where
  pub name : Bytes
  pub spec : Bytes
  pub priv : Bool

-- `name == verb`, with the verb in upper case.
abbrev pub is_exact : Bytes → CclEntry → Bool
is_exact verb e = bytes_eq (upper e.name) verb

-- `name == verb || strings.HasPrefix(name, verb)`
abbrev pub is_hit : Bytes → CclEntry → Bool
is_hit verb e = is_exact verb e || has_prefix (upper e.name) verb

-- `return hit, n == 1`
abbrev pub only_hit : Option CclEntry → ℕ → Option CclEntry
only_hit hit n = if n == 1 then hit else none

-- The loop of `lookupCCL` over the entries left, with the last hit and the number of hits so far.
unfoldable pub lookup_from : Bytes → List CclEntry → Option CclEntry → ℕ → Option CclEntry
lookup_from verb [] hit n = only_hit hit n
lookup_from verb (e ∷ entries) hit n =
    let rest =
      lookup_from verb entries (if is_hit verb e then some e else hit)
        (if is_hit verb e then n + 1 else n) in
    if is_exact verb e then some e else rest

-- `none` is the result `_, false`.
unfoldable pub lookup_ccl : List CclEntry → Bytes → Option CclEntry
unfolding lookup_from
lookup_ccl entries verb = lookup_from (upper verb) entries none 0

-- `CCL/DE name`: the entries whose name is another.
unfoldable pub delete_ccl : List CclEntry → Bytes → List CclEntry
delete_ccl [] name = []
delete_ccl (e ∷ entries) name =
    if not (bytes_eq (upper e.name) name)
    then e ∷ delete_ccl entries name
    else delete_ccl entries name

-- `CCL name=spec`: the first entry with the name is replaced, or one is added at the end.
unfoldable pub define_ccl : List CclEntry → Bytes → Bytes → List CclEntry
define_ccl [] name spec = record { name = name; spec = spec; priv = false } ∷ []
define_ccl (e ∷ entries) name spec =
    if bytes_eq (upper e.name) (upper name)
    then record { name = name; spec = spec; priv = false } ∷ entries
    else e ∷ define_ccl entries name spec
