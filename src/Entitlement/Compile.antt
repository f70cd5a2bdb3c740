-- ===== src/Entitlement/Compile.antt =====
-- Spec.Compile and Parse of internal/entitlement/entitlement.go. The loop over the configured map
-- takes its entries in the order given.
use multivendor_hsm_pki.Prelude.{
  Bool, true, false, String, List, [], ◌∷◌, ◌++◌, ◌==◌, string_eq, Result, ok, ◌>>=◌, ◌>>◌,
  refuse_if, contains, Assoc, insert,
}
use multivendor_hsm_pki.Text.{is_blank}
use multivendor_hsm_pki.Entitlement.{
  Net, Pattern, EntitlementError, no_profile, no_name, empty_profile, internal_only, listed_twice,
  empty_identity, parse_pattern, Entitlement, is_internal_only,
}

pub record Spec : Type 0 where
  pub profiles : List String
  pub names : List String

-- len(list) == 0
abbrev pub is_empty : List String → Bool
is_empty [] = true
is_empty (_ ∷ _) = false

-- The loop over the profiles, with those granted so far.
unfoldable pub compile_profiles :
    String → List String → List String → Result EntitlementError (List String)
compile_profiles identity [] granted = ok granted
compile_profiles identity (name ∷ names) granted = do
  refuse_if (name == "") (empty_profile identity)
  refuse_if (is_internal_only name) (internal_only identity name)
  refuse_if (contains granted name) (listed_twice identity name)
  compile_profiles identity names (name ∷ granted)

module _ (net : Net) where
  -- The loop over the patterns.
  unfoldable pub compile_names :
      List String → List (Pattern net) → Result EntitlementError (List (Pattern net))
  compile_names [] patterns = ok patterns
  compile_names (raw ∷ raws) patterns = do
    p ← parse_pattern net raw
    compile_names raws (patterns ++ p ∷ [])

  unfoldable pub compile : String → Spec → Result EntitlementError (Entitlement net)
  compile identity s = do
    refuse_if (is_empty s.profiles) (no_profile identity)
    refuse_if (is_empty s.names) (no_name identity)
    profiles ← compile_profiles identity s.profiles []
    names ← compile_names s.names []
    ok (record { profiles = profiles; names = names })

  unfoldable pub parse_specs :
      Assoc String Spec
      → Assoc String (Entitlement net)
      → Result EntitlementError (Assoc String (Entitlement net))
  parse_specs [] m = ok m
  parse_specs ((identity, spec) ∷ specs) m = do
    refuse_if (is_blank identity) empty_identity
    e ← compile identity spec
    parse_specs specs (insert identity e m)

  -- Parse
  unfoldable pub parse :
      Assoc String Spec → Result EntitlementError (Assoc String (Entitlement net))
  parse specs = parse_specs specs []
