-- ===== src/Profile/Tests.antt =====
-- The built-in profiles and a small configuration, and the theorems on profiles at them
-- (internal/profile).
use multivendor_hsm_pki.Prelude.{
  ℕ, ◌*◌, ◌<◌, ◌≤◌, ◌≡◌, ◌≢◌, ◌↔◌, refl, arith, true, false, Option, none, some, [], ◌∷◌, pos, ok,
  err, All, string_eq, lookup,
}
use multivendor_hsm_pki.Clock.{hours, hour, wrap64}
use multivendor_hsm_pki.Profile.{
  Profile, no_usage, check_profiles, check_profile, validate_profile, validate_set, check_rdns,
  asserts_some, union, unknown_word,
}
use multivendor_hsm_pki.Profile.Builtin.{tls_server, builtin}
use multivendor_hsm_pki.Profile.Names.{Name, empty_name}
use multivendor_hsm_pki.Profile.Vocabulary.{
  key_usage_names, Spec, word, read_words, read_usages, compile_spec,
}
use multivendor_hsm_pki.Profile.Valid.{
  InForce, validate_set_iff, chosen_profiles, load_profiles, loaded_validity_bounded,
  wrapped_ceiling_unset,
}

abbrev some_profile : Profile → Option Profile
some_profile p = some p

-- The built-in profiles are accepted below a ceiling of a year.
builtin_valid : validate_set (hours (pos 8760)) builtin ≡ ok tt
unfolding validate_set check_profiles check_profile validate_profile check_rdns asserts_some hours
    wrap64 lookup
builtin_valid = refl

builtin_loads : load_profiles none (hours (pos 8760)) ≡ ok builtin
unfolding load_profiles chosen_profiles validate_set check_profiles check_profile validate_profile
    check_rdns asserts_some hours wrap64 lookup
builtin_loads = refl

found_server : lookup "tls-server" builtin ≡ some (some tls_server)
unfolding lookup
found_server = refl

validate_set_iff_example :
    (validate_set (hours (pos 8760)) builtin ≡ ok tt)
    ↔ ((builtin ≢ []) × All (InForce (hours (pos 8760))) builtin)
validate_set_iff_example = validate_set_iff (hours (pos 8760)) builtin

loaded_validity_bounded_example :
    (p : Profile) × (d : ℕ) × (some_profile tls_server ≡ some p)
    × (p.validity ≡ pos d)
    × (0 < d)
    × (d ≤ 8760 * hour)
loaded_validity_bounded_example =
    loaded_validity_bounded none 8760 builtin "tls-server" (some tls_server) (omega arith)
      (omega arith) builtin_loads found_server

wrapped_ceiling_unset_example :
    (validate_set (hours (pos 2562048)) builtin ≡ ok tt) ↔ (validate_set (pos 0) builtin ≡ ok tt)
wrapped_ceiling_unset_example = wrapped_ceiling_unset 2562048 builtin (omega arith) (omega arith)

abbrev server_spec : Spec
server_spec = record {
  extended_key_usages = "serverAuth" ∷ [];
  key_usages = "digitalSignature" ∷ "keyEncipherment" ∷ [];
  san_types = "dns" ∷ [];
  san_required = true;
  subject = "CN" ∷ [];
  key_algorithms = "ec-p256" ∷ [];
  validity_hours = pos 24;
  ocsp_no_check = false;
}

abbrev server_profile : Profile
server_profile = record {
  name = "web";
  ext_key_usages = 1 ∷ [];
  key_usage = record no_usage { digital_signature = true; key_encipherment = true };
  san_types = "dns" ∷ [];
  san_required = true;
  subject_rdns = "CN" ∷ [];
  key_algorithms = "ec-p256" ∷ [];
  validity = pos (24 * hour);
  ocsp_no_check = false;
}

compiled : compile_spec server_spec "web" ≡ ok server_profile
unfolding compile_spec read_words read_usages word lookup union hours wrap64
compiled = refl

-- A word that is not in the vocabulary is refused.
misspelt : word key_usage_names "digitalsignature" ≡ err (unknown_word "digitalsignature")
unfolding word lookup
misspelt = refl

abbrev asked : Name
asked = record empty_name {
  common_name = "a";
  names = record { oid = 2 ∷ 5 ∷ 4 ∷ 3 ∷ []; text = some "a" } ∷ [];
}
