-- ===== src/Entitlement/Tests.antt =====
-- A toy configuration, and the theorems on entitlements at it (internal/entitlement).
use multivendor_hsm_pki.Prelude.{
  ℕ, ◌≡◌, ◌≢◌, refl, ◌↔◌, Bool, true, false, String, none, some, List, [], ◌∷◌, ◌==◌, nat_eq,
  string_eq, ok, err, Assoc, lookup, insert, contains, All, Pairwise, any,
}
use multivendor_hsm_pki.Text.{codes, is_blank}
use multivendor_hsm_pki.Text.Regex.{full_match}
use multivendor_hsm_pki.Entitlement.{
  Net, Pattern, name_dns, Entitlement, not_entitled, cut, name_type_of, ip_matcher, parse_pattern,
  matches, any_ip, name_ip,
}
use multivendor_hsm_pki.Entitlement.Glob.{glob_regexp, GlobMatch, glob_regexp_iff}
use multivendor_hsm_pki.Entitlement.Names.{
  Csr, check_name, check_all, permits_names, requested, Covered, IsJudged, permits_names_exact,
}
use multivendor_hsm_pki.Entitlement.Compile.{
  Spec, is_empty, compile_profiles, compile_names, compile, parse_specs, parse,
}
use multivendor_hsm_pki.Entitlement.Loops.{Grantable, Parsed}
use multivendor_hsm_pki.Entitlement.Granted.{compile_iff}

abbrev pub toy_net : Net
toy_net = record {
  Ip = String;
  Cidr = String;
  parse_ip = λ text. some text;
  parse_cidr = λ text. none;
  cidr_contains = λ range ip. false;
  same_ip = λ a b. a == b;
  same_fold = λ c d. c == d;
}

same_code : ℕ → ℕ → Bool
same_code c d = c == d

glob_regexp_iff_example :
    (full_match (glob_regexp same_code (codes "*.example.test")) (codes "a.b.example.test") ≡ true)
    ↔ GlobMatch same_code (codes "*.example.test") (codes "a.b.example.test")
glob_regexp_iff_example =
    glob_regexp_iff same_code (codes "*.example.test") (codes "a.b.example.test")

below : full_match (glob_regexp toy_net.same_fold (codes "*.test")) (codes "a.b.test") ≡ true
unfolding full_match glob_regexp
below = refl

not_below : full_match (glob_regexp toy_net.same_fold (codes "*.test")) (codes "a.b.tests") ≡ false
unfolding full_match glob_regexp
not_below = refl

abbrev alice_spec : Spec
alice_spec = record { profiles = "server" ∷ []; names = "ip:*" ∷ [] }

abbrev alice : Entitlement toy_net
alice = record {
  profiles = "server" ∷ [];
  names = record { name_type = name_ip; raw = "*"; matcher = any_ip } ∷ [];
}

compiled : compile toy_net "alice" alice_spec ≡ ok alice
unfolding compile compile_profiles compile_names contains parse_pattern cut name_type_of ip_matcher
compiled = refl

abbrev specs : Assoc String Spec
specs = ("alice", alice_spec) ∷ []

abbrev granted : Assoc String (Entitlement toy_net)
granted = ("alice", alice) ∷ []

parsed : parse toy_net specs ≡ ok granted
unfolding parse parse_specs is_blank insert compile compile_profiles compile_names contains
    parse_pattern cut name_type_of ip_matcher
parsed = refl

found : lookup {K = String} "alice" granted ≡ some alice
unfolding lookup
found = refl

abbrev request : Csr
request = record {
  common_name = "";
  dns_names = "evil.example" ∷ [];
  ip_addresses = "10.0.0.1" ∷ [];
  uris = [];
  email_addresses = [];
}

refused : permits_names alice request ≡ err (not_entitled name_dns "evil.example")
unfolding permits_names check_all check_name any matches
refused = refl

permits_names_exact_example :
    IsJudged alice (requested request) (permits_names alice request)
    × ((permits_names alice request ≡ ok tt) ↔ All (Covered alice) (requested request))
permits_names_exact_example = permits_names_exact alice request

compile_iff_example : ((e : Entitlement toy_net) × (compile toy_net "alice" alice_spec ≡ ok e)) ↔ (
    (is_empty alice_spec.profiles ≡ false)
    × (is_empty alice_spec.names ≡ false)
    × All Grantable alice_spec.profiles
    × Pairwise (λ a b. a ≢ b) alice_spec.profiles
    × ((ps : List (Pattern toy_net)) × Parsed toy_net alice_spec.names ps))
compile_iff_example = compile_iff toy_net "alice" alice_spec
