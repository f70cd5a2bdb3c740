-- ===== src/Config/Tests.antt =====
-- A host with one configuration file, and the theorem on Load at it (internal/config).
use multivendor_hsm_pki.Prelude.{
  ◌≡◌, refl, String, none, some, [], string_eq, pos, ok, err, contains, lookup,
}
use multivendor_hsm_pki.Clock.{hours, wrap64}
use multivendor_hsm_pki.Profile.{
  lookup_profile, validate_set, check_profiles, check_profile, validate_profile, check_rdns,
  asserts_some,
}
use multivendor_hsm_pki.Profile.Valid.{load_profiles, chosen_profiles}
use multivendor_hsm_pki.Ca.{validate_url}
use multivendor_hsm_pki.Profile.Builtin.{builtin}
use multivendor_hsm_pki.Entitlement.{name_ip, any_ip, parse_pattern, cut, name_type_of, ip_matcher}
use multivendor_hsm_pki.Entitlement.Compile.{
  parse, parse_specs, compile, compile_profiles, compile_names,
}
use multivendor_hsm_pki.Text.{is_blank}
use multivendor_hsm_pki.Prelude.{insert, ◌∷◌}
use multivendor_hsm_pki.Config.{check_entitlements, check_grants, check_revokers}
use multivendor_hsm_pki.Config.Load.{validate_clients}
use multivendor_hsm_pki.Entitlement.Tests.{toy_net}
use multivendor_hsm_pki.Ca.Tests.{toy_x509}
use multivendor_hsm_pki.Config.{
  Config, default_session_options, selected_vendor, role_by_name, parse_session, parse_curve,
  validate_base_url, check_floor,
}
use multivendor_hsm_pki.Config.Load.{
  Host, Loaded, load, check_config, check_vendor, check_paths, validate_authenticated_surface,
  validate_ocsp, validate_responder,
}
use multivendor_hsm_pki.Config.Loaded.{IsSafe}
use multivendor_hsm_pki.Config.Accepted.{load-IsSafe}

abbrev toy_document : Config
toy_document = record {
  listen_addr = ":8080";
  tls = some (record { listen_addr = ":8443"; key_label = "tls-v1"; cert_path = "tls.pem" });
  pkcs11 = record {
    adapter = "softhsm2";
    session = record { idle_timeout = ""; max_ttl = "" };
    softhsm2 = some (record {
      module_path = "/lib/softhsm2.so";
      workspace_label = "ica";
      pin_env = "PIN";
      role = "";
    });
    protectserver = none;
    luna = none;
  };
  ca = record {
    curve_name = "P-256";
    cert_ttl_hours = pos 8760;
    profiles = none;
    ocsp = some (record { key_label = "ocsp-v1"; subject = "" });
    intermediate_key_label = "ica-v1";
    intermediate_cert_path = "ica.pem";
    root_cert_path = "root.pem";
    root_crl_path = "root.crl";
    base_url = "https://pki.test";
    crl_validity_hours = pos 0;
    store_path = "store.db";
    crl_number_floor = "";
  };
  api = record {
    issuers = ("alice", record { profiles = "tls-server" ∷ []; names = "ip:*" ∷ [] }) ∷ [];
    revokers = "bob" ∷ [];
  };
}

abbrev toy_host : Host String
toy_host = record {
  read_file = λ path. ok [];
  unmarshal = λ bytes. ok toy_document;
  lookup_env = λ name. some "1234";
  parse_duration = λ raw. err "no duration";
}

abbrev toy_loaded : Loaded toy_net
toy_loaded = record {
  config = record toy_document { ca = record toy_document.ca { crl_validity_hours = pos 24 } };
  session_options = default_session_options;
  profile_set = builtin;
  entitlements =
      (
        "alice",
        record {
          profiles = "tls-server" ∷ [];
          names = record { name_type = name_ip; raw = "*"; matcher = any_ip } ∷ [];
        },
      )
      ∷ [];
}

loads : load toy_host toy_x509 toy_net "config.yaml" ≡ ok toy_loaded
unfolding load check_config selected_vendor check_vendor role_by_name parse_session parse_curve
    load_profiles chosen_profiles validate_set check_profiles check_profile validate_profile
    check_rdns asserts_some check_paths validate_base_url validate_url check_floor
    validate_authenticated_surface validate_ocsp validate_responder lookup_profile hours wrap64
    lookup contains validate_clients check_entitlements check_grants check_revokers parse
    parse_specs is_blank insert compile compile_profiles compile_names parse_pattern cut
    name_type_of ip_matcher
loads = refl

load-IsSafe_example : IsSafe toy_loaded
load-IsSafe_example = load-IsSafe toy_host toy_x509 toy_net "config.yaml" toy_loaded loads
