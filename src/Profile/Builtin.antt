-- ===== src/Profile/Builtin.antt =====
-- Builtin of internal/profile/profile.go.
use multivendor_hsm_pki.Prelude.{ℕ, ◌*◌, true, false, String, some, List, [], ◌∷◌, pos}
use multivendor_hsm_pki.Clock.{Duration, hour}
use multivendor_hsm_pki.Profile.{
  no_usage, Profile, Set, san_dns, san_ip, san_uri, san_email, key_ec_p256, key_ec_p384,
  key_ec_p521, key_rsa,
}
use multivendor_hsm_pki.Profile.Vocabulary.{server_auth, client_auth, code_signing, ocsp_signing}

abbrev pub all_keys : List String
all_keys = key_ec_p256 ∷ key_ec_p384 ∷ key_ec_p521 ∷ key_rsa ∷ []

abbrev pub days : ℕ → Duration
days n = pos (n * 24 * hour)

abbrev pub tls_server : Profile
tls_server = record {
  name = "tls-server";
  ext_key_usages = server_auth ∷ [];
  key_usage = record no_usage { digital_signature = true; key_encipherment = true };
  san_types = san_dns ∷ san_ip ∷ [];
  san_required = true;
  subject_rdns = "CN" ∷ [];
  key_algorithms = all_keys;
  validity = days 90;
  ocsp_no_check = false;
}

abbrev pub tls_client : Profile
tls_client = record {
  name = "tls-client";
  ext_key_usages = client_auth ∷ [];
  key_usage = record no_usage { digital_signature = true; key_encipherment = true };
  san_types = san_uri ∷ san_email ∷ [];
  san_required = false;
  subject_rdns = "CN" ∷ "O" ∷ "OU" ∷ [];
  key_algorithms = all_keys;
  validity = days 90;
  ocsp_no_check = false;
}

abbrev pub code_signing_profile : Profile
code_signing_profile = record {
  name = "code-signing";
  ext_key_usages = code_signing ∷ [];
  key_usage = record no_usage { digital_signature = true };
  san_types = san_uri ∷ [];
  san_required = false;
  subject_rdns = "CN" ∷ "O" ∷ [];
  key_algorithms = all_keys;
  validity = days 365;
  ocsp_no_check = false;
}

abbrev pub ocsp_responder : Profile
ocsp_responder = record {
  name = "ocsp-responder";
  ext_key_usages = ocsp_signing ∷ [];
  key_usage = record no_usage { digital_signature = true };
  san_types = [];
  san_required = false;
  subject_rdns = "CN" ∷ [];
  key_algorithms = key_ec_p256 ∷ key_ec_p384 ∷ key_ec_p521 ∷ [];
  validity = days 7;
  ocsp_no_check = true;
}

abbrev pub builtin : Set
builtin =
    ("tls-server", some tls_server)
    ∷ ("tls-client", some tls_client)
    ∷ ("code-signing", some code_signing_profile)
    ∷ ("ocsp-responder", some ocsp_responder)
    ∷ []
