-- ===== src/Ca/Tests.antt =====
-- A toy of crypto/x509, and the theorems on the certificate authority at it (internal/ca).
use multivendor_hsm_pki.Prelude.{
  ℕ, zero, suc, ◌<◌, ◌*◌, arith, ◌≡◌, ◌↔◌, refl, true, false, String, Option, some, List, [], ◌∷◌,
  ℤ, pos, negsuc, Result, ok, err, All, string_eq, contains,
}
use multivendor_hsm_pki.Clock.{Time, hour}
use multivendor_hsm_pki.Profile.{ecdsa, Profile, no_usage, algorithm_of, allows_key}
use multivendor_hsm_pki.Profile.Builtin.{tls_server}
use multivendor_hsm_pki.Profile.Names.{
  Name, empty_name, Request, rdn_short_name, fill, check_sans, count_sans, subject_for, keep_rdns,
  short_name_in, set_attribute, set_field,
}
use multivendor_hsm_pki.Ca.{
  Draw, Bytes, Certificate, Template, X509, Ca, validate_url, validate_distribution, failed,
}
use multivendor_hsm_pki.Ca.Serial.{
  value, value_from, generate_serial, IsDraw, IsDrawn, generate_serial_exact,
}
use multivendor_hsm_pki.Ca.Issue.{
  leaf_template, issue, subject_key_id, key_usage_for, validate_csr, check_issuer_can_cover,
  check_policy, sign_leaf,
}
use multivendor_hsm_pki.Ca.Permitted.{Permitted}
use multivendor_hsm_pki.Ca.Issued.{SignedFrom, IsLeafOf, issue_iff, issued_leaf}

abbrev pub toy_certificate : ℤ → Certificate
toy_certificate serial = record {
  raw = elim serial [ pos n ↦ n ∷ [] | negsuc n ↦ [] ];
  serial = serial;
  subject = empty_name;
  not_before = 0;
  not_after = 10000 * hour;
  public_key = ecdsa "P-256" [];
  key_usage = no_usage;
  ext_key_usages = [];
  basic_constraints_valid = true;
  is_ca = false;
  max_path_len_zero = false;
  subject_key_id = [];
}

-- A certificate is written as its serial.
abbrev pub toy_parse : Bytes → Result String Certificate
toy_parse (n ∷ []) = ok (toy_certificate (pos n))
toy_parse _ = err "not a certificate"

abbrev pub toy_create : Template → Bytes
toy_create t = elim t.serial [ pos n ↦ n ∷ [] | negsuc n ↦ [] ]

abbrev pub toy_x509 : X509 String
toy_x509 = record {
  check_signature = λ csr. ok tt;
  marshal_public_key = λ key. ok (7 ∷ []);
  sha1 = λ b. b;
  create_certificate = λ t c key. ok (toy_create t);
  parse_certificate = toy_parse;
  create_crl = λ l c. ok (1 ∷ []);
  parse_url =
      λ raw. ok (record { scheme = "https"; host = "pki.test"; raw_query = ""; fragment = "" });
  random_failed = "no entropy";
}

abbrev pub toy_ca : Ca
toy_ca = record {
  cert = toy_certificate (pos 1);
  max_ttl = pos (2160 * hour);
  dist = record {
    crl_url = "https://pki.test/crl";
    issuer_cert_url = "https://pki.test/i.crt";
    ocsp_url = "";
  };
}

abbrev pub toy_subject : Name
toy_subject = record empty_name {
  common_name = "a";
  names = record { oid = 2 ∷ 5 ∷ 4 ∷ 3 ∷ []; text = some "a" } ∷ [];
}

abbrev pub toy_request : Request
toy_request = record {
  signed = [];
  subject = toy_subject;
  public_key = ecdsa "P-256" (7 ∷ []);
  dns_names = "a.test" ∷ [];
  ip_addresses = [];
  uris = [];
  email_addresses = [];
}

-- n bytes, of which the last is b and the others are zeros
unfoldable pub ending_in : ℕ → Draw
ending_in b zero = []
ending_in b (suc zero) = b ∷ []
ending_in b (suc (suc n)) = 0 ∷ ending_in b (suc n)

abbrev pub toy_draws : List Draw
toy_draws = ending_in 0 ∷ ending_in 5 ∷ []

pub ending_in-IsDraw : (b : ℕ) → b < 256 → IsDraw (ending_in b)
unfolding ending_in
ending_in-IsDraw b small zero = (refl, tt)
ending_in-IsDraw b small (suc zero) = (refl, (small, tt))
ending_in-IsDraw b small (suc (suc n)) =
    let (long, bytes) = ending_in-IsDraw b small (suc n) in
    (omega (arith, long), (ground arith, bytes))

toy_draws-IsDraw : All IsDraw toy_draws
toy_draws-IsDraw = (ending_in-IsDraw 0 (ground arith), (ending_in-IsDraw 5 (ground arith), tt))

-- All zeros are drawn again.
redraw : generate_serial {E = String} "no entropy" toy_draws ≡ ok 5
unfolding generate_serial value value_from ending_in
redraw = refl

generate_serial_exact_example :
    IsDrawn {E = String} "no entropy" toy_draws (generate_serial "no entropy" toy_draws)
generate_serial_exact_example = generate_serial_exact "no entropy" toy_draws toy_draws-IsDraw

abbrev some_profile : Profile → Option Profile
some_profile p = some p

abbrev pub toy_now : Time
toy_now = 100 * hour

-- The whole of Issue, from the request to the parsed certificate.
pub issued :
    issue toy_x509 toy_ca toy_request (some tls_server) toy_now toy_draws
    ≡ ok (toy_certificate (pos 5))
unfolding issue check_policy validate_distribution validate_url validate_csr allows_key algorithm_of
    check_sans count_sans subject_for keep_rdns rdn_short_name short_name_in check_issuer_can_cover
    sign_leaf generate_serial value value_from ending_in subject_key_id leaf_template fill
    set_attribute set_field key_usage_for contains
issued = refl

issue_iff_example :
    (issue toy_x509 toy_ca toy_request (some tls_server) toy_now toy_draws
      ≡ ok (toy_certificate (pos 5)))
    ↔ ((p : Profile) × (n : ℕ) × (ski : Bytes) × (some_profile tls_server ≡ some p)
        × Permitted toy_x509 toy_ca toy_request toy_now p
        × (generate_serial (failed toy_x509.random_failed) toy_draws ≡ ok n)
        × (subject_key_id toy_x509 toy_request.public_key ≡ ok ski)
        × SignedFrom toy_x509 toy_ca toy_request toy_now toy_draws
            (leaf_template toy_ca toy_request p
              (fill toy_request.subject.names empty_name)
              toy_now
              n
              ski)
            (toy_certificate (pos 5)))
issue_iff_example =
    issue_iff toy_x509 toy_ca toy_request toy_now toy_draws (some tls_server)
      (toy_certificate (pos 5))

issued_leaf_example :
    (t : Template) × IsLeafOf toy_x509 toy_ca toy_request toy_now toy_draws tls_server t
    × SignedFrom toy_x509 toy_ca toy_request toy_now toy_draws t (toy_certificate (pos 5))
issued_leaf_example =
    issued_leaf toy_x509 toy_ca toy_request toy_now toy_draws tls_server (toy_certificate (pos 5))
      refl refl toy_draws-IsDraw issued
