-- ===== src/Ca/Startup/Tests.antt =====
-- A toy of crypto/x509 that keeps what it signs, and the theorems on start-up at it (internal/ca).
use multivendor_hsm_pki.Prelude.{
  ℕ, zero, suc, pos, ◌*◌, ◌≡◌, ◌↔◌, refl, Bool, true, false, String, some, List, [], ◌∷◌, inl,
  Result, ok, err, contains, arith,
}
use multivendor_hsm_pki.Clock.{hour}
use multivendor_hsm_pki.Profile.{PublicKey, ecdsa, no_usage, algorithm_of, allows_key}
use multivendor_hsm_pki.Profile.Builtin.{tls_server}
use multivendor_hsm_pki.Profile.Names.{
  rdn_short_name, fill, check_sans, count_sans, subject_for, keep_rdns, short_name_in,
  set_attribute, set_field,
}
use multivendor_hsm_pki.Ca.{
  Bytes, Certificate, Template, X509, Ca, validate_url, validate_distribution,
}
use multivendor_hsm_pki.Ca.Serial.{value, value_from, generate_serial}
use multivendor_hsm_pki.Ca.Issue.{
  leaf_template, issue, subject_key_id, key_usage_for, validate_csr, check_issuer_can_cover,
  check_policy, sign_leaf,
}
use multivendor_hsm_pki.Ca.Tests.{
  toy_certificate, toy_x509, toy_ca, toy_request, toy_draws, ending_in, toy_now,
}
use multivendor_hsm_pki.Ca.Startup.{
  Files, load_intermediate, load_cert_pem, check_intermediate_cert, check_key_matches_cert,
  same_point, check_service_cert,
}
use multivendor_hsm_pki.Ca.Startup.Trusted.{Loadable, load_intermediate_iff}
use multivendor_hsm_pki.Ca.Startup.Serving.{IsSigner, issued_serves}

abbrev toy_key : PublicKey
toy_key = ecdsa "P-256" (1 ∷ [])

abbrev toy_intermediate : Certificate
toy_intermediate = record (toy_certificate (pos 1)) {
  raw = 2 ∷ [];
  is_ca = true;
  max_path_len_zero = true;
  public_key = toy_key;
  key_usage = record no_usage { cert_sign = true; crl_sign = true };
}

-- A certificate is written as whether it is one of a CA, and its extended usages.
abbrev toy_leaf : Bool → List ℕ → Certificate
toy_leaf ca usages = record (toy_certificate (pos 5)) {
  raw = [];
  is_ca = ca;
  ext_key_usages = usages;
}

abbrev written : Bool → List ℕ → Bytes
written true usages = 1 ∷ usages
written false usages = 0 ∷ usages

abbrev read : Bytes → Result String Certificate
read (zero ∷ usages) = ok (toy_leaf false usages)
read (suc zero ∷ usages) = ok (toy_leaf true usages)
read (suc (suc n) ∷ usages) = ok toy_intermediate
read [] = err "not a certificate"

abbrev keeping : X509 String
keeping = record toy_x509 {
  create_certificate = λ t parent key. ok (written t.is_ca t.ext_key_usages);
  parse_certificate = read;
}

-- Only the intermediate has a raw encoding here, and it is not signed by itself.
abbrev signed_by : Bytes → Result String (Unit {0})
signed_by [] = ok tt
signed_by (b ∷ bs) = err "not the parent"

abbrev toy_files : Files String
toy_files = record {
  read_file = λ path. ok (2 ∷ []);
  decode_pem = λ bytes. some (bytes, []);
  trim_space = λ bytes. bytes;
  check_signature_from = λ child parent. signed_by child.raw;
}

fields_of :
    (ca : Bool) (usages : List ℕ) (cert : Certificate)
    → read (written ca usages) ≡ ok cert
    → (cert.is_ca ≡ ca) × (cert.ext_key_usages ≡ usages) × (signed_by cert.raw ≡ ok tt)
fields_of true usages cert h = ground arith
fields_of false usages cert h = ground arith

abbrev written_ok : Template → Result String Bytes
written_ok t = ok (written t.is_ca t.ext_key_usages)

read-written :
    (t : Template) (der : Bytes) (cert : Certificate)
    → written_ok t ≡ ok der
    → read der ≡ ok cert
    → read (written t.is_ca t.ext_key_usages) ≡ ok cert
read-written t der cert signed parsed = cc

keeping-IsSigner : IsSigner keeping toy_files
keeping-IsSigner = record {
  kept = λ t parent key der cert signed parsed.
      (let (leaf, usages, _) =
          fields_of t.is_ca t.ext_key_usages cert (read-written t der cert signed parsed) in
        (leaf, usages));
  accepted = λ t parent key der cert valid ca may signed parsed.
      (fields_of t.is_ca t.ext_key_usages cert (read-written t der cert signed parsed)).2;
}

abbrev loaded_ca : Ca
loaded_ca = record { cert = toy_intermediate; max_ttl = pos (2160 * hour); dist = toy_ca.dist }

loads :
    load_intermediate keeping toy_files "i.pem"
      (pos (2160 * hour))
      toy_ca.dist
      (ok tt)
      (ok toy_key)
      0
    ≡ ok loaded_ca
unfolding load_intermediate validate_distribution validate_url load_cert_pem check_intermediate_cert
    check_key_matches_cert same_point
loads = refl

issues :
    issue keeping loaded_ca toy_request (some tls_server) toy_now toy_draws
    ≡ ok (toy_leaf false (1 ∷ []))
unfolding issue check_policy validate_distribution validate_url validate_csr allows_key algorithm_of
    check_sans count_sans subject_for keep_rdns rdn_short_name short_name_in check_issuer_can_cover
    sign_leaf generate_serial value value_from ending_in subject_key_id leaf_template fill
    set_attribute set_field key_usage_for contains
issues = refl

load_intermediate_iff_example :
    (load_intermediate keeping toy_files "i.pem"
        (pos (2160 * hour))
        toy_ca.dist
        (ok tt)
        (ok toy_key)
        0
      ≡ ok loaded_ca)
    ↔ Loadable keeping toy_files "i.pem"
        (pos (2160 * hour))
        toy_ca.dist
        (ok tt)
        (ok toy_key)
        0
        loaded_ca
load_intermediate_iff_example =
    load_intermediate_iff keeping toy_files "i.pem" (pos (2160 * hour)) toy_ca.dist (ok tt)
      (ok toy_key) 0 loaded_ca

issued_serves_example :
    check_service_cert keeping toy_files (toy_leaf false (1 ∷ [])) loaded_ca.cert toy_now ≡ ok tt
issued_serves_example =
    issued_serves keeping toy_files keeping-IsSigner "i.pem" (pos (2160 * hour)) toy_ca.dist (ok tt)
      (ok toy_key) 0 toy_now toy_now loaded_ca toy_request tls_server toy_draws
      (toy_leaf false (1 ∷ [])) loads issues (inl refl) (ground arith) (ground arith)
