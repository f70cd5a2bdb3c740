-- ===== src/Ca/Issue.antt =====
-- Issue of internal/ca/ca.go and what it calls: validateCSR, checkIssuerCanCover, keyUsageFor,
-- subjectKeyID. A nil profile is `none`.
use multivendor_hsm_pki.Prelude.{
  ℕ, ◌*◌, ◌-◌, Bool, true, false, not, String, Option, none, some, List, [], ◌∷◌, ◌==◌, ◌&&◌,
  string_eq, pos, Result, ok, err, ◌>>=◌, ◌>>◌, refuse_if, length, ltb, nat_beq, if◌then◌else◌,
}
use multivendor_hsm_pki.Clock.{Time, minute, add, after, before, exceeds}
use multivendor_hsm_pki.Profile.{
  KeyUsage, PublicKey, ecdsa, rsa, other_key, Profile, min_rsa_key_bits, oid_ocsp_no_check,
  allows_key,
}
use multivendor_hsm_pki.Profile.Names.{Name, Request, check_sans, subject_for}
use multivendor_hsm_pki.Ca.{
  Draw, Bytes, Certificate, Template, X509, IssueError, no_distribution_points, no_profile,
  invalid_csr_signature, empty_subject, disallowed_key_type, key_not_allowed, name_not_allowed,
  subject_not_allowed, validity_exceeds_policy, issuer_not_valid, validity_exceeds_issuer, failed,
  Ca, wrap_err, validate_distribution,
}
use multivendor_hsm_pki.Ca.Serial.{generate_serial}

abbrev pub issuance_clock_skew_allowance : ℕ
issuance_clock_skew_allowance = 5 * minute

-- keyUsageFor
unfoldable pub key_usage_for : PublicKey → KeyUsage → KeyUsage
key_usage_for (rsa bits material) from_profile = from_profile
key_usage_for (ecdsa curve material) from_profile = record from_profile { key_encipherment = false }
key_usage_for (other_key material) from_profile = record from_profile { key_encipherment = false }

abbrev pub known_curve : String → Bool
known_curve name =
    if name == "P-256" then true else if name == "P-384" then true else name == "P-521"

abbrev pub key_type_allowed : PublicKey → Bool
key_type_allowed (ecdsa curve material) = known_curve curve
key_type_allowed (rsa bits material) = not (ltb bits min_rsa_key_bits)
key_type_allowed (other_key material) = false

abbrev pub the_profile : {E : Type 0} → Option Profile → Result (IssueError E) Profile
the_profile none = err no_profile
the_profile (some p) = ok p

module _ {E : Type 0} (x : X509 E) where
  -- validateCSR
  unfoldable pub validate_csr : Request → Result (IssueError E) (Unit {0})
  validate_csr csr = do
    wrap_err invalid_csr_signature (x.check_signature csr)
    refuse_if (csr.subject.common_name == "" && nat_beq (length csr.subject.organization) 0)
        empty_subject
    refuse_if (not (key_type_allowed csr.public_key)) disallowed_key_type

  -- CA.checkIssuerCanCover
  unfoldable pub check_issuer_can_cover : Ca → Time → Time → Result (IssueError E) (Unit {0})
  check_issuer_can_cover c now not_after = do
    refuse_if (before now c.cert.not_before) issuer_not_valid
    refuse_if (after now c.cert.not_after) issuer_not_valid
    refuse_if (after not_after c.cert.not_after) validity_exceeds_issuer

  -- subjectKeyID
  unfoldable pub subject_key_id : PublicKey → Result (IssueError E) Bytes
  subject_key_id key = do der ← wrap_err failed (x.marshal_public_key key); ok (x.sha1 der)

-- The template of Issue.
unfoldable pub leaf_template : Ca → Request → Profile → Name → Time → ℕ → Bytes → Template
leaf_template c csr p subject now serial ski = record {
  serial = pos serial;
  subject = subject;
  not_before = now - issuance_clock_skew_allowance;
  not_after = add now p.validity;
  key_usage = key_usage_for csr.public_key p.key_usage;
  ext_key_usages = p.ext_key_usages;
  basic_constraints_valid = true;
  is_ca = false;
  subject_key_id = ski;
  authority_key_id = c.cert.subject_key_id;
  dns_names = csr.dns_names;
  ip_addresses = csr.ip_addresses;
  email_addresses = csr.email_addresses;
  uris = csr.uris;
  crl_distribution_points = c.dist.crl_url ∷ [];
  issuing_certificate_url = c.dist.issuer_cert_url ∷ [];
  ocsp_server = if c.dist.ocsp_url == "" then [] else c.dist.ocsp_url ∷ [];
  extra_extensions = if p.ocsp_no_check then (oid_ocsp_no_check, 5 ∷ 0 ∷ []) ∷ [] else [];
}

module _ {E : Type 0} (x : X509 E) where
  -- The policy checks of Issue, before anything is drawn or signed: the subject that is certified.
  unfoldable pub check_policy :
      Ca → Request → Option Profile → Time → Result (IssueError E) (Profile × Name)
  check_policy c csr found now = do
    wrap_err no_distribution_points (validate_distribution x c.dist)
    p ← the_profile found
    validate_csr x csr
    wrap_err key_not_allowed (allows_key p csr.public_key)
    wrap_err name_not_allowed (check_sans p csr)
    subject ← wrap_err subject_not_allowed (subject_for p csr.subject)
    refuse_if (exceeds c.max_ttl (pos 0) && exceeds p.validity c.max_ttl) validity_exceeds_policy
    check_issuer_can_cover x c now (add now p.validity)
    ok (p, subject)

  -- The rest of Issue.
  unfoldable pub sign_leaf :
      Ca → Request → Time → List Draw → Profile × Name → Result (IssueError E) Certificate
  sign_leaf c csr now draws (p, subject) = do
    serial ← generate_serial (failed x.random_failed) draws
    ski ← subject_key_id x csr.public_key
    der ←
        wrap_err failed (
          x.create_certificate (leaf_template c csr p subject now serial ski) c.cert csr.public_key)
    wrap_err failed (x.parse_certificate der)

  -- CA.Issue at the time `now`, with the buffers that the reader of random bytes will return
  unfoldable pub issue :
      Ca → Request → Option Profile → Time → List Draw → Result (IssueError E) Certificate
  issue c csr found now draws = do
    granted ← check_policy c csr found now
    sign_leaf c csr now draws granted
