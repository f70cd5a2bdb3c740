-- ===== src/Ca/Startup.antt =====
-- What the CA checks of the certificates that it is started with, or that it re-issues under:
-- internal/ca/intermediate.go, service.go and reissue.go. Files stands for os, encoding/pem, bytes and for
-- x509.Certificate.CheckSignatureFrom; the outcomes of the token login and of NewSigner are arguments.
pub mod Trusted
pub mod Serving
pub mod Tests
use multivendor_hsm_pki.Prelude.{
  ℕ, ◌*◌, ◌≡◌, Bool, true, false, not, ◌&&◌, String, Option, none, some, List, [], ◌∷◌, ◌==◌,
  string_eq, nat_eq, int_eq, ℤ, pos, Result, ok, err, ◌>>=◌, ◌>>◌, refuse_if, length, nat_beq,
  contains, if◌then◌else◌,
}
use multivendor_hsm_pki.Clock.{Time, Duration, hour, add, after, before}
use multivendor_hsm_pki.Profile.{PublicKey, ecdsa, rsa, other_key}
use multivendor_hsm_pki.Profile.Vocabulary.{server_auth}
use multivendor_hsm_pki.Ca.{
  Bytes, Certificate, X509, UrlError, LeafDistribution, Ca, wrap_err, validate_distribution,
}

pub record Files (E : Type 0) : Type 0 where
  pub read_file : String → Result E Bytes
  -- the bytes of the first block, and what follows it
  pub decode_pem : Bytes → Option (Bytes × Bytes)
  pub trim_space : Bytes → Bytes
  -- child.CheckSignatureFrom(parent)
  pub check_signature_from : (child parent : Certificate) → Result E (Unit {0})

pub data StartupError (E : Type 0) : Type 0 where
  bad_distribution : UrlError E → StartupError E
  login_failed : E → StartupError E
  unreadable : E → StartupError E
  no_pem_block : StartupError E
  more_than_one_block : StartupError E
  unparsed : E → StartupError E
  not_an_intermediate : StartupError E
  root_certificate_rejected : StartupError E
  not_self_signed : E → StartupError E
  issuer_not_valid : StartupError E
  validity_exceeds_issuer : StartupError E
  no_signer : E → StartupError E
  key_cert_mismatch : StartupError E
  no_issuer : StartupError E
  not_a_service_certificate : StartupError E
  not_signed_by_issuer : E → StartupError E

abbrev pub default_intermediate_validity : Duration
default_intermediate_validity = pos (5 * 365 * 24 * hour)

-- ecdsa.PublicKey.Equal of the points
unfoldable pub same_point : List ℕ → List ℕ → Bool
same_point [] [] = true
same_point (a ∷ p) (b ∷ q) = a == b && same_point p q
same_point _ _ = false

abbrev pub is_ok : {E A : Type 0} → Result E A → Bool
is_ok (ok a) = true
is_ok (err e) = false

-- The default of checkRootMaySign.
abbrev pub validity_or_default : Duration → Duration
validity_or_default validity = if validity == pos 0 then default_intermediate_validity else validity

module _ {E : Type 0} (x : X509 E) (f : Files E) where
  abbrev pub block_of : Option (Bytes × Bytes) → Result (StartupError E) (Bytes × Bytes)
  block_of none = err no_pem_block
  block_of (some found) = ok found

  abbrev pub only_block : Bytes × Bytes → Result (StartupError E) Bytes
  only_block (block, rest) = do
    refuse_if (not (nat_beq (length (f.trim_space rest)) 0)) more_than_one_block
    ok block

  -- loadCertPEM
  unfoldable pub load_cert_pem : String → Result (StartupError E) Certificate
  load_cert_pem path = do
    data_read ← wrap_err unreadable (f.read_file path)
    found ← block_of (f.decode_pem data_read)
    block ← only_block found
    wrap_err unparsed (x.parse_certificate block)

  -- checkIntermediateCert
  unfoldable pub check_intermediate_cert : Certificate → Time → Result (StartupError E) (Unit {0})
  check_intermediate_cert cert now = do
    refuse_if (not cert.basic_constraints_valid) not_an_intermediate
    refuse_if (not cert.is_ca) not_an_intermediate
    refuse_if (is_ok (f.check_signature_from cert cert)) root_certificate_rejected
    refuse_if (not cert.max_path_len_zero) not_an_intermediate
    refuse_if (not cert.key_usage.cert_sign) not_an_intermediate
    refuse_if (not cert.key_usage.crl_sign) not_an_intermediate
    refuse_if (before now cert.not_before) issuer_not_valid
    refuse_if (after now cert.not_after) issuer_not_valid

  -- checkKeyMatchesCert: the key of the token, then the key of the certificate
  unfoldable pub check_key_matches_cert : PublicKey → PublicKey → Result (StartupError E) (Unit {0})
  check_key_matches_cert (ecdsa curve point) (ecdsa curve' point') =
      refuse_if (not (curve' == curve && same_point point' point)) key_cert_mismatch
  check_key_matches_cert signer (ecdsa curve' point') = err key_cert_mismatch
  check_key_matches_cert signer (rsa bits material) = err key_cert_mismatch
  check_key_matches_cert signer (other_key material) = err key_cert_mismatch

  -- LoadIntermediate
  unfoldable pub load_intermediate :
      (path : String) (max_ttl : Duration) (dist : LeafDistribution) (login : Result E (Unit {0}))
      (signer : Result E PublicKey) (now : Time)
      → Result (StartupError E) Ca
  load_intermediate path max_ttl dist login signer now = do
    wrap_err bad_distribution (validate_distribution x dist)
    wrap_err login_failed login
    cert ← load_cert_pem path
    check_intermediate_cert cert now
    key ← wrap_err no_signer signer
    check_key_matches_cert key cert.public_key
    ok (record { cert = cert; max_ttl = max_ttl; dist = dist })

  -- checkServiceCert
  unfoldable pub check_service_cert :
      (leaf issuer : Certificate) → Time → Result (StartupError E) (Unit {0})
  check_service_cert leaf issuer now = do
    refuse_if leaf.is_ca not_a_service_certificate
    refuse_if (not (contains leaf.ext_key_usages server_auth)) not_a_service_certificate
    refuse_if (before now leaf.not_before) issuer_not_valid
    refuse_if (after now leaf.not_after) issuer_not_valid
    wrap_err not_signed_by_issuer (f.check_signature_from leaf issuer)

  abbrev pub the_issuer : Option Certificate → Result (StartupError E) Certificate
  the_issuer none = err no_issuer
  the_issuer (some issuer) = ok issuer

  -- LoadServiceCertificate: the chain that is presented, and the leaf
  unfoldable pub load_service_certificate :
      (path : String) (issuer : Option Certificate) (signer : Result E PublicKey) (now : Time)
      → Result (StartupError E) (List Bytes × Certificate)
  load_service_certificate path found signer now = do
    issuer ← the_issuer found
    leaf ← load_cert_pem path
    check_service_cert leaf issuer now
    key ← wrap_err no_signer signer
    check_key_matches_cert key leaf.public_key
    ok (leaf.raw ∷ issuer.raw ∷ [], leaf)

  -- checkRootMaySign
  unfoldable pub check_root_may_sign :
      (root : Certificate) (inter_validity : Duration) (now : Time)
      → Result (StartupError E) (Unit {0})
  check_root_may_sign root inter_validity now = do
    refuse_if (not root.basic_constraints_valid) not_an_intermediate
    refuse_if (not root.is_ca) not_an_intermediate
    refuse_if (not root.key_usage.cert_sign) not_an_intermediate
    wrap_err not_self_signed (f.check_signature_from root root)
    refuse_if root.max_path_len_zero not_an_intermediate
    refuse_if (before now root.not_before) issuer_not_valid
    refuse_if (after now root.not_after) issuer_not_valid
    refuse_if (after (add now (validity_or_default inter_validity)) root.not_after)
        validity_exceeds_issuer
