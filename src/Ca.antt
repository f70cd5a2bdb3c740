-- ===== src/Ca.antt =====
-- internal/ca/ca.go and errors.go: the certificate authority, its distribution URLs and its errors.
-- X509 stands for what the code calls of crypto/x509, crypto/rand, crypto/sha1 and net/url; the
-- signer of the issuer stands in create_certificate and create_crl. Bytes are numbers.
pub mod Serial
pub mod Issue
pub mod Permitted
pub mod Issued
pub mod Crl
pub mod Startup
pub mod Tests
use multivendor_hsm_pki.Prelude.{
  ℕ, ◌≡◌, ◌↔◌, Bool, true, not, arith, String, Option, none, some, List, [], ◌∷◌, ◌==◌, ◌&&◌,
  string_eq, ℤ, Result, ok, err, ◌>>=◌, ◌>>◌, refuse_if, if◌then◌else◌,
}
use multivendor_hsm_pki.Clock.{Time, Duration}
use multivendor_hsm_pki.Profile.{KeyUsage, PublicKey, ProfileError}
use multivendor_hsm_pki.Profile.Names.{Name, Request}

abbrev pub Bytes : Type 0
Bytes = List ℕ

-- One call of rand.Read: the bytes that it puts into a buffer of a length.
abbrev pub Draw : Type 0
Draw = ℕ → Bytes

-- An x509.Certificate that was parsed; `raw` is its DER.
pub record Certificate : Type 0 where
  pub raw : Bytes
  pub serial : ℤ
  pub subject : Name
  pub not_before : Time
  pub not_after : Time
  pub public_key : PublicKey
  pub key_usage : KeyUsage
  pub ext_key_usages : List ℕ
  pub basic_constraints_valid : Bool
  pub is_ca : Bool
  pub max_path_len_zero : Bool
  pub subject_key_id : Bytes

-- The x509.Certificate that Issue fills and hands to CreateCertificate.
pub record Template : Type 0 where
  pub serial : ℤ
  pub subject : Name
  pub not_before : Time
  pub not_after : Time
  pub key_usage : KeyUsage
  pub ext_key_usages : List ℕ
  pub basic_constraints_valid : Bool
  pub is_ca : Bool
  pub subject_key_id : Bytes
  pub authority_key_id : Bytes
  pub dns_names : List String
  pub ip_addresses : List String
  pub email_addresses : List String
  pub uris : List String
  pub crl_distribution_points : List String
  pub issuing_certificate_url : List String
  pub ocsp_server : List String
  pub extra_extensions : List (List ℕ × Bytes)

-- RevokedCert, and with the number and the window what CreateRevocationList is given
pub record RevokedCert : Type 0 where
  pub serial : ℤ
  pub revoked_at : Time
  pub reason_code : ℤ

pub record RevocationList : Type 0 where
  pub number : ℤ
  pub this_update : Time
  pub next_update : Time
  pub entries : List RevokedCert

pub record Url : Type 0 where
  pub scheme : String
  pub host : String
  pub raw_query : String
  pub fragment : String

pub record X509 (E : Type 0) : Type 0 where
  pub check_signature : Request → Result E (Unit {0})
  pub marshal_public_key : PublicKey → Result E Bytes
  pub sha1 : Bytes → Bytes
  pub create_certificate : Template → Certificate → PublicKey → Result E Bytes
  pub parse_certificate : Bytes → Result E Certificate
  pub create_crl : RevocationList → Certificate → Result E Bytes
  pub parse_url : String → Result E Url
  -- of rand.Read, once its source fails
  pub random_failed : E

pub data UrlError (E : Type 0) : Type 0 where
  not_set : String → UrlError E
  not_a_url : String → E → UrlError E
  wrong_scheme : String → String → UrlError E
  no_host : String → UrlError E

pub data IssueError (E : Type 0) : Type 0 where
  no_distribution_points : UrlError E → IssueError E
  no_profile : IssueError E
  invalid_csr_signature : E → IssueError E
  empty_subject : IssueError E
  disallowed_key_type : IssueError E
  key_not_allowed : ProfileError → IssueError E
  name_not_allowed : ProfileError → IssueError E
  subject_not_allowed : ProfileError → IssueError E
  validity_exceeds_policy : IssueError E
  issuer_not_valid : IssueError E
  validity_exceeds_issuer : IssueError E
  failed : E → IssueError E

pub record LeafDistribution : Type 0 where
  pub crl_url : String
  pub issuer_cert_url : String
  pub ocsp_url : String

-- The CA; its signer is in X509.
pub record Ca : Type 0 where
  pub cert : Certificate
  pub max_ttl : Duration
  pub dist : LeafDistribution

-- fmt.Errorf around an error of another type.
abbrev pub wrap_err : {D E A : Type 0} → (D → E) → Result D A → Result E A
wrap_err f (ok a) = ok a
wrap_err f (err e) = err (f e)

pub wrapped :
    {D E A : Type 0} (f : D → E) (r : Result D A) (a : A) → (wrap_err f r ≡ ok a) ↔ (r ≡ ok a)
wrapped f (ok b) a = ((λ h. ground arith), (λ h. ground arith))
wrapped f (err e) a = ((λ h. cc), (λ h. cc))

module _ {E : Type 0} (x : X509 E) where
  -- ValidateDistributionURL
  unfoldable pub validate_url : String → String → Result (UrlError E) (Unit {0})
  validate_url field raw = do
    refuse_if (raw == "") (not_set field)
    u ← wrap_err (not_a_url field) (x.parse_url raw)
    refuse_if (not (u.scheme == "http") && not (u.scheme == "https")) (wrong_scheme field u.scheme)
    refuse_if (u.host == "") (no_host field)

  -- LeafDistribution.Validate
  unfoldable pub validate_distribution : LeafDistribution → Result (UrlError E) (Unit {0})
  validate_distribution d = do
    validate_url "CRL distribution point" d.crl_url
    validate_url "AIA CA-Issuers URL" d.issuer_cert_url
    if d.ocsp_url == "" then ok tt else validate_url "AIA OCSP URL" d.ocsp_url
