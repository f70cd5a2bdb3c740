-- ===== src/Profile.antt =====
-- internal/profile/profile.go: what a certificate may contain. A key usage is a set of flags, one
-- Boolean per bit of x509.KeyUsage; an extended key usage is its number in crypto/x509, and a type of
-- name or of key its text. A distinguished name is modelled by what FillFromRDNSequence makes of it.
pub mod Vocabulary
pub mod Names
pub mod Allowed
pub mod Signed
pub mod Configured
pub mod Valid
pub mod Builtin
pub mod Tests
use multivendor_hsm_pki.Prelude.{
  ℕ, Bool, true, false, ◌&&◌, ◌||◌, not, String, Option, none, some, List, [], ◌∷◌, ◌++◌, ◌==◌,
  nat_eq, string_eq, ℤ, pos, Result, ok, err, ◌>>=◌, ◌>>◌, refuse_if, length, ltb, nat_beq,
  contains, Assoc, lookup, if◌then◌else◌,
}
use multivendor_hsm_pki.Clock.{Duration, exceeds}

pub record KeyUsage : Type 0 where
  pub digital_signature : Bool
  pub content_commitment : Bool
  pub key_encipherment : Bool
  pub data_encipherment : Bool
  pub key_agreement : Bool
  pub cert_sign : Bool
  pub crl_sign : Bool
  pub encipher_only : Bool
  pub decipher_only : Bool

abbrev pub no_usage : KeyUsage
no_usage = record {
  digital_signature = false;
  content_commitment = false;
  key_encipherment = false;
  data_encipherment = false;
  key_agreement = false;
  cert_sign = false;
  crl_sign = false;
  encipher_only = false;
  decipher_only = false;
}

-- u | v
unfoldable pub union : KeyUsage → KeyUsage → KeyUsage
union u v = record {
  digital_signature = u.digital_signature || v.digital_signature;
  content_commitment = u.content_commitment || v.content_commitment;
  key_encipherment = u.key_encipherment || v.key_encipherment;
  data_encipherment = u.data_encipherment || v.data_encipherment;
  key_agreement = u.key_agreement || v.key_agreement;
  cert_sign = u.cert_sign || v.cert_sign;
  crl_sign = u.crl_sign || v.crl_sign;
  encipher_only = u.encipher_only || v.encipher_only;
  decipher_only = u.decipher_only || v.decipher_only;
}

-- u != 0
unfoldable pub asserts_some : KeyUsage → Bool
asserts_some u =
    u.digital_signature
    || (u.content_commitment
        || (u.key_encipherment
            || (u.data_encipherment
                || (u.key_agreement
                    || (u.cert_sign || (u.crl_sign || (u.encipher_only || u.decipher_only)))))))

abbrev pub Curve : Type 0
Curve = String

-- The dynamic type of a public key. `material` is the key itself, `bits` the length of an RSA modulus,
-- and a curve stands by its name.
pub data PublicKey : Type 0 where
  ecdsa : Curve → (material : List ℕ) → PublicKey
  rsa : (bits : ℕ) → (material : List ℕ) → PublicKey
  other_key : List ℕ → PublicKey

pub record Profile : Type 0 where
  pub name : String
  pub ext_key_usages : List ℕ
  pub key_usage : KeyUsage
  pub san_types : List String
  pub san_required : Bool
  pub subject_rdns : List String
  pub key_algorithms : List String
  pub validity : Duration
  pub ocsp_no_check : Bool

abbrev pub san_dns : String
san_dns = "dns"

abbrev pub san_ip : String
san_ip = "ip"

abbrev pub san_uri : String
san_uri = "uri"

abbrev pub san_email : String
san_email = "email"

abbrev pub key_ec_p256 : String
key_ec_p256 = "ec-p256"

abbrev pub key_ec_p384 : String
key_ec_p384 = "ec-p384"

abbrev pub key_ec_p521 : String
key_ec_p521 = "ec-p521"

abbrev pub key_rsa : String
key_rsa = "rsa"

abbrev pub min_rsa_key_bits : ℕ
min_rsa_key_bits = 2048

abbrev pub oid_ocsp_no_check : List ℕ
oid_ocsp_no_check = 1 ∷ 3 ∷ 6 ∷ 1 ∷ 5 ∷ 5 ∷ 7 ∷ 48 ∷ 1 ∷ 5 ∷ []

-- rdnOIDs
abbrev pub rdn_oids : Assoc String (List ℕ)
rdn_oids =
    ("CN", 2 ∷ 5 ∷ 4 ∷ 3 ∷ [])
    ∷ ("O", 2 ∷ 5 ∷ 4 ∷ 10 ∷ [])
    ∷ ("OU", 2 ∷ 5 ∷ 4 ∷ 11 ∷ [])
    ∷ ("C", 2 ∷ 5 ∷ 4 ∷ 6 ∷ [])
    ∷ ("ST", 2 ∷ 5 ∷ 4 ∷ 8 ∷ [])
    ∷ ("L", 2 ∷ 5 ∷ 4 ∷ 7 ∷ [])
    ∷ []

pub data ProfileError : Type 0 where
  no_profile_named : ProfileError
  unknown_profile : String → ProfileError
  no_profiles empty_name no_ext_key_usage no_key_usage ca_key_usage : ProfileError
  validity_not_positive no_key_algorithm no_san_type names_nothing : ProfileError
  nil_profile : String → ProfileError
  other_name : String → String → ProfileError
  unknown_rdn above_ceiling : String → ProfileError
  curve_not_accepted : Curve → ProfileError
  key_too_short : ℕ → ProfileError
  key_type_not_accepted : ProfileError
  algorithm_not_accepted : String → ProfileError
  san_not_allowed : String → ProfileError
  san_missing : ProfileError
  rdn_unknown : List ℕ → ProfileError
  rdn_not_allowed : String → ProfileError
  subject_empty : ProfileError
  unknown_word : String → ProfileError

abbrev pub Set : Type 0
Set = Assoc String (Option Profile)

-- Set.Lookup; a nil profile that is stored is returned as it is
unfoldable pub lookup_profile : Set → String → Result ProfileError (Option Profile)
lookup_profile set name = do
  refuse_if (name == "") no_profile_named
  elim (lookup name set) [ none ↦ err (unknown_profile name) | some p ↦ ok p ]

unfoldable pub check_rdns : List String → Result ProfileError (Unit {0})
check_rdns [] = ok tt
check_rdns (rdn ∷ rdns) = do
  elim (lookup rdn rdn_oids) [ none ↦ err (unknown_rdn rdn) | some oid ↦ ok tt ]
  check_rdns rdns

-- Profile.Validate
unfoldable pub validate_profile : Profile → Result ProfileError (Unit {0})
validate_profile p = do
  refuse_if (p.name == "") empty_name
  refuse_if (nat_beq (length p.ext_key_usages) 0) no_ext_key_usage
  refuse_if (not (asserts_some p.key_usage)) no_key_usage
  refuse_if (p.key_usage.cert_sign || p.key_usage.crl_sign) ca_key_usage
  refuse_if (not (exceeds p.validity (pos 0))) validity_not_positive
  refuse_if (nat_beq (length p.key_algorithms) 0) no_key_algorithm
  refuse_if (p.san_required && nat_beq (length p.san_types) 0) no_san_type
  refuse_if (nat_beq (length p.subject_rdns) 0 && not p.san_required) names_nothing
  check_rdns p.subject_rdns

-- The body of the loop of Set.Validate.
unfoldable pub check_profile : Duration → String → Option Profile → Result ProfileError (Unit {0})
check_profile max_validity name none = err (nil_profile name)
check_profile max_validity name (some p) = do
  refuse_if (not (p.name == name)) (other_name name p.name)
  validate_profile p
  refuse_if (exceeds max_validity (pos 0) && exceeds p.validity max_validity) (above_ceiling name)

unfoldable pub check_profiles : Duration → Set → Result ProfileError (Unit {0})
check_profiles max_validity [] = ok tt
check_profiles max_validity ((name, p) ∷ rest) = do
  check_profile max_validity name p
  check_profiles max_validity rest

-- Set.Validate. The order of Go's map iteration is not specified; this is one order.
unfoldable pub validate_set : Duration → Set → Result ProfileError (Unit {0})
validate_set max_validity set = do
  refuse_if (nat_beq (length set) 0) no_profiles
  check_profiles max_validity set

-- The switch of Profile.AllowsKey: the algorithm of the key.
unfoldable pub algorithm_of : PublicKey → Result ProfileError String
algorithm_of (ecdsa curve material) =
    if curve == "P-256"
    then ok key_ec_p256
    else if curve == "P-384"
    then ok key_ec_p384
    else if curve == "P-521"
    then ok key_ec_p521
    else err (curve_not_accepted curve)
algorithm_of (rsa bits material) =
    if ltb bits min_rsa_key_bits then err (key_too_short bits) else ok key_rsa
algorithm_of (other_key material) = err key_type_not_accepted

-- Profile.AllowsKey
unfoldable pub allows_key : Profile → PublicKey → Result ProfileError (Unit {0})
allows_key p key = do
  have ← algorithm_of key
  if contains p.key_algorithms have then ok tt else err (algorithm_not_accepted have)
