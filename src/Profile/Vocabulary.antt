-- ===== src/Profile/Vocabulary.antt =====
-- The words of a configured profile, and Spec.Compile and Parse of internal/profile/profile.go.
use multivendor_hsm_pki.Prelude.{
  ℕ, Bool, true, String, none, some, List, [], ◌∷◌, ◌++◌, string_eq, ℤ, Result, ok, err, ◌>>=◌,
  ◌>>◌, refuse_if, length, nat_beq, Assoc, lookup, insert,
}
use multivendor_hsm_pki.Clock.{hours}
use multivendor_hsm_pki.Text.{is_blank}
use multivendor_hsm_pki.Profile.{
  KeyUsage, no_usage, union, Profile, Set, san_dns, san_ip, san_uri, san_email, key_ec_p256,
  key_ec_p384, key_ec_p521, key_rsa, ProfileError, unknown_word, no_profiles, empty_name,
}

abbrev pub server_auth : ℕ
server_auth = 1

abbrev pub client_auth : ℕ
client_auth = 2

abbrev pub code_signing : ℕ
code_signing = 3

abbrev pub ocsp_signing : ℕ
ocsp_signing = 9

abbrev pub ext_key_usage_names : Assoc String ℕ
ext_key_usage_names =
    ("serverAuth", server_auth)
    ∷ ("clientAuth", client_auth)
    ∷ ("codeSigning", code_signing)
    ∷ ("emailProtection", 4)
    ∷ ("timeStamping", 8)
    ∷ ("ocspSigning", ocsp_signing)
    ∷ []

abbrev pub key_usage_names : Assoc String KeyUsage
key_usage_names =
    ("digitalSignature", record no_usage { digital_signature = true })
    ∷ ("contentCommitment", record no_usage { content_commitment = true })
    ∷ ("keyEncipherment", record no_usage { key_encipherment = true })
    ∷ ("keyAgreement", record no_usage { key_agreement = true })
    ∷ []

abbrev pub san_type_names : Assoc String String
san_type_names = ("dns", san_dns) ∷ ("ip", san_ip) ∷ ("uri", san_uri) ∷ ("email", san_email) ∷ []

abbrev pub key_algorithm_names : Assoc String String
key_algorithm_names =
    ("ec-p256", key_ec_p256)
    ∷ ("ec-p384", key_ec_p384)
    ∷ ("ec-p521", key_ec_p521)
    ∷ ("rsa", key_rsa)
    ∷ []

pub record Spec : Type 0 where
  pub extended_key_usages : List String
  pub key_usages : List String
  pub san_types : List String
  pub san_required : Bool
  pub subject : List String
  pub key_algorithms : List String
  pub validity_hours : ℤ
  pub ocsp_no_check : Bool

module _ {V : Type 0} where
  -- v, ok := names[n]
  unfoldable pub word : Assoc String V → String → Result ProfileError V
  word names n = elim (lookup n names) [ none ↦ err (unknown_word n) | some v ↦ ok v ]

  -- A loop of Compile that appends what each word stands for.
  unfoldable pub read_words : Assoc String V → List String → List V → Result ProfileError (List V)
  read_words names [] out = ok out
  read_words names (n ∷ ns) out = do v ← word names n; read_words names ns (out ++ v ∷ [])

-- The loop that adds up the flags.
unfoldable pub read_usages : List String → KeyUsage → Result ProfileError KeyUsage
read_usages [] u = ok u
read_usages (n ∷ ns) u = do v ← word key_usage_names n; read_usages ns (union u v)

-- Spec.Compile
unfoldable pub compile_spec : Spec → String → Result ProfileError Profile
compile_spec s name = do
  ekus ← read_words ext_key_usage_names s.extended_key_usages []
  usage ← read_usages s.key_usages no_usage
  sans ← read_words san_type_names s.san_types []
  algorithms ← read_words key_algorithm_names s.key_algorithms []
  ok (record {
    name = name;
    ext_key_usages = ekus;
    key_usage = usage;
    san_types = sans;
    san_required = s.san_required;
    subject_rdns = s.subject;
    key_algorithms = algorithms;
    validity = hours s.validity_hours;
    ocsp_no_check = s.ocsp_no_check;
  })

unfoldable pub parse_set : Assoc String Spec → Set → Result ProfileError Set
parse_set [] set = ok set
parse_set ((name, spec) ∷ rest) set = do
  refuse_if (is_blank name) empty_name
  p ← compile_spec spec name
  parse_set rest (insert name (some p) set)

-- Parse. The order of Go's map iteration is not specified; this is one order.
unfoldable pub parse_profiles : Assoc String Spec → Result ProfileError Set
parse_profiles specs = do refuse_if (nat_beq (length specs) 0) no_profiles; parse_set specs []
