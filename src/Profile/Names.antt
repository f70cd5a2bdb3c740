-- ===== src/Profile/Names.antt =====
-- CheckSANs and Subject of internal/profile/profile.go: the names of a request against a profile.
use multivendor_hsm_pki.Prelude.{
  ℕ, ◌+◌, Bool, true, false, ◌&&◌, not, String, Option, none, some, List, [], ◌∷◌, ◌++◌, ◌==◌,
  nat_eq, string_eq, Result, ok, err, ◌>>=◌, ◌>>◌, refuse_if, length, nat_beq, contains, Assoc,
  if◌then◌else◌,
}
use multivendor_hsm_pki.Profile.{
  PublicKey, Profile, san_dns, san_ip, san_uri, san_email, rdn_oids, ProfileError, san_not_allowed,
  san_missing, rdn_unknown, rdn_not_allowed, subject_empty,
}

-- The value of an attribute is a text or a value of another type, which FillFromRDNSequence skips.
pub record Attribute : Type 0 where
  pub oid : List ℕ
  pub text : Option String

-- pkix.Name without ExtraNames, which nothing here sets
pub record Name : Type 0 where
  pub country : List String
  pub organization : List String
  pub organizational_unit : List String
  pub locality : List String
  pub province : List String
  pub street_address : List String
  pub postal_code : List String
  pub serial_number : String
  pub common_name : String
  pub names : List Attribute

abbrev pub empty_name : Name
empty_name = record {
  country = [];
  organization = [];
  organizational_unit = [];
  locality = [];
  province = [];
  street_address = [];
  postal_code = [];
  serial_number = "";
  common_name = "";
  names = [];
}

-- The switch of FillFromRDNSequence on the last arc of an attribute below 2.5.4.
unfoldable pub set_field : ℕ → String → Name → Name
set_field arc v n =
    if nat_beq arc 3
    then record n { common_name = v }
    else if nat_beq arc 5
    then record n { serial_number = v }
    else if nat_beq arc 6
    then record n { country = n.country ++ v ∷ [] }
    else if nat_beq arc 7
    then record n { locality = n.locality ++ v ∷ [] }
    else if nat_beq arc 8
    then record n { province = n.province ++ v ∷ [] }
    else if nat_beq arc 9
    then record n { street_address = n.street_address ++ v ∷ [] }
    else if nat_beq arc 10
    then record n { organization = n.organization ++ v ∷ [] }
    else if nat_beq arc 11
    then record n { organizational_unit = n.organizational_unit ++ v ∷ [] }
    else if nat_beq arc 17
    then record n { postal_code = n.postal_code ++ v ∷ [] }
    else n

unfoldable pub set_attribute : List ℕ → Option String → Name → Name
unfolding set_field
set_attribute (a ∷ b ∷ c ∷ arc ∷ []) (some v) n =
    if nat_beq a 2 && (nat_beq b 5 && nat_beq c 4) then set_field arc v n else n
set_attribute _ _ n = n

-- Name.FillFromRDNSequence on one RDN
unfoldable pub fill : List Attribute → Name → Name
fill [] n = n
fill (atv ∷ atvs) n =
    fill atvs (set_attribute atv.oid atv.text (record n { names = n.names ++ atv ∷ [] }))

-- What the code reads of an x509.CertificateRequest. `signed` is what CheckSignature verifies; an IP
-- address or a URI stands as its text.
pub record Request : Type 0 where
  pub signed : List ℕ
  pub subject : Name
  pub public_key : PublicKey
  pub dns_names : List String
  pub ip_addresses : List String
  pub uris : List String
  pub email_addresses : List String

-- The loop of CheckSANs: how many names are present.
unfoldable pub count_sans : Profile → Assoc String ℕ → ℕ → Result ProfileError ℕ
count_sans p [] present = ok present
count_sans p ((t, n) ∷ rest) present =
    let counted = count_sans p rest (present + n) in
    let skipped = count_sans p rest present in
    if nat_beq n 0
    then skipped
    else if contains p.san_types t
    then counted
    else err (san_not_allowed t)

abbrev pub sans_of : Request → Assoc String ℕ
sans_of csr =
    (san_dns, length csr.dns_names)
    ∷ (san_ip, length csr.ip_addresses)
    ∷ (san_uri, length csr.uris)
    ∷ (san_email, length csr.email_addresses)
    ∷ []

-- Profile.CheckSANs. The order of Go's map iteration is not specified; this is one order.
unfoldable pub check_sans : Profile → Request → Result ProfileError (Unit {0})
check_sans p csr = do
  present ← count_sans p (sans_of csr) 0
  refuse_if (p.san_required && nat_beq present 0) san_missing

abbrev pub same_oid : List ℕ → List ℕ → Bool
same_oid [] [] = true
same_oid (a ∷ rest) (b ∷ others) = a == b && same_oid rest others
same_oid _ _ = false

-- rdnShortName
unfoldable pub short_name_in : Assoc String (List ℕ) → List ℕ → Option String
short_name_in [] oid = none
short_name_in ((name, o) ∷ rest) oid =
    let below = short_name_in rest oid in if same_oid o oid then some name else below

unfoldable pub rdn_short_name : List ℕ → Option String
rdn_short_name oid = short_name_in rdn_oids oid

-- The loop of Subject over the attributes of the request.
abbrev pub known_rdn : List ℕ → Option String → Result ProfileError String
known_rdn oid none = err (rdn_unknown oid)
known_rdn oid (some short) = ok short

unfoldable pub keep_rdns :
    Profile → List Attribute → List Attribute → Result ProfileError (List Attribute)
keep_rdns p [] kept = ok kept
keep_rdns p (atv ∷ atvs) kept = do
  short ← known_rdn atv.oid (rdn_short_name atv.oid)
  refuse_if (not (contains p.subject_rdns short)) (rdn_not_allowed short)
  keep_rdns p atvs (kept ++ atv ∷ [])

-- Profile.Subject
unfoldable pub subject_for : Profile → Name → Result ProfileError Name
subject_for p requested = do
  kept ← keep_rdns p requested.names []
  refuse_if (nat_beq (length kept) 0 && not p.san_required) subject_empty
  ok (fill kept empty_name)
