-- ===== src/Config.antt =====
-- internal/config/config.go, and the roles that an adapter defines (internal/pkcs11/roles.go): the
-- configuration as YAML gives it, and the checks of its parts. Host stands for os, gopkg.in/yaml.v3 and
-- time.ParseDuration. A loop over a map takes its entries in the order given.
pub mod Load
pub mod Loaded
pub mod Accepted
pub mod Tests
use multivendor_hsm_pki.Prelude.{
  ℕ, ◌*◌, Bool, true, false, not, ◌&&◌, ◌||◌, String, Option, none, some, List, [], ◌∷◌, ◌==◌,
  string_eq, ℤ, pos, negsuc, Result, ok, err, ◌>>=◌, ◌>>◌, refuse_if, contains, Assoc, lookup,
  if◌then◌else◌,
}
use multivendor_hsm_pki.Clock.{Duration, minute, hour, exceeds}
use multivendor_hsm_pki.Text.Decimal.{parse_decimal}
use multivendor_hsm_pki.Pkcs11.{EcCurve, p256, p384, p521}
use multivendor_hsm_pki.Profile.{Set, ProfileError, lookup_profile}
use multivendor_hsm_pki.Profile.Vocabulary as Vocabulary
use multivendor_hsm_pki.Entitlement.{Net, Entitlement, EntitlementError, internal_only_profile}
use multivendor_hsm_pki.Entitlement.Compile as Compile
use multivendor_hsm_pki.Ca.{Bytes, X509, Url, UrlError, validate_url, wrap_err}

pub record TlsConfig : Type 0 where
  pub listen_addr : String
  pub key_label : String
  pub cert_path : String

pub record ApiConfig : Type 0 where
  pub issuers : Assoc String Compile.Spec
  pub revokers : List String

pub record SessionConfig : Type 0 where
  pub idle_timeout : String
  pub max_ttl : String

pub record VendorConfig : Type 0 where
  pub module_path : String
  pub workspace_label : String
  pub pin_env : String
  pub role : String

pub record Pkcs11Config : Type 0 where
  pub adapter : String
  pub session : SessionConfig
  pub softhsm2 : Option VendorConfig
  pub protectserver : Option VendorConfig
  pub luna : Option VendorConfig

pub record OcspConfig : Type 0 where
  pub key_label : String
  pub subject : String

pub record CaConfig : Type 0 where
  pub curve_name : String
  pub cert_ttl_hours : ℤ
  pub profiles : Option (Assoc String Vocabulary.Spec)
  pub ocsp : Option OcspConfig
  pub intermediate_key_label : String
  pub intermediate_cert_path : String
  pub root_cert_path : String
  pub root_crl_path : String
  pub base_url : String
  pub crl_validity_hours : ℤ
  pub store_path : String
  pub crl_number_floor : String

pub record Config : Type 0 where
  pub listen_addr : String
  pub tls : Option TlsConfig
  pub pkcs11 : Pkcs11Config
  pub ca : CaConfig
  pub api : ApiConfig

pub record SessionOptions : Type 0 where
  pub idle_timeout : Duration
  pub max_ttl : Duration

pub data ConfigError (E : Type 0) : Type 0 where
  unreadable : E → ConfigError E
  unparsed : E → ConfigError E
  vendor_not_configured : String → ConfigError E
  unknown_adapter : String → ConfigError E
  unknown_role : String → ConfigError E
  is_empty : String → ConfigError E
  pin_not_set : String → ConfigError E
  pin_empty : String → ConfigError E
  bad_duration : E → ConfigError E
  not_positive : ConfigError E
  unknown_curve : String → ConfigError E
  bad_profiles : ProfileError → ConfigError E
  bad_url : UrlError E → ConfigError E
  not_a_url : E → ConfigError E
  query_or_fragment : ConfigError E
  floor_not_decimal : ConfigError E
  floor_negative : ConfigError E
  clients_without_tls : ConfigError E
  same_listener : ConfigError E
  same_key_label : ConfigError E
  no_issuers : ConfigError E
  bad_issuers : EntitlementError → ConfigError E
  undefined_grant : String → String → ConfigError E
  no_revokers : ConfigError E
  empty_revoker : ConfigError E
  revoker_twice : String → ConfigError E
  no_responder_profile : ConfigError E

abbrev pub default_session_options : SessionOptions
default_session_options = record { idle_timeout = pos (15 * minute); max_ttl = pos (8 * hour) }

abbrev pub adapter_softhsm2 : String
adapter_softhsm2 = "softhsm2"

abbrev pub adapter_protectserver : String
adapter_protectserver = "protectserver"

abbrev pub adapter_luna : String
adapter_luna = "luna"

-- adapterRoles: the roles of an adapter
abbrev pub adapter_roles : Assoc String (List String)
adapter_roles =
    (adapter_softhsm2, "co" ∷ [])
    ∷ (adapter_protectserver, "co" ∷ [])
    ∷ (adapter_luna, "co" ∷ "lco" ∷ "cu" ∷ [])
    ∷ []

abbrev pub role_or_default : String → String
role_or_default name = if name == "" then "co" else name

module _ {E : Type 0} where
  abbrev pub in_roles : String → Option (List String) → Result (ConfigError E) String
  in_roles name none = err (unknown_adapter name)
  in_roles name (some roles) = if contains roles name then ok name else err (unknown_role name)

  -- RoleByName
  unfoldable pub role_by_name : String → String → Result (ConfigError E) String
  role_by_name adapter name = in_roles (role_or_default name) (lookup adapter adapter_roles)

  abbrev pub configured : String → Option VendorConfig → Result (ConfigError E) VendorConfig
  configured adapter none = err (vendor_not_configured adapter)
  configured adapter (some vendor) = ok vendor

  -- PKCS11Config.selectedVendor
  unfoldable pub selected_vendor : Pkcs11Config → Result (ConfigError E) VendorConfig
  selected_vendor p =
      if p.adapter == adapter_softhsm2
      then configured p.adapter p.softhsm2
      else if p.adapter == adapter_protectserver
      then configured p.adapter p.protectserver
      else if p.adapter == adapter_luna
      then configured p.adapter p.luna
      else err (unknown_adapter p.adapter)

  -- ParseCurve
  unfoldable pub parse_curve : String → Result (ConfigError E) EcCurve
  parse_curve s =
      if s == "P-256"
      then ok p256
      else if s == "P-384"
      then ok p384
      else if s == "P-521"
      then ok p521
      else err (unknown_curve s)

  -- A duration of the session budget, if it is set.
  abbrev pub budget :
      (String → Result E Duration) → String → Duration → Result (ConfigError E) Duration
  budget parse_duration raw default =
      let given = do
        v ← wrap_err bad_duration (parse_duration raw)
        refuse_if (not (exceeds v (pos 0))) not_positive
        ok v
      in if raw == "" then ok default else given

  -- SessionConfig.parse
  unfoldable pub parse_session :
      (String → Result E Duration) → SessionConfig → Result (ConfigError E) SessionOptions
  parse_session parse_duration s = do
    idle ← budget parse_duration s.idle_timeout default_session_options.idle_timeout
    total ← budget parse_duration s.max_ttl default_session_options.max_ttl
    ok (record { idle_timeout = idle; max_ttl = total })

  -- validateBaseURL
  unfoldable pub validate_base_url : X509 E → String → Result (ConfigError E) (Unit {0})
  validate_base_url x raw = do
    wrap_err bad_url (validate_url x "ca.base_url" raw)
    u ← wrap_err not_a_url (x.parse_url raw)
    refuse_if (not (u.raw_query == "") || not (u.fragment == "")) query_or_fragment

  abbrev pub floor_of : Option ℤ → Result (ConfigError E) (Unit {0})
  floor_of none = err floor_not_decimal
  floor_of (some (pos n)) = ok tt
  floor_of (some (negsuc n)) = err floor_negative

  -- The check of ca.crl_number_floor in Load.
  unfoldable pub check_floor : String → Result (ConfigError E) (Unit {0})
  check_floor raw = if raw == "" then ok tt else floor_of (parse_decimal raw)

  -- Every granted profile is in the set: the loops over the identities and over their profiles.
  unfoldable pub check_grants : Set → String → List String → Result (ConfigError E) (Unit {0})
  check_grants set identity [] = ok tt
  check_grants set identity (name ∷ names) = do
    found ← wrap_err (λ e. undefined_grant identity name) (lookup_profile set name)
    check_grants set identity names

  unfoldable pub check_entitlements :
      {net : Net} → Set → Assoc String (Entitlement net) → Result (ConfigError E) (Unit {0})
  check_entitlements set [] = ok tt
  check_entitlements set ((identity, e) ∷ rest) = do
    check_grants set identity e.profiles
    check_entitlements set rest

  -- The loop over the revokers, with those seen so far.
  unfoldable pub check_revokers : List String → List String → Result (ConfigError E) (Unit {0})
  check_revokers seen [] = ok tt
  check_revokers seen (id ∷ ids) = do
    refuse_if (id == "") empty_revoker
    refuse_if (contains seen id) (revoker_twice id)
    check_revokers (id ∷ seen) ids
