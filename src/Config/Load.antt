-- ===== src/Config/Load.antt =====
-- Load of internal/config/config.go, with validateAuthenticatedSurface and validateOCSP.
use multivendor_hsm_pki.Prelude.{
  Bool, false, not, ◌||◌, String, Option, none, some, [], ◌==◌, string_eq, int_eq, ℤ, pos, Result,
  ok, err, ◌>>=◌, ◌>>◌, refuse_if, length, nat_beq, Assoc, if◌then◌else◌,
}
use multivendor_hsm_pki.Clock.{Duration, exceeds, hours}
use multivendor_hsm_pki.Profile.{Set, lookup_profile}
use multivendor_hsm_pki.Profile.Valid.{load_profiles}
use multivendor_hsm_pki.Entitlement.{Net, Entitlement, internal_only_profile}
use multivendor_hsm_pki.Entitlement.Compile as Compile
use multivendor_hsm_pki.Ca.{Bytes, X509, wrap_err}
use multivendor_hsm_pki.Config.{
  TlsConfig, VendorConfig, OcspConfig, CaConfig, Config, SessionOptions, ConfigError, unreadable,
  unparsed, is_empty, pin_not_set, pin_empty, not_positive, bad_profiles, clients_without_tls,
  same_listener, same_key_label, no_issuers, bad_issuers, no_revokers, no_responder_profile,
  role_by_name, selected_vendor, parse_curve, parse_session, validate_base_url, check_floor,
  check_entitlements, check_revokers,
}

pub record Host (E : Type 0) : Type 0 where
  pub read_file : String → Result E Bytes
  pub unmarshal : Bytes → Result E Config
  pub lookup_env : String → Option String
  pub parse_duration : String → Result E Duration

-- The configuration, with the fields that Load derives.
pub record Loaded (net : Net) : Type 0 where
  pub config : Config
  pub session_options : SessionOptions
  pub profile_set : Set
  pub entitlements : Assoc String (Entitlement net)

abbrev pub default_crl_validity_hours : ℤ
default_crl_validity_hours = pos 24

abbrev pub hours_or_default : ℤ → ℤ
hours_or_default n = if n == pos 0 then default_crl_validity_hours else n

abbrev pub has_label : Option TlsConfig → String → Bool
has_label none label = false
has_label (some t) label = label == t.key_label

module _ {E : Type 0} where
  -- The clients that are configured beside a TLS listener.
  unfoldable pub validate_clients :
      (net : Net)
      → Config
      → Set
      → TlsConfig
      → Result (ConfigError E) (Assoc String (Entitlement net))
  validate_clients net c set t = do
    refuse_if (t.listen_addr == "") (is_empty "server.tls.listen_addr")
    refuse_if (t.key_label == "") (is_empty "server.tls.key_label")
    refuse_if (t.cert_path == "") (is_empty "server.tls.cert_path")
    refuse_if (t.listen_addr == c.listen_addr) same_listener
    refuse_if (t.key_label == c.ca.intermediate_key_label) same_key_label
    refuse_if (nat_beq (length c.api.issuers) 0) no_issuers
    ents ← wrap_err bad_issuers (Compile.parse net c.api.issuers)
    check_entitlements set ents
    refuse_if (nat_beq (length c.api.revokers) 0) no_revokers
    check_revokers [] c.api.revokers
    ok ents

  abbrev pub surface :
      (net : Net)
      → Config
      → Set
      → Option TlsConfig
      → Result (ConfigError E) (Assoc String (Entitlement net))
  surface net c set none = do
    refuse_if (not (nat_beq (length c.api.issuers) 0) || not (nat_beq (length c.api.revokers) 0))
        clients_without_tls
    ok []
  surface net c set (some t) = validate_clients net c set t

  -- Config.validateAuthenticatedSurface
  unfoldable pub validate_authenticated_surface :
      (net : Net) → Config → Set → Result (ConfigError E) (Assoc String (Entitlement net))
  validate_authenticated_surface net c set = surface net c set c.tls

  unfoldable pub validate_responder : Config → Set → OcspConfig → Result (ConfigError E) (Unit {0})
  validate_responder c set o = do
    refuse_if (o.key_label == "") (is_empty "ca.ocsp.key_label")
    refuse_if (o.key_label == c.ca.intermediate_key_label) same_key_label
    refuse_if (has_label c.tls o.key_label) same_key_label
    found ← wrap_err (λ e. no_responder_profile) (lookup_profile set internal_only_profile)
    ok tt

  abbrev pub responder : Config → Set → Option OcspConfig → Result (ConfigError E) (Unit {0})
  responder c set none = ok tt
  responder c set (some o) = validate_responder c set o

  -- Config.validateOCSP
  unfoldable pub validate_ocsp : Config → Set → Result (ConfigError E) (Unit {0})
  validate_ocsp c set = responder c set c.ca.ocsp

  abbrev pub pin_of : String → Option String → Result (ConfigError E) (Unit {0})
  pin_of name none = err (pin_not_set name)
  pin_of name (some pin) = refuse_if (pin == "") (pin_empty name)

  unfoldable pub check_vendor : Host E → String → VendorConfig → Result (ConfigError E) (Unit {0})
  check_vendor h adapter v = do
    refuse_if (v.module_path == "") (is_empty "module_path")
    refuse_if (v.workspace_label == "") (is_empty "workspace_label")
    refuse_if (v.pin_env == "") (is_empty "pin_env")
    role ← role_by_name adapter v.role
    pin_of v.pin_env (h.lookup_env v.pin_env)

  unfoldable pub check_paths : CaConfig → Result (ConfigError E) (Unit {0})
  check_paths ca = do
    refuse_if (ca.intermediate_key_label == "") (is_empty "ca.intermediate_key_label")
    refuse_if (ca.intermediate_cert_path == "") (is_empty "ca.intermediate_cert_path")
    refuse_if (ca.root_cert_path == "") (is_empty "ca.root_cert_path")
    refuse_if (ca.root_crl_path == "") (is_empty "ca.root_crl_path")
    refuse_if (ca.store_path == "") (is_empty "ca.store_path")
    refuse_if (ca.base_url == "") (is_empty "ca.base_url")

  -- The checks of a decoded configuration.
  unfoldable pub check_config :
      Host E → X509 E → (net : Net) → Config → Result (ConfigError E) (Loaded net)
  check_config h x net c = do
    vendor ← selected_vendor c.pkcs11
    check_vendor h c.pkcs11.adapter vendor
    options ← parse_session h.parse_duration c.pkcs11.session
    curve ← parse_curve c.ca.curve_name
    refuse_if (not (exceeds c.ca.cert_ttl_hours (pos 0))) not_positive
    set ← wrap_err bad_profiles (load_profiles c.ca.profiles (hours c.ca.cert_ttl_hours))
    check_paths c.ca
    validate_base_url x c.ca.base_url
    check_floor c.ca.crl_number_floor
    ents ← validate_authenticated_surface net c set
    validate_ocsp c set
    ok (record {
      config = record c {
        ca = record c.ca { crl_validity_hours = hours_or_default c.ca.crl_validity_hours };
      };
      session_options = options;
      profile_set = set;
      entitlements = ents;
    })

  -- Load
  unfoldable pub load : Host E → X509 E → (net : Net) → String → Result (ConfigError E) (Loaded net)
  load h x net path = do
    bytes ← wrap_err unreadable (h.read_file path)
    c ← wrap_err unparsed (h.unmarshal bytes)
    check_config h x net c
