-- ===== src/Config/Accepted.antt =====
-- Load of internal/config/config.go as a whole: what it returns is safe to start with.
use multivendor_hsm_pki.Prelude.{
  ◌≡◌, ◌≢◌, inl, inr, refl, true, not, String, Option, none, some, Assoc, pos, Result, ok,
  >>=-eq-ok, refuse_if-eq-ok, int_eq, arith,
}
use mathlib.Core.Path.{subst}
use multivendor_hsm_pki.Clock.{exceeds, hours}
use multivendor_hsm_pki.Profile.{Set}
use multivendor_hsm_pki.Profile.Valid.{load_profiles}
use multivendor_hsm_pki.Entitlement.{Net, Entitlement, internal_only_profile}
use multivendor_hsm_pki.Ca.{X509, wrap_err, wrapped}
use multivendor_hsm_pki.Config.{
  TlsConfig, OcspConfig, Config, SessionConfig, SessionOptions, ConfigError, bad_profiles,
  not_positive, unreadable, unparsed, default_session_options, selected_vendor, budget,
  parse_session, parse_curve, validate_base_url, check_floor,
}
use multivendor_hsm_pki.Config.Load.{
  Host, Loaded, hours_or_default, validate_authenticated_surface, responder, validate_ocsp,
  check_vendor, check_paths, check_config, load,
}
use multivendor_hsm_pki.Config.Loaded.{
  IsDefined, HasClients, IsSafe, surface_sound, validate_responder_sound, budget_positive,
}

module _ {E : Type 0} (h : Host E) (x : X509 E) (net : Net) where
  own_key :
      (c : Config) (set : Set) (ents : Assoc String (Entitlement net)) (t : TlsConfig)
      → HasClients c set ents
      → c.tls ≡ some t
      → t.key_label ≢ c.ca.intermediate_key_label
  own_key c set ents t (inl (unset, _, _, _)) with_tls = absurd cc
  own_key c set ents t (inr (u, set_, _, apart, _, _, _, _, _, _)) with_tls =
      let same : u ≡ t = cc in rw same at apart

  responder_sound :
      (c : Config) (set : Set) (found : Option OcspConfig) (o : OcspConfig)
      → responder {E = E} c set found ≡ ok tt
      → found ≡ some o
      → (o.key_label ≢ c.ca.intermediate_key_label)
        × ((t : TlsConfig) → c.tls ≡ some t → o.key_label ≢ t.key_label)
        × IsDefined set internal_only_profile
  responder_sound c set none o ready here = absurd cc
  responder_sound c set (some p) o ready here =
      let same : p ≡ o = ground arith in rw same at (validate_responder_sound c set p ready)

  parse_session_sound :
      (s : SessionConfig) (options : SessionOptions)
      → parse_session h.parse_duration s ≡ ok options
      → (exceeds options.idle_timeout (pos 0) ≡ true) × (exceeds options.max_ttl (pos 0) ≡ true)
  unfolding parse_session
  parse_session_sound s options done =
      let (idle, h1, h2) =
        >>=-eq-ok (budget h.parse_duration s.idle_timeout default_session_options.idle_timeout) _
          done in
      let (total, h3, h4) =
        >>=-eq-ok (budget h.parse_duration s.max_ttl default_session_options.max_ttl) _ h2 in
      (
        (ground (
          arith,
          h4,
          budget_positive h.parse_duration s.idle_timeout default_session_options.idle_timeout idle
              refl h1,
        )),
        (ground (
          arith,
          h4,
          budget_positive h.parse_duration s.max_ttl default_session_options.max_ttl total refl h3,
        )),
      )

  abbrev built : Config → SessionOptions → Set → Assoc String (Entitlement net) → Loaded net
  built c options set ents = record {
    config = record c {
      ca = record c.ca { crl_validity_hours = hours_or_default c.ca.crl_validity_hours };
    };
    session_options = options;
    profile_set = set;
    entitlements = ents;
  }

  abbrev result_of : Loaded net → Result (ConfigError E) (Loaded net)
  result_of l = ok l

  safe :
      (c : Config) (options : SessionOptions) (set : Set) (ents : Assoc String (Entitlement net))
      (l : Loaded net)
      → result_of (built c options set ents) ≡ ok l
      → HasClients c set ents
      → responder {E = E} c set c.ca.ocsp ≡ ok tt
      → load_profiles c.ca.profiles (hours c.ca.cert_ttl_hours) ≡ ok set
      → exceeds c.ca.cert_ttl_hours (pos 0) ≡ true
      → (exceeds options.idle_timeout (pos 0) ≡ true) × (exceeds options.max_ttl (pos 0) ≡ true)
      → IsSafe l
  safe c options set ents l done clients ready profiles lasting (idle, total) =
      let same : built c options set ents ≡ l = ground (arith, done) in
      let all : IsSafe (built c options set ents) = (
        (
          (λ t with_tls. own_key c set ents t clients with_tls),
          (λ o here.
              (let (own, others, _) = responder_sound c set c.ca.ocsp o ready here in
                (own, others))),
        ),
        clients,
        (λ o here. (responder_sound c set c.ca.ocsp o ready here).2),
        profiles,
        lasting,
        idle,
        total,
      ) in
      subst (λ k. IsSafe k) same all

  -- A configuration that Load returns gives no key two purposes; has no TLS listener, no issuers and no
  -- revokers, or a TLS listener of its own, some issuers that are granted only profiles that exist, and some
  -- revokers, each named once and by a name; has the profile of the responder if it has a responder; has
  -- exactly the profiles that loadProfiles accepts below its ceiling, of a positive number of hours; and
  -- positive limits of a session.
  pub load-IsSafe : (path : String) (l : Loaded net) → load h x net path ≡ ok l → IsSafe l
  unfolding load check_config validate_authenticated_surface validate_ocsp
  load-IsSafe path l done =
      let (bytes, _, h1) = >>=-eq-ok (wrap_err unreadable (h.read_file path)) _ done in
      let (c, _, h2) = >>=-eq-ok (wrap_err unparsed (h.unmarshal bytes)) _ h1 in
      let (vendor, _, h3) = >>=-eq-ok (selected_vendor {E = E} c.pkcs11) _ h2 in
      let (_, _, h4) = >>=-eq-ok (check_vendor h c.pkcs11.adapter vendor) _ h3 in
      let (options, budgets, h5) =
        >>=-eq-ok (parse_session h.parse_duration c.pkcs11.session) _ h4 in
      let (curve, _, h6) = >>=-eq-ok (parse_curve {E = E} c.ca.curve_name) _ h5 in
      let (lasting, h7) =
        refuse_if-eq-ok (not (exceeds c.ca.cert_ttl_hours (pos 0))) not_positive _ l h6 in
      let (set, profiles, h8) =
        >>=-eq-ok (wrap_err bad_profiles (load_profiles c.ca.profiles (hours c.ca.cert_ttl_hours)))
          _ h7 in
      let (_, _, h9) = >>=-eq-ok (check_paths {E = E} c.ca) _ h8 in
      let (_, _, h10) = >>=-eq-ok (validate_base_url x c.ca.base_url) _ h9 in
      let (_, _, h11) = >>=-eq-ok (check_floor {E = E} c.ca.crl_number_floor) _ h10 in
      let (ents, clients, h12) =
        >>=-eq-ok (validate_authenticated_surface {E = E} net c set) _ h11 in
      let (_, ready, h13) = >>=-eq-ok (validate_ocsp {E = E} c set) _ h12 in
      safe c options set ents l h13 (surface_sound c set c.tls ents refl clients) ready
        ((wrapped bad_profiles (load_profiles c.ca.profiles (hours c.ca.cert_ttl_hours)) set).0
          profiles)
        (ground (arith, lasting)) (parse_session_sound c.pkcs11.session options budgets)
