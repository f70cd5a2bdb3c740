-- ===== src/Config/Loaded.antt =====
-- What a configuration that Load of internal/config/config.go accepts is.
use multivendor_hsm_pki.Prelude.{
  ◌≡◌, ◌≢◌, ◌⊎◌, Bool-cases, refuse_if, ◌>>=◌, ◌>>◌, inl, inr, true, false, not, ◌||◌, String,
  Option, none, some, List, [], ◌∷◌, ◌==◌, string_eq, int_eq, pos, Result, ok, >>=-eq-ok,
  refuse_if-eq-ok, length, length_zero, nat_beq, contains, contains-cons_false, All, Pairwise,
  Assoc, arith,
}
use multivendor_hsm_pki.Clock.{Duration, exceeds, hours}
use multivendor_hsm_pki.Profile.{Set, Profile, ProfileError, lookup_profile}
use multivendor_hsm_pki.Profile.Valid.{load_profiles}
use multivendor_hsm_pki.Entitlement.{Net, Entitlement, internal_only_profile}
use multivendor_hsm_pki.Entitlement.Compile as Compile
use multivendor_hsm_pki.Ca.{wrap_err, wrapped}
use multivendor_hsm_pki.Config.{
  TlsConfig, OcspConfig, Config, ConfigError, is_empty, same_listener, same_key_label, no_issuers,
  bad_issuers, no_revokers, no_responder_profile, clients_without_tls, empty_revoker, revoker_twice,
  undefined_grant, budget, bad_duration, not_positive, check_grants, check_entitlements,
  check_revokers,
}
use multivendor_hsm_pki.Config.Load.{
  Loaded, has_label, validate_clients, surface, validate_responder,
}

-- The set has an entry of that name.
abbrev pub IsDefined : Set → String → Type 0
IsDefined set name = (p : Option Profile) × (lookup_profile set name ≡ ok p)

abbrev pub AreGranted : {net : Net} → Set → String × Entitlement net → Type 0
AreGranted set (identity, e) = All (IsDefined set) e.profiles

unseen :
    (x : String) (seen ids : List String)
    → All (λ id. contains (x ∷ seen) id ≡ false) ids
    → All (λ id. x ≢ id) ids × All (λ id. contains seen id ≡ false) ids
unseen x seen [] h = (tt, tt)
unseen x seen (id ∷ ids) (here, rest) =
    let (other, new) = (contains-cons_false x id seen).0 here in
    let (others, news) = unseen x seen ids rest in ((other, others), (new, news))

module _ {E : Type 0} where
  abbrev refused_grant : String → String → ProfileError → ConfigError E
  refused_grant identity name e = undefined_grant identity name

  check_grants_sound :
      (set : Set) (identity : String) (names : List String)
      → check_grants {E = E} set identity names ≡ ok tt
      → All (IsDefined set) names
  unfolding check_grants
  check_grants_sound set identity [] h = tt
  check_grants_sound set identity (name ∷ names) h =
      let (p, found, h1) =
        >>=-eq-ok (wrap_err (refused_grant identity name) (lookup_profile set name)) _ h in
      (
        (p, (wrapped (refused_grant identity name) (lookup_profile set name) p).0 found),
        check_grants_sound set identity names h1,
      )

  check_entitlements_sound :
      {net : Net} (set : Set) (ents : Assoc String (Entitlement net))
      → check_entitlements {E = E} set ents ≡ ok tt
      → All (AreGranted set) ents
  unfolding check_entitlements
  check_entitlements_sound set [] h = tt
  check_entitlements_sound set ((identity, e) ∷ rest) h =
      let (_, granted, h1) = >>=-eq-ok (check_grants {E = E} set identity e.profiles) _ h in
      (check_grants_sound set identity e.profiles granted, check_entitlements_sound set rest h1)

  check_revokers_sound :
      (seen ids : List String)
      → check_revokers {E = E} seen ids ≡ ok tt
      → All (λ id. id ≢ "") ids × Pairwise ◌≢◌ ids × All (λ id. contains seen id ≡ false) ids
  unfolding check_revokers
  check_revokers_sound seen [] h = (tt, tt, tt)
  check_revokers_sound seen (id ∷ ids) h =
      let (named, h1) = refuse_if-eq-ok (id == "") empty_revoker _ tt h in
      let (new, h2) = refuse_if-eq-ok (contains seen id) (revoker_twice id) _ tt h1 in
      let (all_named, apart, unseen_too) = check_revokers_sound (id ∷ seen) ids h2 in
      let (others, news) = unseen id seen ids unseen_too in
      ((ground (arith, string_eq.beq_iff id ""), all_named), (others, apart), (new, news))

-- No key has two purposes.
abbrev pub HasSeparateKeys : Config → Type 0
HasSeparateKeys c =
    ((t : TlsConfig) → c.tls ≡ some t → t.key_label ≢ c.ca.intermediate_key_label)
    × ((o : OcspConfig)
        → c.ca.ocsp ≡ some o
        → (o.key_label ≢ c.ca.intermediate_key_label)
          × ((t : TlsConfig) → c.tls ≡ some t → o.key_label ≢ t.key_label))

module _ {E : Type 0} where
  pub budget_positive :
      (parse_duration : String → Result E Duration) (raw : String) (default v : Duration)
      → exceeds default (pos 0) ≡ true
      → budget parse_duration raw default ≡ ok v
      → exceeds v (pos 0) ≡ true
  budget_positive parse_duration raw default v positive h = elim (Bool-cases (raw == "")) [
    | inl unset ↦ ground (arith, unset, positive, h)
    | inr set_ ↦ given (rw set_ at h)
  ]
    where
      given :
          (wrap_err bad_duration (parse_duration raw) >>= λ w.
          refuse_if (not (exceeds w (pos 0))) not_positive >> ok w)
            ≡ ok v
          → exceeds v (pos 0) ≡ true
      given h1 =
          let (w, _, h2) = >>=-eq-ok (wrap_err bad_duration (parse_duration raw)) _ h1 in
          let (positive, h3) = refuse_if-eq-ok (not (exceeds w (pos 0))) not_positive _ v h2 in
          ground (arith, positive, h3)

  pub validate_responder_sound :
      (c : Config) (set : Set) (o : OcspConfig)
      → validate_responder {E = E} c set o ≡ ok tt
      → (o.key_label ≢ c.ca.intermediate_key_label)
        × ((t : TlsConfig) → c.tls ≡ some t → o.key_label ≢ t.key_label)
        × IsDefined set internal_only_profile
  unfolding validate_responder
  validate_responder_sound c set o h =
      let (_, h1) = refuse_if-eq-ok (o.key_label == "") (is_empty "ca.ocsp.key_label") _ tt h in
      let (own, h2) =
        refuse_if-eq-ok (o.key_label == c.ca.intermediate_key_label) same_key_label _ tt h1 in
      let (other, h3) = refuse_if-eq-ok (has_label c.tls o.key_label) same_key_label _ tt h2 in
      let (p, found, _) =
        >>=-eq-ok (wrap_err missing (lookup_profile set internal_only_profile)) _ h3 in
      (
        ground (arith, string_eq.beq_iff o.key_label c.ca.intermediate_key_label),
        (λ t with_tls. not_its o.key_label c.tls t with_tls other),
        (p, (wrapped missing (lookup_profile set internal_only_profile) p).0 found),
      )
    where
      missing : ProfileError → ConfigError E
      missing e = no_responder_profile

      not_its :
          (label : String) (tls : Option TlsConfig) (t : TlsConfig)
          → tls ≡ some t
          → has_label tls label ≡ false
          → label ≢ t.key_label
      not_its label none t e free = absurd cc
      not_its label (some u) t e free = ground (arith, string_eq.beq_iff label u.key_label)

module _ {net : Net} where
  -- Write endpoints and the clients that may use them come together, and every granted profile exists.
  abbrev pub HasClients : Config → Set → Assoc String (Entitlement net) → Type 0
  HasClients c set ents =
      ((c.tls ≡ none) × (c.api.issuers ≡ []) × (c.api.revokers ≡ []) × (ents ≡ []))
      ⊎ ((t : TlsConfig) × (c.tls ≡ some t)
          × (t.listen_addr ≢ c.listen_addr)
          × (t.key_label ≢ c.ca.intermediate_key_label)
          × (Compile.parse net c.api.issuers ≡ ok ents)
          × All (AreGranted set) ents
          × (c.api.issuers ≢ [])
          × (c.api.revokers ≢ [])
          × All (λ id. id ≢ "") c.api.revokers
          × Pairwise ◌≢◌ c.api.revokers)

  module _ {E : Type 0} where
    validate_clients_sound :
        (c : Config) (set : Set) (t : TlsConfig) (ents : Assoc String (Entitlement net))
        → c.tls ≡ some t
        → validate_clients {E = E} net c set t ≡ ok ents
        → HasClients c set ents
    unfolding validate_clients
    validate_clients_sound c set t ents with_tls h =
        let (_, h1) =
          refuse_if-eq-ok (t.listen_addr == "") (is_empty "server.tls.listen_addr") _ ents h in
        let (_, h2) =
          refuse_if-eq-ok (t.key_label == "") (is_empty "server.tls.key_label") _ ents h1 in
        let (_, h3) =
          refuse_if-eq-ok (t.cert_path == "") (is_empty "server.tls.cert_path") _ ents h2 in
        let (listeners, h4) =
          refuse_if-eq-ok (t.listen_addr == c.listen_addr) same_listener _ ents h3 in
        let (keys, h5) =
          refuse_if-eq-ok (t.key_label == c.ca.intermediate_key_label) same_key_label _ ents h4 in
        let (issuers, h6) =
          refuse_if-eq-ok (nat_beq (length c.api.issuers) 0) no_issuers _ ents h5 in
        let (parsed, h7, h8) =
          >>=-eq-ok (wrap_err bad_issuers (Compile.parse net c.api.issuers)) _ h6 in
        let (_, granted, h9) = >>=-eq-ok (check_entitlements {E = E} set parsed) _ h8 in
        let (revokers, h10) =
          refuse_if-eq-ok (nat_beq (length c.api.revokers) 0) no_revokers _ ents h9 in
        let (_, listed, h11) = >>=-eq-ok (check_revokers {E = E} [] c.api.revokers) _ h10 in
        let same : parsed ≡ ents = ground (arith, h11) in
        let (named, apart, _) = check_revokers_sound [] c.api.revokers listed in
        inr (
          t,
          with_tls,
          ground (arith, string_eq.beq_iff t.listen_addr c.listen_addr),
          ground (arith, string_eq.beq_iff t.key_label c.ca.intermediate_key_label),
          (wrapped bad_issuers (Compile.parse net c.api.issuers) ents).0 (rw same at h7),
          rw same at (check_entitlements_sound set parsed granted),
          ground (arith, length_zero c.api.issuers),
          ground (arith, length_zero c.api.revokers),
          named,
          apart,
        )

    pub surface_sound :
        (c : Config) (set : Set) (tls : Option TlsConfig) (ents : Assoc String (Entitlement net))
        → c.tls ≡ tls
        → surface {E = E} net c set tls ≡ ok ents
        → HasClients c set ents
    surface_sound c set none ents e h =
        let (unset, h1) =
          refuse_if-eq-ok
            (not (nat_beq (length c.api.issuers) 0) || not (nat_beq (length c.api.revokers) 0))
            clients_without_tls _ ents h in
        inl (
          e,
          ground (arith, length_zero c.api.issuers),
          ground (arith, length_zero c.api.revokers),
          ground (arith, h1),
        )
    surface_sound c set (some t) ents e h = validate_clients_sound c set t ents e h

  -- What Load promises of a configuration that it returns.
  abbrev pub IsSafe : Loaded net → Type 0
  IsSafe l =
      HasSeparateKeys l.config
      × HasClients l.config l.profile_set l.entitlements
      × ((o : OcspConfig)
          → l.config.ca.ocsp ≡ some o
          → IsDefined l.profile_set internal_only_profile)
      × (load_profiles l.config.ca.profiles (hours l.config.ca.cert_ttl_hours) ≡ ok l.profile_set)
      × (exceeds l.config.ca.cert_ttl_hours (pos 0) ≡ true)
      × (exceeds l.session_options.idle_timeout (pos 0) ≡ true)
      × (exceeds l.session_options.max_ttl (pos 0) ≡ true)
