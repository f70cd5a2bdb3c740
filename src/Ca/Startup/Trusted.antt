-- ===== src/Ca/Startup/Trusted.antt =====
-- Which certificates the CA starts with (internal/ca/intermediate.go, service.go), and which root it may
-- re-issue under (internal/ca/reissue.go).
use multivendor_hsm_pki.Prelude.{
  ℕ, ◌≤◌, ◌≡◌, ◌≢◌, ◌↔◌, refl, sym, ap, ◌∙◌, true, false, String, Option, none, some, List, [], ◌∷◌,
  ◌==◌, string_eq, nat_eq, int_eq, Result, ok, err, >>=-eq-ok, length_zero, contains-Member, Member,
  arith,
}
use multivendor_hsm_pki.Clock.{Time, Duration, add}
use multivendor_hsm_pki.Profile.{PublicKey, ecdsa, rsa, other_key}
use multivendor_hsm_pki.Profile.Vocabulary.{server_auth}
use multivendor_hsm_pki.Ca.{
  Bytes, Certificate, X509, LeafDistribution, Ca, wrap_err, wrapped, validate_distribution,
}
use multivendor_hsm_pki.Ca.Startup.{
  Files, StartupError, same_point, is_ok, load_cert_pem, block_of, only_block,
  check_intermediate_cert, check_key_matches_cert, load_intermediate, check_service_cert,
  check_root_may_sign, validity_or_default, bad_distribution, login_failed, unreadable, unparsed,
  no_signer, not_signed_by_issuer, not_self_signed,
}

same_point_iff : (p q : List ℕ) → (same_point p q ≡ true) ↔ (p ≡ q)
unfolding same_point
same_point_iff [] [] = ((λ h. refl), (λ h. refl))
same_point_iff [] (b ∷ q) = ((λ h. cc), (λ h. cc))
same_point_iff (a ∷ p) [] = ((λ h. cc), (λ h. cc))
same_point_iff (a ∷ p) (b ∷ q) = ground (arith, nat_eq.beq_iff a b, same_point_iff p q)

module _ {E : Type 0} (x : X509 E) (f : Files E) where
  -- A certificate of the intermediate tier at a moment.
  abbrev pub IsIntermediate : Certificate → Time → Type 0
  IsIntermediate cert now =
      (cert.basic_constraints_valid ≡ true)
      × (cert.is_ca ≡ true)
      × (f.check_signature_from cert cert ≢ ok tt)
      × (cert.max_path_len_zero ≡ true)
      × (cert.key_usage.cert_sign ≡ true)
      × (cert.key_usage.crl_sign ≡ true)
      × (cert.not_before ≤ now)
      × (now ≤ cert.not_after)

  is_ok_iff : (r : Result E (Unit {0})) → (is_ok r ≡ false) ↔ (r ≢ ok tt)
  is_ok_iff (ok _) = ((λ h. absurd cc), (λ h. absurd (h refl)))
  is_ok_iff (err e) = ((λ h same. cc), (λ h. refl))

  check_intermediate_cert_iff :
      (cert : Certificate) (now : Time)
      → (check_intermediate_cert x f cert now ≡ ok tt) ↔ IsIntermediate cert now
  unfolding check_intermediate_cert
  check_intermediate_cert_iff cert now =
      ground (arith, is_ok_iff (f.check_signature_from cert cert))

  check_key_matches_cert_iff :
      (signer key : PublicKey)
      → (check_key_matches_cert x f signer key ≡ ok tt) ↔ (
          (curve : String) × (point : List ℕ) × (signer ≡ ecdsa curve point)
          × (key ≡ ecdsa curve point))
  unfolding check_key_matches_cert
  check_key_matches_cert_iff (ecdsa curve p) (ecdsa curve' p') = (
    (λ h.
        let same_curve : curve' ≡ curve = ground (arith, string_eq.beq_iff curve' curve) in
        let same : p' ≡ p = ground (arith, same_point_iff p' p) in (curve, p, refl, cc)),
    (λ (c, q, signer, key).
        let same_curve : (curve' == curve) ≡ true = (string_eq.beq_iff curve' curve).1 cc in
        let same : same_point p' p ≡ true = (same_point_iff p' p).1 cc in
        rw (same_curve, same, check_key_matches_cert) refl),
  )
  check_key_matches_cert_iff (rsa bits m) (ecdsa curve' p') =
      ((λ h. cc), (λ (c, q, signer, key). cc))
  check_key_matches_cert_iff (other_key m) (ecdsa curve' p') =
      ((λ h. cc), (λ (c, q, signer, key). cc))
  check_key_matches_cert_iff signer (rsa bits m) = ((λ h. cc), (λ (c, q, signer, key). cc))
  check_key_matches_cert_iff signer (other_key m) = ((λ h. cc), (λ (c, q, signer, key). cc))

  -- A file with one PEM block, which holds this certificate.
  abbrev pub Holds : String → Certificate → Type 0
  Holds path cert =
      (data_read : Bytes) × (block : Bytes) × (rest : Bytes) × (f.read_file path ≡ ok data_read)
      × (f.decode_pem data_read ≡ some (block, rest))
      × (f.trim_space rest ≡ [])
      × (x.parse_certificate block ≡ ok cert)

  block_of_ok :
      (found : Option (Bytes × Bytes)) (b : Bytes × Bytes)
      → block_of x f found ≡ ok b
      → found ≡ some b
  block_of_ok none b h = cc
  block_of_ok (some c) b h = ground arith

  only_block_ok :
      (block rest only : Bytes)
      → only_block x f (block, rest) ≡ ok only
      → (f.trim_space rest ≡ []) × (block ≡ only)
  only_block_ok block rest only h = ground (arith, length_zero (f.trim_space rest))

  load_cert_pem_iff :
      (path : String) (cert : Certificate) → (load_cert_pem x f path ≡ ok cert) ↔ Holds path cert
  unfolding load_cert_pem
  load_cert_pem_iff path cert = (
    (λ h.
        let (data_read, h0, h1) = >>=-eq-ok (wrap_err unreadable (f.read_file path)) _ h in
        let ((block, rest), h2, h3) = >>=-eq-ok (block_of x f (f.decode_pem data_read)) _ h1 in
        let (only, h4, h5) = >>=-eq-ok (only_block x f (block, rest)) _ h3 in
        let (trimmed, same) = only_block_ok block rest only h4 in
        (
          data_read,
          block,
          rest,
          (wrapped unreadable (f.read_file path) data_read).0 h0,
          block_of_ok (f.decode_pem data_read) (block, rest) h2,
          trimmed,
          (wrapped unparsed (x.parse_certificate block) cert).0
              (ap (λ b. wrap_err unparsed (x.parse_certificate b)) same ∙ h5),
        )),
    (λ (data_read, block, rest, h0, h1, h2, h3). rw (h0, load_cert_pem, h1, h2, h3) refl),
  )

  pub check_service_cert_iff :
      (leaf issuer : Certificate) (now : Time)
      → (check_service_cert x f leaf issuer now ≡ ok tt) ↔ (
          (leaf.is_ca ≡ false)
          × Member server_auth leaf.ext_key_usages
          × (leaf.not_before ≤ now)
          × (now ≤ leaf.not_after)
          × (f.check_signature_from leaf issuer ≡ ok tt))
  unfolding check_service_cert
  check_service_cert_iff leaf issuer now = ground (
    arith,
    contains-Member server_auth leaf.ext_key_usages,
    wrapped {E = StartupError E} not_signed_by_issuer (f.check_signature_from leaf issuer) tt,
  )

  pub check_root_may_sign_iff :
      (root : Certificate) (validity : Duration) (now : Time)
      → (check_root_may_sign x f root validity now ≡ ok tt) ↔ (
          (root.basic_constraints_valid ≡ true)
          × (root.is_ca ≡ true)
          × (root.key_usage.cert_sign ≡ true)
          × (f.check_signature_from root root ≡ ok tt)
          × (root.max_path_len_zero ≡ false)
          × (root.not_before ≤ now)
          × (now ≤ root.not_after)
          × (add now (validity_or_default validity) ≤ root.not_after))
  unfolding check_root_may_sign
  check_root_may_sign_iff root validity now =
      ground
        (arith, wrapped {E = StartupError E} not_self_signed (f.check_signature_from root root) tt)

  abbrev found_key : (F : Type 0) → PublicKey → Result F PublicKey
  found_key F key = ok key

  abbrev built : Duration → LeafDistribution → Certificate → Result (StartupError E) Ca
  built max_ttl dist cert = ok (record { cert = cert; max_ttl = max_ttl; dist = dist })

  built_from :
      (max_ttl : Duration) (dist : LeafDistribution) (cert : Certificate) (ca : Ca)
      → built max_ttl dist cert ≡ ok ca
      → (cert ≡ ca.cert) × (ca.max_ttl ≡ max_ttl) × (ca.dist ≡ dist)
  built_from max_ttl dist cert ca h = ground arith

  -- What LoadIntermediate needs, for the CA that it makes.
  abbrev pub Loadable :
      (path : String) (max_ttl : Duration) (dist : LeafDistribution) (login : Result E (Unit {0}))
      (signer : Result E PublicKey) (now : Time) (ca : Ca)
      → Type 0
  Loadable path max_ttl dist login signer now ca =
      (validate_distribution x dist ≡ ok tt)
      × (login ≡ ok tt)
      × Holds path ca.cert
      × IsIntermediate ca.cert now
      × ((curve : String) × (point : List ℕ) × (signer ≡ ok (ecdsa curve point))
          × (ca.cert.public_key ≡ ecdsa curve point))
      × (ca.max_ttl ≡ max_ttl)
      × (ca.dist ≡ dist)

  gathered :
      (path : String) (max_ttl : Duration) (dist : LeafDistribution) (login : Result E (Unit {0}))
      (signer : Result E PublicKey) (now : Time) (ca : Ca) (cert : Certificate) (key : PublicKey)
      → cert ≡ ca.cert
      → validate_distribution x dist ≡ ok tt
      → login ≡ ok tt
      → Holds path cert
      → IsIntermediate cert now
      → signer ≡ ok key
      → ((curve : String) × (point : List ℕ) × (key ≡ ecdsa curve point)
          × (cert.public_key ≡ ecdsa curve point))
      → ca.max_ttl ≡ max_ttl
      → ca.dist ≡ dist
      → Loadable path max_ttl dist login signer now ca
  gathered path max_ttl dist login signer now ca cert key same valid logged_in holds tier found
        (curve, point, key_is, cert_key) ttl distribution =
      (
        valid,
        logged_in,
        rw same at holds,
        rw same at tier,
        (curve, point, found ∙ ap (found_key E) key_is, rw same at cert_key),
        ttl,
        distribution,
      )

  -- LoadIntermediate succeeds exactly if the distribution points are valid, the login succeeds, the file
  -- holds one certificate, that is a certificate of a CA that is not self-signed, may have no CA below it,
  -- may sign certificates and CRLs and is within its window, and the key that the token has under the label
  -- is the ECDSA key of that certificate. The CA is then of that certificate.
  pub load_intermediate_iff :
      (path : String) (max_ttl : Duration) (dist : LeafDistribution) (login : Result E (Unit {0}))
      (signer : Result E PublicKey) (now : Time) (ca : Ca)
      → (load_intermediate x f path max_ttl dist login signer now ≡ ok ca) ↔ (
          (validate_distribution x dist ≡ ok tt)
          × (login ≡ ok tt)
          × Holds path ca.cert
          × IsIntermediate ca.cert now
          × ((curve : String) × (point : List ℕ) × (signer ≡ ok (ecdsa curve point))
              × (ca.cert.public_key ≡ ecdsa curve point))
          × (ca.max_ttl ≡ max_ttl)
          × (ca.dist ≡ dist))
  unfolding load_intermediate
  load_intermediate_iff path max_ttl dist login signer now ca = (
    (λ h.
        let (_, h0, h1) =
          >>=-eq-ok (wrap_err bad_distribution (validate_distribution x dist)) _ h in
        let (_, h2, h3) = >>=-eq-ok (wrap_err login_failed login) _ h1 in
        let (cert, loaded, h5) = >>=-eq-ok (load_cert_pem x f path) _ h3 in
        let (_, tier, h7) = >>=-eq-ok (check_intermediate_cert x f cert now) _ h5 in
        let (key, h8, h9) = >>=-eq-ok (wrap_err no_signer signer) _ h7 in
        let (_, same_key, h11) = >>=-eq-ok (check_key_matches_cert x f key cert.public_key) _ h9 in
        let (of_cert, of_ttl, of_dist) = built_from max_ttl dist cert ca h11 in
        let key_found = (wrapped no_signer signer key).0 h8 in
        gathered path max_ttl dist login signer now ca cert key of_cert
          ((wrapped bad_distribution (validate_distribution x dist) tt).0 h0)
          ((wrapped login_failed login tt).0 h2) ((load_cert_pem_iff path cert).0 loaded)
          ((check_intermediate_cert_iff cert now).0 tier) key_found
          ((check_key_matches_cert_iff key cert.public_key).0 same_key) of_ttl of_dist),
    (λ (valid, logged_in, holds, tier, (curve, point, key, cert_key), ttl, distribution).
        let loaded = (load_cert_pem_iff path ca.cert).1 holds in
        let checked = (check_intermediate_cert_iff ca.cert now).1 tier in
        let matched : check_key_matches_cert x f (ecdsa curve point) ca.cert.public_key ≡ ok tt =
          (check_key_matches_cert_iff (ecdsa curve point) ca.cert.public_key).1
            (curve, point, refl, cert_key) in
        rw
          (
            load_intermediate,
            valid,
            logged_in,
            loaded,
            checked,
            key,
            matched,
            sym ttl,
            sym distribution,
          )
          refl),
  )
