-- ===== src/Ca/Issued.antt =====
-- When Issue of internal/ca/ca.go issues, and what it signs.
use multivendor_hsm_pki.Prelude.{
  ℕ, ◌<◌, ◌≤◌, ◌^◌, ◌≡◌, ◌↔◌, ◌⊎◌, inl, inr, refl, sym, ap, ◌∙◌, true, false, Option, some, List,
  [], ◌∷◌, string_eq, pos, ok, >>=-eq-ok, All, arith,
}
use multivendor_hsm_pki.Clock.{Time}
use multivendor_hsm_pki.Profile.{KeyUsage, PublicKey, ecdsa, rsa, other_key, Profile}
use multivendor_hsm_pki.Profile.Names.{empty_name, fill, Request}
use multivendor_hsm_pki.Profile.Signed.{Holds, fill-Holds}
use multivendor_hsm_pki.Ca.{Draw, Bytes, Certificate, Template, X509, Ca, wrap_err, wrapped, failed}
use multivendor_hsm_pki.Ca.Serial.{generate_serial, IsDraw, generate_serial_exact}
use multivendor_hsm_pki.Ca.Issue.{
  key_usage_for, subject_key_id, leaf_template, check_policy, sign_leaf, issue,
}
use multivendor_hsm_pki.Ca.Permitted.{one_profile, Permitted, check_policy_iff}

narrowed :
    (key : PublicKey) (u : KeyUsage)
    → ((key_usage_for key u).cert_sign ≡ u.cert_sign)
      × ((key_usage_for key u).crl_sign ≡ u.crl_sign)
      × (((key_usage_for key u).key_encipherment ≡ false)
          ⊎ ((bits : ℕ) × (material : List ℕ) × (key ≡ rsa bits material)))
unfolding key_usage_for
narrowed (ecdsa curve material) u = (refl, refl, inl refl)
narrowed (rsa bits material) u = (refl, refl, inr (bits, material, refl))
narrowed (other_key material) u = (refl, refl, inl refl)

module _ {E : Type 0} (x : X509 E) (c : Ca) (csr : Request) (now : Time) (draws : List Draw) where
  -- The certificate comes out of CreateCertificate and ParseCertificate for this template.
  abbrev pub SignedFrom : Template → Certificate → Type 0
  SignedFrom t cert =
      (der : Bytes) × (x.create_certificate t c.cert csr.public_key ≡ ok der)
      × (x.parse_certificate der ≡ ok cert)

  -- Issue issues a certificate exactly if the profile is not nil and permits the request at that time, a
  -- serial is drawn and the key is encoded, and the certificate is the one that crypto/x509 signs for the
  -- template of the profile, the request, the subject made of all its attributes, the time, the serial and
  -- the identifier of the key.
  pub issue_iff :
      (found : Option Profile) (cert : Certificate)
      → (issue x c csr found now draws ≡ ok cert) ↔ (
          (p : Profile) × (n : ℕ) × (ski : Bytes) × (found ≡ some p)
          × Permitted x c csr now p
          × (generate_serial (failed x.random_failed) draws ≡ ok n)
          × (subject_key_id x csr.public_key ≡ ok ski)
          × SignedFrom (leaf_template c csr p (fill csr.subject.names empty_name) now n ski) cert)
  unfolding issue sign_leaf
  issue_iff found cert = (
    (λ h.
        let ((p, subject), policy, h1) = >>=-eq-ok (check_policy x c csr found now) _ h in
        let (here, permitted, same) = (check_policy_iff x c csr now found p subject).0 policy in
        let (n, drawn, h2) = >>=-eq-ok (generate_serial (failed x.random_failed) draws) _ h1 in
        let (ski, keyed, h3) = >>=-eq-ok (subject_key_id x csr.public_key) _ h2 in
        let (der, created, h4) =
          >>=-eq-ok
            (wrap_err failed (
              x.create_certificate (leaf_template c csr p subject now n ski) c.cert csr.public_key))
            _ h3 in
        (
          p,
          n,
          ski,
          here,
          permitted,
          drawn,
          keyed,
          (
            der,
            rw same at ((wrapped failed _ der).0 created),
            (wrapped failed (x.parse_certificate der) cert).0 h4,
          ),
        )),
    (λ (p, n, ski, here, permitted, drawn, keyed, (der, created, parsed)).
        let policy : check_policy x c csr found now ≡ ok (p, fill csr.subject.names empty_name) =
          (check_policy_iff x c csr now found p (fill csr.subject.names empty_name)).1
            (here, permitted, refl) in
        rw (policy, drawn, keyed, created, parsed) refl),
  )

  -- The template is one of a leaf under the profile.
  abbrev pub IsLeafOf : Profile → Template → Type 0
  IsLeafOf p t =
      (t.is_ca ≡ false)
      × (t.basic_constraints_valid ≡ true)
      × (t.key_usage.cert_sign ≡ false)
      × (t.key_usage.crl_sign ≡ false)
      × ((t.key_usage.key_encipherment ≡ false)
          ⊎ ((bits : ℕ) × (material : List ℕ) × (csr.public_key ≡ rsa bits material)))
      × (t.ext_key_usages ≡ p.ext_key_usages)
      × ((n : ℕ) × (t.serial ≡ pos n) × (0 < n) × (n < 2 ^ 128))
      × Holds csr.subject.names t.subject
      × (t.not_before ≤ now)
      × (c.cert.not_before ≤ now)
      × (t.not_after ≤ c.cert.not_after)
      × (t.crl_distribution_points ≡ c.dist.crl_url ∷ [])

  -- Where the profile asserts no usage of a certificate authority and rand.Read fills the buffers that it is
  -- given: what Issue signs is never a certificate authority and asserts none of its usages, has
  -- keyEncipherment only over an RSA key, exactly the extended usages of the profile, a positive serial below
  -- 2^128, a subject whose fields hold exactly the texts of the request's attributes of their type, in order,
  -- and for the common name and the serial number the last of them, a window that has begun and does not
  -- outlive the issuer, and the distribution point of its CRL.
  pub issued_leaf :
      (p : Profile) (cert : Certificate)
      → p.key_usage.cert_sign ≡ false
      → p.key_usage.crl_sign ≡ false
      → All IsDraw draws
      → issue x c csr (some p) now draws ≡ ok cert
      → (t : Template) × IsLeafOf p t × SignedFrom t cert
  unfolding leaf_template
  issued_leaf p cert no_cert no_crl random h =
      let (q, n, ski, here, permitted, drawn, _, signed) = (issue_iff (some p) cert).0 h in
      let (_, _, _, _, _, _, _, _, _, _, _, _, _, started, _, covers) = permitted in
      let same : p ≡ q = one_profile here in
      let (no_cert_sign, no_crl_sign, encipher) = narrowed csr.public_key q.key_usage in
      let (_, _, _, serial, positive, bounded) =
        rw drawn at (generate_serial_exact (failed x.random_failed) draws random) in
      (
        leaf_template c csr q (fill csr.subject.names empty_name) now n ski,
        (
          refl,
          refl,
          no_cert_sign ∙ ap (λ r. r.key_usage.cert_sign) (sym same) ∙ no_cert,
          no_crl_sign ∙ ap (λ r. r.key_usage.crl_sign) (sym same) ∙ no_crl,
          encipher,
          ap (λ r. r.ext_key_usages) (sym same),
          (n, refl, positive, bounded),
          fill-Holds csr.subject.names,
          omega arith,
          started,
          covers,
          refl,
        ),
        signed,
      )
