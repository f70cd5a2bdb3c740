-- ===== src/Ca/Startup/Serving.antt =====
-- A TLS certificate of the service that its own CA issued: Issue (internal/ca/ca.go) under a CA that
-- LoadIntermediate accepted, then the checks of LoadServiceCertificate (internal/ca/service.go).
use multivendor_hsm_pki.Prelude.{◌≤◌, ◌≡◌, sym, ap, true, String, some, List, Member, Result, ok}
use multivendor_hsm_pki.Clock.{Time, Duration}
use multivendor_hsm_pki.Profile.{PublicKey, Profile}
use multivendor_hsm_pki.Profile.Names.{Request, fill, empty_name}
use multivendor_hsm_pki.Profile.Vocabulary.{server_auth}
use multivendor_hsm_pki.Ca.{Draw, Bytes, Certificate, Template, X509, LeafDistribution, Ca}
use multivendor_hsm_pki.Ca.Issue.{leaf_template, issue}
use multivendor_hsm_pki.Ca.Permitted.{one_profile}
use multivendor_hsm_pki.Ca.Issued.{issue_iff}
use multivendor_hsm_pki.Ca.Startup.{Files, load_intermediate, check_service_cert}
use multivendor_hsm_pki.Ca.Startup.Trusted.{load_intermediate_iff, check_service_cert_iff}

module _ {E : Type 0} (x : X509 E) (f : Files E) where
  -- What crypto/x509 documents of a certificate that it signed and parsed: the fields of the template are
  -- in it, and its signature is accepted if the parent is a certificate of a CA that may sign certificates.
  pub record IsSigner : Type 0 where
    pub kept :
        (t : Template) (parent : Certificate) (key : PublicKey) (der : Bytes) (cert : Certificate)
        → x.create_certificate t parent key ≡ ok der
        → x.parse_certificate der ≡ ok cert
        → (cert.is_ca ≡ t.is_ca) × (cert.ext_key_usages ≡ t.ext_key_usages)
    pub accepted :
        (t : Template) (parent : Certificate) (key : PublicKey) (der : Bytes) (cert : Certificate)
        → parent.basic_constraints_valid ≡ true
        → parent.is_ca ≡ true
        → parent.key_usage.cert_sign ≡ true
        → x.create_certificate t parent key ≡ ok der
        → x.parse_certificate der ≡ ok cert
        → f.check_signature_from cert parent ≡ ok tt

  -- Where crypto/x509 keeps what it documents: a certificate that a loaded CA issues under a profile with
  -- serverAuth passes the checks of the service's TLS certificate at any time in its window.
  pub issued_serves :
      (law : IsSigner) (path : String) (max_ttl : Duration) (dist : LeafDistribution)
      (login : Result E (Unit {0})) (signer : Result E PublicKey) (started now later : Time)
      (c : Ca) (csr : Request) (p : Profile) (draws : List Draw) (cert : Certificate)
      → load_intermediate x f path max_ttl dist login signer started ≡ ok c
      → issue x c csr (some p) now draws ≡ ok cert
      → Member server_auth p.ext_key_usages
      → cert.not_before ≤ later
      → later ≤ cert.not_after
      → check_service_cert x f cert c.cert later ≡ ok tt
  unfolding leaf_template
  issued_serves law path max_ttl dist login signer started now later c csr p draws cert loaded
        issued serves begun lasting =
      let (_, _, _, (valid, is_ca, _, _, cert_sign, _, _, _), _, _, _) =
        (load_intermediate_iff x f path max_ttl dist login signer started c).0 loaded in
      let (q, n, ski, here, _, _, _, (der, signed, parsed)) =
        (issue_iff x c csr now draws (some p) cert).0 issued in
      let template = leaf_template c csr q (fill csr.subject.names empty_name) now n ski in
      let (leaf, usages) = law.kept template c.cert csr.public_key der cert signed parsed in
      (check_service_cert_iff x f cert c.cert later).1 (
        leaf,
        rw (usages, sym (ap (λ r. r.ext_key_usages) (one_profile here))) serves,
        begun,
        lasting,
        law.accepted template c.cert csr.public_key der cert valid is_ca cert_sign signed parsed,
      )
