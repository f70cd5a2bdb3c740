-- ===== src/Responder/Renewal.antt =====
-- New, Renew and dueForRenewal of internal/responder/responder.go.
use multivendor_hsm_pki.Prelude.{
  ◌+◌, ◌-◌, ◌/◌, ◌≡◌, ◌∙◌, refl, Bool, true, not, String, Option, none, some, List, [], ℤ, pos,
  string_eq, Result, ok, err, Assoc, arith, if◌then◌else◌, int_eq,
}
use multivendor_hsm_pki.Clock.{Time, Duration, after, exceeds}
use multivendor_hsm_pki.Store.{CertRecord, status_valid, reason_unspecified, copy_record}
use multivendor_hsm_pki.Store.Contract.{record_outcome, record_view, was_free}
use multivendor_hsm_pki.Store.Service.{Failure, known, broken, Records, IsRecords, Keeps}
use multivendor_hsm_pki.Profile.{Profile}
use multivendor_hsm_pki.Profile.Names.{Name}
use multivendor_hsm_pki.Entitlement.{is_internal_only}
use multivendor_hsm_pki.Ca.{Draw, Bytes, Certificate, X509, IssueError, Ca, wrap_err}
use multivendor_hsm_pki.Ca.Issue.{issue}
use multivendor_hsm_pki.Responder.{Hash, Ocsp, Config, Responder}

pub data RenewError (E : Type 0) : Type 0 where
  request_not_created request_not_parsed : RenewError E
  not_issued : IssueError E → RenewError E
  not_recorded : Failure → RenewError E
  something_nil wrong_profile validity_not_positive hashes_failed : RenewError E

-- The store.CertRecord of a certificate that was just issued.
abbrev pub record_of_issued : Certificate → CertRecord Name
record_of_issued cert = record {
  serial = cert.serial;
  subject = cert.subject;
  not_after = cert.not_after;
  status = status_valid;
  revoked_at = 0;
  revocation_reason = reason_unspecified;
}

-- dueForRenewal; NotAfter is not before NotBefore in a certificate that Issue signed
unfoldable pub due_for_renewal : Option Certificate → Time → Bool
due_for_renewal none now = true
due_for_renewal (some cert) now =
    after now (cert.not_before + (cert.not_after - cert.not_before) / 2)

abbrev pub needed_here : {E A : Type 0} → RenewError E → Option A → Result (RenewError E) A
needed_here e none = err e
needed_here e (some a) = ok a

module _ {E : Type 0} (x : X509 E) (o : Ocsp) where
  -- The certificate of a renewal, before it is recorded.
  unfoldable pub renewed : Config → Time → List Draw → Result (RenewError E) Certificate
  renewed cfg now draws = elim (o.create_request cfg.subject) [
    | none ↦ err request_not_created
    | some der ↦ elim (o.parse_request der) [
      | none ↦ err request_not_parsed
      | some csr ↦ wrap_err not_issued (issue x cfg.issuer csr (some cfg.profile) now draws)
    ]
  ]

  module _ (rs : Records Name) where
    abbrev pub swap :
        Certificate
        → Responder
        → Result Failure (Unit {0}) × rs.S
        → Result (RenewError E) (Unit {0}) × Responder × rs.S
    swap cert r (err e, s) = (err (not_recorded e), r, s)
    swap cert r (ok _, s) = (ok tt, record { cert = some cert; cache = [] }, s)

    abbrev pub install :
        Result (RenewError E) Certificate
        → Responder
        → rs.S
        → Result (RenewError E) (Unit {0}) × Responder × rs.S
    install (err e) r s = (err e, r, s)
    install (ok cert) r s = swap cert r (rs.record_cert (record_of_issued cert) s)

    -- Renew
    unfoldable pub renew :
        Config
        → Time
        → List Draw
        → Responder
        → rs.S
        → Result (RenewError E) (Unit {0}) × Responder × rs.S
    renew cfg now draws r s = install (renewed cfg now draws) r s

    -- One tick of RunRenewal.
    unfoldable pub renewal_tick :
        Config
        → Time
        → List Draw
        → Responder
        → rs.S
        → Result (RenewError E) (Unit {0}) × Responder × rs.S
    renewal_tick cfg now draws r s =
        if due_for_renewal r.cert now then renew cfg now draws r s else (ok tt, r, s)

    -- The parameters of New: an absent pointer is none, and `hashes` is what issuerHashes makes of the
    -- issuer. The responder starts without a certificate and Renew issues the first.
    abbrev pub checked :
        Option Ca → Option Profile → Duration → Result (RenewError E) (Ca × Profile)
    checked (some issuer) (some p) validity =
        if not (is_internal_only p.name)
        then err wrong_profile
        else if not (exceeds validity (pos 0))
        then err validity_not_positive
        else ok (issuer, p)
    checked _ _ validity = err something_nil

    abbrev pub configured :
        Ca × Profile
        → String
        → Duration
        → Option (Assoc Hash Bytes × Assoc Hash Bytes)
        → Result (RenewError E) Config
    configured (issuer, p) subject validity none = err hashes_failed
    configured (issuer, p) subject validity (some (names, keys)) = ok (record {
      issuer = issuer;
      profile = p;
      subject = subject;
      window = validity;
      name_hash = names;
      key_hash = keys;
    })

    abbrev pub start :
        Result (RenewError E) Config
        → Time
        → List Draw
        → rs.S
        → Result (RenewError E) Config × Responder × rs.S
    start (err e) now draws s = (err e, record { cert = none; cache = [] }, s)
    start (ok cfg) now draws s =
        let (r, responder, t) = renew cfg now draws (record { cert = none; cache = [] }) s in
        (elim r [ err e ↦ err e | ok _ ↦ ok cfg ], responder, t)

    abbrev pub config_for :
        Option Ca
        → Option Profile
        → String
        → Duration
        → (Certificate → Option (Assoc Hash Bytes × Assoc Hash Bytes))
        → Result (RenewError E) (Ca × Profile)
        → Result (RenewError E) Config
    config_for issuer p subject validity hashes (err e) = err e
    config_for issuer p subject validity hashes (ok (i, q)) =
        configured (i, q) subject validity (hashes i.cert)

    -- New, with a subject
    unfoldable pub new_responder :
        Option Ca
        → Option Profile
        → String
        → Duration
        → (Certificate → Option (Assoc Hash Bytes × Assoc Hash Bytes))
        → Time
        → List Draw
        → rs.S
        → Result (RenewError E) Config × Responder × rs.S
    new_responder issuer p subject validity hashes now draws s =
        start (config_for issuer p subject validity hashes (checked issuer p validity)) now draws s

    -- What a renewal leaves: the new certificate, no cached response and a record of it, under a serial that
    -- had none; or what was there before.
    abbrev pub Renewed :
        Responder → rs.S → Result (RenewError E) (Unit {0}) × Responder × rs.S → Type 0
    Renewed r s (ok _, r', t) =
        (cert : Certificate) × (r' ≡ record { cert = some cert; cache = [] })
        × (rs.view s cert.serial ≡ none)
        × (rs.view t cert.serial ≡ some (copy_record (record_of_issued cert)))
    Renewed r s (err e, r', t) = (r' ≡ r) × ((j : ℤ) → rs.view t j ≡ rs.view s j)

    -- On a store with the contract: if Renew succeeds, the responder has a new certificate, an empty cache,
    -- and the store a record of that certificate under a serial that it had no record of before; if it fails,
    -- the responder and what the store shows are as they were.
    pub renew_exact :
        (laws : IsRecords rs) (cfg : Config) (now : Time) (draws : List Draw) (r : Responder)
        (s : rs.S)
        → Renewed r s (renew cfg now draws r s)
    unfolding renew
    renew_exact laws cfg now draws r s = go (renewed cfg now draws)
      where
        kept :
            (cert : Certificate) (result : Result Failure (Unit {0})) (t : rs.S)
            → Keeps rs
                (record_outcome (rs.view s cert.serial))
                (record_view (record_of_issued cert) (rs.view s))
                s
                result
                t
            → Renewed r s (swap cert r (result, t))
        kept cert (ok _) t (outcome, shows, _, _) =
            let free = was_free (rs.view s cert.serial) outcome in
            (
              cert,
              refl,
              free,
              shows cert.serial ∙ ground (arith, free, int_eq.beq_iff cert.serial cert.serial),
            )
        kept cert (err (known e)) t (_, (shows, _, _)) = (refl, shows)
        kept cert (err broken) t (shows, _, _) = (refl, shows)

        go : (result : Result (RenewError E) Certificate) → Renewed r s (install result r s)
        go (err e) = (refl, (λ j. refl))
        go (ok cert) =
            kept cert (rs.record_cert (record_of_issued cert) s).0
              (rs.record_cert (record_of_issued cert) s).1
              (laws.records_law s (record_of_issued cert) (refl, refl))
