-- ===== src/Api/Issuance/Answered.antt =====
-- What handleIssueCertificate of internal/api/server.go answers.
use multivendor_hsm_pki.Prelude.{
  ◌≡◌, ◌∙◌, refl, none, some, List, ℤ, int_eq, string_eq, Result, ok, err, arith,
}
use multivendor_hsm_pki.Clock.{Time}
use multivendor_hsm_pki.Store.{copy_record}
use multivendor_hsm_pki.Store.Contract.{record_outcome, record_view, was_free}
use multivendor_hsm_pki.Store.Service.{Failure, known, broken, Records, IsRecords, Keeps}
use multivendor_hsm_pki.Profile.{Profile}
use multivendor_hsm_pki.Profile.Names.{Name, Request}
use multivendor_hsm_pki.Entitlement.{Net}
use multivendor_hsm_pki.Ca.{Draw, Certificate, IssueError}
use multivendor_hsm_pki.Ca.Issue.{issue}
use multivendor_hsm_pki.Responder.Renewal.{record_of_issued}
use multivendor_hsm_pki.Api.{
  Reply, error, created, no_content, artifact, panicked, Web, Settings, Server,
}
use multivendor_hsm_pki.Api.Issuance.{
  IssueCall, issue_failed, admit, recorded, on_issued, on_admitted, handle_issue,
}
use multivendor_hsm_pki.Api.Issuance.Admission.{
  internal, IsRefusal, IsRefusal-of_issue, Admitted, admit-Admitted, admit-Refuses,
}

module _ {E : Type 0} (w : Web E) {net : Net} (cfg : Settings net) where
  module _ {rs : Records Name} where
    -- What the handler leaves, by what it answers: 201 only for a request that the client may make, with the
    -- certificate that Issue issued for it and the issuer behind it, once the store has the record of it under
    -- a serial that it had no record of; any other answer, with what the store shows as it was.
    abbrev pub Answered : IssueCall → Time → List Draw → Server rs → Reply E × Server rs → Type 0
    Answered call now draws srv (created leaf issuer, srv') =
        (p : Profile) × (csr : Request) × (cert : Certificate) × Admitted w cfg call p csr
        × (issue w.x509 cfg.ca csr (some p) now draws ≡ ok cert)
        × (leaf ≡ cert.raw)
        × (issuer ≡ cfg.ca.cert.raw)
        × (rs.view srv.store cert.serial ≡ none)
        × (rs.view srv'.store cert.serial ≡ some (copy_record (record_of_issued cert)))
    Answered call now draws srv (reply, srv') =
        IsRefusal reply × ((j : ℤ) → rs.view srv'.store j ≡ rs.view srv.store j)

    refused_answer :
        (call : IssueCall) (now : Time) (draws : List Draw) (srv : Server rs) (reply : Reply E)
        (t : rs.S)
        → IsRefusal reply
        → ((j : ℤ) → rs.view t j ≡ rs.view srv.store j)
        → Answered call now draws srv (reply, record srv { store = t })
    refused_answer call now draws srv (error status msg) t refusal shows = (refusal, shows)
    refused_answer call now draws srv panicked t refusal shows = (refusal, shows)
    refused_answer call now draws srv (created a b) t refusal shows = absurd refusal
    refused_answer call now draws srv no_content t refusal shows = absurd refusal
    refused_answer call now draws srv (artifact a b c) t refusal shows = absurd refusal

    recorded-Answered :
        (call : IssueCall) (now : Time) (draws : List Draw) (srv : Server rs) (p : Profile)
        (csr : Request) (cert : Certificate) (result : Result Failure (Unit {0})) (t : rs.S)
        → Admitted w cfg call p csr
        → issue w.x509 cfg.ca csr (some p) now draws ≡ ok cert
        → Keeps rs
            (record_outcome (rs.view srv.store cert.serial))
            (record_view (record_of_issued cert) (rs.view srv.store))
            srv.store
            result
            t
        → Answered call now draws srv (recorded w cfg cert srv (result, t))
    recorded-Answered call now draws srv p csr cert (ok _) t may signed (outcome, shows, _, _) =
        let free = was_free (rs.view srv.store cert.serial) outcome in
        (
          p,
          csr,
          cert,
          may,
          signed,
          refl,
          refl,
          free,
          shows cert.serial ∙ ground (arith, free, int_eq.beq_iff cert.serial cert.serial),
        )
    recorded-Answered call now draws srv p csr cert (err (known e)) t may signed
          (_, (shows, _, _)) =
        (internal, shows)
    recorded-Answered call now draws srv p csr cert (err broken) t may signed (shows, _, _) =
        (internal, shows)

    -- On a store with the contract: the handler answers 201 only if the request names a profile that exists,
    -- the client is granted it, the body is read within its limit and parsed, patterns of the client cover
    -- each name in it, and Issue issues; the answer is then that certificate and its issuer, and the store has
    -- a record of it, under a serial that had none. After any other answer the store shows what it showed.
    pub handle_issue_exact :
        (laws : IsRecords rs) (call : IssueCall) (now : Time) (draws : List Draw) (srv : Server rs)
        → Answered call now draws srv (handle_issue w cfg call now draws srv)
    unfolding handle_issue
    handle_issue_exact laws call now draws srv = go (admit w cfg call) refl
      where
        on_cert :
            (p : Profile) (csr : Request) (result : Result (IssueError E) Certificate)
            → Admitted w cfg call p csr
            → issue w.x509 cfg.ca csr (some p) now draws ≡ result
            → Answered call now draws srv (on_issued w cfg result srv)
        on_cert p csr (err e) may signed =
            refused_answer call now draws srv (issue_failed e) srv.store (IsRefusal-of_issue e)
              (λ j. refl)
        on_cert p csr (ok cert) may signed =
            recorded-Answered call now draws srv p csr cert
              (rs.record_cert (record_of_issued cert) srv.store).0
              (rs.record_cert (record_of_issued cert) srv.store).1 may signed
              (laws.records_law srv.store (record_of_issued cert) (refl, refl))

        go :
            (admitted : Result (Reply E) (Profile × Request))
            → admit w cfg call ≡ admitted
            → Answered call now draws srv (on_admitted w cfg admitted now draws srv)
        go (err reply) h =
            refused_answer call now draws srv reply srv.store (rw h at (admit-Refuses w cfg call))
              (λ j. refl)
        go (ok (p, csr)) h =
            on_cert p csr (issue w.x509 cfg.ca csr (some p) now draws)
              (admit-Admitted w cfg call p csr h) refl
