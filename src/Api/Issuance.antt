-- ===== src/Api/Issuance.antt =====
-- handleIssueCertificate, parseCSR and issueErrorResponse of internal/api/server.go.
pub mod Admission
pub mod Answered
use multivendor_hsm_pki.Prelude.{
  ℕ, ◌*◌, Bool, true, false, not, String, Option, none, some, List, [], ◌∷◌, ◌==◌, ◌&&◌, ◌||◌,
  string_eq, Result, ok, err, ◌>>=◌, ◌>>◌, Assoc, lookup, if◌then◌else◌,
}
use multivendor_hsm_pki.Action.{map_err}
use multivendor_hsm_pki.Clock.{Time}
use multivendor_hsm_pki.Store.Service.{Failure, Records}
use multivendor_hsm_pki.Profile.{Profile, Set, lookup_profile}
use multivendor_hsm_pki.Profile.Names.{Name, Request}
use multivendor_hsm_pki.Entitlement.{Net, Entitlement, permits_profile}
use multivendor_hsm_pki.Entitlement.Names.{Csr, permits_names}
use multivendor_hsm_pki.Ca.{
  Draw, Bytes, Certificate, IssueError, no_distribution_points, no_profile, invalid_csr_signature,
  empty_subject, disallowed_key_type, key_not_allowed, name_not_allowed, subject_not_allowed,
  validity_exceeds_policy, issuer_not_valid, validity_exceeds_issuer, failed,
}
use multivendor_hsm_pki.Ca.Issue.{issue}
use multivendor_hsm_pki.Responder.Renewal.{record_of_issued}
use multivendor_hsm_pki.Api.{
  Message, text, of_profile, of_issue, Reply, error, created, panicked, Body, ReadError, too_large,
  unreadable, read_at_most, Web, Settings, Server,
}

abbrev pub max_csr_body_bytes : ℕ
max_csr_body_bytes = 64 * 1024

-- What the handler reads of the request: the profile in the query, the client that requireClient put
-- into the context, and the body.
pub record IssueCall : Type 0 where
  pub profile : String
  pub client : String
  pub body : Body

-- issueErrorResponse
unfoldable pub issue_error_response : {E : Type 0} → IssueError E → ℕ × Message E
issue_error_response (invalid_csr_signature e) = (400, text "CSR signature is invalid")
issue_error_response empty_subject = (400, text "CSR subject is empty")
issue_error_response disallowed_key_type = (400, text "CSR public key type is not allowed")
issue_error_response (key_not_allowed e) = (400, text "CSR public key type is not allowed")
issue_error_response (name_not_allowed e) = (400, of_issue (name_not_allowed e))
issue_error_response (subject_not_allowed e) = (400, of_issue (subject_not_allowed e))
issue_error_response validity_exceeds_policy = (400, of_issue validity_exceeds_policy)
issue_error_response e = (500, text "certificate issuance failed")

abbrev pub issue_failed : {E : Type 0} → IssueError E → Reply E
issue_failed e = let (status, msg) = issue_error_response e in error status msg

abbrev pub not_read : {E : Type 0} → ReadError → Reply E
not_read too_large = error 413 (text "request body exceeds size limit")
not_read unreadable = error 400 (text "reading request body")

abbrev pub not_entitled_message : {E : Type 0} → Reply E
not_entitled_message = error 403 (text "the client is not entitled to this request")

-- The names of the request that PermitsNames reads.
abbrev pub names_of : Request → Csr
names_of csr = record {
  common_name = csr.subject.common_name;
  dns_names = csr.dns_names;
  ip_addresses = csr.ip_addresses;
  uris = csr.uris;
  email_addresses = csr.email_addresses;
}

module _ {E : Type 0} (w : Web E) where
  abbrev pub request_of : Option (String × Bytes) → Bytes → Result (Reply E) Request
  request_of none body = map_err (λ e. error 400 (text "malformed CSR")) (w.parse_request body)
  request_of (some (kind, der)) body =
      if not (kind == "CERTIFICATE REQUEST") && not (kind == "NEW CERTIFICATE REQUEST")
      then err (error 400 (text "malformed CSR"))
      else map_err (λ e. error 400 (text "malformed CSR")) (w.parse_request der)

  -- parseCSR, with the answer to its error
  unfoldable pub parse_csr : Bytes → Result (Reply E) Request
  parse_csr body = request_of (w.pem_decode body) body

  -- prof.Name of a nil profile panics
  abbrev pub not_nil : Option Profile → Result (Reply E) Profile
  not_nil none = err panicked
  not_nil (some p) = ok p

  module _ {net : Net} (cfg : Settings net) where
    -- ent, bound := s.issuers[identity], and PermitsProfile
    abbrev pub grant_for : Option (Entitlement net) → Profile → Result (Reply E) (Entitlement net)
    grant_for none p = err not_entitled_message
    grant_for (some ent) p = if permits_profile ent p.name then ok ent else err not_entitled_message

    -- The handler as far as the names: nothing is signed or stored yet.
    unfoldable pub admit : IssueCall → Result (Reply E) (Profile × Request)
    admit call = do
      found ← map_err (λ e. error 400 (of_profile e)) (lookup_profile cfg.profiles call.profile)
      p ← not_nil found
      ent ← grant_for (lookup call.client cfg.issuers) p
      body ← map_err not_read (read_at_most max_csr_body_bytes call.body)
      csr ← parse_csr body
      map_err (λ e. not_entitled_message) (permits_names ent (names_of csr))
      ok (p, csr)

    module _ {rs : Records Name} where
      -- store.Record, and the chain that is written when it succeeds
      abbrev pub recorded :
          Certificate → Server rs → Result Failure (Unit {0}) × rs.S → Reply E × Server rs
      recorded cert srv (err e, s) =
          (error 500 (text "certificate issuance failed"), record srv { store = s })
      recorded cert srv (ok _, s) = (created cert.raw cfg.ca.cert.raw, record srv { store = s })

      abbrev pub on_issued : Result (IssueError E) Certificate → Server rs → Reply E × Server rs
      on_issued (err e) srv = (issue_failed e, srv)
      on_issued (ok cert) srv = recorded cert srv (rs.record_cert (record_of_issued cert) srv.store)

      abbrev pub on_admitted :
          Result (Reply E) (Profile × Request) → Time → List Draw → Server rs → Reply E × Server rs
      on_admitted (err reply) now draws srv = (reply, srv)
      on_admitted (ok (p, csr)) now draws srv =
          on_issued (issue w.x509 cfg.ca csr (some p) now draws) srv

      -- handleIssueCertificate
      unfoldable pub handle_issue : IssueCall → Time → List Draw → Server rs → Reply E × Server rs
      handle_issue call now draws srv = on_admitted (admit call) now draws srv
