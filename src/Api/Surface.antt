-- ===== src/Api/Surface.antt =====
-- The two surfaces of internal/api/server.go (NewServer, routePublic) and the write endpoints behind
-- requireClient (internal/api/auth.go), with the static artifacts and the probes of internal/api/health.go.
use multivendor_hsm_pki.Prelude.{
  ◌≡◌, refl, Bool, true, false, String, Option, none, some, List, [], ◌∷◌, ◌++◌, ℤ, Result, ok, err,
  Assoc, arith, length, nat_beq, if◌then◌else◌,
}
use multivendor_hsm_pki.Clock.{Time}
use multivendor_hsm_pki.Store.{CertRecord, copy_record}
use multivendor_hsm_pki.Store.Service.{Failure, Records, IsRecords}
use multivendor_hsm_pki.Entitlement.{Net}
use multivendor_hsm_pki.Profile.{Profile}
use multivendor_hsm_pki.Profile.Names.{Name, Request}
use multivendor_hsm_pki.Auth.{
  Cert, AuthError, authenticate, Response, error as refuse, handled, respond, require_client,
  refusal, lookup_failed,
}
use multivendor_hsm_pki.Ca.{Draw, Bytes, Certificate}
use multivendor_hsm_pki.Ca.Issue.{issue}
use multivendor_hsm_pki.Responder.Renewal.{record_of_issued}
use multivendor_hsm_pki.Api.{
  text, Reply, error, created, no_content, artifact, panicked, Web, Settings, Server,
}
use multivendor_hsm_pki.Api.Issuance.{IssueCall, handle_issue}
use multivendor_hsm_pki.Api.Issuance.Admission.{Admitted}
use multivendor_hsm_pki.Api.Issuance.Answered.{Answered, handle_issue_exact}
use multivendor_hsm_pki.Api.Revocation.{RevokeCall, handle_revoke}

pub data Endpoint : Type 0 where
  get_healthz get_readyz get_crl get_intermediate_cert get_root_cert get_root_crl : Endpoint
  post_ocsp get_ocsp : Endpoint
  post_certificates post_revoke : Endpoint

-- routePublic, with a responder or without
unfoldable pub route_public : Bool → List Endpoint
route_public has_responder =
    get_healthz
    ∷ get_readyz
    ∷ get_crl
    ∷ get_intermediate_cert
    ∷ get_root_cert
    ∷ get_root_crl
    ∷ (if has_responder then post_ocsp ∷ get_ocsp ∷ [] else [])

-- What NewServer routes on the authenticated surface.
unfoldable pub route_authenticated : Bool → List Endpoint
route_authenticated has_responder =
    route_public has_responder ++ post_certificates ∷ post_revoke ∷ []

-- serveDERArtifact
unfoldable pub serve_der_artifact : {E : Type 0} → Bytes → String → Reply E
serve_der_artifact der content_type =
    if nat_beq (length der) 0
    then error 503 (text "the artifact is not available on this server")
    else artifact content_type (some 3600) der

-- handleIntermediateCert, handleRootCert, handleRootCRL
abbrev pub content_type_cert : String
content_type_cert = "application/pkix-cert"

abbrev pub content_type_crl : String
content_type_crl = "application/pkix-crl"

module _ {net : Net} (cfg : Settings net) where
  unfoldable pub handle_intermediate_cert : {E : Type 0} → Reply E
  handle_intermediate_cert = serve_der_artifact cfg.intermediate_der content_type_cert

  unfoldable pub handle_root_cert : {E : Type 0} → Reply E
  handle_root_cert = serve_der_artifact cfg.root_cert_der content_type_cert

  unfoldable pub handle_root_crl : {E : Type 0} → Reply E
  handle_root_crl = serve_der_artifact cfg.root_crl_der content_type_crl

-- handleHealthz and handleReadyz write "ok" and "ready", whose type net/http detects.
abbrev plain_text : String
plain_text = "text/plain; charset=utf-8"

-- handleHealthz
unfoldable pub handle_healthz : {E : Type 0} → Reply E
handle_healthz = artifact plain_text none (111 ∷ 107 ∷ [])

-- handleReadyz: whether a session opens is the adapter's answer
unfoldable pub handle_readyz : {E : Type 0} → Bool → Reply E
handle_readyz true = artifact plain_text none (114 ∷ 101 ∷ 97 ∷ 100 ∷ 121 ∷ [])
handle_readyz false = error 503 (text "HSM adapter not ready")

-- Map.Identities; the order does not matter to requireClient
abbrev pub identities : {V : Type 0} → Assoc String V → List String
identities [] = []
identities ((identity, v) ∷ rest) = identity ∷ identities rest

-- The connection: nil over plain HTTP, or the chains that TLS verified.
abbrev pub Tls : Type 0
Tls = Option (List (List (Cert Name)))

module _ {E : Type 0} (w : Web E) {net : Net} (cfg : Settings net) {rs : Records Name} where
  -- Store.Get, which changes nothing that is shown
  abbrev pub stored : Server rs → ℤ → Result Failure (Option (CertRecord Name))
  stored srv serial = (rs.get serial srv.store).0

  abbrev pub on_response : Server rs → Response (Reply E × Server rs) → Reply E × Server rs
  on_response srv (refuse status msg) = (error status (text msg), srv)
  on_response srv (handled answer) = answer

  -- POST /certificates on the authenticated surface
  unfoldable pub post_certificates_handler :
      (Name → String) → Tls → IssueCall → Time → List Draw → Server rs → Reply E × Server rs
  post_certificates_handler show tls call now draws srv = on_response srv (
      require_client show (stored srv) (identities cfg.issuers)
        (λ identity. handle_issue w cfg (record call { client = identity }) now draws srv) tls)

  -- POST /certificates/{serial}/revoke
  unfoldable pub post_revoke_handler :
      (Name → String) → List String → Tls → RevokeCall → Time → Server rs → Reply E × Server rs
  post_revoke_handler show revokers tls call now srv =
      on_response srv
        (require_client show (stored srv) revokers (λ identity. handle_revoke w call now srv) tls)

  -- On a store with the contract: a certificate is written by POST /certificates only to a client that is
  -- authorised as an identity of the configured issuers, for a request that this identity may make, and it is
  -- the certificate that Issue issued for it, which the store has a record of.
  pub issued_to_entitled :
      (laws : IsRecords rs) (show : Name → String) (tls : Tls) (call : IssueCall) (now : Time)
      (draws : List Draw) (srv : Server rs) (leaf issuer : Bytes)
      → (post_certificates_handler show tls call now draws srv).0 ≡ created leaf issuer
      → (identity : String) × (p : Profile) × (csr : Request) × (cert : Certificate) × (authenticate
            show
            (stored srv)
            tls
            (identities cfg.issuers)
          ≡ ok identity)
        × Admitted w cfg (record call { client = identity }) p csr
        × (issue w.x509 cfg.ca csr (some p) now draws ≡ ok cert)
        × (leaf ≡ cert.raw)
        × (rs.view (post_certificates_handler show tls call now draws srv).1.store cert.serial
            ≡ some (copy_record (record_of_issued cert)))
  unfolding post_certificates_handler require_client
  issued_to_entitled laws show tls call now draws srv leaf issuer h =
      go (authenticate show (stored srv) tls (identities cfg.issuers)) refl h
    where
      answer : String → Reply E × Server rs
      answer identity = handle_issue w cfg (record call { client = identity }) now draws srv

      Issued : Reply E × Server rs → Type 0
      Issued (reply, srv') =
          (identity : String) × (p : Profile) × (csr : Request) × (cert : Certificate)
          × (authenticate show (stored srv) tls (identities cfg.issuers) ≡ ok identity)
          × Admitted w cfg (record call { client = identity }) p csr
          × (issue w.x509 cfg.ca csr (some p) now draws ≡ ok cert)
          × (leaf ≡ cert.raw)
          × (rs.view srv'.store cert.serial ≡ some (copy_record (record_of_issued cert)))

      from_answer :
          (identity : String) (done : Reply E × Server rs)
          → authenticate show (stored srv) tls (identities cfg.issuers) ≡ ok identity
          → Answered w cfg (record call { client = identity }) now draws srv done
          → done.0 ≡ created leaf issuer
          → Issued done
      from_answer identity (created l i, srv') auth
            (p, csr, cert, may, signed, is_leaf, _, _, shown) same =
          (identity, p, csr, cert, auth, may, signed, ground (arith, same, is_leaf), shown)
      from_answer identity (error s m, srv') auth h same = cc
      from_answer identity (no_content, srv') auth h same = cc
      from_answer identity (artifact k a d, srv') auth h same = cc
      from_answer identity (panicked, srv') auth h same = cc

      go :
          (a : Result (AuthError Failure) String)
          → authenticate show (stored srv) tls (identities cfg.issuers) ≡ a
          → (on_response srv (respond answer a)).0 ≡ created leaf issuer
          → Issued (on_response srv (respond answer a))
      go (ok identity) auth same =
          from_answer identity (answer identity) auth
            (handle_issue_exact w cfg laws (record call { client = identity }) now draws srv) same
      go (err (refusal status msg)) auth same = cc
      go (err (lookup_failed e)) auth same = cc
