-- ===== src/Api/Clients.antt =====
-- A client certificate that was revoked opens nothing any more: requireClient (internal/api/auth.go) on the
-- server of internal/api/server.go, after any sequence of requests.
use multivendor_hsm_pki.Prelude.{
  ◌≡◌, ◌⊎◌, refl, ap, true, String, Option, none, some, List, ◌∷◌, ◌==◌, ℤ, string_eq, Result, ok,
  err, Bool-cases, inl, inr,
}
use multivendor_hsm_pki.Clock.{Time}
use multivendor_hsm_pki.Store.{CertRecord, status_revoked}
use multivendor_hsm_pki.Store.Service.{Failure, broken, Records, IsRecords, Gets}
use multivendor_hsm_pki.Profile.Names.{Name}
use multivendor_hsm_pki.Entitlement.{Net}
use multivendor_hsm_pki.Auth.{Cert, authenticate, require_client, error as refuse, forbidden}
use multivendor_hsm_pki.Ca.{Draw}
use multivendor_hsm_pki.Responder.{Ocsp}
use multivendor_hsm_pki.Responder
use multivendor_hsm_pki.Api.{text, Reply, error, Web, Settings, Server}
use multivendor_hsm_pki.Api.Issuance.{IssueCall}
use multivendor_hsm_pki.Api.Revocation.{RevokeCall}
use multivendor_hsm_pki.Api.Crl.Served.{ApiCall, serve_all, IsGood, serve_all-IsGood}
use multivendor_hsm_pki.Api.Crl.Kept.{IsRevokedAs}
use multivendor_hsm_pki.Api.Crl.Lasting.{serve_all_as}
use multivendor_hsm_pki.Api.Surface.{
  stored, identities, on_response, post_certificates_handler, post_revoke_handler,
}

module _ {R : Type 0} (show : Name → String) (leaf : Cert Name) (chain : List (Cert Name))
    (chains : List (List (Cert Name))) (allowed : List String) (next : String → R) where
  stopped :
      (get : ℤ → Result Failure (Option (CertRecord Name))) (rec : CertRecord Name)
      → get leaf.serial ≡ ok (some rec)
      → rec.status ≡ status_revoked
      → (msg : String) × (require_client show get allowed next (some ((leaf ∷ chain) ∷ chains))
          ≡ refuse forbidden msg)
  unfolding require_client authenticate
  stopped get rec here st =
      let revoked : (rec.status == status_revoked) ≡ true =
        (string_eq.beq_iff rec.status status_revoked).1 st in
      elim (Bool-cases (show rec.subject == show leaf.subject)) [
        | inl same ↦ ("the client certificate has been revoked", rw (here, same, revoked) refl)
        | inr other ↦
            ("the client certificate does not match this CA's record of it", rw (here, other) refl)
      ]

  stopped_by_failure :
      (get : ℤ → Result Failure (Option (CertRecord Name))) (e : Failure)
      → get leaf.serial ≡ err e
      → require_client show get allowed next (some ((leaf ∷ chain) ∷ chains))
        ≡ refuse 500 "client authentication failed"
  unfolding require_client authenticate
  stopped_by_failure get e here = rw here refl

module _ {E : Type 0} {rs : Records Name} where
  -- The answer is 403, or 500 where Get fails, and the server is as before: no handler ran.
  abbrev pub IsRefused : ℤ → Server rs → Reply E × Server rs → Type 0
  IsRefused serial srv answer =
      ((msg : String) × (answer ≡ (error forbidden (text msg), srv)))
      ⊎ (((rs.get serial srv.store).0 ≡ err broken)
          × (answer ≡ (error 500 (text "client authentication failed"), srv)))

module _ {E : Type 0} (w : Web E) {net : Net} (cfg : Settings net) (rs : Records Name)
    (show : Name → String) (leaf : Cert Name) (chain : List (Cert Name))
    (chains : List (List (Cert Name))) where
  refused :
      (laws : IsRecords rs) (allowed : List String) (next : String → Reply E × Server rs)
      (srv : Server rs) (rec : CertRecord Name)
      → rs.Sound srv.store
      → IsRevokedAs rs leaf.serial rec srv.store
      → IsRefused leaf.serial srv (
          on_response w cfg srv
            (require_client show (stored w cfg srv) allowed next (some ((leaf ∷ chain) ∷ chains))))
  refused laws allowed next srv rec sound (there, st) =
      go (rs.get leaf.serial srv.store).0 refl (laws.gets_law srv.store leaf.serial sound)
    where
      go :
          (got : Result Failure (Option (CertRecord Name)))
          → (rs.get leaf.serial srv.store).0 ≡ got
          → Gets rs leaf.serial srv.store got
          → IsRefused leaf.serial srv (
              on_response w cfg srv (
                require_client show
                  (stored w cfg srv)
                  allowed
                  next
                  (some ((leaf ∷ chain) ∷ chains))))
      go (ok found) is shown =
          let here : (rs.get leaf.serial srv.store).0 ≡ ok (some rec) = cc in
          let (msg, stop) =
            stopped show leaf chain chains allowed next (stored w cfg srv) rec here st in
          inl (msg, ap (on_response w cfg srv) stop)
      go (err e) is shown = inr (
        (let failed : (rs.get leaf.serial srv.store).0 ≡ err broken = cc in failed),
        ap (on_response w cfg srv)
            (stopped_by_failure show leaf chain chains allowed next (stored w cfg srv) e is),
      )

  -- On a store with the contract, from a server whose store is sound and that has no CRL cached, and whose
  -- store shows the record of a client's certificate as revoked: after any requests, both write endpoints
  -- answer this client with 403, or with 500 if Store.Get fails, and leave the server as it is, whoever is
  -- allowed and whatever subject the certificate has.
  pub revoked_client_refused :
      (laws : IsRecords rs) (o : Ocsp) (responder_cfg : Responder.Config) (cs : List ApiCall)
      (rec : CertRecord Name) (revokers : List String) (issue_call : IssueCall)
      (revoke_call : RevokeCall) (now : Time) (draws : List Draw) (srv : Server rs)
      → rs.Sound srv.store
      → srv.cached_crl ≡ none
      → rs.view srv.store leaf.serial ≡ some rec
      → rec.status ≡ status_revoked
      → IsRefused leaf.serial (serve_all w cfg rs o responder_cfg cs srv) (
          post_certificates_handler w cfg show
            (some ((leaf ∷ chain) ∷ chains))
            issue_call
            now
            draws
            (serve_all w cfg rs o responder_cfg cs srv))
        × IsRefused leaf.serial (serve_all w cfg rs o responder_cfg cs srv) (
            post_revoke_handler w cfg show revokers
              (some ((leaf ∷ chain) ∷ chains))
              revoke_call
              now
              (serve_all w cfg rs o responder_cfg cs srv))
  unfolding post_certificates_handler post_revoke_handler
  revoked_client_refused laws o responder_cfg cs rec revokers issue_call revoke_call now draws srv
        sound empty there st =
      let start : IsGood w cfg rs srv = (sound, (λ d at. absurd cc)) in
      let good = serve_all-IsGood w cfg rs o responder_cfg laws cs srv start in
      let later =
        serve_all_as w cfg rs o responder_cfg laws leaf.serial rec cs srv start (there, st) in
      (
        refused laws (identities cfg.issuers) _ _ rec good.0 later,
        refused laws revokers _ _ rec good.0 later,
      )
