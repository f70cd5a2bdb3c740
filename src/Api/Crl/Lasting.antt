-- ===== src/Api/Crl/Lasting.antt =====
-- A revocation that was answered with 204 (internal/api/server.go) is in every CRL served afterwards.
use multivendor_hsm_pki.Prelude.{
  ℕ, ◌≡◌, ◌∙◌, refl, sym, ap, String, Option, none, some, List, [], ◌∷◌, ℤ, string_eq, int_eq,
  Result, ok, err, Member, arith,
}
use multivendor_hsm_pki.Clock.{Time}
use multivendor_hsm_pki.Store.{
  cert_not_found, invalid_revocation_reason, duplicate_serial, CertRecord,
}
use multivendor_hsm_pki.Store.Contract.{revoke_outcome, revoke_view}
use multivendor_hsm_pki.Store.Service.{Failure, known, broken, Records, IsRecords, Keeps, Same}
use multivendor_hsm_pki.Entitlement.{Net}
use multivendor_hsm_pki.Profile.{Profile}
use multivendor_hsm_pki.Profile.Names.{Name, Request}
use multivendor_hsm_pki.Ca.{Bytes, Certificate, IssueError, RevocationList, RevokedCert}
use multivendor_hsm_pki.Ca.Issue.{issue}
use multivendor_hsm_pki.Responder.Renewal.{record_of_issued}
use multivendor_hsm_pki.Responder.{Ocsp, Responder}
use multivendor_hsm_pki.Responder
use multivendor_hsm_pki.Api.Ocsp.Kept.{handle_ocsp_post_keeps, handle_ocsp_get_keeps}
use multivendor_hsm_pki.Api.{
  Reply, error, created, no_content, artifact, panicked, Web, Settings, Server,
}
use multivendor_hsm_pki.Api.Issuance.{admit, recorded, on_issued, on_admitted, handle_issue}
use multivendor_hsm_pki.Api.Revocation.{
  RevokeCall, read_revocation, on_revoked, on_read, handle_revoke, invalidate_crl_cache,
}
use multivendor_hsm_pki.Api.Crl.{handle_crl, current_crl, crl_written, CurrentError, entry_of}
use multivendor_hsm_pki.Api.Crl.Listed.{Current, current_crl_exact}
use multivendor_hsm_pki.Api.Crl.Served.{
  ApiCall, issues, revokes, fetches_crl, posts_ocsp, gets_ocsp, fetches_intermediate_cert,
  fetches_root_cert, fetches_root_crl, probes_health, probes_readiness, serve, serve_all, IsGood,
  serve-IsGood, serve_all-IsGood, ServesCrl, good-ServesCrl,
}
use multivendor_hsm_pki.Api.Crl.Kept.{IsRevokedAs, kept_as, recorded_as, revoked_as, accepted}

module _ {E : Type 0} (w : Web E) {net : Net} (cfg : Settings net) (rs : Records Name) where
  on_issued_as :
      (laws : IsRecords rs) (serial : ℤ) (rec : CertRecord Name) (srv : Server rs)
      (result : Result (IssueError E) Certificate)
      → IsRevokedAs rs serial rec srv.store
      → IsRevokedAs rs serial rec (on_issued w cfg result srv).1.store
  on_issued_as laws serial rec srv (err e) h = h
  on_issued_as laws serial rec srv (ok cert) h =
      go (rs.record_cert (record_of_issued cert) srv.store).0
        (rs.record_cert (record_of_issued cert) srv.store).1
        (recorded_as rs serial rec (record_of_issued cert) srv.store
          (rs.record_cert (record_of_issued cert) srv.store).1
          (rs.record_cert (record_of_issued cert) srv.store).0
          (laws.records_law srv.store (record_of_issued cert) (refl, refl)) h)
    where
      go :
          (result : Result Failure (Unit {0})) (t : rs.S)
          → IsRevokedAs rs serial rec t
          → IsRevokedAs rs serial rec (recorded w cfg cert srv (result, t)).1.store
      go (ok _) t k = k
      go (err e) t k = k

  on_read_as :
      (laws : IsRecords rs) (serial : ℤ) (rec : CertRecord Name) (now : Time) (srv : Server rs)
      (read : Result (Reply E) (ℤ × ℤ))
      → IsRevokedAs rs serial rec srv.store
      → IsRevokedAs rs serial rec (on_read read now srv).1.store
  unfolding invalidate_crl_cache
  on_read_as laws serial rec now srv (err reply) h = h
  on_read_as laws serial rec now srv (ok (other, reason)) h =
      go (rs.revoke other reason now srv.store).0 (rs.revoke other reason now srv.store).1 (
        revoked_as rs serial rec other reason now srv.store (rs.revoke other reason now srv.store).1
          (rs.revoke other reason now srv.store).0 (laws.revokes_law srv.store other reason now) h)
    where
      go :
          (result : Result Failure (Unit {0})) (t : rs.S)
          → IsRevokedAs rs serial rec t
          → IsRevokedAs rs serial rec (on_revoked {E = E} srv (result, t)).1.store
      go (ok _) t k = k
      go (err e) t k = k

  crl_written_as :
      (serial : ℤ) (rec : CertRecord Name) (later : Time) (srv srv' : Server rs)
      (result : Result (CurrentError E) Bytes)
      → Current w cfg rs srv (result, srv')
      → IsRevokedAs rs serial rec srv.store
      → IsRevokedAs rs serial rec (crl_written w cfg later (result, srv')).1.store
  crl_written_as serial rec later srv srv' (ok der) (_, _, shows, _, _) (there, revoked) =
      (shows serial ∙ there, revoked)
  crl_written_as serial rec later srv srv' (err e) (_, shows, _) (there, revoked) =
      (shows serial ∙ there, revoked)

  on_204 :
      (srv : Server rs) (serial reason : ℤ) (now : Time) (result : Result Failure (Unit {0}))
      (t : rs.S)
      → Keeps rs
          (revoke_outcome reason (rs.view srv.store serial))
          (revoke_view serial reason now (rs.view srv.store))
          srv.store
          result
          t
      → (on_revoked {E = E} srv (result, t)).0 ≡ no_content
      → (rec : CertRecord Name) × IsRevokedAs rs serial rec
          (on_revoked {E = E} srv (result, t)).1.store
  unfolding invalidate_crl_cache
  on_204 srv serial reason now (ok _) t (outcome, shows, _, _) done =
      accepted rs serial reason now srv.store t outcome shows
  on_204 srv serial reason now (err (known cert_not_found)) t kept done = cc
  on_204 srv serial reason now (err (known invalid_revocation_reason)) t kept done = cc
  on_204 srv serial reason now (err (known duplicate_serial)) t kept done = cc
  on_204 srv serial reason now (err broken) t kept done = cc

  -- An entry of the list that a served CRL was signed for.
  entry_served :
      (laws : IsRecords rs) (serial : ℤ) (rec : CertRecord Name) (srv : Server rs)
      (answer : Reply E × Server rs) (kind : String) (age : Option ℕ) (der : Bytes)
      → rs.Sound srv.store
      → IsRevokedAs rs serial rec srv.store
      → ServesCrl w cfg rs srv answer
      → answer.0 ≡ artifact kind age der
      → (l : RevocationList) × (e : RevokedCert) × (w.x509.create_crl l cfg.ca.cert ≡ ok der)
        × Member e l.entries
        × (e.serial ≡ serial)
  entry_served laws serial rec srv (artifact k a d, srv') kind age der sound (there, revoked)
        (is_crl, _) same =
      let (l, signed, entries, _, _) = is_crl in
      let keyed = laws.keyed_law srv.store serial rec sound there in
      let same_der : d ≡ der = ground (arith, same) in
      (
        l,
        entry_of rec,
        signed ∙ ap (λ b. ok b) same_der,
        (entries (entry_of rec)).1 (rec, rw (sym keyed) at there, revoked, refl),
        keyed,
      )
  entry_served laws serial rec srv (error s m, srv') kind age der sound h serves same = cc
  entry_served laws serial rec srv (created a b, srv') kind age der sound h serves same = cc
  entry_served laws serial rec srv (no_content, srv') kind age der sound h serves same = cc
  entry_served laws serial rec srv (panicked, srv') kind age der sound h serves same = cc

  -- The revocation that a 204 answered.
  answered_204 :
      (laws : IsRecords rs) (call : RevokeCall) (now : Time) (srv : Server rs) (serial reason : ℤ)
      → read_revocation w call ≡ ok (serial, reason)
      → (handle_revoke w call now srv).0 ≡ no_content
      → (rec : CertRecord Name) × IsRevokedAs rs serial rec (handle_revoke w call now srv).1.store
  unfolding handle_revoke
  answered_204 laws call now srv serial reason read done = rw read (
      on_204 srv serial reason now (rs.revoke serial reason now srv.store).0
        (rs.revoke serial reason now srv.store).1 (laws.revokes_law srv.store serial reason now)
        (rw read at done))

module _ {E : Type 0} (w : Web E) {net : Net} (cfg : Settings net) (rs : Records Name) (o : Ocsp)
    (responder_cfg : Responder.Config) where
  asked_as :
      (serial : ℤ) (rec : CertRecord Name) (srv : Server rs)
      → IsRevokedAs rs serial rec srv.store
      → (t : rs.S) (r : Responder) → Same rs srv.store t
      → IsRevokedAs rs serial rec t
  asked_as serial rec srv h t r same = kept_as rs serial rec srv.store t same h

  serve_as :
      (laws : IsRecords rs) (serial : ℤ) (rec : CertRecord Name) (c : ApiCall) (srv : Server rs)
      → IsGood w cfg rs srv
      → IsRevokedAs rs serial rec srv.store
      → IsRevokedAs rs serial rec (serve w cfg rs o responder_cfg c srv).1.store
  unfolding serve handle_issue handle_revoke handle_crl
  serve_as laws serial rec (issues call now draws) srv good h = go (admit w cfg call)
    where
      go :
          (admitted : Result (Reply E) (Profile × Request))
          → IsRevokedAs rs serial rec (on_admitted w cfg admitted now draws srv).1.store
      go (err reply) = h
      go (ok (p, csr)) =
          on_issued_as w cfg rs laws serial rec srv (issue w.x509 cfg.ca csr (some p) now draws) h
  serve_as laws serial rec (revokes call now) srv good h =
      on_read_as w cfg rs laws serial rec now srv (read_revocation w call) h
  serve_as laws serial rec (fetches_crl now later) srv good h =
      crl_written_as w cfg rs serial rec later srv (current_crl w cfg now srv).1
        (current_crl w cfg now srv).0 (current_crl_exact w cfg rs laws now srv good.0 good.1) h
  serve_as laws serial rec (posts_ocsp body now later) srv good h =
      handle_ocsp_post_keeps w o laws responder_cfg now later srv
        (λ s. IsRevokedAs rs serial rec s.store) h (asked_as serial rec srv h) body
  serve_as laws serial rec (gets_ocsp raw now later) srv good h =
      handle_ocsp_get_keeps w o laws responder_cfg now later srv
        (λ s. IsRevokedAs rs serial rec s.store) h (asked_as serial rec srv h) raw
  serve_as laws serial rec fetches_intermediate_cert srv good h = h
  serve_as laws serial rec fetches_root_cert srv good h = h
  serve_as laws serial rec fetches_root_crl srv good h = h
  serve_as laws serial rec probes_health srv good h = h
  serve_as laws serial rec (probes_readiness opened) srv good h = h

  pub serve_all_as :
      (laws : IsRecords rs) (serial : ℤ) (rec : CertRecord Name) (cs : List ApiCall)
      (srv : Server rs)
      → IsGood w cfg rs srv
      → IsRevokedAs rs serial rec srv.store
      → IsRevokedAs rs serial rec (serve_all w cfg rs o responder_cfg cs srv).store
  unfolding serve_all
  serve_all_as laws serial rec [] srv good h = h
  serve_all_as laws serial rec (c ∷ cs) srv good h =
      serve_all_as laws serial rec cs (serve w cfg rs o responder_cfg c srv).1
        (serve-IsGood w cfg rs o responder_cfg laws c srv good)
        (serve_as laws serial rec c srv good h)

  -- On a store with the contract, from a server whose store is sound and that has no CRL cached: once a
  -- revocation of a serial is answered with 204, every CRL that GET /crl serves after it, whatever requests
  -- come before and between, was signed for a list with an entry for that serial.
  pub revoked_is_listed :
      (laws : IsRecords rs) (before after : List ApiCall) (call : RevokeCall)
      (now later now' : Time) (srv : Server rs) (serial reason : ℤ) (kind : String) (age : Option ℕ)
      (der : Bytes)
      → rs.Sound srv.store
      → srv.cached_crl ≡ none
      → read_revocation w call ≡ ok (serial, reason)
      → (handle_revoke w call now (serve_all w cfg rs o responder_cfg before srv)).0 ≡ no_content
      → (handle_crl w cfg later now' (
          serve_all w cfg rs o responder_cfg after
            (handle_revoke w call now (serve_all w cfg rs o responder_cfg before srv)).1)).0
        ≡ artifact kind age der
      → (l : RevocationList) × (e : RevokedCert) × (w.x509.create_crl l cfg.ca.cert ≡ ok der)
        × Member e l.entries
        × (e.serial ≡ serial)
  unfolding serve
  revoked_is_listed laws before after call now later now' srv serial reason kind age der sound empty
        read done served =
      let start = serve_all w cfg rs o responder_cfg before srv in
      let good =
        serve_all-IsGood w cfg rs o responder_cfg laws before srv (sound, (λ d at. absurd cc)) in
      let (rec, h) = answered_204 w cfg rs laws call now start serial reason read done in
      let next = (handle_revoke w call now start).1 in
      let good' = serve-IsGood w cfg rs o responder_cfg laws (revokes call now) start good in
      let last = serve_all w cfg rs o responder_cfg after next in
      let good'' = serve_all-IsGood w cfg rs o responder_cfg laws after next good' in
      entry_served w cfg rs laws serial rec last (handle_crl w cfg later now' last) kind age der
        good''.0 (serve_all_as laws serial rec after next good' h)
        (good-ServesCrl w cfg rs laws later now' last good'') served
