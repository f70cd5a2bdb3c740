-- ===== src/Api/Crl/Served.antt =====
-- Sequences of requests to the server (internal/api): what GET /crl and the responder serve after them.
use multivendor_hsm_pki.Prelude.{
  ◌≡◌, inl, inr, ◌∙◌, refl, sym, ap, Bool, true, String, Option, none, some, List, [], ◌∷◌, ◌==◌, ℤ,
  string_eq, int_eq, Result, ok, err, arith, Bool-cases,
}
use multivendor_hsm_pki.Clock.{Time}
use multivendor_hsm_pki.Store.{CertRecord, status_valid, status_revoked, copy_record}
use multivendor_hsm_pki.Store.Contract.{
  record_outcome, record_entry, was_free, record_view, revoke_outcome, revoke_view,
}
use multivendor_hsm_pki.Store.Service.{Failure, known, broken, Records, IsRecords, Keeps, Same}
use multivendor_hsm_pki.Entitlement.{Net}
use multivendor_hsm_pki.Profile.{Profile}
use multivendor_hsm_pki.Profile.Names.{Name, Request}
use multivendor_hsm_pki.Ca.{Draw, Bytes, Certificate, IssueError}
use multivendor_hsm_pki.Ca.Issue.{issue}
use multivendor_hsm_pki.Responder.Renewal.{record_of_issued}
use multivendor_hsm_pki.Responder.{Ocsp, Responder}
use multivendor_hsm_pki.Responder
use multivendor_hsm_pki.Api.{Reply, error, artifact, Body, Web, Settings, Server}
use multivendor_hsm_pki.Api.Ocsp.{handle_ocsp_post, handle_ocsp_get}
use multivendor_hsm_pki.Api.Ocsp.Kept.{handle_ocsp_post_keeps, handle_ocsp_get_keeps}
use multivendor_hsm_pki.Api.Surface.{
  handle_intermediate_cert, handle_root_cert, handle_root_crl, handle_healthz, handle_readyz,
}
use multivendor_hsm_pki.Api.Issuance.{
  IssueCall, admit, recorded, on_issued, on_admitted, handle_issue,
}
use multivendor_hsm_pki.Api.Revocation.{
  RevokeCall, read_revocation, on_revoked, on_read, handle_revoke, invalidate_crl_cache,
}
use multivendor_hsm_pki.Api.Crl.{handle_crl, current_crl, crl_written, CurrentError}
use multivendor_hsm_pki.Api.Crl.Listed.{
  IsCrlOf, IsCached, SameRevoked, SameRevoked-view, IsCrlOf-SameRevoked, Current, current_crl_exact,
}

abbrev nothing : Option (CertRecord Name)
nothing = none

abbrev some_record : CertRecord Name → Option (CertRecord Name)
some_record rec = some rec

-- A request, with the times and the random bytes of its handling: the body or the path of an OCSP request,
-- and for a probe of readiness whether a session opened.
pub data ApiCall : Type 0 where
  issues : IssueCall → Time → List Draw → ApiCall
  revokes : RevokeCall → Time → ApiCall
  fetches_crl : Time → Time → ApiCall
  posts_ocsp : Body → Time → Time → ApiCall
  gets_ocsp : String → Time → Time → ApiCall
  fetches_intermediate_cert fetches_root_cert fetches_root_crl : ApiCall
  probes_health : ApiCall
  probes_readiness : Bool → ApiCall

module _ {E : Type 0} (w : Web E) {net : Net} (cfg : Settings net) (rs : Records Name) where
  abbrev pub IsGood : Server rs → Type 0
  IsGood srv = rs.Sound srv.store × IsCached w cfg rs srv

  apart : (string_eq.beq status_valid status_revoked ≡ true) → ⊥
  apart h = cc

  none_is_not_some : {r : CertRecord Name} → nothing ≡ some r → ⊥
  none_is_not_some h = cc

  valid_is_not_revoked :
      (rec r : CertRecord Name)
      → rec.status ≡ status_valid
      → some_record (copy_record rec) ≡ some r
      → r.status ≡ status_revoked
      → ⊥
  unfolding copy_record
  valid_is_not_revoked rec r fresh h revoked =
      let still : rec.status ≡ r.status = ground (arith, h) in
      let same : status_valid ≡ status_revoked = sym fresh ∙ still ∙ revoked in
      absurd (apart ((string_eq.beq_iff status_valid status_revoked).1 same))

  -- A record of a certificate that was just issued revokes nothing.
  record_view-SameRevoked :
      (s t : rs.S) (rec : CertRecord Name)
      → rec.status ≡ status_valid
      → record_outcome (rs.view s rec.serial) ≡ ok tt
      → ((j : ℤ) → rs.view t j ≡ record_view rec (rs.view s) j)
      → SameRevoked w cfg rs s t
  record_view-SameRevoked s t rec fresh outcome shows r =
      elim (Bool-cases (rec.serial == r.serial)) [
        | inr other ↦
            (let kept : rs.view t r.serial ≡ rs.view s r.serial = rw other at (shows r.serial) in
              (
                (λ (there, revoked). (kept ∙ there, revoked)),
                (λ (there, revoked). (sym kept ∙ there, revoked)),
              ))
        | inl same ↦
            (let here : rec.serial ≡ r.serial = (int_eq.beq_iff rec.serial r.serial).0 same in
              let free : rs.view s r.serial ≡ none =
                ap (rs.view s) (sym here) ∙ was_free (rs.view s rec.serial) outcome in
              let now : rs.view t r.serial ≡ some (record_entry rec (rs.view s rec.serial)) =
                rw same at (shows r.serial) in
              let copied : record_entry rec (rs.view s rec.serial) ≡ copy_record rec =
                ap (record_entry rec) (was_free (rs.view s rec.serial) outcome) in
              (
                (λ (there, revoked). absurd (none_is_not_some (sym free ∙ there))),
                (λ (there, revoked). absurd (
                    valid_is_not_revoked rec r fresh (sym (now ∙ ap some copied) ∙ there) revoked)),
              ))
      ]

  kept-IsGood :
      (srv : Server rs) (t : rs.S)
      → Same rs srv.store t
      → IsGood srv
      → IsGood (record srv { store = t })
  kept-IsGood srv t (shows, _, sound) (good, cached) = (
    sound good,
    (λ der at.
        IsCrlOf-SameRevoked w cfg rs srv.store t der srv.cached_next_update
          (SameRevoked-view w cfg rs srv.store t shows) (cached der at)),
  )

  recorded-IsGood :
      (cert : Certificate) (srv : Server rs) (result : Result Failure (Unit {0})) (t : rs.S)
      → Keeps rs
          (record_outcome (rs.view srv.store cert.serial))
          (record_view (record_of_issued cert) (rs.view srv.store))
          srv.store
          result
          t
      → IsGood srv
      → IsGood (recorded w cfg cert srv (result, t)).1
  recorded-IsGood cert srv (ok _) t (outcome, shows, _, sound) (good, cached) = (
    sound good,
    (λ der at.
        IsCrlOf-SameRevoked w cfg rs srv.store t der srv.cached_next_update
          (record_view-SameRevoked srv.store t (record_of_issued cert) refl outcome shows)
          (cached der at)),
  )
  recorded-IsGood cert srv (err (known e)) t (_, same) good = kept-IsGood srv t same good
  recorded-IsGood cert srv (err broken) t same good = kept-IsGood srv t same good

  on_issued-IsGood :
      (laws : IsRecords rs) (srv : Server rs) (result : Result (IssueError E) Certificate)
      → IsGood srv
      → IsGood (on_issued w cfg result srv).1
  on_issued-IsGood laws srv (err e) good = good
  on_issued-IsGood laws srv (ok cert) good =
      recorded-IsGood cert srv (rs.record_cert (record_of_issued cert) srv.store).0
        (rs.record_cert (record_of_issued cert) srv.store).1
        (laws.records_law srv.store (record_of_issued cert) (refl, refl)) good

  on_admitted-IsGood :
      (laws : IsRecords rs) (srv : Server rs) (now : Time) (draws : List Draw)
      (admitted : Result (Reply E) (Profile × Request))
      → IsGood srv
      → IsGood (on_admitted w cfg admitted now draws srv).1
  on_admitted-IsGood laws srv now draws (err reply) good = good
  on_admitted-IsGood laws srv now draws (ok (p, csr)) good =
      on_issued-IsGood laws srv (issue w.x509 cfg.ca csr (some p) now draws) good

  on_revoked-IsGood :
      (serial reason : ℤ) (now : Time) (srv : Server rs) (result : Result Failure (Unit {0}))
      (t : rs.S)
      → Keeps rs
          (revoke_outcome reason (rs.view srv.store serial))
          (revoke_view serial reason now (rs.view srv.store))
          srv.store
          result
          t
      → IsGood srv
      → IsGood (on_revoked {E = E} srv (result, t)).1
  unfolding invalidate_crl_cache
  on_revoked-IsGood serial reason now srv (ok _) t (_, _, _, sound) (good, cached) =
      (sound good, (λ der at. cc))
  on_revoked-IsGood serial reason now srv (err (known e)) t (_, same) good =
      kept-IsGood srv t same good
  on_revoked-IsGood serial reason now srv (err broken) t same good = kept-IsGood srv t same good

  on_read-IsGood :
      (laws : IsRecords rs) (now : Time) (srv : Server rs) (read : Result (Reply E) (ℤ × ℤ))
      → IsGood srv
      → IsGood (on_read read now srv).1
  on_read-IsGood laws now srv (err reply) good = good
  on_read-IsGood laws now srv (ok (serial, reason)) good =
      on_revoked-IsGood serial reason now srv (rs.revoke serial reason now srv.store).0
        (rs.revoke serial reason now srv.store).1 (laws.revokes_law srv.store serial reason now)
        good

  crl_written-IsGood :
      (later : Time) (srv : Server rs) (result : Result (CurrentError E) Bytes) (srv' : Server rs)
      → rs.Sound srv.store
      → Current w cfg rs srv (result, srv')
      → IsGood (crl_written w cfg later (result, srv')).1
  crl_written-IsGood later srv (ok der) srv' good (_, cached, _, sound, _) = (sound good, cached)
  crl_written-IsGood later srv (err e) srv' good (cached, _, sound) = (sound good, cached)

  -- What GET /crl answers.
  abbrev pub ServesCrl : Server rs → Reply E × Server rs → Type 0
  ServesCrl srv (artifact kind age der, srv') =
      IsCrlOf w cfg rs srv.store der srv'.cached_next_update × (kind ≡ "application/pkix-crl")
  ServesCrl srv (error status msg, srv') = status ≡ 500
  ServesCrl srv (reply, srv') = ⊥

  crl_written-ServesCrl :
      (later : Time) (srv : Server rs) (result : Result (CurrentError E) Bytes) (srv' : Server rs)
      → Current w cfg rs srv (result, srv')
      → ServesCrl srv (crl_written w cfg later (result, srv'))
  crl_written-ServesCrl later srv (ok der) srv' (is_crl, _, _, _, _) = (is_crl, refl)
  crl_written-ServesCrl later srv (err e) srv' h = refl

  pub good-ServesCrl :
      (laws : IsRecords rs) (now later : Time) (srv : Server rs)
      → IsGood srv
      → ServesCrl srv (handle_crl w cfg now later srv)
  unfolding handle_crl
  good-ServesCrl laws now later srv (good, cached) =
      crl_written-ServesCrl later srv (current_crl w cfg now srv).0 (current_crl w cfg now srv).1
        (current_crl_exact w cfg rs laws now srv good cached)

module _ {E : Type 0} (w : Web E) {net : Net} (cfg : Settings net) (rs : Records Name) (o : Ocsp)
    (responder_cfg : Responder.Config) where
  -- What the handler of the route leaves. The client of an issuance stands in the call.
  unfoldable pub serve : ApiCall → Server rs → Reply E × Server rs
  serve (issues call now draws) srv = handle_issue w cfg call now draws srv
  serve (revokes call now) srv = handle_revoke w call now srv
  serve (fetches_crl now later) srv = handle_crl w cfg now later srv
  serve (posts_ocsp body now later) srv = handle_ocsp_post w o body responder_cfg now later srv
  serve (gets_ocsp raw now later) srv = handle_ocsp_get w o raw responder_cfg now later srv
  serve fetches_intermediate_cert srv = (handle_intermediate_cert cfg, srv)
  serve fetches_root_cert srv = (handle_root_cert cfg, srv)
  serve fetches_root_crl srv = (handle_root_crl cfg, srv)
  serve probes_health srv = (handle_healthz, srv)
  serve (probes_readiness opened) srv = (handle_readyz opened, srv)

  unfoldable pub serve_all : List ApiCall → Server rs → Server rs
  serve_all [] srv = srv
  serve_all (c ∷ cs) srv = serve_all cs (serve c srv).1

  asked-IsGood :
      (srv : Server rs)
      → IsGood w cfg rs srv
      → (t : rs.S) (r : Responder) → Same rs srv.store t
      → IsGood w cfg rs (record srv { store = t; responder = some r })
  asked-IsGood srv good t r same = kept-IsGood w cfg rs srv t same good

  pub serve-IsGood :
      (laws : IsRecords rs) (c : ApiCall) (srv : Server rs)
      → IsGood w cfg rs srv
      → IsGood w cfg rs (serve c srv).1
  unfolding serve handle_issue handle_revoke handle_crl
  serve-IsGood laws (issues call now draws) srv good =
      on_admitted-IsGood w cfg rs laws srv now draws (admit w cfg call) good
  serve-IsGood laws (revokes call now) srv good =
      on_read-IsGood w cfg rs laws now srv (read_revocation w call) good
  serve-IsGood laws (fetches_crl now later) srv good =
      crl_written-IsGood w cfg rs later srv (current_crl w cfg now srv).0
        (current_crl w cfg now srv).1 good.0 (current_crl_exact w cfg rs laws now srv good.0 good.1)
  serve-IsGood laws (posts_ocsp body now later) srv good =
      handle_ocsp_post_keeps w o laws responder_cfg now later srv (IsGood w cfg rs) good
        (asked-IsGood srv good) body
  serve-IsGood laws (gets_ocsp raw now later) srv good =
      handle_ocsp_get_keeps w o laws responder_cfg now later srv (IsGood w cfg rs) good
        (asked-IsGood srv good) raw
  serve-IsGood laws fetches_intermediate_cert srv good = good
  serve-IsGood laws fetches_root_cert srv good = good
  serve-IsGood laws fetches_root_crl srv good = good
  serve-IsGood laws probes_health srv good = good
  serve-IsGood laws (probes_readiness opened) srv good = good

  pub serve_all-IsGood :
      (laws : IsRecords rs) (cs : List ApiCall) (srv : Server rs)
      → IsGood w cfg rs srv
      → IsGood w cfg rs (serve_all cs srv)
  unfolding serve_all
  serve_all-IsGood laws [] srv good = good
  serve_all-IsGood laws (c ∷ cs) srv good =
      serve_all-IsGood laws cs (serve c srv).1 (serve-IsGood laws c srv good)

  -- On a store with the contract, from a server whose store is sound and that has no CRL cached: after any
  -- requests, GET /crl answers 500, or with a CRL signed for exactly the certificates that the store then
  -- shows revoked, with their times and reasons, whose nextUpdate is not after the issuer's NotAfter.
  pub served_crl_exact :
      (laws : IsRecords rs) (cs : List ApiCall) (now later : Time) (srv : Server rs)
      → rs.Sound srv.store
      → srv.cached_crl ≡ none
      → ServesCrl w cfg rs (serve_all cs srv) (handle_crl w cfg now later (serve_all cs srv))
  served_crl_exact laws cs now later srv sound empty =
      good-ServesCrl w cfg rs laws now later (serve_all cs srv)
        (serve_all-IsGood laws cs srv (sound, (λ der at. absurd cc)))
