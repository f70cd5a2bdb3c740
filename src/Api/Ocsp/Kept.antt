-- ===== src/Api/Ocsp/Kept.antt =====
-- What a request to the OCSP endpoints (internal/api/ocsp.go) can change of the server: what Store.Get
-- leaves of the store, and the responder.
use multivendor_hsm_pki.Prelude.{refl, Option, none, some, ℤ, Result, ok, err, String}
use multivendor_hsm_pki.Clock.{Time}
use multivendor_hsm_pki.Store.{CertRecord}
use multivendor_hsm_pki.Store.Service.{Failure, Records, IsRecords, Same}
use multivendor_hsm_pki.Profile.Names.{Name}
use multivendor_hsm_pki.Ca.{Bytes, Certificate}
use multivendor_hsm_pki.Responder.{
  Ocsp, Responder, Hash, Reply, recognise, cached_reply, may_sign, sign_reply, respond, after_get,
  on_miss, on_query, on_request,
}
use multivendor_hsm_pki.Responder
use multivendor_hsm_pki.Api.{Web, Server, Body, ReadError, read_at_most}
use multivendor_hsm_pki.Api.Ocsp.{
  asked, serve_ocsp, on_body, handle_ocsp_post, handle_ocsp_get, max_ocsp_request_bytes, decoded,
  unescaped,
}

module _ (rs : Records Name) (laws : IsRecords rs) (o : Ocsp) (cfg : Responder.Config) where
  unchanged : (s : rs.S) → Same rs s s
  unchanged s = ((λ j. refl), refl, (λ h. h))

  after_get-Same :
      (query : ℤ × Hash) (cert : Certificate) (now : Time) (r : Responder) (s t : rs.S)
      (got : Result Failure (Option (CertRecord Name)))
      → Same rs s t
      → Same rs s (after_get o rs cfg query cert now r (got, t)).2
  after_get-Same query cert now r s t (ok found) same = same
  after_get-Same query cert now r s t (err e) same = same

  on_miss-Same :
      (serial : ℤ) (hash : Hash) (may : Option Certificate) (now : Time) (r : Responder) (s : rs.S)
      → Same rs s (on_miss o rs cfg (serial, hash) may now r s).2
  on_miss-Same serial hash none now r s = unchanged s
  on_miss-Same serial hash (some cert) now r s =
      after_get-Same (serial, hash) cert now r s (rs.get serial s).1 (rs.get serial s).0
        (laws.gets_same s serial)

  on_query-Same :
      (serial : ℤ) (hash : Hash) (hit : Option Reply) (now : Time) (r : Responder) (s : rs.S)
      → Same rs s (on_query o rs cfg (serial, hash) hit now r s).2
  on_query-Same serial hash (some reply) now r s = unchanged s
  on_query-Same serial hash none now r s = on_miss-Same serial hash (may_sign r.cert now) now r s

  on_request-Same :
      (asked_for : Result Reply (ℤ × Hash)) (now : Time) (r : Responder) (s : rs.S)
      → Same rs s (on_request o rs cfg asked_for now r s).2
  on_request-Same (err reply) now r s = unchanged s
  on_request-Same (ok (serial, hash)) now r s =
      on_query-Same serial hash (cached_reply o r serial now) now r s

  respond-Same :
      (der : Bytes) (now : Time) (r : Responder) (s : rs.S)
      → Same rs s (respond o rs cfg der now r s).2
  unfolding respond
  respond-Same der now r s = on_request-Same (recognise o cfg der) now r s

module _ {E : Type 0} (w : Web E) (o : Ocsp) {rs : Records Name} (laws : IsRecords rs)
    (cfg : Responder.Config) (now later : Time) (srv : Server rs) (P : Server rs → Type 0)
    (before : P srv)
    (keeps : (t : rs.S) (r : Responder)
      → Same rs srv.store t
      → P (record srv { store = t; responder = some r })) where
  asked_keeps :
      (found : Option Responder) (der : Bytes) → P (asked {E = E} w o found cfg der now later srv).1
  asked_keeps none der = before
  asked_keeps (some r) der =
      keeps (respond o rs cfg der now r srv.store).2 (respond o rs cfg der now r srv.store).1
        (respond-Same rs laws o cfg der now r srv.store)

  on_body_keeps : (body : Result ReadError Bytes) → P (on_body {E = E} w o body cfg now later srv).1
  unfolding serve_ocsp
  on_body_keeps (err e) = before
  on_body_keeps (ok der) = asked_keeps srv.responder der

  pub handle_ocsp_post_keeps : (body : Body) → P (handle_ocsp_post w o body cfg now later srv).1
  unfolding handle_ocsp_post
  handle_ocsp_post_keeps body = on_body_keeps (read_at_most max_ocsp_request_bytes body)

  pub handle_ocsp_get_keeps : (raw : String) → P (handle_ocsp_get w o raw cfg now later srv).1
  unfolding handle_ocsp_get serve_ocsp
  handle_ocsp_get_keeps raw =
      asked_keeps srv.responder (decoded (w.base64_decode (unescaped raw (w.path_unescape raw))))
