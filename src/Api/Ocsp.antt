-- ===== src/Api/Ocsp.antt =====
-- handleOCSPPost, handleOCSPGet and serveOCSP of internal/api/ocsp.go.
pub mod Kept
use multivendor_hsm_pki.Prelude.{
  ℕ, String, Option, none, some, [], ◌==◌, string_eq, Result, ok, err, if◌then◌else◌,
}
use multivendor_hsm_pki.Clock.{Time}
use multivendor_hsm_pki.Store.Service.{Records}
use multivendor_hsm_pki.Profile.Names.{Name}
use multivendor_hsm_pki.Ca.{Bytes}
use multivendor_hsm_pki.Responder.{Responder, Ocsp, Outcome, respond}
use multivendor_hsm_pki.Responder
use multivendor_hsm_pki.Api.{
  text, Reply, error, artifact, Body, ReadError, read_at_most, Web, Server, seconds_until,
}

-- serveOCSP's headers
abbrev pub ocsp_written : {E : Type 0} → Time → Responder.Reply → Reply E
ocsp_written later (der, outcome) =
    artifact "application/ocsp-response"
      (if outcome.error == "" then some (seconds_until outcome.next_update later) else none) der

abbrev pub max_ocsp_request_bytes : ℕ
max_ocsp_request_bytes = 4096

abbrev pub unescaped : String → Option String → String
unescaped raw none = raw
unescaped raw (some t) = t

abbrev pub decoded : Option Bytes → Bytes
decoded none = []
decoded (some der) = der

module _ {E : Type 0} (w : Web E) (o : Ocsp) {rs : Records Name} where
  -- serveOCSP, on a server with a responder: the routes exist only then
  abbrev pub answered : Time → Server rs → Responder.Reply × Responder × rs.S → Reply E × Server rs
  answered later srv (reply, r, s) =
      (ocsp_written later reply, record srv { store = s; responder = some r })

  abbrev pub asked :
      Option Responder → Responder.Config → Bytes → Time → Time → Server rs → Reply E × Server rs
  asked none cfg der now later srv = (error 404 (text "404 page not found"), srv)
  asked (some r) cfg der now later srv = answered later srv (respond o rs cfg der now r srv.store)

  unfoldable pub serve_ocsp :
      Responder.Config → Bytes → Time → Time → Server rs → Reply E × Server rs
  serve_ocsp cfg der now later srv = asked srv.responder cfg der now later srv

  abbrev pub on_body :
      Result ReadError Bytes → Responder.Config → Time → Time → Server rs → Reply E × Server rs
  on_body (err e) cfg now later srv = (error 400 (text "reading the OCSP request"), srv)
  on_body (ok der) cfg now later srv = serve_ocsp cfg der now later srv

  -- handleOCSPPost
  unfoldable pub handle_ocsp_post :
      Body → Responder.Config → Time → Time → Server rs → Reply E × Server rs
  handle_ocsp_post body cfg now later srv =
      on_body (read_at_most max_ocsp_request_bytes body) cfg now later srv

  -- handleOCSPGet
  unfoldable pub handle_ocsp_get :
      String → Responder.Config → Time → Time → Server rs → Reply E × Server rs
  handle_ocsp_get raw cfg now later srv =
      serve_ocsp cfg (decoded (w.base64_decode (unescaped raw (w.path_unescape raw)))) now later srv
