-- ===== src/Api.antt =====
-- internal/api/server.go: the state of the server, what a request carries and what is written back.
-- Web stands for what the handlers call of encoding/pem, encoding/base64, encoding/json, net/url and of
-- the parser of requests in crypto/x509. The mutex makes each use of the CRL cache one step.
pub mod Issuance
pub mod Revocation
pub mod Crl
pub mod Ocsp
pub mod Surface
pub mod Clients
pub mod Tests
use multivendor_hsm_pki.Prelude.{
  ℕ, zero, suc, ◌-◌, ◌/◌, Bool, true, false, String, Option, none, some, List, [], ◌∷◌, ℤ, Result,
  ok, err, length, ltb, Assoc, if◌then◌else◌,
}
use multivendor_hsm_pki.Action.{Act}
use multivendor_hsm_pki.Clock.{Time, Duration, second}
use multivendor_hsm_pki.Store.Service.{Records}
use multivendor_hsm_pki.Profile.{Set, ProfileError}
use multivendor_hsm_pki.Profile.Names.{Name, Request}
use multivendor_hsm_pki.Entitlement.{Net, Entitlement}
use multivendor_hsm_pki.Ca.{Bytes, X509, IssueError, Ca}
use multivendor_hsm_pki.Responder.{Responder}
use multivendor_hsm_pki.Responder

-- A message that is fixed, or the words of a refusal.
pub data Message (E : Type 0) : Type 0 where
  text : String → Message E
  of_profile : ProfileError → Message E
  of_issue : IssueError E → Message E

-- What a handler writes: an error; 201 with the leaf and the issuer; 204; an artifact with its type and
-- how long it may be cached, in seconds, none for no-store and for a probe, which has no such header. A
-- dereferenced nil makes net/http recover.
pub data Reply (E : Type 0) : Type 0 where
  error : ℕ → Message E → Reply E
  created : Bytes → Bytes → Reply E
  no_content : Reply E
  artifact : String → Option ℕ → Bytes → Reply E
  panicked : Reply E

-- The body of a request: what can be read of it, and whether the reading then fails.
pub record Body : Type 0 where
  pub contents : Bytes
  pub breaks : Bool

pub data ReadError : Type 0 where
  too_large unreadable : ReadError

-- io.ReadAll of an http.MaxBytesReader
unfoldable pub read_at_most : ℕ → Body → Result ReadError Bytes
read_at_most max body =
    if ltb max (length body.contents)
    then err too_large
    else if body.breaks
    then err unreadable
    else ok body.contents

abbrev pub prefix : ℕ → Bytes → Bytes
prefix zero bs = []
prefix (suc n) [] = []
prefix (suc n) (b ∷ bs) = b ∷ prefix n bs

-- io.ReadAll of an io.LimitReader: a body that is longer is cut off, and the rest is not read
unfoldable pub read_prefix : ℕ → Body → Result ReadError Bytes
read_prefix max body =
    if ltb (length body.contents) max
    then if body.breaks then err unreadable else ok body.contents
    else ok (prefix max body.contents)

pub record Web (E : Type 0) : Type 0 where
  pub x509 : X509 E
  pub pem_decode : Bytes → Option (String × Bytes)
  pub parse_request : Bytes → Result E Request
  -- the reason in the JSON of a revocation, 0 if it names none
  pub decode_reason : Bytes → Option ℤ
  pub path_unescape : String → Option String
  pub base64_decode : String → Option Bytes

-- The fields of the server that do not change.
pub record Settings (net : Net) : Type 0 where
  pub ca : Ca
  pub profiles : Set
  pub issuers : Assoc String (Entitlement net)
  pub crl_validity : Duration
  pub root_cert_der : Bytes
  pub root_crl_der : Bytes
  pub intermediate_der : Bytes

-- The state: the store, the cached CRL, which is none for nil, and the responder if there is one.
pub record Server (rs : Records Name) : Type 0 where
  pub store : rs.S
  pub cached_crl : Option Bytes
  pub cached_next_update : Time
  pub responder : Option Responder

-- int(time.Until(t).Seconds()), or 0 if that is negative
unfoldable pub seconds_until : Time → Time → ℕ
seconds_until t now = (t - now) / second
