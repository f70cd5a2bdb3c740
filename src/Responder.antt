-- ===== src/Responder.antt =====
-- internal/responder/responder.go: the delegated OCSP responder. Ocsp stands for what it calls of
-- golang.org/x/crypto/ocsp and of the request side of crypto/x509; the responder's signer stands in
-- create_response and create_request. Two certificates are one pointer if their DER is the same.
pub mod Renewal
pub mod Truthful
pub mod Race
pub mod Tests
use multivendor_hsm_pki.Prelude.{
  ℕ, ◌+◌, ◌-◌, ◌*◌, ◌/◌, Bool, true, false, not, ◌&&◌, ◌||◌, String, Option, none, some, List, [],
  ◌∷◌, ◌==◌, nat_eq, string_eq, ℤ, pos, negsuc, int_eq, Result, ok, err, ◌>>=◌, ◌>>◌, refuse_if,
  ltb, Assoc, lookup, insert, if◌then◌else◌,
}
use multivendor_hsm_pki.Clock.{Time, Duration, minute, add, after, before}
use multivendor_hsm_pki.Store.{CertRecord, status_revoked, RevocationReason}
use multivendor_hsm_pki.Store.Service.{Failure, Records}
use multivendor_hsm_pki.Profile.{Profile}
use multivendor_hsm_pki.Profile.Names.{Name, Request}
use multivendor_hsm_pki.Ca.{Bytes, Certificate, Ca}

abbrev pub clock_skew_allowance : ℕ
clock_skew_allowance = 5 * minute

pub data Status : Type 0 where
  good revoked unknown : Status

-- crypto.Hash
abbrev pub Hash : Type 0
Hash = ℕ

pub record Query : Type 0 where
  pub serial : Option ℤ
  pub hash : Hash
  pub issuer_name_hash : Bytes
  pub issuer_key_hash : Bytes

-- The ocsp.Response that is signed.
pub record Answer : Type 0 where
  pub serial : ℤ
  pub status : Status
  pub produced_at : Time
  pub this_update : Time
  pub next_update : Time
  pub revoked_at : Time
  pub revocation_reason : ℤ
  pub issuer_hash : Hash
  pub certificate : Certificate

pub record Ocsp : Type 0 where
  pub parse_query : Bytes → Option Query
  pub create_response : Certificate → Certificate → Answer → Option Bytes
  pub status_of : Bytes → Option Status
  pub malformed_request : Bytes
  pub unauthorized_response : Bytes
  pub try_later : Bytes
  -- x509.CreateCertificateRequest for a common name, by the responder key
  pub create_request : String → Option Bytes
  pub parse_request : Bytes → Option Request

pub record Cached : Type 0 where
  pub der : Bytes
  pub next_update : Time

pub record Config : Type 0 where
  pub issuer : Ca
  pub profile : Profile
  pub subject : String
  pub window : Duration
  pub name_hash : Assoc Hash Bytes
  pub key_hash : Assoc Hash Bytes

-- The fields that change, which the mutex guards.
pub record Responder : Type 0 where
  pub cert : Option Certificate
  pub cache : Assoc ℤ Cached

-- Outcome: `status` is none for -1, and `error` is empty on success
pub record Outcome : Type 0 where
  pub status : Option Status
  pub error : String
  pub next_update : Time
  pub cached : Bool

abbrev pub Reply : Type 0
Reply = Bytes × Outcome

abbrev pub refused : String → Outcome
refused e = record { status = none; error = e; next_update = 0; cached = false }

-- equal
unfoldable pub equal : Bytes → Bytes → Bool
equal [] [] = true
equal (a ∷ as_) (b ∷ bs) = a == b && equal as_ bs
equal _ _ = false

abbrev pub positive_serial : Option ℤ → Option ℤ
positive_serial (some (pos n)) = if ltb 0 n then some (pos n) else none
positive_serial _ = none

abbrev pub bytes_of : Option Bytes → Bytes
bytes_of none = []
bytes_of (some b) = b

abbrev pub status_or_good : Option Status → Status
status_or_good none = good
status_or_good (some s) = s

-- The check of the responder's own certificate at the point of use.
unfoldable pub may_sign : Option Certificate → Time → Option Certificate
may_sign none now = none
may_sign (some cert) now =
    if before (now + clock_skew_allowance) cert.not_before || after now cert.not_after
    then none
    else some cert

-- The template, by what the store says of the serial.
unfoldable pub answer_for :
    Config → ℤ × Hash → Certificate → Time → Option (CertRecord Name) → Answer
answer_for cfg (serial, hash) cert now found =
    let base : Answer = record {
      serial = serial;
      status = good;
      produced_at = now;
      this_update = now - clock_skew_allowance;
      next_update = add now cfg.window;
      revoked_at = 0;
      revocation_reason = pos 0;
      issuer_hash = hash;
      certificate = cert;
    } in
    elim found [
      | none ↦ record base { status = unknown }
      | some rec ↦
          if rec.status == status_revoked
          then record base {
            status = revoked;
            revoked_at = rec.revoked_at;
            revocation_reason = rec.revocation_reason;
          }
          else base
    ]

-- The second critical section: a response is kept only if the store has the serial and the certificate
-- is still the one it was signed under.
abbrev pub same_certificate : Option Certificate → Certificate → Bool
same_certificate none cert = false
same_certificate (some current) cert = equal current.raw cert.raw

abbrev pub is_found : Option (CertRecord Name) → Bool
is_found none = false
is_found (some rec) = true

unfoldable pub keep : Responder → ℤ → Certificate → Option (CertRecord Name) → Cached → Responder
keep r serial cert found c =
    if is_found found && same_certificate r.cert cert
    then record r { cache = insert serial c r.cache }
    else r

module _ (o : Ocsp) where
  abbrev pub malformed : Reply
  malformed = (o.malformed_request, refused "malformedRequest")

  abbrev pub later : Reply
  later = (o.try_later, refused "tryLater")

  abbrev pub needed : {A : Type 0} → Option A → Result Reply A
  needed none = err malformed
  needed (some a) = ok a

  -- The first half of Respond: which serial the request asks for, and under which hash.
  unfoldable pub recognise : Config → Bytes → Result Reply (ℤ × Hash)
  recognise cfg der = do
    q ← needed (o.parse_query der)
    serial ← needed (positive_serial q.serial)
    name_hash ← needed (lookup q.hash cfg.name_hash)
    refuse_if
        (not (equal name_hash q.issuer_name_hash)
          || not (equal (bytes_of (lookup q.hash cfg.key_hash)) q.issuer_key_hash))
        (o.unauthorized_response, refused "unauthorized")
    ok (serial, q.hash)

  -- The first critical section: a cached response that is still fresh.
  abbrev pub fresh_reply : Time → Cached → Option Reply
  fresh_reply now c =
      if before now c.next_update
      then some (
        c.der,
        record {
          status = some (status_or_good (o.status_of c.der));
          error = "";
          next_update = c.next_update;
          cached = true;
        },
      )
      else none

  unfoldable pub cached_reply : Responder → ℤ → Time → Option Reply
  cached_reply r serial now = elim (lookup serial r.cache) [
    | none ↦ none
    | some c ↦ fresh_reply now c
  ]

  -- What is left to do once the store has answered.
  unfoldable pub sign_reply :
      Config
      → ℤ × Hash
      → Certificate
      → Time
      → Option (CertRecord Name)
      → Responder
      → Reply × Responder
  sign_reply cfg (serial, hash) cert now found r =
      let answer = answer_for cfg (serial, hash) cert now found in
      elim (o.create_response cfg.issuer.cert cert answer) [
        | none ↦ (later, r)
        | some der ↦ (
          (
            der,
            record {
              status = some answer.status;
              error = "";
              next_update = answer.next_update;
              cached = false;
            },
          ),
          keep r serial cert found (record { der = der; next_update = answer.next_update }),
        )
      ]

  module _ (rs : Records Name) where
    abbrev pub after_get :
        Config
        → ℤ × Hash
        → Certificate
        → Time
        → Responder
        → Result Failure (Option (CertRecord Name)) × rs.S
        → Reply × Responder × rs.S
    after_get cfg query cert now r (err e, s) = (later, r, s)
    after_get cfg query cert now r (ok found, s) =
        let (reply, r') = sign_reply cfg query cert now found r in (reply, r', s)

    abbrev pub on_miss :
        Config → ℤ × Hash → Option Certificate → Time → Responder → rs.S → Reply × Responder × rs.S
    on_miss cfg query none now r s = (later, r, s)
    on_miss cfg (serial, hash) (some cert) now r s =
        after_get cfg (serial, hash) cert now r (rs.get serial s)

    abbrev pub on_query :
        Config → ℤ × Hash → Option Reply → Time → Responder → rs.S → Reply × Responder × rs.S
    on_query cfg query (some reply) now r s = (reply, r, s)
    on_query cfg query none now r s = on_miss cfg query (may_sign r.cert now) now r s

    abbrev pub on_request :
        Config → Result Reply (ℤ × Hash) → Time → Responder → rs.S → Reply × Responder × rs.S
    on_request cfg (err reply) now r s = (reply, r, s)
    on_request cfg (ok (serial, hash)) now r s =
        on_query cfg (serial, hash) (cached_reply r serial now) now r s

    -- Respond, when nothing else runs meanwhile
    unfoldable pub respond : Config → Bytes → Time → Responder → rs.S → Reply × Responder × rs.S
    respond cfg der now r s = on_request cfg (recognise cfg der) now r s

-- Invalidate
unfoldable pub invalidate : Responder → Responder
invalidate r = record r { cache = [] }
