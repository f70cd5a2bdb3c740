-- ===== src/Auth.antt =====
-- internal/api/auth.go: which client a request to a write endpoint is authorised as. TLS is what
-- crypto/tls verified; `show` stands for pkix.Name.String, and `get` for Store.Get, which may fail
-- with an error of its own.
pub mod Clients
pub mod Tests
use multivendor_hsm_pki.Prelude.{
  ℕ, Bool, true, false, not, String, Option, none, some, List, [], ◌∷◌, ◌++◌, ◌==◌, string_eq, ℤ,
  Result, ok, err, ◌>>=◌, ◌>>◌, refuse_if, contains, if◌then◌else◌,
}
use multivendor_hsm_pki.Store.{CertRecord, status_revoked}

pub record Cert (Name : Type 0) : Type 0 where
  pub serial : ℤ
  pub subject : Name
  pub uris : List String
  pub common_name : String

-- A refusal has a status and a message; anything else is a failure of the store.
pub data AuthError (E : Type 0) : Type 0 where
  refusal : ℕ → String → AuthError E
  lookup_failed : E → AuthError E

-- ClientIdentities
unfoldable pub client_identities : {Name : Type 0} → Cert Name → List String
client_identities cert = cert.uris ++ (if cert.common_name == "" then [] else cert.common_name ∷ [])

-- The two loops at the end of authenticate: the first identity that is allowed.
unfoldable pub first_allowed : List String → List String → Option String
first_allowed allowed [] = none
first_allowed allowed (id ∷ ids) =
    let rest = first_allowed allowed ids in if contains allowed id then some id else rest

abbrev pub unauthorized : ℕ
unauthorized = 401

abbrev pub forbidden : ℕ
forbidden = 403

abbrev pub authorised_as : {E : Type 0} → Option String → Result (AuthError E) String
authorised_as (some id) = ok id
authorised_as none = err (refusal forbidden "the client is not authorised for this operation")

module _ {E Name : Type 0} where
  -- r.TLS, nil over plain HTTP, and VerifiedChains[0][0]
  abbrev pub verified_leaf : Option (List (List (Cert Name))) → Result (AuthError E) (Cert Name)
  verified_leaf none = err (refusal unauthorized "this endpoint is served over mutual TLS only")
  verified_leaf (some []) = err (refusal unauthorized "a client certificate is required")
  verified_leaf (some ([] ∷ chains)) = err (refusal unauthorized "a client certificate is required")
  verified_leaf (some ((leaf ∷ chain) ∷ chains)) = ok leaf

  -- rec, found, err
  abbrev pub issued_here :
      Result E (Option (CertRecord Name)) → Result (AuthError E) (CertRecord Name)
  issued_here (err e) = err (lookup_failed e)
  issued_here (ok none) = err (refusal forbidden "the client certificate was not issued by this CA")
  issued_here (ok (some rec)) = ok rec

  unfoldable pub authenticate :
      (Name → String)
      → (ℤ → Result E (Option (CertRecord Name)))
      → Option (List (List (Cert Name)))
      → List String
      → Result (AuthError E) String
  authenticate show get tls allowed = do
    leaf ← verified_leaf tls
    rec ← issued_here (get leaf.serial)
    refuse_if (not (show rec.subject == show leaf.subject))
        (refusal forbidden "the client certificate does not match this CA's record of it")
    refuse_if (rec.status == status_revoked)
        (refusal forbidden "the client certificate has been revoked")
    authorised_as (first_allowed allowed (client_identities leaf))

-- What a wrapped handler writes: an error with its status, or what the handler itself does for the
-- identity.
pub data Response (R : Type 0) : Type 0 where
  error : ℕ → String → Response R
  handled : R → Response R

abbrev pub respond : {E R : Type 0} → (String → R) → Result (AuthError E) String → Response R
respond next (ok identity) = handled (next identity)
respond next (err (refusal status msg)) = error status msg
respond next (err (lookup_failed e)) = error 500 "client authentication failed"

module _ {E Name R : Type 0} where
  unfoldable pub require_client :
      (Name → String)
      → (ℤ → Result E (Option (CertRecord Name)))
      → List String
      → (String → R)
      → Option (List (List (Cert Name)))
      → Response R
  require_client show get allowed next tls = respond next (authenticate show get tls allowed)
