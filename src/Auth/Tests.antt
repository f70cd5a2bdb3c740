-- ===== src/Auth/Tests.antt =====
-- A client and the record of its certificate, and the theorems on clients at them
-- (internal/api/auth.go).
use multivendor_hsm_pki.Prelude.{
  ◌≡◌, refl, ◌↔◌, String, Option, none, some, List, [], ◌∷◌, ℤ, pos, string_eq, int_eq, Result, ok,
  err, contains,
}
use multivendor_hsm_pki.Store.{CertRecord, StoreError, status_valid, reason_unspecified}
use multivendor_hsm_pki.Auth.{
  Cert, refusal, client_identities, first_allowed, authenticate, unauthorized,
}
use multivendor_hsm_pki.Auth.Clients.{IsClient, authenticate_iff}

abbrev operator : Cert String
operator = record {
  serial = pos 7;
  subject = "CN=alice";
  uris = "urn:hsm-pki:operator:alice" ∷ [];
  common_name = "alice";
}

abbrev operator_record : CertRecord String
operator_record = record {
  serial = pos 7;
  subject = "CN=alice";
  not_after = 5000000000;
  status = status_valid;
  revoked_at = 0;
  revocation_reason = reason_unspecified;
}

abbrev show : String → String
show name = name

abbrev shown_record : ℤ → Result StoreError (Option (CertRecord String))
shown_record serial = ok (some operator_record)

abbrev operators : List String
operators = "alice" ∷ []

by_common_name : authenticate show shown_record (some ((operator ∷ []) ∷ [])) operators ≡ ok "alice"
unfolding authenticate first_allowed contains client_identities
by_common_name = refl

plain_http :
    authenticate show shown_record none operators
    ≡ err (refusal unauthorized "this endpoint is served over mutual TLS only")
unfolding authenticate
plain_http = refl

authenticate_iff_example :
    (authenticate show shown_record (some ((operator ∷ []) ∷ [])) operators ≡ ok "alice")
    ↔ IsClient show shown_record (some ((operator ∷ []) ∷ [])) operators "alice"
authenticate_iff_example =
    authenticate_iff show shown_record (some ((operator ∷ []) ∷ [])) operators "alice"
