-- ===== src/Api/Tests.antt =====
-- A toy of the web libraries over the in-memory store, and the theorems on the API at it (internal/api).
use multivendor_hsm_pki.Prelude.{
  ◌*◌, ◌≡◌, ◌⊎◌, refl, true, false, String, none, some, List, [], ◌∷◌, ◌==◌, ℤ, pos, int_eq,
  string_eq, nat_eq, ok, err, lookup, insert, contains, Member, any,
}
use multivendor_hsm_pki.Clock.{hour}
use multivendor_hsm_pki.Text.Decimal.{parse_decimal, signed, digits, digits_from}
use multivendor_hsm_pki.Store.{CertRecord, copy_record, valid, normalize_time}
use multivendor_hsm_pki.Store.Contract.{withdrawn}
use multivendor_hsm_pki.Store.Memory.Listing.{IsKeyed}
use multivendor_hsm_pki.Api.Clients.{IsRefused, revoked_client_refused}
use multivendor_hsm_pki.Store.Memory.{
  new_memory, record_cert, get, revoke, revoked, next_crl_number, seed_crl_number,
}
use multivendor_hsm_pki.Store.Memory.Service.{memory_records, memory_records-IsRecords}
use multivendor_hsm_pki.Entitlement.{
  Net, Entitlement, Pattern, any_ip, name_dns, name_cn, permits_profile, matches,
}
use multivendor_hsm_pki.Entitlement.Names.{permits_names, check_all, check_name}
use multivendor_hsm_pki.Profile.{Profile, lookup_profile, algorithm_of, allows_key}
use multivendor_hsm_pki.Profile.Builtin.{builtin}
use multivendor_hsm_pki.Profile.Names.{
  Name, Request, check_sans, count_sans, subject_for, keep_rdns, rdn_short_name, short_name_in,
  fill, set_attribute, set_field,
}
use multivendor_hsm_pki.Auth.{Cert, authenticate, require_client, first_allowed, client_identities}
use multivendor_hsm_pki.Ca.{
  Draw, Certificate, RevocationList, RevokedCert, validate_url, validate_distribution,
}
use multivendor_hsm_pki.Ca.Serial.{generate_serial, value, value_from}
use multivendor_hsm_pki.Ca.Issue.{
  issue, check_policy, validate_csr, check_issuer_can_cover, sign_leaf, subject_key_id,
  leaf_template, key_usage_for,
}
use multivendor_hsm_pki.Ca.Crl.{build_crl}
use multivendor_hsm_pki.Ca.Tests.{
  toy_x509, toy_ca, toy_request, toy_subject, toy_draws, ending_in, toy_now,
}
use multivendor_hsm_pki.Responder.Renewal.{record_of_issued}
use multivendor_hsm_pki.Responder.Tests.{
  toy_ocsp, toy_config, five_valid, toy_store, toy_store-IsKeyed,
}
use multivendor_hsm_pki.Api.{
  Reply, Body, created, no_content, artifact, read_at_most, read_prefix, Web, Settings, Server,
  seconds_until,
}
use multivendor_hsm_pki.Api.Issuance.{IssueCall, parse_csr, admit, handle_issue}
use multivendor_hsm_pki.Api.Issuance.Admission.{Admitted}
use multivendor_hsm_pki.Api.Issuance.Answered.{Answered, handle_issue_exact}
use multivendor_hsm_pki.Api.Revocation.{
  RevokeCall, read_reason, read_revocation, handle_revoke, invalidate_crl_cache, Revokes,
  handle_revoke_exact,
}
use multivendor_hsm_pki.Api.Ocsp.{handle_ocsp_post, serve_ocsp}
use multivendor_hsm_pki.Api.Crl.{handle_crl, current_crl, next_update_for}
use multivendor_hsm_pki.Api.Crl.Served.{
  ApiCall, fetches_crl, posts_ocsp, serve, serve_all, ServesCrl, served_crl_exact,
}
use multivendor_hsm_pki.Api.Crl.Lasting.{revoked_is_listed}
use multivendor_hsm_pki.Api.Surface.{
  Tls, post_certificates_handler, post_revoke_handler, stored, identities, issued_to_entitled,
}

abbrev toy_net : Net
toy_net = record {
  Ip = String;
  Cidr = String;
  parse_ip = λ t. some t;
  parse_cidr = λ t. none;
  cidr_contains = λ range ip. false;
  same_ip = λ a b. a == b;
  same_fold = λ c d. c == d;
}

abbrev toy_web : Web String
toy_web = record {
  x509 = toy_x509;
  pem_decode = λ body. none;
  parse_request = λ body. ok toy_request;
  decode_reason = λ body. some (pos 1);
  path_unescape = λ s. none;
  base64_decode = λ s. none;
}

-- A pattern that matches any name of its type.
abbrev anything : Pattern toy_net
anything = record { name_type = name_cn; raw = "*"; matcher = any_ip }

abbrev toy_grant : Entitlement toy_net
toy_grant = record {
  profiles = "tls-server" ∷ [];
  names = anything ∷ record anything { name_type = name_dns } ∷ [];
}

abbrev toy_settings : Settings toy_net
toy_settings = record {
  ca = toy_ca;
  profiles = builtin;
  issuers = ("alice", toy_grant) ∷ [];
  crl_validity = pos (24 * hour);
  root_cert_der = [];
  root_crl_der = [];
  intermediate_der = [];
}

abbrev toy_server : Server memory_records
toy_server = record {
  store = new_memory;
  cached_crl = none;
  cached_next_update = 0;
  responder = none;
}

-- The server of a store that has the certificate 5.
abbrev server_five : Server memory_records
server_five = record toy_server { store = toy_store }

abbrev toy_body : Body
toy_body = record { contents = 1 ∷ []; breaks = false }

abbrev alice_asks : IssueCall
alice_asks = record { profile = "tls-server"; client = "alice"; body = toy_body }

-- A 201 for a request that is allowed.
answered_201 :
    (handle_issue toy_web toy_settings alice_asks toy_now toy_draws toy_server).0
    ≡ created (5 ∷ []) (1 ∷ [])
unfolding handle_issue admit lookup_profile lookup permits_profile contains read_at_most parse_csr
    permits_names check_all check_name any matches issue check_policy validate_distribution
    validate_url validate_csr allows_key algorithm_of check_sans count_sans subject_for keep_rdns
    rdn_short_name short_name_in check_issuer_can_cover sign_leaf generate_serial value value_from
    ending_in subject_key_id leaf_template fill set_attribute set_field key_usage_for record_cert
answered_201 = refl

handle_issue_exact_example :
    Answered toy_web toy_settings alice_asks toy_now toy_draws toy_server
      (handle_issue toy_web toy_settings alice_asks toy_now toy_draws toy_server)
handle_issue_exact_example =
    handle_issue_exact toy_web toy_settings memory_records-IsRecords alice_asks toy_now toy_draws
      toy_server

abbrev revoke_five : RevokeCall
revoke_five = record { serial = "5"; has_body = true; body = toy_body }

handle_revoke_exact_example :
    ((serial : ℤ) × (reason : ℤ) × (read_revocation toy_web revoke_five ≡ ok (serial, reason))
      × Revokes serial reason toy_now server_five
          (handle_revoke toy_web revoke_five toy_now server_five))
    ⊎ ((reply : Reply String) × (read_revocation toy_web revoke_five ≡ err reply)
        × (handle_revoke toy_web revoke_five toy_now server_five ≡ (reply, server_five)))
handle_revoke_exact_example =
    handle_revoke_exact toy_web memory_records-IsRecords revoke_five toy_now server_five

abbrev before_it : List ApiCall
before_it = fetches_crl toy_now toy_now ∷ posts_ocsp toy_body toy_now toy_now ∷ []

served_crl_exact_example :
    ServesCrl toy_web toy_settings memory_records
      (serve_all toy_web toy_settings memory_records toy_ocsp toy_config before_it server_five)
      (handle_crl toy_web toy_settings toy_now toy_now
        (serve_all toy_web toy_settings memory_records toy_ocsp toy_config before_it server_five))
served_crl_exact_example =
    served_crl_exact toy_web toy_settings memory_records toy_ocsp toy_config
      memory_records-IsRecords before_it toy_now toy_now server_five toy_store-IsKeyed refl

asks_five : read_revocation toy_web revoke_five ≡ ok (pos 5, pos 1)
unfolding read_revocation read_reason parse_decimal signed digits digits_from read_prefix
asks_five = refl

done_five :
    (handle_revoke toy_web revoke_five toy_now
      (serve_all toy_web toy_settings memory_records toy_ocsp toy_config before_it server_five)).0
    ≡ no_content
unfolding handle_revoke read_revocation read_reason parse_decimal signed digits digits_from
    read_prefix serve_all serve handle_ocsp_post serve_ocsp read_at_most handle_crl current_crl
    revoked next_crl_number seed_crl_number build_crl next_update_for record_cert lookup insert
    revoke valid copy_record
done_five = refl

served_after :
    (handle_crl toy_web toy_settings toy_now toy_now (
      serve_all toy_web toy_settings memory_records toy_ocsp toy_config []
        (handle_revoke toy_web revoke_five toy_now (
          serve_all toy_web toy_settings memory_records toy_ocsp toy_config before_it
            server_five)).1)).0
    ≡ artifact "application/pkix-crl" (some 86400) (1 ∷ [])
unfolding handle_revoke invalidate_crl_cache read_revocation read_reason parse_decimal signed digits
    digits_from read_prefix serve_all serve handle_ocsp_post serve_ocsp read_at_most handle_crl
    current_crl revoked next_crl_number seed_crl_number build_crl next_update_for record_cert lookup
    insert revoke valid copy_record seconds_until
served_after = refl

revoked_is_listed_example :
    (l : RevocationList) × (e : RevokedCert) × (toy_x509.create_crl l toy_ca.cert ≡ ok (1 ∷ []))
    × Member e l.entries
    × (e.serial ≡ pos 5)
revoked_is_listed_example =
    revoked_is_listed toy_web toy_settings memory_records toy_ocsp toy_config
      memory_records-IsRecords before_it [] revoke_five toy_now toy_now toy_now server_five (pos 5)
      (pos 1) "application/pkix-crl" (some 86400) (1 ∷ []) toy_store-IsKeyed refl asks_five
      done_five served_after

-- A client whose certificate is 5, and who is alice.
abbrev alice_tls : Tls
alice_tls =
    some (
      (record { serial = pos 5; subject = toy_subject; uris = []; common_name = "alice" } ∷ [])
      ∷ [])

abbrev shown_name : Name → String
shown_name n = "alice"

abbrev new_draws : List Draw
new_draws = ending_in 6 ∷ []

issued_to_alice :
    (post_certificates_handler toy_web toy_settings shown_name alice_tls alice_asks toy_now
      new_draws server_five).0
    ≡ created (6 ∷ []) (1 ∷ [])
unfolding post_certificates_handler require_client authenticate first_allowed client_identities get
    copy_record insert handle_issue admit lookup_profile lookup permits_profile contains
    read_at_most parse_csr permits_names check_all check_name any matches issue check_policy
    validate_distribution validate_url validate_csr allows_key algorithm_of check_sans count_sans
    subject_for keep_rdns rdn_short_name short_name_in check_issuer_can_cover sign_leaf
    generate_serial value value_from ending_in subject_key_id leaf_template fill set_attribute
    set_field key_usage_for record_cert
issued_to_alice = refl

issued_to_entitled_example :
    (identity : String) × (p : Profile) × (csr : Request) × (cert : Certificate) × (authenticate
        shown_name
        (stored toy_web toy_settings server_five)
        alice_tls
        (identities toy_settings.issuers)
      ≡ ok identity)
    × Admitted toy_web toy_settings (record alice_asks { client = identity }) p csr
    × (issue toy_x509 toy_ca csr (some p) toy_now new_draws ≡ ok cert)
    × (6 ∷ [] ≡ cert.raw)
    × (get
          (post_certificates_handler toy_web toy_settings shown_name alice_tls alice_asks toy_now
            new_draws server_five).1.store
          cert.serial
        ≡ some (copy_record (record_of_issued cert)))
issued_to_entitled_example =
    issued_to_entitled toy_web toy_settings memory_records-IsRecords shown_name alice_tls alice_asks
      toy_now new_draws server_five (6 ∷ []) (1 ∷ []) issued_to_alice

-- The record of alice's certificate, revoked, and the server that has it.
abbrev five_revoked : CertRecord Name
five_revoked = withdrawn (pos 1) toy_now five_valid

abbrev server_revoked : Server memory_records
server_revoked = record toy_server {
  store = record { records = (pos 5, five_revoked) ∷ []; crl_number = none };
}

revoked_is_shown : get server_revoked.store (pos 5) ≡ some five_revoked
unfolding get lookup copy_record normalize_time
revoked_is_shown = refl

only_five-IsKeyed : IsKeyed server_revoked.store.records
unfolding lookup
only_five-IsKeyed = (refl, refl, tt)

abbrev alice_leaf : Cert Name
alice_leaf = record { serial = pos 5; subject = toy_subject; uris = []; common_name = "alice" }

revoked_client_refused_example :
    IsRefused
      (pos 5)
      (serve_all toy_web toy_settings memory_records toy_ocsp toy_config before_it server_revoked)
      (post_certificates_handler toy_web toy_settings shown_name
        (some ((alice_leaf ∷ []) ∷ []))
        alice_asks
        toy_now
        new_draws
        (serve_all toy_web toy_settings memory_records toy_ocsp toy_config before_it
          server_revoked))
    × IsRefused
        (pos 5)
        (serve_all toy_web toy_settings memory_records toy_ocsp toy_config before_it server_revoked)
        (post_revoke_handler toy_web toy_settings shown_name
          ("alice" ∷ [])
          (some ((alice_leaf ∷ []) ∷ []))
          revoke_five
          toy_now
          (serve_all toy_web toy_settings memory_records toy_ocsp toy_config before_it
            server_revoked))
revoked_client_refused_example =
    revoked_client_refused toy_web toy_settings memory_records shown_name alice_leaf [] []
      memory_records-IsRecords toy_ocsp toy_config before_it five_revoked ("alice" ∷ []) alice_asks
      revoke_five toy_now new_draws server_revoked only_five-IsKeyed refl revoked_is_shown refl
