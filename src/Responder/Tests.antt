-- ===== src/Responder/Tests.antt =====
-- A toy of the OCSP library over the in-memory store, and the theorems on the responder at it
-- (internal/responder).
use multivendor_hsm_pki.Prelude.{
  ℕ, ◌≡◌, ◌≢◌, refl, arith, none, some, [], ◌∷◌, pos, int_eq, string_eq, ok, lookup, insert,
}
use multivendor_hsm_pki.Clock.{hour}
use multivendor_hsm_pki.Store.{
  CertRecord, status_valid, status_revoked, copy_record, normalize_time, valid,
}
use multivendor_hsm_pki.Store.Memory.{Memory, new_memory, record_cert, get, revoke}
use multivendor_hsm_pki.Store.Memory.Service.{memory_records, memory_records-IsRecords}
use multivendor_hsm_pki.Store.Memory.Listing.{IsKeyed}
use multivendor_hsm_pki.Profile.Builtin.{ocsp_responder}
use multivendor_hsm_pki.Profile.Names.{Name, empty_name}
use multivendor_hsm_pki.Ca.Tests.{
  toy_certificate, toy_x509, toy_ca, toy_request, toy_draws, toy_now,
}
use multivendor_hsm_pki.Responder.{
  Hash, Status, good, revoked, unknown, Ocsp, Config, Responder, recognise, equal, cached_reply,
  respond, answer_for, invalidate, may_sign,
}
use multivendor_hsm_pki.Responder.Truthful.{IsCurrent, Leaves, respond_truthful}
use multivendor_hsm_pki.Responder.Renewal.{renew, Renewed, renew_exact}
use multivendor_hsm_pki.Api.Crl.Kept.{IsRevokedAs}
use multivendor_hsm_pki.Responder.Race.{Pending, finish, stale_good_kept, hash_ignored}

abbrev pub toy_status : Status → ℕ
toy_status good = 0
toy_status revoked = 1
toy_status unknown = 2

-- A request is the number of its hash; a response its status.
abbrev pub toy_ocsp : Ocsp
toy_ocsp = record {
  parse_query = λ der. elim der [
    | [] ↦ none
    | hash ∷ rest ↦ some (record {
      serial = some (pos 5);
      hash = hash;
      issuer_name_hash = 1 ∷ [];
      issuer_key_hash = 2 ∷ [];
    })
  ];
  create_response = λ issuer cert a. some (toy_status a.status ∷ []);
  status_of = λ der. none;
  malformed_request = [];
  unauthorized_response = [];
  try_later = [];
  create_request = λ subject. some [];
  parse_request = λ der. some toy_request;
}

abbrev pub toy_config : Config
toy_config = record {
  issuer = toy_ca;
  profile = ocsp_responder;
  subject = "toy";
  window = pos hour;
  name_hash = (3, 1 ∷ []) ∷ (5, 1 ∷ []) ∷ [];
  key_hash = (3, 2 ∷ []) ∷ (5, 2 ∷ []) ∷ [];
}

abbrev pub toy_responder : Responder
toy_responder = record { cert = some (toy_certificate (pos 9)); cache = [] }

abbrev pub five_valid : CertRecord Name
five_valid = record {
  serial = pos 5;
  subject = empty_name;
  not_after = 0;
  status = status_valid;
  revoked_at = 0;
  revocation_reason = pos 0;
}

abbrev pub toy_store : Memory Name
toy_store = (record_cert new_memory five_valid).0

pub toy_store-IsKeyed : IsKeyed toy_store.records
unfolding record_cert lookup insert copy_record
toy_store-IsKeyed = (refl, refl, tt)

nothing_cached : IsCurrent toy_ocsp toy_config memory_records toy_responder toy_store
unfolding lookup
nothing_cached serial c h = cc

respond_truthful_example :
    Leaves toy_ocsp toy_config memory_records toy_store
      (recognise toy_ocsp toy_config (3 ∷ []))
      (respond toy_ocsp memory_records toy_config (3 ∷ []) toy_now toy_responder toy_store)
respond_truthful_example =
    respond_truthful toy_ocsp toy_config memory_records memory_records-IsRecords (3 ∷ []) toy_now
      toy_responder toy_store toy_store-IsKeyed nothing_cached

renew_exact_example :
    Renewed toy_x509 toy_ocsp memory_records toy_responder toy_store
      (renew toy_x509 toy_ocsp memory_records toy_config toy_now toy_draws toy_responder toy_store)
renew_exact_example =
    renew_exact toy_x509 toy_ocsp memory_records memory_records-IsRecords toy_config toy_now
      toy_draws toy_responder toy_store

abbrev in_hand : Pending
in_hand = record {
  serial = pos 5;
  hash = 3;
  cert = toy_certificate (pos 9);
  now = toy_now;
  found = some five_valid;
}

signed_good :
    toy_ocsp.create_response toy_config.issuer.cert in_hand.cert
      (answer_for toy_config (in_hand.serial, in_hand.hash) in_hand.cert in_hand.now in_hand.found)
    ≡ some (0 ∷ [])
unfolding answer_for
signed_good = refl

not_revoked : five_valid.status ≢ status_revoked
not_revoked h = absurd (ground (arith, string_eq.beq_iff "valid" "revoked", h))

read_five : (memory_records.get (pos 5) toy_store).0 ≡ ok (some five_valid)
unfolding record_cert get lookup insert copy_record normalize_time
read_five = refl

revoked_five :
    (memory_records.revoke (pos 5) (pos 1) toy_now (memory_records.get (pos 5) toy_store).1).0
    ≡ ok tt
unfolding record_cert revoke lookup insert copy_record normalize_time valid
revoked_five = refl

by_three : recognise toy_ocsp toy_config (3 ∷ []) ≡ ok (pos 5, 3)
unfolding recognise lookup equal
by_three = refl

by_five : recognise toy_ocsp toy_config (5 ∷ []) ≡ ok (pos 5, 5)
unfolding recognise lookup equal
by_five = refl

stale_good_kept_example :
    ((answer_for toy_config
        (in_hand.serial, in_hand.hash)
        in_hand.cert
        in_hand.now
        in_hand.found).status
      ≡ good)
    × ((now : CertRecord Name) × IsRevokedAs memory_records
          (pos 5)
          now
          (memory_records.revoke
            (pos 5)
            (pos 1)
            toy_now
            (memory_records.get (pos 5) toy_store).1).1)
    × ((respond toy_ocsp memory_records toy_config
          (5 ∷ [])
          toy_now
          (finish toy_ocsp toy_config in_hand (invalidate toy_responder)).1
          (memory_records.revoke
            (pos 5)
            (pos 1)
            toy_now
            (memory_records.get (pos 5) toy_store).1).1).0.0
        ≡ 0 ∷ [])
stale_good_kept_example =
    stale_good_kept toy_ocsp toy_config memory_records memory_records-IsRecords in_hand five_valid
      toy_responder (0 ∷ []) toy_store (pos 1) toy_now toy_now 5 (5 ∷ []) read_five refl not_revoked
      refl signed_good revoked_five by_five (omega arith)

nothing_fresh : cached_reply toy_ocsp toy_responder (pos 5) toy_now ≡ none
unfolding cached_reply lookup
nothing_fresh = refl

still_signs : may_sign toy_responder.cert toy_now ≡ some (toy_certificate (pos 9))
unfolding may_sign
still_signs = refl

abbrev three : Hash
three = 3

abbrev five : Hash
five = 5

apart_hashes : three ≢ five
apart_hashes h = omega (arith, h)

hash_ignored_example :
    ((respond toy_ocsp memory_records toy_config (3 ∷ []) toy_now toy_responder toy_store).0.0
      ≡ 0 ∷ [])
    × ((respond toy_ocsp memory_records toy_config
          (5 ∷ [])
          toy_now
          (respond toy_ocsp memory_records toy_config (3 ∷ []) toy_now toy_responder toy_store).1
          (respond toy_ocsp memory_records toy_config
            (3 ∷ [])
            toy_now
            toy_responder
            toy_store).2).0.0
        ≡ 0 ∷ [])
    × ((answer_for toy_config
          (pos 5, 3)
          (toy_certificate (pos 9))
          toy_now
          (some five_valid)).issuer_hash
        ≡ 3)
    × ((answer_for toy_config
          (pos 5, 3)
          (toy_certificate (pos 9))
          toy_now
          (some five_valid)).issuer_hash
        ≢ 5)
hash_ignored_example =
    hash_ignored toy_ocsp toy_config memory_records (pos 5) 3 5 (3 ∷ []) (5 ∷ []) (0 ∷ [])
      (toy_certificate (pos 9)) five_valid toy_now toy_now toy_responder toy_store apart_hashes
      by_three by_five nothing_fresh still_signs read_five signed_good (omega arith)
