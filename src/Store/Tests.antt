-- ===== src/Store/Tests.antt =====
-- Runs of the in-memory store (internal/store/memory.go), and the theorems on the store at them.
use multivendor_hsm_pki.Prelude.{
  ◌≡◌, ◌≢◌, refl, String, none, some, List, [], ◌∷◌, pos, err, lookup, int_eq, string_eq, arith,
}
use multivendor_hsm_pki.Store.{
  CertRecord, cert_not_found, duplicate_serial, invalid_revocation_reason, valid, status_valid,
  status_revoked, normalize_time, copy_record, reason_key_compromise, reason_remove_from_crl,
  reason_unspecified,
}
use multivendor_hsm_pki.Store.Contract.{withdrawn, IsStore}
use multivendor_hsm_pki.Store.History.{
  Call, record_of, revoke_of, next_of, fails, run, issued, IsIncreasing, revoked_forever,
  issued-IsIncreasing,
}
use multivendor_hsm_pki.Store.Memory.{Memory, record_cert, get, revoke, next_crl_number}
use multivendor_hsm_pki.Store.Memory.Laws.{memory_ops, memory_ops-IsStore}

abbrev alice : CertRecord String
alice = record {
  serial = pos 7;
  subject = "CN=alice";
  not_after = 5000000000;
  status = status_valid;
  revoked_at = 0;
  revocation_reason = reason_unspecified;
}

abbrev alice_revoked : CertRecord String
alice_revoked = withdrawn reason_key_compromise 3000000000 alice

abbrev one_cert : Memory String
one_cert = record { records = (pos 7, alice) ∷ []; crl_number = none }

abbrev one_revoked : Memory String
one_revoked = record { records = (pos 7, alice_revoked) ∷ []; crl_number = some 4 }

abbrev later_calls : List (Call String)
later_calls =
    revoke_of (pos 7) reason_unspecified 9000000000 ∷ fails ∷ record_of alice ∷ next_of 0 ∷ []

duplicate_refused : (record_cert one_cert alice).1 ≡ err duplicate_serial
unfolding record_cert lookup
duplicate_refused = refl

reasons_checked :
    (revoke one_cert (pos 7) reason_remove_from_crl 0).1 ≡ err invalid_revocation_reason
unfolding revoke valid
reasons_checked = refl

unknown_not_revoked : (revoke one_cert (pos 8) reason_key_compromise 0).1 ≡ err cert_not_found
unfolding revoke valid lookup
unknown_not_revoked = refl

numbers : issued memory_ops one_revoked (next_of 0 ∷ next_of 0 ∷ []) ≡ 5 ∷ 6 ∷ []
unfolding issued next_crl_number
numbers = refl

is_revoked : get one_revoked (pos 7) ≡ some alice_revoked
unfolding get lookup copy_record normalize_time
is_revoked = refl

is_live : get one_cert (pos 7) ≡ some alice
unfolding get lookup copy_record normalize_time
is_live = refl

live : alice.status ≢ status_revoked
live h = ground (arith, string_eq.beq_iff status_valid status_revoked)

memory_ops-IsStore_example : IsStore (memory_ops {Name = String})
memory_ops-IsStore_example = memory_ops-IsStore {Name = String}

revoked_forever_example : get (run memory_ops one_revoked later_calls) (pos 7) ≡ some alice_revoked
revoked_forever_example =
    revoked_forever memory_ops memory_ops-IsStore one_revoked later_calls (pos 7) alice_revoked
      is_revoked refl

issued-IsIncreasing_example : IsIncreasing (issued memory_ops one_revoked (next_of 0 ∷ later_calls))
issued-IsIncreasing_example =
    issued-IsIncreasing memory_ops memory_ops-IsStore one_revoked (next_of 0 ∷ later_calls)

abbrev whole_history : List (Call String)
whole_history = record_of alice ∷ revoke_of (pos 7) reason_key_compromise 3000000000 ∷ []
