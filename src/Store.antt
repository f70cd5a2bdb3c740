-- ===== src/Store.antt =====
-- internal/store/store.go: what the CA records about a certificate, and the errors of the store.
-- `Name` stands for crypto/x509/pkix.Name, whose values the store only copies.
pub mod Contract
pub mod Service
pub mod Memory
pub mod History
pub mod Tests
use multivendor_hsm_pki.Prelude.{
  ℕ, ◌≡◌, Bool, true, false, ◌||◌, String, arith, nat_beq, ℤ, pos, negsuc, if◌then◌else◌,
}
use multivendor_hsm_pki.Clock.{Time, is_zero, truncate_second, truncate_second_idem}

pub data StoreError : Type 0 where
  cert_not_found duplicate_serial invalid_revocation_reason : StoreError

abbrev pub RevocationReason : Type 0
RevocationReason = ℤ

abbrev pub reason_unspecified : RevocationReason
reason_unspecified = pos 0

abbrev pub reason_key_compromise : RevocationReason
reason_key_compromise = pos 1

abbrev pub reason_remove_from_crl : RevocationReason
reason_remove_from_crl = pos 8

-- The cases of the switch, in its order: all CRLReasons but 7, unassigned, and 8, removeFromCRL.
unfoldable pub valid : RevocationReason → Bool
valid (pos r) =
    nat_beq r 0
    || (nat_beq r 1
        || (nat_beq r 2
            || (nat_beq r 3
                || (nat_beq r 4
                    || (nat_beq r 5 || (nat_beq r 6 || (nat_beq r 9 || nat_beq r 10)))))))
valid (negsuc r) = false

abbrev pub status_valid : String
status_valid = "valid"

abbrev pub status_revoked : String
status_revoked = "revoked"

pub record CertRecord (Name : Type 0) : Type 0 where
  pub serial : ℤ
  pub subject : Name
  pub not_after : Time
  pub status : String
  pub revoked_at : Time
  pub revocation_reason : RevocationReason

-- UTC does not move an instant; the truncation does.
unfoldable pub normalize_time : Time → Time
normalize_time t = truncate_second t

pub normalize_time_idem : (t : Time) → normalize_time (normalize_time t) ≡ normalize_time t
unfolding normalize_time
normalize_time_idem t = truncate_second_idem t

-- The Serial of a record is never nil here; a copied big.Int has the value of the original.
unfoldable pub copy_record : {Name : Type 0} → CertRecord Name → CertRecord Name
copy_record rec = record rec {
  not_after = normalize_time rec.not_after;
  revoked_at = if is_zero rec.revoked_at then rec.revoked_at else normalize_time rec.revoked_at;
}

pub copy_record_idem :
    {Name : Type 0} (rec : CertRecord Name) → copy_record (copy_record rec) ≡ copy_record rec
unfolding copy_record normalize_time
copy_record_idem rec =
    ground (arith, truncate_second_idem rec.not_after, truncate_second_idem rec.revoked_at)
