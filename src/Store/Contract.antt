-- ===== src/Store/Contract.antt =====
-- The contract of the Store interface (internal/store/store.go), by its comments: what Get shows
-- is a map from serials to records, and each method is a function of that view. Every
-- implementation has the laws of `IsStore`; clients use nothing else.
use multivendor_hsm_pki.Prelude.{
  ℕ, ◌<◌, ◌≡◌, refl, Option, none, some, ◌==◌, ℤ, int_eq, string_eq, Result, ok, err, if◌then◌else◌,
}
use multivendor_hsm_pki.Clock.{Time}
use multivendor_hsm_pki.Store.{
  StoreError, cert_not_found, duplicate_serial, invalid_revocation_reason, RevocationReason, valid,
  status_revoked, CertRecord, normalize_time, copy_record,
}

abbrev pub View : Type 0 → Type 0
View Name = ℤ → Option (CertRecord Name)

-- The record of a certificate that is revoked for `reason` at `at`.
abbrev pub withdrawn : {Name : Type 0} → RevocationReason → Time → CertRecord Name → CertRecord Name
withdrawn reason at rec = record rec {
  status = status_revoked;
  revoked_at = normalize_time at;
  revocation_reason = reason;
}

module _ {Name : Type 0} where
  -- "It returns ErrDuplicateSerial when a record exists for that serial"
  abbrev pub record_outcome : Option (CertRecord Name) → Result StoreError (Unit {0})
  record_outcome none = ok tt
  record_outcome (some _) = err duplicate_serial

  -- "and never overwrites one"
  abbrev pub record_entry : CertRecord Name → Option (CertRecord Name) → CertRecord Name
  record_entry rec none = copy_record rec
  record_entry rec (some old) = old

  abbrev pub record_view : CertRecord Name → View Name → View Name
  record_view rec v j = if rec.serial == j then some (record_entry rec (v rec.serial)) else v j

  -- "It returns ErrCertNotFound for an unknown serial and ErrInvalidRevocationReason for a reason
  -- a base CRL cannot carry"; a retried revocation succeeds
  abbrev pub revoke_outcome :
      RevocationReason → Option (CertRecord Name) → Result StoreError (Unit {0})
  revoke_outcome reason found =
      if valid reason
      then elim found [ none ↦ err cert_not_found | some _ ↦ ok tt ]
      else err invalid_revocation_reason

  -- "Revoking an already revoked certificate succeeds and keeps the original RevokedAt and reason"
  abbrev pub revoke_entry : RevocationReason → Time → CertRecord Name → CertRecord Name
  revoke_entry reason at rec =
      if valid reason
      then if rec.status == status_revoked then rec else withdrawn reason at rec
      else rec

  abbrev pub revoke_found :
      RevocationReason → Time → Option (CertRecord Name) → Option (CertRecord Name)
  revoke_found reason at none = none
  revoke_found reason at (some rec) = some (revoke_entry reason at rec)

  abbrev pub revoke_view : ℤ → RevocationReason → Time → View Name → View Name
  revoke_view serial reason at v j = if serial == j then revoke_found reason at (v serial) else v j

pub was_free :
    {Name : Type 0} (found : Option (CertRecord Name)) → record_outcome found ≡ ok tt → found ≡ none
was_free none h = refl
was_free (some rec) h = cc

-- The methods of the interface that change or read records, over a state S, where they do not fail with an
-- error of the implementation's own: such a call is `fails` in Store.History, and Records in
-- Store.Service has the methods with these errors.
pub record StoreOps (Name : Type 0) : Type 1 where
  pub S : Type 0
  pub record_cert : S → CertRecord Name → S × Result StoreError (Unit {0})
  pub get : S → ℤ → Option (CertRecord Name)
  pub revoke : S → ℤ → RevocationReason → Time → S × Result StoreError (Unit {0})
  pub next_crl_number : S → Time → S × ℕ
  -- the last number handed out
  pub crl_number : S → Option ℕ

-- "a CRL number greater than every number issued before", and positive
abbrev pub IsAbove : Option ℕ → ℕ → Type 0
IsAbove none k = 0 < k
IsAbove (some n) k = n < k

pub record IsStore {Name : Type 0} (ops : StoreOps Name) : Type 0 where
  pub record_returns :
      (s : ops.S) (rec : CertRecord Name)
      → (ops.record_cert s rec).1 ≡ record_outcome (ops.get s rec.serial)
  pub record_shows :
      (s : ops.S) (rec : CertRecord Name) (j : ℤ)
      → ops.get (ops.record_cert s rec).0 j ≡ record_view rec (ops.get s) j
  pub record_keeps_number :
      (s : ops.S) (rec : CertRecord Name)
      → ops.crl_number (ops.record_cert s rec).0 ≡ ops.crl_number s
  pub revoke_returns :
      (s : ops.S) (serial : ℤ) (reason : RevocationReason) (at : Time)
      → (ops.revoke s serial reason at).1 ≡ revoke_outcome reason (ops.get s serial)
  pub revoke_shows :
      (s : ops.S) (serial : ℤ) (reason : RevocationReason) (at : Time) (j : ℤ)
      → ops.get (ops.revoke s serial reason at).0 j ≡ revoke_view serial reason at (ops.get s) j
  pub revoke_keeps_number :
      (s : ops.S) (serial : ℤ) (reason : RevocationReason) (at : Time)
      → ops.crl_number (ops.revoke s serial reason at).0 ≡ ops.crl_number s
  pub next_shows :
      (s : ops.S) (now : Time) (j : ℤ) → ops.get (ops.next_crl_number s now).0 j ≡ ops.get s j
  pub next_persists :
      (s : ops.S) (now : Time)
      → ops.crl_number (ops.next_crl_number s now).0 ≡ some (ops.next_crl_number s now).1
  pub next_above :
      (s : ops.S) (now : Time) → IsAbove (ops.crl_number s) (ops.next_crl_number s now).1
