-- ===== src/Store/Memory.antt =====
-- internal/store/memory.go. A method returns the store that it leaves and its results; the mutex
-- makes each method one step. The map of records is an association list keyed by the serial,
-- whose decimal text is the key in the source.
pub mod Laws
pub mod Listing
pub mod Service
use multivendor_hsm_pki.Prelude.{
  ℕ, ◌+◌, Option, none, some, List, [], ◌∷◌, ◌==◌, not, ℤ, pos, negsuc, length, Result, ok, err,
  Assoc, lookup, insert, nat_beq, int_eq, string_eq, if◌then◌else◌,
}
use multivendor_hsm_pki.Clock.{Time, unix_milli}
use multivendor_hsm_pki.Store.{
  StoreError, cert_not_found, duplicate_serial, invalid_revocation_reason, RevocationReason, valid,
  status_revoked, CertRecord, normalize_time, copy_record,
}

pub record Memory (Name : Type 0) : Type 0 where
  pub records : Assoc ℤ (CertRecord Name)
  -- nil before the first number
  pub crl_number : Option ℕ

module _ {Name : Type 0} where
  abbrev pub new_memory : Memory Name
  new_memory = record { records = []; crl_number = none }

  -- Record
  unfoldable pub record_cert :
      Memory Name → CertRecord Name → Memory Name × Result StoreError (Unit {0})
  record_cert m rec = elim (lookup rec.serial m.records) [
    | some _ ↦ (m, err duplicate_serial)
    | none ↦ (record m { records = insert rec.serial (copy_record rec) m.records }, ok tt)
  ]

  -- Get: `none` is `false` with a nil error
  unfoldable pub get : Memory Name → ℤ → Option (CertRecord Name)
  get m serial = elim (lookup serial m.records) [ none ↦ none | some rec ↦ some (copy_record rec) ]

  -- The three assignments of Revoke through the stored pointer.
  abbrev pub mark_revoked : RevocationReason → Time → CertRecord Name → CertRecord Name
  mark_revoked reason at rec = record rec {
    status = status_revoked;
    revoked_at = normalize_time at;
    revocation_reason = reason;
  }

  -- Revoke
  unfoldable pub revoke :
      Memory Name → ℤ → RevocationReason → Time → Memory Name × Result StoreError (Unit {0})
  revoke m serial reason at =
      if not (valid reason)
      then (m, err invalid_revocation_reason)
      else elim (lookup serial m.records) [
        | none ↦ (m, err cert_not_found)
        | some rec ↦ if rec.status == status_revoked then (m, ok tt) else (
          record m { records = insert serial (mark_revoked reason at rec) m.records },
          ok tt,
        )
      ]

  revoked_of : Assoc ℤ (CertRecord Name) → List (CertRecord Name)
  revoked_of [] = []
  revoked_of ((k, rec) ∷ rest) =
      let others = revoked_of rest in
      if rec.status == status_revoked then copy_record rec ∷ others else others

  -- Revoked. The order of Go's map iteration is not specified; this is one order.
  unfoldable pub revoked : Memory Name → List (CertRecord Name)
  unfolding revoked_of
  revoked m = revoked_of m.records

  -- Len
  unfoldable pub len : Memory Name → ℕ
  len m = length m.records

-- seedCRLNumber: the result is positive
unfoldable pub seed_crl_number : Time → ℕ
seed_crl_number now = elim (unix_milli now) [
  | pos ms ↦ (if nat_beq ms 0 then 1 else ms)
  | negsuc _ ↦ 1
]

-- NextCRLNumber at the time `now`
unfoldable pub next_crl_number : {Name : Type 0} → Memory Name → Time → Memory Name × ℕ
next_crl_number m now = elim m.crl_number [
  | none ↦ (record m { crl_number = some (seed_crl_number now) }, seed_crl_number now)
  | some n ↦ (record m { crl_number = some (n + 1) }, n + 1)
]
