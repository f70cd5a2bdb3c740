-- ===== src/Store/Memory/Laws.antt =====
-- Memory implements the contract of Store: its methods have the results of the contract, and what
-- Get shows after a method is what the contract says.
use multivendor_hsm_pki.Prelude.{
  ◌≡◌, refl, inl, inr, arith, ℤ, int_eq, string_eq, lookup, lookup-insert, Option-cases,
}
use multivendor_hsm_pki.Clock.{Time}
use multivendor_hsm_pki.Store.{
  RevocationReason, CertRecord, normalize_time_idem, copy_record, copy_record_idem,
}
use multivendor_hsm_pki.Store.Contract.{
  StoreOps, IsStore, IsAbove, record_outcome, record_view, revoke_outcome, revoke_view,
}
use multivendor_hsm_pki.Store.Memory.{
  Memory, record_cert, get, mark_revoked, revoke, next_crl_number, seed_crl_number,
}

module _ {Name : Type 0} (m : Memory Name) where
  record_returns :
      (rec : CertRecord Name) → (record_cert m rec).1 ≡ record_outcome (get m rec.serial)
  unfolding record_cert get
  record_returns rec = ground arith

  record_shows :
      (rec : CertRecord Name) (j : ℤ) → get (record_cert m rec).0 j ≡ record_view rec (get m) j
  unfolding record_cert get
  record_shows rec j = ground (
    arith,
    lookup-insert rec.serial j (copy_record rec) m.records,
    copy_record_idem rec,
    int_eq.beq_iff rec.serial j,
  )

  revoke_returns :
      (serial : ℤ) (reason : RevocationReason) (at : Time)
      → (revoke m serial reason at).1 ≡ revoke_outcome reason (get m serial)
  unfolding revoke get
  revoke_returns serial reason at = ground arith

  -- What Get copies out of a record that was just revoked.
  copy_record-mark_revoked :
      (rec : CertRecord Name) (reason : RevocationReason) (at : Time)
      → copy_record (mark_revoked reason at rec) ≡ mark_revoked reason at (copy_record rec)
  unfolding copy_record
  copy_record-mark_revoked rec reason at = ground (arith, normalize_time_idem at)

  status-copy_record : (rec : CertRecord Name) → (copy_record rec).status ≡ rec.status
  unfolding copy_record
  status-copy_record rec = refl

  revoke_shows :
      (serial : ℤ) (reason : RevocationReason) (at : Time) (j : ℤ)
      → get (revoke m serial reason at).0 j ≡ revoke_view serial reason at (get m) j
  unfolding revoke get
  revoke_shows serial reason at j = elim (Option-cases (lookup serial m.records)) [
    | inl unknown ↦ ground (arith, unknown, int_eq.beq_iff serial j)
    | inr (rec, known) ↦ ground (
      arith,
      known,
      int_eq.beq_iff serial j,
      lookup-insert serial j (mark_revoked reason at rec) m.records,
      copy_record-mark_revoked rec reason at,
      status-copy_record rec,
    )
  ]

  next-IsAbove : (now : Time) → IsAbove m.crl_number (next_crl_number m now).1
  unfolding next_crl_number seed_crl_number
  next-IsAbove now = elim (Option-cases m.crl_number) [
    | inl fresh ↦ rw (fresh, next_crl_number) (ground arith)
    | inr (n, known) ↦ rw (known, next_crl_number) (ground arith)
  ]

module _ {Name : Type 0} where
  abbrev pub memory_ops : StoreOps Name
  memory_ops = record {
    S = Memory Name;
    record_cert = record_cert;
    get = get;
    revoke = revoke;
    next_crl_number = next_crl_number;
    crl_number = λ m. m.crl_number;
  }

  -- Memory satisfies every law of the contract of Store: Record returns ErrDuplicateSerial exactly
  -- for a known serial and shows the normalised record exactly for a new one; Revoke has the
  -- contract's result on every branch and changes what Get shows only for that serial, and only if
  -- the reason is valid, the serial known and the certificate not yet revoked; NextCRLNumber
  -- changes no record, keeps its number and exceeds the last one, and is positive.
  pub memory_ops-IsStore : IsStore memory_ops
  unfolding record_cert revoke next_crl_number get
  memory_ops-IsStore = record {
    record_returns = record_returns;
    record_shows = record_shows;
    record_keeps_number = λ s rec. ground arith;
    revoke_returns = revoke_returns;
    revoke_shows = revoke_shows;
    revoke_keeps_number = λ s serial reason at. ground arith;
    next_shows = λ s now j. ground arith;
    next_persists = λ s now. ground arith;
    next_above = next-IsAbove;
  }
