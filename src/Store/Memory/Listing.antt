-- ===== src/Store/Memory/Listing.antt =====
-- Revoked lists exactly the certificates that Get shows revoked: each record of the map stands
-- under its own serial, and a serial has one record.
use multivendor_hsm_pki.Prelude.{
  ◌≡◌, ◌∙◌, refl, sym, Option, none, some, List, [], ◌∷◌, arith, ◌==◌, ◌↔◌, inl, inr, ℤ, int_eq,
  string_eq, Member, Assoc, lookup, insert, lookup-insert, Option-cases, Bool-cases,
}
use multivendor_hsm_pki.Store.{status_revoked, CertRecord, copy_record}
use multivendor_hsm_pki.Store.History.{Call, record_of, revoke_of, next_of, fails, step, run}
use multivendor_hsm_pki.Store.Memory.{
  Memory, new_memory, record_cert, get, mark_revoked, revoke, next_crl_number, revoked, revoked_of,
}
use multivendor_hsm_pki.Store.Memory.Laws.{memory_ops}

module _ {Name : Type 0} where
  abbrev pub IsKeyed : Assoc ℤ (CertRecord Name) → Type 0
  IsKeyed [] = Unit
  IsKeyed ((k, rec) ∷ m) = (k ≡ rec.serial) × (lookup k m ≡ none) × IsKeyed m

  insert-IsKeyed :
      (k : ℤ) (rec : CertRecord Name) (m : Assoc ℤ (CertRecord Name))
      → k ≡ rec.serial
      → IsKeyed m
      → IsKeyed (insert k rec m)
  unfolding insert lookup
  insert-IsKeyed k rec [] e h = (e, refl, tt)
  insert-IsKeyed k rec ((j, r) ∷ m) e h = elim (Bool-cases (j == k)) [
    | inl same ↦ rw same (e, rw (← (int_eq.beq_iff j k).0 same) h.1, h.2)
    | inr other ↦ rw other (
      h.0,
      ground (arith, lookup-insert k j rec m, int_eq.beq_iff j k, int_eq.beq_iff k j),
      insert-IsKeyed k rec m e h.2,
    )
  ]

  lookup_serial :
      (k : ℤ) (rec : CertRecord Name) (m : Assoc ℤ (CertRecord Name))
      → IsKeyed m
      → lookup k m ≡ some rec
      → k ≡ rec.serial
  unfolding lookup
  lookup_serial k rec [] h found = cc
  lookup_serial k rec ((j, r) ∷ m) h found =
      ground (arith, int_eq.beq_iff j k, lookup_serial k rec m)

  pub step-IsKeyed :
      (m : Memory Name) (c : Call Name) → IsKeyed m.records → IsKeyed (step memory_ops m c).records
  unfolding record_cert revoke next_crl_number copy_record
  step-IsKeyed m (record_of rec) h =
      ground (arith, insert-IsKeyed rec.serial (copy_record rec) m.records)
  step-IsKeyed m (revoke_of serial reason at) h = elim (Option-cases (lookup serial m.records)) [
    | inl unknown ↦ ground (arith, unknown)
    | inr (rec, known) ↦ ground (
      arith,
      known,
      insert-IsKeyed serial (mark_revoked reason at rec) m.records,
      lookup_serial serial rec m.records,
    )
  ]
  step-IsKeyed m (next_of now) h = ground arith
  step-IsKeyed m fails h = h

  run-IsKeyed :
      (m : Memory Name) (cs : List (Call Name))
      → IsKeyed m.records
      → IsKeyed (run memory_ops m cs).records
  unfolding run
  run-IsKeyed m [] h = h
  run-IsKeyed m (c ∷ cs) h = run-IsKeyed (step memory_ops m c) cs (step-IsKeyed m c h)

  abbrev shown : Option (CertRecord Name) → Option (CertRecord Name)
  shown none = none
  shown (some rec) = some (copy_record rec)

  get-shown : (m : Memory Name) (j : ℤ) → get m j ≡ shown (lookup j m.records)
  unfolding get
  get-shown m j = ground arith

  serial-copy_record : (rec : CertRecord Name) → (copy_record rec).serial ≡ rec.serial
  unfolding copy_record
  serial-copy_record rec = refl

  status-copy_record : (rec : CertRecord Name) → (copy_record rec).status ≡ rec.status
  unfolding copy_record
  status-copy_record rec = refl

  listed-lookup :
      (m : Assoc ℤ (CertRecord Name)) (rec : CertRecord Name)
      → IsKeyed m
      → Member rec (revoked_of m)
      → (shown (lookup rec.serial m) ≡ some rec) × (rec.status ≡ status_revoked)
  unfolding revoked_of lookup
  listed-lookup [] rec h l = absurd l
  listed-lookup ((k, r) ∷ m) rec h l = ground (
    arith,
    listed-lookup m rec,
    serial-copy_record r,
    status-copy_record r,
    int_eq.beq_iff k rec.serial,
    string_eq.beq_iff r.status status_revoked,
  )

  lookup-listed :
      (m : Assoc ℤ (CertRecord Name)) (j : ℤ) (rec : CertRecord Name)
      → shown (lookup j m) ≡ some rec
      → rec.status ≡ status_revoked
      → Member rec (revoked_of m)
  unfolding revoked_of lookup
  lookup-listed [] j rec e st = cc
  lookup-listed ((k, r) ∷ m) j rec e st = ground (
    arith,
    lookup-listed m j rec,
    serial-copy_record r,
    status-copy_record r,
    string_eq.beq_iff r.status status_revoked,
  )

  pub shown_serial :
      (m : Memory Name) (j : ℤ) (rec : CertRecord Name)
      → IsKeyed m.records
      → get m j ≡ some rec
      → rec.serial ≡ j
  shown_serial m j rec keyed at = elim (Option-cases (lookup j m.records)) [
    | inl absent ↦ absurd (ground (arith, get-shown m j, at, absent))
    | inr (r, there) ↦ sym (
        lookup_serial j r m.records keyed there
        ∙ ground (arith, get-shown m j, at, there, serial-copy_record r))
  ]

  pub revoked_lists :
      (m : Memory Name) (rec : CertRecord Name)
      → IsKeyed m.records
      → Member rec (revoked m) ↔ ((get m rec.serial ≡ some rec) × (rec.status ≡ status_revoked))
  unfolding revoked
  revoked_lists m rec keyed = (
    (λ l. let (e, st) = listed-lookup m.records rec keyed l in (get-shown m rec.serial ∙ e, st)),
    (λ h. lookup-listed m.records rec.serial rec (sym (get-shown m rec.serial) ∙ h.0) h.1),
  )

  -- After any calls on a new Memory, a record is listed by Revoked exactly if Get of its serial
  -- returns that record and the record is revoked.
  revoked_exact :
      (cs : List (Call Name)) (rec : CertRecord Name)
      → Member rec (revoked (run memory_ops new_memory cs)) ↔ (
          (get (run memory_ops new_memory cs) rec.serial ≡ some rec)
          × (rec.status ≡ status_revoked))
  revoked_exact cs rec =
      revoked_lists (run memory_ops new_memory cs) rec (run-IsKeyed new_memory cs tt)
