-- ===== src/Store/Memory/Service.antt =====
-- internal/store/memory.go as the store of a service: no method of Memory fails in a way of its own.
use multivendor_hsm_pki.Prelude.{
  ◌≡◌, ◌∙◌, refl, sym, ℤ, Result, ok, err, inl, inr, arith, Option-cases, int_eq, string_eq,
}
use multivendor_hsm_pki.Clock.{Time}
use multivendor_hsm_pki.Store.{StoreError, RevocationReason, CertRecord}
use multivendor_hsm_pki.Store.Contract.{
  View, record_outcome, record_view, revoke_outcome, revoke_view,
}
use multivendor_hsm_pki.Store.History.{record_of, revoke_of, next_of}
use multivendor_hsm_pki.Store.Service.{Failure, known, Records, IsRecords, Keeps}
use multivendor_hsm_pki.Store.Memory.{Memory, record_cert, get, revoke, next_crl_number, revoked}
use multivendor_hsm_pki.Store.Memory.Laws.{memory_ops-IsStore}
use multivendor_hsm_pki.Store.Memory.Listing.{IsKeyed, step-IsKeyed, revoked_lists, shown_serial}

abbrev method : {S A : Type 0} → S × Result StoreError A → Result Failure A × S
method (s, ok a) = (ok a, s)
method (s, err e) = (err (known e), s)

module _ {Name : Type 0} where
  abbrev pub memory_records : Records Name
  memory_records = record {
    S = Memory Name;
    record_cert = λ rec m. method (record_cert m rec);
    get = λ serial m. (ok (get m serial), m);
    revoke = λ serial reason at m. method (revoke m serial reason at);
    revoked = λ m. (ok (revoked m), m);
    next_crl_number = λ now m. let (m', n) = next_crl_number m now in (ok n, m');
    view = get;
    last_number = λ m. m.crl_number;
    Sound = λ m. IsKeyed m.records;
  }

  refused_record :
      (rec : CertRecord Name) (v : View Name) (e : StoreError) (j : ℤ)
      → record_outcome (v rec.serial) ≡ err e
      → record_view rec v j ≡ v j
  refused_record rec v e j h = elim (Option-cases (v rec.serial)) [
    | inl unknown ↦ absurd (ground (arith, unknown, h))
    | inr (old, there) ↦ ground (arith, there, int_eq.beq_iff rec.serial j)
  ]

  refused_revoke :
      (serial : ℤ) (reason : RevocationReason) (at : Time) (v : View Name) (e : StoreError) (j : ℤ)
      → revoke_outcome reason (v serial) ≡ err e
      → revoke_view serial reason at v j ≡ v j
  refused_revoke serial reason at v e j h = elim (Option-cases (v serial)) [
    | inl unknown ↦ ground (arith, unknown, int_eq.beq_iff serial j)
    | inr (old, there) ↦ ground (arith, there, h, int_eq.beq_iff serial j)
  ]

  keeps :
      (s : Memory Name) (r : Memory Name × Result StoreError (Unit {0}))
      (outcome : Result StoreError (Unit {0})) (seen : View Name)
      → r.1 ≡ outcome
      → ((j : ℤ) → get r.0 j ≡ seen j)
      → r.0.crl_number ≡ s.crl_number
      → (IsKeyed s.records → IsKeyed r.0.records)
      → ((e : StoreError) (j : ℤ) → outcome ≡ err e → seen j ≡ get s j)
      → Keeps memory_records outcome seen s (method r).0 (method r).1
  keeps s (t, ok _) outcome seen same shows number keyed refused = (sym same, shows, number, keyed)
  keeps s (t, err e) outcome seen same shows number keyed refused =
      (sym same, ((λ j. shows j ∙ refused e j (sym same)), number, keyed))

  pub memory_records-IsRecords : IsRecords memory_records
  memory_records-IsRecords = record {
    records_law = λ s rec fresh.
        keeps s (record_cert s rec) (record_outcome (get s rec.serial)) (record_view rec (get s))
          (memory_ops-IsStore.record_returns s rec) (memory_ops-IsStore.record_shows s rec)
          (memory_ops-IsStore.record_keeps_number s rec) (step-IsKeyed s (record_of rec))
          (λ e j. refused_record rec (get s) e j);
    revokes_law = λ s serial reason at.
        keeps s (revoke s serial reason at) (revoke_outcome reason (get s serial))
          (revoke_view serial reason at (get s))
          (memory_ops-IsStore.revoke_returns s serial reason at)
          (memory_ops-IsStore.revoke_shows s serial reason at)
          (memory_ops-IsStore.revoke_keeps_number s serial reason at)
          (step-IsKeyed s (revoke_of serial reason at))
          (λ e j. refused_revoke serial reason at (get s) e j);
    gets_law = λ s serial h. refl;
    gets_same = λ s serial. ((λ j. refl), refl, (λ h. h));
    lists_law = λ s h rec. revoked_lists s rec h;
    lists_same = λ s. ((λ j. refl), refl, (λ h. h));
    numbers_law = λ s now. (
      memory_ops-IsStore.next_shows s now,
      memory_ops-IsStore.next_persists s now,
      memory_ops-IsStore.next_above s now,
      step-IsKeyed s (next_of now),
    );
    keyed_law = λ s j rec keyed at. shown_serial s j rec keyed at;
  }
