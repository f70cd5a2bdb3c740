-- ===== src/Store/History.antt =====
-- Sequences of calls of a Store, in the order in which its lock or its transactions serialise
-- them, for every implementation of the contract.
use multivendor_hsm_pki.Prelude.{
  ℕ, ◌<◌, ◌≡◌, ◌≢◌, refl, true, some, List, [], ◌∷◌, arith, ◌==◌, ◌⊎◌, inl, inr, ℤ, int_eq,
  string_eq, All, Member, Bool-cases, ◌∙◌,
}
use multivendor_hsm_pki.Clock.{Time}
use multivendor_hsm_pki.Store.{RevocationReason, valid, status_revoked, CertRecord}
use multivendor_hsm_pki.Store.Contract.{
  StoreOps, IsStore, withdrawn, View, revoke_view, record_view,
}

-- A call that can change a store, with its arguments and the time at which it runs. `fails` is a call of any
-- method that returns an error of the implementation's own, as every method may, and changes nothing.
pub data Call (Name : Type 0) : Type 0 where
  record_of : CertRecord Name → Call Name
  revoke_of : ℤ → RevocationReason → Time → Call Name
  next_of : Time → Call Name
  fails : Call Name

abbrev pub view_after : {Name : Type 0} → Call Name → View Name → View Name
view_after (record_of rec) v j = record_view rec v j
view_after (revoke_of serial reason at) v j = revoke_view serial reason at v j
view_after (next_of now) v j = v j
view_after fails v j = v j

abbrev pub IsIncreasing : List ℕ → Type 0
IsIncreasing [] = Unit
IsIncreasing (n ∷ ns) = All (λ k. n < k) ns × IsIncreasing ns

module _ {Name : Type 0} (ops : StoreOps Name) where
  -- The store that a call leaves, whether it succeeds or not.
  abbrev pub step : ops.S → Call Name → ops.S
  step s (record_of rec) = (ops.record_cert s rec).0
  step s (revoke_of serial reason at) = (ops.revoke s serial reason at).0
  step s (next_of now) = (ops.next_crl_number s now).0
  step s fails = s

  unfoldable pub run : ops.S → List (Call Name) → ops.S
  run s [] = s
  run s (c ∷ cs) = run (step s c) cs

  -- The CRL numbers that the calls hand out, in order.
  unfoldable pub issued : ops.S → List (Call Name) → List ℕ
  issued s [] = []
  issued s (record_of rec ∷ cs) = issued (ops.record_cert s rec).0 cs
  issued s (revoke_of serial reason at ∷ cs) = issued (ops.revoke s serial reason at).0 cs
  issued s (next_of now ∷ cs) =
      (ops.next_crl_number s now).1 ∷ issued (ops.next_crl_number s now).0 cs
  issued s (fails ∷ cs) = issued s cs

  module _ (laws : IsStore ops) where
    get-step :
        (s : ops.S) (c : Call Name) (j : ℤ) → ops.get (step s c) j ≡ view_after c (ops.get s) j
    get-step s (record_of rec) j = laws.record_shows s rec j
    get-step s (revoke_of serial reason at) j = laws.revoke_shows s serial reason at j
    get-step s (next_of now) j = laws.next_shows s now j
    get-step s fails j = refl

    step_keeps_revoked :
        (s : ops.S) (c : Call Name) (j : ℤ) (rec : CertRecord Name)
        → ops.get s j ≡ some rec
        → rec.status ≡ status_revoked
        → ops.get (step s c) j ≡ some rec
    step_keeps_revoked s (record_of new) j rec h st =
        laws.record_shows s new j ∙ ground (arith, int_eq.beq_iff new.serial j)
    step_keeps_revoked s (revoke_of serial reason at) j rec h st =
        laws.revoke_shows s serial reason at j
        ∙ ground (arith, int_eq.beq_iff serial j, string_eq.beq_iff rec.status status_revoked)
    step_keeps_revoked s (next_of now) j rec h st = laws.next_shows s now j ∙ h
    step_keeps_revoked s fails j rec h st = h

    -- In any store that keeps the contract, a certificate that is revoked stays revoked, with the
    -- same time and reason, whatever calls of Record, Revoke and NextCRLNumber follow and whichever
    -- of them fail.
    pub revoked_forever :
        (s : ops.S) (cs : List (Call Name)) (j : ℤ) (rec : CertRecord Name)
        → ops.get s j ≡ some rec
        → rec.status ≡ status_revoked
        → ops.get (run s cs) j ≡ some rec
    unfolding run
    revoked_forever s [] j rec h st = h
    revoked_forever s (c ∷ cs) j rec h st =
        revoked_forever (step s c) cs j rec (step_keeps_revoked s c j rec h st) st

    -- What one call can do to a certificate that is not revoked: leave it, or revoke it by a Revoke
    -- of its serial with a valid reason.
    step_of_live :
        (s : ops.S) (c : Call Name) (j : ℤ) (rec : CertRecord Name)
        → ops.get s j ≡ some rec
        → rec.status ≢ status_revoked
        → (ops.get (step s c) j ≡ some rec)
          ⊎ ((reason : RevocationReason) × (at : Time) × (c ≡ revoke_of j reason at)
              × (valid reason ≡ true)
              × (ops.get (step s c) j ≡ some (withdrawn reason at rec)))
    step_of_live s (record_of new) j rec h st =
        inl (laws.record_shows s new j ∙ ground (arith, int_eq.beq_iff new.serial j))
    step_of_live s (next_of now) j rec h st = inl (laws.next_shows s now j ∙ h)
    step_of_live s fails j rec h st = inl h
    step_of_live s (revoke_of serial reason at) j rec h st = elim (Bool-cases (serial == j)) [
      | inl same ↦ elim (Bool-cases (valid reason)) [
        | inl fine ↦ inr (
          reason,
          at,
          ground (arith, int_eq.beq_iff serial j),
          fine,
          laws.revoke_shows s serial reason at j
              ∙ ground
                  (arith, int_eq.beq_iff serial j, string_eq.beq_iff rec.status status_revoked),
        )
        | inr bad ↦
            inl (laws.revoke_shows s serial reason at j ∙ ground (arith, int_eq.beq_iff serial j))
      ]
      | inr other ↦ inl (laws.revoke_shows s serial reason at j ∙ ground (arith, h))
    ]

    -- In any store that keeps the contract and whatever calls follow, a certificate that is
    -- recorded and not revoked is still recorded, and it is either unchanged or was revoked by a
    -- call of Revoke, among those calls, with its serial and a valid reason, and then the record is
    -- the old one with the status, time and reason of that call.
    recorded_or_revoked :
        (s : ops.S) (cs : List (Call Name)) (j : ℤ) (rec : CertRecord Name)
        → ops.get s j ≡ some rec
        → rec.status ≢ status_revoked
        → (ops.get (run s cs) j ≡ some rec)
          ⊎ ((reason : RevocationReason) × (at : Time) × Member (revoke_of j reason at) cs
              × (valid reason ≡ true)
              × (ops.get (run s cs) j ≡ some (withdrawn reason at rec)))
    unfolding run
    recorded_or_revoked s [] j rec h st = inl h
    recorded_or_revoked s (c ∷ cs) j rec h st = elim (step_of_live s c j rec h st) [
      | inl same ↦ (elim (recorded_or_revoked (step s c) cs j rec same st) [
        | inl kept ↦ inl kept
        | inr (reason, at, m, fine, shown) ↦ inr (reason, at, inr m, fine, shown)
      ])
      | inr (reason, at, e, fine, shown) ↦ inr (
        reason,
        at,
        inl (cc),
        fine,
        revoked_forever (step s c) cs j (withdrawn reason at rec) shown refl,
      )
    ]

    issued_above :
        (s : ops.S) (cs : List (Call Name)) (n : ℕ)
        → ops.crl_number s ≡ some n
        → All (λ k. n < k) (issued s cs)
    unfolding issued
    issued_above s [] n h = tt
    issued_above s (record_of rec ∷ cs) n h =
        issued_above (ops.record_cert s rec).0 cs n (laws.record_keeps_number s rec ∙ h)
    issued_above s (revoke_of serial reason at ∷ cs) n h =
        issued_above (ops.revoke s serial reason at).0 cs n
          (laws.revoke_keeps_number s serial reason at ∙ h)
    issued_above s (fails ∷ cs) n h = issued_above s cs n h
    issued_above s (next_of now ∷ cs) n h =
        let above : n < (ops.next_crl_number s now).1 = rw h at (laws.next_above s now) in
        (
          above,
          weaken _ _ _ (omega arith)
              (issued_above (ops.next_crl_number s now).0 cs _ (laws.next_persists s now)),
        )
      where
        weaken : (ks : List ℕ) (a b : ℕ) → a < b → All (λ k. b < k) ks → All (λ k. a < k) ks
        weaken [] a b h hs = tt
        weaken (k ∷ ks) a b h hs = (omega arith, weaken ks a b h hs.1)

    -- The CRL numbers that a store with the contract hands out are strictly increasing, whatever
    -- other calls stand between, whichever of them fail, and whatever the clock says.
    pub issued-IsIncreasing : (s : ops.S) (cs : List (Call Name)) → IsIncreasing (issued s cs)
    unfolding issued
    issued-IsIncreasing s [] = tt
    issued-IsIncreasing s (record_of rec ∷ cs) = issued-IsIncreasing (ops.record_cert s rec).0 cs
    issued-IsIncreasing s (revoke_of serial reason at ∷ cs) =
        issued-IsIncreasing (ops.revoke s serial reason at).0 cs
    issued-IsIncreasing s (fails ∷ cs) = issued-IsIncreasing s cs
    issued-IsIncreasing s (next_of now ∷ cs) = (
      issued_above (ops.next_crl_number s now).0 cs _ (laws.next_persists s now),
      issued-IsIncreasing (ops.next_crl_number s now).0 cs,
    )
