-- ===== src/Api/Crl/Kept.antt =====
-- Once a certificate is revoked, what the calls of internal/store/store.go leave of its record.
use multivendor_hsm_pki.Prelude.{
  ◌≡◌, inl, inr, ◌∙◌, sym, ap, true, Option, none, some, ◌==◌, ℤ, string_eq, int_eq, beq_refl,
  Result, ok, err, arith, Option-cases, Bool-cases,
}
use multivendor_hsm_pki.Clock.{Time}
use multivendor_hsm_pki.Store.{CertRecord, status_revoked, RevocationReason}
use multivendor_hsm_pki.Store.Contract.{
  record_outcome, was_free, record_view, revoke_outcome, revoke_found, revoke_entry, revoke_view,
}
use multivendor_hsm_pki.Store.Service.{Failure, known, broken, Records, Keeps, Same}
use multivendor_hsm_pki.Profile.Names.{Name}

abbrev nothing : Option (CertRecord Name)
nothing = none

module _ (rs : Records Name) where
  -- The store shows this record under the serial, and it is revoked.
  abbrev pub IsRevokedAs : ℤ → CertRecord Name → rs.S → Type 0
  IsRevokedAs serial rec s = (rs.view s serial ≡ some rec) × (rec.status ≡ status_revoked)

  pub kept_as :
      (serial : ℤ) (rec : CertRecord Name) (s t : rs.S)
      → Same rs s t
      → IsRevokedAs serial rec s
      → IsRevokedAs serial rec t
  kept_as serial rec s t (shows, _, _) (there, revoked) = (shows serial ∙ there, revoked)

  pub recorded_as :
      (serial : ℤ) (rec new : CertRecord Name) (s t : rs.S) (result : Result Failure (Unit {0}))
      → Keeps rs (record_outcome (rs.view s new.serial)) (record_view new (rs.view s)) s result t
      → IsRevokedAs serial rec s
      → IsRevokedAs serial rec t
  recorded_as serial rec new s t (ok _) (outcome, shows, _, _) (there, revoked) =
      elim (Bool-cases (new.serial == serial)) [
        | inr other ↦ ((rw other at (shows serial)) ∙ there, revoked)
        | inl same ↦
            (let here : new.serial ≡ serial = (int_eq.beq_iff new.serial serial).0 same in
              absurd (
                taken (
                  sym (ap (rs.view s) (sym here) ∙ was_free (rs.view s new.serial) outcome)
                  ∙ there)))
      ]
    where
      taken : {r : CertRecord Name} → nothing ≡ some r → ⊥
      taken h = cc
  recorded_as serial rec new s t (err (known e)) (_, same) h = kept_as serial rec s t same h
  recorded_as serial rec new s t (err broken) same h = kept_as serial rec s t same h

  revoked_entry_kept :
      (rec : CertRecord Name) (reason : RevocationReason) (at : Time)
      → rec.status ≡ status_revoked
      → revoke_entry reason at rec ≡ rec
  revoked_entry_kept rec reason at revoked =
      let is : (rec.status == status_revoked) ≡ true =
        (string_eq.beq_iff rec.status status_revoked).1 revoked in
      ground (arith, is)

  pub revoked_as :
      (serial : ℤ) (rec : CertRecord Name) (other reason : ℤ) (at : Time) (s t : rs.S)
      (result : Result Failure (Unit {0}))
      → Keeps rs
          (revoke_outcome reason (rs.view s other))
          (revoke_view other reason at (rs.view s))
          s
          result
          t
      → IsRevokedAs serial rec s
      → IsRevokedAs serial rec t
  revoked_as serial rec other reason at s t (ok _) (outcome, shows, _, _) (there, revoked) =
      elim (Bool-cases (other == serial)) [
        | inr apart ↦ ((rw apart at (shows serial)) ∙ there, revoked)
        | inl same ↦
            (let here : other ≡ serial = (int_eq.beq_iff other serial).0 same in
              let found : rs.view t serial ≡ revoke_found reason at (rs.view s other) =
                rw same at (shows serial) in
              (
                found
                    ∙ ap (revoke_found reason at) (ap (rs.view s) here ∙ there)
                    ∙ ap some (revoked_entry_kept rec reason at revoked),
                revoked,
              ))
      ]
  revoked_as serial rec other reason at s t (err (known e)) (_, same) h =
      kept_as serial rec s t same h
  revoked_as serial rec other reason at s t (err broken) same h = kept_as serial rec s t same h

  -- A revocation that the contract accepts leaves a revoked record.
  pub accepted :
      (serial reason : ℤ) (at : Time) (s t : rs.S)
      → revoke_outcome reason (rs.view s serial) ≡ ok tt
      → ((j : ℤ) → rs.view t j ≡ revoke_view serial reason at (rs.view s) j)
      → (rec : CertRecord Name) × IsRevokedAs serial rec t
  accepted serial reason at s t outcome shows = elim (Option-cases (rs.view s serial)) [
    | inl absent ↦ absurd (ground (arith, absent, outcome))
    | inr (old, there) ↦
        (let here : (serial == serial) ≡ true = beq_refl serial in
          let shown : rs.view t serial ≡ revoke_found reason at (rs.view s serial) =
            rw here at (shows serial) in
          let now : rs.view t serial ≡ some (revoke_entry reason at old) =
            shown ∙ ap (revoke_found reason at) there in
          (
            revoke_entry reason at old,
            (now, ground (arith, outcome, there, string_eq.beq_iff old.status status_revoked)),
          ))
  ]
