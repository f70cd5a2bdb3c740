-- ===== src/Inventory/Windows.antt =====
-- Which keys ActiveAt and VerifiableAt select, and when they refuse.
use multivendor_hsm_pki.Prelude.{
  ◌≤◌, ◌<◌, ◌≡◌, ◌↔◌, ◌⊎◌, inl, inr, String, List, arith, not, string_eq, ok, err, Member,
  Member-filter, filter-Member, Bool-cases,
}
use multivendor_hsm_pki.Clock.{Time, after}
use multivendor_hsm_pki.Inventory.{
  Entry, Inventory, expired, status_active, status_verify_only, status_retired,
}
use multivendor_hsm_pki.Inventory.Selection.{
  may_sign, may_verify, active, verifiable, check_fresh, started, verifiable_at, active_at,
}

module _ (inv : Inventory) (p : String) (now : Time) where
  started_iff :
      (e : Entry) (es : List Entry)
      → Member e (started now es) ↔ (Member e es × (e.valid_from ≤ now))
  unfolding started
  started_iff e es = (
    (λ m.
        let (m', t) = Member-filter (λ e. not (after e.valid_from now)) e es m in
        (m', ground arith)),
    (λ h. filter-Member (λ e. not (after e.valid_from now)) e es h.0 (ground arith)),
  )

  active_iff :
      (e : Entry)
      → Member e (active inv p) ↔ (Member e inv.keys × (e.purpose ≡ p) × (e.status ≡ status_active))
  unfolding active
  active_iff e = (
    (λ m.
        let (m', t) = Member-filter (may_sign p) e inv.keys m in
        (
          m',
          ground (arith, string_eq.beq_iff e.purpose p),
          ground (arith, string_eq.beq_iff e.status status_active),
        )),
    (λ h. filter-Member (may_sign p) e inv.keys h.0 (
        ground (
          arith,
          h.1,
          h.2,
          string_eq.beq_iff e.purpose p,
          string_eq.beq_iff e.status status_active,
        ))),
  )

  abbrev Accepted : Entry → Type 0
  Accepted e = (e.status ≡ status_active) ⊎ (e.status ≡ status_verify_only)

  verifiable_iff :
      (e : Entry) → Member e (verifiable inv p) ↔ (Member e inv.keys × (e.purpose ≡ p) × Accepted e)
  unfolding verifiable
  verifiable_iff e = (
    (λ m.
        let (m', t) = Member-filter (may_verify p) e inv.keys m in
        (
          m',
          ground (arith, string_eq.beq_iff e.purpose p),
          ground (
            arith,
            string_eq.beq_iff e.status status_active,
            string_eq.beq_iff e.status status_verify_only,
          ),
        )),
    (λ h. filter-Member (may_verify p) e inv.keys h.0 (
        ground (
          arith,
          h.1,
          h.2,
          string_eq.beq_iff e.purpose p,
          string_eq.beq_iff e.status status_active,
          string_eq.beq_iff e.status status_verify_only,
        ))),
  )

  -- A document that has expired gives no key: both selections refuse it with ErrExpired.
  expired_document :
      inv.valid_until < now
      → (verifiable_at inv p now ≡ err (expired inv.valid_until now))
        × (active_at inv p now ≡ err (expired inv.valid_until now))
  unfolding verifiable_at active_at check_fresh
  expired_document h = (ground arith, ground arith)

  -- Until valid_until VerifiableAt succeeds, and it selects a key exactly if the document lists it
  -- for the purpose, as active or verify-only, with a valid_from that is not after now.
  pub verifiable_at_exact :
      now ≤ inv.valid_until
      → (out : List Entry) × (verifiable_at inv p now ≡ ok out)
        × ((e : Entry)
            → Member e out
              ↔ (Member e inv.keys × (e.purpose ≡ p) × Accepted e × (e.valid_from ≤ now)))
  unfolding verifiable_at check_fresh
  verifiable_at_exact h = (
    started now (verifiable inv p),
    ground arith,
    (λ e. (
      (λ m.
          let (listed, from) = (started_iff e (verifiable inv p)).0 m in
          let (k, q, st) = (verifiable_iff e).0 listed in (k, q, st, from)),
      (λ (k, q, st, from).
          (started_iff e (verifiable inv p)).1 ((verifiable_iff e).1 (k, q, st), from)),
    )),
  )

  -- Until valid_until ActiveAt succeeds, and it selects a key exactly if the document lists it for
  -- the purpose, as active, with a valid_from that is not after now.
  active_at_exact :
      now ≤ inv.valid_until
      → (out : List Entry) × (active_at inv p now ≡ ok out)
        × ((e : Entry)
            → Member e out ↔ (
                Member e inv.keys
                × (e.purpose ≡ p)
                × (e.status ≡ status_active)
                × (e.valid_from ≤ now)))
  unfolding active_at check_fresh
  active_at_exact h = (
    started now (active inv p),
    ground arith,
    (λ e. (
      (λ m.
          let (listed, from) = (started_iff e (active inv p)).0 m in
          let (k, q, st) = (active_iff e).0 listed in (k, q, st, from)),
      (λ (k, q, st, from). (started_iff e (active inv p)).1 ((active_iff e).1 (k, q, st), from)),
    )),
  )

  -- A key that the document lists as retired is selected by neither, at any time.
  retired_never_selected :
      (e : Entry) (verifying signing : List Entry)
      → e.status ≡ status_retired
      → verifiable_at inv p now ≡ ok verifying
      → active_at inv p now ≡ ok signing
      → (¬ Member e verifying) × (¬ Member e signing)
  unfolding verifiable_at active_at check_fresh
  retired_never_selected e verifying signing st v a =
      elim (Bool-cases (after now inv.valid_until)) [
        | inl late ↦ absurd (ground (arith, late))
        | inr fresh ↦ (
          (λ m.
              let listed : Member e (started now (verifiable inv p)) = ground (arith, fresh) in
              let (_, _, ok_status) =
                (verifiable_iff e).0 ((started_iff e (verifiable inv p)).0 listed).0 in
              ground (
                arith,
                string_eq.beq_iff status_retired status_active,
                string_eq.beq_iff status_retired status_verify_only,
              )),
          (λ m.
              let listed : Member e (started now (active inv p)) = ground (arith, fresh) in
              let (_, _, ok_status) =
                (active_iff e).0 ((started_iff e (active inv p)).0 listed).0 in
              ground (arith, string_eq.beq_iff status_retired status_active)),
        )
      ]
