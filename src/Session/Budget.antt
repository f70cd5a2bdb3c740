-- ===== src/Session/Budget.antt =====
-- When a session may still be used, and that one that ended stays ended.
use multivendor_hsm_pki.Prelude.{
  ◌+◌, ◌≤◌, ◌≡◌, refl, ◌↔◌, inl, inr, true, false, List, [], ◌∷◌, arith, Result, ok, err,
  Bool-cases,
}
use multivendor_hsm_pki.Clock.{Time}
use multivendor_hsm_pki.Session.{
  SessionError, session_closed, Session, over_budget, touch, is_expired, Use, touched,
  marked_closed, login_set, apply, apply_all,
}

abbrev pub IsWithin : Session → Time → Type 0
IsWithin s now =
    (s.closed ≡ false) × (now ≤ s.opened_at + s.max_ttl) × (now ≤ s.last_used_at + s.idle_timeout)

-- What a call of touch leaves, by its result.
abbrev pub Leaves : Session → Time → Session → Result SessionError (Unit {0}) → Type 0
Leaves s now after (ok _) = after ≡ record s { last_used_at = now }
Leaves s now after (err _) = (after.closed ≡ true) × (after.last_used_at ≡ s.last_used_at)

-- A call may use a session exactly if it is not closed, not older than its maximum and not idle for
-- longer than allowed, and then only the time of its last use changes; otherwise it is left closed.
-- expired tells the janitor at the same moments that it may not be used.
pub touch_exact :
    (s : Session) (now : Time)
    → (((touch s now).1 ≡ ok tt) ↔ IsWithin s now)
      × ((is_expired s now ≡ false) ↔ IsWithin s now)
      × Leaves s now (touch s now).0 (touch s now).1
unfolding touch is_expired over_budget
touch_exact s now =
    (((λ h. ground arith), (λ h. ground arith)), ((λ h. ground arith), (λ h. ground arith)), leaves)
  where
    leaves : Leaves s now (touch s now).0 (touch s now).1
    leaves = elim (Bool-cases s.closed) [
      | inl shut ↦ rw shut (refl, refl)
      | inr live ↦ elim (Bool-cases (over_budget s now)) [
        | inl over ↦ rw (live, over) (refl, refl)
        | inr within ↦ rw (live, within) refl
      ]
    ]

closed_apply : (u : Use) (s : Session) → s.closed ≡ true → (apply u s).closed ≡ true
unfolding touch
closed_apply (touched now) s h = ground (arith, h)
closed_apply marked_closed s h = refl
closed_apply (login_set v) s h = h

-- A session that is closed, because it went over its budget or because it was closed, stays closed
-- whatever methods are called on it, and every later use of it, at any time, fails with
-- ErrSessionClosed.
closed_forever :
    (us : List Use) (s : Session) (now : Time)
    → s.closed ≡ true
    → ((apply_all us s).closed ≡ true) × ((touch (apply_all us s) now).1 ≡ err session_closed)
unfolding apply_all touch
closed_forever [] s now h = (h, ground (arith, h))
closed_forever (u ∷ us) s now h = closed_forever us (apply u s) now (closed_apply u s h)
