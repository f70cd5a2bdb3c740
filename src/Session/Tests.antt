-- ===== src/Session/Tests.antt =====
-- A session over its budget (internal/pkcs11/session.go).
use multivendor_hsm_pki.Prelude.{◌≡◌, refl, ◌↔◌, true, false, ok, err}
use multivendor_hsm_pki.Session.{session_expired, Session, over_budget, touch, is_expired}
use multivendor_hsm_pki.Session.Budget.{IsWithin, Leaves, touch_exact}

abbrev fresh : Session
fresh = record {
  workspace = 0;
  handle = 1;
  opened_at = 100;
  last_used_at = 100;
  idle_timeout = 10;
  max_ttl = 50;
  logged_in = true;
  closed = false;
}

used_up : (touch fresh 111).1 ≡ err session_expired
unfolding touch over_budget
used_up = refl

touch_exact_example :
    (((touch fresh 105).1 ≡ ok tt) ↔ IsWithin fresh 105)
    × ((is_expired fresh 105 ≡ false) ↔ IsWithin fresh 105)
    × Leaves fresh 105 (touch fresh 105).0 (touch fresh 105).1
touch_exact_example = touch_exact fresh 105
