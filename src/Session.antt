-- ===== src/Session.antt =====
-- internal/pkcs11/session.go: the budget of a session. The mutex makes each method one step, and
-- time.Now is an argument. Durations are not negative; `now.Sub(t) > d` is `now > t + d`.
pub mod Budget
pub mod Tests
use multivendor_hsm_pki.Prelude.{
  ℕ, ◌+◌, Bool, true, false, ◌||◌, List, [], ◌∷◌, Result, ok, err, ltb, if◌then◌else◌,
}
use multivendor_hsm_pki.Clock.{Time, after}

pub data SessionError : Type 0 where
  session_closed session_expired : SessionError

pub record Session : Type 0 where
  pub workspace : ℕ
  pub handle : ℕ
  pub opened_at : Time
  pub last_used_at : Time
  pub idle_timeout : ℕ
  pub max_ttl : ℕ
  pub logged_in : Bool
  pub closed : Bool

-- now.Sub(s.openedAt) > s.maxTTL || now.Sub(s.lastUsedAt) > s.idleTimeout
unfoldable pub over_budget : Session → Time → Bool
over_budget s now =
    after now (s.opened_at + s.max_ttl) || after now (s.last_used_at + s.idle_timeout)

-- markClosed, and what touch does to a session over its budget
abbrev pub mark_closed : Session → Session
mark_closed s = record s { closed = true; logged_in = false }

unfoldable pub touch : Session → Time → Session × Result SessionError (Unit {0})
touch s now =
    if s.closed
    then (s, err session_closed)
    else if over_budget s now
    then (mark_closed s, err session_expired)
    else (record s { last_used_at = now }, ok tt)

-- expired: for the janitor, which changes nothing
unfoldable pub is_expired : Session → Time → Bool
is_expired s now = if s.closed then true else over_budget s now

-- setLoggedIn
abbrev pub set_logged_in : Bool → Session → Session
set_logged_in v s = record s { logged_in = v }

-- The methods that change a session, at the times of their calls.
pub data Use : Type 0 where
  touched : Time → Use
  marked_closed : Use
  login_set : Bool → Use

abbrev pub apply : Use → Session → Session
apply (touched now) s = (touch s now).0
apply marked_closed s = mark_closed s
apply (login_set v) s = set_logged_in v s

unfoldable pub apply_all : List Use → Session → Session
apply_all [] s = s
apply_all (u ∷ us) s = apply_all us (apply u s)
