-- ===== src/TokenLogin/Held.antt =====
-- When a login is held, and that it is given back.
use multivendor_hsm_pki.Prelude.{
  ℕ, ◌≡◌, ◌≢◌, ◌∙◌, refl, ap, Bool, true, false, List, [], ◌∷◌, arith, Result, ok, err, All, length,
}
use multivendor_hsm_pki.TokenLogin.{
  Workspace, Module, LoginError, token_already_logged_in, Adapter, zeroize_bytes, after_login,
  after_open, login_with, login_token, logout_token,
}

module _ (m : Module) where
  -- What a login leaves, by its result: after a success, C_OpenSession has opened the anchor session and
  -- C_Login has accepted the role and the PIN on it.
  abbrev pub LoginLeaves :
      Workspace → List ℕ → ℕ → Adapter m → Result LoginError (Unit {0}) → Adapter m → Type 0
  LoginLeaves ws pin role a (ok _) a' =
      (a.token_logged_in ≡ false)
      × (a.closed ≡ false)
      × (pin ≢ [])
      × (a'.token_logged_in ≡ true)
      × (a'.anchor_workspace ≡ ws)
      × ((m.open_session ws.slot_id a.ctx).0 ≡ ok a'.anchor_session)
      × (m.login a'.anchor_session role pin (m.open_session ws.slot_id a.ctx).1 ≡ (ok tt, a'.ctx))
  LoginLeaves ws pin role a (err _) a' =
      (a'.token_logged_in ≡ a.token_logged_in)
      × (a'.anchor_session ≡ a.anchor_session)
      × (a'.anchor_workspace ≡ a.anchor_workspace)

  after_open_lem :
      (ws : Workspace) (pin : List ℕ) (role : ℕ) (a : Adapter m) (opened : Result ℕ ℕ × m.M)
      → a.token_logged_in ≡ false
      → a.closed ≡ false
      → pin ≢ []
      → m.open_session ws.slot_id a.ctx ≡ opened
      → LoginLeaves ws pin role a
          (after_open m ws pin role a opened).0
          (after_open m ws pin role a opened).1
  after_open_lem ws pin role a (err code, ctx) free live some_pin e = (refl, refl, refl)
  after_open_lem ws pin role a (ok handle, ctx) free live some_pin e =
      go (m.login handle role pin ctx) refl
    where
      go :
          (r : Result ℕ (Unit {0}) × m.M)
          → m.login handle role pin ctx ≡ r
          → LoginLeaves ws pin role a
              (after_login m ws handle a r).0
              (after_login m ws handle a r).1
      go (ok _, ctx') accepted = (
        free,
        live,
        some_pin,
        refl,
        refl,
        ap (λ q. q.0) e,
        ap (λ q. m.login handle role pin q.1) e ∙ accepted,
      )
      go (err code, ctx') refused = (refl, refl, refl)

  login_with_lem :
      (cancelled_ctx : Bool) (ws : Workspace) (pin : List ℕ) (role : ℕ) (a : Adapter m)
      → LoginLeaves ws pin role a
          (login_with m cancelled_ctx ws pin role a).0
          (login_with m cancelled_ctx ws pin role a).1
  unfolding login_with
  login_with_lem true ws pin role a = (refl, refl, refl)
  login_with_lem false ws [] role a = (refl, refl, refl)
  login_with_lem false ws (b ∷ bs) role a = go a.token_logged_in a.closed refl refl
    where
      go :
          (held closed : Bool)
          → a.token_logged_in ≡ held
          → a.closed ≡ closed
          → LoginLeaves ws
              (b ∷ bs)
              role
              a
              (login_with m false ws (b ∷ bs) role a).0
              (login_with m false ws (b ∷ bs) role a).1
      go true closed h c = rw h (refl, refl, refl)
      go false true h c = rw (h, c) (refl, refl, refl)
      go false false h c =
          rw (h, c)
            (after_open_lem ws (b ∷ bs) role _ (m.open_session ws.slot_id a.ctx) refl refl (λ e. cc)
              refl)

  zeroed :
      (pin : List ℕ)
      → All (λ b. b ≡ 0) (zeroize_bytes pin) × (length (zeroize_bytes pin) ≡ length pin)
  unfolding zeroize_bytes
  zeroed [] = (tt, refl)
  zeroed (b ∷ bs) = let (zeros, same) = zeroed bs in ((refl, zeros), omega (arith, same))

  -- LoginToken succeeds only on an open adapter without a login, with a PIN that is not empty, and if
  -- C_OpenSession opens a session of the given token and C_Login accepts the role and the PIN on it; the
  -- login is then held on that session. A failure leaves the login as it was. On every path the caller's PIN buffer keeps its length and is all zeros.
  pub login_token_exact :
      (cancelled_ctx : Bool) (ws : Workspace) (pin : List ℕ) (role : ℕ) (a : Adapter m)
      → LoginLeaves ws pin role a
          (login_token m cancelled_ctx ws pin role a).0
          (login_token m cancelled_ctx ws pin role a).2
        × All (λ b. b ≡ 0) (login_token m cancelled_ctx ws pin role a).1
        × (length (login_token m cancelled_ctx ws pin role a).1 ≡ length pin)
  unfolding login_token
  login_token_exact cancelled_ctx ws pin role a =
      let (zeros, same) = zeroed pin in (login_with_lem cancelled_ctx ws pin role a, zeros, same)

  -- While a login is held, a second LoginToken with a PIN fails with ErrTokenAlreadyLoggedIn and touches
  -- neither the adapter nor the module; LogoutToken leaves no login and no anchor, whatever the module
  -- reports, and a second LogoutToken changes nothing.
  held_until_logout :
      (ws : Workspace) (pin : List ℕ) (role : ℕ) (a : Adapter m)
      → pin ≢ []
      → a.token_logged_in ≡ true
      → ((login_token m false ws pin role a).0 ≡ err token_already_logged_in)
        × ((login_token m false ws pin role a).2 ≡ a)
        × ((logout_token m a).1.token_logged_in ≡ false)
        × ((logout_token m a).1.anchor_session ≡ 0)
        × (logout_token m (logout_token m a).1 ≡ (ok tt, (logout_token m a).1))
  unfolding login_token login_with logout_token
  held_until_logout ws [] role a some_pin held = absurd (some_pin refl)
  held_until_logout ws (b ∷ bs) role a some_pin held = rw held (refl, refl, refl, refl, refl)
