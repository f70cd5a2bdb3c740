-- ===== src/TokenLogin.antt =====
-- internal/pkcs11/tokenlogin.go: one login of a token, held on an anchor session. The two mutexes
-- make each method one step. `Module` stands for the vendor's module behind miekg/pkcs11; an error of
-- it is its code. A role is its CK_USER_TYPE.
pub mod Held
pub mod Tests
use multivendor_hsm_pki.Prelude.{
  ℕ, ◌≡◌, Bool, true, false, not, String, List, [], ◌∷◌, Result, ok, err, if◌then◌else◌,
}

pub record Workspace : Type 0 where
  pub slot_id : ℕ
  pub label : String
  pub serial : String
  pub present : Bool

pub record Module : Type 1 where
  pub M : Type 0
  pub open_session : ℕ → M → Result ℕ ℕ × M
  pub login : ℕ → ℕ → List ℕ → M → Result ℕ (Unit {0}) × M
  pub logout : ℕ → M → Result ℕ (Unit {0}) × M
  pub close_session : ℕ → M → Result ℕ (Unit {0}) × M

pub data LoginError : Type 0 where
  cancelled empty_pin token_already_logged_in adapter_closed : LoginError
  open_failed login_failed logout_failed : ℕ → LoginError

-- The fields of pkcs11Adapter that the login uses.
pub record Adapter (m : Module) : Type 0 where
  pub ctx : m.M
  pub closed : Bool
  pub token_logged_in : Bool
  pub anchor_session : ℕ
  pub anchor_workspace : Workspace

abbrev pub no_workspace : Workspace
no_workspace = record { slot_id = 0; label = ""; serial = ""; present = false }

-- zeroizeBytes
unfoldable pub zeroize_bytes : List ℕ → List ℕ
zeroize_bytes [] = []
zeroize_bytes (b ∷ bs) = 0 ∷ zeroize_bytes bs

abbrev pub is_empty_pin : List ℕ → Bool
is_empty_pin [] = true
is_empty_pin (_ ∷ _) = false

module _ (m : Module) where
  -- After C_Login on the anchor session that was opened.
  abbrev pub after_login :
      Workspace
      → ℕ
      → Adapter m
      → Result ℕ (Unit {0}) × m.M
      → Result LoginError (Unit {0}) × Adapter m
  after_login ws handle a (ok _, ctx) = (
    ok tt,
    record a { ctx = ctx; anchor_session = handle; anchor_workspace = ws; token_logged_in = true },
  )
  after_login ws handle a (err code, ctx) =
      (err (login_failed code), record a { ctx = (m.close_session handle ctx).1 })

  abbrev pub after_open :
      Workspace
      → List ℕ
      → ℕ
      → Adapter m
      → Result ℕ ℕ × m.M
      → Result LoginError (Unit {0}) × Adapter m
  after_open ws pin role a (err code, ctx) = (err (open_failed code), record a { ctx = ctx })
  after_open ws pin role a (ok handle, ctx) = after_login ws handle a (m.login handle role pin ctx)

  -- The body of LoginToken, which reads the PIN; `cancelled_ctx` is checkCtx.
  unfoldable pub login_with :
      Bool → Workspace → List ℕ → ℕ → Adapter m → Result LoginError (Unit {0}) × Adapter m
  login_with cancelled_ctx ws pin role a =
      if cancelled_ctx
      then (err cancelled, a)
      else if is_empty_pin pin
      then (err empty_pin, a)
      else if a.token_logged_in
      then (err token_already_logged_in, a)
      else if a.closed
      then (err adapter_closed, a)
      else after_open ws pin role a (m.open_session ws.slot_id a.ctx)

  -- LoginToken, and the PIN that it leaves in the caller's buffer
  unfoldable pub login_token :
      Bool → Workspace → List ℕ → ℕ → Adapter m → Result LoginError (Unit {0}) × List ℕ × Adapter m
  login_token cancelled_ctx ws pin role a =
      let (r, a') = login_with cancelled_ctx ws pin role a in (r, zeroize_bytes pin, a')

  -- C_Logout under the state lock
  abbrev pub logout_anchor : Adapter m → Result LoginError (Unit {0}) × m.M
  logout_anchor a =
      let (r, ctx) = m.logout a.anchor_session a.ctx in
      if a.closed
      then (err adapter_closed, a.ctx)
      else (elim r [ ok _ ↦ ok tt | err code ↦ err (logout_failed code) ], ctx)

  -- C_CloseSession under the state lock, whose error is dropped
  abbrev pub close_anchor : Adapter m → m.M → m.M
  close_anchor a ctx = if a.closed then ctx else (m.close_session a.anchor_session ctx).1

  -- LogoutToken, and logoutTokenLocked
  unfoldable pub logout_token : Adapter m → Result LoginError (Unit {0}) × Adapter m
  logout_token a =
      let (r, ctx) = logout_anchor a in
      if not a.token_logged_in then (ok tt, a) else (
        r,
        record a {
          ctx = close_anchor a ctx;
          anchor_session = 0;
          anchor_workspace = no_workspace;
          token_logged_in = false;
        },
      )
