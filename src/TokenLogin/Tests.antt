-- ===== src/TokenLogin/Tests.antt =====
-- A login on a toy module (internal/pkcs11/tokenlogin.go).
use multivendor_hsm_pki.Prelude.{
  ℕ, suc, ◌≡◌, refl, Bool, true, false, List, [], ◌∷◌, ◌==◌, nat_eq, ok, err, All, length,
  if◌then◌else◌,
}
use multivendor_hsm_pki.TokenLogin.{
  Workspace, Module, login_failed, Adapter, no_workspace, zeroize_bytes, login_with, login_token,
}
use multivendor_hsm_pki.TokenLogin.Held.{LoginLeaves, login_token_exact}

-- Sessions are numbered, and the PIN is one byte, 7.
abbrev right_pin : List ℕ → Bool
right_pin (b ∷ []) = b == 7
right_pin _ = false

abbrev toy_module : Module
toy_module = record {
  M = ℕ;
  open_session = λ slot next. (ok (suc next), suc next);
  login = λ handle role pin next. ((if right_pin pin then ok tt else err 160), next);
  logout = λ handle next. (ok tt, next);
  close_session = λ handle next. (ok tt, next);
}

abbrev token : Workspace
token = record { slot_id = 3; label = "supply-chain"; serial = "s"; present = true }

abbrev idle : Adapter toy_module
idle = record {
  ctx = 0;
  closed = false;
  token_logged_in = false;
  anchor_session = 0;
  anchor_workspace = no_workspace;
}

abbrev held : Adapter toy_module
held = record {
  ctx = 1;
  closed = false;
  token_logged_in = true;
  anchor_session = 1;
  anchor_workspace = token;
}

logged_in : login_token toy_module false token (7 ∷ []) 1 idle ≡ (ok tt, 0 ∷ [], held)
unfolding login_token login_with zeroize_bytes
logged_in = refl

wrong_pin : (login_token toy_module false token (8 ∷ []) 1 idle).0 ≡ err (login_failed 160)
unfolding login_token login_with
wrong_pin = refl

login_token_exact_example :
    LoginLeaves toy_module token
      (7 ∷ [])
      1
      idle
      (login_token toy_module false token (7 ∷ []) 1 idle).0
      (login_token toy_module false token (7 ∷ []) 1 idle).2
    × All (λ b. b ≡ 0) (login_token toy_module false token (7 ∷ []) 1 idle).1
    × (length (login_token toy_module false token (7 ∷ []) 1 idle).1 ≡ 1)
login_token_exact_example = login_token_exact toy_module false token (7 ∷ []) 1 idle
