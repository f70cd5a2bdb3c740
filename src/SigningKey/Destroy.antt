-- ===== src/SigningKey/Destroy.antt =====
-- Destroy of internal/signingkey/signingkey.go. The halves that were destroyed are reported beside
-- an error too.
use multivendor_hsm_pki.Prelude.{ℕ, Bool, true, false, String, Option, none, some, Result, ok, err}
use multivendor_hsm_pki.Pkcs11.{public_key, private_key, PkcsError, key_not_found, Token}
use multivendor_hsm_pki.Pkcs11.FindKey.{find_key_by_label}
use multivendor_hsm_pki.SigningKey.{KeyError, pkcs, nothing_to_destroy}

pub record Destroyed : Type 0 where
  pub public : Bool
  pub private : Bool

abbrev pub none_destroyed : Destroyed
none_destroyed = record { public = false; private = false }

-- A half that is absent is no handle; any other error of the lookup ends Destroy.
abbrev pub half : Result PkcsError ℕ → Result PkcsError (Option ℕ)
half (ok h) = ok (some h)
half (err key_not_found) = ok none
half (err e) = err e

module _ (t : Token) where
  abbrev Outcome : Type 0
  Outcome = (Result KeyError (Unit {0}) × Destroyed) × t.S

  unfoldable pub destroy_public : Option ℕ → Destroyed → t.S → Outcome
  destroy_public none done s = ((ok tt, done), s)
  destroy_public (some h) done s =
      let (r, s') = t.destroy_object h s in
      elim r [
        | ok _ ↦ ((ok tt, record done { public = true }), s')
        | err e ↦ ((err (pkcs e), done), s')
      ]

  -- The private half goes first.
  unfoldable pub destroy_halves : Option ℕ → Option ℕ → t.S → Outcome
  destroy_halves none pub_handle s = destroy_public pub_handle none_destroyed s
  destroy_halves (some h) pub_handle s =
      let (r, s') = t.destroy_object h s in
      elim r [
        | ok _ ↦ destroy_public pub_handle (record none_destroyed { private = true }) s'
        | err e ↦ ((err (pkcs e), none_destroyed), s')
      ]

  -- `if privErr != nil && pubErr != nil`
  abbrev pub destroy_found : String → Option ℕ → Option ℕ → t.S → Outcome
  destroy_found label none none s = ((err (nothing_to_destroy label), none_destroyed), s)
  destroy_found label none (some h) s = destroy_halves none (some h) s
  destroy_found label (some h) pub_handle s = destroy_halves (some h) pub_handle s

  abbrev pub with_private : String → Option ℕ → Result PkcsError ℕ × t.S → Outcome
  with_private label priv_handle (found, s) = elim (half found) [
    | err e ↦ ((err (pkcs e), none_destroyed), s)
    | ok pub_handle ↦ destroy_found label priv_handle pub_handle s
  ]

  unfoldable pub destroy : String → t.S → Outcome
  destroy label s =
      let (found, s') = find_key_by_label t private_key label s in
      elim (half found) [
        | err e ↦ ((err (pkcs e), none_destroyed), s')
        | ok priv_handle ↦ with_private label priv_handle (find_key_by_label t public_key label s')
      ]
