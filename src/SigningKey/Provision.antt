-- ===== src/SigningKey/Provision.antt =====
-- Provision and destroyKeyPair of internal/signingkey/signingkey.go.
use multivendor_hsm_pki.Prelude.{
  ℕ, ◌==◌, string_eq, true, false, not, String, Option, none, some, List, Result, ok, err,
  if◌then◌else◌,
}
use multivendor_hsm_pki.Action.{Act, pure, need, lift, stop_if, wrap, ◌>>=◌, ◌>>◌}
use multivendor_hsm_pki.Pkcs11.{
  EcCurve, curve_name, ObjectClass, public_key, private_key, PkcsError, key_not_found,
  KeyPairRequest, Token,
}
use multivendor_hsm_pki.Pkcs11.FindKey.{find_key_by_label, label_is_free}
use multivendor_hsm_pki.Pkcs11.Labels.{validate_versioned_label}
use multivendor_hsm_pki.SigningKey.{
  Points, Key, KeyError, bad_label, unsupported_curve, rand_failed, label_taken, pkcs,
  duplicate_key, load, verify_protection,
}
use multivendor_hsm_pki.SigningKey.Duplicates.{find_duplicate_point}

module _ (t : Token) where
  -- One round of destroyKeyPair's loop: no key of the class is no error.
  unfoldable pub destroy_half : ObjectClass → String → Act t.S PkcsError (Unit {0})
  destroy_half class label s =
      let (found, s') = find_key_by_label t class label s in
      elim found [
        | ok h ↦ t.destroy_object h s'
        | err key_not_found ↦ (ok tt, s')
        | err e ↦ (err e, s')
      ]

  unfoldable pub destroy_key_pair : String → Act t.S PkcsError (Unit {0})
  destroy_key_pair label = do destroy_half public_key label; destroy_half private_key label

  unfoldable pub require_free : ObjectClass → String → Act t.S KeyError (Unit {0})
  require_free class label = do
    free ← wrap pkcs (label_is_free t class label)
    stop_if (not free) (label_taken label)

  abbrev pub error_of : Result PkcsError (Unit {0}) → Option PkcsError
  error_of (ok _) = none
  error_of (err e) = some e

  -- The new key is destroyed when it turns out to be one that the token already has.
  unfoldable pub refuse_duplicate : String → String → Act t.S KeyError (Unit {0})
  refuse_duplicate label other s =
      let (undone, s') = destroy_key_pair label s in
      if other == "" then (ok tt, s) else (err (duplicate_key other (error_of undone)), s')

  abbrev pub request : EcCurve → String → List ℕ → KeyPairRequest
  request curve label id = record {
    curve = curve;
    label = label;
    id = id;
    sign = true;
    verify = true;
    extractable = false;
  }

module _ (t : Token) (points : Points) where
  unfoldable pub provision : Option (List ℕ) → String → EcCurve → Act t.S KeyError Key
  provision random label curve = do
    wrap bad_label (lift (validate_versioned_label label))
    name ← need unsupported_curve (curve_name curve)
    require_free t public_key label
    require_free t private_key label
    id ← need rand_failed random
    _ ← wrap pkcs (t.generate_key_pair (request t curve label id))
    key ← load t points label curve
    lift (verify_protection key)
    duplicate ← find_duplicate_point t points label key.public name
    refuse_duplicate t label duplicate
    pure key
