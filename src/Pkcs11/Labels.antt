-- ===== src/Pkcs11/Labels.antt =====
-- versionedLabelPattern and ValidateVersionedLabel of internal/pkcs11/adapters.go. A label is
-- matched by its code points.
use multivendor_hsm_pki.Prelude.{◌≡◌, refl, ◌↔◌, String, Result, ok, err, refuse_if, not, arith}
use multivendor_hsm_pki.Text.{codes}
use multivendor_hsm_pki.Text.Regex.{
  Regex, chars, seq, star, plus, literal, digit, lower_or_digit, full_match, full_match_iff, Lang,
}

-- ^[a-z0-9]+(-[a-z0-9]+)*-v[0-9]+$
abbrev pub versioned_label_pattern : Regex
versioned_label_pattern = seq (plus (chars lower_or_digit)) (
    seq (star (seq (literal (codes "-")) (plus (chars lower_or_digit))))
      (seq (literal (codes "-v")) (plus (chars digit))))

pub data LabelError : Type 0 where
  not_versioned : String → LabelError

unfoldable pub validate_versioned_label : String → Result LabelError (Unit {0})
unfolding full_match literal
validate_versioned_label label =
    refuse_if (not (full_match versioned_label_pattern (codes label))) (not_versioned label)

-- A label is accepted exactly if it is a text of the pattern.
pub validate_versioned_label_iff :
    (label : String)
    → (validate_versioned_label label ≡ ok tt) ↔ Lang versioned_label_pattern (codes label)
unfolding validate_versioned_label
validate_versioned_label_iff label =
    let decides = full_match_iff versioned_label_pattern (codes label) in
    ((λ h. decides.0 (ground arith)), (λ l. ground (arith, decides.1 l)))

accepted : validate_versioned_label "image-signing-key-v12" ≡ ok tt
unfolding validate_versioned_label
accepted = refl

refused :
    (validate_versioned_label "image-signing-key" ≡ err (not_versioned "image-signing-key"))
    × (validate_versioned_label "Image-v1" ≡ err (not_versioned "Image-v1"))
    × (validate_versioned_label "-v1" ≡ err (not_versioned "-v1"))
unfolding validate_versioned_label
refused = (refl, refl, refl)
