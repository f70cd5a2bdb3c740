-- ===== src/SigningKey/Hierarchy.antt =====
-- caKeyLabelPattern and CheckNoCAHierarchyKey of internal/signingkey/signingkey.go.
use multivendor_hsm_pki.Prelude.{
  ℕ, ◌≡◌, refl, Bool, true, false, String, List, [], ◌∷◌, if◌then◌else◌, Result, ok, err,
}
use multivendor_hsm_pki.Action.{Act, pure, wrap, lift, ◌>>=◌, ◌>>◌}
use multivendor_hsm_pki.Text.{codes}
use multivendor_hsm_pki.Text.Regex.{
  Regex, empty, chars, seq, alt, plus, literal, anything, digit, full_match,
}
use multivendor_hsm_pki.Pkcs11.{private_key, Attribute, class_is, label_is, attr_label, Token}
use multivendor_hsm_pki.SigningKey.{KeyError, pkcs, ca_key_present}

-- (^|-)ca-(root|intermediate)-key-v[0-9]+$, searched for anywhere in a label: what stands before
-- the match is nothing, or ends in a dash.
abbrev pub ca_key_label_pattern : Regex
ca_key_label_pattern = seq (alt empty (seq anything (literal (codes "-")))) (
    seq (literal (codes "ca-")) (
      seq (alt (literal (codes "root")) (literal (codes "intermediate")))
        (seq (literal (codes "-key-v")) (plus (chars digit)))))

unfoldable pub is_ca_key_label : String → Bool
unfolding full_match literal
is_ca_key_label label = full_match ca_key_label_pattern (codes label)

-- The inner loop, over the attributes of one key.
unfoldable pub check_labels : List Attribute → Result KeyError (Unit {0})
check_labels [] = ok tt
check_labels (label_is l ∷ attrs) =
    let rest = check_labels attrs in if is_ca_key_label l then err (ca_key_present l) else rest
check_labels (_ ∷ attrs) = check_labels attrs

module _ (t : Token) where
  unfoldable pub check_handles : List ℕ → Act t.S KeyError (Unit {0})
  check_handles [] = pure tt
  check_handles (h ∷ hs) = do
    attrs ← wrap pkcs (t.get_attributes h (attr_label ∷ []))
    lift (check_labels attrs)
    check_handles hs

  unfoldable pub check_no_ca_hierarchy_key : Act t.S KeyError (Unit {0})
  check_no_ca_hierarchy_key = do
    hs ← wrap pkcs (t.find_objects (class_is private_key ∷ []))
    check_handles hs

prefixed : (is_ca_key_label "prod-ca-root-key-v1") ≡ true
unfolding is_ca_key_label
prefixed = refl

others : (is_ca_key_label "ca-root-key" ≡ false) × (is_ca_key_label "xca-root-key-v1" ≡ false)
unfolding is_ca_key_label
others = (refl, refl)
