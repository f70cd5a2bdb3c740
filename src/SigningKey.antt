-- ===== src/SigningKey.antt =====
-- internal/signingkey/signingkey.go: how the signing keys come into existence on a token, what is
-- read back of them, and how they are destroyed. `Points` stands for crypto/elliptic and
-- encoding/asn1; the 16 bytes of crypto/rand are an argument, `none` if rand.Read fails.
pub mod Duplicates
pub mod Unique
pub mod Provision
pub mod Destroy
pub mod Hierarchy
pub mod Protected
pub mod Destroyed
pub mod Separation
pub mod Tests
use multivendor_hsm_pki.Prelude.{
  ℕ, ◌≡◌, Bool, true, false, ◌&&◌, ◌||◌, not, String, Option, none, some, List, [], ◌∷◌, ◌==◌,
  nat_eq, string_eq, nat_beq, Result, ok, err, if◌then◌else◌,
}
use multivendor_hsm_pki.Action.{Act, pure, raise, need, lift, stop_if, wrap, map_err, ◌>>=◌, ◌>>◌}
use multivendor_hsm_pki.Inventory.{EcdsaKey}
use multivendor_hsm_pki.Pkcs11.{
  EcCurve, curve_name, ObjectClass, public_key, private_key, Attribute, label_is, ec_point_is,
  sensitive_is, extractable_is, AttributeType, attr_ec_point, attr_sensitive, attr_extractable,
  PkcsError, Token,
}
use multivendor_hsm_pki.Pkcs11.FindKey.{find_key_by_label}
use multivendor_hsm_pki.Pkcs11.Labels.{validate_versioned_label, LabelError}

-- elliptic.Unmarshal on a named curve, and asn1.Unmarshal of an OCTET STRING
pub record Points : Type 0 where
  pub unmarshal : String → List ℕ → Option (ℕ × ℕ)
  pub octet_string : List ℕ → Option (List ℕ)

pub record Key : Type 0 where
  pub label : String
  pub public : EcdsaKey
  pub sensitive : Bool
  pub extractable : Bool

pub data KeyError : Type 0 where
  bad_label : LabelError → KeyError
  unsupported_curve rand_failed : KeyError
  label_taken no_point bad_point not_sensitive is_extractable : String → KeyError
  pkcs : PkcsError → KeyError
  -- the duplicate's label, and whether the removal of the new key failed
  duplicate_key : String → Option PkcsError → KeyError
  nothing_to_destroy : String → KeyError
  ca_key_present : String → KeyError

abbrev as_key : String → Option (ℕ × ℕ) → Option EcdsaKey
as_key curve none = none
as_key curve (some (x, y)) = some (record { curve = curve; x = x; y = y })

-- pkcs11.DecodeECPoint: the bare point first, then the DER form
unfoldable pub decode_ec_point : Points → String → List ℕ → Option EcdsaKey
decode_ec_point points curve bytes = elim (points.unmarshal curve bytes) [
  | some (x, y) ↦ as_key curve (some (x, y))
  | none ↦ (elim (points.octet_string bytes) [
    | none ↦ none
    | some octets ↦ as_key curve (points.unmarshal curve octets)
  ])
]

-- attrTrue: any byte that is not zero
unfoldable pub attr_true : List ℕ → Bool
attr_true [] = false
attr_true (b ∷ bs) = let rest = attr_true bs in if nat_beq b 0 then rest else true

-- SameKey; a nil key is no key
unfoldable pub same_key : Option EcdsaKey → Option EcdsaKey → Bool
same_key none b = false
same_key (some a) none = false
same_key (some a) (some b) = a.curve == b.curve && (a.x == b.x && a.y == b.y)

-- The loop over the private half's attributes.
unfoldable pub read_protection : List Attribute → Key → Key
read_protection [] key = key
read_protection (sensitive_is v ∷ attrs) key =
    read_protection attrs (record key { sensitive = attr_true v })
read_protection (extractable_is v ∷ attrs) key =
    read_protection attrs (record key { extractable = attr_true v })
read_protection (_ ∷ attrs) key = read_protection attrs key

-- a.Value of the attribute that was asked for
abbrev pub point_value : Attribute → List ℕ
point_value (ec_point_is v) = v
point_value _ = []

abbrev pub first_point : List Attribute → Option (List ℕ)
first_point [] = none
first_point (a ∷ _) = some (point_value a)

-- Key.verifyProtection
unfoldable pub verify_protection : Key → Result KeyError (Unit {0})
verify_protection k =
    if not k.sensitive
    then err (not_sensitive k.label)
    else if k.extractable
    then err (is_extractable k.label)
    else ok tt

module _ (t : Token) (points : Points) where
  unfoldable pub load : String → EcCurve → Act t.S KeyError Key
  load label curve = do
    name ← need unsupported_curve (curve_name curve)
    pub_handle ← wrap pkcs (find_key_by_label t public_key label)
    pub_attrs ← wrap pkcs (t.get_attributes pub_handle (attr_ec_point ∷ []))
    value ← need (no_point label) (first_point pub_attrs)
    key ← need (bad_point label) (decode_ec_point points name value)
    priv_handle ← wrap pkcs (find_key_by_label t private_key label)
    priv_attrs ← wrap pkcs (t.get_attributes priv_handle (attr_sensitive ∷ attr_extractable ∷ []))
    pure (
        read_protection priv_attrs
          (record { label = label; public = key; sensitive = false; extractable = false }))

  -- Verify: Load, then verifyProtection; the key that it returns beside an error is left out
  unfoldable pub verify : String → EcCurve → Act t.S KeyError Key
  verify label curve = do key ← load label curve; lift (verify_protection key); pure key
