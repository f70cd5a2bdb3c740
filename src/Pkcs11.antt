-- ===== src/Pkcs11.antt =====
-- internal/pkcs11: the label rule, the attributes that the key code reads, and the token behind a
-- session. The vendor's module is outside; `Token` has the operations of VendorAdapter that the key
-- code calls, on the state of the token, and `IsToken` what PKCS#11 documents of them.
pub mod FindKey
pub mod Labels
use multivendor_hsm_pki.Prelude.{
  ℕ, ◌≡◌, Bool, true, false, ◌&&◌, ◌||◌, not, String, Option, none, some, List, [], ◌∷◌, ◌++◌, ◌==◌,
  nat_eq, string_eq, Eq, ◌↔◌, arith, Result, ok, err, filter, if◌then◌else◌,
}

pub data ObjectClass : Type 0 where
  public_key private_key secret_key : ObjectClass

abbrev pub same_class : ObjectClass → ObjectClass → Bool
same_class public_key public_key = true
same_class private_key private_key = true
same_class secret_key secret_key = true
same_class _ _ = false

-- ECCurve: the three constants, and any other value
pub data EcCurve : Type 0 where
  p256 p384 p521 : EcCurve
  other_curve : ℕ → EcCurve

-- ECCurve.Curve: `none` is nil
unfoldable pub curve_name : EcCurve → Option String
curve_name p256 = some "P-256"
curve_name p384 = some "P-384"
curve_name p521 = some "P-521"
curve_name (other_curve _) = none

-- An attribute with its value, of the types that the key code uses.
pub data Attribute : Type 0 where
  class_is : ObjectClass → Attribute
  label_is : String → Attribute
  ec_point_is sensitive_is extractable_is : List ℕ → Attribute

pub data AttributeType : Type 0 where
  attr_label attr_ec_point attr_sensitive attr_extractable : AttributeType

-- An object on a token: its handle, and the attributes above.
pub record Object : Type 0 where
  pub handle : ℕ
  pub class : ObjectClass
  pub label : String
  pub ec_point : List ℕ
  pub sensitive : List ℕ
  pub extractable : List ℕ

pub data PkcsError : Type 0 where
  key_not_found unsupported_curve : PkcsError
  ambiguous_label : ℕ → PkcsError
  -- an error of the module, by its code
  module_error : ℕ → PkcsError

pub record KeyPairRequest : Type 0 where
  pub curve : EcCurve
  pub label : String
  pub id : List ℕ
  pub sign : Bool
  pub verify : Bool
  pub extractable : Bool

-- Does an object carry an attribute of a search template?
abbrev pub has_attribute : Object → Attribute → Bool
has_attribute o (class_is c) = same_class o.class c
has_attribute o (label_is l) = o.label == l
has_attribute o (ec_point_is p) = false
has_attribute o (sensitive_is p) = false
has_attribute o (extractable_is p) = false

unfoldable pub matches_template : List Attribute → Object → Bool
matches_template [] o = true
matches_template (a ∷ as') o =
    let rest = matches_template as' o in if has_attribute o a then rest else false

unfoldable pub handles : List Object → List ℕ
handles [] = []
handles (o ∷ os) = o.handle ∷ handles os

-- The operations of VendorAdapter that the key code calls through one session, and what is on the
-- token. The state is also that of the module and of the session.
pub record Token : Type 1 where
  pub S : Type 0
  pub objects : S → List Object
  pub find_objects : List Attribute → S → Result PkcsError (List ℕ) × S
  pub get_attributes : ℕ → List AttributeType → S → Result PkcsError (List Attribute) × S
  pub generate_key_pair : KeyPairRequest → S → Result PkcsError (ℕ × ℕ) × S
  pub destroy_object : ℕ → S → Result PkcsError (Unit {0}) × S

-- C_FindObjects returns the handles of the objects that match, or fails with a code of the module.
abbrev pub FindsMatches : List Attribute → List Object → Result PkcsError (List ℕ) → Type 0
FindsMatches template objects (ok hs) = hs ≡ handles (filter (matches_template template) objects)
FindsMatches template objects (err (module_error code)) = Unit
FindsMatches template objects (err _) = ⊥

-- C_DestroyObject removes the object of the handle, or fails and removes nothing.
abbrev pub Destroys : ℕ → List Object → List Object → Result PkcsError (Unit {0}) → Type 0
Destroys h before after (ok _) = after ≡ filter (λ o. not (o.handle == h)) before
Destroys h before after (err _) = after ≡ before

pub record IsToken (t : Token) : Type 0 where
  pub finds :
      (template : List Attribute) (s : t.S)
      → FindsMatches template (t.objects s) (t.find_objects template s).0
  pub find_reads :
      (template : List Attribute) (s : t.S) → t.objects (t.find_objects template s).1 ≡ t.objects s
  pub get_reads :
      (h : ℕ) (types : List AttributeType) (s : t.S)
      → t.objects (t.get_attributes h types s).1 ≡ t.objects s
  pub destroys :
      (h : ℕ) (s : t.S)
      → Destroys h (t.objects s) (t.objects (t.destroy_object h s).1) (t.destroy_object h s).0
