-- ===== src/SigningKey/Tests.antt =====
-- A toy token, and the theorems on keys at it (internal/signingkey, internal/pkcs11).
use multivendor_hsm_pki.Prelude.{
  ℕ, suc, arith, Member, All, inl, ◌≡◌, ◌↔◌, ◌⊎◌, refl, true, false, not, String, Option, none,
  some, List, [], ◌∷◌, ◌++◌, ◌==◌, nat_eq, string_eq, Result, ok, err, filter, length,
  if◌then◌else◌,
}
use multivendor_hsm_pki.Action.{◌>>=◌}
use multivendor_hsm_pki.Text.{codes}
use multivendor_hsm_pki.Text.Regex.{Lang}
use multivendor_hsm_pki.Pkcs11.{
  p256, curve_name, public_key, private_key, Attribute, class_is, label_is, ec_point_is,
  sensitive_is, extractable_is, AttributeType, attr_label, attr_ec_point, attr_sensitive,
  attr_extractable, Object, PkcsError, module_error, handles, matches_template, Token, IsToken,
}
use multivendor_hsm_pki.Pkcs11.FindKey.{find_key_by_label, label_is_free, named}
use multivendor_hsm_pki.Pkcs11.Labels.{versioned_label_pattern, validate_versioned_label}
use multivendor_hsm_pki.SigningKey.{
  Points, Key, load, verify_protection, read_protection, attr_true, decode_ec_point, same_key,
}
use multivendor_hsm_pki.SigningKey.Duplicates.{
  Seen, is_duplicate, search_duplicate, find_duplicate_point, read_seen,
}
use multivendor_hsm_pki.SigningKey.Unique.{
  IsTwin, IsOverlooked, Reads, check_unique, check_unique_passes_iff,
}
use multivendor_hsm_pki.SigningKey.Provision.{
  provision, require_free, refuse_duplicate, destroy_key_pair, destroy_half,
}
use multivendor_hsm_pki.SigningKey.Protected.{ReportsProtected, provision_protected}
use multivendor_hsm_pki.SigningKey.Destroy.{destroy, destroy_public, destroy_halves}
use multivendor_hsm_pki.SigningKey.Hierarchy.{
  ca_key_label_pattern, is_ca_key_label, check_labels, check_handles, check_no_ca_hierarchy_key,
}
use multivendor_hsm_pki.SigningKey.Separation.{ReadsLabels, no_ca_hierarchy_key}
use multivendor_hsm_pki.SigningKey.Destroyed.{IsDestruction, destroy_exact}

abbrev value_of : Object → AttributeType → Attribute
value_of o attr_label = label_is o.label
value_of o attr_ec_point = ec_point_is o.ec_point
value_of o attr_sensitive = sensitive_is o.sensitive
value_of o attr_extractable = extractable_is o.extractable

abbrev values_of : Object → List AttributeType → List Attribute
values_of o [] = []
values_of o (ty ∷ types) = value_of o ty ∷ values_of o types

abbrev attributes : List Object → ℕ → List AttributeType → Result PkcsError (List Attribute)
attributes [] h types = err (module_error 1)
attributes (o ∷ os) h types =
    let rest = attributes os h types in if o.handle == h then ok (values_of o types) else rest

-- The objects are the state; a new pair gets handles that follow the number of objects.
abbrev toy_token : Token
toy_token = record {
  S = List Object;
  objects = λ s. s;
  find_objects = λ template s. (ok (handles (filter (matches_template template) s)), s);
  get_attributes = λ h types s. (attributes s h types, s);
  generate_key_pair = λ req s. (
    ok (length s, suc (length s)),
    s
        ++ record {
          handle = length s;
          class = public_key;
          label = req.label;
          ec_point = 1 ∷ length s ∷ [];
          sensitive = [];
          extractable = [];
        }
          ∷ record {
            handle = suc (length s);
            class = private_key;
            label = req.label;
            ec_point = [];
            sensitive = 1 ∷ [];
            extractable = 0 ∷ [];
          }
          ∷ [],
  );
  destroy_object = λ h s. (ok tt, filter (λ o. not (o.handle == h)) s);
}

toy_token-IsToken : IsToken toy_token
toy_token-IsToken = record {
  finds = λ template s. refl;
  find_reads = λ template s. refl;
  get_reads = λ h types s. refl;
  destroys = λ h s. refl;
}

abbrev pair_of : List ℕ → Option (ℕ × ℕ)
pair_of (x ∷ y ∷ []) = some (x, y)
pair_of _ = none

abbrev toy_points : Points
toy_points = record { unmarshal = λ curve. pair_of; octet_string = λ bytes. none }

abbrev label_v1 : String
label_v1 = "image-signing-key-v1"

abbrev new_key : Key
new_key = record {
  label = label_v1;
  public = record { curve = "P-256"; x = 1; y = 0 };
  sensitive = true;
  extractable = false;
}

provisioned : (provision toy_token toy_points (some []) label_v1 p256 []).0 ≡ ok new_key
unfolding provision require_free refuse_duplicate destroy_key_pair destroy_half label_is_free
    find_key_by_label handles matches_template filter load verify_protection read_protection
    attr_true decode_ec_point find_duplicate_point search_duplicate read_seen is_duplicate same_key
    validate_versioned_label curve_name ◌>>=◌
provisioned = refl

provision_protected_example :
    Lang versioned_label_pattern (codes label_v1)
    × (new_key.label ≡ label_v1)
    × (named public_key label_v1 [] ≡ [])
    × (named private_key label_v1 [] ≡ [])
    × (new_key.sensitive ≡ true)
    × (new_key.extractable ≡ false)
    × ReportsProtected toy_token label_v1
provision_protected_example =
    provision_protected toy_token toy_points toy_token-IsToken (some []) label_v1 p256 [] new_key
      provisioned

abbrev public_half : Object
public_half = record {
  handle = 0;
  class = public_key;
  label = label_v1;
  ec_point = 1 ∷ 0 ∷ [];
  sensitive = [];
  extractable = [];
}

abbrev private_half : Object
private_half = record {
  handle = 1;
  class = private_key;
  label = label_v1;
  ec_point = [];
  sensitive = 1 ∷ [];
  extractable = 0 ∷ [];
}

abbrev pair_objects : List Object
pair_objects = public_half ∷ private_half ∷ []

both_destroyed : (destroy toy_token label_v1 pair_objects).1 ≡ []
unfolding destroy destroy_halves destroy_public find_key_by_label handles matches_template filter
both_destroyed = refl

destroy_exact_example :
    IsDestruction label_v1 pair_objects
      (destroy toy_token label_v1 pair_objects).1
      (destroy toy_token label_v1 pair_objects).0.0
      (destroy toy_token label_v1 pair_objects).0.1
destroy_exact_example = destroy_exact toy_token toy_token-IsToken label_v1 pair_objects

-- The same point as the new key, on an object without a label.
abbrev unlabelled : Object
unlabelled = record {
  handle = 7;
  class = public_key;
  label = "";
  ec_point = 1 ∷ 0 ∷ [];
  sensitive = [];
  extractable = [];
}

abbrev unlabelled_seen : Seen
unlabelled_seen = record { label = ""; point = 1 ∷ 0 ∷ [] }

listed_unlabelled :
    toy_token.find_objects (class_is public_key ∷ []) (unlabelled ∷ [])
    ≡ (ok (7 ∷ []), unlabelled ∷ [])
unfolding handles filter matches_template
listed_unlabelled = refl

unlabelled-Reads : Reads toy_token (7 ∷ []) (unlabelled ∷ []) (unlabelled_seen ∷ [])
unfolding read_seen
unlabelled-Reads = (label_is "" ∷ ec_point_is (1 ∷ 0 ∷ []) ∷ [], refl, refl, tt)

check_unique_passes_iff_example :
    ((check_unique toy_token toy_points "P-256" label_v1 new_key.public (unlabelled ∷ [])).0
      ≡ ok tt)
    ↔ (All (λ x. ¬ IsTwin toy_points "P-256" label_v1 new_key.public x) (unlabelled_seen ∷ [])
        ⊎ IsOverlooked toy_points "P-256" label_v1 new_key.public (unlabelled_seen ∷ []))
check_unique_passes_iff_example =
    check_unique_passes_iff toy_token toy_points "P-256" label_v1 new_key.public (7 ∷ [])
      (unlabelled ∷ []) (unlabelled ∷ []) (unlabelled_seen ∷ []) listed_unlabelled unlabelled-Reads

-- The key without a label is overlooked.
unlabelled-IsOverlooked :
    IsOverlooked toy_points "P-256" label_v1 new_key.public (unlabelled_seen ∷ [])
unfolding same_key decode_ec_point
unlabelled-IsOverlooked = inl ((refl, refl, refl), refl)

-- A token that holds one private key and lets nothing change.
abbrev sealed_token : Token
sealed_token = record {
  S = Unit {0};
  objects = λ s. private_half ∷ [];
  find_objects =
      λ template s. (ok (handles (filter (matches_template template) (private_half ∷ []))), s);
  get_attributes = λ h types s. (ok (label_is label_v1 ∷ []), s);
  generate_key_pair = λ req s. (err (module_error 1), s);
  destroy_object = λ h s. (err (module_error 1), s);
}

sealed_token-IsToken : IsToken sealed_token
sealed_token-IsToken = record {
  finds = λ template s. refl;
  find_reads = λ template s. refl;
  get_reads = λ h types s. refl;
  destroys = λ h s. refl;
}

abbrev sealed_attributes : Result PkcsError (List Attribute)
sealed_attributes = ok (label_is label_v1 ∷ [])

only_label :
    (o : Object) (attrs : List Attribute)
    → Member o (private_half ∷ [])
    → sealed_attributes ≡ ok attrs
    → Member (label_is o.label) attrs
only_label o attrs m e = ground arith

sealed_token-ReadsLabels : ReadsLabels sealed_token
sealed_token-ReadsLabels = record { labels_read = λ s o attrs m e. only_label o attrs m e }

separated : (check_no_ca_hierarchy_key sealed_token tt).0 ≡ ok tt
unfolding check_no_ca_hierarchy_key check_handles check_labels is_ca_key_label handles
    matches_template filter ◌>>=◌
separated = refl

no_ca_hierarchy_key_example : ¬ Lang ca_key_label_pattern (codes label_v1)
no_ca_hierarchy_key_example =
    no_ca_hierarchy_key sealed_token sealed_token-IsToken sealed_token-ReadsLabels tt private_half
      separated (inl refl) refl
