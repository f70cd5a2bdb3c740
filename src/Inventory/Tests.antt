-- ===== src/Inventory/Tests.antt =====
-- A small inventory with two keys, and the theorems on inventories at it (internal/inventory).
use multivendor_hsm_pki.Prelude.{
  ◌≤◌, ◌≡◌, refl, ◌↔◌, ◌⊎◌, ◌==◌, String, Option, none, some, List, [], ◌∷◌, ◌++◌, pos, string_eq,
  nat_eq, ok, arith, Member, filter, lookup, contains, insert, if◌then◌else◌,
}
use multivendor_hsm_pki.Inventory.{
  schema, purpose_image, status_active, status_verify_only, status_retired, Entry, Inventory,
  ParsedKey, ecdsa, Keys, validate, check_entries, check_entry, check_names, check_dates, check_key,
  public_key, key_id_eq,
}
use multivendor_hsm_pki.Inventory.Selection.{
  verifiable_at, active_at, verifiable, active, started, check_fresh,
}
use multivendor_hsm_pki.Inventory.Document.{Bytes, Json, marshal, parse, document_exact}
use multivendor_hsm_pki.Inventory.Validity.{IsValid, validate_iff}
use multivendor_hsm_pki.Inventory.Windows.{verifiable_at_exact}

-- Keys in a toy encoding: the text of the PEM is the text of the bytes.
abbrev toy_point : String → Option ParsedKey
toy_point text =
    if text == "a"
    then some (ecdsa (record { curve = "P-256"; x = 1; y = 2 }))
    else if text == "b"
    then some (ecdsa (record { curve = "P-256"; x = 3; y = 4 }))
    else none

abbrev toy_keys : Keys
toy_keys = record {
  pem_decode = λ text. some (record { block_type = "PUBLIC KEY"; bytes = text; rest = "" });
  parse_pkix = toy_point;
}

abbrev signing : Entry
signing = record {
  label = "image-signing-key-v2";
  purpose = purpose_image;
  curve = "P-256";
  public_key_pem = "a";
  valid_from = 10;
  retired_at = none;
  status = status_active;
}

abbrev old_key : Entry
old_key = record {
  label = "image-signing-key-v1";
  purpose = purpose_image;
  curve = "P-256";
  public_key_pem = "b";
  valid_from = 5;
  retired_at = some 20;
  status = status_retired;
}

abbrev published : Inventory
published = record {
  schema_name = schema;
  version = pos 1;
  generated_at = 30;
  valid_until = 100;
  keys = signing ∷ old_key ∷ [];
}

accepted : validate toy_keys published ≡ ok tt
unfolding validate check_entries check_entry check_names check_dates check_key public_key lookup
    contains insert
accepted = refl

abbrev toy_json : Json
toy_json = record { encode = λ inv. some (b'{' ∷ b'}' ∷ []); decode = λ text. some published }

published-IsValid : IsValid toy_keys published
published-IsValid = (validate_iff toy_keys published).0 accepted

validate_iff_example : (validate toy_keys published ≡ ok tt) ↔ IsValid toy_keys published
validate_iff_example = validate_iff toy_keys published

parsed : parse toy_keys toy_json (b'{' ∷ b'}' ∷ b'\n' ∷ []) ≡ ok published
unfolding parse
parsed = ground (arith, accepted)

document_exact_example :
    ((marshal toy_keys toy_json published ≡ ok (b'{' ∷ b'}' ∷ b'\n' ∷ [])) ↔ (
      IsValid toy_keys published
      × ((out : Bytes) × (toy_json.encode published ≡ some out)
          × (b'{' ∷ b'}' ∷ b'\n' ∷ [] ≡ out ++ b'\n' ∷ []))))
    × ((parse toy_keys toy_json (b'{' ∷ b'}' ∷ b'\n' ∷ []) ≡ ok published) ↔ (
        IsValid toy_keys published × (toy_json.decode (b'{' ∷ b'}' ∷ b'\n' ∷ []) ≡ some published)))
document_exact_example = document_exact toy_keys toy_json published (b'{' ∷ b'}' ∷ b'\n' ∷ [])

verifiable_at_exact_example :
    (out : List Entry) × (verifiable_at published purpose_image 50 ≡ ok out)
    × ((e : Entry)
        → Member e out ↔ (
            Member e published.keys
            × (e.purpose ≡ purpose_image)
            × ((e.status ≡ status_active) ⊎ (e.status ≡ status_verify_only))
            × (e.valid_from ≤ 50)))
verifiable_at_exact_example = verifiable_at_exact published purpose_image 50 (omega arith)

verifying_now : verifiable_at published purpose_image 50 ≡ ok (signing ∷ [])
unfolding verifiable_at verifiable started check_fresh filter
verifying_now = refl

signing_now : active_at published purpose_image 50 ≡ ok (signing ∷ [])
unfolding active_at active started check_fresh filter
signing_now = refl
