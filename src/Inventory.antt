-- ===== src/Inventory.antt =====
-- internal/inventory/inventory.go: the published list of signing keys, its validation, and which
-- keys of it a signer or a verifier may use. The text of an error message is left out; an error
-- carries the values that its message names. PEM and PKIX decoding are the parameter `Keys`.
pub mod Selection
pub mod Document
pub mod Fields
pub mod Validity
pub mod Windows
pub mod Tests
use multivendor_hsm_pki.Prelude.{
  ℕ, ◌≡◌, refl, Bool, true, false, ◌&&◌, ◌||◌, not, String, Option, none, some, List, [], ◌∷◌,
  arith, ◌==◌, ◌↔◌, ℤ, pos, negsuc, Eq, nat_eq, string_eq, Result, ok, err, ◌>>=◌, ◌>>◌, refuse_if,
  Assoc, contains, lookup, insert, ltb, if◌then◌else◌,
}
use multivendor_hsm_pki.Clock.{Time, is_zero, after, before}

abbrev pub schema : String
schema = "hsm-pki-platform/key-inventory/v1"

abbrev pub purpose_image : String
purpose_image = "image"

abbrev pub purpose_artifact : String
purpose_artifact = "artifact"

abbrev pub status_active : String
status_active = "active"

abbrev pub status_verify_only : String
status_verify_only = "verify-only"

abbrev pub status_retired : String
status_retired = "retired"

pub record Entry : Type 0 where
  pub label : String
  pub purpose : String
  pub curve : String
  pub public_key_pem : String
  pub valid_from : Time
  pub retired_at : Option Time
  pub status : String

pub record Inventory : Type 0 where
  pub schema_name : String
  pub version : ℤ
  pub generated_at : Time
  pub valid_until : Time
  pub keys : List Entry

-- An ECDSA public key: the name of its curve and the point.
pub record EcdsaKey : Type 0 where
  pub curve : String
  pub x : ℕ
  pub y : ℕ

pub data ParsedKey : Type 0 where
  ecdsa : EcdsaKey → ParsedKey
  other_key : String → ParsedKey

pub record PemBlock : Type 0 where
  pub block_type : String
  pub bytes : String
  -- what stands behind the block
  pub rest : String

-- encoding/pem.Decode and crypto/x509.ParsePKIXPublicKey
pub record Keys : Type 0 where
  pub pem_decode : String → Option PemBlock
  pub parse_pkix : String → Option ParsedKey

-- ErrInvalid by its reasons, and ErrExpired
pub data InventoryError : Type 0 where
  bad_schema : String → InventoryError
  bad_version : ℤ → InventoryError
  no_generated_at no_keys no_label : InventoryError
  bad_window : Time → Time → InventoryError
  duplicate_label no_curve no_valid_from retired_without_date retired_before_valid :
      String → InventoryError
  unknown_purpose unknown_status dated_but_not_retired : String → String → InventoryError
  not_one_block bad_pkix : String → InventoryError
  not_ecdsa same_key : String → String → InventoryError
  undecodable unencodable : InventoryError
  expired : Time → Time → InventoryError

pub record KeyId : Type 0 where
  pub x : ℕ
  pub y : ℕ

abbrev pub beq_key_id : KeyId → KeyId → Bool
beq_key_id a b = a.x == b.x && a.y == b.y

pub beq_key_id_iff : (a b : KeyId) → (beq_key_id a b ≡ true) ↔ (a ≡ b)
beq_key_id_iff a b = ground arith

instance abbrev pub key_id_eq : Eq KeyId
key_id_eq = record { beq = beq_key_id; beq_iff = beq_key_id_iff }

abbrev pub is_some : {A : Type 0} → Option A → Bool
is_some none = false
is_some (some _) = true

-- e.RetiredAt != nil && e.RetiredAt.Before(e.ValidFrom)
abbrev pub retired_before : Option Time → Time → Bool
retired_before none from = false
retired_before (some at) from = before at from

-- inv.Version < 1
abbrev pub below_one : ℤ → Bool
below_one (pos n) = ltb n 1
below_one (negsuc n) = true

-- The tests of one round of Validate's loop that read the names of the entry.
unfoldable pub check_names : List String → Entry → Result InventoryError (Unit {0})
check_names seen_label e = do
  refuse_if (e.label == "") no_label
  refuse_if (contains seen_label e.label) (duplicate_label e.label)
  refuse_if (not (e.purpose == purpose_image || e.purpose == purpose_artifact))
      (unknown_purpose e.label e.purpose)
  refuse_if
      (not (
        e.status == status_active
        || (e.status == status_verify_only || e.status == status_retired)))
      (unknown_status e.label e.status)
  refuse_if (e.curve == "") (no_curve e.label)

-- The tests that follow, on its dates.
unfoldable pub check_dates : Entry → Result InventoryError (Unit {0})
check_dates e = do
  refuse_if (is_zero e.valid_from) (no_valid_from e.label)
  refuse_if (e.status == status_retired && not (is_some e.retired_at))
      (retired_without_date e.label)
  refuse_if (not (e.status == status_retired) && is_some e.retired_at)
      (dated_but_not_retired e.label e.status)
  refuse_if (retired_before e.retired_at e.valid_from) (retired_before_valid e.label)

module _ (keys : Keys) where
  -- Entry.PublicKey
  unfoldable pub public_key : Entry → Result InventoryError EcdsaKey
  public_key e = elim (keys.pem_decode e.public_key_pem) [
    | none ↦ err (not_one_block e.label)
    | some block ↦
        if not (block.block_type == "PUBLIC KEY") || not (block.rest == "")
        then err (not_one_block e.label)
        else elim (keys.parse_pkix block.bytes) [
          | none ↦ err (bad_pkix e.label)
          | some (ecdsa pub_key) ↦ ok pub_key
          | some (other_key kind) ↦ err (not_ecdsa e.label kind)
        ]
  ]

  -- The last tests: the key decodes, and no earlier entry carries the same point.
  unfoldable pub check_key : Assoc KeyId String → Entry → Result InventoryError KeyId
  check_key seen_key e = do
    key ← public_key e
    let id : KeyId = record { x = key.x; y = key.y }
    elim (lookup id seen_key) [ none ↦ ok id | some other ↦ err (same_key other e.label) ]

  -- One round of Validate's loop, up to `seenKey[id] = e.Label`: the key's identity.
  unfoldable pub check_entry :
      List String → Assoc KeyId String → Entry → Result InventoryError KeyId
  check_entry seen_label seen_key e = do
    check_names seen_label e
    check_dates e
    check_key seen_key e

  unfoldable pub check_entries :
      List String → Assoc KeyId String → List Entry → Result InventoryError (Unit {0})
  check_entries seen_label seen_key [] = ok tt
  check_entries seen_label seen_key (e ∷ es) = do
    id ← check_entry seen_label seen_key e
    check_entries (e.label ∷ seen_label) (insert id e.label seen_key) es

  -- Inventory.Validate
  unfoldable pub validate : Inventory → Result InventoryError (Unit {0})
  validate inv = do
    refuse_if (not (inv.schema_name == schema)) (bad_schema inv.schema_name)
    refuse_if (below_one inv.version) (bad_version inv.version)
    refuse_if (is_zero inv.generated_at) no_generated_at
    refuse_if (not (after inv.valid_until inv.generated_at))
        (bad_window inv.valid_until inv.generated_at)
    elim inv.keys [ [] ↦ err no_keys | _ ∷ _ ↦ check_entries [] [] inv.keys ]
