-- ===== src/Inventory/Fields.antt =====
-- What one entry must be, and that the tests of a round of Validate's loop find exactly that.
use multivendor_hsm_pki.Prelude.{
  ◌≤◌, ◌<◌, ◌≡◌, ◌≢◌, false, String, Option, none, some, List, arith, ◌⊎◌, inl, inr, string_eq, ok,
  >>=-eq-ok, Option-cases, Assoc, contains, lookup,
}
use multivendor_hsm_pki.Clock.{Time}
use multivendor_hsm_pki.Inventory.{
  purpose_image, purpose_artifact, status_active, status_verify_only, status_retired, Entry,
  EcdsaKey, Keys, KeyId, key_id_eq, public_key, check_names, check_dates, check_key,
}

-- The timestamp of retirement agrees with the status.
abbrev pub DatesAgree : Entry → Option Time → Type 0
DatesAgree e none = e.status ≢ status_retired
DatesAgree e (some at) = (e.status ≡ status_retired) × (e.valid_from ≤ at)

abbrev pub point : EcdsaKey → KeyId
point k = record { x = k.x; y = k.y }

module _ (keys : Keys) where
  pub record IsValidEntry (e : Entry) : Type 0 where
    pub labelled : e.label ≢ ""
    pub purpose_known : (e.purpose ≡ purpose_image) ⊎ (e.purpose ≡ purpose_artifact)
    pub status_known :
        (e.status ≡ status_active) ⊎ ((e.status ≡ status_verify_only) ⊎ (e.status ≡ status_retired))
    pub has_curve : e.curve ≢ ""
    pub dated : 0 < e.valid_from
    pub dates_agree : DatesAgree e e.retired_at
    pub decodes : (k : EcdsaKey) × (public_key keys e ≡ ok k)

abbrev pub NamesFine : List String → Entry → Type 0
NamesFine ls e =
    (contains ls e.label ≡ false)
    × (e.label ≢ "")
    × ((e.purpose ≡ purpose_image) ⊎ (e.purpose ≡ purpose_artifact))
    × ((e.status ≡ status_active) ⊎ ((e.status ≡ status_verify_only) ⊎ (e.status ≡ status_retired)))
    × (e.curve ≢ "")

module _ (ls : List String) (e : Entry) where
  pub check_names_sound : check_names ls e ≡ ok tt → NamesFine ls e
  unfolding check_names
  check_names_sound h = ground (
    arith,
    string_eq.beq_iff e.label "",
    string_eq.beq_iff e.purpose purpose_image,
    string_eq.beq_iff e.purpose purpose_artifact,
    string_eq.beq_iff e.status status_active,
    string_eq.beq_iff e.status status_verify_only,
    string_eq.beq_iff e.status status_retired,
    string_eq.beq_iff e.curve "",
  )

  pub check_names_complete : NamesFine ls e → check_names ls e ≡ ok tt
  unfolding check_names
  check_names_complete h = ground (
    arith,
    string_eq.beq_iff e.label "",
    string_eq.beq_iff e.purpose purpose_image,
    string_eq.beq_iff e.purpose purpose_artifact,
    string_eq.beq_iff e.status status_active,
    string_eq.beq_iff e.status status_verify_only,
    string_eq.beq_iff e.status status_retired,
    string_eq.beq_iff e.curve "",
  )

  pub check_dates_sound : check_dates e ≡ ok tt → (0 < e.valid_from) × DatesAgree e e.retired_at
  unfolding check_dates
  check_dates_sound h = elim (Option-cases e.retired_at) [
    | inl no_date ↦ rw no_date (ground (arith, no_date, string_eq.beq_iff e.status status_retired))
    | inr (at, date) ↦ rw date (ground (arith, date, string_eq.beq_iff e.status status_retired))
  ]

  pub check_dates_complete : 0 < e.valid_from → DatesAgree e e.retired_at → check_dates e ≡ ok tt
  unfolding check_dates
  check_dates_complete h d = ground (arith, string_eq.beq_iff e.status status_retired)

module _ (keys : Keys) (ks : Assoc KeyId String) (e : Entry) where
  abbrev pub KeyFresh : KeyId → Type 0
  KeyFresh id =
      (lookup id ks ≡ none) × ((k : EcdsaKey) × (public_key keys e ≡ ok k) × (point k ≡ id))

  pub check_key_sound : (id : KeyId) → check_key keys ks e ≡ ok id → KeyFresh id
  unfolding check_key
  check_key_sound id h =
      let (k, decoded, rest) = >>=-eq-ok (public_key keys e) _ h in
      (ground arith, (k, decoded, ground arith))

  pub check_key_complete : (id : KeyId) → KeyFresh id → check_key keys ks e ≡ ok id
  unfolding check_key
  check_key_complete id (fresh, (k, decoded, same)) = ground (arith, fresh, decoded)
