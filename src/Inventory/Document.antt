-- ===== src/Inventory/Document.antt =====
-- Marshal, Parse, Digest, Verify and SignWith of internal/inventory/inventory.go. Documents are
-- lists of bytes. encoding/json is the parameter `Json` and crypto/ecdsa with crypto/sha256 the
-- parameter `Signatures`.
use multivendor_hsm_pki.Prelude.{
  ℕ, ◌≡◌, ◌↔◌, ◌∙◌, ap, sym, Bool, not, Option, none, some, List, [], ◌∷◌, ◌++◌, arith, Result, ok,
  err, ◌>>=◌, ◌>>◌, >>=-eq-ok, refuse_if, Option-cases, inl, inr,
}
use multivendor_hsm_pki.Inventory.{
  Inventory, InventoryError, undecodable, unencodable, Keys, EcdsaKey, validate,
}
use multivendor_hsm_pki.Inventory.Validity.{IsValid, validate_iff}

abbrev pub Bytes : Type 0
Bytes = List ℕ

-- json.MarshalIndent, and a Decoder's first Decode with DisallowUnknownFields
pub record Json : Type 0 where
  pub encode : Inventory → Option Bytes
  pub decode : Bytes → Option Inventory

module _ (keys : Keys) (json : Json) where
  unfoldable pub marshal : Inventory → Result InventoryError Bytes
  marshal inv = do
    validate keys inv
    elim (json.encode inv) [ none ↦ err unencodable | some out ↦ ok (out ++ b'\n' ∷ []) ]

  unfoldable pub parse : Bytes → Result InventoryError Inventory
  parse text = elim (json.decode text) [
    | none ↦ err undecodable
    | some inv ↦ (do validate keys inv; ok inv)
  ]

  marshal_sound :
      (inv : Inventory) (text : Bytes)
      → marshal inv ≡ ok text
      → IsValid keys inv
        × ((out : Bytes) × (json.encode inv ≡ some out) × (text ≡ out ++ b'\n' ∷ []))
  unfolding marshal
  marshal_sound inv text h =
      let (_, valid, written) = >>=-eq-ok (validate keys inv) _ h in
      elim (Option-cases (json.encode inv)) [
        | inl none_written ↦ absurd (ground (arith, none_written, written))
        | inr (out, e) ↦ ((validate_iff keys inv).0 valid, (out, e, ground (arith, e, written)))
      ]

  marshal_complete :
      (inv : Inventory) (out : Bytes)
      → IsValid keys inv
      → json.encode inv ≡ some out
      → marshal inv ≡ ok (out ++ b'\n' ∷ [])
  unfolding marshal
  marshal_complete inv out v e = let fine = (validate_iff keys inv).1 v in ground (arith, fine, e)

  pub parse_sound :
      (text : Bytes) (inv : Inventory)
      → parse text ≡ ok inv
      → IsValid keys inv × (json.decode text ≡ some inv)
  unfolding parse
  parse_sound text inv h = elim (Option-cases (json.decode text)) [
    | inl none_read ↦ absurd (ground (arith, none_read))
    | inr (read, e) ↦
        (let h' : (validate keys read >>= λ _. ok read) ≡ ok inv = ground (arith, e) in
          let (_, valid, same) = >>=-eq-ok (validate keys read) _ h' in
          ((validate_iff keys inv).0 (ground (arith, valid, same)), ground (arith, e, same)))
  ]

  parse_complete :
      (text : Bytes) (inv : Inventory)
      → IsValid keys inv
      → json.decode text ≡ some inv
      → parse text ≡ ok inv
  unfolding parse
  parse_complete text inv v e = let fine = (validate_iff keys inv).1 v in ground (arith, fine, e)

  -- Marshal writes an inventory, as its encoding and a newline, exactly if the inventory is valid and can be
  -- encoded; Parse returns an inventory exactly if the decoder reads it from the text and it is valid.
  pub document_exact :
      (inv : Inventory) (text : Bytes)
      → ((marshal inv ≡ ok text) ↔ (
          IsValid keys inv
          × ((out : Bytes) × (json.encode inv ≡ some out) × (text ≡ out ++ b'\n' ∷ []))))
        × ((parse text ≡ ok inv) ↔ (IsValid keys inv × (json.decode text ≡ some inv)))
  document_exact inv text = (
    (
      marshal_sound inv text,
      (λ (v, (out, e, same)). marshal_complete inv out v e ∙ ap (λ b. ok b) (sym same)),
    ),
    (parse_sound text inv, (λ (v, e). parse_complete text inv v e)),
  )

pub record Signatures (PrivateKey : Type 0) : Type 0 where
  pub sum256 : Bytes → Bytes
  pub verify_asn1 : EcdsaKey → Bytes → Bytes → Bool
  pub sign_asn1 : PrivateKey → Bytes → Bytes
  pub public_of : PrivateKey → EcdsaKey

pub data VerifyError : Type 0 where
  no_public_key does_not_verify : VerifyError

module _ {PrivateKey : Type 0} (crypto : Signatures PrivateKey) where
  unfoldable pub digest : Bytes → Bytes
  digest document = crypto.sum256 document

  unfoldable pub verify : Bytes → Bytes → Option EcdsaKey → Result VerifyError (Unit {0})
  unfolding digest
  verify document signature none = err no_public_key
  verify document signature (some key) =
      refuse_if (not (crypto.verify_asn1 key (digest document) signature)) does_not_verify

  -- For tests in the source: an in-process key.
  unfoldable pub sign_with : Bytes → PrivateKey → Bytes
  unfolding digest
  sign_with document priv = crypto.sign_asn1 priv (digest document)
