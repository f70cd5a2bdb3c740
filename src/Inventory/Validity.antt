-- ===== src/Inventory/Validity.antt =====
-- Validate accepts exactly the valid inventories, by a description that does not mention its loop.
use multivendor_hsm_pki.Prelude.{
  ℕ, ◌<◌, ◌≡◌, ◌≢◌, refl, false, String, none, List, [], ◌∷◌, arith, ◌↔◌, ℤ, pos, negsuc, string_eq,
  ok, >>=-eq-ok, All, Pairwise, Assoc, contains, lookup, insert, lookup-insert-none,
  contains-cons_false,
}
use multivendor_hsm_pki.Inventory.{
  schema, Entry, Inventory, EcdsaKey, Keys, below_one, KeyId, key_id_eq, public_key, check_names,
  check_dates, check_entry, check_entries, validate,
}
use multivendor_hsm_pki.Inventory.Fields.{
  IsValidEntry, point, KeyFresh, check_names_sound, check_names_complete, check_dates_sound,
  check_dates_complete, check_key_sound, check_key_complete,
}

module _ (keys : Keys) where
  -- Two entries are told apart by their labels and by the points of their keys.
  abbrev pub Differ : Entry → Entry → Type 0
  Differ e f =
      (e.label ≢ f.label)
      × ((j k : EcdsaKey) → public_key keys e ≡ ok j → public_key keys f ≡ ok k → point j ≢ point k)

  pub record IsValid (inv : Inventory) : Type 0 where
    pub schema_known : inv.schema_name ≡ schema
    pub version_positive : (n : ℕ) × (inv.version ≡ pos n) × (0 < n)
    pub generated : 0 < inv.generated_at
    pub window : inv.generated_at < inv.valid_until
    pub some_key : inv.keys ≢ []
    pub entries : All (IsValidEntry keys) inv.keys
    pub distinct : Pairwise Differ inv.keys

  abbrev EntryFine : List String → Assoc KeyId String → Entry → KeyId → Type 0
  EntryFine ls ks e id = (contains ls e.label ≡ false) × KeyFresh keys ks e id × IsValidEntry keys e

  check_entry_sound :
      (ls : List String) (ks : Assoc KeyId String) (e : Entry) (id : KeyId)
      → check_entry keys ls ks e ≡ ok id
      → EntryFine ls ks e id
  unfolding check_entry
  check_entry_sound ls ks e id h =
      let (_, names, h') = >>=-eq-ok (check_names ls e) _ h in
      let (_, dates, h'') = >>=-eq-ok (check_dates e) _ h' in
      let (new, labelled, purpose, status, curve) = check_names_sound ls e names in
      let (dated, agree) = check_dates_sound ls e dates in
      let (fresh, (k, decoded, same)) = check_key_sound keys ks e id h'' in
      (
        new,
        (fresh, (k, decoded, same)),
        record {
          labelled = labelled;
          purpose_known = purpose;
          status_known = status;
          has_curve = curve;
          dated = dated;
          dates_agree = agree;
          decodes = (k, decoded);
        },
      )

  check_entry_complete :
      (ls : List String) (ks : Assoc KeyId String) (e : Entry) (id : KeyId)
      → EntryFine ls ks e id
      → check_entry keys ls ks e ≡ ok id
  unfolding check_entry
  check_entry_complete ls ks e id (new, key, v) = rw (
    check_names_complete ls e (new, v.labelled, v.purpose_known, v.status_known, v.has_curve),
    check_dates_complete ls e v.dated v.dates_agree,
    check_key_complete keys ks e id key,
  )

  -- No entry of `es` has a label or a point that was met before.
  abbrev FreshFrom : List String → Assoc KeyId String → Entry → Type 0
  FreshFrom ls ks e =
      (contains ls e.label ≡ false)
      × ((k : EcdsaKey) → public_key keys e ≡ ok k → lookup (point k) ks ≡ none)

  fresh_tail :
      (ls : List String) (ks : Assoc KeyId String) (e : Entry) (k : EcdsaKey) (es : List Entry)
      → public_key keys e ≡ ok k
      → All (FreshFrom (e.label ∷ ls) (insert (point k) e.label ks)) es
      → All (FreshFrom ls ks) es × All (Differ e) es
  fresh_tail ls ks e k [] d h = (tt, tt)
  fresh_tail ls ks e k (f ∷ es) d ((label, key), h) =
      let (ne, new) = (contains-cons_false e.label f.label ls).0 label in
      let (fs, ds) = fresh_tail ls ks e k es d h in
      let keys_apart = λ (j : EcdsaKey) (p : public_key keys f ≡ ok j).
        (lookup-insert-none (point k) (point j) e.label ks).0 (key j p) in
      (
        ((new, (λ j p. (keys_apart j p).1)), fs),
        ((ne, (λ j j' p p' same. (keys_apart j' p').0 (cc))), ds),
      )

  tail_fresh :
      (ls : List String) (ks : Assoc KeyId String) (e : Entry) (k : EcdsaKey) (es : List Entry)
      → public_key keys e ≡ ok k
      → All (FreshFrom ls ks) es
      → All (Differ e) es
      → All (FreshFrom (e.label ∷ ls) (insert (point k) e.label ks)) es
  tail_fresh ls ks e k [] d h g = tt
  tail_fresh ls ks e k (f ∷ es) d ((new, key), h) ((ne, apart), g) = (
    (
      (contains-cons_false e.label f.label ls).1 (ne, new),
      (λ j p. (lookup-insert-none (point k) (point j) e.label ks).1 (apart k j d p, key j p)),
    ),
    tail_fresh ls ks e k es d h g,
  )

  same_key_at :
      (e : Entry) (j k : EcdsaKey) → public_key keys e ≡ ok j → public_key keys e ≡ ok k → k ≡ j
  same_key_at e j k p q = cc

  check_entries_sound :
      (ls : List String) (ks : Assoc KeyId String) (es : List Entry)
      → check_entries keys ls ks es ≡ ok tt
      → All (IsValidEntry keys) es × All (FreshFrom ls ks) es × Pairwise Differ es
  unfolding check_entries
  check_entries_sound ls ks [] h = (tt, tt, tt)
  check_entries_sound ls ks (e ∷ es) h =
      let (id, one, rest) = >>=-eq-ok (check_entry keys ls ks e) _ h in
      let (new, (fresh, (k, decoded, same)), v) = check_entry_sound ls ks e id one in
      let (vs, frs, ds) = check_entries_sound (e.label ∷ ls) (insert id e.label ks) es rest in
      let (fs, apart) = fresh_tail ls ks e k es decoded (rw same frs) in
      (
        (v, vs),
        ((new, (λ j p. rw (← same_key_at e j k p decoded) (rw same fresh))), fs),
        (apart, ds),
      )

  check_entries_complete :
      (ls : List String) (ks : Assoc KeyId String) (es : List Entry)
      → All (IsValidEntry keys) es
      → All (FreshFrom ls ks) es
      → Pairwise Differ es
      → check_entries keys ls ks es ≡ ok tt
  unfolding check_entries
  check_entries_complete ls ks [] v f d = refl
  check_entries_complete ls ks (e ∷ es) (v, vs) ((new, fresh), fs) (d, ds) =
      let (k, decoded) = v.decodes in
      rw (check_entry_complete ls ks e (point k) (new, (fresh k decoded, (k, decoded, refl)), v)) (
        check_entries_complete (e.label ∷ ls) (insert (point k) e.label ks) es vs
          (tail_fresh ls ks e k es decoded fs d) ds)

  abbrev HeaderFine : Inventory → Type 0
  HeaderFine inv =
      (inv.schema_name ≡ schema)
      × ((n : ℕ) × (inv.version ≡ pos n) × (0 < n))
      × (0 < inv.generated_at)
      × (inv.generated_at < inv.valid_until)
      × (inv.keys ≢ [])
      × (check_entries keys [] [] inv.keys ≡ ok tt)

  version_sound : (v : ℤ) → below_one v ≡ false → (n : ℕ) × (v ≡ pos n) × (0 < n)
  version_sound (pos n) h = (n, refl, ground arith)
  version_sound (negsuc n) h = absurd (ground arith)

  header_sound : (inv : Inventory) → validate keys inv ≡ ok tt → HeaderFine inv
  unfolding validate
  header_sound inv h = (
    ground (arith, string_eq.beq_iff inv.schema_name schema),
    version_sound inv.version (ground arith),
    ground arith,
    ground arith,
    ground arith,
    ground arith,
  )

  header_complete : (inv : Inventory) → HeaderFine inv → validate keys inv ≡ ok tt
  unfolding validate
  header_complete inv (s, (n, v, p), g, w, k, c) =
      ground (arith, string_eq.beq_iff inv.schema_name schema, v)

  all_fresh : (es : List Entry) → All (FreshFrom [] []) es
  unfolding contains lookup
  all_fresh [] = tt
  all_fresh (e ∷ es) = ((refl, (λ j p. refl)), all_fresh es)

  validate_sound : (inv : Inventory) → validate keys inv ≡ ok tt → IsValid inv
  validate_sound inv h =
      let (s, v, g, w, k, c) = header_sound inv h in
      let (valid, _, apart) = check_entries_sound [] [] inv.keys c in
      record {
        schema_known = s;
        version_positive = v;
        generated = g;
        window = w;
        some_key = k;
        entries = valid;
        distinct = apart;
      }

  validate_complete : (inv : Inventory) → IsValid inv → validate keys inv ≡ ok tt
  validate_complete inv v = header_complete inv (
    v.schema_known,
    v.version_positive,
    v.generated,
    v.window,
    v.some_key,
    check_entries_complete [] [] inv.keys v.entries (all_fresh inv.keys) v.distinct,
  )

  -- Validate returns no error exactly for an inventory with the known schema, a positive version, a
  -- generation time that is set and before the expiry, at least one key, and entries that each have
  -- a label, a curve, a known purpose and status, a start, a retirement date exactly if retired
  -- and not before the start, and one decodable ECDSA public key, while no two entries share a
  -- label or a public point.
  pub validate_iff : (inv : Inventory) → (validate keys inv ≡ ok tt) ↔ IsValid inv
  validate_iff inv = (validate_sound inv, validate_complete inv)
