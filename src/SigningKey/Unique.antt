-- ===== src/SigningKey/Unique.antt =====
-- When the check of Provision for a key that the token already has lets the new key pass
-- (findDuplicatePoint and its caller in internal/signingkey/signingkey.go).
use multivendor_hsm_pki.Prelude.{
  ℕ, ◌≡◌, ◌↔◌, ◌⊎◌, ◌∙◌, inl, inr, refl, sym, true, false, String, some, List, [], ◌∷◌, ◌==◌,
  string_eq, if◌then◌else◌, Result, ok, All, Bool-cases, arith,
}
use multivendor_hsm_pki.Action.{◌>>=◌}
use multivendor_hsm_pki.Inventory.{EcdsaKey}
use multivendor_hsm_pki.Pkcs11.{
  public_key, Attribute, class_is, attr_label, attr_ec_point, AttributeType, Token,
}
use multivendor_hsm_pki.SigningKey.{Points, KeyError, decode_ec_point, same_key}
use multivendor_hsm_pki.SigningKey.Duplicates.{
  Seen, read_seen, nothing_seen, is_nil, is_duplicate, search_duplicate, find_duplicate_point,
}
use multivendor_hsm_pki.SigningKey.Provision.{refuse_duplicate}

module _ (points : Points) (curve own_label : String) (key : EcdsaKey) where
  -- A key under another label, with a point that decodes to the same key.
  abbrev pub IsTwin : Seen → Type 0
  IsTwin x =
      ((x.label == own_label) ≡ false)
      × (is_nil x.point ≡ false)
      × (same_key (some key) (decode_ec_point points curve x.point) ≡ true)

  -- The first twin has no label.
  abbrev pub IsOverlooked : List Seen → Type 0
  IsOverlooked [] = ⊥
  IsOverlooked (x ∷ xs) = (IsTwin x × (x.label ≡ "")) ⊎ (¬ IsTwin x × IsOverlooked xs)

  twin : (x : Seen) → is_duplicate points curve own_label key x ≡ true → IsTwin x
  unfolding is_duplicate
  twin x h = ground arith

  no-IsTwin : (x : Seen) → is_duplicate points curve own_label key x ≡ false → ¬ IsTwin x
  unfolding is_duplicate
  no-IsTwin x h = λ (apart, there, same). ground (arith, apart, there, same)

  -- The label of the first twin, or none.
  abbrev first_label : List Seen → String
  first_label [] = ""
  first_label (x ∷ xs) =
      let rest = first_label xs in
      if is_duplicate points curve own_label key x then x.label else rest

  passes : (xs : List Seen) → first_label xs ≡ "" → All (λ x. ¬ IsTwin x) xs ⊎ IsOverlooked xs
  passes [] h = inl tt
  passes (x ∷ xs) h = elim (Bool-cases (is_duplicate points curve own_label key x)) [
    | inl is ↦ inr (inl (twin x is, rw is at h))
    | inr other ↦ elim (passes xs (rw other at h)) [
      | inl none_there ↦ inl (no-IsTwin x other, none_there)
      | inr there ↦ inr (inr (no-IsTwin x other, there))
    ]
  ]

  passes_back : (xs : List Seen) → All (λ x. ¬ IsTwin x) xs ⊎ IsOverlooked xs → first_label xs ≡ ""
  passes_back [] h = refl
  passes_back (x ∷ xs) h = elim (Bool-cases (is_duplicate points curve own_label key x)) [
    | inl is ↦ elim h [
      | inl (none_here, _) ↦ absurd (none_here (twin x is))
      | inr (inl (_, unlabelled)) ↦ rw is unlabelled
      | inr (inr (none_here, _)) ↦ absurd (none_here (twin x is))
    ]
    | inr other ↦ elim h [
      | inl (_, none_there) ↦ rw other (passes_back xs (inl none_there))
      | inr (inl (is, _)) ↦ absurd (no-IsTwin x other is)
      | inr (inr (_, there)) ↦ rw other (passes_back xs (inr there))
    ]
  ]

module _ (t : Token) where
  abbrev label_and_point : List AttributeType
  label_and_point = attr_label ∷ attr_ec_point ∷ []

  -- What the token reports of these handles, one after the other.
  abbrev pub Reads : List ℕ → t.S → List Seen → Type 0
  Reads [] s [] = Unit
  Reads (h ∷ hs) s (x ∷ xs) =
      (attrs : List Attribute) × ((t.get_attributes h label_and_point s).0 ≡ ok attrs)
      × (x ≡ read_seen attrs nothing_seen)
      × Reads hs (t.get_attributes h label_and_point s).1 xs
  Reads _ s _ = ⊥

  module _ (points : Points) (curve own_label : String) (key : EcdsaKey) where
    searched :
        (hs : List ℕ) (s : t.S) (xs : List Seen)
        → Reads hs s xs
        → (search_duplicate t points curve own_label key hs s).0
          ≡ ok (first_label points curve own_label key xs)
    unfolding search_duplicate ◌>>=◌
    searched [] s [] h = refl
    searched [] s (x ∷ xs) h = absurd h
    searched (h ∷ hs) s [] r = absurd r
    searched (h ∷ hs) s (x ∷ xs) (attrs, read, is, rest) =
        elim (Bool-cases (is_duplicate points curve own_label key x)) [
          | inl same ↦ (let same' = rw is at same in rw (is, read, same') refl)
          | inr other ↦
              (let other' = rw is at other in
                rw (is, read, other')
                  (searched hs (t.get_attributes h label_and_point s).1 xs rest))
        ]

    -- The check of Provision: the search, then the new key is refused or kept.
    abbrev pub check_unique : t.S → Result KeyError (Unit {0}) × t.S
    check_unique =
        find_duplicate_point t points own_label key curve >>= refuse_duplicate t own_label

    refuse_if_named :
        (other : String) (s : t.S)
        → ((refuse_duplicate t own_label other s).0 ≡ ok tt) ↔ (other ≡ "")
    unfolding refuse_duplicate
    refuse_if_named other s = elim (Bool-cases (other == "")) [
      | inl none_found ↦
          ((λ h. (string_eq.beq_iff other "").0 none_found), (λ e. rw none_found refl))
      | inr found ↦ (
        (λ h. (let h' = rw found at h in absurd cc)),
        (λ e. absurd (ground (arith, found, (string_eq.beq_iff other "").1 e))),
      )
    ]

    checked :
        (hs : List ℕ) (s s' : t.S) (xs : List Seen)
        → t.find_objects (class_is public_key ∷ []) s ≡ (ok hs, s')
        → Reads hs s' xs
        → (check_unique s).0
          ≡ (refuse_duplicate t own_label
              (first_label points curve own_label key xs)
              (search_duplicate t points curve own_label key hs s').1).0
    unfolding find_duplicate_point ◌>>=◌
    checked hs s s' xs found reads = rw (found, searched hs s' xs reads) refl

    -- Where the token lists its public keys and reports the label and the point of each, the check lets the
    -- new key pass exactly if no key under another label has the same point, or the first that has it has no
    -- label: then the search answers with its empty label, which stands for none.
    pub check_unique_passes_iff :
        (hs : List ℕ) (s s' : t.S) (xs : List Seen)
        → t.find_objects (class_is public_key ∷ []) s ≡ (ok hs, s')
        → Reads hs s' xs
        → ((check_unique s).0 ≡ ok tt) ↔ (
            All (λ x. ¬ IsTwin points curve own_label key x) xs
            ⊎ IsOverlooked points curve own_label key xs)
    check_unique_passes_iff hs s s' xs found reads =
        let same = checked hs s s' xs found reads in
        let named =
          refuse_if_named (first_label points curve own_label key xs)
            (search_duplicate t points curve own_label key hs s').1 in
        (
          (λ h. passes points curve own_label key xs (named.0 (sym same ∙ h))),
          (λ h. same ∙ named.1 (passes_back points curve own_label key xs h)),
        )
