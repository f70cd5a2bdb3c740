-- ===== src/SigningKey/Separation.antt =====
-- What CheckNoCAHierarchyKey has established of a token when it succeeds.
use multivendor_hsm_pki.Prelude.{
  ℕ, ◌≡◌, sym, ap, inl, inr, true, false, String, List, [], ◌∷◌, arith, ok, filter, Member,
  filter-Member, Bool-cases,
}
use multivendor_hsm_pki.Action.{bind_ok, map_err_ok}
use multivendor_hsm_pki.Text.{codes}
use multivendor_hsm_pki.Text.Regex.{Lang, full_match_iff}
use multivendor_hsm_pki.Pkcs11.{
  private_key, Attribute, class_is, label_is, ec_point_is, sensitive_is, extractable_is, attr_label,
  Object, handles, matches_template, Token, IsToken,
}
use multivendor_hsm_pki.SigningKey.{pkcs}
use multivendor_hsm_pki.SigningKey.Hierarchy.{
  ca_key_label_pattern, is_ca_key_label, check_labels, check_handles, check_no_ca_hierarchy_key,
}

-- C_GetAttributeValue for CKA_LABEL returns the label of the object of the handle, if it succeeds.
pub record ReadsLabels (t : Token) : Type 0 where
  pub labels_read :
      (s : t.S) (o : Object) (attrs : List Attribute)
      → Member o (t.objects s)
      → (t.get_attributes o.handle (attr_label ∷ []) s).0 ≡ ok attrs
      → Member (label_is o.label) attrs

check_labels_ok :
    (attrs : List Attribute) (l : String)
    → check_labels attrs ≡ ok tt
    → Member (label_is l) attrs
    → is_ca_key_label l ≡ false
unfolding check_labels
check_labels_ok [] l h m = absurd m
check_labels_ok (label_is k ∷ attrs) l h m = elim (Bool-cases (is_ca_key_label k)) [
  | inl ca ↦ absurd (ground (arith, ca, h))
  | inr fine ↦ (elim m [
    | inl same ↦ (let e : l ≡ k = ground (arith, same) in rw e fine)
    | inr later ↦ check_labels_ok attrs l (ground (arith, fine, h)) later
  ])
]
check_labels_ok (class_is c ∷ attrs) l h m = elim m [
  | inl same ↦ cc
  | inr later ↦ check_labels_ok attrs l h later
]
check_labels_ok (ec_point_is c ∷ attrs) l h m = elim m [
  | inl same ↦ cc
  | inr later ↦ check_labels_ok attrs l h later
]
check_labels_ok (sensitive_is c ∷ attrs) l h m = elim m [
  | inl same ↦ cc
  | inr later ↦ check_labels_ok attrs l h later
]
check_labels_ok (extractable_is c ∷ attrs) l h m = elim m [
  | inl same ↦ cc
  | inr later ↦ check_labels_ok attrs l h later
]

handle-Member : (o : Object) (os : List Object) → Member o os → Member o.handle (handles os)
unfolding handles
handle-Member o [] m = absurd m
handle-Member o (p ∷ os) m = elim m [
  | inl same ↦ inl (ap (λ x. x.handle) same)
  | inr later ↦ inr (handle-Member o os later)
]

module _ (t : Token) (law : IsToken t) (labels : ReadsLabels t) where
  check_handles_ok :
      (hs : List ℕ) (s : t.S) (o : Object)
      → (check_handles t hs s).0 ≡ ok tt
      → Member o (t.objects s)
      → Member o.handle hs
      → is_ca_key_label o.label ≡ false
  unfolding check_handles
  check_handles_ok [] s o h held m = absurd m
  check_handles_ok (i ∷ hs) s o h held m =
      let (attrs, read, h1, _) = bind_ok _ _ s tt h in
      let (_, clear, h2, _) = bind_ok _ _ _ tt h1 in
      let kept : t.objects (t.get_attributes i (attr_label ∷ []) s).1 ≡ t.objects s =
        law.get_reads i (attr_label ∷ []) s in
      elim m [
        | inl same ↦
            check_labels_ok attrs o.label clear
              (labels.labels_read s o attrs held (rw (sym same) at (map_err_ok pkcs _ attrs read)))
        | inr later ↦ check_handles_ok hs _ o h2 (rw (sym kept) at held) later
      ]

  found_handles :
      (s : t.S) (hs : List ℕ)
      → (t.find_objects (class_is private_key ∷ []) s).0 ≡ ok hs
      → hs ≡ handles (filter (matches_template (class_is private_key ∷ [])) (t.objects s))
  found_handles s hs e = rw e at (law.finds (class_is private_key ∷ []) s)

  -- On a token with the laws of IsToken and ReadsLabels: if CheckNoCAHierarchyKey succeeds, no
  -- private key on the token carries a label of the CA hierarchy, whatever prefix it has.
  pub no_ca_hierarchy_key :
      (s : t.S) (o : Object)
      → (check_no_ca_hierarchy_key t s).0 ≡ ok tt
      → Member o (t.objects s)
      → o.class ≡ private_key
      → ¬ Lang ca_key_label_pattern (codes o.label)
  unfolding check_no_ca_hierarchy_key is_ca_key_label
  no_ca_hierarchy_key s o h held private lang =
      let (hs, read, h1, _) = bind_ok _ _ s tt h in
      let found = found_handles s hs (map_err_ok pkcs _ hs read) in
      let matched : matches_template (class_is private_key ∷ []) o ≡ true =
        unfold matches_template in (ground (arith, private)) in
      let listed = handle-Member o _ (
        filter-Member (matches_template (class_is private_key ∷ [])) o (t.objects s) held
          matched) in
      let clear : is_ca_key_label o.label ≡ false =
        check_handles_ok hs _ o h1 (rw (sym (law.find_reads (class_is private_key ∷ []) s)) at held)
          (rw (sym found) at listed) in
      ground (arith, clear, (full_match_iff ca_key_label_pattern (codes o.label)).1 lang)
