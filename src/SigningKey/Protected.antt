-- ===== src/SigningKey/Protected.antt =====
-- What is true of a key that Provision returns.
use multivendor_hsm_pki.Prelude.{
  ℕ, ◌≡◌, refl, sym, ap, ◌∙◌, ◌⊎◌, inl, inr, Bool, true, false, Member, String, Option, List, [],
  ◌∷◌, arith, ok,
}
use multivendor_hsm_pki.Action.{
  need, bind_ok, stop_if_ok, stop_if_state, need_state, map_err_ok, ok_injective,
}
use multivendor_hsm_pki.Text.{codes}
use multivendor_hsm_pki.Text.Regex.{Lang}
use multivendor_hsm_pki.Pkcs11.{
  EcCurve, curve_name, ObjectClass, public_key, private_key, Attribute, sensitive_is,
  extractable_is, AttributeType, attr_sensitive, attr_extractable, Token, IsToken,
}
use multivendor_hsm_pki.Pkcs11.FindKey.{
  find_key_by_label, named, label_is_free_exact, label_is_free_reads, IsFree,
}
use multivendor_hsm_pki.Pkcs11.Labels.{versioned_label_pattern, validate_versioned_label_iff}
use multivendor_hsm_pki.SigningKey.{
  attr_true, Points, Key, KeyError, load, read_protection, verify_protection,
}
use multivendor_hsm_pki.SigningKey.Provision.{provision, require_free}

verify_protection_ok :
    (k : Key) → verify_protection k ≡ ok tt → (k.sensitive ≡ true) × (k.extractable ≡ false)
unfolding verify_protection
verify_protection_ok k h = ground arith

label-read_protection :
    (attrs : List Attribute) (k : Key) → (read_protection attrs k).label ≡ k.label
unfolding read_protection
label-read_protection [] k = refl
label-read_protection (sensitive_is v ∷ attrs) k = label-read_protection attrs _
label-read_protection (extractable_is v ∷ attrs) k = label-read_protection attrs _
label-read_protection (Attribute.class_is c ∷ attrs) k = label-read_protection attrs _
label-read_protection (Attribute.label_is c ∷ attrs) k = label-read_protection attrs _
label-read_protection (Attribute.ec_point_is c ∷ attrs) k = label-read_protection attrs _

abbrev protection : List AttributeType
protection = attr_sensitive ∷ attr_extractable ∷ []

-- Does a report have a value of CKA_EXTRACTABLE?
abbrev pub has_extractable : List Attribute → Bool
has_extractable [] = false
has_extractable (extractable_is v ∷ attrs) = true
has_extractable (_ ∷ attrs) = has_extractable attrs

-- A report with a true CKA_SENSITIVE.
abbrev pub ReportsSensitive : List Attribute → Type 0
ReportsSensitive attrs = (v : List ℕ) × Member (sensitive_is v) attrs × (attr_true v ≡ true)

-- A report without a CKA_EXTRACTABLE, or with a false one.
abbrev pub ReportsFixed : List Attribute → Type 0
ReportsFixed attrs =
    (has_extractable attrs ≡ false)
    ⊎ ((v : List ℕ) × Member (extractable_is v) attrs × (attr_true v ≡ false))

more_sensitive :
    (a : Attribute) (attrs : List Attribute) → ReportsSensitive attrs → ReportsSensitive (a ∷ attrs)
more_sensitive a attrs (v, there, is_true) = (v, inr there, is_true)

reported_sensitive :
    (attrs : List Attribute) (k : Key)
    → (read_protection attrs k).sensitive ≡ true
    → (k.sensitive ≡ true) ⊎ ReportsSensitive attrs
unfolding read_protection
reported_sensitive [] k h = inl h
reported_sensitive (sensitive_is v ∷ attrs) k h =
    elim (reported_sensitive attrs (record k { sensitive = attr_true v }) h) [
      | inl here ↦ inr (v, inl refl, here)
      | inr there ↦ inr (more_sensitive (sensitive_is v) attrs there)
    ]
reported_sensitive (extractable_is v ∷ attrs) k h =
    elim (reported_sensitive attrs (record k { extractable = attr_true v }) h) [
      | inl here ↦ inl here
      | inr there ↦ inr (more_sensitive (extractable_is v) attrs there)
    ]
reported_sensitive (Attribute.class_is c ∷ attrs) k h = elim (reported_sensitive attrs k h) [
  | inl here ↦ inl here
  | inr there ↦ inr (more_sensitive (Attribute.class_is c) attrs there)
]
reported_sensitive (Attribute.label_is c ∷ attrs) k h = elim (reported_sensitive attrs k h) [
  | inl here ↦ inl here
  | inr there ↦ inr (more_sensitive (Attribute.label_is c) attrs there)
]
reported_sensitive (Attribute.ec_point_is c ∷ attrs) k h = elim (reported_sensitive attrs k h) [
  | inl here ↦ inl here
  | inr there ↦ inr (more_sensitive (Attribute.ec_point_is c) attrs there)
]

-- What is read as not extractable was not reported, or reported false.
abbrev ReadsFixed : List Attribute → Key → Type 0
ReadsFixed attrs k =
    ((has_extractable attrs ≡ false) × (k.extractable ≡ false))
    ⊎ ((v : List ℕ) × Member (extractable_is v) attrs × (attr_true v ≡ false))

reported_fixed :
    (attrs : List Attribute) (k : Key)
    → (read_protection attrs k).extractable ≡ false
    → ReadsFixed attrs k
unfolding read_protection
reported_fixed [] k h = inl (refl, h)
reported_fixed (extractable_is v ∷ attrs) k h =
    elim (reported_fixed attrs (record k { extractable = attr_true v }) h) [
      | inl (_, here) ↦ inr (v, inl refl, here)
      | inr (w, there, is_false) ↦ inr (w, inr there, is_false)
    ]
reported_fixed (sensitive_is v ∷ attrs) k h =
    elim (reported_fixed attrs (record k { sensitive = attr_true v }) h) [
      | inl here ↦ inl here
      | inr (w, there, is_false) ↦ inr (w, inr there, is_false)
    ]
reported_fixed (Attribute.class_is c ∷ attrs) k h = elim (reported_fixed attrs k h) [
  | inl here ↦ inl here
  | inr (w, there, is_false) ↦ inr (w, inr there, is_false)
]
reported_fixed (Attribute.label_is c ∷ attrs) k h = elim (reported_fixed attrs k h) [
  | inl here ↦ inl here
  | inr (w, there, is_false) ↦ inr (w, inr there, is_false)
]
reported_fixed (Attribute.ec_point_is c ∷ attrs) k h = elim (reported_fixed attrs k h) [
  | inl here ↦ inl here
  | inr (w, there, is_false) ↦ inr (w, inr there, is_false)
]

module _ (t : Token) where
  -- The token located the single private key of the label and reported it sensitive and not extractable.
  abbrev pub ReportsProtected : String → Type 0
  ReportsProtected label =
      (at : t.S) × (handle : ℕ) × (attrs : List Attribute) × ((find_key_by_label t private_key label
          at).0
        ≡ ok handle)
      × ((t.get_attributes handle protection (find_key_by_label t private_key label at).1).0
          ≡ ok attrs)
      × ReportsSensitive attrs
      × ReportsFixed attrs

module _ (t : Token) (points : Points) where
  load_label :
      (label : String) (curve : EcCurve) (s : t.S) (key : Key)
      → (load t points label curve s).0 ≡ ok key
      → (key.label ≡ label)
        × ((at : t.S) × (handle : ℕ) × (attrs : List Attribute) × (start : Key)
            × ((find_key_by_label t private_key label at).0 ≡ ok handle)
            × ((t.get_attributes handle protection (find_key_by_label t private_key label at).1).0
                ≡ ok attrs)
            × (start.sensitive ≡ false)
            × (read_protection attrs start ≡ key))
  unfolding load
  load_label label curve s key h =
      let (_, _, h1, _) = bind_ok _ _ s key h in
      let (_, _, h2, _) = bind_ok _ _ _ key h1 in
      let (_, _, h3, _) = bind_ok _ _ _ key h2 in
      let (_, _, h4, _) = bind_ok _ _ _ key h3 in
      let (_, _, h5, _) = bind_ok _ _ _ key h4 in
      let (handle, found, h6, _) = bind_ok _ _ _ key h5 in
      let (attrs, reported, h7, _) = bind_ok _ _ _ key h6 in
      (
        ap (λ k. k.label) (sym (ok_injective h7)) ∙ label-read_protection attrs _,
        (
          _,
          handle,
          attrs,
          _,
          map_err_ok KeyError.pkcs _ handle found,
          map_err_ok KeyError.pkcs _ attrs reported,
          refl,
          ok_injective h7,
        ),
      )

  load-ReportsProtected :
      (label : String) (curve : EcCurve) (s : t.S) (key : Key)
      → (load t points label curve s).0 ≡ ok key
      → key.sensitive ≡ true
      → key.extractable ≡ false
      → ReportsProtected t label
  load-ReportsProtected label curve s key h sensitive fixed =
      let (_, (at, handle, attrs, start, found, reported, off, read)) =
        load_label label curve s key h in
      (
        at,
        handle,
        attrs,
        found,
        reported,
        elim (reported_sensitive attrs start (ap (λ k. k.sensitive) read ∙ sensitive)) [
          | inl on ↦ absurd (ground (arith, on, off))
          | inr there ↦ there
        ],
        elim (reported_fixed attrs start (ap (λ k. k.extractable) read ∙ fixed)) [
          | inl (unreported, _) ↦ inl unreported
          | inr there ↦ inr there
        ],
      )

  require_free_ok :
      (law : IsToken t) (class : ObjectClass) (label : String) (s : t.S)
      → (require_free t class label s).0 ≡ ok tt
      → (named class label (t.objects s) ≡ [])
        × (t.objects (require_free t class label s).1 ≡ t.objects s)
  unfolding require_free
  require_free_ok law class label s h =
      let (free, found, h1, kept) = bind_ok _ _ s tt h in
      let is_free_now : free ≡ true = ground (arith, stop_if_ok _ _ _ h1) in
      let exact : IsFree (named class label (t.objects s)) (ok free) =
        rw (map_err_ok KeyError.pkcs _ free found) at (label_is_free_exact t law class label s) in
      (
        rw is_free_now at exact,
        ap t.objects kept
            ∙ ap t.objects (stop_if_state _ _ _)
            ∙ label_is_free_reads t law class label s,
      )

  -- On a token with the laws of IsToken, a key that Provision returns has a versioned label, the
  -- one that was asked for, under which the token held neither a public nor a private key before. It
  -- says sensitive and not extractable, and the token said so: asked for the two attributes of the
  -- private key that a lookup of the label locates, it reported CKA_SENSITIVE true, and CKA_EXTRACTABLE
  -- false or not at all.
  pub provision_protected :
      (law : IsToken t) (random : Option (List ℕ)) (label : String) (curve : EcCurve) (s : t.S)
      (key : Key)
      → (provision t points random label curve s).0 ≡ ok key
      → Lang versioned_label_pattern (codes label)
        × (key.label ≡ label)
        × (named public_key label (t.objects s) ≡ [])
        × (named private_key label (t.objects s) ≡ [])
        × (key.sensitive ≡ true)
        × (key.extractable ≡ false)
        × ReportsProtected t label
  unfolding provision
  provision_protected law random label curve s key h =
      let (_, valid, h1, _) = bind_ok _ _ s key h in
      let (_, _, h2, _) = bind_ok _ _ _ key h1 in
      let (_, pub_free, h3, _) = bind_ok _ _ _ key h2 in
      let (_, priv_free, h4, _) = bind_ok _ _ _ key h3 in
      let (_, _, h5, _) = bind_ok _ _ _ key h4 in
      let (_, _, h6, _) = bind_ok _ _ _ key h5 in
      let (loaded, load_ok, h7, _) = bind_ok _ _ _ key h6 in
      let (_, protected, h8, _) = bind_ok _ _ _ key h7 in
      let (_, _, h9, _) = bind_ok _ _ _ key h8 in
      let (_, _, h10, _) = bind_ok _ _ _ key h9 in
      let same : loaded ≡ key = ok_injective h10 in
      let (pub_none, pub_kept) = require_free_ok law public_key label _ pub_free in
      let (priv_none, _) = require_free_ok law private_key label _ priv_free in
      let start : (need {S = t.S} {E = KeyError} KeyError.unsupported_curve (curve_name curve) s).1
          ≡ s =
        need_state KeyError.unsupported_curve (curve_name curve) s in
      let (sensitive, fixed) = verify_protection_ok loaded protected in
      (
        (validate_versioned_label_iff label).0 (map_err_ok KeyError.bad_label _ tt valid),
        ap (λ k. k.label) (sym same) ∙ (load_label label curve _ loaded load_ok).0,
        rw start at pub_none,
        rw (pub_kept, start) at priv_none,
        ap (λ k. k.sensitive) (sym same) ∙ sensitive,
        ap (λ k. k.extractable) (sym same) ∙ fixed,
        load-ReportsProtected label curve _ loaded load_ok sensitive fixed,
      )
