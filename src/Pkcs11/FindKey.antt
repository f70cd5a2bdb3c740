-- ===== src/Pkcs11/FindKey.antt =====
-- internal/pkcs11/findkey.go
use multivendor_hsm_pki.Prelude.{
  ℕ, suc, ◌≤◌, ◌≡◌, refl, ap, Bool, true, false, String, List, [], ◌∷◌, arith, Result, ok, err,
  length, filter, string_eq,
}
use multivendor_hsm_pki.Pkcs11.{
  ObjectClass, class_is, label_is, PkcsError, key_not_found, ambiguous_label, module_error,
  unsupported_curve, Token, IsToken, Object, FindsMatches, matches_template, handles,
}

-- The switch on the number of handles.
abbrev pub only_handle : List ℕ → Result PkcsError ℕ
only_handle [] = err key_not_found
only_handle (h ∷ []) = ok h
only_handle (h ∷ i ∷ hs) = err (ambiguous_label (length (h ∷ i ∷ hs)))

-- What FindKeyByLabel makes of the result of FindObjects.
abbrev pub locate : Result PkcsError (List ℕ) → Result PkcsError ℕ
locate (err e) = err e
locate (ok hs) = only_handle hs

-- What LabelIsFree makes of the result of FindKeyByLabel.
abbrev pub is_free : Result PkcsError ℕ → Result PkcsError Bool
is_free (ok h) = ok false
is_free (err key_not_found) = ok true
is_free (err e) = err e

module _ (t : Token) where
  unfoldable pub find_key_by_label : ObjectClass → String → t.S → Result PkcsError ℕ × t.S
  find_key_by_label class label s =
      let (found, s') = t.find_objects (class_is class ∷ label_is label ∷ []) s in
      (locate found, s')

  unfoldable pub label_is_free : ObjectClass → String → t.S → Result PkcsError Bool × t.S
  label_is_free class label s =
      let (found, s') = find_key_by_label class label s in (is_free found, s')

-- The objects of a class that carry a label.
abbrev pub named : ObjectClass → String → List Object → List Object
named class label = filter (matches_template (class_is class ∷ label_is label ∷ []))

-- What the result of a lookup says of the objects that carry the label.
abbrev pub Locates : List Object → Result PkcsError ℕ → Type 0
Locates matching (ok h) = (o : Object) × (matching ≡ o ∷ []) × (o.handle ≡ h)
Locates matching (err key_not_found) = matching ≡ []
Locates matching (err (ambiguous_label n)) = (n ≡ length matching) × (2 ≤ n)
Locates matching (err (module_error code)) = Unit
Locates matching (err unsupported_curve) = ⊥

abbrev pub IsFree : List Object → Result PkcsError Bool → Type 0
IsFree matching (ok true) = matching ≡ []
IsFree matching (ok false) = (o : Object) × (matching ≡ o ∷ [])
IsFree matching (err (ambiguous_label n)) = (n ≡ length matching) × (2 ≤ n)
IsFree matching (err (module_error code)) = Unit
IsFree matching (err _) = ⊥

length-handles : (os : List Object) → length (handles os) ≡ length os
unfolding handles
length-handles [] = refl
length-handles (o ∷ os) = ap suc (length-handles os)

Locates-only : (os : List Object) → Locates os (only_handle (handles os))
unfolding handles
Locates-only [] = refl
Locates-only (o ∷ []) = (o, refl, refl)
Locates-only (o ∷ p ∷ os) = omega (arith, length-handles os)

locates :
    (class : ObjectClass) (label : String) (os : List Object) (found : Result PkcsError (List ℕ))
    → FindsMatches (class_is class ∷ label_is label ∷ []) os found
    → Locates (named class label os) (locate found)
locates class label os (ok hs) h = rw h (Locates-only (named class label os))
locates class label os (err (module_error code)) h = tt
locates class label os (err key_not_found) h = absurd h
locates class label os (err unsupported_curve) h = absurd h
locates class label os (err (ambiguous_label n)) h = absurd h

frees :
    (os : List Object) (found : Result PkcsError ℕ) → Locates os found → IsFree os (is_free found)
frees os (ok h) (o, e, _) = (o, e)
frees os (err (module_error code)) h = tt
frees os (err key_not_found) h = h
frees os (err unsupported_curve) h = absurd h
frees os (err (ambiguous_label n)) h = h

module _ (t : Token) (law : IsToken t) (class : ObjectClass) (label : String) (s : t.S) where
  pub find_key_by_label_exact :
      Locates (named class label (t.objects s)) (find_key_by_label t class label s).0
  unfolding find_key_by_label
  find_key_by_label_exact =
      locates class label (t.objects s) _ (law.finds (class_is class ∷ label_is label ∷ []) s)

  pub label_is_free_exact :
      IsFree (named class label (t.objects s)) (label_is_free t class label s).0
  unfolding label_is_free
  label_is_free_exact = frees (named class label (t.objects s)) _ find_key_by_label_exact

  pub find_key_by_label_reads : t.objects (find_key_by_label t class label s).1 ≡ t.objects s
  unfolding find_key_by_label
  find_key_by_label_reads = law.find_reads (class_is class ∷ label_is label ∷ []) s

  pub label_is_free_reads : t.objects (label_is_free t class label s).1 ≡ t.objects s
  unfolding label_is_free
  label_is_free_reads = find_key_by_label_reads

  -- On a token with the laws of IsToken, a lookup by label changes nothing on the token. It returns
  -- a handle only of the single object of the class that carries the label, reports ErrKeyNotFound
  -- only if there is none, and ErrAmbiguousLabel, with their number, only if there are several; a
  -- label is free only if no object of the class carries it, and not free only if exactly one does.
  label_lookup_exact :
      Locates (named class label (t.objects s)) (find_key_by_label t class label s).0
      × IsFree (named class label (t.objects s)) (label_is_free t class label s).0
      × (t.objects (find_key_by_label t class label s).1 ≡ t.objects s)
      × (t.objects (label_is_free t class label s).1 ≡ t.objects s)
  label_lookup_exact =
      (find_key_by_label_exact, label_is_free_exact, find_key_by_label_reads, label_is_free_reads)
