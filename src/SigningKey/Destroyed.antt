-- ===== src/SigningKey/Destroyed.antt =====
-- What Destroy leaves on the token, and what it reports.
use multivendor_hsm_pki.Prelude.{
  ℕ, ◌≡◌, refl, ◌∙◌, Bool, true, false, ◌||◌, not, String, Option, none, some, List, [], ◌∷◌, ◌==◌,
  nat_eq, Result, ok, err, filter,
}
use multivendor_hsm_pki.Pkcs11.{
  public_key, private_key, Object, PkcsError, key_not_found, unsupported_curve, ambiguous_label,
  module_error, Token, IsToken, Destroys,
}
use multivendor_hsm_pki.Pkcs11.FindKey.{
  find_key_by_label, named, Locates, find_key_by_label_exact, find_key_by_label_reads,
}
use multivendor_hsm_pki.SigningKey.{KeyError, pkcs, nothing_to_destroy}
use multivendor_hsm_pki.SigningKey.Destroy.{
  Destroyed, none_destroyed, half, destroy_public, destroy_halves, destroy_found, with_private,
  destroy,
}

-- A flag and what it says: the one object that matched was removed, by its handle, or nothing was.
abbrev pub Gone : Bool → List Object → List Object → List Object → Type 0
Gone false matching before after = after ≡ before
Gone true matching before after =
    (o : Object) × (matching ≡ o ∷ []) × (after ≡ filter (λ p. not (p.handle == o.handle)) before)

abbrev pub Absent : Bool → List Object → Type 0
Absent false matching = matching ≡ []
Absent true matching = Unit

abbrev pub Ended :
    List Object → List Object → String → Result KeyError (Unit {0}) → Destroyed → Type 0
Ended privates publics label (ok _) done =
    Absent done.private privates × Absent done.public publics × (done.private || done.public ≡ true)
Ended privates publics label (err (nothing_to_destroy l)) done =
    (l ≡ label) × (privates ≡ []) × (publics ≡ []) × (done ≡ none_destroyed)
Ended privates publics label (err (pkcs e)) done = done.public ≡ false
Ended privates publics label (err _) done = ⊥

-- The private half is removed before the public half.
abbrev pub IsDestruction :
    String → List Object → List Object → Result KeyError (Unit {0}) → Destroyed → Type 0
IsDestruction label before after r done =
    ((middle : List Object) × Gone done.private (named private_key label before) before middle
      × Gone done.public (named public_key label before) middle after)
    × Ended (named private_key label before) (named public_key label before) label r done

abbrev Half : List Object → Option ℕ → Type 0
Half matching none = matching ≡ []
Half matching (some h) = (o : Object) × (matching ≡ o ∷ []) × (o.handle ≡ h)

abbrev HalfFound : List Object → Result PkcsError (Option ℕ) → Type 0
HalfFound matching (ok h) = Half matching h
HalfFound matching (err e) = Unit

half_lem :
    (matching : List Object) (r : Result PkcsError ℕ)
    → Locates matching r
    → HalfFound matching (half r)
half_lem matching (ok h) l = l
half_lem matching (err key_not_found) l = l
half_lem matching (err unsupported_curve) l = tt
half_lem matching (err (ambiguous_label n)) l = tt
half_lem matching (err (module_error code)) l = tt

abbrev with_private_half : Bool → Destroyed
with_private_half private = record { public = false; private = private }

or_true : (b : Bool) → b || true ≡ true
or_true false = refl
or_true true = refl

module _ (t : Token) (law : IsToken t) (privates publics : List Object) (label : String) where
  -- What is left to say once the private half is dealt with.
  abbrev PublicEnd : List Object → Bool → (Result KeyError (Unit {0}) × Destroyed) × t.S → Type 0
  PublicEnd middle private ((r, done), s) =
      (done.private ≡ private)
      × Gone done.public publics middle (t.objects s)
      × Ended privates publics label r done

  destroy_public-none :
      (s : t.S)
      → publics ≡ []
      → PublicEnd (t.objects s) true (destroy_public t none (with_private_half true) s)
  unfolding destroy_public
  destroy_public-none s p = (refl, refl, (tt, p, refl))

  destroy_public-some :
      (h : ℕ) (private : Bool) (s : t.S)
      → Half publics (some h)
      → Absent private privates
      → PublicEnd (t.objects s) private (destroy_public t (some h) (with_private_half private) s)
  unfolding destroy_public
  destroy_public-some h private s (o, only, e) absent = go (t.destroy_object h s) (law.destroys h s)
    where
      go :
          (d : Result PkcsError (Unit {0}) × t.S)
          → Destroys h (t.objects s) (t.objects d.1) d.0
          → PublicEnd (t.objects s) private (
              let (r, s') = d in
              elim r [
                | ok _ ↦ ((ok tt, record (with_private_half private) { public = true }), s')
                | err e ↦ ((err (pkcs e), with_private_half private), s')
              ])
      go (ok _, s') d = (refl, (o, only, rw e d), (absent, tt, or_true private))
      go (err x, s') d = (refl, d, refl)

  abbrev WholeEnd : List Object → (Result KeyError (Unit {0}) × Destroyed) × t.S → Type 0
  WholeEnd before ((r, done), s) =
      ((middle : List Object) × Gone done.private privates before middle
        × Gone done.public publics middle (t.objects s))
      × Ended privates publics label r done

  whole_end :
      (before middle : List Object) (private : Bool)
      (r : (Result KeyError (Unit {0}) × Destroyed) × t.S)
      → Gone private privates before middle
      → PublicEnd middle private r
      → WholeEnd before r
  whole_end before middle private ((r, done), s) gone (flag, public_gone, ended) =
      ((middle, rw flag gone, public_gone), ended)

  -- The private half is found and goes first; then what is left of the public half.
  destroy_private_some :
      (h : ℕ) (pub_handle : Option ℕ) (s : t.S)
      → Half privates (some h)
      → Half publics pub_handle
      → WholeEnd (t.objects s) (destroy_halves t (some h) pub_handle s)
  unfolding destroy_halves
  destroy_private_some h pub_handle s (o, only, e) publics_half =
      go (t.destroy_object h s) (law.destroys h s)
    where
      rest :
          (s' : t.S) (pub_handle : Option ℕ)
          → Half publics pub_handle
          → PublicEnd (t.objects s') true (destroy_public t pub_handle (with_private_half true) s')
      rest s' none p = destroy_public-none s' p
      rest s' (some i) p = destroy_public-some i true s' p tt

      go :
          (d : Result PkcsError (Unit {0}) × t.S)
          → Destroys h (t.objects s) (t.objects d.1) d.0
          → WholeEnd (t.objects s) (
              let (r, s') = d in
              elim r [
                | ok _ ↦ destroy_public t pub_handle (record none_destroyed { private = true }) s'
                | err e ↦ ((err (pkcs e), none_destroyed), s')
              ])
      go (ok _, s') d =
          whole_end (t.objects s) (t.objects s') true _ (o, only, rw e d)
            (rest s' pub_handle publics_half)
      go (err x, s') d = ((t.objects s, refl, d), refl)

  destroy_found_exact :
      (priv_handle pub_handle : Option ℕ) (s : t.S)
      → Half privates priv_handle
      → Half publics pub_handle
      → WholeEnd (t.objects s) (destroy_found t label priv_handle pub_handle s)
  destroy_found_exact none none s p q = ((t.objects s, refl, refl), (refl, p, q, refl))
  destroy_found_exact none (some h) s p q =
      unfold destroy_halves in
      whole_end (t.objects s) (t.objects s) false _ refl (destroy_public-some h false s q p)
  destroy_found_exact (some h) pub_handle s p q = destroy_private_some h pub_handle s p q

  with_private_exact :
      (priv_handle : Option ℕ) (found : Result PkcsError ℕ) (s : t.S)
      → Half privates priv_handle
      → Locates publics found
      → WholeEnd (t.objects s) (with_private t label priv_handle (found, s))
  with_private_exact priv_handle found s p located =
      go (half found) (half_lem publics found located)
    where
      go :
          (r : Result PkcsError (Option ℕ))
          → HalfFound publics r
          → WholeEnd (t.objects s) (elim r [
            | err e ↦ ((err (pkcs e), none_destroyed), s)
            | ok pub_handle ↦ destroy_found t label priv_handle pub_handle s
          ])
      go (err e) q = ((t.objects s, refl, refl), refl)
      go (ok pub_handle) q = destroy_found_exact priv_handle pub_handle s p q

module _ (t : Token) (law : IsToken t) (label : String) (s : t.S) where
  -- On a token with the laws of IsToken, Destroy removes, by their handles, exactly the objects
  -- that its flags report, the private half before the public one, and each flag stands for the
  -- only object of its class with the label. If it succeeds it removed at least one half, and a
  -- half it did not remove was not there; it says that there is nothing to destroy only if both
  -- were absent, and then removed nothing; after any other failure the public half is not reported
  -- as removed.
  pub destroy_exact :
      IsDestruction label
        (t.objects s)
        (t.objects (destroy t label s).1)
        (destroy t label s).0.0
        (destroy t label s).0.1
  unfolding destroy
  destroy_exact =
      go (find_key_by_label t private_key label s)
        (find_key_by_label_exact t law private_key label s)
        (find_key_by_label_reads t law private_key label s)
    where
      Goal : (Result KeyError (Unit {0}) × Destroyed) × t.S → Type 0
      Goal r =
          WholeEnd t law (named private_key label (t.objects s))
            (named public_key label (t.objects s)) label (t.objects s) r

      go :
          (f : Result PkcsError ℕ × t.S)
          → Locates (named private_key label (t.objects s)) f.0
          → t.objects f.1 ≡ t.objects s
          → Goal (
              let (found, s') = f in
              elim (half found) [
                | err e ↦ ((err (pkcs e), none_destroyed), s')
                | ok priv_handle ↦
                    with_private t label priv_handle (find_key_by_label t public_key label s')
              ])
      go (found, s') located kept =
          split (half found) (half_lem (named private_key label (t.objects s)) found located)
        where
          split :
              (r : Result PkcsError (Option ℕ))
              → HalfFound (named private_key label (t.objects s)) r
              → Goal (elim r [
                | err e ↦ ((err (pkcs e), none_destroyed), s')
                | ok priv_handle ↦
                    with_private t label priv_handle (find_key_by_label t public_key label s')
              ])
          split (err e) p = ((t.objects s, refl, kept), refl)
          split (ok priv_handle) p =
              let found' : Result PkcsError ℕ × t.S = find_key_by_label t public_key label s' in
              let located' = find_key_by_label_exact t law public_key label s' in
              let kept' : t.objects found'.1 ≡ t.objects s =
                find_key_by_label_reads t law public_key label s' ∙ kept in
              rw kept' at (
                with_private_exact t law _ _ label priv_handle found'.0 found'.1 p
                  (rw kept at located'))
