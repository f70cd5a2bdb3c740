-- ===== src/Retire/Ended.antt =====
-- What the retirement of a key leaves on the token.
use multivendor_hsm_pki.Prelude.{
  ℕ, ◌≡◌, refl, sym, ◌∙◌, inl, inr, ◌⊎◌, true, false, String, Option, none, some, List, Result, ok,
  err, Bool-cases,
}
use multivendor_hsm_pki.Action.{Act, need, continue, ◌>>=◌}
use multivendor_hsm_pki.Inventory.{EcdsaKey}
use multivendor_hsm_pki.Pkcs11.{
  EcCurve, curve_name, public_key, private_key, Object, PkcsError, Token, IsToken,
}
use multivendor_hsm_pki.Pkcs11.FindKey.{find_key_by_label_reads}
use multivendor_hsm_pki.SigningKey.{Points, Key, KeyError, load, same_key}
use multivendor_hsm_pki.SigningKey.Destroy.{Destroyed, none_destroyed, destroy}
use multivendor_hsm_pki.SigningKey.Destroyed.{IsDestruction, destroy_exact}
use multivendor_hsm_pki.Retire.{
  RetireError, key, Desk, Outcome, keep_first, deferred, as_outcome, destroy_same, in_session,
  logged_in, retire_signing_key,
}

-- Logging in and out, and opening and closing a session, change no object of the token.
pub record IsDesk (t : Token) (desk : Desk t) : Type 0 where
  pub login_reads : (pin : List ℕ) (s : t.S) → t.objects (desk.login pin s).1 ≡ t.objects s
  pub logout_reads : (s : t.S) → t.objects (desk.logout s).1 ≡ t.objects s
  pub open_reads : (s : t.S) → t.objects (desk.open_session s).1 ≡ t.objects s
  pub close_reads : (s : t.S) → t.objects (desk.close_session s).1 ≡ t.objects s

module _ (t : Token) where
  abbrev Reads : {A : Type 0} → Act t.S KeyError A → Type 0
  Reads m = (s : t.S) → t.objects (m s).1 ≡ t.objects s

  >>=-Reads :
      {A B : Type 0} (m : Act t.S KeyError A) (f : A → Act t.S KeyError B)
      → Reads m
      → ((a : A) → Reads (f a))
      → Reads (m >>= f)
  unfolding ◌>>=◌
  >>=-Reads {A = A} {B = B} m f here rest s = go (m s) (here s)
    where
      go :
          (p : Result KeyError A × t.S)
          → t.objects p.1 ≡ t.objects s
          → t.objects (continue p.0 f p.1).1 ≡ t.objects s
      go (ok a, s') kept = rest a s' ∙ kept
      go (err e, s') kept = kept

  need-Reads : {A : Type 0} (e : KeyError) (o : Option A) → Reads (need e o)
  need-Reads e none s = refl
  need-Reads e (some a) s = refl

  -- Load changes nothing on the token.
  load-Reads :
      (law : IsToken t) (points : Points) (label : String) (curve : EcCurve)
      → Reads (load t points label curve)
  unfolding load
  load-Reads law points label curve = >>=-Reads _ _ (need-Reads _ (curve_name curve)) (λ name.
      >>=-Reads _ _ (λ s. find_key_by_label_reads t law public_key label s)
        (λ pub_handle.
          >>=-Reads _ _ (λ s. law.get_reads pub_handle _ s)
            (λ attrs. >>=-Reads _ _ (need-Reads _ _) (λ value.
              >>=-Reads _ _ (need-Reads _ _) (λ point.
                >>=-Reads _ _ (λ s. find_key_by_label_reads t law private_key label s)
                  (λ priv_handle.
                    >>=-Reads _ _ (λ s. law.get_reads priv_handle _ s) (λ priv_attrs s. refl)))))))

-- An error of Destroy is the error of the command.
abbrev pub Reported : Result KeyError (Unit {0}) → Result RetireError (Unit {0}) → Type 0
Reported (ok _) r = Unit
Reported (err e) r = r ≡ err (key e)

module _ (t : Token) (points : Points) (label : String) (curve : EcCurve)
    (listed : Option EcdsaKey) where
  -- Nothing was removed, and an error says why.
  abbrev pub Refused : List Object → Outcome t → Type 0
  Refused before ((r, done), s) =
      ((e : RetireError) × (r ≡ err e)) × (done ≡ none_destroyed) × (t.objects s ≡ before)

  -- The key that the token then held under the label was the listed one, and Destroy ran on it.
  abbrev pub Ran : List Object → Outcome t → Type 0
  Ran before ((r, done), s) =
      (at : t.S) × (k : Key) × ((load t points label curve at).0 ≡ ok k)
      × (t.objects at ≡ before)
      × (same_key (some k.public) listed ≡ true)
      × ((r' : Result KeyError (Unit {0})) × IsDestruction label before (t.objects s) r' done
          × Reported r' r)

  abbrev pub IsRetirement : List Object → Outcome t → Type 0
  IsRetirement before o = Refused before o ⊎ Ran before o

  keep_first-Reported :
      (r' : Result KeyError (Unit {0})) (r : Result RetireError (Unit {0}))
      (later : Result PkcsError (Unit {0})) (as_error : PkcsError → RetireError)
      → Reported r' r
      → Reported r' (keep_first r later as_error)
  keep_first-Reported (ok _) r later as_error h = tt
  keep_first-Reported (err e) r later as_error h = rw h refl

  deferred_keeps :
      (desk : Desk t) (call : t.S → Result PkcsError (Unit {0}) × t.S)
      (as_error : PkcsError → RetireError)
      → ((s : t.S) → t.objects (call s).1 ≡ t.objects s)
      → (before : List Object) (o : Outcome t) → IsRetirement before o
      → IsRetirement before (deferred t desk call as_error o)
  deferred_keeps desk call as_error reads before ((r, done), s)
        (inl ((e, failed_by), nothing_done, kept)) =
      inl ((e, rw failed_by refl), nothing_done, reads s ∙ kept)
  deferred_keeps desk call as_error reads before ((r, done), s)
        (inr (at, k, loaded, held, same, (r', gone, reported))) =
      inr (
        at,
        k,
        loaded,
        held,
        same,
        (r', rw (sym (reads s)) at gone, keep_first-Reported r' r (call s).0 as_error reported),
      )

  module _ (law : IsToken t) (desk : Desk t) where
    as_outcome-Ran :
        (before : List Object) (at : t.S) (k : Key)
        (g : (Result KeyError (Unit {0}) × Destroyed) × t.S)
        → (load t points label curve at).0 ≡ ok k
        → t.objects at ≡ before
        → same_key (some k.public) listed ≡ true
        → IsDestruction label before (t.objects g.1) g.0.0 g.0.1
        → Ran before (as_outcome t desk g)
    as_outcome-Ran before at k ((ok _, done), s) loaded held same gone =
        (at, k, loaded, held, same, (ok tt, gone, tt))
    as_outcome-Ran before at k ((err e, done), s) loaded held same gone =
        (at, k, loaded, held, same, (err e, gone, refl))

    destroy_same_exact :
        (at : t.S) (r : Result KeyError Key × t.S)
        → (load t points label curve at).0 ≡ r.0
        → t.objects r.1 ≡ t.objects at
        → IsRetirement (t.objects at) (destroy_same t desk label listed r)
    destroy_same_exact at (err e, s) loaded kept = inl ((key e, refl), refl, kept)
    destroy_same_exact at (ok k, s) loaded kept =
        elim (Bool-cases (same_key (some k.public) listed)) [
          | inr other ↦ (rw other (inl ((_, refl), refl, kept)))
          | inl same ↦
              (rw same (
                inr (
                  as_outcome-Ran (t.objects at) at k (destroy t label s) loaded refl same
                    (rw kept at (destroy_exact t law label s)))))
        ]

    module _ (reads : IsDesk t desk) where
      in_session_exact :
          (opened : Result PkcsError (Unit {0}) × t.S)
          → IsRetirement (t.objects opened.1) (in_session t desk points label curve listed opened)
      in_session_exact (err e, s) = inl ((_, refl), refl, refl)
      in_session_exact (ok _, s) =
          deferred_keeps desk desk.close_session _ reads.close_reads (t.objects s) _ (
            destroy_same_exact s (load t points label curve s) refl
              (load-Reads t law points label curve s))

      logged_in_exact :
          (login : Result PkcsError (Unit {0}) × t.S)
          → IsRetirement (t.objects login.1) (logged_in t desk points label curve listed login)
      logged_in_exact (err e, s) = inl ((_, refl), refl, refl)
      logged_in_exact (ok _, s) =
          deferred_keeps desk desk.logout _ reads.logout_reads (t.objects s) _
            (rw (reads.open_reads s) at (in_session_exact (desk.open_session s)))

      -- Where the token has the laws of IsToken, and logins and sessions change no object: retiring
      -- a key either removes nothing and returns an error, or Destroy ran, in a state with the same
      -- objects, on a token whose key under the label loads and is the listed key; then exactly
      -- what the flags report is gone, and an error of Destroy is returned.
      pub retire_signing_key_exact :
          (pin : Option (List ℕ)) (s : t.S)
          → IsRetirement (t.objects s) (retire_signing_key t desk points label curve listed pin s)
      unfolding retire_signing_key
      retire_signing_key_exact none s = elim (Bool-cases (desk.token_logged_in s)) [
        | inl held ↦ (rw held (inl ((_, refl), refl, refl)))
        | inr free ↦ (rw free (inl ((_, refl), refl, refl)))
      ]
      retire_signing_key_exact (some pin) s = elim (Bool-cases (desk.token_logged_in s)) [
        | inl held ↦ (rw held (inl ((_, refl), refl, refl)))
        | inr free ↦
            (rw free (rw (reads.login_reads pin s) at (logged_in_exact (desk.login pin s))))
      ]

-- A login that fails, and every logout, leave the token without a login.
pub record IsLogin (t : Token) (desk : Desk t) : Type 0 where
  pub failed_login :
      (pin : List ℕ) (s : t.S) (e : PkcsError)
      → (desk.login pin s).0 ≡ err e
      → desk.token_logged_in (desk.login pin s).1 ≡ desk.token_logged_in s
  pub logout_clears : (s : t.S) → desk.token_logged_in (desk.logout s).1 ≡ false

module _ (t : Token) (points : Points) (label : String) (curve : EcCurve) (listed : Option EcdsaKey)
    (desk : Desk t) (law : IsLogin t desk) where
  -- Where a failed login and every logout leave the token without a login: the command gives its
  -- login back on every path, whatever failed, if it found the token without one.
  retire_logs_out :
      (pin : Option (List ℕ)) (s : t.S)
      → desk.token_logged_in s ≡ false
      → desk.token_logged_in (retire_signing_key t desk points label curve listed pin s).1 ≡ false
  unfolding retire_signing_key
  retire_logs_out none s free = rw free free
  retire_logs_out (some pin) s free = rw free (go (desk.login pin s) (law.failed_login pin s))
    where
      go :
          (login : Result PkcsError (Unit {0}) × t.S)
          → ((e : PkcsError)
              → login.0 ≡ err e
              → desk.token_logged_in login.1 ≡ desk.token_logged_in s)
          → desk.token_logged_in (logged_in t desk points label curve listed login).1 ≡ false
      go (ok _, s') fails = law.logout_clears _
      go (err e, s') fails = fails e refl ∙ free
