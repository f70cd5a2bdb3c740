-- ===== src/Ca/Crl.antt =====
-- BuildCRL of internal/ca/crl.go. A nil number is `none`.
use multivendor_hsm_pki.Prelude.{
  ◌<◌, ◌≡◌, ◌↔◌, refl, Bool, true, false, not, Option, none, some, List, ℤ, pos, negsuc, Result, ok,
  err, ◌>>=◌, ◌>>◌, if◌then◌else◌, >>=-eq-ok, refuse_if, refuse_if-eq-ok, ltb, arith,
}
use multivendor_hsm_pki.Clock.{Time, after}
use multivendor_hsm_pki.Ca.{Bytes, RevokedCert, X509, Ca, wrap_err, wrapped}

pub data CrlError (E : Type 0) : Type 0 where
  empty_window : CrlError E
  number_not_positive : CrlError E
  crl_failed : E → CrlError E

-- number.Sign() > 0
abbrev pub is_positive : ℤ → Bool
is_positive (pos n) = ltb 0 n
is_positive (negsuc n) = false

abbrev pub positive_number : {E : Type 0} → Option ℤ → Result (CrlError E) ℤ
positive_number none = err number_not_positive
positive_number (some n) = if is_positive n then ok n else err number_not_positive

-- CA.BuildCRL
unfoldable pub build_crl :
    {E : Type 0}
    → X509 E
    → Ca
    → List RevokedCert
    → Time
    → Time
    → Option ℤ
    → Result (CrlError E) Bytes
build_crl x c revoked this_update next_update number = do
  refuse_if (not (after next_update this_update)) empty_window
  n ← positive_number number
  wrap_err crl_failed (
      x.create_crl
        (record {
          number = n;
          this_update = this_update;
          next_update = next_update;
          entries = revoked;
        })
        c.cert)

module _ {E : Type 0} (x : X509 E) (c : Ca) where
  positive_number_iff :
      (number : Option ℤ) (n : ℤ)
      → (positive_number {E = E} number ≡ ok n) ↔ ((number ≡ some n) × (is_positive n ≡ true))
  positive_number_iff none n = ((λ h. cc), (λ h. cc))
  positive_number_iff (some m) n = ground arith

  -- A CRL is built exactly if its window is not empty, its number is positive and crypto/x509 signs the
  -- list of these entries, number and window.
  pub build_crl_iff :
      (revoked : List RevokedCert) (this_update next_update : Time) (number : Option ℤ)
      (der : Bytes)
      → (build_crl x c revoked this_update next_update number ≡ ok der) ↔ (
          (n : ℤ) × (this_update < next_update)
          × (number ≡ some n)
          × (is_positive n ≡ true)
          × (x.create_crl
                (record {
                  number = n;
                  this_update = this_update;
                  next_update = next_update;
                  entries = revoked;
                })
                c.cert
              ≡ ok der))
  unfolding build_crl
  build_crl_iff revoked this_update next_update number der = (
    (λ h.
        let (window, h1) =
          refuse_if-eq-ok (not (after next_update this_update)) empty_window _ der h in
        let (n, numbered, h2) = >>=-eq-ok (positive_number number) _ h1 in
        let (given, positive) = (positive_number_iff number n).0 numbered in
        (n, ground arith, given, positive, (wrapped crl_failed _ der).0 h2)),
    (λ (n, window, given, positive, signed).
        let numbered : positive_number {E = E} number ≡ ok n =
          (positive_number_iff number n).1 (given, positive) in
        let ordered : not (after next_update this_update) ≡ false = ground (arith, window) in
        rw (ordered, numbered, signed) refl),
  )
