-- ===== src/Action.antt =====
-- Steps that read and change a state and may fail: Go code that calls a token or a server and
-- returns early on an error. What was changed before the error stays changed.
use multivendor_hsm_pki.Prelude.{
  arith, ◌≡◌, refl, Bool, true, false, Option, none, some, Result, ok, err,
}

abbrev pub Act : Type 0 → Type 0 → Type 0 → Type 0
Act S E A = S → Result E A × S

module _ {S E A : Type 0} where
  abbrev pub pure : A → Act S E A
  pure a s = (ok a, s)

  abbrev pub raise : E → Act S E A
  raise e s = (err e, s)

  -- A value, or the error of a nil.
  abbrev pub need : E → Option A → Act S E A
  need e none s = (err e, s)
  need e (some a) s = (ok a, s)

  abbrev pub lift : Result E A → Act S E A
  lift r s = (r, s)

module _ {S E : Type 0} where
  -- `if bad { return err }`
  abbrev pub stop_if : Bool → E → Act S E (Unit {0})
  stop_if true e s = (err e, s)
  stop_if false e s = (ok tt, s)

  pub stop_if_ok : (b : Bool) (e : E) (s : S) → (stop_if b e s).0 ≡ ok tt → b ≡ false
  stop_if_ok true e s h = cc
  stop_if_ok false e s h = refl

  pub stop_if_state : (b : Bool) (e : E) (s : S) → (stop_if b e s).1 ≡ s
  stop_if_state true e s = refl
  stop_if_state false e s = refl

  pub need_state : {A : Type 0} (e : E) (o : Option A) (s : S) → (need e o s).1 ≡ s
  need_state e none s = refl
  need_state e (some a) s = refl

abbrev pub map_err : {E F A : Type 0} → (E → F) → Result E A → Result F A
map_err f (ok a) = ok a
map_err f (err e) = err (f e)

pub map_err_ok :
    {E F A : Type 0} (f : E → F) (r : Result E A) (a : A) → map_err f r ≡ ok a → r ≡ ok a
map_err_ok f (ok b) a h = ground arith
map_err_ok f (err e) a h = cc

abbrev as_result : {A : Type 0} (E : Type 0) → A → Result E A
as_result E a = ok a

pub ok_injective : {E A : Type 0} {a b : A} → as_result E a ≡ ok b → a ≡ b
ok_injective h = ground arith

module _ {S E F A : Type 0} where
  -- fmt.Errorf("…: %w", err)
  abbrev pub wrap : (E → F) → Act S E A → Act S F A
  wrap f m s = let (r, s') = m s in (map_err f r, s')

module _ {S E A B : Type 0} where
  abbrev pub continue : Result E A → (A → Act S E B) → Act S E B
  continue (ok a) f s = f a s
  continue (err e) f s = (err e, s)

  infixl 5 ◌>>=◌
  unfoldable pub ◌>>=◌ : Act S E A → (A → Act S E B) → Act S E B
  ◌>>=◌ m f s = let (r, s') = m s in continue r f s'

  -- A run that succeeds had a first step that did.
  pub bind_ok :
      (m : Act S E A) (f : A → Act S E B) (s : S) (b : B)
      → ((m >>= f) s).0 ≡ ok b
      → (a : A) × ((m s).0 ≡ ok a) × ((f a (m s).1).0 ≡ ok b) × (((m >>= f) s).1 ≡ (f a (m s).1).1)
  unfolding ◌>>=◌
  bind_ok m f s b h = let (r, s') = m s in go r s' h
    where
      go :
          (r : Result E A) (s' : S)
          → (continue r f s').0 ≡ ok b
          → (a : A) × (r ≡ ok a) × ((f a s').0 ≡ ok b) × ((continue r f s').1 ≡ (f a s').1)
      go (ok a) s' h = (a, refl, h, refl)
      go (err e) s' h = cc

module _ {S E B : Type 0} where
  infixl 5 ◌>>◌
  abbrev pub ◌>>◌ : Act S E (Unit {0}) → Act S E B → Act S E B
  m >> k = m >>= λ _. k
