-- ===== src/Prelude/Results.antt =====
-- Go's `(value, error)` results: a value or an error, and `do` blocks over them.
use mathlib.Core.Path.{◌≡◌, refl}
use mathlib.Core.Bool.{Bool, true, false}

pub data Result {ℓ} (E A : Type ℓ) : Type ℓ where
  ok : A → Result E A
  err : E → Result E A

-- `if bad { return err }`
abbrev pub refuse_if : {E : Type 0} → Bool → E → Result E (Unit {0})
refuse_if true e = err e
refuse_if false e = ok tt

infixl 5 ◌>>=◌
abbrev pub ◌>>=◌ {ℓ} : {E A B : Type ℓ} (r : Result E A) (next : A → Result E B) → Result E B
err stop >>= next = err stop
ok value >>= next = next value

infixl 5 ◌>>◌
abbrev pub ◌>>◌ : {E B : Type 0} (check : Result E (Unit {0})) (rest : Result E B) → Result E B
check >> rest = check >>= λ done. rest

-- A successful chain had a successful first step.
pub >>=-eq-ok {ℓ} :
    {E A B : Type ℓ} (r : Result E A) (next : A → Result E B) {last : B}
    → (r >>= next) ≡ ok last
    → (value : A) × (r ≡ ok value) × (next value ≡ ok last)
>>=-eq-ok (err stop) next h = cc
>>=-eq-ok (ok value) next h = (value, refl, h)

pub refuse_if-eq-ok :
    {E A : Type 0} (b : Bool) (e : E) (m : Result E A) (a : A)
    → (refuse_if b e >> m) ≡ ok a
    → (b ≡ false) × (m ≡ ok a)
refuse_if-eq-ok true e m a h = cc
refuse_if-eq-ok false e m a h = (refl, h)

pub refuse_if-ok : {E : Type 0} (b : Bool) (e : E) → (refuse_if b e ≡ ok tt) → b ≡ false
refuse_if-ok true e h = cc
refuse_if-ok false e h = refl
