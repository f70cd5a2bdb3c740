-- ===== src/Prelude/Lists.antt =====
-- Lists: length over the native numbers, loops that keep what passes a test, membership.
use Prim.Native.Nat.{ℕ, suc, ◌+◌}
use mathlib.Core.Path.{◌≡◌, refl}
use mathlib.Core.Logic.{◌↔◌, ◌⊎◌, inl, inr}
use mathlib.Core.Bool.{Bool, true, false}
use mathlib.Core.List.{List, [], ◌∷◌, ◌++◌}
use native.Mathlib.Omega.{arith}
use multivendor_hsm_pki.Prelude.Tests.{if◌then◌else◌, Bool-cases}

module _ {A : Type 0} where
  abbrev pub length : List A → ℕ
  length [] = 0
  length (x ∷ xs) = suc (length xs)

  -- `if p(x) { out = append(out, x) }` in a loop.
  unfoldable pub filter : (A → Bool) → List A → List A
  filter p [] = []
  filter p (x ∷ xs) = let rest = filter p xs in if p x then x ∷ rest else rest

  -- Membership by recursion, which the tactics read.
  abbrev pub Member : A → List A → Type 0
  Member a [] = ⊥
  Member a (x ∷ xs) = (a ≡ x) ⊎ Member a xs

  -- Every element, in order.
  abbrev pub All : (A → Type 0) → List A → Type 0
  All P [] = Unit
  All P (x ∷ xs) = P x × All P xs

  -- Some element passes the test.
  unfoldable pub any : (A → Bool) → List A → Bool
  any p [] = false
  any p (x ∷ xs) = let rest = any p xs in if p x then true else rest

module _ {A : Type 0} where
  pub List-cases : (xs : List A) → (xs ≡ []) ⊎ ((y : A) × (ys : List A) × (xs ≡ y ∷ ys))
  List-cases [] = inl refl
  List-cases (y ∷ ys) = inr (y, ys, refl)

  pub append-eq-nil : (xs ys : List A) → xs ++ ys ≡ [] → (xs ≡ []) × (ys ≡ [])
  append-eq-nil [] ys h = (refl, h)
  append-eq-nil (x ∷ xs) ys h = cc

  pub append-ne-nil : (xs : List A) (y : A) → ¬ (xs ++ y ∷ [] ≡ [])
  append-ne-nil [] y h = cc
  append-ne-nil (x ∷ xs) y h = cc

  pub length-append : (xs ys : List A) → length (xs ++ ys) ≡ length xs + length ys
  length-append [] ys = omega arith
  length-append (x ∷ xs) ys = omega (arith, length-append xs ys)

  pub All-member : (P : A → Type 0) (a : A) (xs : List A) → All P xs → Member a xs → P a
  All-member P a [] h m = absurd m
  All-member P a (x ∷ xs) h m = elim m [ inl e ↦ (rw e h.0) | inr m' ↦ All-member P a xs h.1 m' ]

  pub All-append : (P : A → Type 0) (xs ys : List A) → All P xs → All P ys → All P (xs ++ ys)
  All-append P [] ys hx hy = hy
  All-append P (x ∷ xs) ys hx hy = (hx.0, All-append P xs ys hx.1 hy)

  pub Member-append : (a : A) (xs ys : List A) → Member a (xs ++ ys) → Member a xs ⊎ Member a ys
  Member-append a [] ys m = inr m
  Member-append a (x ∷ xs) ys m = ground (arith, Member-append a xs ys)

  pub Member-append_left : (a : A) (xs ys : List A) → Member a xs → Member a (xs ++ ys)
  Member-append_left a [] ys m = absurd m
  Member-append_left a (x ∷ xs) ys m = ground (arith, Member-append_left a xs ys)

  pub Member-append_right : (a : A) (xs ys : List A) → Member a ys → Member a (xs ++ ys)
  Member-append_right a [] ys m = m
  Member-append_right a (x ∷ xs) ys m = inr (Member-append_right a xs ys m)

module _ {A : Type 0} (p : A → Bool) where
  pub Member-filter : (a : A) (xs : List A) → Member a (filter p xs) → Member a xs × (p a ≡ true)
  unfolding filter
  Member-filter a [] m = absurd m
  Member-filter a (x ∷ xs) m = ground (arith, Member-filter a xs)

  pub filter-Member : (a : A) (xs : List A) → Member a xs → p a ≡ true → Member a (filter p xs)
  unfolding filter
  filter-Member a [] m h = absurd m
  filter-Member a (x ∷ xs) m h = ground (arith, filter-Member a xs)

  pub filter-eq-nil : (xs : List A) → (filter p xs ≡ []) ↔ All (λ x. p x ≡ false) xs
  unfolding filter
  filter-eq-nil [] = ((λ h. tt), (λ h. refl))
  filter-eq-nil (x ∷ xs) =
      ((λ h. ground (arith, (filter-eq-nil xs).0)), (λ h. ground (arith, (filter-eq-nil xs).1)))

  pub any-Member : (a : A) (xs : List A) → Member a xs → p a ≡ true → any p xs ≡ true
  unfolding any
  any-Member a [] m h = absurd m
  any-Member a (x ∷ xs) m h = ground (arith, any-Member a xs)

  pub any_found : (xs : List A) → any p xs ≡ true → (a : A) × Member a xs × (p a ≡ true)
  unfolding any
  any_found [] h = absurd (ground arith)
  any_found (x ∷ xs) h = elim (Bool-cases (p x)) [
    | inl t ↦ (x, inl refl, t)
    | inr f ↦ (let (a, m, t) = any_found xs (ground arith) in (a, inr m, t))
  ]

-- Every two elements, the earlier one first.
abbrev pub Pairwise : {A : Type 0} → (A → A → Type 0) → List A → Type 0
Pairwise R [] = Unit
Pairwise R (x ∷ xs) = All (R x) xs × Pairwise R xs

pub length_zero : {A : Type 0} (xs : List A) → (length xs ≡ 0) ↔ (xs ≡ [])
length_zero [] = ((λ h. refl), (λ h. refl))
length_zero (x ∷ xs) = ((λ h. absurd (omega (arith, h))), (λ h. cc))
