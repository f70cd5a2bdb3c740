-- ===== src/Prelude/Maps.antt =====
-- Go maps and sets as association lists: a key is listed once, in the order of insertion.
use mathlib.Core.Path.{◌≡◌, refl, sym}
use mathlib.Core.Logic.{◌↔◌, ◌≢◌, inl, inr}
use mathlib.Core.Bool.{Bool, true, false, ◌||◌}
use mathlib.Core.List.{List, [], ◌∷◌}
use mathlib.Core.Option.{Option, none, some}
use native.Mathlib.Omega.{arith}
use multivendor_hsm_pki.Prelude.Tests.{if◌then◌else◌, Bool-cases}
use multivendor_hsm_pki.Prelude.Lists.{Member}
use multivendor_hsm_pki.Prelude.Classes.{Eq, ◌==◌}

abbrev pub Assoc : Type 0 → Type 0 → Type 0
Assoc K V = List (K × V)

module _ {K : Type 0} ⦃e : Eq K⦄ where
  -- `set[k]` of a set of keys
  unfoldable pub contains : List K → K → Bool
  contains [] k = false
  contains (x ∷ xs) k = x == k || contains xs k

module _ {K V : Type 0} ⦃e : Eq K⦄ where
  -- `m[k] = v`
  unfoldable pub insert : K → V → Assoc K V → Assoc K V
  insert k v [] = (k, v) ∷ []
  insert k v ((x, old) ∷ rest) =
      let below = insert k v rest in if x == k then (k, v) ∷ rest else (x, old) ∷ below

  -- `v, ok := m[k]`
  unfoldable pub lookup : K → Assoc K V → Option V
  lookup k [] = none
  lookup k ((x, found) ∷ rest) = let below = lookup k rest in if x == k then some found else below

  pub lookup-insert :
      (k : K) (j : K) (v : V) (m : Assoc K V)
      → lookup j (insert k v m) ≡ (if k == j then some v else lookup j m)
  unfolding insert lookup
  lookup-insert k j v [] = refl
  lookup-insert k j v ((x, old) ∷ rest) =
      ground (lookup-insert k j v rest, e.beq_iff x k, e.beq_iff x j, e.beq_iff k j, arith)

  pub lookup-insert-none :
      (k j : K) (v : V) (m : Assoc K V)
      → (lookup j (insert k v m) ≡ none) ↔ ((k ≢ j) × (lookup j m ≡ none))
  lookup-insert-none k j v m = rw lookup-insert (
    (λ h. (ground (arith, e.beq_iff k j), ground arith)),
    (λ h. ground (arith, h.0, h.1, e.beq_iff k j)),
  )

module _ {K : Type 0} ⦃e : Eq K⦄ where
  pub contains-cons_false :
      (x k : K) (xs : List K) → (contains (x ∷ xs) k ≡ false) ↔ ((x ≢ k) × (contains xs k ≡ false))
  unfolding contains
  contains-cons_false x k xs =
      ((λ h. (ground (arith, e.beq_iff x k), ground arith)), (λ h. ground (arith, e.beq_iff x k)))

  pub contains-Member : (k : K) (xs : List K) → (contains xs k ≡ true) ↔ Member k xs
  unfolding contains
  contains-Member k [] = ((λ h. absurd (ground arith)), (λ h. absurd h))
  contains-Member k (x ∷ xs) = (
    (λ h. ground (arith, e.beq_iff x k, (contains-Member k xs).0)),
    (λ h. ground (arith, e.beq_iff x k, (contains-Member k xs).1)),
  )

module _ {K V : Type 0} ⦃e : Eq K⦄ where
  pub lookup-Member : (k : K) (v : V) (m : Assoc K V) → lookup k m ≡ some v → Member (k, v) m
  unfolding lookup
  lookup-Member k v [] h = cc
  lookup-Member k v ((x, found) ∷ rest) h = elim (Bool-cases (x == k)) [
    | inl same ↦ inl (same_entry (sym ((e.beq_iff x k).0 same)) (ground arith))
    | inr other ↦ inr (lookup-Member k v rest (ground arith))
  ]
    where
      entry : K → V → K × V
      entry a c = (a, c)

      same_entry : {a b : K} {c d : V} → a ≡ b → d ≡ c → entry a c ≡ entry b d
      same_entry p q = cc
