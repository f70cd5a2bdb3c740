-- ===== src/VulnGate/Covers.antt =====
-- What `covers` finds: an exception that is listed under one of the ids and has not expired.
use multivendor_hsm_pki.Prelude.{
  ◌<◌, ◌≡◌, refl, not, String, none, some, List, [], ◌∷◌, arith, ◌⊎◌, inl, inr, string_eq, lookup,
  Member, Option-cases, Bool-cases,
}
use multivendor_hsm_pki.Clock.{Time}
use multivendor_hsm_pki.VulnGate.{AllowEntry, Allowlist, expired, add_hit, covers}

-- The entry that is listed under the id, with an expiry after `now`.
abbrev pub InForce : Allowlist → Time → String → AllowEntry → Type 0
InForce a now id e = (lookup id a.by_id ≡ some e) × (now < e.expiry)

abbrev pub Covered : Allowlist → Time → List String → AllowEntry → Type 0
Covered a now ids e = (id : String) × Member id ids × InForce a now id e

-- The list with the hit of an entry.
abbrev pub with_hit : AllowEntry → Allowlist → Allowlist
with_hit e a = record a { hits = add_hit e.raw.id a.hits }

abbrev pub NotFound : Allowlist → Time → List String → Type 0
NotFound a now ids = (covers a now ids ≡ (a, none)) × ((e : AllowEntry) → ¬ Covered a now ids e)

abbrev pub Found : Allowlist → Time → List String → Type 0
Found a now ids =
    (e : AllowEntry) × (covers a now ids ≡ (with_hit e a, some e)) × Covered a now ids e

-- One id that names nothing in force is skipped.
skip_id :
    (a : Allowlist) (now : Time) (id : String) (ids : List String)
    → ((e : AllowEntry) → ¬ InForce a now id e)
    → covers a now (id ∷ ids) ≡ covers a now ids
unfolding covers expired
skip_id a now id ids none_here = elim (Option-cases (lookup id a.by_id)) [
  | inl unknown ↦ ground (arith, unknown)
  | inr (e, known) ↦ elim (Bool-cases (not (expired e now))) [
    | inl live ↦ absurd (none_here e (known, ground (arith, live)))
    | inr dead ↦ ground (arith, known, dead)
  ]
]

take_id :
    (a : Allowlist) (now : Time) (id : String) (ids : List String) (e : AllowEntry)
    → InForce a now id e
    → covers a now (id ∷ ids) ≡ (with_hit e a, some e)
unfolding covers expired
take_id a now id ids e (known, live) = ground (arith, known, live)

in_force? :
    (a : Allowlist) (now : Time) (id : String)
    → ((e : AllowEntry) × InForce a now id e) ⊎ ((e : AllowEntry) → ¬ InForce a now id e)
unfolding expired
in_force? a now id = elim (Option-cases (lookup id a.by_id)) [
  | inl unknown ↦ inr (λ e h. ground (arith, unknown, h.0))
  | inr (e, known) ↦ elim (Bool-cases (not (expired e now))) [
    | inl live ↦ inl (e, (known, ground (arith, live)))
    | inr dead ↦ inr (λ e' h. ground (arith, known, h.0, h.1, dead))
  ]
]

-- `covers` either finds nothing, changes nothing, and then no id names an exception in force; or it
-- returns an exception in force that one of the ids names, and records a hit for it and nothing
-- else.
pub covers_exact :
    (a : Allowlist) (now : Time) (ids : List String) → NotFound a now ids ⊎ Found a now ids
covers_exact a now [] = inl ((unfold covers in refl), (λ e c. absurd c.1))
covers_exact a now (id ∷ ids) = elim (in_force? a now id) [
  | inl (e, here) ↦ inr (e, take_id a now id ids e here, (id, inl refl, here))
  | inr none_here ↦
      let step = skip_id a now id ids none_here in
      elim (covers_exact a now ids) [
        | inl (nothing, none_there) ↦ inl (
          rw step nothing,
          (λ e (i, m, f). elim m [
            | inl same ↦ none_here e (rw (← same) f)
            | inr m' ↦ none_there e (i, m', f)
          ]),
        )
        | inr (e, found, (i, m, f)) ↦ inr (e, rw step found, (i, inr m, f))
      ]
]

pub by_id-covers :
    (a : Allowlist) (now : Time) (ids : List String) → (covers a now ids).0.by_id ≡ a.by_id
unfolding covers
by_id-covers a now [] = refl
by_id-covers a now (id ∷ ids) = ground (arith, by_id-covers a now ids)

pub entries-covers :
    (a : Allowlist) (now : Time) (ids : List String) → (covers a now ids).0.entries ≡ a.entries
unfolding covers
entries-covers a now [] = refl
entries-covers a now (id ∷ ids) = ground (arith, entries-covers a now ids)

-- The hits of a list do not change what it covers.
pub covers_of_by_id :
    (a b : Allowlist) (now : Time) (ids : List String)
    → a.by_id ≡ b.by_id
    → (covers a now ids).1 ≡ (covers b now ids).1
unfolding covers
covers_of_by_id a b now [] e = refl
covers_of_by_id a b now (id ∷ ids) e = ground (arith, covers_of_by_id a b now ids)
