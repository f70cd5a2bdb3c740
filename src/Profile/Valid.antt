-- ===== src/Profile/Valid.antt =====
-- When Set.Validate of internal/profile/profile.go accepts a set, and loadProfiles of
-- internal/config/config.go, which compiles a configured set or takes the built-in one.
use multivendor_hsm_pki.Prelude.{
  ℕ, ◌<◌, ◌≤◌, ◌*◌, ◌≡◌, ◌≢◌, ◌↔◌, ◌⊎◌, inl, inr, refl, ap, ◌∙◌, true, false, ◌&&◌, not, String,
  Option, none, some, [], ◌∷◌, ◌==◌, string_eq, pos, negsuc, Result, ok, ◌>>=◌, ◌>>◌,
  refuse_if-eq-ok, refuse_if-ok, >>=-eq-ok, length, length_zero, nat_beq, All, All-member,
  lookup-Member, Assoc, lookup, arith,
}
use multivendor_hsm_pki.Clock.{Duration, exceeds, hours, hours_exact, hour, wrap64}
use multivendor_hsm_pki.Profile.{
  Profile, Set, ProfileError, validate_profile, check_profile, check_profiles, validate_set,
  other_name, above_ceiling, no_profiles,
}
use multivendor_hsm_pki.Profile.Builtin.{builtin}
use multivendor_hsm_pki.Profile.Vocabulary.{Spec, parse_profiles}
use multivendor_hsm_pki.Profile.Configured.{IsSound, validate_profile_iff}

-- The entry is a sound profile under its own name, below the ceiling if there is one.
abbrev pub InForce : Duration → String × Option Profile → Type 0
InForce ceiling (name, found) =
    (p : Profile) × (found ≡ some p)
    × (p.name ≡ name)
    × IsSound p
    × ((exceeds ceiling (pos 0) ≡ false) ⊎ (exceeds p.validity ceiling ≡ false))

abbrev some_profile : Profile → Option Profile
some_profile p = some p

one_profile : {p q : Profile} → some_profile p ≡ some q → q ≡ p
one_profile h = ground arith

check_profile_iff :
    (ceiling : Duration) (name : String) (found : Option Profile)
    → (check_profile ceiling name found ≡ ok tt) ↔ InForce ceiling (name, found)
unfolding check_profile
check_profile_iff ceiling name none = ((λ h. cc), (λ h. cc))
check_profile_iff ceiling name (some p) = (
  (λ h.
      let (named, h1) = refuse_if-eq-ok (not (p.name == name)) (other_name name p.name) _ tt h in
      let (_, sound, h2) = >>=-eq-ok (validate_profile p) _ h1 in
      let below =
        refuse_if-ok (exceeds ceiling (pos 0) && exceeds p.validity ceiling) (above_ceiling name)
          h2 in
      (
        p,
        refl,
        (string_eq.beq_iff p.name name).0 (ground arith),
        (validate_profile_iff p).0 sound,
        ground arith,
      )),
  (λ (q, same, named, sound, below).
      let q_is : q ≡ p = one_profile same in
      let p_named : (p.name == name) ≡ true =
        (string_eq.beq_iff p.name name).1 (rw q_is at named) in
      let p_sound : validate_profile p ≡ ok tt = (validate_profile_iff p).1 (rw q_is at sound) in
      let p_below : (exceeds ceiling (pos 0) && exceeds p.validity ceiling) ≡ false =
        ground arith in
      rw (p_named, p_sound, p_below) refl),
)

check_profiles_iff :
    (ceiling : Duration) (set : Set)
    → (check_profiles ceiling set ≡ ok tt) ↔ All (InForce ceiling) set
unfolding check_profiles
check_profiles_iff ceiling [] = ((λ h. tt), (λ h. refl))
check_profiles_iff ceiling ((name, found) ∷ rest) = (
  (λ h.
      let (_, first, h1) = >>=-eq-ok (check_profile ceiling name found) _ h in
      ((check_profile_iff ceiling name found).0 first, (check_profiles_iff ceiling rest).0 h1)),
  (λ (first, others).
      rw ((check_profile_iff ceiling name found).1 first)
        ((check_profiles_iff ceiling rest).1 others)),
)

-- A set of profiles is accepted exactly if it is not empty and each entry is a profile under its own name
-- that has a name, an extended key usage, a key usage, none of the two usages of a certificate authority,
-- a positive validity, a key algorithm, a type of name if it requires one, a subject attribute unless it
-- does, only known attributes, and a validity that a positive ceiling is not below.
pub validate_set_iff :
    (ceiling : Duration) (set : Set)
    → (validate_set ceiling set ≡ ok tt) ↔ ((set ≢ []) × All (InForce ceiling) set)
unfolding validate_set
validate_set_iff ceiling set = (
  (λ h.
      let (some_there, h1) = refuse_if-eq-ok (nat_beq (length set) 0) no_profiles _ tt h in
      (ground (arith, length_zero set), (check_profiles_iff ceiling set).0 h1)),
  (λ (some_there, all).
      let not_empty : nat_beq (length set) 0 ≡ false = ground (arith, length_zero set) in
      rw not_empty ((check_profiles_iff ceiling set).1 all)),
)

-- The profiles that loadProfiles starts from: those that are configured, or the built-in ones.
unfoldable pub chosen_profiles : Option (Assoc String Spec) → Result ProfileError Set
chosen_profiles none = ok builtin
chosen_profiles (some specs) = parse_profiles specs

-- loadProfiles
unfoldable pub load_profiles : Option (Assoc String Spec) → Duration → Result ProfileError Set
load_profiles specs ceiling = do set ← chosen_profiles specs; validate_set ceiling set; ok set

-- A profile that stands in a loaded set.
pub loaded-InForce :
    (specs : Option (Assoc String Spec)) (ceiling : Duration) (set : Set) (name : String)
    (found : Option Profile)
    → load_profiles specs ceiling ≡ ok set
    → lookup name set ≡ some found
    → InForce ceiling (name, found)
unfolding load_profiles
loaded-InForce specs ceiling set name found h at =
    let (chosen, h1, h2) = >>=-eq-ok (chosen_profiles specs) _ h in
    let (_, valid, h3) = >>=-eq-ok (validate_set ceiling chosen) _ h2 in
    let same : chosen ≡ set = ground (arith, h3) in
    let all = ((validate_set_iff ceiling chosen).0 valid).1 in
    All-member (InForce ceiling) (name, found) chosen all
      (lookup-Member name found chosen (ap (lookup name) same ∙ at))

positive_duration : (d : Duration) → exceeds d (pos 0) ≡ true → (n : ℕ) × (d ≡ pos n) × (0 < n)
positive_duration (pos n) h = (n, refl, ground arith)
positive_duration (negsuc n) h = cc

-- With a ceiling of 1 to 2562047 hours, every profile of a set that loads lasts, and no longer than the
-- ceiling.
pub loaded_validity_bounded :
    (specs : Option (Assoc String Spec)) (n : ℕ) (set : Set) (name : String)
    (found : Option Profile)
    → 0 < n
    → n ≤ 2562047
    → load_profiles specs (hours (pos n)) ≡ ok set
    → lookup name set ≡ some found
    → (p : Profile) × (d : ℕ) × (found ≡ some p) × (p.validity ≡ pos d) × (0 < d) × (d ≤ n * hour)
loaded_validity_bounded specs n set name found some_hours in_range h at =
    let (p, here, _, sound, below) = loaded-InForce specs (hours (pos n)) set name found h at in
    let (_, _, _, _, _, lasts, _, _, _, _) = sound in
    let (d, e, b) = positive_duration p.validity lasts in
    let ceiling = hours_exact n in_range in
    let is_set : exceeds (hours (pos n)) (pos 0) ≡ true = rw ceiling (ground arith) in
    let under : exceeds (pos d) (pos (n * hour)) ≡ false = elim below [
      | inl unset ↦ cc
      | inr kept ↦ (rw (e, ceiling) at kept)
    ] in
    (p, d, here, e, b, ground arith)

-- From 2562048 to 5124095 hours the product with time.Hour wraps around.
hours_wrap : (n : ℕ) → 2562048 ≤ n → n ≤ 5124095 → exceeds (hours (pos n)) (pos 0) ≡ false
unfolding hours wrap64
hours_wrap n low high = ground arith

check_profile-unset :
    (ceiling : Duration) (name : String) (found : Option Profile)
    → exceeds ceiling (pos 0) ≡ false
    → check_profile ceiling name found ≡ check_profile (pos 0) name found
unfolding check_profile
check_profile-unset ceiling name none unset = refl
check_profile-unset ceiling name (some p) unset = rw unset refl

check_profiles-unset :
    (ceiling : Duration) (set : Set)
    → exceeds ceiling (pos 0) ≡ false
    → check_profiles ceiling set ≡ check_profiles (pos 0) set
unfolding check_profiles
check_profiles-unset ceiling [] unset = refl
check_profiles-unset ceiling ((name, found) ∷ rest) unset =
    rw (check_profile-unset ceiling name found unset, check_profiles-unset ceiling rest unset) refl

-- With a ceiling of 2562048 to 5124095 hours, a set of profiles is accepted exactly if it is accepted with a
-- ceiling of zero, which is none: the ceiling that is configured bounds no validity.
pub wrapped_ceiling_unset :
    (n : ℕ) (set : Set)
    → 2562048 ≤ n
    → n ≤ 5124095
    → (validate_set (hours (pos n)) set ≡ ok tt) ↔ (validate_set (pos 0) set ≡ ok tt)
unfolding validate_set
wrapped_ceiling_unset n set low high =
    rw (check_profiles-unset (hours (pos n)) set (hours_wrap n low high)) ((λ h. h), (λ h. h))
