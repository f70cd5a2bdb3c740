-- ===== src/Entitlement/Loops.antt =====
-- What the loops of Spec.Compile accept (internal/entitlement/entitlement.go).
use multivendor_hsm_pki.Prelude.{
  ◌≡◌, ◌≢◌, ◌↔◌, ◌⊎◌, refl, sym, ap, ◌∙◌, true, false, ◌&&◌, not, String, List, [], ◌∷◌, ◌++◌,
  append_assoc, append-nil, ◌==◌, string_eq, arith, inl, inr, ok, >>=-eq-ok, refuse_if-eq-ok,
  contains, contains-cons_false, Member, All, All-member, Pairwise,
}
use multivendor_hsm_pki.Entitlement.{
  Net, Pattern, empty_profile, internal_only, listed_twice, parse_pattern, is_internal_only,
  internal_only_profile,
}
use multivendor_hsm_pki.Entitlement.Compile.{compile_profiles, compile_names}

-- A profile that a client may be granted.
abbrev pub Grantable : String → Type 0
Grantable name = (name ≢ "") × (name ≢ internal_only_profile)

-- The patterns are the texts, parsed, in order.
abbrev pub Parsed : (net : Net) → List String → List (Pattern net) → Type 0
Parsed net [] [] = Unit
Parsed net (raw ∷ raws) (p ∷ ps) = (parse_pattern net raw ≡ ok p) × Parsed net raws ps
Parsed net _ _ = ⊥

split_granted :
    (n : String) (granted ns : List String)
    → All (λ k. contains (n ∷ granted) k ≡ false) ns
    → All (λ k. contains granted k ≡ false) ns × All (λ k. n ≢ k) ns
split_granted n granted [] h = (tt, tt)
split_granted n granted (k ∷ ks) (new, news) =
    let (apart, old) = (contains-cons_false n k granted).0 new in
    let (olds, aparts) = split_granted n granted ks news in ((old, olds), (apart, aparts))

join_granted :
    (n : String) (granted ns : List String)
    → All (λ k. contains granted k ≡ false) ns
    → All (λ k. n ≢ k) ns
    → All (λ k. contains (n ∷ granted) k ≡ false) ns
join_granted n granted [] h g = tt
join_granted n granted (k ∷ ks) (old, olds) (apart, aparts) =
    ((contains-cons_false n k granted).1 (apart, old), join_granted n granted ks olds aparts)

-- The profiles that a list adds to those granted.
grants_cons :
    (out granted : List String) (n : String) (ns : List String) (k : String)
    → (contains out k ≡ true) ↔ ((contains (n ∷ granted) k ≡ true) ⊎ Member k ns)
    → (contains out k ≡ true) ↔ ((contains granted k ≡ true) ⊎ Member k (n ∷ ns))
unfolding contains
grants_cons out granted n ns k g = (
  (λ h. ground (arith, g.0, h, string_eq.beq_iff n k)),
  (λ h. ground (arith, g.1, h, string_eq.beq_iff n k)),
)

pub profiles_sound :
    (identity : String) (names granted out : List String)
    → compile_profiles identity names granted ≡ ok out
    → All Grantable names
      × All (λ n. contains granted n ≡ false) names
      × Pairwise (λ a b. a ≢ b) names
      × ((k : String) → (contains out k ≡ true) ↔ ((contains granted k ≡ true) ⊎ Member k names))
unfolding compile_profiles
profiles_sound identity [] granted out h =
    let same : granted ≡ out = ground arith in
    (tt, tt, tt, (λ k. rw same ((λ m. inl m), (λ m. elim m [ inl c ↦ c | inr x ↦ absurd x ]))))
profiles_sound identity (n ∷ ns) granted out h =
    let (named, h1) = refuse_if-eq-ok (n == "") (empty_profile identity) _ out h in
    let (client, h2) = refuse_if-eq-ok (is_internal_only n) (internal_only identity n) _ out h1 in
    let (new, h3) = refuse_if-eq-ok (contains granted n) (listed_twice identity n) _ out h2 in
    let (good, news, apart, grants) = profiles_sound identity ns (n ∷ granted) out h3 in
    let (olds, aparts) = split_granted n granted ns news in
    (
      (
        (
          ground (arith, named, string_eq.beq_iff n ""),
          ground (arith, client, string_eq.beq_iff n internal_only_profile),
        ),
        good,
      ),
      (new, olds),
      (aparts, apart),
      (λ k. grants_cons out granted n ns k (grants k)),
    )

pub profiles_complete :
    (identity : String) (names granted : List String)
    → All Grantable names
    → All (λ n. contains granted n ≡ false) names
    → Pairwise (λ a b. a ≢ b) names
    → (out : List String) × (compile_profiles identity names granted ≡ ok out)
unfolding compile_profiles
profiles_complete identity [] granted good news apart = (granted, refl)
profiles_complete identity (n ∷ ns) granted ((named, client), good) (new, news) (here, apart) =
    let (out, e) =
      profiles_complete identity ns (n ∷ granted) good (join_granted n granted ns news here)
        apart in
    let a : (n == "") ≡ false = ground (arith, string_eq.beq_iff n "") in
    let b : is_internal_only n ≡ false =
      ground (arith, string_eq.beq_iff n internal_only_profile) in
    (out, rw (a, b, new) e)

pub nothing_granted : (names : List String) → All (λ n. contains [] n ≡ false) names
unfolding contains
nothing_granted [] = tt
nothing_granted (n ∷ ns) = (refl, nothing_granted ns)

-- None of the profiles listed is the internal one.
pub grants_iff :
    (name : String) (out names : List String)
    → All Grantable names
    → (contains out name ≡ true) ↔ ((contains [] name ≡ true) ⊎ Member name names)
    → (contains out name && not (is_internal_only name) ≡ true) ↔ Member name names
unfolding contains
grants_iff name out names good g = (
  (λ h. ground (arith, g.0)),
  (λ m.
      let (_, client) = All-member Grantable name names good m in
      ground (arith, g.1 (inr m), client, string_eq.beq_iff name internal_only_profile)),
)

module _ (net : Net) where
  pub names_sound :
      (raws : List String) (patterns out : List (Pattern net))
      → compile_names net raws patterns ≡ ok out
      → (ps : List (Pattern net)) × (out ≡ patterns ++ ps) × Parsed net raws ps
  unfolding compile_names
  names_sound [] patterns out h = ([], ground (arith, append-nil patterns), tt)
  names_sound (raw ∷ raws) patterns out h =
      let (p, e, h1) = >>=-eq-ok (parse_pattern net raw) _ h in
      let (ps, kept, parsed) = names_sound raws (patterns ++ p ∷ []) out h1 in
      (p ∷ ps, kept ∙ append_assoc patterns (p ∷ []) ps, (e, parsed))

  pub names_complete :
      (raws : List String) (ps patterns : List (Pattern net))
      → Parsed net raws ps
      → compile_names net raws patterns ≡ ok (patterns ++ ps)
  unfolding compile_names
  names_complete [] [] patterns parsed = ap ok (sym (append-nil patterns))
  names_complete [] (p ∷ ps) patterns parsed = absurd parsed
  names_complete (raw ∷ raws) [] patterns parsed = absurd parsed
  names_complete (raw ∷ raws) (p ∷ ps) patterns (e, parsed) = rw e (
      names_complete raws ps (patterns ++ p ∷ []) parsed
      ∙ ap ok (append_assoc patterns (p ∷ []) ps))
