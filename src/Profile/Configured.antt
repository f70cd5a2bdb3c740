-- ===== src/Profile/Configured.antt =====
-- What a profile that compiles may assert, and when a set of profiles is valid.
use multivendor_hsm_pki.Prelude.{
  ℕ, ◌≡◌, ◌≢◌, ◌↔◌, ◌⊎◌, inl, inr, refl, sym, ◌∙◌, ap, Bool, true, false, ◌&&◌, ◌||◌, not, String,
  some, List, [], ◌∷◌, ◌==◌, string_eq, beq_ne, beq_refl, pos, Result, ok, refuse_if-eq-ok,
  >>=-eq-ok, length, length_zero, nat_beq, contains, Member, All, All-member, lookup-Member, Assoc,
  lookup, Option-cases, arith,
}
use multivendor_hsm_pki.Clock.{exceeds, hours}
use multivendor_hsm_pki.Profile.{
  KeyUsage, no_usage, union, asserts_some, Profile, rdn_oids, ProfileError, check_rdns,
  validate_profile, empty_name, no_ext_key_usage, no_key_usage, ca_key_usage, validity_not_positive,
  no_key_algorithm, no_san_type, names_nothing,
}
use multivendor_hsm_pki.Profile.Vocabulary.{
  Spec, word, read_words, read_usages, key_usage_names, ext_key_usage_names, san_type_names,
  key_algorithm_names, compile_spec,
}

-- The flags that the words of a list stand for.
abbrev pub usages_of : List String → KeyUsage
usages_of ns = record no_usage {
  digital_signature = contains ns "digitalSignature";
  content_commitment = contains ns "contentCommitment";
  key_encipherment = contains ns "keyEncipherment";
  key_agreement = contains ns "keyAgreement";
}

or_assoc : (a b c : Bool) → ((a || b) || c) ≡ (a || (b || c))
or_assoc a b c = ground arith

or-false_right : (a : Bool) → (a || false) ≡ a
or-false_right a = ground arith

abbrev usage_result : KeyUsage → Result ProfileError KeyUsage
usage_result u = ok u

word_found :
    {V : Type 0} (names : Assoc String V) (n : String) (v : V)
    → word names n ≡ ok v
    → Member (n, v) names
unfolding word
word_found names n v h = elim (Option-cases (lookup n names)) [
  | inl unknown ↦ ground (arith, unknown)
  | inr (w, known) ↦ lookup-Member n v names (ground (arith, known))
]

abbrev IsFlagOf : String × KeyUsage → Type 0
IsFlagOf (n, v) = v ≡ usages_of (n ∷ [])

all_flags : All IsFlagOf key_usage_names
unfolding contains
all_flags = (refl, (refl, (refl, (refl, tt))))

word_usage : (n : String) (v : KeyUsage) → word key_usage_names n ≡ ok v → v ≡ usages_of (n ∷ [])
unfolding contains
word_usage n v h =
    All-member IsFlagOf (n, v) key_usage_names all_flags (word_found key_usage_names n v h)

union_usages :
    (n : String) (ns : List String) (u : KeyUsage)
    → union (union u (usages_of (n ∷ []))) (usages_of ns) ≡ union u (usages_of (n ∷ ns))
unfolding union contains
union_usages n ns u = simp (or_assoc, or-false_right)

union-no_usage : (u : KeyUsage) → union u (usages_of []) ≡ u
unfolding union contains
union-no_usage u = simp or-false_right

no_usage-union : (ns : List String) → union no_usage (usages_of ns) ≡ usages_of ns
unfolding union
no_usage-union ns = refl

ok_here : {u w : KeyUsage} → usage_result u ≡ ok w → u ≡ w
ok_here h = ground arith

read_usages_adds :
    (ns : List String) (u w : KeyUsage) → read_usages ns u ≡ ok w → w ≡ union u (usages_of ns)
unfolding read_usages
read_usages_adds [] u w h = sym (ok_here h) ∙ sym (union-no_usage u)
read_usages_adds (n ∷ ns) u w h =
    let (v, known, later) = >>=-eq-ok (word key_usage_names n) _ h in
    read_usages_adds ns (union u v) w later
    ∙ ap (λ x. union (union u x) (usages_of ns)) (word_usage n v known)
    ∙ union_usages n ns u

-- What Validate asks of a profile.
abbrev pub IsSound : Profile → Type 0
IsSound p =
    (p.name ≢ "")
    × (p.ext_key_usages ≢ [])
    × (asserts_some p.key_usage ≡ true)
    × (p.key_usage.cert_sign ≡ false)
    × (p.key_usage.crl_sign ≡ false)
    × (exceeds p.validity (pos 0) ≡ true)
    × (p.key_algorithms ≢ [])
    × ((p.san_required ≡ false) ⊎ (p.san_types ≢ []))
    × ((p.subject_rdns ≢ []) ⊎ (p.san_required ≡ true))
    × All (λ rdn. (oid : List ℕ) × (lookup rdn rdn_oids ≡ some oid)) p.subject_rdns

check_rdns_iff :
    (rdns : List String)
    → (check_rdns rdns ≡ ok tt)
      ↔ All (λ rdn. (oid : List ℕ) × (lookup rdn rdn_oids ≡ some oid)) rdns
unfolding check_rdns
check_rdns_iff [] = ((λ h. tt), (λ h. refl))
check_rdns_iff (rdn ∷ rdns) = elim (Option-cases (lookup rdn rdn_oids)) [
  | inl unknown ↦ rw unknown ((λ h. cc), (λ h. cc))
  | inr (oid, known) ↦
      rw known ((λ h. ((oid, refl), (check_rdns_iff rdns).0 h)), (λ h. (check_rdns_iff rdns).1 h.1))
]

pub validate_profile_iff : (p : Profile) → (validate_profile p ≡ ok tt) ↔ IsSound p
unfolding validate_profile
validate_profile_iff p = (
  (λ h.
      let (named, h1) = refuse_if-eq-ok (p.name == "") empty_name _ tt h in
      let (ekus, h2) =
        refuse_if-eq-ok (nat_beq (length p.ext_key_usages) 0) no_ext_key_usage _ tt h1 in
      let (asserts, h3) = refuse_if-eq-ok (not (asserts_some p.key_usage)) no_key_usage _ tt h2 in
      let (leaf, h4) =
        refuse_if-eq-ok (p.key_usage.cert_sign || p.key_usage.crl_sign) ca_key_usage _ tt h3 in
      let (lasting, h5) =
        refuse_if-eq-ok (not (exceeds p.validity (pos 0))) validity_not_positive _ tt h4 in
      let (keys, h6) =
        refuse_if-eq-ok (nat_beq (length p.key_algorithms) 0) no_key_algorithm _ tt h5 in
      let (sans, h7) =
        refuse_if-eq-ok (p.san_required && nat_beq (length p.san_types) 0) no_san_type _ tt h6 in
      let (names, h8) =
        refuse_if-eq-ok (nat_beq (length p.subject_rdns) 0 && not p.san_required) names_nothing _ tt
          h7 in
      (
        ground (arith, beq_refl p.name),
        ground (arith, length_zero p.ext_key_usages),
        ground arith,
        ground arith,
        ground arith,
        ground arith,
        ground (arith, length_zero p.key_algorithms),
        ground (arith, length_zero p.san_types),
        ground (arith, length_zero p.subject_rdns),
        (check_rdns_iff p.subject_rdns).0 h8,
      )),
  (λ (named, ekus, asserts, cert, crl, lasting, keys, sans, names, rdns).
      let no_ekus : nat_beq (length p.ext_key_usages) 0 ≡ false =
        ground (arith, length_zero p.ext_key_usages) in
      let no_keys : nat_beq (length p.key_algorithms) 0 ≡ false =
        ground (arith, length_zero p.key_algorithms) in
      let no_sans : (p.san_required && nat_beq (length p.san_types) 0) ≡ false =
        ground (arith, length_zero p.san_types) in
      let nothing : (nat_beq (length p.subject_rdns) 0 && not p.san_required) ≡ false =
        ground (arith, length_zero p.subject_rdns) in
      rw (beq_ne p.name "" named, no_ekus, asserts, cert, crl, lasting, no_keys, no_sans, nothing)
        ((check_rdns_iff p.subject_rdns).1 rdns)),
)

-- A profile that compiles has the name it is compiled under, and of its specification the requirement of a
-- name, the attributes of the subject and the hours as its validity; it asserts exactly the usages that the
-- specification names, and never one of a certificate authority.
pub compile_spec_exact :
    (s : Spec) (name : String) (p : Profile)
    → compile_spec s name ≡ ok p
    → (p.name ≡ name)
      × (p.key_usage ≡ usages_of s.key_usages)
      × (p.key_usage.cert_sign ≡ false)
      × (p.key_usage.crl_sign ≡ false)
      × (p.san_required ≡ s.san_required)
      × (p.subject_rdns ≡ s.subject)
      × (p.validity ≡ hours s.validity_hours)
unfolding compile_spec
compile_spec_exact s name p h =
    let (ekus, r1, h1) = >>=-eq-ok (read_words ext_key_usage_names s.extended_key_usages []) _ h in
    let (usage, r2, h2) = >>=-eq-ok (read_usages s.key_usages no_usage) _ h1 in
    let (sans, r3, h3) = >>=-eq-ok (read_words san_type_names s.san_types []) _ h2 in
    let (algorithms, r4, h4) =
      >>=-eq-ok (read_words key_algorithm_names s.key_algorithms []) _ h3 in
    let flags : usage ≡ usages_of s.key_usages =
      read_usages_adds s.key_usages no_usage usage r2 ∙ no_usage-union s.key_usages in
    (
      ground (arith, h4),
      ground (arith, h4, flags),
      ground (arith, h4, flags),
      ground (arith, h4, flags),
      ground (arith, h4),
      ground (arith, h4),
      ground (arith, h4),
    )
