-- ===== src/Entitlement/Granted.antt =====
-- What a compiled entitlement grants, and when a configured one compiles.
use multivendor_hsm_pki.Prelude.{
  ◌≡◌, ◌≢◌, ◌↔◌, ◌⊎◌, refl, sym, ap, ◌∙◌, true, false, String, some, List, [], ◌∷◌, ◌==◌, string_eq,
  arith, inl, inr, ok, >>=-eq-ok, refuse_if-eq-ok, Member, All, beq_refl, Pairwise, Assoc, lookup,
  insert, lookup-insert, Bool-cases, if◌then◌else◌,
}
use multivendor_hsm_pki.Text.{is_blank}
use multivendor_hsm_pki.Entitlement.{
  Net, Pattern, no_profile, no_name, empty_identity, Entitlement, internal_only_profile,
  permits_profile,
}
use multivendor_hsm_pki.Entitlement.Compile.{
  Spec, is_empty, compile_profiles, compile_names, compile, parse_specs, parse,
}
use multivendor_hsm_pki.Entitlement.Loops.{
  Grantable, Parsed, profiles_sound, profiles_complete, nothing_granted, grants_iff, names_sound,
  names_complete,
}

module _ (net : Net) where
  -- An entry compiles exactly if it lists a profile and a name, no profile is empty, internal or listed
  -- twice, and each name parses as a pattern.
  pub compile_iff :
      (identity : String) (s : Spec)
      → ((e : Entitlement net) × (compile net identity s ≡ ok e)) ↔ (
          (is_empty s.profiles ≡ false)
          × (is_empty s.names ≡ false)
          × All Grantable s.profiles
          × Pairwise (λ a b. a ≢ b) s.profiles
          × ((ps : List (Pattern net)) × Parsed net s.names ps))
  unfolding compile
  compile_iff identity s = (
    (λ (e, h).
        let (some_profile, h1) =
          refuse_if-eq-ok (is_empty s.profiles) (no_profile identity) _ e h in
        let (some_name, h2) = refuse_if-eq-ok (is_empty s.names) (no_name identity) _ e h1 in
        let (out, compiled, h3) = >>=-eq-ok (compile_profiles identity s.profiles []) _ h2 in
        let (names, parsed, _) = >>=-eq-ok (compile_names net s.names []) _ h3 in
        let (good, _, apart, _) = profiles_sound identity s.profiles [] out compiled in
        let (ps, _, all_parsed) = names_sound net s.names [] names parsed in
        (some_profile, some_name, good, apart, (ps, all_parsed))),
    (λ (some_profile, some_name, good, apart, (ps, parsed)).
        let (out, compiled) =
          profiles_complete identity s.profiles [] good (nothing_granted s.profiles) apart in
        (
          record { profiles = out; names = ps },
          rw (some_profile, some_name, compiled, names_complete net s.names ps [] parsed) refl,
        )),
  )

  -- An entry that compiles grants exactly the profiles that it lists, never the internal one, and its
  -- patterns are those that it lists, in order.
  compile_grants :
      (identity : String) (s : Spec) (e : Entitlement net)
      → compile net identity s ≡ ok e
      → ((name : String) → (permits_profile e name ≡ true) ↔ Member name s.profiles)
        × (permits_profile e internal_only_profile ≡ false)
        × Parsed net s.names e.names
  unfolding compile permits_profile
  compile_grants identity s e h =
      let (_, h1) = refuse_if-eq-ok (is_empty s.profiles) (no_profile identity) _ e h in
      let (_, h2) = refuse_if-eq-ok (is_empty s.names) (no_name identity) _ e h1 in
      let (out, compiled, h3) = >>=-eq-ok (compile_profiles identity s.profiles []) _ h2 in
      let (names, parsed, h4) = >>=-eq-ok (compile_names net s.names []) _ h3 in
      let (good, _, _, grants) = profiles_sound identity s.profiles [] out compiled in
      let (ps, same, all_parsed) = names_sound net s.names [] names parsed in
      let same_profiles : out ≡ e.profiles = ground (arith, h4) in
      let same_names : ps ≡ e.names = ground (arith, h4, same) in
      (
        (λ name. rw (sym same_profiles) (grants_iff name out s.profiles good (grants name))),
        ground (arith, beq_refl internal_only_profile),
        rw same_names at all_parsed,
      )

  Configured : Assoc String Spec → String → Entitlement net → Type 0
  Configured specs identity e =
      (spec : Spec) × Member (identity, spec) specs
      × (compile net identity spec ≡ ok e)
      × (is_blank identity ≡ false)

  nothing_at : (k : String) (e : Entitlement net) → lookup k [] ≡ some e → ⊥
  unfolding lookup
  nothing_at k e h = cc

  specs_found :
      (specs : Assoc String Spec) (m out : Assoc String (Entitlement net)) (k : String)
      (e : Entitlement net)
      → parse_specs net specs m ≡ ok out
      → lookup k out ≡ some e
      → (lookup k m ≡ some e) ⊎ Configured specs k e
  unfolding parse_specs Configured
  specs_found [] m out k e h found = inl (ground (arith, found))
  specs_found ((identity, spec) ∷ specs) m out k e h found =
      let (named, h1) = refuse_if-eq-ok (is_blank identity) empty_identity _ out h in
      let (f, compiled, h2) = >>=-eq-ok (compile net identity spec) _ h1 in
      elim (specs_found specs (insert identity f m) out k e h2 found) [
        | inl early ↦ this_or_before named f compiled (sym (lookup-insert identity k f m) ∙ early)
        | inr (later, member, c, n) ↦ inr (later, inr member, c, n)
      ]
    where
      this_or_before :
          is_blank identity ≡ false
          → (f : Entitlement net) → compile net identity spec ≡ ok f
          → (if identity == k then some f else lookup k m) ≡ some e
          → (lookup k m ≡ some e) ⊎ Configured ((identity, spec) ∷ specs) k e
      this_or_before named f compiled at_k = elim (Bool-cases (identity == k)) [
        | inr other ↦ inl (ground (arith, other, at_k))
        | inl same ↦
            (let here : identity ≡ k = (string_eq.beq_iff identity k).0 same in
              let value : f ≡ e = ground (arith, same, at_k) in
              inr (
                spec,
                inl (ap (λ i. (i, spec)) (sym here)),
                rw here at (compiled ∙ ap ok value),
                rw here at named,
              ))
      ]

  -- Every entitlement of a map that parses is that of a configured entry, compiled under its identity,
  -- which is not blank; the profiles it permits are those of the entry, and never the internal one.
  parse_grants :
      (specs : Assoc String Spec) (m : Assoc String (Entitlement net)) (identity : String)
      (e : Entitlement net)
      → parse net specs ≡ ok m
      → lookup identity m ≡ some e
      → (spec : Spec) × Member (identity, spec) specs
        × (compile net identity spec ≡ ok e)
        × (is_blank identity ≡ false)
        × ((name : String) → (permits_profile e name ≡ true) ↔ Member name spec.profiles)
  unfolding parse Configured
  parse_grants specs m identity e h found = elim (specs_found specs [] m identity e h found) [
    | inl none_yet ↦ absurd (nothing_at identity e none_yet)
    | inr (spec, member, compiled, named) ↦
        (spec, member, compiled, named, (compile_grants identity spec e compiled).0)
  ]
