-- ===== src/Ca/Permitted.antt =====
-- Which requests pass the checks of Issue of internal/ca/ca.go.
use multivendor_hsm_pki.Prelude.{
  ◌≤◌, ◌≡◌, ◌≢◌, ◌↔◌, ◌⊎◌, refl, sym, ap, ◌∙◌, true, false, not, ◌&&◌, String, Option, none, some,
  [], ◌==◌, string_eq, pos, Result, ok, err, >>=-eq-ok, refuse_if-eq-ok, refuse_if-ok, length,
  length_zero, nat_beq, contains, contains-Member, Member, All, arith, if◌then◌else◌,
}
use multivendor_hsm_pki.Clock.{Time, add, exceeds}
use multivendor_hsm_pki.Profile.{
  PublicKey, Profile, algorithm_of, allows_key, algorithm_not_accepted, san_dns, san_ip, san_uri,
  san_email,
}
use multivendor_hsm_pki.Profile.Names.{Name, empty_name, fill, Request, check_sans, subject_for}
use multivendor_hsm_pki.Profile.Allowed.{NoNames, check_sans_iff, Copied, subject_for_iff}
use multivendor_hsm_pki.Ca.{
  X509, IssueError, Ca, wrap_err, wrapped, validate_distribution, no_distribution_points,
  invalid_csr_signature, empty_subject, disallowed_key_type, key_not_allowed, name_not_allowed,
  subject_not_allowed, validity_exceeds_policy,
}
use multivendor_hsm_pki.Ca.Issue.{
  key_type_allowed, the_profile, validate_csr, check_issuer_can_cover, check_policy,
}

the_profile_ok :
    {E : Type 0} (found : Option Profile) (q : Profile)
    → the_profile {E = E} found ≡ ok q
    → found ≡ some q
the_profile_ok none q h = cc
the_profile_ok (some p) q h = ground arith

abbrev policy_answer : (E : Type 0) → Profile → Name → Result (IssueError E) (Profile × Name)
policy_answer E q s = ok (q, s)

abbrev some_profile : Profile → Option Profile
some_profile p = some p

pub one_profile : {p q : Profile} → some_profile p ≡ some q → p ≡ q
one_profile h = ground arith

answer_of :
    {E : Type 0} {q p : Profile} {s t : Name} → policy_answer E q s ≡ ok (p, t) → (q ≡ p) × (s ≡ t)
answer_of h = ground arith

allows_key_iff :
    (p : Profile) (key : PublicKey)
    → (allows_key p key ≡ ok tt)
      ↔ ((have : String) × (algorithm_of key ≡ ok have) × Member have p.key_algorithms)
unfolding allows_key
allows_key_iff p key = (
  (λ h.
      let (have, known, h1) = >>=-eq-ok (algorithm_of key) _ h in
      (have, known, (contains-Member have p.key_algorithms).0 (listed have h1))),
  (λ (have, known, member).
      let listed : contains p.key_algorithms have ≡ true =
        (contains-Member have p.key_algorithms).1 member in
      rw (known, listed) refl),
)
  where
    listed :
        (have : String)
        → (if contains p.key_algorithms have then ok tt else err (algorithm_not_accepted have))
          ≡ ok tt
        → contains p.key_algorithms have ≡ true
    listed have h = ground arith

module _ {E : Type 0} (x : X509 E) (c : Ca) (csr : Request) (now : Time) where
  -- What the request and the moment must be for a profile.
  abbrev pub Permitted : Profile → Type 0
  Permitted p =
      (validate_distribution x c.dist ≡ ok tt)
      × (x.check_signature csr ≡ ok tt)
      × ((csr.subject.common_name ≢ "") ⊎ (csr.subject.organization ≢ []))
      × (key_type_allowed csr.public_key ≡ true)
      × ((have : String) × (algorithm_of csr.public_key ≡ ok have) × Member have p.key_algorithms)
      × ((csr.dns_names ≡ []) ⊎ Member san_dns p.san_types)
      × ((csr.ip_addresses ≡ []) ⊎ Member san_ip p.san_types)
      × ((csr.uris ≡ []) ⊎ Member san_uri p.san_types)
      × ((csr.email_addresses ≡ []) ⊎ Member san_email p.san_types)
      × ((p.san_required ≡ false) ⊎ ¬ NoNames csr)
      × All (Copied p) csr.subject.names
      × ((csr.subject.names ≢ []) ⊎ (p.san_required ≡ true))
      × ((exceeds c.max_ttl (pos 0) ≡ false) ⊎ (exceeds p.validity c.max_ttl ≡ false))
      × (c.cert.not_before ≤ now)
      × (now ≤ c.cert.not_after)
      × (add now p.validity ≤ c.cert.not_after)

  validate_csr_iff : (validate_csr x csr ≡ ok tt) ↔ (
      (x.check_signature csr ≡ ok tt)
      × ((csr.subject.common_name ≢ "") ⊎ (csr.subject.organization ≢ []))
      × (key_type_allowed csr.public_key ≡ true))
  unfolding validate_csr
  validate_csr_iff = (
    (λ h.
        let (_, verified, h1) =
          >>=-eq-ok (wrap_err invalid_csr_signature (x.check_signature csr)) _ h in
        let (named, h2) =
          refuse_if-eq-ok
            (csr.subject.common_name == "" && nat_beq (length csr.subject.organization) 0)
            empty_subject _ tt h1 in
        let key = refuse_if-ok (not (key_type_allowed csr.public_key)) disallowed_key_type h2 in
        (
          (wrapped invalid_csr_signature (x.check_signature csr) tt).0 verified,
          ground (
            arith,
            string_eq.beq_iff csr.subject.common_name "",
            length_zero csr.subject.organization,
          ),
          ground arith,
        )),
    (λ (verified, named, key).
        let subject : (csr.subject.common_name == "" && nat_beq (length csr.subject.organization) 0)
            ≡ false =
          ground (
            arith,
            string_eq.beq_iff csr.subject.common_name "",
            length_zero csr.subject.organization,
          ) in
        rw (verified, subject, key) refl),
  )

  check_issuer_can_cover_iff :
      (not_after : Time)
      → (check_issuer_can_cover x c now not_after ≡ ok tt)
        ↔ ((c.cert.not_before ≤ now) × (now ≤ c.cert.not_after) × (not_after ≤ c.cert.not_after))
  unfolding check_issuer_can_cover
  check_issuer_can_cover_iff not_after = ground arith

  granted :
      (found : Option Profile) (p : Profile) (subject : Name) (q : Profile) (s : Name)
      → found ≡ some q
      → (q ≡ p) × (s ≡ subject)
      → validate_distribution x c.dist ≡ ok tt
      → (x.check_signature csr ≡ ok tt)
        × ((csr.subject.common_name ≢ "") ⊎ (csr.subject.organization ≢ []))
        × (key_type_allowed csr.public_key ≡ true)
      → ((have : String) × (algorithm_of csr.public_key ≡ ok have) × Member have q.key_algorithms)
      → ((csr.dns_names ≡ []) ⊎ Member san_dns q.san_types)
        × ((csr.ip_addresses ≡ []) ⊎ Member san_ip q.san_types)
        × ((csr.uris ≡ []) ⊎ Member san_uri q.san_types)
        × ((csr.email_addresses ≡ []) ⊎ Member san_email q.san_types)
        × ((q.san_required ≡ false) ⊎ ¬ NoNames csr)
      → All (Copied q) csr.subject.names
        × ((csr.subject.names ≢ []) ⊎ (q.san_required ≡ true))
        × (s ≡ fill csr.subject.names empty_name)
      → (exceeds c.max_ttl (pos 0) && exceeds q.validity c.max_ttl) ≡ false
      → (c.cert.not_before ≤ now)
        × (now ≤ c.cert.not_after)
        × (add now q.validity ≤ c.cert.not_after)
      → (found ≡ some p) × Permitted p × (subject ≡ fill csr.subject.names empty_name)
  granted found p subject q s here (same, result) dist (verified, named, key) algorithm
        (dns, ip, uri, email, present) (copied, left, filled) ceiling (started, alive, covers) =
      let permitted : Permitted q = (
        dist,
        verified,
        named,
        key,
        algorithm,
        dns,
        ip,
        uri,
        email,
        present,
        copied,
        left,
        ground (arith, ceiling),
        started,
        alive,
        covers,
      ) in
      (here ∙ ap some same, rw same at permitted, sym result ∙ filled)

  pub check_policy_iff :
      (found : Option Profile) (p : Profile) (subject : Name)
      → (check_policy x c csr found now ≡ ok (p, subject))
        ↔ ((found ≡ some p) × Permitted p × (subject ≡ fill csr.subject.names empty_name))
  unfolding check_policy
  check_policy_iff found p subject = (
    (λ h.
        let (_, dist, h1) =
          >>=-eq-ok (wrap_err no_distribution_points (validate_distribution x c.dist)) _ h in
        let (q, the_one, h2) = >>=-eq-ok (the_profile found) _ h1 in
        let (_, csr_ok, h3) = >>=-eq-ok (validate_csr x csr) _ h2 in
        let (_, key, h4) =
          >>=-eq-ok (wrap_err key_not_allowed (allows_key q csr.public_key)) _ h3 in
        let (_, names, h5) = >>=-eq-ok (wrap_err name_not_allowed (check_sans q csr)) _ h4 in
        let (s, filtered, h6) =
          >>=-eq-ok (wrap_err subject_not_allowed (subject_for q csr.subject)) _ h5 in
        let (ceiling, h7) =
          refuse_if-eq-ok (exceeds c.max_ttl (pos 0) && exceeds q.validity c.max_ttl)
            validity_exceeds_policy _ (p, subject) h6 in
        let (_, covered, h8) =
          >>=-eq-ok (check_issuer_can_cover x c now (add now q.validity)) _ h7 in
        granted found p subject q s (the_profile_ok found q the_one) (answer_of h8)
          ((wrapped no_distribution_points (validate_distribution x c.dist) tt).0 dist)
          (validate_csr_iff.0 csr_ok)
          ((allows_key_iff q csr.public_key).0 ((wrapped key_not_allowed _ tt).0 key))
          ((check_sans_iff q csr).0 ((wrapped name_not_allowed _ tt).0 names))
          ((subject_for_iff q csr.subject s).0 ((wrapped subject_not_allowed _ s).0 filtered))
          ceiling ((check_issuer_can_cover_iff (add now q.validity)).0 covered)),
    (λ (here, permitted, same).
        let (
          dist, verified, named, key, algorithm, dns, ip, uri, email, present, copied, left,
          ceiling, started, alive, covers,
        ) =
          permitted in
        let csr_ok : validate_csr x csr ≡ ok tt = validate_csr_iff.1 (verified, named, key) in
        let key_ok : allows_key p csr.public_key ≡ ok tt =
          (allows_key_iff p csr.public_key).1 algorithm in
        let names_ok : check_sans p csr ≡ ok tt =
          (check_sans_iff p csr).1 (dns, ip, uri, email, present) in
        let subject_ok : subject_for p csr.subject ≡ ok subject =
          (subject_for_iff p csr.subject subject).1 (copied, left, same) in
        let below : (exceeds c.max_ttl (pos 0) && exceeds p.validity c.max_ttl) ≡ false =
          ground (arith, ceiling) in
        let covered : check_issuer_can_cover x c now (add now p.validity) ≡ ok tt =
          (check_issuer_can_cover_iff (add now p.validity)).1 (started, alive, covers) in
        rw (here, dist, csr_ok, key_ok, names_ok, subject_ok, below, covered) refl),
  )
