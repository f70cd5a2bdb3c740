-- ===== src/Api/Issuance/Admission.antt =====
-- Which requests handleIssueCertificate of internal/api/server.go admits, and how it refuses the others.
use multivendor_hsm_pki.Prelude.{
  ℕ, ◌≡◌, ◌≢◌, inl, inr, ◌∙◌, refl, ap, true, String, Option, none, some, List, [], ◌∷◌, ◌==◌,
  int_eq, string_eq, Result, ok, err, ◌>>=◌, >>=-eq-ok, refuse_if-eq-ok, lookup, All, Member, not,
  ◌&&◌, arith, Bool-cases,
}
use multivendor_hsm_pki.Action.{map_err, map_err_ok}
use multivendor_hsm_pki.Profile.{Profile, lookup_profile, no_profile_named, unknown_profile}
use multivendor_hsm_pki.Profile.Names.{Request}
use multivendor_hsm_pki.Entitlement.{Net, Entitlement, permits_profile}
use multivendor_hsm_pki.Entitlement.Names.{permits_names, permits_names_exact, Covered, requested}
use multivendor_hsm_pki.Ca.{
  Bytes, IssueError, no_distribution_points, no_profile, invalid_csr_signature, empty_subject,
  disallowed_key_type, key_not_allowed, name_not_allowed, subject_not_allowed,
  validity_exceeds_policy, issuer_not_valid, validity_exceeds_issuer, failed,
}
use multivendor_hsm_pki.Api.{
  of_profile, Reply, error, panicked, too_large, unreadable, ReadError, read_at_most, Web, Settings,
}
use multivendor_hsm_pki.Api.Issuance.{
  max_csr_body_bytes, IssueCall, issue_error_response, issue_failed, not_read, not_entitled_message,
  names_of, parse_csr, not_nil, grant_for, request_of, admit,
}

-- The statuses of the refusals.
abbrev pub refusal_statuses : List ℕ
refusal_statuses = 400 ∷ 403 ∷ 413 ∷ 500 ∷ []

bad_request : Member {A = ℕ} 400 refusal_statuses
bad_request = inl refl

forbidden : Member {A = ℕ} 403 refusal_statuses
forbidden = inr (inl refl)

pub internal : Member {A = ℕ} 500 refusal_statuses
internal = inr (inr (inr (inl refl)))

module _ {E : Type 0} where
  abbrev pub IsRefusal : Reply E → Type 0
  IsRefusal (error status msg) = Member status refusal_statuses
  IsRefusal panicked = Unit
  IsRefusal _ = ⊥

  abbrev Refuses : {A : Type 0} → Result (Reply E) A → Type 0
  Refuses (ok a) = Unit
  Refuses (err reply) = IsRefusal reply

  pub Refuses-then :
      {A B : Type 0} (r : Result (Reply E) A) (next : A → Result (Reply E) B)
      → Refuses r
      → ((a : A) → Refuses (next a))
      → Refuses (r >>= next)
  Refuses-then (ok a) next h later = later a
  Refuses-then (err reply) next h later = h

  pub Refuses-map :
      {D A : Type 0} (f : D → Reply E) (r : Result D A)
      → ((d : D) → IsRefusal (f d))
      → Refuses (map_err f r)
  Refuses-map f (ok a) h = tt
  Refuses-map f (err d) h = h d

  pub IsRefusal-of_issue : (e : IssueError E) → IsRefusal (issue_failed e)
  unfolding issue_error_response
  IsRefusal-of_issue (no_distribution_points e) = internal
  IsRefusal-of_issue no_profile = internal
  IsRefusal-of_issue (invalid_csr_signature e) = bad_request
  IsRefusal-of_issue empty_subject = bad_request
  IsRefusal-of_issue disallowed_key_type = bad_request
  IsRefusal-of_issue (key_not_allowed e) = bad_request
  IsRefusal-of_issue (name_not_allowed e) = bad_request
  IsRefusal-of_issue (subject_not_allowed e) = bad_request
  IsRefusal-of_issue validity_exceeds_policy = bad_request
  IsRefusal-of_issue issuer_not_valid = internal
  IsRefusal-of_issue validity_exceeds_issuer = internal
  IsRefusal-of_issue (failed e) = internal

pub IsRefusal-of_read : (E : Type 0) (e : ReadError) → IsRefusal {E = E} (not_read e)
IsRefusal-of_read E too_large = inr (inr (inl refl))
IsRefusal-of_read E unreadable = bad_request

module _ {E : Type 0} (w : Web E) {net : Net} (cfg : Settings net) where
  -- The client may make this request: it names a profile that exists, the client is granted the profile,
  -- the body is read and parsed, and patterns of the client cover every name in it.
  abbrev pub Admitted : IssueCall → Profile → Request → Type 0
  Admitted call p csr =
      (ent : Entitlement net) × (body : Bytes) × (call.profile ≢ "")
      × (lookup call.profile cfg.profiles ≡ some (some p))
      × (lookup call.client cfg.issuers ≡ some ent)
      × (permits_profile ent p.name ≡ true)
      × (read_at_most max_csr_body_bytes call.body ≡ ok body)
      × (parse_csr w body ≡ ok csr)
      × All (Covered ent) (requested (names_of csr))

  abbrev admission : Profile → Request → Result (Reply E) (Profile × Request)
  admission q req = ok (q, req)

  looked_up :
      (name : String) (found : Option Profile)
      → lookup_profile cfg.profiles name ≡ ok found
      → (name ≢ "") × (lookup name cfg.profiles ≡ some found)
  unfolding lookup_profile
  looked_up name found h =
      let (named, h1) = refuse_if-eq-ok (name == "") no_profile_named _ found h in
      (ground (arith, string_eq.beq_iff name ""), at (lookup name cfg.profiles) h1)
    where
      at :
          (o : Option (Option Profile))
          → (elim o [ none ↦ err (unknown_profile name) | some p ↦ ok p ]) ≡ ok found
          → o ≡ some found
      at none e = cc
      at (some p) e = ground arith

  granted :
      (o : Option (Entitlement net)) (p : Profile) (ent : Entitlement net)
      → grant_for w cfg o p ≡ ok ent
      → (o ≡ some ent) × (permits_profile ent p.name ≡ true)
  granted none p ent h = cc
  granted (some f) p ent h = ground arith

  the_profile : (found : Option Profile) (p : Profile) → not_nil w found ≡ ok p → found ≡ some p
  the_profile none p h = cc
  the_profile (some q) p h = ground arith

  answered :
      {q p : Profile} {req csr : Request} → admission q req ≡ ok (p, csr) → (q ≡ p) × (req ≡ csr)
  answered h = ground arith

  move :
      {q p : Profile} {req csr : Request} (call : IssueCall)
      → q ≡ p
      → req ≡ csr
      → Admitted call q req
      → Admitted call p csr
  move call same parsed admitted = rw (same, parsed) at admitted

  pub admit-Admitted :
      (call : IssueCall) (p : Profile) (csr : Request)
      → admit w cfg call ≡ ok (p, csr)
      → Admitted call p csr
  unfolding admit
  admit-Admitted call p csr h =
      let (found, l, h1) =
        >>=-eq-ok
          (map_err (λ e. error 400 (of_profile e)) (lookup_profile cfg.profiles call.profile)) _
          h in
      let (q, n, h2) = >>=-eq-ok (not_nil w found) _ h1 in
      let (ent, g, h3) = >>=-eq-ok (grant_for w cfg (lookup call.client cfg.issuers) q) _ h2 in
      let (body, r, h4) =
        >>=-eq-ok (map_err not_read (read_at_most max_csr_body_bytes call.body)) _ h3 in
      let (req, c, h5) = >>=-eq-ok (parse_csr w body) _ h4 in
      let (_, names, h6) =
        >>=-eq-ok (map_err (λ e. not_entitled_message) (permits_names ent (names_of req))) _ h5 in
      let (same, parsed) = answered h6 in
      let admitted : Admitted call q req = (
        ent,
        body,
        (looked_up call.profile found (map_err_ok _ _ found l)).0,
        (looked_up call.profile found (map_err_ok _ _ found l)).1 ∙ ap some (the_profile found q n),
        (granted (lookup call.client cfg.issuers) q ent g).0,
        (granted (lookup call.client cfg.issuers) q ent g).1,
        map_err_ok not_read _ body r,
        c,
        (permits_names_exact ent (names_of req)).1.0 (map_err_ok _ _ tt names),
      ) in
      move call same parsed admitted

  not_nil-Refuses : (found : Option Profile) → Refuses (not_nil w found)
  not_nil-Refuses none = tt
  not_nil-Refuses (some p) = tt

  grant_for-Refuses : (o : Option (Entitlement net)) (p : Profile) → Refuses (grant_for w cfg o p)
  grant_for-Refuses none p = forbidden
  grant_for-Refuses (some ent) p = elim (Bool-cases (permits_profile ent p.name)) [
    | inl granted ↦ rw granted tt
    | inr denied ↦ rw denied forbidden
  ]

  parse_csr-Refuses : (body : Bytes) → Refuses (parse_csr w body)
  unfolding parse_csr
  parse_csr-Refuses body = go (w.pem_decode body)
    where
      go : (block : Option (String × Bytes)) → Refuses (request_of w block body)
      go none = Refuses-map _ (w.parse_request body) (λ e. bad_request)
      go (some (kind, der)) =
          elim (Bool-cases
            (not (kind == "CERTIFICATE REQUEST") && not (kind == "NEW CERTIFICATE REQUEST"))) [
              | inl other ↦ rw other bad_request
              | inr csr ↦ rw csr (Refuses-map _ (w.parse_request der) (λ e. bad_request))
            ]

  pub admit-Refuses : (call : IssueCall) → Refuses (admit w cfg call)
  unfolding admit
  admit-Refuses call =
      Refuses-then
        (map_err (λ e. error 400 (of_profile e)) (lookup_profile cfg.profiles call.profile)) _
        (Refuses-map _ (lookup_profile cfg.profiles call.profile) (λ e. bad_request))
        (λ found. Refuses-then (not_nil w found) _ (not_nil-Refuses found) (λ p.
          Refuses-then (grant_for w cfg (lookup call.client cfg.issuers) p) _
            (grant_for-Refuses (lookup call.client cfg.issuers) p)
            (λ ent.
              Refuses-then (map_err not_read (read_at_most max_csr_body_bytes call.body)) _
                (Refuses-map not_read (read_at_most max_csr_body_bytes call.body)
                  (IsRefusal-of_read E))
                (λ body. Refuses-then (parse_csr w body) _ (parse_csr-Refuses body) (λ csr.
                  Refuses-then
                    (map_err (λ e. not_entitled_message) (permits_names ent (names_of csr))) _
                    (Refuses-map _ (permits_names ent (names_of csr)) (λ e. forbidden))
                    (λ done. tt))))))
