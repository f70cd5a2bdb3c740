-- ===== src/Auth/Clients.antt =====
-- Which requests reach a write handler, and as whom.
use multivendor_hsm_pki.Prelude.{
  ◌≡◌, ◌≢◌, ◌↔◌, ◌⊎◌, refl, Bool, true, false, not, String, Option, none, some, List, [], ◌∷◌, ◌++◌,
  ◌==◌, string_eq, ℤ, Result, ok, err, ◌>>=◌, >>=-eq-ok, refuse_if, refuse_if-eq-ok, contains,
  contains-Member, Member, All, arith, inl, inr, Bool-cases,
}
use multivendor_hsm_pki.Store.{CertRecord, status_revoked}
use multivendor_hsm_pki.Auth.{
  Cert, AuthError, refusal, lookup_failed, client_identities, first_allowed, verified_leaf,
  issued_here, authorised_as, authenticate, unauthorized, forbidden, Response, error, handled,
  respond, require_client,
}

-- The first of the identities that is allowed.
abbrev pub IsFirst : List String → List String → String → Type 0
IsFirst allowed identities id =
    (before : List String) × (after : List String) × (identities ≡ before ++ id ∷ after)
    × All (λ j. ¬ Member j allowed) before
    × Member id allowed

first_allowed_iff :
    (allowed ids : List String) (id : String)
    → (first_allowed allowed ids ≡ some id) ↔ IsFirst allowed ids id
unfolding first_allowed
first_allowed_iff allowed ids id =
    (sound ids, (λ (before, after, e, apart, m). rw e (complete before after apart m)))
  where
    sound : (ids : List String) → first_allowed allowed ids ≡ some id → IsFirst allowed ids id
    sound [] h = cc
    sound (j ∷ js) h = elim (Bool-cases (contains allowed j)) [
      | inl t ↦
          (let here : j ≡ id = ground (arith, t, h) in
            ([], js, rw here refl, tt, rw here at ((contains-Member j allowed).0 t)))
      | inr f ↦
          (let (before, after, e, apart, m) = sound js (ground (arith, f, h)) in
            (
              j ∷ before,
              after,
              ground (arith, e),
              ((λ x. ground (arith, f, (contains-Member j allowed).1 x)), apart),
              m,
            ))
    ]

    complete :
        (before after : List String)
        → All (λ j. ¬ Member j allowed) before
        → Member id allowed
        → first_allowed allowed (before ++ id ∷ after) ≡ some id
    complete [] after apart m = ground (arith, (contains-Member id allowed).1 m)
    complete (j ∷ before) after (new, apart) m =
        ground (arith, (contains-Member j allowed).0, new, complete before after apart m)

-- An error that is a refusal has status 401 or 403.
abbrev Refuses : {E A : Type 0} → Result (AuthError E) A → Type 0
Refuses (ok a) = Unit
Refuses (err (refusal status msg)) = (status ≡ unauthorized) ⊎ (status ≡ forbidden)
Refuses (err (lookup_failed e)) = Unit

>>=-Refuses :
    {E A B : Type 0} (m : Result (AuthError E) A) (f : A → Result (AuthError E) B)
    → Refuses m
    → ((a : A) → Refuses (f a))
    → Refuses (m >>= f)
>>=-Refuses (ok a) f h g = g a
>>=-Refuses (err (refusal status msg)) f h g = h
>>=-Refuses (err (lookup_failed e)) f h g = tt

refuse_if-Refuses :
    (E : Type 0) (b : Bool) (msg : String) → Refuses {E = E} (refuse_if b (refusal forbidden msg))
refuse_if-Refuses E true msg = inr refl
refuse_if-Refuses E false msg = tt

module _ {E Name : Type 0} (show : Name → String)
    (get : ℤ → Result E (Option (CertRecord Name))) where
  leaf-Refuses : (tls : Option (List (List (Cert Name)))) → Refuses {E = E} (verified_leaf tls)
  leaf-Refuses none = inl refl
  leaf-Refuses (some []) = inl refl
  leaf-Refuses (some ([] ∷ chains)) = inl refl
  leaf-Refuses (some ((l ∷ chain) ∷ chains)) = tt

  issued-Refuses : (found : Result E (Option (CertRecord Name))) → Refuses (issued_here found)
  issued-Refuses (err e) = tt
  issued-Refuses (ok none) = inr refl
  issued-Refuses (ok (some rec)) = tt

  authorised-Refuses : (o : Option String) → Refuses {E = E} (authorised_as o)
  authorised-Refuses none = inr refl
  authorised-Refuses (some id) = tt

  authenticate-Refuses :
      (tls : Option (List (List (Cert Name)))) (allowed : List String)
      → Refuses (authenticate show get tls allowed)
  unfolding authenticate
  authenticate-Refuses tls allowed = >>=-Refuses (verified_leaf tls) _ (leaf-Refuses tls) (λ leaf.
      >>=-Refuses (issued_here (get leaf.serial)) _ (issued-Refuses (get leaf.serial)) (λ rec.
        >>=-Refuses (refuse_if (not (show rec.subject == show leaf.subject)) _) _
          (refuse_if-Refuses E _ _)
          (λ _.
            >>=-Refuses (refuse_if (rec.status == status_revoked) _) _ (refuse_if-Refuses E _ _)
              (λ _. authorised-Refuses (first_allowed allowed (client_identities leaf))))))

module _ {E Name : Type 0} (show : Name → String)
    (get : ℤ → Result E (Option (CertRecord Name))) where
  -- The leaf of the first chain that TLS verified, and the store's record of it.
  abbrev pub IsClient : Option (List (List (Cert Name))) → List String → String → Type 0
  IsClient tls allowed id =
      (leaf : Cert Name) × (chain : List (Cert Name)) × (chains : List (List (Cert Name)))
      × (rec : CertRecord Name) × (tls ≡ some ((leaf ∷ chain) ∷ chains))
      × (get leaf.serial ≡ ok (some rec))
      × (show rec.subject ≡ show leaf.subject)
      × (rec.status ≢ status_revoked)
      × IsFirst allowed (client_identities leaf) id

  leaf-ok :
      (tls : Option (List (List (Cert Name)))) (leaf : Cert Name)
      → verified_leaf {E = E} tls ≡ ok leaf
      → (chain : List (Cert Name)) × (chains : List (List (Cert Name))) × (tls
          ≡ some ((leaf ∷ chain) ∷ chains))
  leaf-ok none leaf h = cc
  leaf-ok (some []) leaf h = cc
  leaf-ok (some ([] ∷ chains)) leaf h = cc
  leaf-ok (some ((l ∷ chain) ∷ chains)) leaf h = (chain, chains, ground arith)

  issued-ok :
      (found : Result E (Option (CertRecord Name))) (rec : CertRecord Name)
      → issued_here found ≡ ok rec
      → found ≡ ok (some rec)
  issued-ok (err e) rec h = cc
  issued-ok (ok none) rec h = cc
  issued-ok (ok (some r)) rec h = ground arith

  authorised-ok : (o : Option String) (id : String) → authorised_as {E = E} o ≡ ok id → o ≡ some id
  authorised-ok none id h = cc
  authorised-ok (some i) id h = ground arith

  -- A request is authorised as an identity exactly if TLS verified a client certificate, the store has
  -- a record under its serial with the same subject, which is not revoked, and the identity is the first
  -- of the certificate's identities that is allowed.
  pub authenticate_iff :
      (tls : Option (List (List (Cert Name)))) (allowed : List String) (id : String)
      → (authenticate show get tls allowed ≡ ok id) ↔ IsClient tls allowed id
  unfolding authenticate
  authenticate_iff tls allowed id = (
    (λ h.
        let (leaf, l, h1) = >>=-eq-ok (verified_leaf tls) _ h in
        let (rec, r, h2) = >>=-eq-ok (issued_here (get leaf.serial)) _ h1 in
        let (same, h3) =
          refuse_if-eq-ok (not (show rec.subject == show leaf.subject))
            (refusal forbidden "the client certificate does not match this CA's record of it") _ id
            h2 in
        let (live, h4) =
          refuse_if-eq-ok (rec.status == status_revoked)
            (refusal forbidden "the client certificate has been revoked") _ id h3 in
        let (chain, chains, e) = leaf-ok tls leaf l in
        (
          leaf,
          chain,
          chains,
          rec,
          e,
          issued-ok (get leaf.serial) rec r,
          ground (arith, same, string_eq.beq_iff (show rec.subject) (show leaf.subject)),
          ground (arith, live, string_eq.beq_iff rec.status status_revoked),
          (first_allowed_iff allowed (client_identities leaf) id).0 (authorised-ok _ id h4),
        )),
    (λ (leaf, chain, chains, rec, e, found, same, live, first).
        let first' : first_allowed allowed (client_identities leaf) ≡ some id =
          (first_allowed_iff allowed (client_identities leaf) id).1 first in
        let s : (show rec.subject == show leaf.subject) ≡ true =
          (string_eq.beq_iff (show rec.subject) (show leaf.subject)).1 same in
        let l : (rec.status == status_revoked) ≡ false =
          ground (arith, live, string_eq.beq_iff rec.status status_revoked) in
        rw (e, found, s, l, first') refl),
  )

  abbrev pub IsAnswer :
      {R : Type 0}
      → Option (List (List (Cert Name)))
      → List String
      → (String → R)
      → Response R
      → Type 0
  IsAnswer tls allowed next (handled r) = (id : String) × IsClient tls allowed id × (r ≡ next id)
  IsAnswer tls allowed next (error status msg) =
      ((status ≡ unauthorized) ⊎ ((status ≡ forbidden) ⊎ (status ≡ 500)))
      × ((id : String) → ¬ IsClient tls allowed id)

  answered :
      {R : Type 0} (tls : Option (List (List (Cert Name)))) (allowed : List String)
      (next : String → R) (r : Result (AuthError E) String)
      → Refuses r
      → authenticate show get tls allowed ≡ r
      → IsAnswer tls allowed next (respond next r)
  answered tls allowed next (ok id) refuses e = (id, (authenticate_iff tls allowed id).0 e, refl)
  answered tls allowed next (err (refusal status msg)) refuses e =
      (widen refuses, (λ id c. ground (arith, e, (authenticate_iff tls allowed id).1 c)))
    where
      widen :
          (status ≡ unauthorized) ⊎ (status ≡ forbidden)
          → (status ≡ unauthorized) ⊎ ((status ≡ forbidden) ⊎ (status ≡ 500))
      widen s = ground arith
  answered tls allowed next (err (lookup_failed x)) refuses e =
      (inr (inr refl), (λ id c. ground (arith, e, (authenticate_iff tls allowed id).1 c)))

  -- A request that reaches the handler does so as a client that is authorised; any other is answered
  -- with an error, of status 401, 403 or 500, and is authorised as nobody.
  require_client_exact :
      {R : Type 0} (tls : Option (List (List (Cert Name)))) (allowed : List String)
      (next : String → R)
      → IsAnswer tls allowed next (require_client show get allowed next tls)
  unfolding require_client
  require_client_exact tls allowed next =
      answered tls allowed next (authenticate show get tls allowed)
        (authenticate-Refuses show get tls allowed) refl
