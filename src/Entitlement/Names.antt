-- ===== src/Entitlement/Names.antt =====
-- PermitsNames of internal/entitlement/entitlement.go, and what it permits.
use multivendor_hsm_pki.Prelude.{
  ◌≡◌, ◌↔◌, refl, Bool, true, false, ◌&&◌, String, List, [], ◌∷◌, ◌++◌, ◌==◌, string_eq, arith,
  Result, ok, err, ◌>>◌, any, any-Member, any_found, Member, All-append, All-member,
  Member-append_left, Member-append_right, All, inl, inr, Bool-cases, if◌then◌else◌,
}
use multivendor_hsm_pki.Entitlement.{
  Net, Pattern, NameType, name_cn, name_dns, name_ip, name_uri, name_email, same_type, matches,
  EntitlementError, not_entitled, Entitlement,
}

-- The names of an x509.CertificateRequest
pub record Csr : Type 0 where
  pub common_name : String
  pub dns_names : List String
  pub ip_addresses : List String
  pub uris : List String
  pub email_addresses : List String

-- p.Type == typ && p.matches(name)
abbrev pub covers_name : (net : Net) → NameType → String → Pattern net → Bool
covers_name net typ name p = same_type p.name_type typ && matches net p name

module _ {net : Net} (e : Entitlement net) where
  -- check
  unfoldable pub check_name : NameType → String → Result EntitlementError (Unit {0})
  check_name typ name =
      if any (covers_name net typ name) e.names then ok tt else err (not_entitled typ name)

  unfoldable pub check_all : NameType → List String → Result EntitlementError (Unit {0})
  check_all typ [] = ok tt
  check_all typ (n ∷ ns) = do check_name typ n; check_all typ ns

  unfoldable pub permits_names : Csr → Result EntitlementError (Unit {0})
  permits_names csr = do
    if csr.common_name == "" then ok tt else check_name name_cn csr.common_name
    check_all name_dns csr.dns_names
    check_all name_ip csr.ip_addresses
    check_all name_uri csr.uris
    check_all name_email csr.email_addresses

abbrev pub of_type : NameType → List String → List (NameType × String)
of_type typ [] = []
of_type typ (n ∷ ns) = (typ, n) ∷ of_type typ ns

-- Every name of a request, with its type: an empty common name is none.
abbrev pub requested : Csr → List (NameType × String)
requested csr =
    of_type name_cn (if csr.common_name == "" then [] else csr.common_name ∷ [])
    ++ (of_type name_dns csr.dns_names
        ++ (of_type name_ip csr.ip_addresses
            ++ (of_type name_uri csr.uris ++ of_type name_email csr.email_addresses)))

module _ {net : Net} (e : Entitlement net) where
  -- A pattern of the entitlement covers the name.
  abbrev pub Covered : NameType × String → Type 0
  Covered (typ, name) =
      (p : Pattern net) × Member p e.names × (p.name_type ≡ typ) × (matches net p name ≡ true)

  -- What the answer says about the names.
  abbrev pub IsJudged : List (NameType × String) → Result EntitlementError (Unit {0}) → Type 0
  IsJudged ns (ok _) = All Covered ns
  IsJudged ns (err (not_entitled typ name)) = Member (typ, name) ns × ¬ Covered (typ, name)
  IsJudged ns (err _) = ⊥

  same_type_iff : (a b : NameType) → (same_type a b ≡ true) ↔ (a ≡ b)
  same_type_iff a b = ground arith

  Covered-iff :
      (typ : NameType) (name : String)
      → (any (covers_name net typ name) e.names ≡ true) ↔ Covered (typ, name)
  Covered-iff typ name = (
    (λ h.
        let (p, m, t) = any_found (covers_name net typ name) e.names h in
        (p, m, (same_type_iff p.name_type typ).0 (ground arith), ground arith)),
    (λ (p, m, t, h).
        any-Member (covers_name net typ name) p e.names m
          (ground (arith, (same_type_iff p.name_type typ).1 t, h))),
  )

  IsJudged-name :
      (typ : NameType) (name : String) → IsJudged ((typ, name) ∷ []) (check_name e typ name)
  unfolding check_name
  IsJudged-name typ name = elim (Bool-cases (any (covers_name net typ name) e.names)) [
    | inl t ↦ rw t ((Covered-iff typ name).0 t, tt)
    | inr f ↦ rw f (inl refl, (λ c. ground (arith, (Covered-iff typ name).1 c, f)))
  ]

  -- One check after another.
  IsJudged-then :
      (xs ys : List (NameType × String)) (r : Result EntitlementError (Unit {0}))
      (k : Result EntitlementError (Unit {0}))
      → IsJudged xs r
      → IsJudged ys k
      → IsJudged (xs ++ ys) (r >> k)
  IsJudged-then xs ys (ok _) (ok _) a b = All-append Covered xs ys a b
  IsJudged-then xs ys (ok _) (err (not_entitled typ name)) a (m, refused) =
      (Member-append_right (typ, name) xs ys m, refused)
  IsJudged-then xs ys (ok _) (err _) a b = absurd b
  IsJudged-then xs ys (err (not_entitled typ name)) k (m, refused) b =
      (Member-append_left (typ, name) xs ys m, refused)
  IsJudged-then xs ys (err _) k a b = absurd a

  IsJudged-all :
      (typ : NameType) (ns : List String) → IsJudged (of_type typ ns) (check_all e typ ns)
  unfolding check_all
  IsJudged-all typ [] = tt
  IsJudged-all typ (n ∷ ns) =
      IsJudged-then ((typ, n) ∷ []) (of_type typ ns) (check_name e typ n) (check_all e typ ns)
        (IsJudged-name typ n) (IsJudged-all typ ns)

  IsJudged-common :
      (b : Bool) (name : String)
      → IsJudged
          (of_type name_cn (if b then [] else name ∷ []))
          (if b then ok tt else check_name e name_cn name)
  IsJudged-common true name = tt
  IsJudged-common false name = IsJudged-name name_cn name

  judged_decides :
      (ns : List (NameType × String)) (r : Result EntitlementError (Unit {0}))
      → IsJudged ns r
      → (r ≡ ok tt) ↔ All Covered ns
  judged_decides ns (ok _) j = ((λ h. j), (λ h. refl))
  judged_decides ns (err (not_entitled typ name)) (m, refused) =
      ((λ h. cc), (λ h. absurd (refused (All-member Covered (typ, name) ns h m))))
  judged_decides ns (err _) j = absurd j

  -- A request is permitted exactly if a pattern of the entitlement covers each name in it, the common
  -- name included unless it is empty; a refusal names one of the names, and no pattern covers that one.
  pub permits_names_exact :
      (csr : Csr)
      → IsJudged (requested csr) (permits_names e csr)
        × ((permits_names e csr ≡ ok tt) ↔ All Covered (requested csr))
  unfolding permits_names
  permits_names_exact csr =
      let judged = IsJudged-then _ _ _ _ (IsJudged-common (csr.common_name == "") csr.common_name) (
        IsJudged-then _ _ _ _ (IsJudged-all name_dns csr.dns_names) (
          IsJudged-then _ _ _ _ (IsJudged-all name_ip csr.ip_addresses) (
            IsJudged-then _ _ _ _ (IsJudged-all name_uri csr.uris)
              (IsJudged-all name_email csr.email_addresses)))) in
      (judged, judged_decides (requested csr) _ judged)
