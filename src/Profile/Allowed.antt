-- ===== src/Profile/Allowed.antt =====
-- When CheckSANs and Subject accept, and what Subject keeps.
use multivendor_hsm_pki.Prelude.{
  ℕ, ◌+◌, ◌≡◌, ◌≢◌, ◌↔◌, ◌⊎◌, refl, sym, ◌∙◌, ap, true, false, ◌&&◌, not, String, Option, none,
  some, List, [], ◌∷◌, ◌++◌, append_assoc, append-nil, nat_eq, string_eq, ok, refuse_if-eq-ok,
  >>=-eq-ok, refuse_if-ok, length, length_zero, nat_beq, contains, contains-Member, Member, All,
  Assoc, arith,
}
use multivendor_hsm_pki.Profile.{
  Profile, san_dns, san_ip, san_uri, san_email, san_missing, rdn_not_allowed, subject_empty,
}
use multivendor_hsm_pki.Profile.Names.{
  Attribute, Name, empty_name, fill, set_attribute, set_field, Request, count_sans, sans_of,
  check_sans, rdn_short_name, known_rdn, keep_rdns, subject_for,
}

-- No name of the type, or a type that the profile lists.
abbrev pub TypeAllowed : Profile → String × ℕ → Type 0
TypeAllowed p (t, n) = (n ≡ 0) ⊎ Member t p.san_types

abbrev total : Assoc String ℕ → ℕ
total [] = 0
total ((t, n) ∷ rest) = n + total rest

count_sans_iff :
    (p : Profile) (entries : Assoc String ℕ) (k c : ℕ)
    → (count_sans p entries k ≡ ok c) ↔ (All (TypeAllowed p) entries × (c ≡ k + total entries))
unfolding count_sans
count_sans_iff p [] k c = ((λ h. (tt, ground arith)), (λ h. ground arith))
count_sans_iff p ((t, n) ∷ rest) k c = (
  (λ h. ground (
    arith,
    contains-Member t p.san_types,
    (count_sans_iff p rest k c).0,
    (count_sans_iff p rest (k + n) c).0,
  )),
  (λ h. ground (
    arith,
    contains-Member t p.san_types,
    (count_sans_iff p rest k c).1,
    (count_sans_iff p rest (k + n) c).1,
  )),
)

abbrev pub NoNames : Request → Type 0
NoNames csr =
    (csr.dns_names ≡ []) × (csr.ip_addresses ≡ []) × (csr.uris ≡ []) × (csr.email_addresses ≡ [])

total_zero : (csr : Request) → (total (sans_of csr) ≡ 0) ↔ NoNames csr
total_zero csr = ground (
  arith,
  length_zero csr.dns_names,
  length_zero csr.ip_addresses,
  length_zero csr.uris,
  length_zero csr.email_addresses,
)

types_allowed :
    (p : Profile) (csr : Request)
    → All (TypeAllowed p) (sans_of csr) ↔ (
        ((csr.dns_names ≡ []) ⊎ Member san_dns p.san_types)
        × ((csr.ip_addresses ≡ []) ⊎ Member san_ip p.san_types)
        × ((csr.uris ≡ []) ⊎ Member san_uri p.san_types)
        × ((csr.email_addresses ≡ []) ⊎ Member san_email p.san_types))
types_allowed p csr = ground (
  arith,
  length_zero csr.dns_names,
  length_zero csr.ip_addresses,
  length_zero csr.uris,
  length_zero csr.email_addresses,
)

-- A request's names are accepted exactly if the profile lists the type of each name in it and, where the
-- profile requires a name, there is one.
pub check_sans_iff :
    (p : Profile) (csr : Request)
    → (check_sans p csr ≡ ok tt) ↔ (
        ((csr.dns_names ≡ []) ⊎ Member san_dns p.san_types)
        × ((csr.ip_addresses ≡ []) ⊎ Member san_ip p.san_types)
        × ((csr.uris ≡ []) ⊎ Member san_uri p.san_types)
        × ((csr.email_addresses ≡ []) ⊎ Member san_email p.san_types)
        × ((p.san_required ≡ false) ⊎ ¬ NoNames csr))
unfolding check_sans
check_sans_iff p csr = (
  (λ h.
      let (c, counted, h1) = >>=-eq-ok (count_sans p (sans_of csr) 0) _ h in
      let present = refuse_if-ok (p.san_required && nat_beq c 0) san_missing h1 in
      let (types, sum) = (count_sans_iff p (sans_of csr) 0 c).0 counted in
      let (dns, ip, uri, email) = (types_allowed p csr).0 types in
      (dns, ip, uri, email, ground (arith, total_zero csr, present, sum))),
  (λ (dns, ip, uri, email, present).
      let counted =
        (count_sans_iff p (sans_of csr) 0 (total (sans_of csr))).1
          ((types_allowed p csr).1 (dns, ip, uri, email), omega arith) in
      rw counted (ground (arith, total_zero csr, present))),
)

-- An attribute of a type that has a short name, which the profile lists.
abbrev pub Copied : Profile → Attribute → Type 0
Copied p atv =
    (short : String) × (rdn_short_name atv.oid ≡ some short) × Member short p.subject_rdns

known_rdn_ok :
    (oid : List ℕ) (found : Option String) (short : String)
    → known_rdn oid found ≡ ok short
    → found ≡ some short
known_rdn_ok oid none short h = cc
known_rdn_ok oid (some s) short h = ground arith

keep_rdns_iff :
    (p : Profile) (atvs kept out : List Attribute)
    → (keep_rdns p atvs kept ≡ ok out) ↔ (All (Copied p) atvs × (out ≡ kept ++ atvs))
unfolding keep_rdns
keep_rdns_iff p [] kept out = rw append-nil ((λ h. (tt, ground arith)), (λ h. ground arith))
keep_rdns_iff p (atv ∷ atvs) kept out = (
  (λ h.
      let (short, known, h1) = >>=-eq-ok (known_rdn atv.oid (rdn_short_name atv.oid)) _ h in
      let (listed, h2) =
        refuse_if-eq-ok (not (contains p.subject_rdns short)) (rdn_not_allowed short) _ out h1 in
      let (others, same) = (keep_rdns_iff p atvs (kept ++ atv ∷ []) out).0 h2 in
      (
        (
          (
            short,
            known_rdn_ok atv.oid (rdn_short_name atv.oid) short known,
            ground (arith, contains-Member short p.subject_rdns),
          ),
          others,
        ),
        same ∙ append_assoc kept (atv ∷ []) atvs,
      )),
  (λ (((short, known, listed), others), same).
      let granted : contains p.subject_rdns short ≡ true =
        (contains-Member short p.subject_rdns).1 listed in
      rw (known, granted)
        ((keep_rdns_iff p atvs (kept ++ atv ∷ []) out).1
          (others, same ∙ sym (append_assoc kept (atv ∷ []) atvs)))),
)

-- A subject is accepted exactly if each attribute of the request is one that the profile copies, and there
-- is one or the profile requires a name. It is then the name made of all of them, in order.
pub subject_for_iff :
    (p : Profile) (requested out : Name)
    → (subject_for p requested ≡ ok out) ↔ (
        All (Copied p) requested.names
        × ((requested.names ≢ []) ⊎ (p.san_required ≡ true))
        × (out ≡ fill requested.names empty_name))
unfolding subject_for
subject_for_iff p requested out = (
  (λ h.
      let (kept, run, h1) = >>=-eq-ok (keep_rdns p requested.names []) _ h in
      let (some_left, h2) =
        refuse_if-eq-ok (nat_beq (length kept) 0 && not p.san_required) subject_empty _ out h1 in
      let (copied, same) = (keep_rdns_iff p requested.names [] kept).0 run in
      (copied, ground (arith, length_zero kept, same), ground (arith, h2, same))),
  (λ (copied, some_left, same).
      let kept = (keep_rdns_iff p requested.names [] requested.names).1 (copied, refl) in
      let some_left : (nat_beq (length requested.names) 0 && not p.san_required) ≡ false =
        ground (arith, length_zero requested.names) in
      rw (kept, some_left) (ap ok (sym same))),
)

names-set_attribute :
    (oid : List ℕ) (text : Option String) (n : Name) → (set_attribute oid text n).names ≡ n.names
unfolding set_attribute set_field
names-set_attribute (a ∷ b ∷ c ∷ arc ∷ []) (some v) n = ground arith
names-set_attribute oid text n = refl

-- The attributes of the name that fill makes.
pub names-fill : (atvs : List Attribute) (n : Name) → (fill atvs n).names ≡ n.names ++ atvs
unfolding fill
names-fill [] n = sym (append-nil n.names)
names-fill (atv ∷ atvs) n =
    names-fill atvs (set_attribute atv.oid atv.text with_atv)
    ∙ ap (λ l. l ++ atvs) (names-set_attribute atv.oid atv.text with_atv)
    ∙ append_assoc n.names (atv ∷ []) atvs
  where
    with_atv : Name
    with_atv = record n { names = n.names ++ atv ∷ [] }
