-- ===== src/Profile/Signed.antt =====
-- The fields of a name that FillFromRDNSequence makes of attributes, which are what crypto/x509 signs
-- (Profile.Subject of internal/profile/profile.go).
use multivendor_hsm_pki.Prelude.{
  ℕ, ◌≡◌, refl, sym, ap, ◌∙◌, Bool, false, ◌&&◌, String, Option, none, some, List, [], ◌∷◌, ◌++◌,
  append_assoc, append-nil, nat_beq, arith, if◌then◌else◌,
}
use multivendor_hsm_pki.Profile.Names.{Attribute, Name, empty_name, set_field, set_attribute, fill}

-- Is it the attribute type 2.5.4.arc?
abbrev pub is_arc : ℕ → List ℕ → Bool
is_arc arc (a ∷ b ∷ c ∷ d ∷ []) = nat_beq a 2 && (nat_beq b 5 && (nat_beq c 4 && nat_beq d arc))
is_arc arc _ = false

abbrev pub text_of : Option String → List String
text_of none = []
text_of (some v) = v ∷ []

abbrev pub text_at : ℕ → List ℕ → Option String → List String
text_at arc oid text = if is_arc arc oid then text_of text else []

-- The texts of the attributes of type 2.5.4.arc, in their order.
unfoldable pub texts_at : ℕ → List Attribute → List String
texts_at arc [] = []
texts_at arc (atv ∷ atvs) = text_at arc atv.oid atv.text ++ texts_at arc atvs

-- The last text, or the one before them.
unfoldable pub last_from : String → List String → String
last_from v [] = v
last_from v (w ∷ ws) = last_from w ws

-- The fields of the name hold these attributes and nothing else: all texts of a type with a list, and the
-- last text of the two types with one value.
abbrev pub Holds : List Attribute → Name → Type 0
Holds atvs n =
    (n.country ≡ texts_at 6 atvs)
    × (n.organization ≡ texts_at 10 atvs)
    × (n.organizational_unit ≡ texts_at 11 atvs)
    × (n.locality ≡ texts_at 7 atvs)
    × (n.province ≡ texts_at 8 atvs)
    × (n.street_address ≡ texts_at 9 atvs)
    × (n.postal_code ≡ texts_at 17 atvs)
    × (n.serial_number ≡ last_from "" (texts_at 5 atvs))
    × (n.common_name ≡ last_from "" (texts_at 3 atvs))

-- The fields after one attribute.
abbrev After : List ℕ → Option String → Name → Name → Type 0
After oid text n m =
    (m.country ≡ n.country ++ text_at 6 oid text)
    × (m.organization ≡ n.organization ++ text_at 10 oid text)
    × (m.organizational_unit ≡ n.organizational_unit ++ text_at 11 oid text)
    × (m.locality ≡ n.locality ++ text_at 7 oid text)
    × (m.province ≡ n.province ++ text_at 8 oid text)
    × (m.street_address ≡ n.street_address ++ text_at 9 oid text)
    × (m.postal_code ≡ n.postal_code ++ text_at 17 oid text)
    × (m.serial_number ≡ last_from n.serial_number (text_at 5 oid text))
    × (m.common_name ≡ last_from n.common_name (text_at 3 oid text))

unchanged : (n : Name) → After [] none n n
unfolding last_from
unchanged n = (
  sym (append-nil n.country),
  sym (append-nil n.organization),
  sym (append-nil n.organizational_unit),
  sym (append-nil n.locality),
  sym (append-nil n.province),
  sym (append-nil n.street_address),
  sym (append-nil n.postal_code),
  refl,
  refl,
)

set_attribute-After :
    (oid : List ℕ) (text : Option String) (n : Name) → After oid text n (set_attribute oid text n)
unfolding set_attribute set_field last_from
set_attribute-After (a ∷ b ∷ c ∷ d ∷ []) (some v) n = ground (arith, unchanged n)
set_attribute-After (a ∷ b ∷ c ∷ d ∷ []) none n = ground (arith, unchanged n)
set_attribute-After [] text n = unchanged n
set_attribute-After (a ∷ []) text n = unchanged n
set_attribute-After (a ∷ b ∷ []) text n = unchanged n
set_attribute-After (a ∷ b ∷ c ∷ []) text n = unchanged n
set_attribute-After (a ∷ b ∷ c ∷ d ∷ e ∷ oid) text n = unchanged n

last_from-append :
    (v : String) (ws vs : List String) → last_from (last_from v ws) vs ≡ last_from v (ws ++ vs)
unfolding last_from
last_from-append v [] vs = refl
last_from-append v (w ∷ ws) vs = last_from-append w ws vs

more :
    (field now before here later : List String)
    → field ≡ now ++ later
    → now ≡ before ++ here
    → field ≡ before ++ (here ++ later)
more field now before here later e d = e ∙ ap (λ l. l ++ later) d ∙ append_assoc before here later

latest :
    (field now before : String) (here later : List String)
    → field ≡ last_from now later
    → now ≡ last_from before here
    → field ≡ last_from before (here ++ later)
latest field now before here later e d =
    e ∙ ap (λ v. last_from v later) d ∙ last_from-append before here later

-- The fields after some attributes.
abbrev AfterAll : List Attribute → Name → Name → Type 0
AfterAll atvs n m =
    (m.country ≡ n.country ++ texts_at 6 atvs)
    × (m.organization ≡ n.organization ++ texts_at 10 atvs)
    × (m.organizational_unit ≡ n.organizational_unit ++ texts_at 11 atvs)
    × (m.locality ≡ n.locality ++ texts_at 7 atvs)
    × (m.province ≡ n.province ++ texts_at 8 atvs)
    × (m.street_address ≡ n.street_address ++ texts_at 9 atvs)
    × (m.postal_code ≡ n.postal_code ++ texts_at 17 atvs)
    × (m.serial_number ≡ last_from n.serial_number (texts_at 5 atvs))
    × (m.common_name ≡ last_from n.common_name (texts_at 3 atvs))

fill-AfterAll : (atvs : List Attribute) (n : Name) → AfterAll atvs n (fill atvs n)
unfolding fill texts_at last_from
fill-AfterAll [] n = unchanged n
fill-AfterAll (atv ∷ atvs) n =
    let next = set_attribute atv.oid atv.text (record n { names = n.names ++ atv ∷ [] }) in
    let (c, o, u, l, p, s, z, i, k) = fill-AfterAll atvs next in
    let (c', o', u', l', p', s', z', i', k') =
      set_attribute-After atv.oid atv.text (record n { names = n.names ++ atv ∷ [] }) in
    (
      more _ _ _ _ _ c c',
      more _ _ _ _ _ o o',
      more _ _ _ _ _ u u',
      more _ _ _ _ _ l l',
      more _ _ _ _ _ p p',
      more _ _ _ _ _ s s',
      more _ _ _ _ _ z z',
      latest (fill atvs next).serial_number next.serial_number n.serial_number
          (text_at 5 atv.oid atv.text) (texts_at 5 atvs) i i',
      latest (fill atvs next).common_name next.common_name n.common_name
          (text_at 3 atv.oid atv.text) (texts_at 3 atvs) k k',
    )

-- The name that Subject makes of the attributes of a request.
pub fill-Holds : (atvs : List Attribute) → Holds atvs (fill atvs empty_name)
fill-Holds atvs = fill-AfterAll atvs empty_name
