-- ===== src/Entitlement.antt =====
-- internal/entitlement/entitlement.go: which profiles and names an identity may request, and
-- InternalOnly of internal/profile/profile.go. `Net` stands for the addresses of net and the case
-- folding of unicode. An IP address or a URI of a request stands as the text that String makes of it.
pub mod Glob
pub mod Compile
pub mod Names
pub mod Loops
pub mod Granted
pub mod Tests
use multivendor_hsm_pki.Prelude.{
  ℕ, ◌≡◌, refl, Bool, true, false, ◌&&◌, not, String, Option, none, some, List, [], ◌∷◌, ◌++◌, ◌==◌,
  nat_eq, string_eq, Result, ok, err, ◌>>=◌, ◌>>◌, contains, any, if◌then◌else◌,
}
use Prim.Native.Char.{code}
use multivendor_hsm_pki.Text.{codes}
use multivendor_hsm_pki.Text.Regex.{Regex, full_match}
use multivendor_hsm_pki.Entitlement.Glob.{glob_regexp}

pub record Net : Type 1 where
  pub Ip : Type 0
  pub Cidr : Type 0
  pub parse_ip : String → Option Ip
  pub parse_cidr : String → Option Cidr
  pub cidr_contains : Cidr → Ip → Bool
  pub same_ip : Ip → Ip → Bool
  -- are two code points in one orbit of unicode.SimpleFold?
  pub same_fold : ℕ → ℕ → Bool

pub data NameType : Type 0 where
  name_cn name_dns name_ip name_uri name_email : NameType

abbrev pub same_type : NameType → NameType → Bool
same_type name_cn name_cn = true
same_type name_dns name_dns = true
same_type name_ip name_ip = true
same_type name_uri name_uri = true
same_type name_email name_email = true
same_type _ _ = false

-- p.re, p.any, p.cidr or p.ip: the one that ParsePattern sets
pub data Matcher (net : Net) : Type 0 where
  glob : Regex → Matcher net
  any_ip : Matcher net
  range : net.Cidr → Matcher net
  address : net.Ip → Matcher net

pub record Pattern (net : Net) : Type 0 where
  pub name_type : NameType
  pub raw : String
  pub matcher : Matcher net

pub data EntitlementError : Type 0 where
  not_a_pattern bad_cidr bad_ip : String → EntitlementError
  unknown_type : String → String → EntitlementError
  no_profile no_name empty_profile : String → EntitlementError
  internal_only listed_twice : String → String → EntitlementError
  not_entitled : NameType → String → EntitlementError
  empty_identity : EntitlementError

-- strings.Cut(s, ":")
abbrev pub with_first : Option (String × String) → (String → String) → Option (String × String)
with_first none f = none
with_first (some (before, after)) f = some (f before, after)

unfoldable pub cut : String → Option (String × String)
cut String.[] = none
cut (String.◌∷◌ c s) =
    let rest = cut s in if code c == b':' then some ("", s) else with_first rest (String.◌∷◌ c)

-- NameType(typ), `none` for the default of the switch
unfoldable pub name_type_of : String → Option NameType
name_type_of typ =
    if typ == "cn"
    then some name_cn
    else if typ == "uri"
    then some name_uri
    else if typ == "email"
    then some name_email
    else if typ == "dns"
    then some name_dns
    else if typ == "ip"
    then some name_ip
    else none

module _ (net : Net) where
  -- The case NameIP.
  unfoldable pub ip_matcher : String → String → Result EntitlementError (Matcher net)
  ip_matcher s rest =
      let cidr : Result EntitlementError (Matcher net) = elim (net.parse_cidr rest) [
        | none ↦ err (bad_cidr s)
        | some c ↦ ok (range c)
      ] in
      let ip : Result EntitlementError (Matcher net) = elim (net.parse_ip rest) [
        | none ↦ err (bad_ip s)
        | some a ↦ ok (address a)
      ] in
      if rest == "*" then ok any_ip else if contains (codes rest) b'/' then cidr else ip

  -- The switch on the type.
  abbrev pub matcher_of : String → NameType → String → Result EntitlementError (Matcher net)
  matcher_of s name_ip rest = ip_matcher s rest
  matcher_of s name_dns rest = ok (glob (glob_regexp net.same_fold (codes rest)))
  matcher_of s _ rest = ok (glob (glob_regexp (λ c d. c == d) (codes rest)))

  abbrev pub parse_typed : String → String → String → Result EntitlementError (Pattern net)
  parse_typed s typ rest = elim (name_type_of typ) [
    | none ↦ err (unknown_type s typ)
    | some ty ↦ (do
      m ← matcher_of s ty rest
      ok (record { name_type = ty; raw = rest; matcher = m }))
  ]

  unfoldable pub parse_pattern : String → Result EntitlementError (Pattern net)
  parse_pattern s = elim (cut s) [
    | none ↦ err (not_a_pattern s)
    | some (typ, rest) ↦ if rest == "" then err (not_a_pattern s) else parse_typed s typ rest
  ]

  -- Pattern.matches
  unfoldable pub matches : Pattern net → String → Bool
  matches p name = elim p.matcher [
    | any_ip ↦ true
    | glob re ↦ full_match re (codes name)
    | range c ↦ (elim (net.parse_ip name) [ none ↦ false | some ip ↦ net.cidr_contains c ip ])
    | address a ↦ (elim (net.parse_ip name) [ none ↦ false | some ip ↦ net.same_ip a ip ])
  ]

-- The profiles granted, as a set, and the patterns.
pub record Entitlement (net : Net) : Type 0 where
  pub profiles : List String
  pub names : List (Pattern net)

abbrev pub internal_only_profile : String
internal_only_profile = "ocsp-responder"

-- profile.InternalOnly
abbrev pub is_internal_only : String → Bool
is_internal_only name = name == internal_only_profile

module _ {net : Net} where
  unfoldable pub permits_profile : Entitlement net → String → Bool
  permits_profile e name = contains e.profiles name && not (is_internal_only name)
