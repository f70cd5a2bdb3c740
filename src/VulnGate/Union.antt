-- ===== src/VulnGate/Union.antt =====
-- requireEveryEntryUsed of ci/vuln-gate/main.go, and the hits files that it reads.
use multivendor_hsm_pki.Prelude.{
  Bool, true, false, not, String, none, some, List, [], ◌∷◌, ◌==◌, string_eq, Result, ok, err,
  ◌>>=◌, Assoc, contains, lookup, insert, filter, if◌then◌else◌,
}
use multivendor_hsm_pki.Clock.{Time}
use multivendor_hsm_pki.VulnGate.{AllowEntry, Allowlist, expired}

pub record HitsFile : Type 0 where
  pub scanner : String
  pub matched : List String

pub data HitsSource : Type 0 where
  unreadable malformed : HitsSource
  decoded : HitsFile → HitsSource

pub data UnionError : Type 0 where
  cannot_read cannot_parse no_scanner : UnionError
  -- the expected scanners that did not report; the entries that matched nothing
  absent unused : List String → UnionError

-- The two maps of the loop: which scanner matched an entry, and which scanners reported.
pub record Reports : Type 0 where
  pub used : Assoc String String
  pub seen : List String

-- The first scanner that matched an entry is the one recorded.
unfoldable pub mark_used : String → List String → Assoc String String → Assoc String String
mark_used scanner [] used = used
mark_used scanner (id ∷ ids) used =
    mark_used scanner ids (elim (lookup id used) [ some _ ↦ used | none ↦ insert id scanner used ])

unfoldable pub read_hits : List HitsSource → Reports → Result UnionError Reports
read_hits [] r = ok r
read_hits (unreadable ∷ files) r = err cannot_read
read_hits (malformed ∷ files) r = err cannot_parse
read_hits (decoded h ∷ files) r =
    let rest =
      read_hits files
        (record { used = mark_used h.scanner h.matched r.used; seen = h.scanner ∷ r.seen }) in
    if h.scanner == "" then err no_scanner else rest

-- The expected scanners that no file names.
unfoldable pub missing_of : List String → List String → List String
missing_of seen expect = filter (λ want. not (contains seen want)) expect

-- `if e.expired(now) { continue }; if _, ok := used[e.ID]; ok { continue }`
abbrev pub carries_nothing : Assoc String String → Time → AllowEntry → Bool
carries_nothing used now e =
    if expired e now then false else elim (lookup e.raw.id used) [ some _ ↦ false | none ↦ true ]

-- The ids of entries, in order.
unfoldable pub ids : List AllowEntry → List String
ids [] = []
ids (e ∷ es) = e.raw.id ∷ ids es

unfoldable pub unused_of : Assoc String String → Time → List AllowEntry → List String
unfolding ids
unused_of used now es = ids (filter (carries_nothing used now) es)

-- The sorting of the two lists for print is left out.
unfoldable pub require_every_entry_used :
    Allowlist → Time → List HitsSource → List String → Result UnionError (Unit {0})
require_every_entry_used a now files expect = do
  r ← read_hits files (record { used = []; seen = [] })
  elim (missing_of r.seen expect) [
    | m ∷ ms ↦ err (absent (m ∷ ms))
    | [] ↦ elim (unused_of r.used now a.entries) [ [] ↦ ok tt | u ∷ us ↦ err (unused (u ∷ us)) ]
  ]
