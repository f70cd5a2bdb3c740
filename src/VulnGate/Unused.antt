-- ===== src/VulnGate/Unused.antt =====
-- When the union over the scanners accepts the allowlist.
use multivendor_hsm_pki.Prelude.{
  ◌≤◌, ◌≡◌, ◌≢◌, refl, true, false, not, Bool, String, none, some, List, [], ◌∷◌, arith, ◌↔◌, ◌⊎◌,
  inl, inr, ◌==◌, string_eq, ok, >>=-eq-ok, Assoc, contains, contains-Member, lookup, insert,
  lookup-insert, All, Member, filter, filter-eq-nil, Option-cases, Bool-cases,
}
use multivendor_hsm_pki.Clock.{Time}
use multivendor_hsm_pki.VulnGate.{AllowEntry, Allowlist, expired}
use multivendor_hsm_pki.VulnGate.Union.{
  HitsFile, HitsSource, decoded, unreadable, malformed, Reports, mark_used, read_hits, missing_of,
  carries_nothing, ids, unused_of, require_every_entry_used,
}

abbrev known : String → Assoc String String → Bool
known id used = elim (lookup id used) [ some _ ↦ true | none ↦ false ]

-- A file that decodes and names its scanner.
abbrev pub IsNamed : HitsSource → Type 0
IsNamed unreadable = ⊥
IsNamed malformed = ⊥
IsNamed (decoded h) = h.scanner ≢ ""

-- Some file is the report of the scanner.
abbrev pub Reported : List HitsSource → String → Type 0
Reported [] want = ⊥
Reported (decoded h ∷ files) want = (want ≡ h.scanner) ⊎ Reported files want
Reported (_ ∷ files) want = Reported files want

-- Some file lists the entry as one that suppressed something.
abbrev pub MatchedIn : List HitsSource → String → Type 0
MatchedIn [] id = ⊥
MatchedIn (decoded h ∷ files) id = Member id h.matched ⊎ MatchedIn files id
MatchedIn (_ ∷ files) id = MatchedIn files id

mark_used-known :
    (scanner : String) (matched : List String) (used : Assoc String String) (id : String)
    → (known id (mark_used scanner matched used) ≡ true)
      ↔ ((known id used ≡ true) ⊎ Member id matched)
unfolding mark_used
mark_used-known scanner [] used id = ((λ h. inl h), (λ h. ground arith))
mark_used-known scanner (m ∷ ms) used id = elim (Option-cases (lookup m used)) [
  | inr (old, seen) ↦ (
    (λ h. ground (arith, seen, (mark_used-known scanner ms used id).0)),
    (λ h. ground (arith, seen, (mark_used-known scanner ms used id).1)),
  )
  | inl fresh ↦ (
    (λ h. ground (
      arith,
      fresh,
      (mark_used-known scanner ms (insert m scanner used) id).0,
      lookup-insert m id scanner used,
      string_eq.beq_iff m id,
    )),
    (λ h. ground (
      arith,
      fresh,
      (mark_used-known scanner ms (insert m scanner used) id).1,
      lookup-insert m id scanner used,
      string_eq.beq_iff m id,
    )),
  )
]

-- What the maps hold after the files were read.
record IsRead (files : List HitsSource) (r r' : Reports) : Type 0 where
  named : All IsNamed files
  seen_iff : (want : String) → Member want r'.seen ↔ (Member want r.seen ⊎ Reported files want)
  used_iff :
      (id : String) → (known id r'.used ≡ true) ↔ ((known id r.used ≡ true) ⊎ MatchedIn files id)

abbrev after_file : HitsFile → Reports → Reports
after_file h r = record { used = mark_used h.scanner h.matched r.used; seen = h.scanner ∷ r.seen }

IsRead-one :
    (h : HitsFile) (files : List HitsSource) (r r' : Reports)
    → h.scanner ≢ ""
    → IsRead files (after_file h r) r'
    → IsRead (decoded h ∷ files) r r'
IsRead-one h files r r' named rest = record {
  named = (named, rest.named);
  seen_iff = λ want. (
    (λ m. ground (arith, (rest.seen_iff want).0)),
    (λ m. ground (arith, (rest.seen_iff want).1)),
  );
  used_iff = λ id.
      let marked = mark_used-known h.scanner h.matched r.used id in
      (
        (λ m. ground (arith, (rest.used_iff id).0, marked.0)),
        (λ m. ground (arith, (rest.used_iff id).1, marked.1)),
      );
}

IsRead-sound :
    (files : List HitsSource) (r r' : Reports) → read_hits files r ≡ ok r' → IsRead files r r'
unfolding read_hits
IsRead-sound [] r r' h = record {
  named = tt;
  seen_iff = λ want. ((λ m. ground arith), (λ m. ground arith));
  used_iff = λ id. ((λ m. ground arith), (λ m. ground arith));
}
IsRead-sound (unreadable ∷ files) r r' h = cc
IsRead-sound (malformed ∷ files) r r' h = cc
IsRead-sound (decoded f ∷ files) r r' h = elim (Bool-cases (f.scanner == "")) [
  | inl unnamed ↦ absurd (ground (arith, unnamed))
  | inr named ↦
      IsRead-one f files r r' (ground (arith, named, string_eq.beq_iff f.scanner ""))
        (IsRead-sound files (after_file f r) r' (ground (arith, named)))
]

read_complete :
    (files : List HitsSource) (r : Reports)
    → All IsNamed files
    → (r' : Reports) × (read_hits files r ≡ ok r')
unfolding read_hits
read_complete [] r n = (r, refl)
read_complete (unreadable ∷ files) r n = absurd n.0
read_complete (malformed ∷ files) r n = absurd n.0
read_complete (decoded f ∷ files) r (named, n) =
    let (r', rest) = read_complete files (after_file f r) n in
    (r', ground (arith, rest, string_eq.beq_iff f.scanner ""))

-- Expired, or matched by some scanner.
abbrev pub IsCarrying : List HitsSource → Time → AllowEntry → Type 0
IsCarrying files now e = (e.expiry ≤ now) ⊎ MatchedIn files e.raw.id

ids-eq-nil : (es : List AllowEntry) → (ids es ≡ []) ↔ (es ≡ [])
unfolding ids
ids-eq-nil [] = ((λ h. refl), (λ h. refl))
ids-eq-nil (e ∷ es) = ((λ h. cc), (λ h. cc))

module _ (files : List HitsSource) (now : Time) (r : Reports)
    (read : IsRead files (record { used = []; seen = [] }) r) where
  IsCarrying-iff :
      (e : AllowEntry) → (carries_nothing r.used now e ≡ false) ↔ IsCarrying files now e
  unfolding expired lookup
  IsCarrying-iff e =
      let used = read.used_iff e.raw.id in
      ((λ h. ground (arith, used.0)), (λ h. ground (arith, used.1)))

  all-IsCarrying_iff :
      (es : List AllowEntry)
      → All (λ e. carries_nothing r.used now e ≡ false) es ↔ All (IsCarrying files now) es
  all-IsCarrying_iff [] = ((λ h. tt), (λ h. tt))
  all-IsCarrying_iff (e ∷ es) = (
    (λ h. ((IsCarrying-iff e).0 h.0, (all-IsCarrying_iff es).0 h.1)),
    (λ h. ((IsCarrying-iff e).1 h.0, (all-IsCarrying_iff es).1 h.1)),
  )

  unused_iff :
      (es : List AllowEntry) → (unused_of r.used now es ≡ []) ↔ All (IsCarrying files now) es
  unfolding unused_of
  unused_iff es =
      let kept = filter-eq-nil (carries_nothing r.used now) es in
      let none_left = ids-eq-nil (filter (carries_nothing r.used now) es) in
      (
        (λ h. (all-IsCarrying_iff es).0 (kept.0 (none_left.0 h))),
        (λ h. none_left.1 (kept.1 ((all-IsCarrying_iff es).1 h))),
      )

  seen_iff : (want : String) → (not (contains r.seen want) ≡ false) ↔ Reported files want
  seen_iff want =
      let m = contains-Member want r.seen in
      let s = read.seen_iff want in
      ((λ h. ground (arith, m.0, s.0)), (λ h. ground (arith, m.1, s.1)))

  missing_iff :
      (expect : List String) → (missing_of r.seen expect ≡ []) ↔ All (Reported files) expect
  unfolding missing_of filter
  missing_iff [] = ((λ h. tt), (λ h. refl))
  missing_iff (want ∷ expect) = (
    (λ h. ground (arith, (seen_iff want).0, (missing_iff expect).0)),
    (λ h. ground (arith, (seen_iff want).1, (missing_iff expect).1)),
  )

-- The union check passes exactly if every hits file decodes and names its scanner, every expected
-- scanner has a file, and every entry has expired or is listed as matched in some file.
require_every_entry_used_passes :
    (a : Allowlist) (now : Time) (files : List HitsSource) (expect : List String)
    → (require_every_entry_used a now files expect ≡ ok tt)
      ↔ (All IsNamed files × All (Reported files) expect × All (IsCarrying files now) a.entries)
unfolding require_every_entry_used
require_every_entry_used_passes a now files expect = (
  (λ h.
      let (r, e, rest) = >>=-eq-ok (read_hits files (record { used = []; seen = [] })) _ h in
      let read = IsRead-sound files _ r e in
      (
        read.named,
        (missing_iff files now r read expect).0 (ground (arith, rest)),
        (unused_iff files now r read a.entries).0 (ground (arith, rest)),
      )),
  (λ (named, reported, carrying).
      let (r, e) = read_complete files (record { used = []; seen = [] }) named in
      let read = IsRead-sound files _ r e in
      ground (
        arith,
        e,
        (missing_iff files now r read expect).1 reported,
        (unused_iff files now r read a.entries).1 carrying,
      )),
)
