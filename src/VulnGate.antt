-- ===== src/VulnGate.antt =====
-- ci/vuln-gate/main.go: the allowlist of accepted findings, its validation, and what it covers.
-- yaml and time.Parse are outside: a file arrives as what reading and decoding it gave, and the
-- reading of a date is the parameter `parse_date`. The messages of errors are left out; what they
-- count or name is kept.
pub mod Gate
pub mod Union
pub mod Command
pub mod Passing
pub mod Loading
pub mod Covers
pub mod Judging
pub mod Unused
pub mod Tests
use multivendor_hsm_pki.Prelude.{
  ℕ, zero, suc, ◌+◌, ◌-◌, ◌*◌, Bool, true, false, not, ◌&&◌, String, Option, none, some, List, [],
  ◌∷◌, ◌++◌, ◌==◌, ℤ, pos, negsuc, string_eq, Result, ok, err, Assoc, contains, lookup, insert,
  length, filter, if◌then◌else◌,
}
use multivendor_hsm_pki.Clock.{Time, second, after, before}
use multivendor_hsm_pki.Text.{is_blank}

-- allowEntry as it is decoded; `expiry` of the source is the second half of a loaded entry.
pub record RawEntry : Type 0 where
  pub id : String
  pub statement : String
  pub expired_at : String

pub record AllowEntry : Type 0 where
  pub raw : RawEntry
  pub expiry : Time

unfoldable pub expired : AllowEntry → Time → Bool
expired e now = not (before now e.expiry)

pub record Allowlist : Type 0 where
  pub entries : List AllowEntry
  pub by_id : Assoc String AllowEntry
  -- the ids that suppressed something, each listed once
  pub hits : List String

unfoldable pub active_count : Allowlist → Time → ℕ
active_count a now = length (filter (λ e. not (expired e now)) a.entries)

-- hits[id] = true
unfoldable pub add_hit : String → List String → List String
add_hit id hits = if contains hits id then hits else id ∷ hits

-- covers: the first of the ids that names an entry in force
unfoldable pub covers : Allowlist → Time → List String → Allowlist × Option AllowEntry
covers a now [] = (a, none)
covers a now (id ∷ ids) =
    let rest = covers a now ids in
    elim (lookup id a.by_id) [
      | none ↦ rest
      | some e ↦
          if not (expired e now)
          then (record a { hits = add_hit e.raw.id a.hits }, some e)
          else rest
    ]

-- One line of the report on an unusable allowlist, with the number or the id of its entry.
pub data Problem : Type 0 where
  no_id : ℕ → Problem
  no_statement no_expiry bad_date too_far listed_twice : String → Problem

-- now.AddDate(0, 0, days), in a zone whose days have 24 hours
unfoldable pub add_days : Time → ℤ → Time
add_days now (pos days) = now + days * (86400 * second)
add_days now (negsuc days) = now - suc days * (86400 * second)

-- What reading and decoding the allowlist file gave.
pub data AllowSource : Type 0 where
  absent unreadable malformed : AllowSource
  decoded : List RawEntry → AllowSource

pub data LoadError : Type 0 where
  cannot_read cannot_parse : LoadError
  not_usable : List Problem → LoadError

-- A statement of spaces only.
unfoldable pub statement_problems : RawEntry → List Problem
statement_problems e = if is_blank e.statement then no_statement e.id ∷ [] else []

module _ (parse_date : String → Option Time) (horizon : Time) where
  -- The problems of the expiry date, and the date; the zero Time where there is none.
  unfoldable pub read_expiry : RawEntry → List Problem × Time
  read_expiry e =
      if e.expired_at == "" then (no_expiry e.id ∷ [], 0) else elim (parse_date e.expired_at) [
        | none ↦ (bad_date e.id ∷ [], 0)
        | some expiry ↦ ((if after expiry horizon then too_far e.id ∷ [] else []), expiry)
      ]

  -- One round of the loop over the entries: the list so far, the problems so far.
  unfoldable pub load_entry : ℕ → RawEntry → Allowlist → List Problem → Allowlist × List Problem
  load_entry i e a problems =
      if e.id == ""
      then (a, problems ++ no_id (i + 1) ∷ [])
      else let (expiry_problems, expiry) = read_expiry e in
        let found = problems ++ (statement_problems e ++ expiry_problems) in
        elim (lookup e.id a.by_id) [
          | some _ ↦ (a, found ++ listed_twice e.id ∷ [])
          | none ↦
              let entry : AllowEntry = record { raw = e; expiry = expiry } in
              (
                record a { by_id = insert e.id entry a.by_id; entries = a.entries ++ entry ∷ [] },
                found,
              )
        ]

  unfoldable pub load_entries :
      ℕ → List RawEntry → Allowlist → List Problem → Allowlist × List Problem
  load_entries i [] a problems = (a, problems)
  load_entries i (e ∷ es) a problems =
      let (a', problems') = load_entry i e a problems in load_entries (i + 1) es a' problems'

abbrev pub empty_allowlist : Allowlist
empty_allowlist = record { entries = []; by_id = []; hits = [] }

abbrev pub usable : Allowlist × List Problem → Result LoadError Allowlist
usable (a, []) = ok a
usable (a, p ∷ ps) = err (not_usable (p ∷ ps))

unfoldable pub load_allowlist :
    (String → Option Time) → AllowSource → Time → ℤ → Result LoadError Allowlist
load_allowlist parse_date absent now max_horizon_days = ok empty_allowlist
load_allowlist parse_date unreadable now max_horizon_days = err cannot_read
load_allowlist parse_date malformed now max_horizon_days = err cannot_parse
load_allowlist parse_date (decoded raws) now max_horizon_days =
    usable (load_entries parse_date (add_days now max_horizon_days) 0 raws empty_allowlist [])
