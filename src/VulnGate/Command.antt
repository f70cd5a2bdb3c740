-- ===== src/VulnGate/Command.antt =====
-- run and writeHitsFile of ci/vuln-gate/main.go, on options that are parsed and files that are read.
-- The ids of a hits file stand in the order of the hits; the source sorts them.
use multivendor_hsm_pki.Prelude.{
  Bool, true, false, String, Option, none, some, List, [], ◌∷◌, ◌==◌, string_eq, ℤ, Result, ok, err,
  if◌then◌else◌,
}
use multivendor_hsm_pki.Clock.{Time}
use multivendor_hsm_pki.VulnGate.{Allowlist, AllowSource, LoadError, load_allowlist}
use multivendor_hsm_pki.VulnGate.Gate.{
  TrivySource, GateError, panics, record_trivy_suppressions, Stream, Verdict, judge_govulncheck,
}
use multivendor_hsm_pki.VulnGate.Union.{HitsFile, HitsSource, UnionError, require_every_entry_used}

-- The input of -govulncheck: a file that does not open, or what it holds.
pub data GovulnSource : Type 0 where
  unopened : GovulnSource
  opened : Stream → GovulnSource

pub record Options : Type 0 where
  pub allowlist : AllowSource
  pub max_horizon_days : ℤ
  pub govulncheck : Option GovulnSource
  pub trivy : List TrivySource
  -- does -write-hits name a file, and can it be written?
  pub write_hits : Option Bool
  pub scanner : String
  pub require_used : List HitsSource
  pub expect_scanner : List String

pub data RunError : Type 0 where
  load : LoadError → RunError
  union : UnionError → RunError
  gate : GateError → RunError
  cannot_open cannot_write : RunError

-- The hits file that a run leaves, and its error.
abbrev pub Outcome : Type 0
Outcome = Option HitsFile × Result RunError (Unit {0})

-- The loop over the trivy reports.
unfoldable pub record_reports :
    List TrivySource → Allowlist → Time → Allowlist × Result GateError (Unit {0})
record_reports [] a now = (a, ok tt)
record_reports (r ∷ rs) a now =
    let (a', counted) = record_trivy_suppressions r a now in
    elim counted [ ok _ ↦ record_reports rs a' now | err e ↦ (a', err e) ]

abbrev pub hits_of : String → Allowlist → HitsFile
hits_of scanner a = record {
  scanner = if scanner == "" then "unnamed" else scanner;
  matched = a.hits;
}

-- The hits are written even when the judging failed.
abbrev pub finish : Option Bool → String → Allowlist → Result RunError (Unit {0}) → Outcome
finish none scanner a judged = (none, judged)
finish (some false) scanner a judged = (none, err cannot_write)
finish (some true) scanner a judged = (some (hits_of scanner a), judged)

-- A panic writes nothing.
abbrev pub after_judging : Option Bool → String → Allowlist × Result GateError Verdict → Outcome
after_judging hits scanner (a, ok v) = finish hits scanner a (ok tt)
after_judging hits scanner (a, err panics) = (none, err (gate panics))
after_judging hits scanner (a, err e) = finish hits scanner a (err (gate e))

abbrev pub judge_source : Options → Time → Allowlist → Option GovulnSource → Outcome
judge_source o now a none = finish o.write_hits o.scanner a (ok tt)
judge_source o now a (some unopened) = (none, err cannot_open)
judge_source o now a (some (opened s)) =
    after_judging o.write_hits o.scanner (judge_govulncheck s a now)

abbrev pub after_reports : Options → Time → Allowlist × Result GateError (Unit {0}) → Outcome
after_reports o now (a, err e) = (none, err (gate e))
after_reports o now (a, ok _) = judge_source o now a o.govulncheck

abbrev pub union_result : Result UnionError (Unit {0}) → Outcome
union_result (ok _) = (none, ok tt)
union_result (err e) = (none, err (union e))

-- `if len(requireUsed) > 0`
abbrev pub use_allowlist : Options → Time → Allowlist → List HitsSource → Outcome
use_allowlist o now a [] = after_reports o now (record_reports o.trivy a now)
use_allowlist o now a (f ∷ fs) =
    union_result (require_every_entry_used a now (f ∷ fs) o.expect_scanner)

abbrev pub after_load : Options → Time → Result LoadError Allowlist → Outcome
after_load o now (err e) = (none, err (load e))
after_load o now (ok a) = use_allowlist o now a o.require_used

unfoldable pub run : (String → Option Time) → Options → Time → Outcome
run parse_date o now =
    after_load o now (load_allowlist parse_date o.allowlist now o.max_horizon_days)
