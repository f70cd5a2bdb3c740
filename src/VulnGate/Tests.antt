-- ===== src/VulnGate/Tests.antt =====
-- A small allowlist and runs of the vulnerability gate (ci/vuln-gate/main.go), and the theorems on
-- the gate at them.
use multivendor_hsm_pki.Prelude.{
  ◌≡◌, ◌≢◌, refl, ap, ◌↔◌, inl, true, false, String, Option, none, some, List, [], ◌∷◌, ◌==◌, pos,
  string_eq, ok, err, Member, All, Pairwise, lookup, contains, insert, any, if◌then◌else◌,
}
use multivendor_hsm_pki.Clock.{Time}
use multivendor_hsm_pki.VulnGate.{
  RawEntry, AllowEntry, Allowlist, covers, add_days, decoded, load_allowlist, load_entries,
  load_entry, read_expiry, statement_problems, expired, add_hit,
}
use multivendor_hsm_pki.VulnGate.Gate.{
  called, judge_findings, judge_one, judge_called, Frame, Finding, Message, Stream, Verdict, panics,
  collect, collect_one, judge_govulncheck, ids_of,
}
use multivendor_hsm_pki.VulnGate.Union.{HitsSource, decoded as hits}
use multivendor_hsm_pki.VulnGate.Loading.{IsReviewable, IsLoaded, load_allowlist_exact}
use multivendor_hsm_pki.VulnGate.Judging.{
  IsTraced, IsAccepted, IsCompleted, read_of, judge_govulncheck_passes, judge_govulncheck_panics,
}
use multivendor_hsm_pki.VulnGate.Command.{opened, Options, record_reports, run}
use multivendor_hsm_pki.VulnGate.Passing.{run_passes}
use multivendor_hsm_pki.Text.{is_blank}

abbrev accepted_risk : RawEntry
accepted_risk = record { id = "CVE-2026-1"; statement = "not reachable"; expired_at = "soon" }

abbrev entry : AllowEntry
entry = record { raw = accepted_risk; expiry = 50 }

abbrev allowlist : Allowlist
allowlist = record { entries = entry ∷ []; by_id = ("CVE-2026-1", entry) ∷ []; hits = [] }

abbrev date : String → Option Time
date text = if text == "soon" then some 50 else none

covered_now : (covers allowlist 40 ("GO-1" ∷ "CVE-2026-1" ∷ [])).1 ≡ some entry
unfolding covers lookup expired
covered_now = refl

lapsed : (covers allowlist 50 ("CVE-2026-1" ∷ [])).1 ≡ none
unfolding covers lookup expired
lapsed = refl

load_allowlist_exact_example :
    (((a : Allowlist) × (load_allowlist date (decoded (accepted_risk ∷ [])) 40 (pos 180) ≡ ok a))
      ↔ (All (IsReviewable date (add_days 40 (pos 180))) (accepted_risk ∷ [])
          × Pairwise (λ e f. e.id ≢ f.id) (accepted_risk ∷ [])))
    × ((a : Allowlist)
        → load_allowlist date (decoded (accepted_risk ∷ [])) 40 (pos 180) ≡ ok a
        → IsLoaded date (add_days 40 (pos 180)) (accepted_risk ∷ []) a)
load_allowlist_exact_example = load_allowlist_exact date (accepted_risk ∷ []) 40 (pos 180)

abbrev call_site : Frame
call_site = record {
  module_path = "example.org/m";
  version = "v1";
  package_path = "m";
  function = "F";
}

abbrev called_finding : Finding
called_finding = record { osv = "GO-1"; fixed_version = ""; trace = call_site ∷ [] }

abbrev untraced : Finding
untraced = record { osv = "GO-1"; fixed_version = ""; trace = [] }

abbrev config_record : Message
config_record = record { config = true; osv = none; finding = none }

abbrev osv_record : Message
osv_record = record {
  config = false;
  osv = some (record { id = "GO-1"; aliases = "CVE-2026-1" ∷ []; summary = "s" });
  finding = none;
}

abbrev stream_of : Finding → Stream
stream_of f = record {
  messages =
      config_record ∷ osv_record ∷ record { config = false; osv = none; finding = some f } ∷ [];
  complete = true;
}

traced : All IsTraced (read_of (stream_of called_finding)).findings
unfolding collect collect_one
traced = ((λ h. cc), tt)

judge_govulncheck_passes_example :
    ((v : Verdict) × ((judge_govulncheck (stream_of called_finding) allowlist 40).1 ≡ ok v)) ↔ (
      IsCompleted (stream_of called_finding) allowlist 40
      × All
          (IsAccepted allowlist 40 (read_of (stream_of called_finding)).osvs)
          (read_of (stream_of called_finding)).findings)
judge_govulncheck_passes_example =
    judge_govulncheck_passes (stream_of called_finding) allowlist 40 traced

completed : IsCompleted (stream_of untraced) allowlist 40
unfolding any
completed = (refl, refl)

untraced_read : Member untraced (read_of (stream_of untraced)).findings
unfolding collect collect_one
untraced_read = inl refl

judge_govulncheck_panics_example :
    (judge_govulncheck (stream_of untraced) allowlist 40).1 ≡ err panics
judge_govulncheck_panics_example =
    judge_govulncheck_panics (stream_of untraced) allowlist 40 untraced completed untraced_read refl

abbrev options : Options
options = record {
  allowlist = decoded (accepted_risk ∷ []);
  max_horizon_days = pos 180;
  govulncheck = some (opened (stream_of called_finding));
  trivy = [];
  write_hits = some true;
  scanner = "govulncheck";
  require_used = [];
  expect_scanner = [];
}

passes :
    run date options 40
    ≡ (some (record { scanner = "govulncheck"; matched = "CVE-2026-1" ∷ [] }), ok tt)
unfolding run load_allowlist load_entries load_entry read_expiry statement_problems is_blank
    add_days lookup insert record_reports judge_govulncheck collect collect_one judge_findings
    judge_one judge_called called ids_of covers expired add_hit contains
passes = refl

passed : (run date options 40).1 ≡ ok tt
passed = ap (λ r. r.1) passes

run_passes_example :
    (a : Allowlist) × (load_allowlist date (decoded (accepted_risk ∷ [])) 40 (pos 180) ≡ ok a)
    × IsCompleted (stream_of called_finding) a 40
    × All
        (IsAccepted a 40 (read_of (stream_of called_finding)).osvs)
        (read_of (stream_of called_finding)).findings
run_passes_example = run_passes date options 40 (stream_of called_finding) refl refl traced passed

abbrev trivy_hits : List HitsSource
trivy_hits = hits (record { scanner = "trivy"; matched = "CVE-2026-1" ∷ [] }) ∷ []
