-- ===== src/VulnGate/Gate.antt =====
-- ci/vuln-gate/main.go: what trivy suppressed, and the verdict over the findings of govulncheck.
-- JSON arrives decoded. The lines that the program prints are replaced by what they tell apart.
use multivendor_hsm_pki.Prelude.{
  ℕ, ◌+◌, Bool, true, false, not, String, Option, none, some, List, [], ◌∷◌, ◌++◌, ◌==◌, string_eq,
  Result, ok, err, Assoc, lookup, insert, length, if◌then◌else◌,
}
use multivendor_hsm_pki.Clock.{Time}
use multivendor_hsm_pki.VulnGate.{AllowEntry, Allowlist, covers}

-- A modified finding of a trivy report.
pub record Modified : Type 0 where
  pub status : String
  pub vulnerability_id : String

pub data TrivySource : Type 0 where
  unreadable malformed : TrivySource
  report : List (List Modified) → TrivySource

pub data GateError : Type 0 where
  cannot_read cannot_parse no_config : GateError
  -- the number of reachable findings with no exception
  reachable : ℕ → GateError
  -- an index out of range: the process dies
  panics : GateError

-- The inner loop of recordTrivySuppressions, with the count so far.
unfoldable pub record_modified : Time → List Modified → Allowlist → ℕ → Allowlist × ℕ
record_modified now [] a n = (a, n)
record_modified now (m ∷ ms) a n =
    let (a', found) = covers a now (m.vulnerability_id ∷ []) in
    let skip = record_modified now ms a n in
    let go = record_modified now ms a' (elim found [ none ↦ n | some _ ↦ n + 1 ]) in
    if not (m.status == "ignored") then skip else go

unfoldable pub record_results : Time → List (List Modified) → Allowlist → ℕ → Allowlist × ℕ
record_results now [] a n = (a, n)
record_results now (ms ∷ results) a n =
    let (a', n') = record_modified now ms a n in record_results now results a' n'

-- recordTrivySuppressions
unfoldable pub record_trivy_suppressions :
    TrivySource → Allowlist → Time → Allowlist × Result GateError ℕ
record_trivy_suppressions unreadable a now = (a, err cannot_read)
record_trivy_suppressions malformed a now = (a, err cannot_parse)
record_trivy_suppressions (report results) a now =
    let (a', n) = record_results now results a 0 in (a', ok n)

pub record Frame : Type 0 where
  pub module_path : String
  pub version : String
  pub package_path : String
  pub function : String

pub record Osv : Type 0 where
  pub id : String
  pub aliases : List String
  pub summary : String

pub record Finding : Type 0 where
  pub osv : String
  pub fixed_version : String
  pub trace : List Frame

-- gvcMessage: which of the three keys the object has
pub record Message : Type 0 where
  pub config : Bool
  pub osv : Option Osv
  pub finding : Option Finding

-- The messages up to the end of the input, or up to an object that does not decode.
pub record Stream : Type 0 where
  pub messages : List Message
  pub complete : Bool

unfoldable pub called : Finding → Bool
called f = elim f.trace [ [] ↦ false | frame ∷ _ ↦ not (frame.function == "") ]

-- What the decoding loop has collected.
pub record Collected : Type 0 where
  pub saw_config : Bool
  pub osvs : Assoc String Osv
  pub findings : List Finding

abbrev pub collect_finding : Message → Collected → Collected
collect_finding m c = elim m.finding [
  | none ↦ c
  | some f ↦ record c { findings = c.findings ++ f ∷ [] }
]

-- The switch, in its order.
unfoldable pub collect_one : Message → Collected → Collected
collect_one m c = if m.config then record c { saw_config = true } else elim m.osv [
  | some osv ↦ record c { osvs = insert osv.id osv c.osvs }
  | none ↦ collect_finding m c
]

unfoldable pub collect : List Message → Collected → Collected
collect [] c = c
collect (m ∷ ms) c = collect ms (collect_one m c)

abbrev pub nothing_collected : Collected
nothing_collected = record { saw_config = false; osvs = []; findings = [] }

-- osvs[f.OSV].Aliases: a missing record has none
unfoldable pub ids_of : Assoc String Osv → Finding → List String
ids_of osvs f = f.osv ∷ (elim (lookup f.osv osvs) [ none ↦ [] | some osv ↦ osv.aliases ])

-- The lists and counts of judgeGovulncheck's loop over the findings.
pub record Verdict : Type 0 where
  pub list : Allowlist
  pub blocking : List Finding
  pub suppressed : List (Finding × AllowEntry)
  pub imported : ℕ
  pub required : ℕ

-- f.Trace[0].Package of a finding that is not called, which counts it at its level; `none` is the
-- index out of range
unfoldable pub count_level : Finding → Verdict → Option Verdict
count_level f v = elim f.trace [
  | [] ↦ none
  | frame ∷ _ ↦
      if not (frame.package_path == "")
      then some (record v { imported = v.imported + 1 })
      else some (record v { required = v.required + 1 })
]

-- A called finding is suppressed if an entry in force covers it, and blocks otherwise.
unfoldable pub judge_called : Time → Assoc String Osv → Finding → Verdict → Verdict
judge_called now osvs f v =
    let (a, found) = covers v.list now (ids_of osvs f) in
    elim found [
      | some e ↦ record v { list = a; suppressed = v.suppressed ++ (f, e) ∷ [] }
      | none ↦ record v { list = a; blocking = v.blocking ++ f ∷ [] }
    ]

unfoldable pub judge_one : Time → Assoc String Osv → Finding → Verdict → Option Verdict
judge_one now osvs f v =
    if not (called f) then count_level f v else some (judge_called now osvs f v)

unfoldable pub judge_findings : Time → Assoc String Osv → List Finding → Verdict → Option Verdict
judge_findings now osvs [] v = some v
judge_findings now osvs (f ∷ fs) v = elim (judge_one now osvs f v) [
  | none ↦ none
  | some v' ↦ judge_findings now osvs fs v'
]

abbrev pub start : Allowlist → Verdict
start a = record { list = a; blocking = []; suppressed = []; imported = 0; required = 0 }

abbrev pub conclude : Allowlist → Option Verdict → Allowlist × Result GateError Verdict
conclude a none = (a, err panics)
conclude a (some v) = elim v.blocking [
  | [] ↦ (v.list, ok v)
  | _ ∷ _ ↦ (v.list, err (reachable (length v.blocking)))
]

-- judgeGovulncheck, and the allowlist with the hits of this run
unfoldable pub judge_govulncheck : Stream → Allowlist → Time → Allowlist × Result GateError Verdict
judge_govulncheck s a now =
    if not s.complete
    then (a, err cannot_parse)
    else let c = collect s.messages nothing_collected in
      if not c.saw_config
      then (a, err no_config)
      else conclude a (judge_findings now c.osvs c.findings (start a))
