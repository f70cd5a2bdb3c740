-- ===== src/VulnGate/Passing.antt =====
-- What a successful run of ci/vuln-gate/main.go says about the findings.
use multivendor_hsm_pki.Prelude.{
  ℕ, ◌≡◌, refl, ◌∙◌, Bool, true, false, not, String, Option, none, some, List, [], ◌∷◌, ◌==◌,
  string_eq, Result, ok, err, All, Assoc, Bool-cases, inl, inr,
}
use multivendor_hsm_pki.Clock.{Time}
use multivendor_hsm_pki.VulnGate.{Allowlist, LoadError, load_allowlist, covers}
use multivendor_hsm_pki.VulnGate.Gate.{
  TrivySource, unreadable, malformed, report, Modified, record_modified, record_results, GateError,
  panics, record_trivy_suppressions, Stream, Verdict, judge_govulncheck, Finding, Osv,
}
use multivendor_hsm_pki.VulnGate.Covers.{by_id-covers}
use multivendor_hsm_pki.VulnGate.Judging.{
  IsTraced, IsAccepted, IsCompleted, read_of, judge_govulncheck_passes,
}
use multivendor_hsm_pki.VulnGate.Command.{
  opened, Options, RunError, gate, record_reports, finish, after_judging, judge_source,
  after_reports, use_allowlist, after_load, run,
}

by_id-record_modified :
    (now : Time) (ms : List Modified) (a : Allowlist) (n : ℕ)
    → (record_modified now ms a n).0.by_id ≡ a.by_id
unfolding record_modified
by_id-record_modified now [] a n = refl
by_id-record_modified now (m ∷ ms) a n =
    let found = covers a now (m.vulnerability_id ∷ []) in
    let skipped : (record_modified now ms a n).0.by_id ≡ a.by_id =
      by_id-record_modified now ms a n in
    elim (Bool-cases (not (m.status == "ignored"))) [
      | inl skip ↦ rw skip skipped
      | inr ignored ↦
          rw ignored
            (by_id-record_modified now ms found.0 _ ∙ by_id-covers a now (m.vulnerability_id ∷ []))
    ]

by_id-record_results :
    (now : Time) (results : List (List Modified)) (a : Allowlist) (n : ℕ)
    → (record_results now results a n).0.by_id ≡ a.by_id
unfolding record_results
by_id-record_results now [] a n = refl
by_id-record_results now (ms ∷ results) a n =
    by_id-record_results now results _ _ ∙ by_id-record_modified now ms a n

by_id-record_suppressions :
    (r : TrivySource) (a : Allowlist) (now : Time)
    → (record_trivy_suppressions r a now).0.by_id ≡ a.by_id
unfolding record_trivy_suppressions
by_id-record_suppressions unreadable a now = refl
by_id-record_suppressions malformed a now = refl
by_id-record_suppressions (report results) a now = by_id-record_results now results a 0

by_id_after :
    (rs : List TrivySource) (a : Allowlist) (now : Time) (p : Allowlist × Result GateError ℕ)
    → p.0.by_id ≡ a.by_id
    → ((b : Allowlist) → (record_reports rs b now).0.by_id ≡ b.by_id)
    → (elim p.1 as (λ x. Allowlist × Result GateError (Unit {0})) [
      | ok _ ↦ record_reports rs p.0 now
      | err e ↦ (p.0, err e)
    ]).0.by_id
      ≡ a.by_id
by_id_after rs a now (b, ok n) kept rest = rest b ∙ kept
by_id_after rs a now (b, err e) kept rest = kept

by_id-record_reports :
    (rs : List TrivySource) (a : Allowlist) (now : Time)
    → (record_reports rs a now).0.by_id ≡ a.by_id
unfolding record_reports
by_id-record_reports [] a now = refl
by_id-record_reports (r ∷ rs) a now =
    by_id_after rs a now (record_trivy_suppressions r a now) (by_id-record_suppressions r a now)
      (λ b. by_id-record_reports rs b now)

-- What an allowlist accepts depends on its entries by id alone.
IsAccepted-by_id :
    (a b : Allowlist) (now : Time) (osvs : Assoc String Osv) (fs : List Finding)
    → a.by_id ≡ b.by_id
    → All (IsAccepted a now osvs) fs
    → All (IsAccepted b now osvs) fs
IsAccepted-by_id a b now osvs [] e h = tt
IsAccepted-by_id a b now osvs (f ∷ fs) e (here, rest) =
    (one here, IsAccepted-by_id a b now osvs fs e rest)
  where
    one : IsAccepted a now osvs f → IsAccepted b now osvs f
    one (inl idle) = inl idle
    one (inr (x, (id, m, (found, live)))) = inr (x, (id, m, (rw e at found, live)))

finish-err :
    (hits : Option Bool) (scanner : String) (a : Allowlist) (e : RunError)
    → (finish hits scanner a (err e)).1 ≡ ok tt
    → ⊥
finish-err none scanner a e h = cc
finish-err (some false) scanner a e h = cc
finish-err (some true) scanner a e h = cc

judged-ok :
    (hits : Option Bool) (scanner : String) (p : Allowlist × Result GateError Verdict)
    → (after_judging hits scanner p).1 ≡ ok tt
    → (v : Verdict) × (p.1 ≡ ok v)
judged-ok hits scanner (a, ok v) h = (v, refl)
judged-ok hits scanner (a, err panics) h = cc
judged-ok hits scanner (a, err e) h = absurd (finish-err hits scanner a (gate e) h)

-- What is known when a run that judges findings succeeds.
judging_ok :
    (o : Options) (now : Time) (a : Allowlist) (s : Stream)
    (p : Allowlist × Result GateError (Unit {0}))
    → p.0.by_id ≡ a.by_id
    → All IsTraced (read_of s).findings
    → (after_reports o now p).1 ≡ ok tt
    → o.govulncheck ≡ some (opened s)
    → IsCompleted s a now × All (IsAccepted a now (read_of s).osvs) (read_of s).findings
judging_ok o now a s (b, err e) kept traced h source = cc
judging_ok o now a s (b, ok _) kept traced h source =
    let h' : (judge_source o now b (some (opened s))).1 ≡ ok tt = rw source at h in
    let (v, passes) = judged-ok o.write_hits o.scanner (judge_govulncheck s b now) h' in
    let (done, accepted) = (judge_govulncheck_passes s b now traced).0 (v, passes) in
    (done, IsAccepted-by_id b a now (read_of s).osvs (read_of s).findings kept accepted)

loaded_ok :
    (o : Options) (now : Time) (r : Result LoadError Allowlist)
    → (after_load o now r).1 ≡ ok tt
    → (a : Allowlist) × (r ≡ ok a) × ((use_allowlist o now a o.require_used).1 ≡ ok tt)
loaded_ok o now (ok a) h = (a, refl, h)
loaded_ok o now (err e) h = cc

-- If a run that is given findings of govulncheck, each with a trace, and no hits files to unite,
-- succeeds, then its allowlist loads, the findings are read to their end with a config record among
-- them, and each finding is not called or is covered by an exception of that list in force.
pub run_passes :
    (parse_date : String → Option Time) (o : Options) (now : Time) (s : Stream)
    → o.require_used ≡ []
    → o.govulncheck ≡ some (opened s)
    → All IsTraced (read_of s).findings
    → (run parse_date o now).1 ≡ ok tt
    → (a : Allowlist) × (load_allowlist parse_date o.allowlist now o.max_horizon_days ≡ ok a)
      × IsCompleted s a now
      × All (IsAccepted a now (read_of s).osvs) (read_of s).findings
unfolding run
run_passes parse_date o now s alone source traced h =
    let (a, loads, used) =
      loaded_ok o now (load_allowlist parse_date o.allowlist now o.max_horizon_days) h in
    let (done, accepted) =
      judging_ok o now a s (record_reports o.trivy a now) (by_id-record_reports o.trivy a now)
        traced (rw alone at used) source in
    (a, loads, done, accepted)
