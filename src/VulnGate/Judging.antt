-- ===== src/VulnGate/Judging.antt =====
-- When the gate over govulncheck's findings passes, blocks, and dies.
use multivendor_hsm_pki.Prelude.{
  ◌+◌, ◌≡◌, ◌≢◌, ◌∙◌, refl, sym, true, false, not, ◌&&◌, Bool, String, none, some, List, [], ◌∷◌,
  ◌++◌, append-nil, append_assoc, arith, ◌⊎◌, inl, inr, ◌↔◌, ◌==◌, string_eq, Assoc, All, Member,
  filter, filter-eq-nil, any, List-cases, Option-cases, Bool-cases, ok, err, if◌then◌else◌,
}
use multivendor_hsm_pki.Clock.{Time}
use multivendor_hsm_pki.VulnGate.{AllowEntry, Allowlist, covers}
use multivendor_hsm_pki.VulnGate.Covers.{Covered, covers_exact, by_id-covers, covers_of_by_id}
use multivendor_hsm_pki.VulnGate.Gate.{
  panics, Osv, Finding, Message, Stream, called, Collected, collect_one, collect, nothing_collected,
  ids_of, Verdict, count_level, judge_called, judge_one, judge_findings, start, conclude,
  judge_govulncheck,
}

-- Called, and no exception in force covers it.
abbrev uncovered : Allowlist → Time → Assoc String Osv → Finding → Bool
uncovered a now osvs f =
    called f && (elim (covers a now (ids_of osvs f)).1 [ none ↦ true | some _ ↦ false ])

abbrev pub IsTraced : Finding → Type 0
IsTraced f = f.trace ≢ []

module _ (a : Allowlist) (now : Time) (osvs : Assoc String Osv) where
  -- What one finding does to the verdict.
  abbrev Judged : Finding → Verdict → Verdict → Type 0
  Judged f v v' =
      (judge_one now osvs f v ≡ some v')
      × (v'.list.by_id ≡ a.by_id)
      × (v'.blocking ≡ (if uncovered a now osvs f then v.blocking ++ f ∷ [] else v.blocking))

  count_level_total :
      (f : Finding) (v : Verdict)
      → IsTraced f
      → (v' : Verdict) × (count_level f v ≡ some v')
        × (v'.list ≡ v.list)
        × (v'.blocking ≡ v.blocking)
  unfolding count_level
  count_level_total f v traced = elim (List-cases f.trace) [
    | inl untraced ↦ absurd (traced untraced)
    | inr (frame, rest, e) ↦ elim (Bool-cases (not (frame.package_path == ""))) [
      | inl named ↦ (record v { imported = v.imported + 1 }, ground (arith, e, named), refl, refl)
      | inr unnamed ↦
          (record v { required = v.required + 1 }, ground (arith, e, unnamed), refl, refl)
    ]
  ]

  judge_step :
      (f : Finding) (v : Verdict)
      → IsTraced f
      → v.list.by_id ≡ a.by_id
      → (v' : Verdict) × Judged f v v'
  unfolding judge_one
  judge_step f v traced same = elim (Bool-cases (called f)) [
    | inl yes_called ↦ (
      judge_called now osvs f v,
      (
        ground arith,
        (unfold judge_called in ground (arith, by_id-covers v.list now (ids_of osvs f))),
        (unfold judge_called in ground (arith, covers_of_by_id v.list a now (ids_of osvs f))),
      ),
    )
    | inr not_called ↦
        let (v', done, list, blocking) = count_level_total f v traced in
        (v', (ground (arith, done), ground (arith, list), ground (arith, blocking)))
  ]

  -- Traced findings are judged without a fault, and those that block are the uncovered ones.
  judge_all :
      (fs : List Finding) (v : Verdict)
      → All IsTraced fs
      → v.list.by_id ≡ a.by_id
      → (v' : Verdict) × (judge_findings now osvs fs v ≡ some v')
        × (v'.blocking ≡ v.blocking ++ filter (uncovered a now osvs) fs)
  unfolding judge_findings filter
  judge_all [] v traced same = (v, refl, sym (append-nil v.blocking))
  judge_all (f ∷ fs) v (t, ts) same =
      let (v', (one, list, blocking)) = judge_step f v t same in
      let (v'', rest, all) = judge_all fs v' ts list in
      (
        v'',
        ground (arith, one, rest),
        ground (
          arith,
          all,
          blocking,
          append_assoc v.blocking (f ∷ []) (filter (uncovered a now osvs) fs),
        ),
      )

  untraced_not_called : (f : Finding) → f.trace ≡ [] → called f ≡ false
  unfolding called
  untraced_not_called f e = ground (arith, e)

  count_level_untraced : (f : Finding) (v : Verdict) → f.trace ≡ [] → count_level f v ≡ none
  unfolding count_level
  count_level_untraced f v e = ground (arith, e)

  -- One finding with no trace ends the run in an index out of range, whatever comes before it.
  judge_dies :
      (fs : List Finding) (f : Finding) (v : Verdict)
      → Member f fs
      → f.trace ≡ []
      → judge_findings now osvs fs v ≡ none
  unfolding judge_findings
  judge_dies [] f v m e = absurd m
  judge_dies (g ∷ gs) f v m e = elim m [
    | inl same ↦
        let none_here : judge_one now osvs g v ≡ none =
          unfold judge_one in
          (rw (← same) (ground (arith, untraced_not_called f e, count_level_untraced f v e))) in
        ground (arith, none_here)
    | inr later ↦ (elim (Option-cases (judge_one now osvs g v)) [
      | inl dead ↦ ground (arith, dead)
      | inr (v', live) ↦ ground (arith, live, judge_dies gs f v' later e)
    ])
  ]

-- What the decoding loop hands to the judging loop.
abbrev pub read_of : Stream → Collected
read_of s = collect s.messages nothing_collected

collect-saw_config :
    (ms : List Message) (c : Collected)
    → ((collect ms c).saw_config ≡ true) ↔ ((c.saw_config ≡ true) ⊎ (any (λ m. m.config) ms ≡ true))
unfolding collect collect_one any
collect-saw_config [] c = ((λ h. inl h), (λ h. ground arith))
collect-saw_config (m ∷ ms) c = (
  (λ h. ground (arith, (collect-saw_config ms (collect_one m c)).0)),
  (λ h. ground (arith, (collect-saw_config ms (collect_one m c)).1)),
)

-- A finding does not block if it is not called, or an exception in force covers it.
abbrev pub IsAccepted : Allowlist → Time → Assoc String Osv → Finding → Type 0
IsAccepted a now osvs f = (called f ≡ false) ⊎ ((e : AllowEntry) × Covered a now (ids_of osvs f) e)

uncovered_iff :
    (a : Allowlist) (now : Time) (osvs : Assoc String Osv) (f : Finding)
    → (uncovered a now osvs f ≡ false) ↔ IsAccepted a now osvs f
uncovered_iff a now osvs f = elim (covers_exact a now (ids_of osvs f)) [
  | inl (nothing, no_entry) ↦ (
    (λ h. inl (ground (arith, nothing))),
    (λ h. elim h [ inl idle ↦ ground (arith, idle) | inr (e, c) ↦ absurd (no_entry e c) ]),
  )
  | inr (e, found, c) ↦ ((λ h. inr (e, c)), (λ h. ground (arith, found)))
]

IsAccepted-iff :
    (a : Allowlist) (now : Time) (osvs : Assoc String Osv) (fs : List Finding)
    → All (λ f. uncovered a now osvs f ≡ false) fs ↔ All (IsAccepted a now osvs) fs
IsAccepted-iff a now osvs [] = ((λ h. tt), (λ h. tt))
IsAccepted-iff a now osvs (f ∷ fs) = (
  (λ h. ((uncovered_iff a now osvs f).0 h.0, (IsAccepted-iff a now osvs fs).0 h.1)),
  (λ h. ((uncovered_iff a now osvs f).1 h.0, (IsAccepted-iff a now osvs fs).1 h.1)),
)

module _ (s : Stream) (a : Allowlist) (now : Time) where
  -- The input is read to its end and carries a config record.
  abbrev pub IsCompleted : Type 0
  IsCompleted = (s.complete ≡ true) × (any (λ m. m.config) s.messages ≡ true)

  saw_config : any (λ m. m.config) s.messages ≡ true → (read_of s).saw_config ≡ true
  saw_config h = (collect-saw_config s.messages nothing_collected).1 (inr h)

  judged_parts :
      (w : Verdict)
      → (judge_govulncheck s a now).1 ≡ ok w
      → (s.complete ≡ true)
        × ((read_of s).saw_config ≡ true)
        × ((conclude a (judge_findings now (read_of s).osvs (read_of s).findings (start a))).1
            ≡ ok w)
  unfolding judge_govulncheck
  judged_parts w h = (ground arith, ground arith, ground arith)

  nothing_blocks : (v w : Verdict) → (conclude a (some v)).1 ≡ ok w → v.blocking ≡ []
  nothing_blocks v w h = ground arith

  -- Where every finding has a trace, the gate passes exactly if the input is read to its end, holds
  -- a config record, and each finding is either not called or covered by an exception that is
  -- listed under its id or an alias and has not expired.
  pub judge_govulncheck_passes :
      All IsTraced (read_of s).findings
      → ((v : Verdict) × ((judge_govulncheck s a now).1 ≡ ok v))
        ↔ (IsCompleted × All (IsAccepted a now (read_of s).osvs) (read_of s).findings)
  unfolding judge_govulncheck
  judge_govulncheck_passes traced =
      let c = read_of s in
      let (v, judged, blocking) = judge_all a now c.osvs c.findings (start a) traced refl in
      let same : v.blocking ≡ filter (uncovered a now c.osvs) c.findings = blocking in
      (
        (λ (w, h).
            let (complete, saw, last) = judged_parts w h in
            let clear : v.blocking ≡ [] = nothing_blocks v w (ground (arith, judged, last)) in
            (
              (
                complete,
                elim ((collect-saw_config s.messages nothing_collected).0 saw) [
                  | inl before ↦ absurd (ground (arith, before))
                  | inr found ↦ found
                ],
              ),
              (IsAccepted-iff a now c.osvs c.findings).0
                  ((filter-eq-nil (uncovered a now c.osvs) c.findings).0 (sym same ∙ clear)),
            )),
        (λ (done, accepted).
            let clear : v.blocking ≡ [] =
              same
              ∙ (filter-eq-nil (uncovered a now c.osvs) c.findings).1
                  ((IsAccepted-iff a now c.osvs c.findings).1 accepted) in
            (v, ground (arith, done.0, saw_config done.1, judged, clear))),
      )

  -- Where some finding of a completed run has an empty trace, the program dies by an index out of
  -- range, so it gives no verdict.
  pub judge_govulncheck_panics :
      (f : Finding)
      → IsCompleted
      → Member f (read_of s).findings
      → f.trace ≡ []
      → (judge_govulncheck s a now).1 ≡ err panics
  unfolding judge_govulncheck
  judge_govulncheck_panics f done m e = ground (
    arith,
    done.0,
    saw_config done.1,
    judge_dies a now (read_of s).osvs (read_of s).findings f (start a) m e,
  )
