-- ===== src/VulnGate/Loading.antt =====
-- loadAllowlist accepts exactly the files whose every entry can be reviewed, and keeps every entry.
use multivendor_hsm_pki.Prelude.{
  ℕ, ◌+◌, ◌≤◌, ◌≡◌, ◌≢◌, refl, sym, ◌∙◌, false, String, Option, none, some, List, [], ◌∷◌, ◌++◌,
  append_assoc, arith, ◌↔◌, inl, inr, ◌==◌, ℤ, string_eq, Result, ok, lookup, insert, lookup-insert,
  lookup-insert-none, beq_refl, append-nil, All, Pairwise, Option-cases, Bool-cases, append-eq-nil,
  append-ne-nil,
}
use multivendor_hsm_pki.Clock.{Time}
use multivendor_hsm_pki.Text.{is_blank}
use multivendor_hsm_pki.VulnGate.{
  RawEntry, AllowEntry, Allowlist, LoadError, Problem, no_id, listed_twice, decoded, read_expiry,
  statement_problems, load_entry, load_entries, empty_allowlist, usable, load_allowlist, add_days,
}

module _ (parse_date : String → Option Time) (horizon : Time) where
  -- An entry with an id, a statement, and a date of expiry that is not past the horizon.
  abbrev pub IsReviewable : RawEntry → Type 0
  IsReviewable e =
      (e.id ≢ "")
      × (is_blank e.statement ≡ false)
      × (e.expired_at ≢ "")
      × ((t : Time) × (parse_date e.expired_at ≡ some t) × (t ≤ horizon))

  -- The loaded form of an entry.
  abbrev pub loaded : RawEntry → AllowEntry
  loaded e = record { raw = e; expiry = (read_expiry parse_date horizon e).1 }

  abbrev extend : RawEntry → Allowlist → Allowlist
  extend e a = record a {
    by_id = insert e.id (loaded e) a.by_id;
    entries = a.entries ++ loaded e ∷ [];
  }

  expiry_clean :
      (e : RawEntry)
      → ((read_expiry parse_date horizon e).0 ≡ [])
        ↔ ((e.expired_at ≢ "") × ((t : Time) × (parse_date e.expired_at ≡ some t) × (t ≤ horizon)))
  unfolding read_expiry
  expiry_clean e = elim (Option-cases (parse_date e.expired_at)) [
    | inl bad ↦ ((λ h. absurd (ground (arith, bad))), (λ (ne, (t, p, l)). ground (arith, bad, p)))
    | inr (t, good) ↦ (
      (λ h. (
        ground (arith, good, string_eq.beq_iff e.expired_at ""),
        (t, good, ground (arith, good)),
      )),
      (λ (ne, (t', p, l)). ground (arith, good, p, l, ne, string_eq.beq_iff e.expired_at "")),
    )
  ]

  statement_clean : (e : RawEntry) → (statement_problems e ≡ []) ↔ (is_blank e.statement ≡ false)
  unfolding statement_problems
  statement_clean e = ((λ h. ground arith), (λ h. ground arith))

  -- An entry that adds no problem is reviewable and new, and it is added.
  entry_sound :
      (i : ℕ) (e : RawEntry) (a : Allowlist) (ps : List Problem)
      → (load_entry parse_date horizon i e a ps).1 ≡ []
      → (ps ≡ [])
        × IsReviewable e
        × (lookup e.id a.by_id ≡ none)
        × ((load_entry parse_date horizon i e a ps).0 ≡ extend e a)
  unfolding load_entry
  entry_sound i e a ps h = elim (Bool-cases (e.id == "")) [
    | inl unnamed ↦ absurd (append-ne-nil ps (no_id (i + 1)) (ground (arith, unnamed)))
    | inr named ↦ elim (Option-cases (lookup e.id a.by_id)) [
      | inr (old, known) ↦ absurd (
          append-ne-nil (ps ++ (statement_problems e ++ (read_expiry parse_date horizon e).0))
            (listed_twice e.id) (ground (arith, named, known)))
      | inl new ↦
          let (before, found) =
            append-eq-nil ps (statement_problems e ++ (read_expiry parse_date horizon e).0)
              (ground (arith, named, new)) in
          let (st, dt) =
            append-eq-nil (statement_problems e) (read_expiry parse_date horizon e).0 found in
          let (dated, when) = (expiry_clean e).0 dt in
          (
            before,
            (
              ground (arith, named, string_eq.beq_iff e.id ""),
              (statement_clean e).0 st,
              dated,
              when,
            ),
            new,
            ground (arith, named, new),
          )
    ]
  ]

  entry_complete :
      (i : ℕ) (e : RawEntry) (a : Allowlist)
      → IsReviewable e
      → lookup e.id a.by_id ≡ none
      → load_entry parse_date horizon i e a [] ≡ (extend e a, [])
  unfolding load_entry
  entry_complete i e a (named, stated, dated, when) new = ground (
    arith,
    string_eq.beq_iff e.id "",
    new,
    (statement_clean e).1 stated,
    (expiry_clean e).1 (dated, when),
  )

  split_new :
      (e : RawEntry) (a : Allowlist) (es : List RawEntry)
      → All (λ f. lookup f.id (extend e a).by_id ≡ none) es
      → All (λ f. lookup f.id a.by_id ≡ none) es × All (λ f. e.id ≢ f.id) es
  split_new e a [] h = (tt, tt)
  split_new e a (f ∷ fs) (new, h) =
      let (apart, old) = (lookup-insert-none e.id f.id (loaded e) a.by_id).0 new in
      let (olds, aparts) = split_new e a fs h in ((old, olds), (apart, aparts))

  entries_sound :
      (i : ℕ) (es : List RawEntry) (a : Allowlist) (ps : List Problem)
      → (load_entries parse_date horizon i es a ps).1 ≡ []
      → (ps ≡ [])
        × All IsReviewable es
        × All (λ e. lookup e.id a.by_id ≡ none) es
        × Pairwise (λ e f. e.id ≢ f.id) es
  unfolding load_entries
  entries_sound i [] a ps h = (h, tt, tt, tt)
  entries_sound i (e ∷ es) a ps h =
      let (clean, good, news, apart) =
        entries_sound (i + 1) es (load_entry parse_date horizon i e a ps).0
          (load_entry parse_date horizon i e a ps).1 h in
      let (before, fine, new, added) = entry_sound i e a ps clean in
      let (news', apart') = split_new e a es (rw added at news) in
      (before, (fine, good), (new, news'), (apart', apart))

  join_new :
      (e : RawEntry) (a : Allowlist) (es : List RawEntry)
      → All (λ f. lookup f.id a.by_id ≡ none) es
      → All (λ f. e.id ≢ f.id) es
      → All (λ f. lookup f.id (extend e a).by_id ≡ none) es
  join_new e a [] h g = tt
  join_new e a (f ∷ fs) (old, olds) (apart, aparts) = (
    (lookup-insert-none e.id f.id (loaded e) a.by_id).1 (apart, old),
    join_new e a fs olds aparts,
  )

  -- The list after the entries of a clean file.
  extend_all : List RawEntry → Allowlist → Allowlist
  extend_all [] a = a
  extend_all (e ∷ es) a = extend_all es (extend e a)

  entries_complete :
      (i : ℕ) (es : List RawEntry) (a : Allowlist)
      → All IsReviewable es
      → All (λ e. lookup e.id a.by_id ≡ none) es
      → Pairwise (λ e f. e.id ≢ f.id) es
      → load_entries parse_date horizon i es a [] ≡ (extend_all es a, [])
  unfolding load_entries extend_all
  entries_complete i [] a good news apart = refl
  entries_complete i (e ∷ es) a (fine, good) (new, news) (apart, aparts) =
      rw (entry_complete i e a fine new)
        (entries_complete (i + 1) es (extend e a) good (join_new e a es news apart) aparts)

  pub all_loaded : List RawEntry → List AllowEntry
  all_loaded [] = []
  all_loaded (e ∷ es) = loaded e ∷ all_loaded es

  entries-extend_all :
      (es : List RawEntry) (a : Allowlist)
      → ((extend_all es a).entries ≡ a.entries ++ all_loaded es) × ((extend_all es a).hits ≡ a.hits)
  unfolding extend_all all_loaded
  entries-extend_all [] a = (sym (append-nil a.entries), refl)
  entries-extend_all (e ∷ es) a =
      let (kept, hits) = entries-extend_all es (extend e a) in
      (kept ∙ append_assoc a.entries (loaded e ∷ []) (all_loaded es), hits)

  lookup_kept :
      (es : List RawEntry) (a : Allowlist) (id : String) (x : AllowEntry)
      → lookup id a.by_id ≡ some x
      → All (λ e. lookup e.id a.by_id ≡ none) es
      → Pairwise (λ e f. e.id ≢ f.id) es
      → lookup id (extend_all es a).by_id ≡ some x
  unfolding extend_all
  lookup_kept [] a id x h news apart = h
  lookup_kept (e ∷ es) a id x h (new, news) (here, apart) =
      lookup_kept es (extend e a) id x
        (lookup-insert e.id id (loaded e) a.by_id
          ∙ ground (arith, h, new, string_eq.beq_iff e.id id))
        (join_new e a es news here) apart

  -- Each entry is found under its id.
  lookup-loaded :
      (es : List RawEntry) (a : Allowlist)
      → All (λ e. lookup e.id a.by_id ≡ none) es
      → Pairwise (λ e f. e.id ≢ f.id) es
      → All (λ e. lookup e.id (extend_all es a).by_id ≡ some (loaded e)) es
  unfolding extend_all
  lookup-loaded [] a news apart = tt
  lookup-loaded (e ∷ es) a (new, news) (here, apart) = (
    lookup_kept es (extend e a) e.id (loaded e)
        (lookup-insert e.id e.id (loaded e) a.by_id ∙ ground (arith, beq_refl e.id))
        (join_new e a es news here) apart,
    lookup-loaded es (extend e a) (join_new e a es news here) apart,
  )

-- The list that a clean file gives: every entry, in order, each found under its id, and no hits.
pub record IsLoaded (pd : String → Option Time) (horizon : Time) (raws : List RawEntry)
    (a : Allowlist) : Type 0 where
  pub kept : a.entries ≡ all_loaded pd horizon raws
  pub found : All (λ e. lookup e.id a.by_id ≡ some (loaded pd horizon e)) raws
  pub unused : a.hits ≡ []

abbrev list_result : Allowlist → Result LoadError Allowlist
list_result a = ok a

one_list : {a b : Allowlist} → list_result a ≡ ok b → a ≡ b
one_list h = ground arith

usable_clean : (r : Allowlist × List Problem) (a : Allowlist) → usable r ≡ ok a → r.1 ≡ []
usable_clean (b, []) a h = refl
usable_clean (b, p ∷ ps) a h = cc

module _ (pd : String → Option Time) (raws : List RawEntry) (now : Time) (days : ℤ) where
  none_yet : (es : List RawEntry) → All (λ e. lookup e.id empty_allowlist.by_id ≡ none) es
  unfolding lookup
  none_yet [] = tt
  none_yet (e ∷ es) = (refl, none_yet es)

  load_clean :
      (a : Allowlist)
      → load_allowlist pd (decoded raws) now days ≡ ok a
      → All (IsReviewable pd (add_days now days)) raws × Pairwise (λ e f. e.id ≢ f.id) raws
  unfolding load_allowlist
  load_clean a loads =
      let (_, good, _, apart) =
        entries_sound pd (add_days now days) 0 raws empty_allowlist [] (usable_clean _ a loads) in
      (good, apart)

  clean_loads :
      All (IsReviewable pd (add_days now days)) raws
      → Pairwise (λ e f. e.id ≢ f.id) raws
      → load_allowlist pd (decoded raws) now days
        ≡ ok (extend_all pd (add_days now days) raws empty_allowlist)
  unfolding load_allowlist
  clean_loads good apart =
      rw (entries_complete pd (add_days now days) 0 raws empty_allowlist good (none_yet raws) apart)
        refl

  -- An allowlist that is read and decoded loads exactly if each entry has an id, a statement that
  -- is not blank, and a date of expiry that parses and is not past the horizon, and no id is listed
  -- twice. Every list that loads holds every entry of the file in order, finds each under its id,
  -- and has no hits.
  pub load_allowlist_exact :
      (((a : Allowlist) × (load_allowlist pd (decoded raws) now days ≡ ok a))
        ↔ (All (IsReviewable pd (add_days now days)) raws × Pairwise (λ e f. e.id ≢ f.id) raws))
      × ((a : Allowlist)
          → load_allowlist pd (decoded raws) now days ≡ ok a
          → IsLoaded pd (add_days now days) raws a)
  load_allowlist_exact = (
    (
      (λ (a, loads). load_clean a loads),
      (λ (good, apart).
          (extend_all pd (add_days now days) raws empty_allowlist, clean_loads good apart)),
    ),
    (λ a loads.
        let (good, apart) = load_clean a loads in
        let same : extend_all pd (add_days now days) raws empty_allowlist ≡ a =
          one_list (sym (clean_loads good apart) ∙ loads) in
        rw same at (all_kept apart)),
  )
    where
      all_kept :
          Pairwise (λ e f. e.id ≢ f.id) raws
          → IsLoaded pd
              (add_days now days)
              raws
              (extend_all pd (add_days now days) raws empty_allowlist)
      all_kept apart = record {
        kept = (entries-extend_all pd (add_days now days) raws empty_allowlist).0;
        found = lookup-loaded pd (add_days now days) raws empty_allowlist (none_yet raws) apart;
        unused = (entries-extend_all pd (add_days now days) raws empty_allowlist).1;
      }
