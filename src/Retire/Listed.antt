-- ===== src/Retire/Listed.antt =====
-- Which keys the published inventory allows to retire.
use multivendor_hsm_pki.Prelude.{
  ◌≡◌, ◌≢◌, ◌↔◌, refl, sym, ap, inl, inr, true, false, not, String, some, List, [], ◌∷◌, ◌==◌,
  string_eq, arith, Result, ok, err, Member, All, All-member, Pairwise, Bool-cases,
}
use multivendor_hsm_pki.Inventory.{Inventory, InventoryError, Keys, status_verify_only}
use multivendor_hsm_pki.Inventory.{Entry as KeyEntry}
use multivendor_hsm_pki.Inventory.Document.{Bytes, Json, parse, parse_sound}
use multivendor_hsm_pki.Inventory.Validity.{IsValid, Differ}
use multivendor_hsm_pki.Retire.{RetireError, bad_inventory, by_status, find_entry, retirable_entry}

by_status_iff :
    (label : String) (e f : KeyEntry)
    → (by_status label f ≡ ok e) ↔ ((e ≡ f) × (f.status ≡ status_verify_only))
unfolding by_status
by_status_iff label e f = (
  (λ h. elim (Bool-cases (f.status == status_verify_only)) [
    | inl t ↦
        (let same : f ≡ e = ground (arith, t, h) in
          (sym same, ground (arith, t, string_eq.beq_iff f.status status_verify_only)))
    | inr other ↦ absurd (ground (arith, other, h))
  ]),
  (λ (same, st).
      let t : (f.status == status_verify_only) ≡ true =
        (string_eq.beq_iff f.status status_verify_only).1 st in
      rw t (ap ok (sym same))),
)

find_sound :
    (label : String) (es : List KeyEntry) (e : KeyEntry)
    → find_entry label es ≡ ok e
    → Member e es × (e.label ≡ label) × (e.status ≡ status_verify_only)
unfolding find_entry
find_sound label [] e h = cc
find_sound label (f ∷ fs) e h = elim (Bool-cases (not (f.label == label))) [
  | inl other ↦
      (let (m, l, st) = find_sound label fs e (ground (arith, other, h)) in (inr m, l, st))
  | inr here ↦
      (let decided : by_status label f ≡ ok e = ground (arith, here, h) in
        let (same, st) = (by_status_iff label e f).0 decided in
        (
          inl same,
          ground (arith, same, here, string_eq.beq_iff f.label label),
          rw (sym same) at st,
        ))
]

find_complete :
    (label : String) (es : List KeyEntry) (e : KeyEntry)
    → Pairwise (λ f g. f.label ≢ g.label) es
    → Member e es
    → e.label ≡ label
    → e.status ≡ status_verify_only
    → find_entry label es ≡ ok e
unfolding find_entry
find_complete label [] e apart m l st = absurd m
find_complete label (f ∷ fs) e (here, apart) m l st = elim m [
  | inl same ↦
      (let labelled : not (f.label == label) ≡ false =
          ground (arith, same, l, string_eq.beq_iff f.label label) in
        rw labelled ((by_status_iff label e f).1 (same, rw same at st)))
  | inr later ↦
      (let differs : f.label ≢ e.label = All-member (λ g. f.label ≢ g.label) e fs here later in
        let other : not (f.label == label) ≡ true =
          ground (arith, differs, l, string_eq.beq_iff f.label label) in
        rw other (find_complete label fs e apart later l st))
]

labels_apart :
    (keys : Keys) (es : List KeyEntry)
    → Pairwise (Differ keys) es
    → Pairwise (λ f g. f.label ≢ g.label) es
labels_apart keys [] h = tt
labels_apart keys (e ∷ es) (here, rest) = (each es here, labels_apart keys es rest)
  where
    each : (fs : List KeyEntry) → All (Differ keys e) fs → All (λ g. e.label ≢ g.label) fs
    each [] h = tt
    each (f ∷ fs) ((l, _), h) = (l, each fs h)

-- An entry may be retired exactly if the inventory parses and lists it, under the label that was
-- given, as verify-only.
retirable_entry_iff :
    (keys : Keys) (json : Json) (text : Bytes) (label : String) (e : KeyEntry)
    → (retirable_entry (parse keys json) (some text) label ≡ ok e) ↔ (
        (inv : Inventory) × (parse keys json text ≡ ok inv)
        × Member e inv.keys
        × (e.label ≡ label)
        × (e.status ≡ status_verify_only))
unfolding retirable_entry
retirable_entry_iff keys json text label e = (
  (λ h. decided (parse keys json text) refl h),
  (λ (inv, p, m, l, st).
      rw (p, retirable_entry)
        (find_complete label inv.keys e
          (labels_apart keys inv.keys (IsValid.distinct (parse_sound keys json text inv p).0)) m l
          st)),
)
  where
    decided :
        (r : Result InventoryError Inventory)
        → parse keys json text ≡ r
        → (elim r as (λ x. Result RetireError KeyEntry) [
          | err x ↦ err (bad_inventory x)
          | ok inv ↦ find_entry label inv.keys
        ])
          ≡ ok e
        → (inv : Inventory) × (parse keys json text ≡ ok inv)
          × Member e inv.keys
          × (e.label ≡ label)
          × (e.status ≡ status_verify_only)
    decided (err x) p h = cc
    decided (ok inv) p h = let (m, l, st) = find_sound label inv.keys e h in (inv, p, m, l, st)
