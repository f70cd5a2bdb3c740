-- ===== src/Api/Crl/Listed.antt =====
-- The CRL that currentCRL (internal/api/server.go) returns lists what is revoked, cached or not.
use multivendor_hsm_pki.Prelude.{
  ℕ, ◌-◌, ◌≤◌, ◌≡◌, ◌↔◌, inl, inr, ◌∙◌, refl, sym, ap, Option, none, some, List, [], ◌∷◌, ℤ, pos,
  string_eq, int_eq, Result, ok, err, Member, arith, Bool-cases,
}
use multivendor_hsm_pki.Clock.{Time, before}
use multivendor_hsm_pki.Store.{CertRecord, status_revoked}
use multivendor_hsm_pki.Store.Service.{Failure, Records, IsRecords, Same, Lists, Numbers}
use multivendor_hsm_pki.Entitlement.{Net}
use multivendor_hsm_pki.Profile.Names.{Name}
use multivendor_hsm_pki.Ca.{Bytes, RevokedCert, RevocationList}
use multivendor_hsm_pki.Ca.Crl.{CrlError, build_crl, build_crl_iff}
use multivendor_hsm_pki.Api.{Web, Settings, Server}
use multivendor_hsm_pki.Api.Crl.{
  crl_clock_skew_allowance, entry_of, entries_of, CurrentError, next_update_for, on_built,
  on_number, on_listed, regenerate, on_cached, current_crl,
}

entries-Member :
    (recs : List (CertRecord Name)) (e : RevokedCert)
    → Member e (entries_of recs) ↔ ((rec : CertRecord Name) × Member rec recs × (e ≡ entry_of rec))
entries-Member [] e = ((λ h. absurd h), (λ h. absurd h.1))
entries-Member (rec ∷ recs) e = (
  (λ h. elim h [
    | inl here ↦ (rec, inl refl, here)
    | inr later ↦ (let (r, m, same) = (entries-Member recs e).0 later in (r, inr m, same))
  ]),
  (λ (r, m, same). elim m [
    | inl here ↦ inl (same ∙ ap entry_of here)
    | inr later ↦ inr ((entries-Member recs e).1 (r, later, same))
  ]),
)

module _ {E : Type 0} (w : Web E) {net : Net} (cfg : Settings net) (rs : Records Name) where
  -- The bytes are a CRL that was signed for exactly the certificates that the store shows revoked, with
  -- their times and reasons, and that ends no later than the issuer.
  abbrev pub IsCrlOf : rs.S → Bytes → Time → Type 0
  IsCrlOf s der next =
      (l : RevocationList) × (w.x509.create_crl l cfg.ca.cert ≡ ok der)
      × ((e : RevokedCert)
          → Member e l.entries ↔ (
              (rec : CertRecord Name) × (rs.view s rec.serial ≡ some rec)
              × (rec.status ≡ status_revoked)
              × (e ≡ entry_of rec)))
      × (l.next_update ≡ next)
      × (next ≤ cfg.ca.cert.not_after)

  -- What is cached is a CRL of what the store shows.
  abbrev pub IsCached : Server rs → Type 0
  IsCached srv =
      (der : Bytes) → srv.cached_crl ≡ some der → IsCrlOf srv.store der srv.cached_next_update

  abbrev IsRevokedIn : rs.S → CertRecord Name → Type 0
  IsRevokedIn s rec = (rs.view s rec.serial ≡ some rec) × (rec.status ≡ status_revoked)

  -- The same certificates are revoked.
  abbrev pub SameRevoked : rs.S → rs.S → Type 0
  SameRevoked s t = (rec : CertRecord Name) → IsRevokedIn s rec ↔ IsRevokedIn t rec

  pub SameRevoked-view : (s t : rs.S) → ((j : ℤ) → rs.view t j ≡ rs.view s j) → SameRevoked s t
  SameRevoked-view s t shows rec = (
    (λ (there, revoked). (shows rec.serial ∙ there, revoked)),
    (λ (there, revoked). (sym (shows rec.serial) ∙ there, revoked)),
  )

  pub IsCrlOf-SameRevoked :
      (s t : rs.S) (der : Bytes) (next : Time)
      → SameRevoked s t
      → IsCrlOf s der next
      → IsCrlOf t der next
  IsCrlOf-SameRevoked s t der next same (l, signed, entries, ends, bound) = (
    l,
    signed,
    (λ e. (
      (λ m.
          let (rec, there, revoked, is) = (entries e).0 m in
          let (there', revoked') = (same rec).0 (there, revoked) in (rec, there', revoked', is)),
      (λ (rec, there, revoked, is).
          let (there', revoked') = (same rec).1 (there, revoked) in
          (entries e).1 (rec, there', revoked', is)),
    )),
    ends,
    bound,
  )

  next_update_bound : (now : Time) → next_update_for w cfg now ≤ cfg.ca.cert.not_after
  unfolding next_update_for
  next_update_bound now = ground arith

  -- What currentCRL leaves: a CRL of what the store shows if it returns one, a cache that is right, and a
  -- store that shows what it showed.
  abbrev pub Current : Server rs → Result (CurrentError E) Bytes × Server rs → Type 0
  Current srv (ok der, srv') =
      IsCrlOf srv.store der srv'.cached_next_update
      × IsCached srv'
      × ((j : ℤ) → rs.view srv'.store j ≡ rs.view srv.store j)
      × (rs.Sound srv.store → rs.Sound srv'.store)
      × (srv'.cached_crl ≡ some der)
  Current srv (err e, srv') =
      IsCached srv'
      × ((j : ℤ) → rs.view srv'.store j ≡ rs.view srv.store j)
      × (rs.Sound srv.store → rs.Sound srv'.store)

  -- A cache over another state of the store that shows the same.
  IsCached-view :
      (srv : Server rs) (t : rs.S)
      → ((j : ℤ) → rs.view t j ≡ rs.view srv.store j)
      → IsCached srv
      → IsCached (record srv { store = t })
  IsCached-view srv t shows h der at =
      IsCrlOf-SameRevoked srv.store t der srv.cached_next_update
        (SameRevoked-view srv.store t shows) (h der at)

  on_built-Current :
      (now : Time) (srv : Server rs) (t : rs.S) (recs : List (CertRecord Name)) (n : ℕ)
      (result : Result (CrlError E) Bytes)
      → IsCached srv
      → Lists rs srv.store (ok recs)
      → ((j : ℤ) → rs.view t j ≡ rs.view srv.store j)
      → (rs.Sound srv.store → rs.Sound t)
      → build_crl w.x509 cfg.ca
          (entries_of recs)
          (now - crl_clock_skew_allowance)
          (next_update_for w cfg now)
          (some (pos n))
        ≡ result
      → Current srv (on_built w cfg now (record srv { store = t }) result)
  on_built-Current now srv t recs n (err e) h lists shows sound built =
      (IsCached-view srv t shows h, shows, sound)
  on_built-Current now srv t recs n (ok der) h lists shows sound built =
      let (m, _, _, _, signed) =
        (build_crl_iff w.x509 cfg.ca (entries_of recs) (now - crl_clock_skew_allowance)
            (next_update_for w cfg now) (some (pos n)) der).0
          built in
      let is_crl : IsCrlOf srv.store der (next_update_for w cfg now) = (
        record {
          number = m;
          this_update = now - crl_clock_skew_allowance;
          next_update = next_update_for w cfg now;
          entries = entries_of recs;
        },
        signed,
        (λ e. (
          (λ member.
              let (rec, m', is) = (entries-Member recs e).0 member in
              let (there, revoked) = (lists rec).0 m' in (rec, there, revoked, is)),
          (λ (rec, there, revoked, is).
              (entries-Member recs e).1 (rec, (lists rec).1 (there, revoked), is)),
        )),
        refl,
        next_update_bound now,
      ) in
      (
        is_crl,
        (λ other at.
            let same : der ≡ other = ground (arith, at) in
            IsCrlOf-SameRevoked srv.store t other (next_update_for w cfg now)
              (SameRevoked-view srv.store t shows) (rw same at is_crl)),
        shows,
        sound,
        refl,
      )

  on_number-Current :
      (now : Time) (srv : Server rs) (s t : rs.S) (recs : List (CertRecord Name))
      (result : Result Failure ℕ)
      → IsCached srv
      → Lists rs srv.store (ok recs)
      → Same rs srv.store s
      → Numbers rs s result t
      → Current srv (on_number w cfg now recs (record srv { store = s }) (result, t))
  on_number-Current now srv s t recs (err e) h lists (shows, _, sound) (_, (shows', _, sound')) =
      let both : (j : ℤ) → rs.view t j ≡ rs.view srv.store j = (λ j. shows' j ∙ shows j) in
      (IsCached-view srv t both h, both, (λ k. sound' (sound k)))
  on_number-Current now srv s t recs (ok n) h lists (shows, _, sound) (shows', _, _, sound') =
      on_built-Current now srv t recs n
        (build_crl w.x509 cfg.ca (entries_of recs) (now - crl_clock_skew_allowance)
          (next_update_for w cfg now) (some (pos n)))
        h lists (λ j. shows' j ∙ shows j) (λ k. sound' (sound k)) refl

  on_listed-Current :
      (laws : IsRecords rs) (now : Time) (srv : Server rs) (s : rs.S)
      (result : Result Failure (List (CertRecord Name)))
      → IsCached srv
      → Lists rs srv.store result
      → Same rs srv.store s
      → Current srv (on_listed w cfg now srv (result, s))
  on_listed-Current laws now srv s (err e) h lists (shows, _, sound) =
      (IsCached-view srv s shows h, shows, sound)
  on_listed-Current laws now srv s (ok recs) h lists same =
      on_number-Current now srv s (rs.next_crl_number now s).1 recs (rs.next_crl_number now s).0 h
        lists same (laws.numbers_law s now)

  regenerate-Current :
      (laws : IsRecords rs) (now : Time) (srv : Server rs)
      → rs.Sound srv.store
      → IsCached srv
      → Current srv (regenerate w cfg now srv)
  regenerate-Current laws now srv sound h =
      on_listed-Current laws now srv (rs.revoked srv.store).1 (rs.revoked srv.store).0 h
        (laws.lists_law srv.store sound) (laws.lists_same srv.store)

  on_cached-Current :
      (laws : IsRecords rs) (now : Time) (srv : Server rs) (cached : Option Bytes)
      → rs.Sound srv.store
      → IsCached srv
      → srv.cached_crl ≡ cached
      → Current srv (on_cached w cfg cached now srv)
  on_cached-Current laws now srv none sound h at = regenerate-Current laws now srv sound h
  on_cached-Current laws now srv (some der) sound h at =
      elim (Bool-cases (before now srv.cached_next_update)) [
        | inl fresh ↦ rw fresh (h der at, h, (λ j. refl), (λ k. k), at)
        | inr stale ↦ rw stale (regenerate-Current laws now srv sound h)
      ]

  -- On a store with the contract, and where the cached CRL is right: a CRL that currentCRL returns, from the
  -- cache or new, was signed for exactly the certificates that the store shows revoked, each with its serial,
  -- time and reason, and its nextUpdate is not after the issuer's NotAfter; the cache that is left is right,
  -- with that CRL in it, and the store shows what it showed.
  pub current_crl_exact :
      (laws : IsRecords rs) (now : Time) (srv : Server rs)
      → rs.Sound srv.store
      → IsCached srv
      → Current srv (current_crl w cfg now srv)
  unfolding current_crl
  current_crl_exact laws now srv sound h =
      on_cached-Current laws now srv srv.cached_crl sound h refl
