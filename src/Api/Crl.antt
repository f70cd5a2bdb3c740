-- ===== src/Api/Crl.antt =====
-- currentCRL and handleCRL of internal/api/server.go.
pub mod Listed
pub mod Served
pub mod Kept
pub mod Lasting
use multivendor_hsm_pki.Prelude.{
  ℕ, ◌+◌, ◌-◌, ◌*◌, Bool, true, false, String, Option, none, some, List, [], ◌∷◌, ◌==◌, ◌||◌, ℤ,
  pos, string_eq, Result, ok, err, length, ltb, nat_beq, if◌then◌else◌,
}
use multivendor_hsm_pki.Clock.{Time, minute, add, after, before}
use multivendor_hsm_pki.Store.{CertRecord}
use multivendor_hsm_pki.Store.Service.{Failure, Records}
use multivendor_hsm_pki.Entitlement.{Net}
use multivendor_hsm_pki.Profile.Names.{Name}
use multivendor_hsm_pki.Ca.{Bytes, RevokedCert}
use multivendor_hsm_pki.Ca.Crl.{CrlError, build_crl}
use multivendor_hsm_pki.Api.{
  Message, text, Reply, error, artifact, Body, ReadError, read_at_most, Web, Settings, Server,
  seconds_until,
}

abbrev pub crl_clock_skew_allowance : ℕ
crl_clock_skew_allowance = 5 * minute

abbrev pub entry_of : CertRecord Name → RevokedCert
entry_of rec = record {
  serial = rec.serial;
  revoked_at = rec.revoked_at;
  reason_code = rec.revocation_reason;
}

abbrev pub entries_of : List (CertRecord Name) → List RevokedCert
entries_of [] = []
entries_of (rec ∷ recs) = entry_of rec ∷ entries_of recs

-- The error of currentCRL: of the store, or of BuildCRL.
pub data CurrentError (E : Type 0) : Type 0 where
  of_store : Failure → CurrentError E
  of_crl : CrlError E → CurrentError E

module _ {E : Type 0} (w : Web E) {net : Net} (cfg : Settings net) where
  -- nextUpdate, clamped to the issuer's NotAfter
  unfoldable pub next_update_for : Time → Time
  next_update_for now =
      if after (add now cfg.crl_validity) cfg.ca.cert.not_after
      then cfg.ca.cert.not_after
      else add now cfg.crl_validity

  module _ {rs : Records Name} where
    abbrev pub on_built :
        Time → Server rs → Result (CrlError E) Bytes → Result (CurrentError E) Bytes × Server rs
    on_built now srv (err e) = (err (of_crl e), srv)
    on_built now srv (ok der) =
        (ok der, record srv { cached_crl = some der; cached_next_update = next_update_for now })

    abbrev pub on_number :
        Time
        → List (CertRecord Name)
        → Server rs
        → Result Failure ℕ × rs.S
        → Result (CurrentError E) Bytes × Server rs
    on_number now recs srv (err e, s) = (err (of_store e), record srv { store = s })
    on_number now recs srv (ok n, s) =
        on_built now (record srv { store = s })
          (build_crl w.x509 cfg.ca (entries_of recs) (now - crl_clock_skew_allowance)
            (next_update_for now) (some (pos n)))

    abbrev pub on_listed :
        Time
        → Server rs
        → Result Failure (List (CertRecord Name)) × rs.S
        → Result (CurrentError E) Bytes × Server rs
    on_listed now srv (err e, s) = (err (of_store e), record srv { store = s })
    on_listed now srv (ok recs, s) =
        on_number now recs (record srv { store = s }) (rs.next_crl_number now s)

    abbrev pub regenerate : Time → Server rs → Result (CurrentError E) Bytes × Server rs
    regenerate now srv = on_listed now srv (rs.revoked srv.store)

    abbrev pub on_cached :
        Option Bytes → Time → Server rs → Result (CurrentError E) Bytes × Server rs
    on_cached none now srv = regenerate now srv
    on_cached (some der) now srv =
        let fresh = regenerate now srv in
        if before now srv.cached_next_update then (ok der, srv) else fresh

    -- currentCRL
    unfoldable pub current_crl : Time → Server rs → Result (CurrentError E) Bytes × Server rs
    current_crl now srv = on_cached srv.cached_crl now srv

    abbrev pub crl_written : Time → Result (CurrentError E) Bytes × Server rs → Reply E × Server rs
    crl_written later (err e, srv) = (error 500 (text "CRL generation failed"), srv)
    crl_written later (ok der, srv) = (
      artifact "application/pkix-crl" (some (seconds_until srv.cached_next_update later)) der,
      srv,
    )

    -- handleCRL: `later` is the time at which the header is written
    unfoldable pub handle_crl : Time → Time → Server rs → Reply E × Server rs
    handle_crl now later srv = crl_written later (current_crl now srv)
