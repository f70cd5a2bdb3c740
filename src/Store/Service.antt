-- ===== src/Store/Service.antt =====
-- The Store interface (internal/store/store.go) as a service uses it: every method may also fail with
-- an error of the implementation's own, and Revoked lists what is revoked. `Sound` is what an
-- implementation keeps true of its state; a method that fails leaves what the store holds.
use multivendor_hsm_pki.Prelude.{
  ℕ, ◌≡◌, ◌↔◌, Option, some, List, ℤ, int_eq, string_eq, Result, ok, err, Member,
}
use multivendor_hsm_pki.Clock.{Time}
use multivendor_hsm_pki.Action.{Act}
use multivendor_hsm_pki.Store.{
  StoreError, RevocationReason, reason_unspecified, status_revoked, CertRecord,
}
use multivendor_hsm_pki.Store.Contract.{
  View, IsAbove, record_outcome, record_view, revoke_outcome, revoke_view,
}

pub data Failure : Type 0 where
  known : StoreError → Failure
  -- a failure of the database
  broken : Failure

pub record Records (Name : Type 0) : Type 1 where
  pub S : Type 0
  pub record_cert : CertRecord Name → Act S Failure (Unit {0})
  pub get : ℤ → Act S Failure (Option (CertRecord Name))
  pub revoke : ℤ → RevocationReason → Time → Act S Failure (Unit {0})
  pub revoked : Act S Failure (List (CertRecord Name))
  pub next_crl_number : Time → Act S Failure ℕ
  -- what the store holds, and the last number it handed out
  pub view : S → View Name
  pub last_number : S → Option ℕ
  pub Sound : S → Type 0

-- A record as the service writes one: nothing is said of a revocation.
abbrev pub IsFresh : {Name : Type 0} → CertRecord Name → Type 0
IsFresh rec = (rec.revoked_at ≡ 0) × (rec.revocation_reason ≡ reason_unspecified)

module _ {Name : Type 0} (rs : Records Name) where
  -- Nothing that a client can see has changed.
  abbrev pub Same : rs.S → rs.S → Type 0
  Same s t =
      ((j : ℤ) → rs.view t j ≡ rs.view s j)
      × (rs.last_number t ≡ rs.last_number s)
      × (rs.Sound s → rs.Sound t)

  -- What a method that changes the view may do: what the contract says, with the contract's result, or
  -- fail and change nothing.
  abbrev pub Keeps :
      Result StoreError (Unit {0}) → View Name → rs.S → Result Failure (Unit {0}) → rs.S → Type 0
  Keeps outcome seen s (ok _) t =
      (outcome ≡ ok tt)
      × ((j : ℤ) → rs.view t j ≡ seen j)
      × (rs.last_number t ≡ rs.last_number s)
      × (rs.Sound s → rs.Sound t)
  Keeps outcome seen s (err (known e)) t = (outcome ≡ err e) × Same s t
  Keeps outcome seen s (err broken) t = Same s t

  abbrev pub Gets : ℤ → rs.S → Result Failure (Option (CertRecord Name)) → Type 0
  Gets serial s (ok found) = found ≡ rs.view s serial
  Gets serial s (err e) = e ≡ broken

  abbrev pub Lists : rs.S → Result Failure (List (CertRecord Name)) → Type 0
  Lists s (ok recs) =
      (rec : CertRecord Name)
      → Member rec recs ↔ ((rs.view s rec.serial ≡ some rec) × (rec.status ≡ status_revoked))
  Lists s (err e) = e ≡ broken

  abbrev pub Numbers : rs.S → Result Failure ℕ → rs.S → Type 0
  Numbers s (ok n) t =
      ((j : ℤ) → rs.view t j ≡ rs.view s j)
      × (rs.last_number t ≡ some n)
      × IsAbove (rs.last_number s) n
      × (rs.Sound s → rs.Sound t)
  Numbers s (err e) t = (e ≡ broken) × Same s t

pub record IsRecords {Name : Type 0} (rs : Records Name) : Type 0 where
  pub records_law :
      (s : rs.S) (rec : CertRecord Name)
      → IsFresh rec
      → Keeps rs
          (record_outcome (rs.view s rec.serial))
          (record_view rec (rs.view s))
          s
          (rs.record_cert rec s).0
          (rs.record_cert rec s).1
  pub revokes_law :
      (s : rs.S) (serial : ℤ) (reason : RevocationReason) (at : Time)
      → Keeps rs
          (revoke_outcome reason (rs.view s serial))
          (revoke_view serial reason at (rs.view s))
          s
          (rs.revoke serial reason at s).0
          (rs.revoke serial reason at s).1
  pub gets_law : (s : rs.S) (serial : ℤ) → rs.Sound s → Gets rs serial s (rs.get serial s).0
  pub gets_same : (s : rs.S) (serial : ℤ) → Same rs s (rs.get serial s).1
  pub lists_law : (s : rs.S) → rs.Sound s → Lists rs s (rs.revoked s).0
  pub lists_same : (s : rs.S) → Same rs s (rs.revoked s).1
  pub numbers_law :
      (s : rs.S) (now : Time)
      → Numbers rs s (rs.next_crl_number now s).0 (rs.next_crl_number now s).1
  -- a record stands under its own serial
  pub keyed_law :
      (s : rs.S) (j : ℤ) (rec : CertRecord Name)
      → rs.Sound s
      → rs.view s j ≡ some rec
      → rec.serial ≡ j
