-- ===== src/Api/Revocation.antt =====
-- handleRevoke and invalidateCRLCache of internal/api/server.go.
use multivendor_hsm_pki.Prelude.{
  ◌≡◌, ◌⊎◌, inl, inr, refl, Bool, String, Option, none, some, ℤ, pos, int_eq, Result, ok, err,
  ◌>>=◌, length, nat_beq, if◌then◌else◌,
}
use multivendor_hsm_pki.Clock.{Time}
use multivendor_hsm_pki.Text.Decimal.{parse_decimal}
use multivendor_hsm_pki.Action.{map_err}
use multivendor_hsm_pki.Store.{StoreError, cert_not_found, invalid_revocation_reason}
use multivendor_hsm_pki.Store.Contract.{revoke_outcome, revoke_view}
use multivendor_hsm_pki.Store.Service.{Failure, known, broken, Records, IsRecords, Keeps}
use multivendor_hsm_pki.Profile.Names.{Name}
use multivendor_hsm_pki.Responder.{Responder, invalidate}
use multivendor_hsm_pki.Api.{text, Reply, error, no_content, Body, read_prefix, Web, Server}

-- The serial in the path, whether the content length is not zero, and the body.
pub record RevokeCall : Type 0 where
  pub serial : String
  pub has_body : Bool
  pub body : Body

abbrev pub decimal_needed : {E : Type 0} → Option ℤ → Result (Reply E) ℤ
decimal_needed none = err (error 400 (text "serial must be a decimal integer"))
decimal_needed (some n) = ok n

abbrev pub well_formed : {E : Type 0} → Option ℤ → Result (Reply E) ℤ
well_formed none = err (error 400 (text "malformed request body"))
well_formed (some reason) = ok reason

module _ {E : Type 0} (w : Web E) where
  -- The reason of the request: 0 without a body.
  unfoldable pub read_reason : RevokeCall → Result (Reply E) ℤ
  read_reason call =
      if call.has_body
      then (do
        body ← map_err (λ e. error 400 (text "reading request body")) (read_prefix 4096 call.body)
        if nat_beq (length body) 0 then ok (pos 0) else well_formed (w.decode_reason body))
      else ok (pos 0)

  -- The serial and the reason that the request asks for.
  unfoldable pub read_revocation : RevokeCall → Result (Reply E) (ℤ × ℤ)
  read_revocation call = do
    serial ← decimal_needed (parse_decimal call.serial)
    reason ← read_reason call
    ok (serial, reason)

-- The answer to an error of Store.Revoke.
abbrev pub revoke_failed : {E : Type 0} → Failure → Reply E
revoke_failed (known cert_not_found) = error 404 (text "certificate not found")
revoke_failed (known invalid_revocation_reason) =
    error 400 (text "revocation reason is not a valid RFC 5280 CRLReason")
revoke_failed _ = error 500 (text "revocation failed")

abbrev pub invalidated : Option Responder → Option Responder
invalidated none = none
invalidated (some r) = some (invalidate r)

-- invalidateCRLCache
unfoldable pub invalidate_crl_cache : {rs : Records Name} → Server rs → Server rs
invalidate_crl_cache srv = record srv { cached_crl = none }

module _ {E : Type 0} {rs : Records Name} where
  abbrev pub on_revoked : Server rs → Result Failure (Unit {0}) × rs.S → Reply E × Server rs
  on_revoked srv (err e, s) = (revoke_failed e, record srv { store = s })
  on_revoked srv (ok _, s) = (
    no_content,
    invalidate_crl_cache (record srv { store = s; responder = invalidated srv.responder }),
  )

  abbrev pub on_read : Result (Reply E) (ℤ × ℤ) → Time → Server rs → Reply E × Server rs
  on_read (err reply) now srv = (reply, srv)
  on_read (ok (serial, reason)) now srv = on_revoked srv (rs.revoke serial reason now srv.store)

  -- handleRevoke
  unfoldable pub handle_revoke : Web E → RevokeCall → Time → Server rs → Reply E × Server rs
  handle_revoke w call now srv = on_read (read_revocation w call) now srv

  -- What the handler leaves for a serial and a reason: 204, the contract's view and both caches empty; or
  -- the answer to the contract's error, or to a failure of the store, and what the store shows unchanged.
  abbrev pub Revokes : ℤ → ℤ → Time → Server rs → Reply E × Server rs → Type 0
  Revokes serial reason now srv (reply, srv') =
      ((reply ≡ no_content)
        × (revoke_outcome reason (rs.view srv.store serial) ≡ ok tt)
        × ((j : ℤ) → rs.view srv'.store j ≡ revoke_view serial reason now (rs.view srv.store) j)
        × (srv'.cached_crl ≡ none)
        × (srv'.responder ≡ invalidated srv.responder))
      ⊎ ((e : StoreError) × (reply ≡ revoke_failed (known e))
          × (revoke_outcome reason (rs.view srv.store serial) ≡ err e)
          × ((j : ℤ) → rs.view srv'.store j ≡ rs.view srv.store j))
      ⊎ ((reply ≡ revoke_failed broken) × ((j : ℤ) → rs.view srv'.store j ≡ rs.view srv.store j))

  on_revoked-Revokes :
      (serial reason : ℤ) (now : Time) (srv : Server rs) (result : Result Failure (Unit {0}))
      (t : rs.S)
      → Keeps rs
          (revoke_outcome reason (rs.view srv.store serial))
          (revoke_view serial reason now (rs.view srv.store))
          srv.store
          result
          t
      → Revokes serial reason now srv (on_revoked srv (result, t))
  unfolding invalidate_crl_cache
  on_revoked-Revokes serial reason now srv (ok _) t (outcome, shows, _, _) =
      inl (refl, outcome, shows, refl, refl)
  on_revoked-Revokes serial reason now srv (err (known e)) t (outcome, (shows, _, _)) =
      inr (inl (e, refl, outcome, shows))
  on_revoked-Revokes serial reason now srv (err broken) t (shows, _, _) = inr (inr (refl, shows))

  -- A request that is read as a serial and a reason, on a store with the contract: it is answered with 204,
  -- the store then shows what the contract of Revoke says, and both caches are empty; or with 404 for a
  -- serial without a record, 400 for a reason that a base CRL cannot carry, or 500 for a failure of the
  -- store, and the store shows what it showed. A request that cannot be read changes nothing.
  pub handle_revoke_exact :
      (w : Web E) (laws : IsRecords rs) (call : RevokeCall) (now : Time) (srv : Server rs)
      → ((serial : ℤ) × (reason : ℤ) × (read_revocation w call ≡ ok (serial, reason))
          × Revokes serial reason now srv (handle_revoke w call now srv))
        ⊎ ((reply : Reply E) × (read_revocation w call ≡ err reply)
            × (handle_revoke w call now srv ≡ (reply, srv)))
  unfolding handle_revoke
  handle_revoke_exact w laws call now srv = go (read_revocation w call) refl
    where
      go :
          (read : Result (Reply E) (ℤ × ℤ))
          → read_revocation w call ≡ read
          → ((serial : ℤ) × (reason : ℤ) × (read_revocation w call ≡ ok (serial, reason))
              × Revokes serial reason now srv (on_read read now srv))
            ⊎ ((reply : Reply E) × (read_revocation w call ≡ err reply)
                × (on_read read now srv ≡ (reply, srv)))
      go (err reply) h = inr (reply, h, refl)
      go (ok (serial, reason)) h = inl (
        serial,
        reason,
        h,
        on_revoked-Revokes serial reason now srv (rs.revoke serial reason now srv.store).0
            (rs.revoke serial reason now srv.store).1
            (laws.revokes_law srv.store serial reason now),
      )
