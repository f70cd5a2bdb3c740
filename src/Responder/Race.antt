-- ===== src/Responder/Race.antt =====
-- A request and a revocation that overlap. Respond (internal/responder/responder.go) holds its lock for the
-- lookup in the cache and again to keep the response; the store is read in between, and handleRevoke
-- (internal/api/server.go) may revoke and call Invalidate there.
use multivendor_hsm_pki.Prelude.{
  ◌<◌, ◌≡◌, ◌≢◌, ◌∙◌, refl, sym, ap, true, Option, none, some, [], ◌∷◌, ℤ, int_eq, nat_eq, beq_refl,
  string_eq, beq_ne, Result, ok, err, Assoc, lookup, insert, lookup-insert, arith, if◌then◌else◌,
}
use multivendor_hsm_pki.Clock.{Time, add, before}
use multivendor_hsm_pki.Store.Service.{Failure, known, broken, Records, IsRecords, Keeps}
use multivendor_hsm_pki.Store.Contract.{revoke_outcome, revoke_view}
use multivendor_hsm_pki.Api.Crl.Kept.{IsRevokedAs, accepted}
use multivendor_hsm_pki.Store.{CertRecord, status_revoked, RevocationReason}
use multivendor_hsm_pki.Profile.Names.{Name}
use multivendor_hsm_pki.Ca.{Bytes, Certificate}
use multivendor_hsm_pki.Responder.{
  good, Hash, Ocsp, Cached, Config, Responder, Reply, equal, cached_reply, status_or_good,
  recognise, respond, answer_for, same_certificate, keep, sign_reply, invalidate, may_sign,
}

equal_refl : (b : Bytes) → equal b b ≡ true
unfolding equal
equal_refl [] = refl
equal_refl (x ∷ xs) = ground (arith, beq_refl x, equal_refl xs)

-- What a request has in hand between its two critical sections: what it asks for, the certificate, the time
-- and the record that the store returned.
pub record Pending : Type 0 where
  pub serial : ℤ
  pub hash : Hash
  pub cert : Certificate
  pub now : Time
  pub found : Option (CertRecord Name)

-- The second critical section of the request, whatever ran since the first.
unfoldable pub finish : Ocsp → Config → Pending → Responder → Reply × Responder
finish o cfg p r = sign_reply o cfg (p.serial, p.hash) p.cert p.now p.found r

module _ (o : Ocsp) (cfg : Config) where
  next_update_of :
      (query : ℤ × Hash) (cert : Certificate) (now : Time) (found : Option (CertRecord Name))
      → (answer_for cfg query cert now found).next_update ≡ add now cfg.window
  unfolding answer_for
  next_update_of query cert now none = refl
  next_update_of query cert now (some rec) = ground arith

  keep_found :
      (r : Responder) (serial : ℤ) (cert : Certificate) (rec : CertRecord Name) (c : Cached)
      → r.cert ≡ some cert
      → keep r serial cert (some rec) c ≡ record r { cache = insert serial c r.cache }
  unfolding keep
  keep_found r serial cert rec c same =
      let mine : same_certificate r.cert cert ≡ true = rw same (equal_refl cert.raw) in rw mine refl

  -- The state after a response for a record has been kept.
  kept_state :
      (serial : ℤ) (hash : Hash) (cert : Certificate) (now : Time) (rec : CertRecord Name)
      (r : Responder) (der : Bytes)
      → r.cert ≡ some cert
      → o.create_response cfg.issuer.cert cert (answer_for cfg (serial, hash) cert now (some rec))
        ≡ some der
      → (sign_reply o cfg (serial, hash) cert now (some rec) r).1.cache
        ≡ insert serial (record { der = der; next_update = add now cfg.window }) r.cache
  unfolding sign_reply insert
  kept_state serial hash cert now rec r der same signed =
      rw (signed, sign_reply, next_update_of (serial, hash) cert now (some rec))
        (ap (λ k. k.cache)
          (keep_found r serial cert rec (record { der = der; next_update = add now cfg.window })
            same))

  served :
      (serial : ℤ) (c : Cached) (r : Responder) (at : Time)
      → lookup serial r.cache ≡ some c
      → at < c.next_update
      → (reply : Reply) × (cached_reply o r serial at ≡ some reply) × (reply.0 ≡ c.der)
  unfolding cached_reply
  served serial c r at there early =
      let fresh : before at c.next_update ≡ true = ground (arith, early) in
      rw (there, cached_reply, fresh)
        (
          (
            c.der,
            record {
              status = some (status_or_good (o.status_of c.der));
              error = "";
              next_update = c.next_update;
              cached = true;
            },
          ),
          refl,
          refl,
        )

  lookup-kept :
      (serial : ℤ) (c : Cached) (cache : Assoc ℤ Cached)
      → cache ≡ insert serial c []
      → lookup serial cache ≡ some c
  lookup-kept serial c cache e =
      ap (lookup serial) e
      ∙ lookup-insert serial serial c []
      ∙ ap (λ b. if b then some c else lookup serial []) (beq_refl serial)

  hash_of :
      (serial : ℤ) (hash : Hash) (cert : Certificate) (now : Time) (rec : CertRecord Name)
      → (answer_for cfg (serial, hash) cert now (some rec)).issuer_hash ≡ hash
  unfolding answer_for
  hash_of serial hash cert now rec = ground arith

  signed_reply :
      (serial : ℤ) (hash : Hash) (cert : Certificate) (now : Time) (rec : CertRecord Name)
      (r : Responder) (der : Bytes)
      → o.create_response cfg.issuer.cert cert (answer_for cfg (serial, hash) cert now (some rec))
        ≡ some der
      → (sign_reply o cfg (serial, hash) cert now (some rec) r).0.0 ≡ der
  unfolding sign_reply
  signed_reply serial hash cert now rec r der signed = rw (signed, sign_reply) refl

  may_sign_same :
      (have : Option Certificate) (now : Time) (cert : Certificate)
      → may_sign have now ≡ some cert
      → have ≡ some cert
  unfolding may_sign
  may_sign_same none now cert h = cc
  may_sign_same (some mine) now cert h = ground arith

  found_kept :
      (serial : ℤ) (hash : Hash) (cert : Certificate) (now : Time) (rec : CertRecord Name)
      (r : Responder) (der : Bytes)
      → r.cert ≡ some cert
      → o.create_response cfg.issuer.cert cert (answer_for cfg (serial, hash) cert now (some rec))
        ≡ some der
      → lookup serial (sign_reply o cfg (serial, hash) cert now (some rec) r).1.cache
        ≡ some (record { der = der; next_update = add now cfg.window })
  found_kept serial hash cert now rec r der same signed =
      let c : Cached = record { der = der; next_update = add now cfg.window } in
      ap (lookup serial) (kept_state serial hash cert now rec r der same signed)
      ∙ lookup-insert serial serial c r.cache
      ∙ ap (λ b. if b then some c else lookup serial r.cache) (beq_refl serial)

  module _ (rs : Records Name) where
    -- What a request does that finds nothing in the cache and a record in the store.
    missed :
        (serial : ℤ) (hash : Hash) (first : Bytes) (cert : Certificate) (now : Time)
        (found : Option (CertRecord Name)) (r : Responder) (s : rs.S)
        → recognise o cfg first ≡ ok (serial, hash)
        → cached_reply o r serial now ≡ none
        → may_sign r.cert now ≡ some cert
        → (rs.get serial s).0 ≡ ok found
        → respond o rs cfg first now r s ≡ (
          (sign_reply o cfg (serial, hash) cert now found r).0,
          (sign_reply o cfg (serial, hash) cert now found r).1,
          (rs.get serial s).1,
        )
    unfolding respond
    missed serial hash first cert now found r s asked miss may got = rw (asked, miss, may, got) refl

    -- A request that finds a fresh response.
    hit_served :
        (serial : ℤ) (hash : Hash) (second : Bytes) (c : Cached) (now : Time) (r : Responder)
        (s : rs.S)
        → recognise o cfg second ≡ ok (serial, hash)
        → lookup serial r.cache ≡ some c
        → now < c.next_update
        → (respond o rs cfg second now r s).0.0 ≡ c.der
    unfolding respond
    hit_served serial hash second c now r s asked there early =
        let (reply, hit, same) = served serial c r now there early in rw (asked, hit) same

    revoked_now :
        (laws : IsRecords rs) (serial : ℤ) (reason : RevocationReason) (at : Time) (s : rs.S)
        → (rs.revoke serial reason at s).0 ≡ ok tt
        → (now : CertRecord Name) × IsRevokedAs rs serial now (rs.revoke serial reason at s).1
    revoked_now laws serial reason at s done =
        go (rs.revoke serial reason at s).0 done (laws.revokes_law s serial reason at)
      where
        go :
            (result : Result Failure (Unit {0}))
            → result ≡ ok tt
            → Keeps rs
                (revoke_outcome reason (rs.view s serial))
                (revoke_view serial reason at (rs.view s))
                s
                result
                (rs.revoke serial reason at s).1
            → (now : CertRecord Name) × IsRevokedAs rs serial now (rs.revoke serial reason at s).1
        go (ok _) is (outcome, shows, _, _) =
            accepted rs serial reason at s (rs.revoke serial reason at s).1 outcome shows
        go (err (known e)) is kept = cc
        go (err broken) is kept = cc

    -- On a store with the contract, if a request reads a record that is not revoked and signs its response
    -- after that certificate is revoked and Invalidate is called, then the response says good, and a request
    -- for the serial that comes directly after it, before its nextUpdate, is answered with it, although the
    -- store shows the certificate revoked.
    pub stale_good_kept :
        (laws : IsRecords rs) (p : Pending) (rec : CertRecord Name) (r : Responder) (der : Bytes)
        (s : rs.S) (reason : RevocationReason) (revoked_at at : Time) (hash : Hash) (second : Bytes)
        → (rs.get p.serial s).0 ≡ ok (some rec)
        → p.found ≡ some rec
        → rec.status ≢ status_revoked
        → r.cert ≡ some p.cert
        → o.create_response cfg.issuer.cert p.cert
            (answer_for cfg (p.serial, p.hash) p.cert p.now p.found)
          ≡ some der
        → (rs.revoke p.serial reason revoked_at (rs.get p.serial s).1).0 ≡ ok tt
        → recognise o cfg second ≡ ok (p.serial, hash)
        → at < add p.now cfg.window
        → ((answer_for cfg (p.serial, p.hash) p.cert p.now p.found).status ≡ good)
          × ((now : CertRecord Name) × IsRevokedAs rs p.serial now
                (rs.revoke p.serial reason revoked_at (rs.get p.serial s).1).1)
          × ((respond o rs cfg second at
                (finish o cfg p (invalidate r)).1
                (rs.revoke p.serial reason revoked_at (rs.get p.serial s).1).1).0.0
              ≡ der)
    unfolding finish invalidate answer_for
    stale_good_kept laws p rec r der s reason revoked_at at hash second read found alive same signed
          done asked early =
        let kept : (finish o cfg p (invalidate r)).1.cache
            ≡ insert p.serial (record { der = der; next_update = add p.now cfg.window }) [] =
          rw found (
            kept_state p.serial p.hash p.cert p.now rec (invalidate r) der same
              (rw found at signed)) in
        (
          rw (found, beq_ne rec.status status_revoked alive) refl,
          revoked_now laws p.serial reason revoked_at (rs.get p.serial s).1 done,
          hit_served p.serial hash second (record { der = der; next_update = add p.now cfg.window })
              at (finish o cfg p (invalidate r)).1
              (rs.revoke p.serial reason revoked_at (rs.get p.serial s).1).1 asked
              (lookup-kept p.serial _ _ kept) early,
        )

    -- If a request under one hash is answered by signing for a record of the store, then a request for the same
    -- serial under another hash that comes directly after it, before its nextUpdate, is answered with
    -- the same bytes, which were signed for the first hash.
    pub hash_ignored :
        (serial : ℤ) (h1 h2 : Hash) (first second der : Bytes) (cert : Certificate)
        (rec : CertRecord Name) (now at : Time) (r : Responder) (s : rs.S)
        → h1 ≢ h2
        → recognise o cfg first ≡ ok (serial, h1)
        → recognise o cfg second ≡ ok (serial, h2)
        → cached_reply o r serial now ≡ none
        → may_sign r.cert now ≡ some cert
        → (rs.get serial s).0 ≡ ok (some rec)
        → o.create_response cfg.issuer.cert cert (answer_for cfg (serial, h1) cert now (some rec))
          ≡ some der
        → at < add now cfg.window
        → ((respond o rs cfg first now r s).0.0 ≡ der)
          × ((respond o rs cfg second at
                (respond o rs cfg first now r s).1
                (respond o rs cfg first now r s).2).0.0
              ≡ der)
          × ((answer_for cfg (serial, h1) cert now (some rec)).issuer_hash ≡ h1)
          × ((answer_for cfg (serial, h1) cert now (some rec)).issuer_hash ≢ h2)
    hash_ignored serial h1 h2 first second der cert rec now at r s apart one two miss may got signed
          early =
        let run = missed serial h1 first cert now (some rec) r s one miss may got in
        let c : Cached = record { der = der; next_update = add now cfg.window } in
        let there : lookup serial (respond o rs cfg first now r s).1.cache ≡ some c =
          ap (λ a. lookup serial a.1.cache) run
          ∙ found_kept serial h1 cert now rec r der (may_sign_same r.cert now cert may) signed in
        (
          ap (λ a. a.0.0) run ∙ signed_reply serial h1 cert now rec r der signed,
          hit_served serial h2 second c at (respond o rs cfg first now r s).1
              (respond o rs cfg first now r s).2 two there early,
          hash_of serial h1 cert now rec,
          (λ same. apart (sym (hash_of serial h1 cert now rec) ∙ same)),
        )
