-- ===== src/Responder/Truthful.antt =====
-- What the responder answers (Respond and Invalidate of internal/responder/responder.go), when requests
-- and revocations come one after another.
use multivendor_hsm_pki.Prelude.{
  ◌≡◌, ◌∙◌, ◌⊎◌, inl, inr, refl, sym, ap, Option, none, some, ◌==◌, ℤ, int_eq, string_eq, Result,
  ok, err, lookup, lookup-insert, Option-cases, Bool-cases, arith, if◌then◌else◌,
}
use multivendor_hsm_pki.Clock.{Time, add}
use multivendor_hsm_pki.Store.{CertRecord, status_revoked}
use multivendor_hsm_pki.Store.Service.{Failure, Records, IsRecords, Same, Gets}
use multivendor_hsm_pki.Profile.Names.{Name}
use multivendor_hsm_pki.Ca.{Bytes, Certificate}
use multivendor_hsm_pki.Responder.{
  Status, good, revoked, unknown, Hash, Answer, Ocsp, Cached, Config, Responder, Reply, recognise,
  fresh_reply, cached_reply, may_sign, answer_for, same_certificate, keep, sign_reply, after_get,
  on_miss, on_query, on_request, respond, invalidate, later,
}

-- The status that the store gives a serial.
abbrev pub is_revoked : CertRecord Name → Status
is_revoked rec = if rec.status == status_revoked then revoked else good

abbrev pub status_for : Option (CertRecord Name) → Status
status_for none = unknown
status_for (some rec) = is_revoked rec

module _ (o : Ocsp) (cfg : Config) where
  -- The bytes are a response that was signed for this serial and this status.
  abbrev pub Says : ℤ → Status → Bytes → Type 0
  Says serial status der =
      (a : Answer) × (o.create_response cfg.issuer.cert a.certificate a ≡ some der)
      × (a.serial ≡ serial)
      × (a.status ≡ status)

  answer_for_fields :
      (serial : ℤ) (hash : Hash) (cert : Certificate) (now : Time)
      (found : Option (CertRecord Name))
      → ((answer_for cfg (serial, hash) cert now found).serial ≡ serial)
        × ((answer_for cfg (serial, hash) cert now found).status ≡ status_for found)
        × ((answer_for cfg (serial, hash) cert now found).certificate ≡ cert)
        × ((answer_for cfg (serial, hash) cert now found).next_update ≡ add now cfg.window)
  unfolding answer_for
  answer_for_fields serial hash cert now none = (refl, refl, refl, refl)
  answer_for_fields serial hash cert now (some rec) = ground arith

  module _ (rs : Records Name) where
    -- Every cached response says what the store now says, of a serial that the store has.
    abbrev pub IsCurrent : Responder → rs.S → Type 0
    IsCurrent r s =
        (serial : ℤ) (c : Cached)
        → lookup serial r.cache ≡ some c
        → (rec : CertRecord Name) × (rs.view s serial ≡ some rec)
          × Says serial (is_revoked rec) c.der

    invalidate-IsCurrent : (r : Responder) (s : rs.S) → IsCurrent (invalidate r) s
    unfolding invalidate lookup
    invalidate-IsCurrent r s serial c h = cc

    -- A response that answers the question, rather than refusing it.
    abbrev pub IsTrue : Result Reply (ℤ × Hash) → rs.S → Reply → Type 0
    IsTrue (err refusal) s reply = reply ≡ refusal
    IsTrue (ok (serial, hash)) s (der, outcome) =
        ((der, outcome) ≡ later o)
        ⊎ ((outcome.error ≡ "") × Says serial (status_for (rs.view s serial)) der)

    keep-IsCurrent :
        (r : Responder) (s : rs.S) (serial : ℤ) (cert : Certificate)
        (found : Option (CertRecord Name)) (c : Cached)
        → found ≡ rs.view s serial
        → Says serial (status_for found) c.der
        → IsCurrent r s
        → IsCurrent (keep r serial cert found c) s
    unfolding keep
    keep-IsCurrent r s serial cert none c e says h j d at = h j d at
    keep-IsCurrent r s serial cert (some rec) c e says h j d at =
        elim (Bool-cases (same_certificate r.cert cert)) [
          | inr other ↦ h j d (rw other at at)
          | inl same ↦ kept (sym (lookup-insert serial j c r.cache) ∙ (rw same at at))
        ]
      where
        kept :
            (if serial == j then some c else lookup j r.cache) ≡ some d
            → (rec' : CertRecord Name) × (rs.view s j ≡ some rec') × Says j (is_revoked rec') d.der
        kept at_j = elim (Bool-cases (serial == j)) [
          | inr other ↦ h j d (rw other at at_j)
          | inl here ↦
              (let same_serial : serial ≡ j = (int_eq.beq_iff serial j).0 here in
                let same_der : c.der ≡ d.der = ground (arith, here, at_j) in
                (rec, rw same_serial at (sym e), rw (same_serial, same_der) at says))
        ]

    sign_reply-IsTrue :
        (serial : ℤ) (hash : Hash) (cert : Certificate) (now : Time)
        (found : Option (CertRecord Name)) (r : Responder) (s : rs.S)
        → found ≡ rs.view s serial
        → IsCurrent r s
        → IsCurrent (sign_reply o cfg (serial, hash) cert now found r).1 s
          × IsTrue (ok (serial, hash)) s (sign_reply o cfg (serial, hash) cert now found r).0
    unfolding sign_reply answer_for
    sign_reply-IsTrue serial hash cert now found r s e h =
        elim (Option-cases
          (o.create_response cfg.issuer.cert cert (answer_for cfg (serial, hash) cert now found))) [
            | inl failed ↦ rw (failed, sign_reply) (h, inl refl)
            | inr (der, signed) ↦
                (let answer = answer_for cfg (serial, hash) cert now found in
                  let (same_serial, status, same_cert, _) =
                    answer_for_fields serial hash cert now found in
                  let says : Says serial (status_for found) der =
                    (answer, rw same_cert signed, same_serial, status) in
                  rw (signed, sign_reply)
                    (
                      keep-IsCurrent r s serial cert found
                          (record { der = der; next_update = answer.next_update }) e says h,
                      inr (refl, rw e at says),
                    ))
          ]

    IsCurrent-Same : (r : Responder) (s t : rs.S) → Same rs s t → IsCurrent r s → IsCurrent r t
    IsCurrent-Same r s t (shows, _, _) h j c at =
        let (rec, there, says) = h j c at in (rec, shows j ∙ there, says)

    -- What Respond leaves: nothing changed in the store, and a cache that is current.
    unfoldable pub Leaves : rs.S → Result Reply (ℤ × Hash) → Reply × Responder × rs.S → Type 0
    Leaves s query (reply, r, t) = IsTrue query s reply × IsCurrent r t × Same rs s t

    module _ (laws : IsRecords rs) where
      after_get-Leaves :
          (serial : ℤ) (hash : Hash) (cert : Certificate) (now : Time) (r : Responder) (s t : rs.S)
          (found : Result Failure (Option (CertRecord Name)))
          → Gets rs serial s found
          → Same rs s t
          → IsCurrent r s
          → Leaves s (ok (serial, hash)) (after_get o rs cfg (serial, hash) cert now r (found, t))
      unfolding Leaves
      after_get-Leaves serial hash cert now r s t (err e) gets same h =
          (inl refl, IsCurrent-Same r s t same h, same)
      after_get-Leaves serial hash cert now r s t (ok found) gets same h =
          let (current, true_reply) = sign_reply-IsTrue serial hash cert now found r s gets h in
          (
            true_reply,
            IsCurrent-Same (sign_reply o cfg (serial, hash) cert now found r).1 s t same current,
            same,
          )

      unchanged : (s : rs.S) → Same rs s s
      unchanged s = ((λ j. refl), refl, (λ h. h))

      on_miss-Leaves :
          (serial : ℤ) (hash : Hash) (cert : Option Certificate) (now : Time) (r : Responder)
          (s : rs.S)
          → rs.Sound s
          → IsCurrent r s
          → Leaves s (ok (serial, hash)) (on_miss o rs cfg (serial, hash) cert now r s)
      unfolding Leaves
      on_miss-Leaves serial hash none now r s sound h = (inl refl, h, unchanged s)
      on_miss-Leaves serial hash (some cert) now r s sound h =
          after_get-Leaves serial hash cert now r s (rs.get serial s).1 (rs.get serial s).0
            (laws.gets_law s serial sound) (laws.gets_same s serial) h

      -- A cached response that is served says what the store says.
      cached-IsTrue :
          (serial : ℤ) (hash : Hash) (now : Time) (r : Responder) (s : rs.S) (reply : Reply)
          → IsCurrent r s
          → cached_reply o r serial now ≡ some reply
          → IsTrue (ok (serial, hash)) s reply
      unfolding cached_reply
      cached-IsTrue serial hash now r s reply h at = elim (Option-cases (lookup serial r.cache)) [
        | inl absent ↦ absurd (ground (arith, absent, at))
        | inr (c, there) ↦
            (let (rec, known, says) = h serial c there in
              let hit : fresh_reply o now c ≡ some reply = rw (there, cached_reply) at at in
              let (der, no_error) = fresh_reply_fields now c reply hit in
              inr (no_error, rw (der, ap status_for (sym known)) at says))
      ]
        where
          fresh_reply_fields :
              (now : Time) (c : Cached) (reply : Reply)
              → fresh_reply o now c ≡ some reply
              → (c.der ≡ reply.0) × (reply.1.error ≡ "")
          fresh_reply_fields now c reply e = ground arith

      -- On a store with the contract, and where the cache is current, Respond either refuses the request as
      -- malformed or about another issuer, or says tryLater, or its bytes are a response that was signed for
      -- the serial and for the status that the store now gives it: unknown if it has no record, and revoked
      -- exactly if its record is. The cache it leaves is current, and the store shows what it showed.
      pub respond_truthful :
          (der : Bytes) (now : Time) (r : Responder) (s : rs.S)
          → rs.Sound s
          → IsCurrent r s
          → Leaves s (recognise o cfg der) (respond o rs cfg der now r s)
      unfolding respond Leaves
      respond_truthful der now r s sound h = go (recognise o cfg der)
        where
          after_lookup :
              (serial : ℤ) (hash : Hash) (hit : Option Reply)
              → cached_reply o r serial now ≡ hit
              → Leaves s (ok (serial, hash)) (on_query o rs cfg (serial, hash) hit now r s)
          after_lookup serial hash (some reply) e =
              (cached-IsTrue serial hash now r s reply h e, h, unchanged s)
          after_lookup serial hash none e =
              on_miss-Leaves serial hash (may_sign r.cert now) now r s sound h

          go :
              (query : Result Reply (ℤ × Hash)) → Leaves s query (on_request o rs cfg query now r s)
          go (err refusal) = (refl, h, unchanged s)
          go (ok (serial, hash)) = after_lookup serial hash (cached_reply o r serial now) refl
