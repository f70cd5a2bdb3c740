-- ===== src/Ca/Serial.antt =====
-- GenerateSerial of internal/ca/ca.go. The reader of crypto/rand is a list with what each call of
-- rand.Read puts into a buffer, by the length of the buffer; behind them it fails.
use multivendor_hsm_pki.Prelude.{
  ℕ, ◌+◌, ◌*◌, ◌^◌, ◌<◌, ◌≤◌, ◌≡◌, ◌⊎◌, refl, List, [], ◌∷◌, Result, ok, err, length, ltb, All,
  Bool-cases, inl, inr, arith, if◌then◌else◌,
}
use native.Mathlib.Nat.{mul-le-mul_right, pow-succ'}
use multivendor_hsm_pki.Ca.{Bytes, Draw}

-- big.Int.SetBytes: the bytes are big-endian
unfoldable pub value_from : ℕ → Bytes → ℕ
value_from acc [] = acc
value_from acc (b ∷ bs) = value_from (acc * 256 + b) bs

unfoldable pub value : Bytes → ℕ
unfolding value_from
value bs = value_from 0 bs

-- make([]byte, 16)
abbrev pub serial_bytes : ℕ
serial_bytes = 16

-- GenerateSerial
unfoldable pub generate_serial : {E : Type 0} → E → List Draw → Result E ℕ
generate_serial failed [] = err failed
generate_serial failed (read ∷ draws) =
    let buf = read serial_bytes in
    let later = generate_serial failed draws in if ltb 0 (value buf) then ok (value buf) else later

-- What crypto/rand documents of Read: it fills the buffer, whatever its length, with bytes.
abbrev pub IsDraw : Draw → Type 0
IsDraw read = (n : ℕ) → (length (read n) ≡ n) × All (λ b. b < 256) (read n)

value_from_bound :
    (bs : Bytes) (acc : ℕ) → All (λ b. b < 256) bs → value_from acc bs < (acc + 1) * 256 ^ length bs
unfolding value_from
value_from_bound [] acc h = omega arith
value_from_bound (b ∷ bs) acc h =
    let below : value_from acc (b ∷ bs) < (acc * 256 + b + 1) * 256 ^ length bs =
      value_from_bound bs (acc * 256 + b) h.1 in
    let power : 256 ^ length (b ∷ bs) ≡ 256 * 256 ^ length bs = pow-succ' _ _ in
    let this : acc * 256 + b + 1 ≤ (acc + 1) * 256 = omega (arith, h.0) in
    let scaled : (acc * 256 + b + 1) * 256 ^ length bs ≤ (acc + 1) * 256 * 256 ^ length bs =
      mul-le-mul_right (256 ^ length bs) this in
    rw power (omega (arith, below, scaled))

value_bound : (read : Draw) → IsDraw read → value (read serial_bytes) < 2 ^ 128
unfolding value
value_bound read fills =
    let (len, small) = fills serial_bytes in
    let below : value_from 0 (read serial_bytes) < 1 * 256 ^ 16 =
      rw len at (value_from_bound (read serial_bytes) 0 small) in
    below

-- The first of the buffers of 16 bytes whose value is not zero.
abbrev pub IsFirstDraw : List Draw → Bytes → Type 0
IsFirstDraw [] found = ⊥
IsFirstDraw (read ∷ draws) found =
    ((0 < value (read 16)) × (found ≡ read 16)) ⊎ ((value (read 16) ≡ 0) × IsFirstDraw draws found)

-- The value of the first buffer that is not all zeros, or the reader's error if all are.
abbrev pub IsDrawn : {E : Type 0} → E → List Draw → Result E ℕ → Type 0
IsDrawn failed draws (ok n) =
    (buf : Bytes) × IsFirstDraw draws buf
    × (length buf ≡ 16)
    × (n ≡ value buf)
    × (0 < n)
    × (n < 2 ^ 128)
IsDrawn failed draws (err e) = (e ≡ failed) × All (λ read. value (read 16) ≡ 0) draws

IsDrawn-later :
    {E : Type 0} (failed : E) (read : Draw) (draws : List Draw) (r : Result E ℕ)
    → value (read 16) ≡ 0
    → IsDrawn failed draws r
    → IsDrawn failed (read ∷ draws) r
IsDrawn-later failed read draws (ok n) z (found, first, long, same, some_bit, below) =
    (found, inr (z, first), long, same, some_bit, below)
IsDrawn-later failed read draws (err e) z (same, all) = (same, (z, all))

-- Where rand.Read fills the buffers that it is given: the serial is the value of the first buffer of 16
-- bytes that is not all zeros, and it is positive and below 2^128; only if all of them are zeros is there
-- an error, the reader's own.
pub generate_serial_exact :
    {E : Type 0} (failed : E) (draws : List Draw)
    → All IsDraw draws
    → IsDrawn failed draws (generate_serial failed draws)
unfolding generate_serial
generate_serial_exact failed [] h = (refl, tt)
generate_serial_exact failed (read ∷ draws) h = elim (Bool-cases (ltb 0 (value (read 16)))) [
  | inl some_bit ↦
      rw some_bit
        (read 16, inl (ground arith, refl), (h.0 16).0, refl, ground arith, value_bound read h.0)
  | inr zeros ↦ rw zeros (
      IsDrawn-later failed read draws (generate_serial failed draws) (ground arith)
        (generate_serial_exact failed draws h.1))
]
