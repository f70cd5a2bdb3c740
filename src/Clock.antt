-- ===== src/Clock.antt =====
-- Go's time.Time as the code uses it: an instant is the number of nanoseconds since the zero Time
-- (January 1, year 1, 00:00:00 UTC), so `IsZero` is the test for 0 and `Truncate(time.Second)`,
-- which rounds down from the zero Time, is a remainder. Instants before year 1 are not modelled.
use multivendor_hsm_pki.Prelude.{
  ℕ, ◌+◌, ◌-◌, ◌*◌, ◌/◌, ◌%◌, ◌^◌, ◌≤◌, ◌≡◌, Bool, true, false, arith, ltb, leb, nat_beq, ℤ, pos,
  negsuc, if◌then◌else◌,
}

abbrev pub Time : Type 0
Time = ℕ

abbrev pub second : ℕ
second = 10 ^ 9

abbrev pub is_zero : Time → Bool
is_zero t = nat_beq t 0

-- t.After(u), t.Before(u)
abbrev pub after : Time → Time → Bool
after t u = ltb u t

abbrev pub before : Time → Time → Bool
before t u = ltb t u

abbrev pub truncate_second : Time → Time
truncate_second t = t - t % second

-- January 1, 1970, in nanoseconds after the zero Time
abbrev pub unix_epoch : Time
unix_epoch = 62135596800 * second

-- t.UnixMilli(), rounded down on both sides of the epoch
abbrev pub unix_milli : Time → ℤ
unix_milli t =
    if leb unix_epoch t
    then pos ((t - unix_epoch) / 10 ^ 6)
    else negsuc ((unix_epoch - t - 1) / 10 ^ 6)

pub truncate_second_idem : (t : Time) → truncate_second (truncate_second t) ≡ truncate_second t
truncate_second_idem t = omega arith

-- time.Duration: nanoseconds, of 64 bits with a sign.
abbrev pub Duration : Type 0
Duration = ℤ

abbrev pub minute : ℕ
minute = 60 * second

abbrev pub hour : ℕ
hour = 3600 * second

-- A result of int64 arithmetic, which wraps around.
unfoldable pub wrap64 : ℤ → ℤ
wrap64 (pos n) = let m = n % 2 ^ 64 in if ltb m (2 ^ 63) then pos m else negsuc (2 ^ 64 - m - 1)
wrap64 (negsuc n) = let m = n % 2 ^ 64 in if ltb m (2 ^ 63) then negsuc m else pos (2 ^ 64 - m - 1)

-- time.Duration(n) * time.Hour
unfoldable pub hours : ℤ → Duration
unfolding wrap64
hours (pos n) = wrap64 (pos (n * hour))
hours (negsuc n) = wrap64 (negsuc ((n + 1) * hour - 1))

-- d > e
abbrev pub exceeds : Duration → Duration → Bool
exceeds (pos d) (pos e) = ltb e d
exceeds (pos d) (negsuc e) = true
exceeds (negsuc d) (pos e) = false
exceeds (negsuc d) (negsuc e) = ltb d e

-- t.Add(d)
abbrev pub add : Time → Duration → Time
add t (pos d) = t + d
add t (negsuc d) = t - (d + 1)

-- Up to 2562047 hours nothing wraps.
pub hours_exact : (n : ℕ) → n ≤ 2562047 → hours (pos n) ≡ pos (n * hour)
unfolding hours wrap64
hours_exact n h = ground arith
