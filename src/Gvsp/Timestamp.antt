-- ===== src/Gvsp/Timestamp.antt =====
-- `gvsp_packet_get_timestamp` of capture/include/capture/gvsp.h: where its `uint64_t` arithmetic is
-- exact.
use native.Mathlib.Nat.{div-add-mod, mod-eq_of_lt, mul-add-div, mod-lt}
use multiprocessor.Common.{ℕ, ◌+◌, ◌*◌, ◌^◌, ◌<◌, ◌/◌, ◌%◌, ◌≡◌, arith, ltb, false}
use multiprocessor.Gvsp.{get_timestamp}

-- Multiplying the whole part and the remainder apart gives the same quotient.
apart : (t f : ℕ) → 0 < f → t * 1000000000 / f ≡ t / f * 1000000000 + t % f * 1000000000 / f
apart t f positive =
    let split : t * 1000000000 ≡ f * (t / f * 1000000000) + t % f * 1000000000 =
      grind (arith, div-add-mod t f) in
    rw split (mul-add-div positive (t / f * 1000000000) (t % f * 1000000000))

-- If the frequency is below 2 ^ 34 and not 0, and the nanoseconds of the whole ticks are below 2 ^ 64,
-- the timestamp is the leader's ticks times 10 ^ 9 divided by the frequency, rounded down.
pub get_timestamp-eq :
    (high low tick_frequency : ℕ)
    → 0 < tick_frequency
    → tick_frequency < 2 ^ 34
    → (high * 2 ^ 32 + low) * 1000000000 / tick_frequency < 2 ^ 64
    → get_timestamp high low tick_frequency ≡ (high * 2 ^ 32 + low) * 1000000000 / tick_frequency
unfolding get_timestamp
get_timestamp-eq high low f positive small fits =
    let t = high * 2 ^ 32 + low in
    let going : ltb f 1 ≡ false = ground arith in
    let sum = apart t f positive in
    let remainder : t % f * 1000000000 % 2 ^ 64 ≡ t % f * 1000000000 =
      mod-eq_of_lt (omega (arith, mod-lt t positive)) in
    let whole : t / f * 1000000000 % 2 ^ 64 ≡ t / f * 1000000000 = mod-eq_of_lt (omega arith) in
    let total : (t % f * 1000000000 / f + t / f * 1000000000) % 2 ^ 64
        ≡ t % f * 1000000000 / f + t / f * 1000000000 =
      mod-eq_of_lt (omega arith) in
    rw (going, remainder, whole, total) (omega arith)
