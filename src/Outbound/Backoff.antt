-- ===== src/Outbound/Backoff.antt =====
-- src/outbound.rs: `transient_backoff_ms`.
use native.Mathlib.Nat.{pow-le-pow_right}
use nexo_plugin_email.Base.{
  Bool-cases, inl, inr, leb, leb→le, ℕ, ◌+◌, ◌-◌, ◌*◌, ◌^◌, ◌≤◌, ◌<◌, min, ◌≡◌, arith, ap,
}
use nexo_plugin_email.Outbound.{transient_backoff_ms}

-- What a jitter factor from 0.8 up to 1.2 and the conversion to an integer can give.
record IsJitter (jittered : ℕ → ℕ) : Type 0 where
  low : (x : ℕ) → 8 * x < 10 * jittered x + 10
  high : (x : ℕ) → 10 * jittered x ≤ 12 * x

pow_mono : (i j : ℕ) → i ≤ j → 2 ^ i ≤ 2 ^ j
pow_mono i j h = pow-le-pow_right {n = 2} (omega arith) h

capped : (n : ℕ) → min (min (2000 * 2 ^ min n 5) (2 ^ 64 - 1)) 30000 ≡ min (2000 * 2 ^ n) 30000
capped n = elim (Bool-cases (leb n 5)) [
  | inl small ↦
      let le : n ≤ 5 = leb→le n 5 small in
      let power : 2 ^ n ≤ 2 ^ 5 = pow_mono n 5 le in
      let same : min n 5 ≡ n = omega arith in rw same (omega arith)
  | inr large ↦
      let le : 5 ≤ n = ground arith in
      let power : 2 ^ 5 ≤ 2 ^ n = pow_mono 5 n le in
      let same : min n 5 ≡ 5 = omega arith in rw same (omega arith)
]

-- The exponent's cap and the saturation never show: the delay is the jittered
-- `2000 * 2 ^ (attempts - 1)`, capped at 30 seconds.
transient_backoff_ms_lem :
    (jittered : ℕ → ℕ) (attempts : ℕ)
    → transient_backoff_ms jittered attempts ≡ jittered (min (2000 * 2 ^ (attempts - 1)) 30000)
unfolding transient_backoff_ms
transient_backoff_ms_lem jittered attempts = ap jittered (capped (attempts - 1))

-- For a jitter factor from 0.8 up to 1.2 every delay is from 1.6 to 36 seconds.
transient_backoff_ms_bounds :
    (jittered : ℕ → ℕ) (attempts : ℕ)
    → IsJitter jittered
    → (1600 ≤ transient_backoff_ms jittered attempts)
      × (transient_backoff_ms jittered attempts ≤ 36000)
transient_backoff_ms_bounds jittered attempts j =
    let base = min (2000 * 2 ^ (attempts - 1)) 30000 in
    let power : 2 ^ 0 ≤ 2 ^ (attempts - 1) = pow_mono 0 (attempts - 1) (omega arith) in
    rw (transient_backoff_ms_lem jittered attempts)
      (omega (arith, j.low base, j.high base), omega (arith, j.low base, j.high base))

-- For such a jitter and at most four attempts, the delay is within a fifth of 2 seconds doubled for
-- every attempt after the first.
transient_backoff_ms-early :
    (jittered : ℕ → ℕ) (attempts : ℕ)
    → IsJitter jittered
    → attempts ≤ 4
    → (8 * (2000 * 2 ^ (attempts - 1)) < 10 * transient_backoff_ms jittered attempts + 10)
      × (10 * transient_backoff_ms jittered attempts ≤ 12 * (2000 * 2 ^ (attempts - 1)))
transient_backoff_ms-early jittered attempts j few =
    let base = min (2000 * 2 ^ (attempts - 1)) 30000 in
    let high : 2 ^ (attempts - 1) ≤ 2 ^ 3 = pow_mono (attempts - 1) 3 (omega arith) in
    let same : base ≡ 2000 * 2 ^ (attempts - 1) = omega arith in
    rw (transient_backoff_ms_lem jittered attempts)
      (omega (arith, j.low base, same), omega (arith, j.high base, same))
