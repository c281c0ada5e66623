-- ===== src/Worker/Retry.antt =====
-- `retryDelaySeconds`: how long a failed attempt waits.
use native.Mathlib.Nat.{one-le-pow, pow-le-pow_right}
use bash_builder.Prelude.{ℕ, ◌-◌, ◌*◌, ◌^◌, ◌≤◌, ◌≡◌, min, max, arith}

-- An attempt's number is a natural number; `Math.max(0, attempt - 1)` is subtraction on those.
unfoldable pub retry_delay_seconds : ℕ → ℕ
retry_delay_seconds attempt = min 3600 (max 5 (5 * 2 ^ min 9 (attempt - 1)))

abbrev wait : ℕ → ℕ
wait e = 5 * 2 ^ e

wait_bounds : (e : ℕ) → e ≤ 9 → (5 ≤ wait e) × (wait e ≤ 2560)
wait_bounds e h =
    let one : 1 ≤ 2 ^ e = one-le-pow e 2 (omega arith) in
    let top : 2 ^ e ≤ 512 = pow-le-pow_right {n = 2} (omega arith) {i = e} {j = 9} h in
    (omega (arith, one), omega (arith, top))

clamp_idle : (x : ℕ) → 5 ≤ x → x ≤ 2560 → min 3600 (max 5 x) ≡ x
clamp_idle x l h = omega arith

-- The delay of an attempt is five seconds, doubled for each attempt before it but for nine at most;
-- it lies between 5 and 2560 seconds, so that the outer bound of an hour never applies.
pub retry_delay_seconds_lem :
    (attempt : ℕ)
    → (retry_delay_seconds attempt ≡ 5 * 2 ^ min 9 (attempt - 1))
      × (5 ≤ retry_delay_seconds attempt)
      × (retry_delay_seconds attempt ≤ 2560)
unfolding retry_delay_seconds
retry_delay_seconds_lem attempt =
    let (low, high) = wait_bounds (min 9 (attempt - 1)) (omega arith) in
    let same = clamp_idle (wait (min 9 (attempt - 1))) low high in
    (same, omega (arith, same, low), omega (arith, same, high))
