-- ===== src/Poster/Backoff.antt =====
-- packages/bam-poster/src/submission/backoff.ts: the delay between attempts of a submission loop. The
-- state is the number of consecutive failures.
use bam.Prelude.{
  ℕ, suc, ◌+◌, ◌-◌, ◌*◌, ◌^◌, ◌≡◌, refl, arith, Bool, true, false, min, leb, ◌==◌, if◌then◌else◌,
}
use native.Mathlib.Nat.{pow-suc}

pub record BackoffConfig : Type 0 where
  pub base_ms : ℕ
  pub cap_ms : ℕ
  pub degraded_after_attempts : ℕ
  pub unhealthy_after_attempts : ℕ

pub data HealthState : Type 0 where
  healthy degraded unhealthy : HealthState

-- `nextDelayMs`
unfoldable pub next_delay_ms : BackoffConfig → ℕ → ℕ
next_delay_ms config attempts =
    if attempts == 0 then 0 else min (config.base_ms * 2 ^ (attempts - 1)) config.cap_ms

-- What an attempt records: `recordSuccess` or `recordFailure`.
unfoldable pub record_attempt : Bool → ℕ → ℕ
record_attempt true consecutive_failures = 0
record_attempt false consecutive_failures = consecutive_failures + 1

-- `healthFromAttempts`
unfoldable pub health_from_attempts : BackoffConfig → ℕ → HealthState
health_from_attempts config consecutive_failures =
    if leb config.unhealthy_after_attempts consecutive_failures
    then unhealthy
    else if leb config.degraded_after_attempts consecutive_failures
    then degraded
    else healthy

pow_add_one : (n : ℕ) → 2 ^ (n + 1) ≡ 2 * 2 ^ n
pow_add_one n = let e : n + 1 ≡ suc n = omega arith in rw (e, pow-suc) (omega arith)

-- Each further failure doubles the delay, up to the cap: after a success there is none, after the
-- first failure it is the base, and after any other twice the delay before, each no more than the cap.
pub next_delay_ms_doubles :
    (config : BackoffConfig) (failures : ℕ)
    → (next_delay_ms config (record_attempt true failures) ≡ 0)
      × (next_delay_ms config (record_attempt false 0) ≡ min config.base_ms config.cap_ms)
      × (next_delay_ms config (record_attempt false (failures + 1))
          ≡ min (2 * next_delay_ms config (failures + 1)) config.cap_ms)
unfolding next_delay_ms record_attempt
next_delay_ms_doubles config failures =
    let power : 2 ^ (failures + 1) ≡ 2 * 2 ^ failures = pow_add_one failures in
    let nz1 : (failures + 1 == 0) ≡ false = ground arith in
    let nz2 : (failures + 1 + 1 == 0) ≡ false = ground arith in
    let back : failures + 1 + 1 - 1 ≡ failures + 1 = omega arith in
    let back' : failures + 1 - 1 ≡ failures = omega arith in
    let twice : config.base_ms * (2 * 2 ^ failures) ≡ 2 * (config.base_ms * 2 ^ failures) =
      omega arith in
    let doubled : min (2 * (config.base_ms * 2 ^ failures)) config.cap_ms
        ≡ min (2 * min (config.base_ms * 2 ^ failures) config.cap_ms) config.cap_ms =
      omega arith in
    (refl, omega arith, simp (nz1, nz2, back, back', power, twice, doubled))
