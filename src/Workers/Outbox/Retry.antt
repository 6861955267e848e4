-- ===== src/Workers/Outbox/Retry.antt =====
-- How long a failed job waits, and what becomes of a job that failed for good.
use enterprise_netsec_iac.Common.{ℕ, ◌≡◌, ◌≤◌, ◌+◌, ◌^◌, min, arith, zero, suc, ◌⊎◌, inl, inr}
use enterprise_netsec_iac.Workers.Outbox.{backoff}

power_positive : (n : ℕ) → 1 ≤ 2 ^ n
power_positive zero = omega arith
power_positive (suc n) = omega (arith, power_positive n)

-- The exponent stays at its cap, or grows by one.
power_step : (n : ℕ) → (2 ≤ 2 ^ min (n + 1) 10) × (2 ^ min n 10 ≤ 2 ^ min (n + 1) 10)
power_step n = elim (exponent_cases n) [
  | inl (a, b) ↦ rw (a, b) (omega arith, omega arith)
  | inr (a, b) ↦ rw (a, b) (omega (arith, power_positive n), omega (arith, power_positive n))
]
  where
    exponent_cases :
        (n : ℕ)
        → ((min n 10 ≡ 10) × (min (n + 1) 10 ≡ 10)) ⊎ ((min n 10 ≡ n) × (min (n + 1) 10 ≡ suc n))
    exponent_cases n = ground arith

-- After an attempt the wait is between 10 seconds and an hour, and it never shrinks as attempts grow.
pub backoff_bounds :
    (n : ℕ) → (10 ≤ backoff (n + 1)) × (backoff (n + 1) ≤ 3600) × (backoff n ≤ backoff (n + 1))
unfolding backoff
backoff_bounds n =
    let (above, grows) = power_step n in (omega (arith, above), omega arith, omega (arith, grows))
