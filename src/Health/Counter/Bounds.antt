-- ===== src/Health/Counter/Bounds.antt =====
-- What every counter reached by checks satisfies.
use orion.Base.{ℕ, true, false, Option, arith}
use orion.Base.Int.{pos, ◌≤ℤ◌}
use orion.Health.Status.{HealthStatus}
use orion.Health.Counter.{HealthStatusCounter, new, add_success, add_failure_impl}

-- The count lies between the two thresholds.
pub record InRange (c : HealthStatusCounter) : Type 0 where
  pub below : c.unhealthy_threshold ≤ℤ pos 0
  pub above : pos 0 ≤ℤ c.healthy_threshold
  pub lower : c.unhealthy_threshold ≤ℤ c.checks
  pub upper : c.checks ≤ℤ c.healthy_threshold

pub data Check : Type 0 where
  success failure failure_ignore_threshold : Check

unfoldable pub step : Check → HealthStatusCounter → HealthStatusCounter × Option HealthStatus
step success c = add_success c
step failure c = add_failure_impl false c
step failure_ignore_threshold c = add_failure_impl true c

pub new-InRange : (h u : ℕ) → InRange (new h u)
unfolding new
new-InRange h u = ground arith

-- Every check keeps the count between the thresholds, and the thresholds on their sides of 0.
pub step-InRange : (k : Check) (c : HealthStatusCounter) → InRange c → InRange (step k c).0
unfolding step add_success add_failure_impl
step-InRange success c v = ground arith
step-InRange failure c v = ground arith
step-InRange failure_ignore_threshold c v = ground arith
