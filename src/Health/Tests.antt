-- ===== src/Health/Tests.antt =====
-- Runs of the health counter.
use orion.Base.{◌≡◌, refl, some, arith}
use orion.Health.Status.{unhealthy}
use orion.Health.Counter.{HealthStatusCounter, new, add_success}
use orion.Health.Counter.Bounds.{success, failure, step, InRange, new-InRange, step-InRange}
use orion.Health.Counter.Runs.{repeat, failures_needed}

-- A counter with the thresholds 5 and 10, after a first success.
abbrev after_success : HealthStatusCounter
unfolding new add_success step
after_success = (step success (new 5 10)).0

after_success-InRange : InRange after_success
unfolding after_success
after_success-InRange = step-InRange success (new 5 10) (new-InRange 5 10)

step-InRange_example : InRange (step success after_success).0
step-InRange_example = step-InRange success after_success after_success-InRange

failures_needed_example : (repeat 10 failure after_success).status ≡ some unhealthy
unfolding new add_success step
failures_needed_example = failures_needed 10 after_success after_success-InRange refl (omega arith)
