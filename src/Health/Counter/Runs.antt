-- ===== src/Health/Counter/Runs.antt =====
-- When the counter changes its status, and when it says so.
use Prim.Native.Nat.{max}
use orion.Base.{
  ℕ, zero, suc, ◌+◌, ◌<◌, ◌≡◌, ◌∙◌, Option, none, some, arith, leb, if◌then◌else◌, inl, inr, ◌⊎◌,
  Bool-cases,
}
use orion.Base.Int.{pos, pos_part, neg_part, ◌≤ℤ◌}
use orion.Health.Status.{HealthStatus, healthy, unhealthy, status_eq}
use orion.Health.Counter.{HealthStatusCounter, new, add_success, add_failure_impl}
use orion.Health.Counter.Bounds.{Check, success, failure, failure_ignore_threshold, step, InRange}

-- The news between two statuses.
abbrev pub change : Option HealthStatus → Option HealthStatus → Option HealthStatus
change none new = new
change (some old) none = none
change (some old) (some new) = if status_eq old new then none else some new

-- A check tells its caller the new status exactly when the status changed, and nothing otherwise.
pub step_reports_change :
    (k : Check) (c : HealthStatusCounter) → (step k c).1 ≡ change c.status (step k c).0.status
unfolding step add_success add_failure_impl
step_reports_change success c = ground arith
step_reports_change failure c = ground arith
step_reports_change failure_ignore_threshold c = ground arith

unfoldable pub repeat : ℕ → Check → HealthStatusCounter → HealthStatusCounter
repeat zero k c = c
repeat (suc n) k c = repeat n k (step k c).0

abbrev pub reached : HealthStatus → HealthStatus → ℕ → ℕ → HealthStatus
reached old new threshold n = if leb (max 1 threshold) n then new else old

-- Once a status is reached, checks of its own kind keep it.
settled :
    (n : ℕ) (c : HealthStatusCounter)
    → (c.status ≡ some unhealthy → (repeat n failure c).status ≡ some unhealthy)
      × (c.status ≡ some healthy → (repeat n success c).status ≡ some healthy)
unfolding repeat step add_failure_impl add_success
settled zero c = (λ h. h, λ h. h)
settled (suc n) c = (
  λ h. (settled n (step failure c).0).0 (ground arith),
  λ h. (settled n (step success c).0).1 (ground arith),
)

-- `j` failures counted since the last success, and the endpoint still healthy.
pub record Failing (u j : ℕ) (c : HealthStatusCounter) : Type 0 where
  pub status : c.status ≡ some healthy
  pub counted : neg_part c.checks ≡ j
  pub threshold_sign : pos_part c.unhealthy_threshold ≡ 0
  pub threshold : neg_part c.unhealthy_threshold ≡ u

pub step-Failing :
    (u j : ℕ) (c : HealthStatusCounter)
    → Failing u j c
    → suc j < max 1 u
    → Failing u (suc j) (step failure c).0
unfolding step add_failure_impl
step-Failing u j c f h = ground arith

pub step_failed :
    (u j : ℕ) (c : HealthStatusCounter)
    → Failing u j c
    → suc j ≡ max 1 u
    → (step failure c).0.status ≡ some unhealthy
unfolding step add_failure_impl
step_failed u j c f h = ground arith

Failing-run :
    (n u j : ℕ) (c : HealthStatusCounter)
    → Failing u j c
    → j < max 1 u
    → (repeat n failure c).status ≡ some (reached healthy unhealthy u (j + n))
unfolding repeat
Failing-run zero u j c f h = ground arith
Failing-run (suc n) u j c f h = elim (Bool-cases (leb (max 1 u) (suc j))) [
  | inl last ↦ (settled n (step failure c).0).0 (step_failed u j c f (ground arith)) ∙ ground arith
  | inr more ↦
      Failing-run n u (suc j) (step failure c).0 (step-Failing u j c f (ground arith))
        (ground arith)
      ∙ ground arith
]

-- The same for successes of an unhealthy endpoint.
record Recovering (h j : ℕ) (c : HealthStatusCounter) : Type 0 where
  status : c.status ≡ some unhealthy
  counted : pos_part c.checks ≡ j
  threshold_sign : neg_part c.healthy_threshold ≡ 0
  threshold : pos_part c.healthy_threshold ≡ h

step-Recovering :
    (h j : ℕ) (c : HealthStatusCounter)
    → Recovering h j c
    → suc j < max 1 h
    → Recovering h (suc j) (step success c).0
unfolding step add_success
step-Recovering h j c f l = ground arith

step_recovered :
    (h j : ℕ) (c : HealthStatusCounter)
    → Recovering h j c
    → suc j ≡ max 1 h
    → (step success c).0.status ≡ some healthy
unfolding step add_success
step_recovered h j c f l = ground arith

Recovering-run :
    (n h j : ℕ) (c : HealthStatusCounter)
    → Recovering h j c
    → j < max 1 h
    → (repeat n success c).status ≡ some (reached unhealthy healthy h (j + n))
unfolding repeat
Recovering-run zero h j c f l = ground arith
Recovering-run (suc n) h j c f l = elim (Bool-cases (leb (max 1 h) (suc j))) [
  | inl last ↦
      (settled n (step success c).0).1 (step_recovered h j c f (ground arith)) ∙ ground arith
  | inr more ↦
      Recovering-run n h (suc j) (step success c).0 (step-Recovering h j c f (ground arith))
        (ground arith)
      ∙ ground arith
]

-- After a success, a healthy endpoint is unhealthy after `n` failures in a row exactly when `n`
-- has reached the unhealthy threshold (and is not 0).
pub failures_needed :
    (n : ℕ) (c : HealthStatusCounter)
    → InRange c
    → c.status ≡ some healthy
    → pos 0 ≤ℤ c.checks
    → (repeat n failure c).status
      ≡ some (reached healthy unhealthy (neg_part c.unhealthy_threshold) n)
failures_needed n c v s h =
    Failing-run n (neg_part c.unhealthy_threshold) 0 c (ground arith) (ground arith) ∙ ground arith

-- After a failure, an unhealthy endpoint is healthy after `n` successes in a row exactly when `n`
-- has reached the healthy threshold (and is not 0).
pub successes_needed :
    (n : ℕ) (c : HealthStatusCounter)
    → InRange c
    → c.status ≡ some unhealthy
    → c.checks ≤ℤ pos 0
    → (repeat n success c).status
      ≡ some (reached unhealthy healthy (pos_part c.healthy_threshold) n)
successes_needed n c v s h =
    Recovering-run n (pos_part c.healthy_threshold) 0 c (ground arith) (ground arith) ∙ ground arith

abbrev pub verdict : Check → HealthStatus
verdict success = healthy
verdict failure = unhealthy
verdict failure_ignore_threshold = unhealthy

-- The first check decides alone, and a failure that ignores the threshold makes the endpoint
-- unhealthy whatever was counted.
pub decides_at_once :
    (k : Check) (c : HealthStatusCounter)
    → (c.status ≡ none) ⊎ (k ≡ failure_ignore_threshold)
    → (step k c).0.status ≡ some (verdict k)
unfolding step add_success add_failure_impl
decides_at_once success c h = ground arith
decides_at_once failure c h = ground arith
decides_at_once failure_ignore_threshold c h = ground arith
