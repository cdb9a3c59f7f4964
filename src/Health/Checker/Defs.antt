-- ===== src/Health/Checker/Defs.antt =====
-- `HealthCheckerLoop` and `IntervalWaiter` of orion-lib/src/clusters/health/checkers/checker.rs, and
-- `CurrentHealthStatus` of checkers/mod.rs. What the loop meets is a list of rounds: what the
-- `select!` of a check gives, and what `fast_timeout` returns in the wait behind it. Durations are
-- numbers.
use orion.Base.{ℕ, ◌+◌, Bool, true, false, List, [], ◌∷◌, Option, none, some, if◌then◌else◌}
use orion.Health.Status.{HealthStatus, healthy, unhealthy}
use orion.Health.Counter.{HealthStatusCounter, new, add_failure}

-- `Ok`, as the future came first (here the stop signal), or `Err(Elapsed)`.
pub data Timed : Type 0 where
  completed elapsed : Timed

-- `mul_f32(interval_jitter_percent)` is the function `jitter_of`.
pub record ClusterHealthCheck : Type 0 where
  pub interval : ℕ
  pub unhealthy_threshold : ℕ
  pub healthy_threshold : ℕ
  pub initial_jitter : Option ℕ
  pub interval_jitter : Option ℕ
  pub jitter_of : ℕ → ℕ
  pub unhealthy_interval : Option ℕ
  pub unhealthy_edge_interval : Option ℕ
  pub healthy_edge_interval : Option ℕ

-- A response is none where the check failed with an error.
pub data HealthCheckResult (R : Type 0) : Type 0 where
  response : Option R → HealthCheckResult R
  timeout cancelled : HealthCheckResult R

pub data CurrentHealthStatus : Type 0 where
  unchanged : Option HealthStatus → CurrentHealthStatus
  edge : HealthStatus → CurrentHealthStatus

pub record EndpointHealthUpdate (E : Type 0) : Type 0 where
  pub endpoint : E
  pub health : HealthStatus
  pub changed : Bool

pub record Round (R : Type 0) : Type 0 where
  pub check : HealthCheckResult R
  pub wait : Timed

-- `WaitInterval`: whether the wait was cancelled.
abbrev pub WaitInterval : Type 0
WaitInterval = ClusterHealthCheck → CurrentHealthStatus → Timed → Bool

abbrev pub unwrap_or : Option ℕ → ℕ → ℕ
unwrap_or none d = d
unwrap_or (some n) d = n

-- The interval that the waiter chooses, before its jitter.
abbrev pub base_interval : ClusterHealthCheck → CurrentHealthStatus → ℕ
base_interval config (edge healthy) = unwrap_or config.healthy_edge_interval config.interval
base_interval config (edge unhealthy) = unwrap_or config.unhealthy_edge_interval config.interval
base_interval config (unchanged (some unhealthy)) =
    unwrap_or config.unhealthy_interval config.interval
base_interval config (unchanged _) = config.interval

abbrev pub wait_interval : ClusterHealthCheck → CurrentHealthStatus → ℕ
wait_interval config s =
    let interval = base_interval config s + unwrap_or config.interval_jitter 0 in
    interval + config.jitter_of interval

-- `fast_timeout(interval, stop_signal.notified()).await.is_err()`
unfoldable pub wait_was_cancelled : ℕ → Timed → Bool
wait_was_cancelled interval completed = false
wait_was_cancelled interval elapsed = true

unfoldable pub wait_was_cancelled_opt : Option ℕ → Timed → Bool
unfolding wait_was_cancelled
wait_was_cancelled_opt none w = false
wait_was_cancelled_opt (some interval) w = wait_was_cancelled interval w

-- `IntervalWaiter`
unfoldable pub wait_interval_was_cancelled : WaitInterval
unfolding wait_was_cancelled
wait_interval_was_cancelled config s w = wait_was_cancelled (wait_interval config s) w

abbrev pub is_some : Option HealthStatus → Bool
is_some none = false
is_some (some s) = true

-- `HealthStatus::default()` is `Healthy`.
abbrev pub unwrap_or_default : Option HealthStatus → HealthStatus
unwrap_or_default none = healthy
unwrap_or_default (some s) = s

abbrev pub current : Option HealthStatus → HealthStatusCounter → CurrentHealthStatus
current none c = unchanged c.status
current (some s) c = edge s

abbrev pub update_of :
    {E : Type 0} → E → HealthStatusCounter → Option HealthStatus → EndpointHealthUpdate E
update_of endpoint c change = record {
  endpoint = endpoint;
  health = unwrap_or_default c.status;
  changed = is_some change;
}

-- The updates that are sent, and whether the task has returned.
abbrev pub sent :
    {E : Type 0}
    → EndpointHealthUpdate E
    → List (EndpointHealthUpdate E) × Bool
    → List (EndpointHealthUpdate E) × Bool
sent u (us, returned) = (u ∷ us, returned)

module _ {R E : Type 0} (config : ClusterHealthCheck) (wait : WaitInterval)
    (process_response : R → HealthStatusCounter → HealthStatusCounter × Option HealthStatus)
    (endpoint : E) where
  -- What a check does to the counter; none if it was cancelled.
  abbrev pub count :
      HealthCheckResult R → HealthStatusCounter → Option (HealthStatusCounter × Option HealthStatus)
  unfolding add_failure
  count timeout c = some (add_failure c)
  count (response none) c = some (add_failure c)
  count (response (some r)) c = some (process_response r c)
  count cancelled c = none

  abbrev pub after_check :
      Timed
      → Option (HealthStatusCounter × Option HealthStatus)
      → (HealthStatusCounter → List (EndpointHealthUpdate E) × Bool)
      → List (EndpointHealthUpdate E) × Bool
  after_check w none next = ([], true)
  after_check w (some (c, change)) next =
      sent (update_of endpoint c change)
        (if wait config (current change c) w then ([], true) else next c)

  -- The loop, up to the end of the rounds that are given.
  unfoldable pub run_loop :
      List (Round R) → HealthStatusCounter → List (EndpointHealthUpdate E) × Bool
  unfolding count
  run_loop [] c = ([], false)
  run_loop (r ∷ rounds) c = after_check r.wait (count r.check c) (run_loop rounds)

  unfoldable pub run : Timed → List (Round R) → List (EndpointHealthUpdate E) × Bool
  unfolding run_loop wait_was_cancelled_opt
  run jitter rounds =
      if wait_was_cancelled_opt config.initial_jitter jitter
      then ([], true)
      else run_loop rounds (new config.healthy_threshold config.unhealthy_threshold)
