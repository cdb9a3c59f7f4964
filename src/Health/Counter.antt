-- ===== src/Health/Counter.antt =====
-- orion-lib/src/clusters/health/counter.rs. `checks` and the thresholds are `i32` there; the
-- thresholds come from `u16`, so the numbers here are integers within 65,535 of zero.
pub mod Bounds
pub mod Runs
use orion.Base.{ℕ, Bool, true, false, Option, none, some, ◌||◌, if◌then◌else◌}
use orion.Base.Int.{ℤ, pos, negsuc, ◌+ℤ◌, ◌-ℤ◌, ltb_ℤ, leb_ℤ}
use orion.Health.Status.{HealthStatus, healthy, unhealthy, status_eq}

pub record HealthStatusCounter : Type 0 where
  pub status : Option HealthStatus
  pub checks : ℤ
  pub healthy_threshold : ℤ
  pub unhealthy_threshold : ℤ

unfoldable pub new : ℕ → ℕ → HealthStatusCounter
unfolding ◌-ℤ◌
new healthy_threshold unhealthy_threshold = record {
  status = none;
  checks = pos 0;
  healthy_threshold = pos healthy_threshold;
  unhealthy_threshold = pos 0 -ℤ pos unhealthy_threshold;
}

-- `Some(new_status) != self.status`
abbrev pub status_ne : Option HealthStatus → HealthStatus → Bool
status_ne none new = true
status_ne (some old) new = if status_eq old new then false else true

-- The new counter, and the status that the caller is told.
unfoldable pub update :
    HealthStatus → HealthStatusCounter → HealthStatusCounter × Option HealthStatus
update new c =
    let c' = if status_ne c.status new then record c { status = some new } else c in (c', c'.status)

-- The two counting steps, before the status is looked at.
unfoldable pub count_success : HealthStatusCounter → HealthStatusCounter
unfolding ◌+ℤ◌
count_success c =
    let c' = if ltb_ℤ c.checks (pos 0) then record c { checks = pos 0 } else c in
    if ltb_ℤ c'.checks c'.healthy_threshold then record c' { checks = c'.checks +ℤ pos 1 } else c'

unfoldable pub count_failure : HealthStatusCounter → HealthStatusCounter
unfolding ◌-ℤ◌
count_failure c =
    let c' = if ltb_ℤ (pos 0) c.checks then record c { checks = pos 0 } else c in
    if ltb_ℤ c'.unhealthy_threshold c'.checks then record c' { checks = c'.checks -ℤ pos 1 } else c'

success_status :
    Option HealthStatus → HealthStatusCounter → HealthStatusCounter × Option HealthStatus
success_status none c = update healthy c
success_status (some healthy) c = (c, none)
success_status (some unhealthy) c =
    if leb_ℤ c.healthy_threshold c.checks then update healthy c else (c, none)

unfoldable pub add_success : HealthStatusCounter → HealthStatusCounter × Option HealthStatus
unfolding count_success success_status update
add_success c = let c' = count_success c in success_status c'.status c'

failure_status :
    Bool → Option HealthStatus → HealthStatusCounter → HealthStatusCounter × Option HealthStatus
failure_status ignore_threshold none c = update unhealthy c
failure_status ignore_threshold (some unhealthy) c = (c, none)
failure_status ignore_threshold (some healthy) c =
    if ignore_threshold || leb_ℤ c.checks c.unhealthy_threshold
    then update unhealthy c
    else (c, none)

unfoldable pub add_failure_impl :
    Bool → HealthStatusCounter → HealthStatusCounter × Option HealthStatus
unfolding count_failure failure_status update
add_failure_impl ignore_threshold c =
    let c' = count_failure c in failure_status ignore_threshold c'.status c'

unfoldable pub add_failure_ignore_threshold :
    HealthStatusCounter → HealthStatusCounter × Option HealthStatus
unfolding add_failure_impl
add_failure_ignore_threshold c = add_failure_impl true c

unfoldable pub add_failure : HealthStatusCounter → HealthStatusCounter × Option HealthStatus
unfolding add_failure_impl
add_failure c = add_failure_impl false c
