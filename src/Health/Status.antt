-- ===== src/Health/Status.antt =====
-- orion-lib/src/clusters/health/mod.rs, and `HealthStatus` of
-- orion-configuration/src/config/cluster.rs.
use orion.Base.{Bool, true, false, if◌then◌else◌}

pub data HealthStatus : Type 0 where
  healthy unhealthy : HealthStatus

pub data ValueUpdated : Type 0 where
  updated not_updated : ValueUpdated

abbrev pub status_eq : HealthStatus → HealthStatus → Bool
status_eq healthy healthy = true
status_eq unhealthy unhealthy = true
status_eq _ _ = false

abbrev pub is_healthy : HealthStatus → Bool
is_healthy s = status_eq s healthy

-- The new status, and whether it differs from the old one.
abbrev pub update_health : HealthStatus → HealthStatus → HealthStatus × ValueUpdated
update_health old new = if status_eq old new then (old, not_updated) else (new, updated)
