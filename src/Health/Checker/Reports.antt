-- ===== src/Health/Checker/Reports.antt =====
-- What the loop reports of an endpoint.
use orion.Base.{if◌then◌else◌, ◌≡◌, refl, ap, Bool, true, false, List, [], ◌∷◌, Option, none, some}
use orion.Health.Status.{HealthStatus}
use orion.Health.Counter.{HealthStatusCounter, new, add_failure}
use orion.Health.Counter.Bounds.{Check, failure, step}
use orion.Health.Counter.Runs.{change, step_reports_change}
use orion.Health.Checker.Defs.{
  Timed, ClusterHealthCheck, HealthCheckResult, response, timeout, cancelled, CurrentHealthStatus,
  EndpointHealthUpdate, Round, WaitInterval, is_some, unwrap_or_default, current, count,
  after_check, sent, run_loop,
}

-- A waiter whose answer depends on how the wait ended alone.
abbrev pub AnswersBy : (Timed → Bool) → WaitInterval → Type 0
AnswersBy stops wait =
    (config : ClusterHealthCheck) (s : CurrentHealthStatus) (w : Timed) → wait config s w ≡ stops w

module _ {R : Type 0} (kind : R → Check) where
  -- A check that failed or timed out is a failure; one that was cancelled is none.
  abbrev pub kind_of : HealthCheckResult R → Option Check
  kind_of (response (some r)) = some (kind r)
  kind_of (response none) = some failure
  kind_of timeout = some failure
  kind_of cancelled = none

abbrev pub add_check : Check → List Check × Bool → List Check × Bool
add_check k (ks, stopped) = (k ∷ ks, stopped)

module _ {R : Type 0} (stops : Timed → Bool) (kind : R → Check) where
  abbrev pub until_next : Timed → Option Check → List Check × Bool → List Check × Bool
  until_next w none later = ([], true)
  until_next w (some k) later = if stops w then (k ∷ [], true) else add_check k later

  -- The checks that are made until one is cancelled or the waiter stops the loop, and whether that
  -- happens.
  abbrev pub until_stop : List (Round R) → List Check × Bool
  until_stop [] = ([], false)
  until_stop (r ∷ rounds) = until_next r.wait (kind_of kind r.check) (until_stop rounds)

-- Each check is reported with the status behind it, and as a change if that differs from the status
-- before it.
abbrev pub differs : Option HealthStatus → Option HealthStatus → Bool
differs old new = is_some (change old new)

abbrev pub report :
    {E : Type 0} → E → HealthStatusCounter → HealthStatusCounter → EndpointHealthUpdate E
report endpoint before after = record {
  endpoint = endpoint;
  health = unwrap_or_default after.status;
  changed = differs before.status after.status;
}

abbrev pub reports :
    {E : Type 0} → E → List Check → HealthStatusCounter → List (EndpointHealthUpdate E)
reports endpoint [] c = []
reports endpoint (k ∷ ks) c = report endpoint c (step k c).0 ∷ reports endpoint ks (step k c).0

module _ {R E : Type 0} (config : ClusterHealthCheck) (wait : WaitInterval)
    (process_response : R → HealthStatusCounter → HealthStatusCounter × Option HealthStatus)
    (endpoint : E) (stops : Timed → Bool) (kind : R → Check) (answers : AnswersBy stops wait)
    (counts : (r : R) (c : HealthStatusCounter) → process_response r c ≡ step (kind r) c) where
  abbrev Sent : Type 0
  Sent = List (EndpointHealthUpdate E) × Bool

  abbrev reported : List Check × Bool → HealthStatusCounter → Sent
  reported (ks, stopped) c = (reports endpoint ks c, stopped)

  abbrev counted :
      Option Check → HealthStatusCounter → Option (HealthStatusCounter × Option HealthStatus)
  counted none c = none
  counted (some k) c = some (step k c)

  count-counted :
      (k : HealthCheckResult R) (c : HealthStatusCounter)
      → count config wait process_response endpoint k c ≡ counted (kind_of kind k) c
  unfolding add_failure step
  count-counted (response none) c = refl
  count-counted (response (some r)) c = ap some (counts r c)
  count-counted timeout c = refl
  count-counted cancelled c = refl

  stopped_or_not :
      (t : Bool) (k : Check) (c : HealthStatusCounter) (ks : List Check × Bool) (later : Sent)
      → later ≡ reported ks (step k c).0
      → sent (report endpoint c (step k c).0) (if t then ([], true) else later)
        ≡ reported (if t then (k ∷ [], true) else add_check k ks) c
  stopped_or_not true k c ks later h = refl
  stopped_or_not false k c ks later h = ap (sent (report endpoint c (step k c).0)) h

  after_check-reported :
      (w : Timed) (o : Option Check) (c : HealthStatusCounter) (ks : List Check × Bool)
      (next : HealthStatusCounter → Sent)
      → ((c' : HealthStatusCounter) → next c' ≡ reported ks c')
      → after_check config wait process_response endpoint w (counted o c) next
        ≡ reported (until_next stops kind w o ks) c
  after_check-reported w none c ks next h = refl
  after_check-reported w (some k) c ks next h =
      rw (answers config (current (step k c).1 (step k c).0) w, step_reports_change k c)
        (stopped_or_not (stops w) k c ks (next (step k c).0) (h (step k c).0))

  -- With a waiter whose answer depends on how the wait ended alone, as that of the interval waiter
  -- does, the loop makes its checks until one is cancelled or the waiter says that it was, and
  -- returns then. Each check is reported with the status behind it, and as a change exactly if that
  -- is not the status before it.
  pub run_loop-reports :
      (rounds : List (Round R)) (c : HealthStatusCounter)
      → run_loop config wait process_response endpoint rounds c
        ≡ (reports endpoint (until_stop stops kind rounds).0 c, (until_stop stops kind rounds).1)
  unfolding run_loop
  run_loop-reports [] c = refl
  run_loop-reports (r ∷ rounds) c = rw (count-counted r.check c) (
      after_check-reported r.wait (kind_of kind r.check) c (until_stop stops kind rounds)
        (run_loop config wait process_response endpoint rounds) (run_loop-reports rounds))
