-- ===== src/Health/Checker/Tests.antt =====
-- The loop over HTTP, with the interval waiter and with that of the program's tests.
use mathlib.Core.List.{Memᴰ}
use orion.Base.{
  ℕ, ◌≤◌, ◌≡◌, ◌≢◌, ◌↔◌, Bool, refl, true, false, [], ◌∷◌, none, some, length, arith, inl,
}
use orion.Health.Status.{healthy, unhealthy}
use orion.Health.Counter.{HealthStatusCounter, new, add_success, add_failure_impl, add_failure}
use orion.Health.Counter.Bounds.{success, step, InRange, new-InRange, step-InRange}
use orion.Health.Checker.Defs.{
  completed, elapsed, ClusterHealthCheck, response, timeout, Round, WaitInterval,
  wait_interval_was_cancelled, wait_was_cancelled, Timed, run_loop, run,
}
use orion.Health.Checker.Protocols.{
  HttpChecker, process_http, http_check, process_http-step, is_expected, status_in_ranges,
}
use orion.Health.Checker.Reports.{AnswersBy, run_loop-reports}
use orion.Health.Checker.Waiting.{down, outage_reported, checked_once}

abbrev config : ClusterHealthCheck
config = record {
  interval = 1000;
  unhealthy_threshold = 2;
  healthy_threshold = 1;
  initial_jitter = none;
  interval_jitter = none;
  jitter_of = λ interval. 0;
  unhealthy_interval = none;
  unhealthy_edge_interval = none;
  healthy_edge_interval = none;
}

-- How a wait has to end for the interval waiter to stop the loop.
abbrev interval_over : Timed → Bool
interval_over completed = false
interval_over elapsed = true

interval_waiter-AnswersBy : AnswersBy interval_over wait_interval_was_cancelled
unfolding wait_interval_was_cancelled wait_was_cancelled
interval_waiter-AnswersBy _ s completed = refl
interval_waiter-AnswersBy _ s elapsed = refl

-- As `MockIntervalWaiter` of the program's tests.
abbrev mock_wait : WaitInterval
mock_wait _ s completed = true
mock_wait _ s elapsed = false

abbrev endpoint : ℕ
endpoint = 7

abbrev checker : HttpChecker
checker = record { expected_statuses = []; retriable_statuses = [] }

abbrev answered : ℕ → Round ℕ
answered status = record { check = response (some status); wait = elapsed }

abbrev signalled : ℕ → Round ℕ
signalled status = record { check = response (some status); wait = completed }

abbrev unanswered : Round ℕ
unanswered = record { check = timeout; wait = elapsed }

-- A success, a signal, an unexpected status, and an interval.
run_loop-reports_example :
    run_loop config wait_interval_was_cancelled
      (process_http checker)
      endpoint
      (signalled 200 ∷ answered 503 ∷ answered 200 ∷ [])
      (new 1 2)
    ≡ (
      record { endpoint = endpoint; health = healthy; changed = true }
          ∷ record { endpoint = endpoint; health = unhealthy; changed = true }
          ∷ [],
      true,
    )
unfolding new step add_success add_failure_impl is_expected status_in_ranges
run_loop-reports_example =
    run_loop-reports config wait_interval_was_cancelled (process_http checker) endpoint
      interval_over (http_check checker) interval_waiter-AnswersBy (process_http-step checker)
      (signalled 200 ∷ answered 503 ∷ answered 200 ∷ []) (new 1 2)

abbrev after_success : HealthStatusCounter
unfolding new add_success step
after_success = (step success (new 1 2)).0

after_success-InRange : InRange after_success
unfolding after_success
after_success-InRange = step-InRange success (new 1 2) (new-InRange 1 2)

-- The interval waiter stops the loop before the threshold of 2 is reached.
outage_reported_example :
    let updates =
      (run_loop config wait_interval_was_cancelled
        (process_http checker)
        endpoint
        (unanswered ∷ unanswered ∷ [])
        after_success).0 in
    Memᴰ (down endpoint) updates ↔ (2 ≤ length updates)
unfolding new add_success step
outage_reported_example =
    outage_reported config wait_interval_was_cancelled (process_http checker) endpoint
      (unanswered ∷ unanswered ∷ []) after_success after_success-InRange refl (omega arith)
      (inl refl, (inl refl, tt))

-- The waiter of the tests lets it go on, and the outage is reported.
outage_with_mock_wait :
    (run_loop config mock_wait
      (process_http checker)
      endpoint
      (unanswered ∷ unanswered ∷ [])
      after_success).0
    ≡ record { endpoint = endpoint; health = healthy; changed = false } ∷ down endpoint ∷ []
unfolding run_loop new step add_success add_failure_impl add_failure
outage_with_mock_wait = refl

checked_once_example :
    let s =
      run config wait_interval_was_cancelled
        (process_http checker)
        endpoint
        elapsed
        (answered 200 ∷ answered 200 ∷ []) in
    (length s.0 ≤ 1) × (s.1 ≡ true) × (config.initial_jitter ≢ none → s.0 ≡ [])
checked_once_example =
    checked_once config (process_http checker) endpoint elapsed (answered 200) (answered 200 ∷ [])
      refl refl
