-- ===== src/Retry/Tests.antt =====
-- Decisions on concrete responses and errors.
use orion.Base.{◌≡◌, ◌⊎◌, refl, [], ◌∷◌, some, false}
use orion.Base.Decides.{Decides, Any}
use orion.Retry.Policy.{
  RetryPolicy, Response, response, error, err5xx, retriable_status_codes, connect_failure, io_error,
  per_try_timeout, should_retry, retry_loop, verdict, response_verdict,
}
use orion.Retry.Decision.{Allows, AllowsError, response_retried, error_retried}

-- Status codes first, and then 5xx.
abbrev policy : RetryPolicy
policy = record {
  retry_on = retriable_status_codes ∷ err5xx ∷ connect_failure ∷ [];
  num_retries = 3;
  retriable_status_codes = 429 ∷ [];
  retriable_headers = [];
  retriable_request_headers = [];
}

abbrev unavailable : Response
unavailable = record { status = 503; headers = [] }

-- A 503 is not tried again, though 5xx is listed.
shadowed : should_retry (response unavailable) policy ≡ some false
unfolding should_retry retry_loop verdict response_verdict
shadowed = refl

response_retried_example :
    Decides
      (should_retry (response unavailable) policy)
      (Any (Allows policy unavailable) (retriable_status_codes ∷ []))
response_retried_example = response_retried policy unavailable

error_retried_example :
    Decides
      (should_retry (error io_error) policy)
      ((io_error ≡ per_try_timeout) ⊎ Any (AllowsError io_error) policy.retry_on)
error_retried_example = error_retried policy io_error
