-- ===== src/Health/Checker/Protocols.antt =====
-- What a response counts for: `process_response` of the checkers for HTTP, gRPC and TCP
-- (orion-lib/src/clusters/health/checkers/{http,grpc,tcp}/mod.rs).
use orion.Base.{
  ℕ, ◌≡◌, refl, Bool, true, false, ◌&&◌, ◌||◌, List, [], ◌∷◌, Option, ltb, leb, ◌==◌, any,
  if◌then◌else◌, Bool-cases, inl, inr,
}
use orion.Health.Status.{HealthStatus}
use orion.Health.Counter.{
  HealthStatusCounter, add_success, add_failure, add_failure_ignore_threshold,
}
use orion.Health.Counter.Bounds.{Check, success, failure, failure_ignore_threshold, step}

pub record HttpChecker : Type 0 where
  pub expected_statuses : List (ℕ × ℕ)
  pub retriable_statuses : List (ℕ × ℕ)

abbrev pub in_range : ℕ → ℕ × ℕ → Bool
in_range status (start, end) = leb start status && ltb status end

unfoldable pub status_in_ranges : List (ℕ × ℕ) → ℕ → Bool
status_in_ranges ranges status = any (in_range status) ranges

abbrev pub is_empty : List (ℕ × ℕ) → Bool
is_empty [] = true
is_empty (r ∷ ranges) = false

unfoldable pub is_expected : HttpChecker → ℕ → Bool
unfolding status_in_ranges
is_expected k status =
    is_empty k.expected_statuses && status == 200 || status_in_ranges k.expected_statuses status

unfoldable pub process_http :
    HttpChecker → ℕ → HealthStatusCounter → HealthStatusCounter × Option HealthStatus
process_http k status c =
    if is_expected k status
    then add_success c
    else if status_in_ranges k.retriable_statuses status
    then add_failure c
    else add_failure_ignore_threshold c

pub data ServingStatus : Type 0 where
  unknown serving not_serving service_unknown : ServingStatus

unfoldable pub process_grpc :
    ServingStatus → HealthStatusCounter → HealthStatusCounter × Option HealthStatus
process_grpc serving c = add_success c
process_grpc unknown c = add_failure c
process_grpc not_serving c = add_failure c
process_grpc service_unknown c = add_failure c

-- A TCP response has no content.
unfoldable pub process_tcp :
    Unit {0} → HealthStatusCounter → HealthStatusCounter × Option HealthStatus
process_tcp r c = add_success c

-- The kind of check that a response stands for.
abbrev pub http_check : HttpChecker → ℕ → Check
http_check k status =
    if is_expected k status
    then success
    else if status_in_ranges k.retriable_statuses status
    then failure
    else failure_ignore_threshold

pub process_http-step :
    (k : HttpChecker) (status : ℕ) (c : HealthStatusCounter)
    → process_http k status c ≡ step (http_check k status) c
unfolding process_http step add_failure add_failure_ignore_threshold
process_http-step k status c = elim (Bool-cases (is_expected k status)) [
  | inl e ↦ rw e
  | inr e ↦ rw e (elim (Bool-cases (status_in_ranges k.retriable_statuses status)) [
    | inl f ↦ rw f
    | inr f ↦ rw f
  ])
]

abbrev pub grpc_check : ServingStatus → Check
grpc_check serving = success
grpc_check _ = failure

pub process_grpc-step :
    (s : ServingStatus) (c : HealthStatusCounter) → process_grpc s c ≡ step (grpc_check s) c
unfolding process_grpc step add_failure
process_grpc-step serving c = refl
process_grpc-step _ c = refl
