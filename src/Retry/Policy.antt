-- ===== src/Retry/Policy.antt =====
-- `RetryCondition::should_retry` of orion-lib/src/clusters/retry_policy.rs, with the `RetryPolicy` of
-- orion-configuration/src/config/network_filters/http_connection_manager.rs.
use orion.Base.{
  ℕ, Bool, true, false, ◌&&◌, ◌||◌, List, [], ◌∷◌, Option, some, any, list_eq, leb, ◌==◌,
}
use orion.Base.Decides.{or_else}
use orion.Matching.Header.Defs.{
  HeaderMatcher, HeaderMap, Request, request_matches, response_matches,
}

-- orion-lib/src/event_error.rs; what an error carries is not looked at.
pub data EventError : Type 0 where
  io_error connect_timeout per_try_timeout route_timeout reset refused_stream : EventError
  http3_post_connect_failure : EventError

pub record Response : Type 0 where
  pub status : ℕ
  pub headers : HeaderMap

pub data RetryCondition : Type 0 where
  error : EventError → RetryCondition
  response : Response → RetryCondition

pub data RetryOn : Type 0 where
  err5xx gateway_error reset connect_failure envoy_rate_limited retriable4xx : RetryOn
  refused_stream retriable_status_codes retriable_headers http3_post_connect_failure : RetryOn
  grpc_cancelled grpc_deadline_exceeded grpc_internal grpc_resource_exhausted : RetryOn
  grpc_unavailable : RetryOn

pub record RetryPolicy : Type 0 where
  pub retry_on : List RetryOn
  pub num_retries : ℕ
  pub retriable_status_codes : List ℕ
  pub retriable_headers : List HeaderMatcher
  pub retriable_request_headers : List HeaderMatcher

abbrev pub x_envoy_ratelimited : List ℕ
x_envoy_ratelimited =
    b'x' ∷ b'-' ∷ b'e' ∷ b'n' ∷ b'v' ∷ b'o' ∷ b'y' ∷ b'-' ∷ b'r' ∷ b'a' ∷ b't' ∷ b'e' ∷ b'l' ∷ b'i'
    ∷ b'm' ∷ b'i' ∷ b't' ∷ b'e' ∷ b'd' ∷ []

abbrev pub x_orion_ratelimited : List ℕ
x_orion_ratelimited =
    b'x' ∷ b'-' ∷ b'o' ∷ b'r' ∷ b'i' ∷ b'o' ∷ b'n' ∷ b'-' ∷ b'r' ∷ b'a' ∷ b't' ∷ b'e' ∷ b'l' ∷ b'i'
    ∷ b'm' ∷ b'i' ∷ b't' ∷ b'e' ∷ b'd' ∷ []

abbrev pub is_ratelimited : List ℕ × List ℕ → Bool
is_ratelimited (name, value) = list_eq name x_envoy_ratelimited || list_eq name x_orion_ratelimited

-- What one policy does in the loop: it returns, or the loop goes on. `none` is a panic.
pub data Verdict : Type 0 where
  returns : Option Bool → Verdict
  goes_on : Verdict

abbrev pub returns_if : Bool → Verdict
returns_if true = returns (some true)
returns_if false = goes_on

-- `retriable_headers.iter().any(|hm| hm.response_matches(resp))`
unfoldable pub any_header : List HeaderMatcher → HeaderMap → Option Bool
unfolding response_matches
any_header [] headers = some false
any_header (hm ∷ hms) headers = or_else (response_matches hm headers) (any_header hms headers)

unfoldable pub response_verdict : RetryPolicy → Response → RetryOn → Verdict
unfolding any_header
response_verdict policy resp err5xx = returns_if (leb 500 resp.status && leb resp.status 599)
response_verdict policy resp gateway_error = returns_if (leb 502 resp.status && leb resp.status 504)
response_verdict policy resp envoy_rate_limited = returns_if (any is_ratelimited resp.headers)
response_verdict policy resp retriable4xx = returns_if (resp.status == 409)
response_verdict policy resp RetryOn.retriable_status_codes =
    returns (some (any (◌==◌ resp.status) policy.retriable_status_codes))
response_verdict policy resp RetryOn.retriable_headers =
    returns (any_header policy.retriable_headers resp.headers)
response_verdict policy resp _ = goes_on

-- The patterns of `matches!`.
abbrev pub is_reset : EventError → Bool
is_reset EventError.reset = true
is_reset _ = false

abbrev pub is_connect_failure : EventError → Bool
is_connect_failure io_error = true
is_connect_failure connect_timeout = true
is_connect_failure _ = false

abbrev pub is_refused_stream : EventError → Bool
is_refused_stream EventError.refused_stream = true
is_refused_stream _ = false

abbrev pub is_http3_post_connect_failure : EventError → Bool
is_http3_post_connect_failure EventError.http3_post_connect_failure = true
is_http3_post_connect_failure _ = false

unfoldable pub error_verdict : EventError → RetryOn → Verdict
error_verdict e RetryOn.reset = returns_if (is_reset e)
error_verdict e connect_failure = returns_if (is_connect_failure e)
error_verdict e RetryOn.refused_stream = returns_if (is_refused_stream e)
error_verdict e RetryOn.http3_post_connect_failure = returns_if (is_http3_post_connect_failure e)
error_verdict e _ = goes_on

unfoldable pub verdict : RetryPolicy → RetryCondition → RetryOn → Verdict
unfolding response_verdict error_verdict
verdict policy (error e) on = error_verdict e on
verdict policy (response resp) on = response_verdict policy resp on

abbrev pub after_verdict : Verdict → Option Bool → Option Bool
after_verdict (returns b) rest = b
after_verdict goes_on rest = rest

unfoldable pub retry_loop : RetryPolicy → RetryCondition → List RetryOn → Option Bool
unfolding verdict
retry_loop policy condition [] = some false
retry_loop policy condition (on ∷ ons) =
    after_verdict (verdict policy condition on) (retry_loop policy condition ons)

unfoldable pub should_retry : RetryCondition → RetryPolicy → Option Bool
unfolding retry_loop
should_retry (error per_try_timeout) policy = some true
should_retry (error e) policy = retry_loop policy (error e) policy.retry_on
should_retry (response resp) policy = retry_loop policy (response resp) policy.retry_on

-- Whether a request may be tried again at all.
unfoldable pub any_request_header : List HeaderMatcher → Request → Option Bool
unfolding request_matches
any_request_header [] req = some false
any_request_header (hm ∷ hms) req = or_else (request_matches hm req) (any_request_header hms req)

unfoldable pub is_retriable : RetryPolicy → Request → Option Bool
unfolding any_request_header
is_retriable policy req = elim policy.retriable_request_headers [
  | [] ↦ some true
  | hm ∷ hms ↦ any_request_header (hm ∷ hms) req
]
