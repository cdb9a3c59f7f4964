-- ===== src/Retry/Decision.antt =====
-- Which conditions are tried again.
use orion.Base.{
  ℕ, ◌≤◌, ◌≡◌, ◌↔◌, refl, Bool, true, false, ◌&&◌, List, [], ◌∷◌, Option, none, some, any, list_eq,
  leb, ◌==◌, if◌then◌else◌, arith, inl, inr, ◌⊎◌, Bool-cases,
}
use orion.Matching.Header.Defs.{HeaderMatcher, HeaderMap, response_matches}
use orion.Base.Decides.{
  Decides, Any, any_iff, or_else-Decides, or_iff, or_nothing-Decides, absent-Decides,
}
use orion.Matching.Header.Meaning.{HeaderMeaning, is_match_lem}
use orion.Matching.Text.Meaning.{list_eq_iff}
use orion.Retry.Policy.{
  EventError, io_error, connect_timeout, per_try_timeout, route_timeout, reset, refused_stream,
  http3_post_connect_failure, Response, error, response, RetryOn, err5xx, gateway_error,
  connect_failure, envoy_rate_limited, retriable4xx, retriable_status_codes, retriable_headers,
  RetryPolicy, x_envoy_ratelimited, x_orion_ratelimited, is_ratelimited, returns_if, any_header,
  response_verdict, error_verdict, verdict, is_reset, is_connect_failure, is_refused_stream,
  is_http3_post_connect_failure, after_verdict, retry_loop, should_retry, grpc_cancelled,
  grpc_deadline_exceeded, grpc_internal, grpc_resource_exhausted, grpc_unavailable,
}

-- What a policy allows for a response.
abbrev pub Allows : RetryPolicy → Response → RetryOn → Type 0
Allows policy resp err5xx = (500 ≤ resp.status) × (resp.status ≤ 599)
Allows policy resp gateway_error = (502 ≤ resp.status) × (resp.status ≤ 504)
Allows policy resp envoy_rate_limited =
    Any (λ h. (h.0 ≡ x_envoy_ratelimited) ⊎ (h.0 ≡ x_orion_ratelimited)) resp.headers
Allows policy resp retriable4xx = resp.status ≡ 409
Allows policy resp RetryOn.retriable_status_codes =
    Any (λ code. resp.status ≡ code) policy.retriable_status_codes
Allows policy resp RetryOn.retriable_headers =
    Any (λ hm. HeaderMeaning hm hm.header_name none none resp.headers) policy.retriable_headers
Allows policy resp _ = ⊥

-- These two return whatever they find.
abbrev pub is_conclusive : RetryOn → Bool
is_conclusive RetryOn.retriable_status_codes = true
is_conclusive RetryOn.retriable_headers = true
is_conclusive _ = false

abbrev pub up_to_conclusive : List RetryOn → List RetryOn
up_to_conclusive [] = []
up_to_conclusive (on ∷ ons) = on ∷ (if is_conclusive on then [] else up_to_conclusive ons)

-- What a policy allows for an error.
abbrev pub AllowsError : EventError → RetryOn → Type 0
AllowsError e RetryOn.reset = e ≡ EventError.reset
AllowsError e connect_failure = (e ≡ io_error) ⊎ (e ≡ connect_timeout)
AllowsError e RetryOn.refused_stream = e ≡ EventError.refused_stream
AllowsError e RetryOn.http3_post_connect_failure = e ≡ EventError.http3_post_connect_failure
AllowsError e _ = ⊥

any_header-Decides :
    (hms : List HeaderMatcher) (headers : HeaderMap)
    → Decides
        (any_header hms headers)
        (Any (λ hm. HeaderMeaning hm hm.header_name none none headers) hms)
unfolding any_header response_matches
any_header-Decides [] headers = (λ h. ground arith, λ q. absurd q)
any_header-Decides (hm ∷ hms) headers =
    or_else-Decides (HeaderMeaning hm hm.header_name none none headers)
      (Any (λ hm. HeaderMeaning hm hm.header_name none none headers) hms)
      (response_matches hm headers) (any_header hms headers)
      (is_match_lem hm none none headers tt tt tt) (any_header-Decides hms headers)

-- What a verdict says of a condition `P`, when the rest of the loop decides `Q`.
returns_if-Decides :
    (b : Bool) (P Q : Type 0) (rest : Option Bool)
    → (b ≡ true) ↔ P
    → Decides rest Q
    → Decides (after_verdict (returns_if b) rest) (P ⊎ Q)
returns_if-Decides true P Q none (to, from) d = (λ h. inl (to refl), λ s. refl)
returns_if-Decides true P Q (some b) (to, from) d = (λ h. inl (to refl), λ s. refl)
returns_if-Decides false P Q none (to, from) d = d
returns_if-Decides false P Q (some b) (to, from) (to', from') =
    (λ h. inr (to' h), λ s. elim s [ inl p ↦ absurd (ground (arith, from p)) | inr q ↦ from' q ])

goes_on-Decides : (Q : Type 0) (rest : Option Bool) → Decides rest Q → Decides rest (⊥ ⊎ Q)
goes_on-Decides Q rest d = absent-Decides ⊥ Q rest (λ h. h) d

between : (lo hi n : ℕ) → ((leb lo n && leb n hi) ≡ true) ↔ ((lo ≤ n) × (n ≤ hi))
between lo hi n = (λ h. (ground arith, ground arith), λ (a, b). ground arith)

equal_iff : (m n : ℕ) → ((m == n) ≡ true) ↔ (m ≡ n)
equal_iff m n = ground arith

ratelimited_iff :
    (h : List ℕ × List ℕ)
    → (is_ratelimited h ≡ true) ↔ ((h.0 ≡ x_envoy_ratelimited) ⊎ (h.0 ≡ x_orion_ratelimited))
ratelimited_iff (name, value) =
    or_iff (list_eq name x_envoy_ratelimited) (list_eq name x_orion_ratelimited)
      (name ≡ x_envoy_ratelimited) (name ≡ x_orion_ratelimited)
      (list_eq_iff name x_envoy_ratelimited) (list_eq_iff name x_orion_ratelimited)

module _ (policy : RetryPolicy) (resp : Response) (Q : Type 0) (rest : Option Bool) where
  step :
      (on : RetryOn)
      → is_conclusive on ≡ false
      → Decides rest Q
      → Decides (after_verdict (response_verdict policy resp on) rest) (Allows policy resp on ⊎ Q)
  unfolding response_verdict
  step err5xx c d =
      returns_if-Decides (leb 500 resp.status && leb resp.status 599) (Allows policy resp err5xx) Q
        rest (between 500 599 resp.status) d
  step gateway_error c d =
      returns_if-Decides (leb 502 resp.status && leb resp.status 504)
        (Allows policy resp gateway_error) Q rest (between 502 504 resp.status) d
  step envoy_rate_limited c d =
      returns_if-Decides (any is_ratelimited resp.headers) (Allows policy resp envoy_rate_limited) Q
        rest
        (any_iff is_ratelimited (λ h. (h.0 ≡ x_envoy_ratelimited) ⊎ (h.0 ≡ x_orion_ratelimited))
          resp.headers ratelimited_iff)
        d
  step retriable4xx c d =
      returns_if-Decides (resp.status == 409) (Allows policy resp retriable4xx) Q rest
        (equal_iff resp.status 409) d
  step RetryOn.retriable_status_codes c d = absurd (ground arith)
  step RetryOn.retriable_headers c d = absurd (ground arith)
  step RetryOn.reset c d = goes_on-Decides Q rest d
  step connect_failure c d = goes_on-Decides Q rest d
  step RetryOn.refused_stream c d = goes_on-Decides Q rest d
  step RetryOn.http3_post_connect_failure c d = goes_on-Decides Q rest d
  step grpc_cancelled c d = goes_on-Decides Q rest d
  step grpc_deadline_exceeded c d = goes_on-Decides Q rest d
  step grpc_internal c d = goes_on-Decides Q rest d
  step grpc_resource_exhausted c d = goes_on-Decides Q rest d
  step grpc_unavailable c d = goes_on-Decides Q rest d

-- A conclusive policy ends the loop, whatever the rest of it would find.
conclusion :
    (policy : RetryPolicy) (resp : Response) (rest : Option Bool) (on : RetryOn)
    → is_conclusive on ≡ true
    → Decides (after_verdict (response_verdict policy resp on) rest) (Allows policy resp on ⊎ ⊥)
unfolding response_verdict
conclusion policy resp rest RetryOn.retriable_status_codes c =
    or_nothing-Decides (Allows policy resp retriable_status_codes)
      (some (any (◌==◌ resp.status) policy.retriable_status_codes))
      (any_iff (◌==◌ resp.status) (λ code. resp.status ≡ code) policy.retriable_status_codes
        (equal_iff resp.status))
conclusion policy resp rest RetryOn.retriable_headers c =
    or_nothing-Decides (Allows policy resp retriable_headers)
      (any_header policy.retriable_headers resp.headers)
      (any_header-Decides policy.retriable_headers resp.headers)
conclusion policy resp rest on c = absurd (ground arith)

response_loop :
    (policy : RetryPolicy) (resp : Response) (ons : List RetryOn)
    → Decides
        (retry_loop policy (response resp) ons)
        (Any (Allows policy resp) (up_to_conclusive ons))
unfolding retry_loop verdict
response_loop policy resp [] = (λ h. ground arith, λ q. absurd q)
response_loop policy resp (on ∷ ons) = elim (Bool-cases (is_conclusive on)) [
  | inl c ↦ rw c (conclusion policy resp (retry_loop policy (response resp) ons) on c)
  | inr c ↦ rw c (
      step policy resp (Any (Allows policy resp) (up_to_conclusive ons))
        (retry_loop policy (response resp) ons) on c (response_loop policy resp ons))
]

-- A response is tried again exactly when one of the policies allows it, up to and including the
-- first that names status codes or headers: what stands behind that one is never asked.
pub response_retried :
    (policy : RetryPolicy) (resp : Response)
    → Decides
        (should_retry (response resp) policy)
        (Any (Allows policy resp) (up_to_conclusive policy.retry_on))
unfolding should_retry
response_retried policy resp = response_loop policy resp policy.retry_on

is_reset_iff : (e : EventError) → (is_reset e ≡ true) ↔ (e ≡ EventError.reset)
is_reset_iff e = ground arith

is_connect_failure_iff :
    (e : EventError) → (is_connect_failure e ≡ true) ↔ ((e ≡ io_error) ⊎ (e ≡ connect_timeout))
is_connect_failure_iff e = ground arith

is_refused_stream_iff :
    (e : EventError) → (is_refused_stream e ≡ true) ↔ (e ≡ EventError.refused_stream)
is_refused_stream_iff e = ground arith

is_http3_iff :
    (e : EventError)
    → (is_http3_post_connect_failure e ≡ true) ↔ (e ≡ EventError.http3_post_connect_failure)
is_http3_iff e = ground arith

module _ (e : EventError) (Q : Type 0) (rest : Option Bool) where
  error_step :
      (on : RetryOn)
      → Decides rest Q
      → Decides (after_verdict (error_verdict e on) rest) (AllowsError e on ⊎ Q)
  unfolding error_verdict
  error_step RetryOn.reset d =
      returns_if-Decides (is_reset e) (AllowsError e reset) Q rest (is_reset_iff e) d
  error_step connect_failure d =
      returns_if-Decides (is_connect_failure e) (AllowsError e connect_failure) Q rest
        (is_connect_failure_iff e) d
  error_step RetryOn.refused_stream d =
      returns_if-Decides (is_refused_stream e) (AllowsError e refused_stream) Q rest
        (is_refused_stream_iff e) d
  error_step RetryOn.http3_post_connect_failure d =
      returns_if-Decides (is_http3_post_connect_failure e)
        (AllowsError e http3_post_connect_failure) Q rest (is_http3_iff e) d
  error_step on d = goes_on-Decides Q rest d

error_loop :
    (policy : RetryPolicy) (e : EventError) (ons : List RetryOn)
    → Decides (retry_loop policy (error e) ons) (Any (AllowsError e) ons)
unfolding retry_loop verdict
error_loop policy e [] = (λ h. ground arith, λ q. absurd q)
error_loop policy e (on ∷ ons) =
    error_step e (Any (AllowsError e) ons) (retry_loop policy (error e) ons) on
      (error_loop policy e ons)

other_error :
    (policy : RetryPolicy) (e : EventError)
    → ¬ (e ≡ per_try_timeout)
    → Decides
        (retry_loop policy (error e) policy.retry_on)
        ((e ≡ per_try_timeout) ⊎ Any (AllowsError e) policy.retry_on)
other_error policy e n =
    absent-Decides (e ≡ per_try_timeout) (Any (AllowsError e) policy.retry_on)
      (retry_loop policy (error e) policy.retry_on) n (error_loop policy e policy.retry_on)

-- An error is tried again exactly when one of the policies names it, wherever it stands; a try that
-- has timed out is tried again in any case.
pub error_retried :
    (policy : RetryPolicy) (e : EventError)
    → Decides
        (should_retry (error e) policy)
        ((e ≡ per_try_timeout) ⊎ Any (AllowsError e) policy.retry_on)
unfolding should_retry
error_retried policy per_try_timeout = (λ h. inl refl, λ s. refl)
error_retried policy io_error = other_error policy io_error (ground arith)
error_retried policy connect_timeout = other_error policy connect_timeout (ground arith)
error_retried policy route_timeout = other_error policy route_timeout (ground arith)
error_retried policy EventError.reset = other_error policy EventError.reset (ground arith)
error_retried policy EventError.refused_stream =
    other_error policy EventError.refused_stream (ground arith)
error_retried policy EventError.http3_post_connect_failure =
    other_error policy EventError.http3_post_connect_failure (ground arith)
