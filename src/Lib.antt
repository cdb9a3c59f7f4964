-- ===== src/Lib.antt =====
-- orion is a proxy: listeners accept connections, filters in front of them find out where a
-- connection comes from and goes to, a filter chain is selected for it, its requests are matched
-- to a route, and an endpoint of the cluster of its route serves them, with retries and rate
-- limits. This library models the parts that decide, and leaves sockets, TLS and the HTTP engine
-- out.
--
-- The files and the code they model:
--
-- - Base: numbers, lists, Boolean tests and integers that the others share. Base.Decides is about
--   tests that may panic.
-- - Net: addresses and DownstreamConnectionMetadata (orion-lib/src/listeners/filter_state.rs).
-- - Health.Status, Health.Counter: EndpointHealth and HealthStatusCounter
--   (orion-lib/src/clusters/health/mod.rs, counter.rs). The i16 counts are integers between the
--   thresholds, which are u16 and are converted where the counter is made.
-- - Health.Checker: HealthCheckerLoop and IntervalWaiter (orion-lib/src/clusters/health/checkers/checker.rs),
--   and process_response of the HTTP, gRPC and TCP checkers beside it. The loop runs over a list of
--   rounds: what a check and the wait behind it come to.
-- - Health.Payload: PayloadMatcher (orion-lib/src/clusters/health/checkers/tcp/mod.rs).
-- - Transport.Stream: what a connection delivers, read by read.
-- - Transport.Tlv: TlvListenerFilter (orion-lib/src/transport/tlv_listener_filter.rs), its loop on fuel.
-- - Transport.ProxyProtocol: the reader of PROXY protocol headers
--   (orion-lib/src/transport/proxy_protocol.rs), with the crate ppp as the record Ppp.
-- - Transport.Rewind: RewindableHeadAsyncStream (orion-lib/src/utils/rewindable_stream.rs) and
--   inspect_client_hello (orion-lib/src/transport/tls_inspector.rs), with the acceptor of rustls as a tree
--   of the reads it asks for.
-- - RateLimiter.TokenBucket: orion-lib/src/listeners/rate_limiter/token_bucket.rs; the shared time is
--   changed by calls of consume whose steps interleave.
-- - Matching.Text, Matching.Header: StringMatcher and HeaderMatcher
--   (orion-configuration/src/config/core.rs and network_filters/http_connection_manager/header_matcher.rs).
-- - Retry: RetryCondition::should_retry (orion-lib/src/clusters/retry_policy.rs).
-- - Routing.Host: MatchHost (orion-configuration/src/config/network_filters/http_connection_manager.rs)
--   and select_virtual_host (orion-lib/src/listeners/http_connection_manager.rs).
-- - Routing.Route: RouteMatch and PathRewriteSpecifier
--   (orion-configuration/src/config/network_filters/http_connection_manager/route.rs).
-- - Listener.FilterChain: FilterChainMatch (orion-configuration/src/config/listener.rs) and
--   select_filterchain (orion-lib/src/listeners/listener.rs).
-- - Listener.Rbac: NetworkRbac (orion-configuration/src/config/network_filters/network_rbac.rs) and
--   apply_rbac (orion-lib/src/listeners/filterchain.rs).
-- - Http.Forwarded, Http.Preflight: the modifiers of request headers in
--   orion-lib/src/listeners/http_connection_manager/http_modifiers.rs, over the interface Http.Headers;
--   Http.Concrete fills it with a list, and the text form of addresses with binary digits.
-- - Http.Rbac: HttpRbac (orion-configuration/src/config/network_filters/http_connection_manager/http_filters/http_rbac.rs).
-- - Http.Filters: per_route_http_filters and the filter loop of the request handler
--   (orion-lib/src/listeners/http_connection_manager.rs), with the overrides of http_filters.rs and
--   LocalRateLimit (orion-lib/src/listeners/rate_limiter/mod.rs). The loop runs on fuel, a round for each
--   time a filter asks for a new route.
-- - Http.Mutations: HeaderModifier
--   (orion-configuration/src/config/network_filters/http_connection_manager/header_modifer.rs), and the order
--   in which the request handler applies three of them.
-- - Balancing.Interface: what a balancer does (orion-lib/src/clusters/balancers/mod.rs).
-- - Balancing.Healthy: HealthyBalancer (orion-lib/src/clusters/balancers/healthy.rs).
-- - Balancing.Wrr: WeightedRoundRobinBalancer (orion-lib/src/clusters/balancers/wrr.rs); Wrr.Serving
--   fills the interface with it.
--
-- The parts meet in the values they hand on: the filters of Transport produce the metadata of Net,
-- whose addresses Listener.FilterChain matches; Routing, Retry, Listener.Rbac and Http.Rbac use
-- the matchers of Matching; Http.Filters applies the rules of Http.Rbac, and takes the external
-- processors, what the token buckets grant, the choice of a route and the table of filters that is
-- in place as the record Outside; Transport.ProxyProtocol reads through the stream of
-- Transport.Rewind; Balancing.Healthy keeps the status of Health.
--
-- State is passed explicitly: an operation takes the record of its component and returns the new
-- one. A panic of the code (an index or a slice out of range) is a result of the model: a
-- constructor of the result type, or none around it. Texts are lists of bytes. Lengths, ports,
-- times and sizes are natural numbers: the code keeps them far below the bounds of their types.
-- Where it does not, as in the sum of sizes of the TCP matcher, the wrapping is written out.
--
-- Fuel: the loop of the TLV filter has rounds max_length, and that of the TCP matcher one more
-- than its buffer may hold, which is enough for every stream; the filter loop has one round more
-- than the longest list of filters; the other loops recur on a list.
--
-- Crates that the code calls are parameters: ppp (the record Ppp), the parser of authorities and
-- of path and query of http, the query decoder of url, regular expressions and networks (as
-- functions), the header map (Headers), and the acceptor of tokio_rustls (Acceptor). So is the
-- text form of addresses of the standard library (AddrText).
--
-- Not modelled: sockets and tasks, TLS, hyper and its fork in hyper-util-fork, the conversion of
-- Envoy messages, metrics and tracing, and the balancers that hash or draw random numbers.
pub mod Base
pub mod Net
pub mod Health
pub mod Transport
pub mod RateLimiter
pub mod Matching
pub mod Retry
pub mod Routing
pub mod Http
pub mod Listener
pub mod Balancing
