-- ===== src/Http/Filters/Loop.antt =====
-- `HttpFilterValue::apply_request`, `apply_authorization_rules`, `LocalRateLimit::run`
-- (rate_limiter/mod.rs) and the filter loop of the request handler. The world is what the token
-- buckets, the external processors and the clock keep between calls; an external processor may change
-- the request.
use orion.Base.{
  ℕ, zero, suc, Bool, true, false, List, [], ◌∷◌, Option, none, some, drop, if◌then◌else◌,
}
use orion.Matching.Header.Defs.{Request}
use orion.Http.Rbac.Defs.{HttpRbac, is_permitted}
use orion.Http.Filters.Defs.{
  Parts, HttpFilterValue, rate_limit, rbac, external_processor, ignored, peer_metadata,
  set_filter_state, HttpFilter, filters_for,
}

-- Whose answer a request gets.
pub data Answer : Type 0 where
  access_denied : List ℕ → Answer
  rate_limited : Answer
  external_answer : Answer

pub data FilterDecision : Type 0 where
  continue reroute : FilterDecision
  direct_response : Answer → FilterDecision

-- `consume_one` says whether the bucket of a limiter, if it has one, grants a token; `route_of` is the match
-- of the route that `match_request_route` chooses. `http_filters_per_route` is the table that is in place,
-- which an update of the routes replaces at any time.
pub record Outside (p : Parts) : Type 1 where
  pub World : Type 0
  pub consume_one : p.Limit → World → Bool × World
  pub processed : p.External → Request → World → FilterDecision × (Request × World)
  pub route_of : Request → Option p.Match
  pub http_filters_per_route : World → List (p.Match × List (HttpFilter p))

abbrev pub unwrap_or_unknown : Option (List ℕ) → List ℕ
unwrap_or_unknown none = b'u' ∷ b'n' ∷ b'k' ∷ b'n' ∷ b'o' ∷ b'w' ∷ b'n' ∷ []
unwrap_or_unknown (some id) = id

abbrev pub authorized : Option (Bool × Option (List ℕ)) → Option FilterDecision
authorized none = none
authorized (some (true, policy)) = some continue
authorized (some (false, policy)) =
    some (direct_response (access_denied (unwrap_or_unknown policy)))

unfoldable pub apply_authorization_rules : HttpRbac → Request → Option FilterDecision
unfolding is_permitted
apply_authorization_rules rules req = authorized (is_permitted req rules)

module _ (p : Parts) (o : Outside p) where
  abbrev pub State : Type 0
  State = Request × o.World

  abbrev pub and_state : Option FilterDecision → State → Option (FilterDecision × State)
  and_state none s = none
  and_state (some decision) s = some (decision, s)

  abbrev pub limited : Bool × o.World → Request → Option (FilterDecision × State)
  limited (true, w) req = some (continue, (req, w))
  limited (false, w) req = some (direct_response rate_limited, (req, w))

  unfoldable pub apply_request : HttpFilterValue p → State → Option (FilterDecision × State)
  unfolding apply_authorization_rules
  apply_request (rbac rules) (req, w) = and_state (apply_authorization_rules rules req) (req, w)
  apply_request (rate_limit limit) (req, w) = limited (o.consume_one limit w) req
  apply_request ignored s = some (continue, s)
  apply_request peer_metadata s = some (continue, s)
  apply_request set_filter_state s = some (continue, s)
  apply_request (external_processor e) (req, w) = some (o.processed e req w)

  -- One pass over the filters of a route, from an index on.
  pub data Pass : Type 0 where
    passed : State → Pass
    rerouted : ℕ → State → Pass
    answered : Answer → Pass
    panicked : Pass

  abbrev pub enabled_value : HttpFilter p → Option (HttpFilterValue p)
  enabled_value f = if f.disabled then none else f.filter

  abbrev pub decided : Option (FilterDecision × State) → ℕ → (State → Pass) → Pass
  decided none idx next = panicked
  decided (some (continue, s)) idx next = next s
  decided (some (reroute, s)) idx next = rerouted idx s
  decided (some (direct_response answer, s)) idx next = answered answer

  abbrev pub run_filter : Option (HttpFilterValue p) → ℕ → State → (State → Pass) → Pass
  run_filter none idx s next = next s
  run_filter (some value) idx s next = decided (apply_request value s) idx next

  unfoldable pub run_filters : List (HttpFilter p) → ℕ → State → Pass
  unfolding apply_request
  run_filters [] idx s = passed s
  run_filters (f ∷ filters) idx s =
      run_filter (enabled_value f) (suc idx) s (run_filters filters (suc idx))

  -- A request is forwarded to the action of a route, or answered.
  pub data Handled : Type 0 where
    forwarded : p.Match → State → Handled
    responded : Answer → Handled
    not_found crashed out_of_fuel : Handled

  abbrev pub after_pass : p.Match → Pass → (ℕ → State → Handled) → Handled
  after_pass m (passed s) again = forwarded m s
  after_pass m (rerouted idx s) again = again idx s
  after_pass m (answered answer) again = responded answer
  after_pass m panicked again = crashed

  -- Every round loads the table again.
  unfoldable pub apply_filters : ℕ → Option p.Match → ℕ → State → Handled
  unfolding run_filters
  apply_filters zero route idx s = out_of_fuel
  apply_filters (suc n) none idx s = not_found
  apply_filters (suc n) (some m) idx s =
      after_pass m (run_filters (drop idx (filters_for p m (o.http_filters_per_route s.1))) idx s)
        (λ i t. apply_filters n (o.route_of t.0) i t)
